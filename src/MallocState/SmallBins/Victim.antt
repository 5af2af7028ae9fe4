-- ===== src/MallocState/SmallBins/Victim.antt =====
-- The replacement of the designated victim: the old one goes into its bin.
use unimem.Base.{
  ℕ, ◌≤◌, ◌<◌, ◌≡◌, refl, arith, ◌⊎◌, inl, inr, true, false, List, ◌∷◌, ◌==◌, if◌then◌else◌,
}
use unimem.Machine.{Ptr, State, ok}
use unimem.MallocState.Top.{smallbin_at}
use unimem.MallocState.SmallBins.{is_small, small_index, replace_dv}
use unimem.MallocState.SmallBins.Table.{IsTable, IsFresh, set_bin, inserted-IsTable}
use unimem.MallocState.SmallBins.Insert.{inserted, insert-runs}
use unimem.MallocState.SmallBins.Frame.{NoLink, IsSpared, inserted-spared}

-- There is no designated victim, or it is a chunk of a small size that is in no bin.
abbrev pub IsVictim : State → (ℕ → List Ptr) → Type 0
IsVictim s bins = (s.dvsize ≡ 0) ⊎ ((32 ≤ s.dvsize) × (s.dvsize < 256) × IsFresh s bins s.dv)

-- The table with the designated victim, if any, put into its bin.
abbrev pub with_victim : State → (ℕ → List Ptr) → ℕ → List Ptr
with_victim s bins =
    if s.dvsize == 0
    then bins
    else set_bin bins (small_index s.dvsize) (s.dv ∷ bins (small_index s.dvsize))

abbrev pub with_dv : State → Ptr → ℕ → State
with_dv s p n = record s { dvsize = n; dv = p }

pub IsTable-with_dv :
    (s : State) (bins : ℕ → List Ptr) (p n : ℕ) → IsTable s bins → IsTable (with_dv s p n) bins
unfolding smallbin_at
IsTable-with_dv s bins p n table = record {
  each = λ i low.
      let bin = table.each i low in
      record {
        index = bin.index;
        map = bin.map;
        marked = bin.marked;
        links = bin.links;
        apart = bin.apart;
        distinct = bin.distinct;
        valid = bin.valid;
      };
  cross = table.cross;
  outside = table.outside;
}

-- Where the small bins hold a table of lists and the designated victim, if there is one, is of a
-- small size and in none of them, its replacement returns: the new one is as given, the old one
-- stands in front of the list of its bin, and no word changes but links of the table and of the
-- old one.
pub replace_dv-IsTable :
    (s : State) (bins : ℕ → List Ptr) (p n : ℕ)
    → IsTable s bins
    → IsVictim s bins
    → (s' : State) × (replace_dv p n s ≡ ok tt s')
      × IsTable s' (with_victim s bins)
      × (s'.dv ≡ p)
      × (s'.dvsize ≡ n)
      × ((a : Ptr) → IsSpared s bins a → NoLink a s.dv → s'.mem a ≡ s.mem a)
unfolding replace_dv
replace_dv-IsTable s bins p n table (inl absent) =
    let empty : (s.dvsize == 0) ≡ true = ground arith in
    let small : is_small s.dvsize ≡ true = ground arith in
    (
      with_dv s p n,
      rw (small, empty) refl,
      rw empty (IsTable-with_dv s bins p n table),
      refl,
      refl,
      λ a spared own. refl,
    )
replace_dv-IsTable s bins p n table (inr (low, high, fresh)) =
    let some_victim : (s.dvsize == 0) ≡ false = ground arith in
    let small : is_small s.dvsize ≡ true = ground arith in
    let i = small_index s.dvsize in
    let below : i < 32 = omega (arith, high) in
    let s1 = inserted s s.dv i (bins i) in
    let runs = insert-runs s s.dv s.dvsize (bins i) (table.each i below) fresh.ne_null low in
    let t1 = inserted-IsTable s bins table i below s.dv fresh in
    (
      with_dv s1 p n,
      rw (small, some_victim, runs) refl,
      rw some_victim (IsTable-with_dv s1 (set_bin bins i (s.dv ∷ bins i)) p n t1),
      refl,
      refl,
      λ a spared own. inserted-spared s s.dv i a (bins i) own (spared i below).0 (spared i below).1,
    )
