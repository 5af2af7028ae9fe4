-- ===== src/MallocState/SmallBins/Table.antt =====
-- All small bins at once, as a function from the index to the list of chunks.
use unimem.Base.{
  ℕ, ◌+◌, ◌≤◌, ◌<◌, ◌≡◌, ◌≢◌, refl, sym, arith, ◌⊎◌, inl, inr, false, Bool-cases, List, [], ◌∷◌,
  ◌==◌, if◌then◌else◌,
}
use unimem.Machine.{Ptr, null, State, ok}
use unimem.MallocState.Top.{smallbin_at}
use unimem.MallocState.SmallBins.{small_index, insert_small_chunk}
use unimem.MallocState.SmallBins.Ring.{Apart, AllApart, IsBin}
use unimem.MallocState.SmallBins.Insert.{
  first_or, inserted, insert-runs, inserted-IsBin, inserted-other,
}
use unimem.MallocState.SmallBins.Unlink.{Apart-first_or}

-- Every chunk of the one list is apart from every chunk of the other.
abbrev pub Cross : List Ptr → List Ptr → Type 0
Cross [] ys = Unit
Cross (x ∷ xs) ys = AllApart x ys × Cross xs ys

-- A chunk does not overlap the array `smallbins` of the object at `gm`.
abbrev pub Outside : Ptr → Ptr → Type 0
Outside gm x = (x + 32 ≤ gm + 72) ⊎ (gm + 600 ≤ x)

abbrev pub AllOutside : Ptr → List Ptr → Type 0
AllOutside gm [] = Unit
AllOutside gm (x ∷ xs) = Outside gm x × AllOutside gm xs

-- The small bins hold the lists `bins 0`, …, `bins 31`.
pub record IsTable (s : State) (bins : ℕ → List Ptr) : Type 0 where
  pub each : (i : ℕ) → i < 32 → IsBin s i (bins i)
  pub cross : (i j : ℕ) → i < 32 → j < 32 → i ≢ j → Cross (bins i) (bins j)
  pub outside : (i : ℕ) → i < 32 → AllOutside s.gm (bins i)

-- The table with the list at one index changed.
abbrev pub set_bin : (ℕ → List Ptr) → ℕ → List Ptr → ℕ → List Ptr
set_bin bins i xs j = if j == i then xs else bins j

-- The array of bins is apart from the chunks outside of it, and from itself.
pub Apart-Outside :
    (s : State) (i : ℕ) (x : Ptr) → i < 32 → Outside s.gm x → Apart (smallbin_at i s) x
unfolding smallbin_at
Apart-Outside s i x h out = omega arith

pub AllApart-Outside :
    (s : State) (i : ℕ) (xs : List Ptr)
    → i < 32
    → AllOutside s.gm xs
    → AllApart (smallbin_at i s) xs
AllApart-Outside s i [] h out = tt
AllApart-Outside s i (x ∷ xs) h out = (Apart-Outside s i x h out.0, AllApart-Outside s i xs h out.1)

pub Apart-bins : (s : State) (i j : ℕ) → i ≢ j → Apart (smallbin_at i s) (smallbin_at j s)
unfolding smallbin_at
Apart-bins s i j ne = omega arith

Cross-cons_right : (p : Ptr) (xs ys : List Ptr) → AllApart p xs → Cross xs ys → Cross xs (p ∷ ys)
Cross-cons_right p [] ys h c = tt
Cross-cons_right p (x ∷ xs) ys h c = ((ground arith, c.0), Cross-cons_right p xs ys h.1 c.1)

pub AllApart-first_or :
    (b : Ptr) (xs ys : List Ptr) → AllApart b ys → Cross xs ys → AllApart (first_or b xs) ys
AllApart-first_or b [] ys h c = h
AllApart-first_or b (x ∷ xs) ys h c = c.0

-- A chunk that can be put into the table.
pub record IsFresh (s : State) (bins : ℕ → List Ptr) (p : Ptr) : Type 0 where
  pub ne_null : p ≢ null
  pub address : s.least_addr ≤ p
  pub outside : Outside s.gm p
  pub apart : (i : ℕ) → i < 32 → AllApart p (bins i)

-- A change of one bin makes a table again, if the new list is apart from the others.
pub set_bin-IsTable :
    (s s' : State) (bins : ℕ → List Ptr) (i : ℕ) (xs : List Ptr)
    → IsTable s bins
    → s'.gm ≡ s.gm
    → IsBin s' i xs
    → AllOutside s.gm xs
    → ((j : ℕ) → j < 32 → i ≢ j → IsBin s' j (bins j) × Cross xs (bins j) × Cross (bins j) xs)
    → IsTable s' (set_bin bins i xs)
set_bin-IsTable s s' bins i xs table gm bin out rest = record {
  each = λ j below. elim (Bool-cases (j == i)) [
    | inl e ↦ let q : j ≡ i = ground arith in rw e (rw q bin)
    | inr e ↦ rw e (rest j below (ground arith)).0
  ];
  cross = λ j k p q ne. elim (Bool-cases (j == i)) [
    | inl e ↦
        let other : (k == i) ≡ false = ground arith in rw (e, other) (rest k q (ground arith)).1
    | inr e ↦ elim (Bool-cases (k == i)) [
      | inl e' ↦ rw (e, e') (rest j p (ground arith)).2
      | inr e' ↦ rw (e, e') (table.cross j k p q ne)
    ]
  ];
  outside = λ j below. elim (Bool-cases (j == i)) [
    | inl e ↦ rw (gm, e) out
    | inr e ↦ rw (gm, e) (table.outside j below)
  ];
}

inserted-gm : (s : State) (p i : ℕ) (xs : List Ptr) → (inserted s p i xs).gm ≡ s.gm
inserted-gm s p i [] = refl
inserted-gm s p i (x ∷ xs) = refl

module _ (s : State) (bins : ℕ → List Ptr) (table : IsTable s bins) (i : ℕ) (low : i < 32) where
  -- The anchor of the bin `i` is apart from the chunks of every bin.
  pub anchor : (j : ℕ) → j < 32 → AllApart (smallbin_at i s) (bins j)
  anchor j below = AllApart-Outside s i (bins j) low (table.outside j below)

  pub inserted-IsTable :
      (p : Ptr) → IsFresh s bins p → IsTable (inserted s p i (bins i)) (set_bin bins i (p ∷ bins i))
  inserted-IsTable p fresh =
      set_bin-IsTable s (inserted s p i (bins i)) bins i (p ∷ bins i) table
        (inserted-gm s p i (bins i))
        (inserted-IsBin s p i (bins i) (table.each i low) fresh.ne_null fresh.address
          (Apart-Outside s i p low fresh.outside) (fresh.apart i low))
        (fresh.outside, table.outside i low)
        λ j below ne.
          let c = table.cross i j low below ne in
          (
            inserted-other s p i j (bins i) (bins j) low ne (table.each j below)
                (
                  Apart-bins s j i (λ e. ne (sym e)),
                  Apart-first_or (smallbin_at j s) (smallbin_at i s) (bins i)
                      (Apart-bins s j i (λ e. ne (sym e)))
                      (AllApart-Outside s j (bins i) below (table.outside i low)),
                  Apart-Outside s j p below fresh.outside,
                )
                (anchor j below)
                (AllApart-first_or (smallbin_at i s) (bins i) (bins j) (anchor j below) c)
                (fresh.apart j below),
            (fresh.apart j below, c),
            Cross-cons_right p (bins j) (bins i) (fresh.apart j below)
                (table.cross j i below low (λ e. ne (sym e))),
          )

-- Where the small bins hold a table of lists, inserting a chunk of a size `n` from 32 to below
-- 256 that is apart from all of them returns, and puts it in front of the list of its bin; the
-- other bins hold what they held.
pub insert_small_chunk-IsTable :
    (s : State) (bins : ℕ → List Ptr) (p n : ℕ)
    → IsTable s bins
    → IsFresh s bins p
    → 32 ≤ n
    → n < 256
    → (s' : State) × (insert_small_chunk p n s ≡ ok tt s')
      × IsTable s' (set_bin bins (small_index n) (p ∷ bins (small_index n)))
insert_small_chunk-IsTable s bins p n table fresh low high =
    let i = small_index n in
    let below : i < 32 = omega arith in
    (
      inserted s p i (bins i),
      insert-runs s p n (bins i) (table.each i below) fresh.ne_null low,
      inserted-IsTable s bins table i below p fresh,
    )
