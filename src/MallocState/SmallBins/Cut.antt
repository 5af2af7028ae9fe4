-- ===== src/MallocState/SmallBins/Cut.antt =====
-- Chunks taken out of the table of small bins.
use unimem.Base.{ℕ, ◌<◌, ◌≡◌, refl, sym, arith, List, [], ◌∷◌, ◌++◌}
use unimem.Machine.{Ptr, State, ok}
use unimem.MallocState.Top.{smallbin_at}
use unimem.MallocState.SmallBins.{small_index, unlink_first_small_chunk, unlink_small_chunk}
use unimem.MallocState.SmallBins.Ring.{AllApart, IsBin}
use unimem.MallocState.SmallBins.Unlink.{
  last_or, removed, unlink-runs, unlink_first-runs, AllApart-append, Apart-last_or, Apart-first_or,
}
use unimem.MallocState.SmallBins.Removed.{AllApart-drop, removed-IsBin, removed-other}
use unimem.MallocState.SmallBins.Table.{
  Cross, AllOutside, IsTable, set_bin, set_bin-IsTable, Apart-bins, AllApart-Outside, anchor,
  AllApart-first_or,
}

removed-gm : (s : State) (i : ℕ) (xs ys : List Ptr) → (removed s i xs ys).gm ≡ s.gm
removed-gm s i [] [] = refl
removed-gm s i [] (y ∷ ys) = refl
removed-gm s i (x ∷ xs) ys = refl

AllApart-last_or :
    (b : Ptr) (xs ys : List Ptr) → AllApart b ys → Cross xs ys → AllApart (last_or b xs) ys
AllApart-last_or b [] ys h c = h
AllApart-last_or b (x ∷ xs) ys h c = AllApart-last_or x xs ys c.0 c.1

Cross-drop : (p : Ptr) (xs ys zs : List Ptr) → Cross (xs ++ p ∷ ys) zs → Cross (xs ++ ys) zs
Cross-drop p [] ys zs c = c.1
Cross-drop p (x ∷ xs) ys zs c = (c.0, Cross-drop p xs ys zs c.1)

Cross-drop_right : (p : Ptr) (xs ys zs : List Ptr) → Cross zs (xs ++ p ∷ ys) → Cross zs (xs ++ ys)
Cross-drop_right p xs ys [] c = tt
Cross-drop_right p xs ys (z ∷ zs) c = (AllApart-drop z p xs ys c.0, Cross-drop_right p xs ys zs c.1)

AllOutside-drop :
    (gm p : Ptr) (xs ys : List Ptr) → AllOutside gm (xs ++ p ∷ ys) → AllOutside gm (xs ++ ys)
AllOutside-drop gm p [] ys o = o.1
AllOutside-drop gm p (x ∷ xs) ys o = (o.0, AllOutside-drop gm p xs ys o.1)

Cross-front : (xs ys zs : List Ptr) → Cross (xs ++ ys) zs → Cross xs zs × Cross ys zs
Cross-front [] ys zs c = (tt, c)
Cross-front (x ∷ xs) ys zs c = let rest = Cross-front xs ys zs c.1 in ((c.0, rest.0), rest.1)

module _ (s : State) (bins : ℕ → List Ptr) (table : IsTable s bins) (i : ℕ) (low : i < 32) (p : Ptr)
    (xs ys : List Ptr) (held : bins i ≡ xs ++ p ∷ ys) where
  pub removed-IsTable : IsTable (removed s i xs ys) (set_bin bins i (xs ++ ys))
  removed-IsTable =
      let bin : IsBin s i (xs ++ p ∷ ys) = rw held at (table.each i low) in
      let out : AllOutside s.gm (xs ++ p ∷ ys) = rw held at (table.outside i low) in
      set_bin-IsTable s (removed s i xs ys) bins i (xs ++ ys) table (removed-gm s i xs ys)
        (removed-IsBin s p i xs ys bin) (AllOutside-drop s.gm p xs ys out)
        λ j below ne.
          let c : Cross (xs ++ p ∷ ys) (bins j) = rw held at (table.cross i j low below ne) in
          let c' : Cross (bins j) (xs ++ p ∷ ys) =
            rw held at (table.cross j i below low (λ e. ne (sym e))) in
          let (front, back) = Cross-front xs (p ∷ ys) (bins j) c in
          let far = AllApart-Outside s j (xs ++ p ∷ ys) below out in
          let (far_front, far_back) = AllApart-append (smallbin_at j s) xs (p ∷ ys) far in
          let apart = Apart-bins s j i (λ e. ne (sym e)) in
          (
            removed-other s i j xs ys (bins j) low ne (table.each j below)
                (Apart-last_or (smallbin_at j s) (smallbin_at i s) xs apart far_front)
                (Apart-first_or (smallbin_at j s) (smallbin_at i s) ys apart far_back.1)
                (AllApart-last_or (smallbin_at i s) xs (bins j) (anchor s bins table i low j below)
                  front)
                (AllApart-first_or (smallbin_at i s) ys (bins j) (anchor s bins table i low j below)
                  back.1),
            Cross-drop p xs ys (bins j) c,
            Cross-drop_right p xs ys (bins j) c',
          )

-- Where the small bins hold a table of lists, unlinking a chunk of the size `n` below 256,
-- wherever it stands in its bin, returns, and takes it out of the list of that bin; the other
-- bins hold what they held.
pub unlink_small_chunk-IsTable :
    (s : State) (bins : ℕ → List Ptr) (p n : ℕ) (xs ys : List Ptr)
    → IsTable s bins
    → n < 256
    → bins (small_index n) ≡ xs ++ p ∷ ys
    → (s' : State) × (unlink_small_chunk p n s ≡ ok tt s')
      × IsTable s' (set_bin bins (small_index n) (xs ++ ys))
unlink_small_chunk-IsTable s bins p n xs ys table high held =
    let below : small_index n < 32 = omega arith in
    (
      removed s (small_index n) xs ys,
      unlink-runs s p n xs ys (rw held at (table.each (small_index n) below)),
      removed-IsTable s bins table (small_index n) below p xs ys held,
    )

-- Where the small bins hold a table of lists, unlinking the first chunk of the bin `i` returns,
-- and takes it out of that list; the other bins hold what they held.
pub unlink_first_small_chunk-IsTable :
    (s : State) (bins : ℕ → List Ptr) (p i : ℕ) (ys : List Ptr)
    → IsTable s bins
    → i < 32
    → bins i ≡ p ∷ ys
    → (s' : State) × (unlink_first_small_chunk (smallbin_at i s) p i s ≡ ok tt s')
      × IsTable s' (set_bin bins i ys)
unlink_first_small_chunk-IsTable s bins p i ys table low held = (
  removed s i [] ys,
  unlink_first-runs s p i ys (rw held at (table.each i low)),
  removed-IsTable s bins table i low p [] ys held,
)
