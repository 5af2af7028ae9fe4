-- ===== src/MallocState/SmallBins/Unlink.antt =====
-- `unlink_small_chunk` and `unlink_first_small_chunk` on the lists that the small bins stand for.
use unimem.Base.{ℕ, ◌+◌, ◌≤◌, ◌≡◌, ◌≢◌, refl, arith, ◌⊎◌, inl, inr, List, [], ◌∷◌, ◌++◌, update}
use unimem.Machine.{Ptr, null, Memory, State, ok, load, store}
use unimem.Chunk.{fd_at, bk_at}
use unimem.MallocState.Bitmap.{without_bit, clear_smallmap}
use unimem.MallocState.Top.{smallbin_at, ok_address}
use unimem.MallocState.SmallBins.{small_index, unlink_first_small_chunk, unlink_small_chunk}
use unimem.MallocState.SmallBins.Ring.{
  Apart, AllApart, Distinct, AllValid, Links, IsBin, SameLinks, Links-frame,
}
use unimem.MallocState.SmallBins.Insert.{first_or, smallbin_at-pos}

abbrev pub last_or : Ptr → List Ptr → Ptr
last_or q [] = q
last_or q (x ∷ xs) = last_or x xs

-- The memory after what stood between `b` and `f` has been cut out.
abbrev pub unlinked : Memory → Ptr → Ptr → Memory
unlinked m b f = update (update m (f + bk_at) b) (b + fd_at) f

pub AllApart-append :
    (a : Ptr) (xs ys : List Ptr) → AllApart a (xs ++ ys) → AllApart a xs × AllApart a ys
AllApart-append a [] ys h = (tt, h)
AllApart-append a (x ∷ xs) ys h = let rest = AllApart-append a xs ys h.1 in ((h.0, rest.0), rest.1)

pub append-AllApart :
    (a : Ptr) (xs ys : List Ptr) → AllApart a xs → AllApart a ys → AllApart a (xs ++ ys)
append-AllApart a [] ys h k = k
append-AllApart a (x ∷ xs) ys h k = (h.0, append-AllApart a xs ys h.1 k)

pub Apart-last_or : (a q : Ptr) (xs : List Ptr) → Apart a q → AllApart a xs → Apart a (last_or q xs)
Apart-last_or a q [] h k = h
Apart-last_or a q (x ∷ xs) h k = Apart-last_or a x xs k.0 k.1

pub Apart-first_or :
    (a b : Ptr) (ys : List Ptr) → Apart a b → AllApart a ys → Apart a (first_or b ys)
Apart-first_or a b [] h k = h
Apart-first_or a b (y ∷ ys) h k = k.0

Same_or_Apart-first_or :
    (q b : Ptr) (ys : List Ptr)
    → (q ≡ b) ⊎ Apart q b
    → AllApart q ys
    → (q ≡ first_or b ys) ⊎ Apart q (first_or b ys)
Same_or_Apart-first_or q b [] h k = h
Same_or_Apart-first_or q b (y ∷ ys) h k = inr k.0

Same_or_Apart-last_or :
    (x : Ptr) (xs : List Ptr) → AllApart x xs → (x ≡ last_or x xs) ⊎ Apart x (last_or x xs)
Same_or_Apart-last_or x [] k = inl refl
Same_or_Apart-last_or x (y ∷ ys) k = inr (Apart-last_or x y ys k.0 k.1)

-- What the neighbours of a chunk in a segment are.
pub neighbours :
    (m : Memory) (b q p : Ptr) (xs ys : List Ptr)
    → Links m b q (xs ++ p ∷ ys)
    → (m (p + fd_at) ≡ first_or b ys)
      × (m (p + bk_at) ≡ last_or q xs)
      × (m (first_or b ys + bk_at) ≡ p)
      × (m (last_or q xs + fd_at) ≡ p)
neighbours m b q p [] [] l = (l.2.0, l.1, l.2.1, l.0)
neighbours m b q p [] (y ∷ ys) l = (l.2.0, l.1, l.2.1, l.0)
neighbours m b q p (x ∷ xs) ys l = neighbours m b x p xs ys l.2

pub SameLinks-unlinked :
    (m : Memory) (b f : Ptr) (ys : List Ptr)
    → AllApart b ys
    → AllApart f ys
    → SameLinks m (unlinked m b f) ys
SameLinks-unlinked m b f [] hb hf = tt
SameLinks-unlinked m b f (y ∷ ys) hb hf =
    (ground arith, ground arith, SameLinks-unlinked m b f ys hb.1 hf.1)

-- Cut out of a segment, a chunk leaves a segment.
pub unlinked-Links :
    (m : Memory) (b q p : Ptr) (xs ys : List Ptr)
    → (q ≡ b) ⊎ Apart q b
    → AllApart q (xs ++ ys)
    → AllApart b (xs ++ ys)
    → Distinct (xs ++ ys)
    → Links m b q (xs ++ p ∷ ys)
    → Links (unlinked m (last_or q xs) (first_or b ys)) b q (xs ++ ys)
unlinked-Links m b q p [] [] qb aq ab d l = ground arith
unlinked-Links m b q p [] (y ∷ ys) qb aq ab d l = (
  ground arith,
  ground arith,
  Links-frame m (unlinked m q y) b y ys (SameLinks-unlinked m q y ys aq.1 d.0) (ground arith)
      (ground arith) l.2.2,
)
unlinked-Links m b q p (x ∷ xs) ys qb aq ab d l =
    let (qx, qy) = AllApart-append q xs ys aq.1 in
    let (xx, xy) = AllApart-append x xs ys d.0 in
    let last : Apart q (last_or x xs) = Apart-last_or q x xs aq.0 qx in
    (
      ground (arith, Same_or_Apart-first_or q b ys qb qy),
      ground (arith, Apart-first_or x b ys (ground arith) xy, Same_or_Apart-last_or x xs xx),
      unlinked-Links m b x p xs ys (ground arith) d.0 ab.1 d.1 l.2,
    )

-- The state after a chunk between `xs` and `ys` has left the bin `i`.
abbrev pub removed : State → ℕ → List Ptr → List Ptr → State
removed s i [] [] = record s { smallmap = without_bit s.smallmap i }
removed s i [] (y ∷ ys) = record s { mem = unlinked s.mem (smallbin_at i s) y }
removed s i (x ∷ xs) ys = record s {
  mem = unlinked s.mem (last_or x xs) (first_or (smallbin_at i s) ys);
}

-- The valid chunks and the bin are no null pointers, and the checks let the chunks through.
Valid-first_or :
    (least b : Ptr) (xs ys : List Ptr) (p : Ptr)
    → AllValid least (xs ++ p ∷ ys)
    → (first_or b ys ≡ b) ⊎ ((first_or b ys ≢ null) × (least ≤ first_or b ys))
Valid-first_or least b [] [] p v = inl refl
Valid-first_or least b [] (y ∷ ys) p v = inr v.1.0
Valid-first_or least b (x ∷ xs) ys p v = Valid-first_or least b xs ys p v.1

Valid-last_or :
    (least q : Ptr) (xs ys : List Ptr)
    → (q ≢ null) × (least ≤ q)
    → AllValid least (xs ++ ys)
    → (last_or q xs ≢ null) × (least ≤ last_or q xs)
Valid-last_or least q [] ys h v = h
Valid-last_or least q (x ∷ xs) ys h v = Valid-last_or least x xs ys v.0 v.1

Valid-middle :
    (least p : Ptr) (xs ys : List Ptr) → AllValid least (xs ++ p ∷ ys) → (p ≢ null) × (least ≤ p)
Valid-middle least p [] ys v = v.0
Valid-middle least p (x ∷ xs) ys v = Valid-middle least p xs ys v.1

last-Apart :
    (x p y : Ptr) (xs ys : List Ptr)
    → AllApart x (xs ++ p ∷ y ∷ ys)
    → Distinct (xs ++ p ∷ y ∷ ys)
    → Apart (last_or x xs) y
last-Apart x p y [] ys a d = a.1.0
last-Apart x p y (z ∷ zs) ys a d = last-Apart z p y zs ys d.0 d.1

pub unlink-runs :
    (s : State) (p n : ℕ) (xs ys : List Ptr)
    → IsBin s (small_index n) (xs ++ p ∷ ys)
    → unlink_small_chunk p n s ≡ ok tt (removed s (small_index n) xs ys)
unfolding unlink_small_chunk clear_smallmap ok_address load store
unlink-runs s p n [] [] is =
    let b = smallbin_at (small_index n) s in
    let near = neighbours s.mem b b p [] [] is.links in
    ground (arith, smallbin_at-pos (small_index n) s, near, is.valid.0)
unlink-runs s p n [] (y ∷ ys) is =
    let b = smallbin_at (small_index n) s in
    let near = neighbours s.mem b b p [] (y ∷ ys) is.links in
    ground (arith, smallbin_at-pos (small_index n) s, near, is.valid.0, is.valid.1.0, is.apart)
unlink-runs s p n (x ∷ xs) [] is =
    let b = smallbin_at (small_index n) s in
    let near = neighbours s.mem b b p (x ∷ xs) [] is.links in
    ground (
      arith,
      smallbin_at-pos (small_index n) s,
      near,
      Valid-middle s.least_addr p (x ∷ xs) [] is.valid,
      Valid-last_or s.least_addr x xs (p ∷ []) is.valid.0 is.valid.1,
      Apart-last_or b x xs is.apart.0 (AllApart-append b xs (p ∷ []) is.apart.1).0,
    )
unlink-runs s p n (x ∷ xs) (y ∷ ys) is =
    let b = smallbin_at (small_index n) s in
    let near = neighbours s.mem b b p (x ∷ xs) (y ∷ ys) is.links in
    ground (
      arith,
      smallbin_at-pos (small_index n) s,
      near,
      Valid-middle s.least_addr p (x ∷ xs) (y ∷ ys) is.valid,
      Valid-last_or s.least_addr x xs (p ∷ y ∷ ys) is.valid.0 is.valid.1,
      Valid-first_or s.least_addr b (x ∷ xs) (y ∷ ys) p is.valid,
      Apart-last_or b x xs is.apart.0 (AllApart-append b xs (p ∷ y ∷ ys) is.apart.1).0,
      last-Apart x p y xs ys is.distinct.0 is.distinct.1,
    )

pub unlink_first-runs :
    (s : State) (p i : ℕ) (ys : List Ptr)
    → IsBin s i (p ∷ ys)
    → unlink_first_small_chunk (smallbin_at i s) p i s ≡ ok tt (removed s i [] ys)
unfolding unlink_first_small_chunk clear_smallmap ok_address load store
unlink_first-runs s p i [] is = ground (arith, smallbin_at-pos i s, is.links, is.valid.0)
unlink_first-runs s p i (y ∷ ys) is = ground (
  arith,
  smallbin_at-pos i s,
  is.links.0,
  is.links.1,
  is.links.2.0,
  is.links.2.1,
  is.valid.0,
  is.valid.1.0,
  is.apart,
)
