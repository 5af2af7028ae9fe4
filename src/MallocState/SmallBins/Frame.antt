-- ===== src/MallocState/SmallBins/Frame.antt =====
-- Words that no link of a small bin stands in: header words and footers.
use unimem.Base.{
  ℕ, ◌+◌, ◌<◌, ◌≡◌, ◌≢◌, refl, arith, inl, inr, Bool-cases, List, [], ◌∷◌, ◌==◌, update,
}
use unimem.Machine.{Ptr, Memory, State}
use unimem.Machine.Returns.{write}
use unimem.Chunk.{fd_at, bk_at}
use unimem.MallocState.Top.{smallbin_at}
use unimem.MallocState.SmallBins.Ring.{LinksIfAny, SameLinks, Links-frame}
use unimem.MallocState.SmallBins.Insert.{inserted}
use unimem.MallocState.SmallBins.Unlink.{removed}
use unimem.MallocState.SmallBins.Table.{IsTable, set_bin}

-- The word at `a` is neither the `fd` nor the `bk` of the chunk.
abbrev pub NoLink : Ptr → Ptr → Type 0
NoLink a x = (a ≢ x + fd_at) × (a ≢ x + bk_at)

abbrev pub NoLinks : Ptr → List Ptr → Type 0
NoLinks a [] = Unit
NoLinks a (x ∷ xs) = NoLink a x × NoLinks a xs

-- The word at `a` is no link of an anchor or of a chunk in the table.
abbrev pub IsSpared : State → (ℕ → List Ptr) → Ptr → Type 0
IsSpared s bins a = (i : ℕ) → i < 32 → NoLink a (smallbin_at i s) × NoLinks a (bins i)

SameLinks-spared :
    (m : Memory) (a v : ℕ) (xs : List Ptr) → NoLinks a xs → SameLinks m (update m a v) xs
SameLinks-spared m a v [] spared = tt
SameLinks-spared m a v (x ∷ xs) spared =
    (ground (arith, spared.0), ground (arith, spared.0), SameLinks-spared m a v xs spared.1)

LinksIfAny-spared :
    (m : Memory) (b a v : ℕ) (xs : List Ptr)
    → NoLink a b
    → NoLinks a xs
    → LinksIfAny m b xs
    → LinksIfAny (update m a v) b xs
LinksIfAny-spared m b a v [] anchor spared links = tt
LinksIfAny-spared m b a v (x ∷ xs) anchor spared links =
    Links-frame m (update m a v) b b (x ∷ xs) (SameLinks-spared m a v (x ∷ xs) spared)
      (ground (arith, anchor)) (ground (arith, anchor)) links

-- Writing such a word leaves the table as it was.
pub IsTable-write :
    (s : State) (bins : ℕ → List Ptr) (a v : ℕ)
    → IsTable s bins
    → IsSpared s bins a
    → IsTable (write s a v) bins
unfolding smallbin_at
IsTable-write s bins a v table spared = record {
  each = λ i low.
      let bin = table.each i low in
      record {
        index = bin.index;
        map = bin.map;
        marked = bin.marked;
        links =
            LinksIfAny-spared s.mem (smallbin_at i s) a v (bins i) (spared i low).0 (spared i low).1
              bin.links;
        apart = bin.apart;
        distinct = bin.distinct;
        valid = bin.valid;
      };
  cross = table.cross;
  outside = table.outside;
}

pub IsSpared-tail :
    (s : State) (bins : ℕ → List Ptr) (a i p : ℕ) (ys : List Ptr)
    → bins i ≡ p ∷ ys
    → i < 32
    → IsSpared s bins a
    → IsSpared s (set_bin bins i ys) a
IsSpared-tail s bins a i p ys held low spared j below = elim (Bool-cases (j == i)) [
  | inl e ↦ rw e ((spared j below).0, (rw held at (spared i low).1).1)
  | inr e ↦ rw e (spared j below)
]

pub IsSpared-cons :
    (s : State) (bins : ℕ → List Ptr) (a i p : ℕ)
    → NoLink a p
    → IsSpared s bins a
    → IsSpared s (set_bin bins i (p ∷ bins i)) a
IsSpared-cons s bins a i p own spared j below = elim (Bool-cases (j == i)) [
  | inl e ↦
      let q : j ≡ i = ground arith in
      let low : i < 32 = omega arith in rw e ((spared j below).0, (own, (spared i low).1))
  | inr e ↦ rw e (spared j below)
]

-- The anchors stay where they are.
pub IsSpared-removed :
    (s : State) (bins : ℕ → List Ptr) (i a : ℕ) (ys : List Ptr)
    → IsSpared s bins a
    → IsSpared (removed s i [] ys) bins a
unfolding smallbin_at
IsSpared-removed s bins i a [] spared = spared
IsSpared-removed s bins i a (y ∷ ys) spared = spared

pub IsSpared-inserted :
    (s : State) (bins : ℕ → List Ptr) (p i a : ℕ) (ys : List Ptr)
    → IsSpared s bins a
    → IsSpared (inserted s p i ys) bins a
unfolding smallbin_at
IsSpared-inserted s bins p i a [] spared = spared
IsSpared-inserted s bins p i a (y ∷ ys) spared = spared

-- Insertion and removal of a chunk leave such words alone.
pub inserted-spared :
    (s : State) (p i a : ℕ) (xs : List Ptr)
    → NoLink a p
    → NoLink a (smallbin_at i s)
    → NoLinks a xs
    → (inserted s p i xs).mem a ≡ s.mem a
inserted-spared s p i a [] own anchor spared = ground (arith, own, anchor)
inserted-spared s p i a (x ∷ xs) own anchor spared = ground (arith, own, anchor, spared.0)

pub removed-spared :
    (s : State) (i a : ℕ) (ys : List Ptr)
    → NoLink a (smallbin_at i s)
    → NoLinks a ys
    → (removed s i [] ys).mem a ≡ s.mem a
removed-spared s i a [] anchor spared = refl
removed-spared s i a (y ∷ ys) anchor spared = ground (arith, anchor, spared.0)
