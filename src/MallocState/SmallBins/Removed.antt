-- ===== src/MallocState/SmallBins/Removed.antt =====
-- What the bins stand for once a chunk has left one of them.
use unimem.Base.{ℕ, ◌<◌, ◌≢◌, refl, arith, inl, List, [], ◌∷◌, ◌++◌}
use unimem.Machine.{Ptr, Memory, State}
use unimem.MallocState.Bitmap.Marks.{has-without_bit, without_bit-lt}
use unimem.MallocState.Top.{smallbin_at}
use unimem.MallocState.SmallBins.Ring.{
  Apart, AllApart, Distinct, AllValid, LinksIfAny, IsBin, Links-frame,
}
use unimem.MallocState.SmallBins.Insert.{first_or}
use unimem.MallocState.SmallBins.Unlink.{
  last_or, unlinked, removed, unlinked-Links, SameLinks-unlinked,
}

pub AllApart-drop :
    (a p : Ptr) (xs ys : List Ptr) → AllApart a (xs ++ p ∷ ys) → AllApart a (xs ++ ys)
AllApart-drop a p [] ys h = h.1
AllApart-drop a p (x ∷ xs) ys h = (h.0, AllApart-drop a p xs ys h.1)

Distinct-drop : (p : Ptr) (xs ys : List Ptr) → Distinct (xs ++ p ∷ ys) → Distinct (xs ++ ys)
Distinct-drop p [] ys d = d.1
Distinct-drop p (x ∷ xs) ys d = (AllApart-drop x p xs ys d.0, Distinct-drop p xs ys d.1)

AllValid-drop :
    (least p : Ptr) (xs ys : List Ptr) → AllValid least (xs ++ p ∷ ys) → AllValid least (xs ++ ys)
AllValid-drop least p [] ys v = v.1
AllValid-drop least p (x ∷ xs) ys v = (v.0, AllValid-drop least p xs ys v.1)

-- The bin holds the other chunks, in their order.
pub removed-IsBin :
    (s : State) (p i : ℕ) (xs ys : List Ptr)
    → IsBin s i (xs ++ p ∷ ys)
    → IsBin (removed s i xs ys) i (xs ++ ys)
unfolding smallbin_at
removed-IsBin s p i [] [] is = record {
  index = is.index;
  map = without_bit-lt s.smallmap i is.map;
  marked = ground (arith, has-without_bit s.smallmap i i is.map is.index);
  links = tt;
  apart = tt;
  distinct = tt;
  valid = tt;
}
removed-IsBin s p i [] (y ∷ ys) is = record {
  index = is.index;
  map = is.map;
  marked = is.marked;
  links =
      unlinked-Links s.mem (smallbin_at i s) (smallbin_at i s) p [] (y ∷ ys) (inl refl) is.apart.1
        is.apart.1 is.distinct.1 is.links;
  apart = is.apart.1;
  distinct = is.distinct.1;
  valid = is.valid.1;
}
removed-IsBin s p i (x ∷ xs) ys is =
    let apart = AllApart-drop (smallbin_at i s) p (x ∷ xs) ys is.apart in
    let distinct = Distinct-drop p (x ∷ xs) ys is.distinct in
    record {
      index = is.index;
      map = is.map;
      marked = is.marked;
      links =
          unlinked-Links s.mem (smallbin_at i s) (smallbin_at i s) p (x ∷ xs) ys (inl refl) apart
            apart distinct is.links;
      apart = apart;
      distinct = distinct;
      valid = AllValid-drop s.least_addr p (x ∷ xs) ys is.valid;
    }

unlinked-LinksIfAny :
    (m : Memory) (b f c : Ptr) (ys : List Ptr)
    → Apart c b
    → Apart c f
    → AllApart b ys
    → AllApart f ys
    → LinksIfAny m c ys
    → LinksIfAny (unlinked m b f) c ys
unlinked-LinksIfAny m b f c [] cb cf ab af l = tt
unlinked-LinksIfAny m b f c (y ∷ ys) cb cf ab af l =
    Links-frame m (unlinked m b f) c c (y ∷ ys) (SameLinks-unlinked m b f (y ∷ ys) ab af)
      (ground arith) (ground arith) l

-- A bin is not touched by a removal from another one.
pub removed-other :
    (s : State) (i j : ℕ) (xs ys zs : List Ptr)
    → i < 32
    → i ≢ j
    → IsBin s j zs
    → Apart (smallbin_at j s) (last_or (smallbin_at i s) xs)
    → Apart (smallbin_at j s) (first_or (smallbin_at i s) ys)
    → AllApart (last_or (smallbin_at i s) xs) zs
    → AllApart (first_or (smallbin_at i s) ys) zs
    → IsBin (removed s i xs ys) j zs
unfolding smallbin_at
removed-other s i j [] [] zs low ne is cb cf ab af = record {
  index = is.index;
  map = without_bit-lt s.smallmap i is.map;
  marked = ground (arith, has-without_bit s.smallmap i j is.map low, is.marked);
  links = is.links;
  apart = is.apart;
  distinct = is.distinct;
  valid = is.valid;
}
removed-other s i j [] (y ∷ ys) zs low ne is cb cf ab af = record {
  index = is.index;
  map = is.map;
  marked = is.marked;
  links = unlinked-LinksIfAny s.mem (smallbin_at i s) y (smallbin_at j s) zs cb cf ab af is.links;
  apart = is.apart;
  distinct = is.distinct;
  valid = is.valid;
}
removed-other s i j (x ∷ xs) ys zs low ne is cb cf ab af = record {
  index = is.index;
  map = is.map;
  marked = is.marked;
  links =
      unlinked-LinksIfAny s.mem (last_or x xs) (first_or (smallbin_at i s) ys) (smallbin_at j s) zs
        cb cf ab af is.links;
  apart = is.apart;
  distinct = is.distinct;
  valid = is.valid;
}
