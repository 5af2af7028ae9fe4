-- ===== src/MallocState/SmallBins/Insert.antt =====
-- `insert_small_chunk` on the lists that the small bins stand for.
use unimem.Base.{ℕ, ◌+◌, ◌≤◌, ◌<◌, ◌≡◌, ◌≢◌, arith, List, [], ◌∷◌, update}
use unimem.Machine.{Ptr, null, Memory, State, ok, load, store}
use unimem.Chunk.{fd_at, bk_at}
use unimem.MallocState.Bitmap.{with_bit, mark_smallmap, smallmap_is_marked}
use unimem.MallocState.Bitmap.Marks.{has-is_marked, has-with_bit, with_bit-lt}
use unimem.MallocState.Top.{smallbin_at, ok_address}
use unimem.MallocState.SmallBins.{small_index, insert_small_chunk}
use unimem.MallocState.SmallBins.Ring.{
  Apart, AllApart, Distinct, Links, LinksIfAny, IsBin, SameLinks, Links-frame,
}

-- The memory after `p` is linked between the bin `b` and `f`.
abbrev pub linked : Memory → Ptr → Ptr → Ptr → Memory
linked m b f p =
    update (update (update (update m (b + fd_at) p) (f + bk_at) p) (p + fd_at) f) (p + bk_at) b

abbrev pub first_or : Ptr → List Ptr → Ptr
first_or b [] = b
first_or b (x ∷ xs) = x

abbrev pub inserted : State → Ptr → ℕ → List Ptr → State
inserted s p i [] = record s {
  smallmap = with_bit s.smallmap i;
  mem = linked s.mem (smallbin_at i s) (smallbin_at i s) p;
}
inserted s p i (x ∷ xs) = record s { mem = linked s.mem (smallbin_at i s) x p }

pub smallbin_at-pos : (i : ℕ) (s : State) → 0 < smallbin_at i s
unfolding smallbin_at
smallbin_at-pos i s = omega arith

pub insert-runs :
    (s : State) (p n : ℕ) (xs : List Ptr)
    → IsBin s (small_index n) xs
    → p ≢ null
    → 32 ≤ n
    → insert_small_chunk p n s ≡ ok tt (inserted s p (small_index n) xs)
unfolding insert_small_chunk smallmap_is_marked mark_smallmap ok_address load store
insert-runs s p n [] is ne big = ground (
  arith,
  has-is_marked s.smallmap (small_index n) is.index,
  smallbin_at-pos (small_index n) s,
  is.marked,
)
insert-runs s p n (x ∷ xs) is ne big = ground (
  arith,
  has-is_marked s.smallmap (small_index n) is.index,
  smallbin_at-pos (small_index n) s,
  is.marked,
  is.links.0,
  is.valid.0,
)

-- The four writes spare the chunks that are apart from those written.
SameLinks-linked :
    (m : Memory) (b x p : Ptr) (ys : List Ptr)
    → AllApart b ys
    → AllApart x ys
    → AllApart p ys
    → SameLinks m (linked m b x p) ys
SameLinks-linked m b x p [] ab ax ap = tt
SameLinks-linked m b x p (y ∷ ys) ab ax ap =
    (ground arith, ground arith, SameLinks-linked m b x p ys ab.1 ax.1 ap.1)

linked-Links :
    (m : Memory) (b p : Ptr) (xs : List Ptr)
    → Apart b p
    → AllApart b xs
    → AllApart p xs
    → Distinct xs
    → LinksIfAny m b xs
    → Links (linked m b (first_or b xs) p) b b (p ∷ xs)
linked-Links m b p [] bp bxs pxs d l = ground arith
linked-Links m b p (x ∷ ys) bp bxs pxs d l = (
  ground arith,
  ground arith,
  (
    ground arith,
    ground arith,
    Links-frame m (linked m b x p) b x ys (SameLinks-linked m b x p ys bxs.1 d.0 pxs.1)
        (ground arith) (ground arith) l.2,
  ),
)

pub inserted-IsBin :
    (s : State) (p i : ℕ) (xs : List Ptr)
    → IsBin s i xs
    → p ≢ null
    → s.least_addr ≤ p
    → Apart (smallbin_at i s) p
    → AllApart p xs
    → IsBin (inserted s p i xs) i (p ∷ xs)
unfolding smallbin_at
inserted-IsBin s p i [] is ne low bp pxs = record {
  index = is.index;
  map = with_bit-lt s.smallmap i is.map is.index;
  marked = ground (arith, has-with_bit s.smallmap i i is.index);
  links = linked-Links s.mem (smallbin_at i s) p [] bp tt tt tt tt;
  apart = (bp, tt);
  distinct = (tt, tt);
  valid = ((ne, low), tt);
}
inserted-IsBin s p i (x ∷ xs) is ne low bp pxs = record {
  index = is.index;
  map = is.map;
  marked = is.marked;
  links = linked-Links s.mem (smallbin_at i s) p (x ∷ xs) bp is.apart pxs is.distinct is.links;
  apart = (bp, is.apart);
  distinct = (pxs, is.distinct);
  valid = ((ne, low), is.valid);
}

linked-LinksIfAny :
    (m : Memory) (b x p c : Ptr) (ys : List Ptr)
    → (Apart c b × Apart c x × Apart c p)
    → AllApart b ys
    → AllApart x ys
    → AllApart p ys
    → LinksIfAny m c ys
    → LinksIfAny (linked m b x p) c ys
linked-LinksIfAny m b x p c [] h ab ax ap l = tt
linked-LinksIfAny m b x p c (y ∷ ys) h ab ax ap l =
    Links-frame m (linked m b x p) c c (y ∷ ys) (SameLinks-linked m b x p (y ∷ ys) ab ax ap)
      (ground arith) (ground arith) l

-- A bin is not touched by the insertion into another one.
pub inserted-other :
    (s : State) (p i j : ℕ) (xs ys : List Ptr)
    → i < 32
    → i ≢ j
    → IsBin s j ys
    → (let c = smallbin_at j s in
        Apart c (smallbin_at i s) × Apart c (first_or (smallbin_at i s) xs) × Apart c p)
    → AllApart (smallbin_at i s) ys
    → AllApart (first_or (smallbin_at i s) xs) ys
    → AllApart p ys
    → IsBin (inserted s p i xs) j ys
unfolding smallbin_at
inserted-other s p i j [] ys low ne is c ab ax ap = record {
  index = is.index;
  map = with_bit-lt s.smallmap i is.map low;
  marked = ground (arith, has-with_bit s.smallmap i j low, is.marked);
  links =
      linked-LinksIfAny s.mem (smallbin_at i s) (smallbin_at i s) p (smallbin_at j s) ys c ab ax ap
        is.links;
  apart = is.apart;
  distinct = is.distinct;
  valid = is.valid;
}
inserted-other s p i j (x ∷ xs) ys low ne is c ab ax ap = record {
  index = is.index;
  map = is.map;
  marked = is.marked;
  links = linked-LinksIfAny s.mem (smallbin_at i s) x p (smallbin_at j s) ys c ab ax ap is.links;
  apart = is.apart;
  distinct = is.distinct;
  valid = is.valid;
}
