-- ===== src/Heap/Keeping.antt =====
-- Steps that leave the bins, the trees and the designated victim as they are.
use unimem.Base.{ℕ, ◌+◌, ◌*◌, ◌≤◌, ◌<◌, ◌≡◌, refl, sym, ◌∙◌, arith, ◌⊎◌, inl, inr, List, [], ◌∷◌}
use unimem.Machine.{Ptr, State}
use unimem.Machine.Returns.{write}
use unimem.Chunk.{fd_at, bk_at}
use unimem.MallocState.Top.{smallbin_at, treebin_at}
use unimem.MallocState.SmallBins.Ring.{LinksIfAny, Links-frame, SameLinks}
use unimem.MallocState.SmallBins.Table.{IsTable}
use unimem.MallocState.TreeBins.Nodes.{SameChunks, IsTree-frame}
use unimem.MallocState.TreeBins.Forest.{IsForest}
use unimem.Heap.{Blocks, Stock, IsFree, IsStock}
use unimem.Heap.Members.{SameLinks-all, SameChunks-all}

LinksIfAny-frame :
    (s s' : State) (b : Ptr) (xs : List Ptr)
    → SameLinks s.mem s'.mem xs
    → s'.mem (b + fd_at) ≡ s.mem (b + fd_at)
    → s'.mem (b + bk_at) ≡ s.mem (b + bk_at)
    → LinksIfAny s.mem b xs
    → LinksIfAny s'.mem b xs
LinksIfAny-frame s s' b [] same fd bk l = tt
LinksIfAny-frame s s' b (x ∷ xs) same fd bk l = Links-frame s.mem s'.mem b b (x ∷ xs) same fd bk l

-- The table stays where the links of its chunks and of its anchors do.
pub IsTable-frame :
    (s s' : State) (bins : ℕ → List Ptr)
    → s'.gm ≡ s.gm
    → s'.least_addr ≡ s.least_addr
    → s'.smallmap ≡ s.smallmap
    → ((a : Ptr) → s.gm + 72 ≤ a → a < s.gm + 600 → s'.mem a ≡ s.mem a)
    → ((i : ℕ) → i < 32 → SameLinks s.mem s'.mem (bins i))
    → IsTable s bins
    → IsTable s' bins
unfolding smallbin_at
IsTable-frame s s' bins gm least map array links table = record {
  each = λ i low.
      let bin = table.each i low in
      let b = s.gm + 72 + 16 * i in
      record {
        index = bin.index;
        map = rw map bin.map;
        marked = rw map bin.marked;
        links = rw gm (
            LinksIfAny-frame s s' b (bins i) (links i low)
              (array (b + fd_at) (omega arith) (omega arith))
              (array (b + bk_at) (omega arith) (omega arith)) bin.links);
        apart = rw gm bin.apart;
        distinct = bin.distinct;
        valid = rw least bin.valid;
      };
  cross = table.cross;
  outside = λ i low. rw gm (table.outside i low);
}

-- The forest stays where the words of its chunks and its slots do.
pub IsForest-frame :
    (s s' : State) (sizes : ℕ → ℕ) (trees : ℕ → List Ptr)
    → s'.gm ≡ s.gm
    → s'.least_addr ≡ s.least_addr
    → s'.treemap ≡ s.treemap
    → ((a : Ptr) → s.gm + 600 ≤ a → a < s.gm + 856 → s'.mem a ≡ s.mem a)
    → ((i : ℕ) → i < 32 → SameChunks s.mem s'.mem (trees i))
    → IsForest s sizes trees
    → IsForest s' sizes trees
unfolding treebin_at
IsForest-frame s s' sizes trees gm least map array chunks forest = record {
  each = λ i low.
      let tree = forest.each i low in
      IsTree-frame s s' i (sizes i) (trees i) gm least (rw map tree.map) (rw map refl)
        (array (s.gm + 600 + 8 * i) (omega arith) (omega arith)) (chunks i low) tree;
  cross = forest.cross;
}

-- The words of the free chunks from the header on, and of the two arrays, stay.
pub record SameKept (s s' : State) (b : Blocks) (lo hi : Ptr) : Type 0 where
  pub gm : s'.gm ≡ s.gm
  pub least : s'.least_addr ≡ s.least_addr
  pub smallmap : s'.smallmap ≡ s.smallmap
  pub treemap : s'.treemap ≡ s.treemap
  pub dv : s'.dv ≡ s.dv
  pub dvsize : s'.dvsize ≡ s.dvsize
  pub array : (a : Ptr) → s.gm + 72 ≤ a → a < s.gm + 856 → s'.mem a ≡ s.mem a
  pub chunks : (x a : Ptr) → IsFree b lo hi x → x + 8 ≤ a → a < x + b.size x → s'.mem a ≡ s.mem a

-- No chunk is smaller than `MIN_CHUNK_SIZE`.
abbrev pub IsLeast : Blocks → Type 0
IsLeast b = (x : Ptr) → 0 < b.size x → 32 ≤ b.size x

pub IsStock-frame :
    (s s' : State) (b : Blocks) (k : Stock) (lo hi : Ptr)
    → IsLeast b
    → SameKept s s' b lo hi
    → IsStock s b k lo hi
    → IsStock s' b k lo hi
IsStock-frame s s' b k lo hi least same stock = record {
  table =
      IsTable-frame s s' k.bins same.gm same.least same.smallmap
        (λ a from to. same.array a from (omega arith))
        (λ i low. SameLinks-all s.mem s'.mem (k.bins i) λ x h.
          let free = (stock.small i x low h).0 in
          let large = least x free.0 in
          (
            same.chunks x (x + fd_at) free (omega arith) (omega (arith, large)),
            same.chunks x (x + bk_at) free (omega arith) (omega (arith, large)),
          ))
        stock.table;
  forest =
      IsForest-frame s s' k.sizes k.trees same.gm same.least same.treemap
        (λ a from to. same.array a (omega arith) to)
        (λ i low. SameChunks-all s.mem s'.mem (k.trees i) λ x h a from to.
          let member = stock.large i x low h in
          same.chunks x a member.0 from (omega (arith, member.1)))
        stock.forest;
  small = rw same.dv stock.small;
  large = rw same.dv stock.large;
  victim = rw (same.dv, same.dvsize) stock.victim;
  cover = rw same.dv stock.cover;
}

-- The word at `w` is neither in the two arrays nor, past the first word, in a free chunk.
abbrev pub IsOff : State → Blocks → Ptr → Ptr → Ptr → Type 0
IsOff s b lo hi w =
    ((w < s.gm + 72) ⊎ (s.gm + 856 ≤ w))
    × ((x : Ptr) → IsFree b lo hi x → (w < x + 8) ⊎ (x + b.size x ≤ w))

pub IsStock-write :
    (s : State) (b : Blocks) (k : Stock) (lo hi w v : Ptr)
    → IsOff s b lo hi w
    → IsLeast b
    → IsStock s b k lo hi
    → IsStock (write s w v) b k lo hi
IsStock-write s b k lo hi w v off least stock =
    let same : SameKept s (write s w v) b lo hi = record {
      gm = refl;
      least = refl;
      smallmap = refl;
      treemap = refl;
      dv = refl;
      dvsize = refl;
      array = λ a from to. ground (arith, off.0);
      chunks = λ x a free from to. ground (arith, off.1 x free);
    } in
    IsStock-frame s (write s w v) b k lo hi least same stock

-- Another view of the chunks with the same free ones keeps the same.
pub IsStock-view :
    (s : State) (b b' : Blocks) (k : Stock) (lo hi lo' hi' : Ptr)
    → ((x : Ptr) → IsFree b lo hi x → IsFree b' lo' hi' x × (b'.size x ≡ b.size x))
    → ((x : Ptr) → IsFree b' lo' hi' x → IsFree b lo hi x)
    → IsStock s b k lo hi
    → IsStock s b' k lo' hi'
IsStock-view s b b' k lo hi lo' hi' kept only stock = record {
  table = stock.table;
  forest = stock.forest;
  small = λ i x low h.
      let member = stock.small i x low h in
      let new = kept x member.0 in (new.0, rw new.1 member.1, rw new.1 member.2, member.3);
  large = λ i x low h.
      let member = stock.large i x low h in
      let new = kept x member.0 in (new.0, rw new.1 member.1, rw new.1 member.2, member.3);
  victim = elim stock.victim [
    | inl none_kept ↦ inl none_kept
    | inr dv ↦ let new = kept s.dv dv.1 in inr (dv.0, new.0, dv.2 ∙ sym new.1)
  ];
  cover = λ x free. let old = only x free in let new = kept x old in rw new.1 (stock.cover x old);
}
