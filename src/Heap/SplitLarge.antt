-- ===== src/Heap/SplitLarge.antt =====
-- `split_large` on the heap: a chunk of a tree is taken out and split, or used as a whole.
use unimem.Base.{
  ℕ, ◌+◌, ◌-◌, ◌%◌, ◌≤◌, ◌^◌, ◌≡◌, ◌≢◌, ap, arith, inl, inr, true, Bool-cases, leb, ltb,
  if◌then◌else◌,
}
use unimem.Word.{add64}
use unimem.Machine.{Ptr, State, Action, pure, ◌>>◌}
use unimem.Chunk.{chunk2mem, set_size_and_pinuse_of_free_chunk}
use unimem.MallocState.Top.{ok_address}
use unimem.MallocState.Top
use unimem.MallocState.TreeAlloc.{Fit, split_large}
use unimem.Heap.{Blocks, IsTiling, IsChunk, Stock, IsFree, IsStock, IsHeap}
use unimem.Heap.Words.{SameFields}
use unimem.Heap.UnlinkLarge.{unlink_large_chunk-IsStock}
use unimem.Heap.Carve.{carved, IsCut}
use unimem.Heap.Keep.{Split}
use unimem.Heap.Allocated.{
  Allocates, Keeps, own-IsGrown, whole-Allocates, front_first, split_block-Allocates,
}

-- Whatever `keep` is handed, it leaves a heap or throws, where the designated victim has a size
-- below `most`.
abbrev pub IsKeeping : (Ptr → ℕ → Action) → ℕ → Type 0
IsKeeping keep size =
    (s : State) (b : Blocks) (k : Stock) (lo hi r : Ptr) (n : ℕ)
    → Split s b k lo hi r n
    → s.dvsize ≡ size
    → Keeps b (keep r n s)

module _ (s : State) (b : Blocks) (k : Stock) (v nb : ℕ) (heap : IsHeap s b k)
    (free : IsFree b 0 0 v) (large : 256 ≤ b.size v) (ne : v ≢ s.dv) (least : 32 ≤ nb)
    (words : nb % 8 ≡ 0) (enough : nb ≤ b.size v) where
  its_chunk : IsChunk s b v
  its_chunk = heap.0.each v free.0

  abbrev rest : ℕ
  rest = b.size v - nb

  valid : leb s.least_addr v ≡ true
  valid = ground (arith, its_chunk.low, heap.0.least)

  follows : ltb v (v + nb) ≡ true
  follows = ground (arith, least)

  whole_size : (rest + nb) % 2 ^ 64 ≡ b.size v
  whole_size = omega (arith, enough, its_chunk.high, heap.0.limit, its_chunk.low)

  abbrev fit : Fit
  fit = record { chunk = v; rsize = rest }

  module _ (keep : Ptr → ℕ → Action) (keeping : IsKeeping keep s.dvsize) (s' : State) (k' : Stock)
      (tiling : IsTiling s' b) (stock : IsStock s' b k' v (v + b.size v))
      (fields : SameFields s s') where
    split-large :
        IsCut b v nb rest
        → Allocates b nb (
            ((do
              Top.set_size_and_pinuse_of_inuse_chunk v nb
              set_size_and_pinuse_of_free_chunk (v + nb) rest
              keep (v + nb) rest)
                >> pure (chunk2mem v))
              s')
    split-large cut =
        split_block-Allocates s' b k' v tiling free.0 free.1 nb rest cut keep stock λ split.
          keeping (front_first s' b k' v tiling free.0 free.1 nb rest cut) (carved b v nb rest) k' v
            (v + b.size v) (v + nb) rest split (ap (λ z. z.dvsize) fields)

    used : Allocates b nb (
        ((if ltb rest 32 then Top.set_inuse_and_pinuse v (b.size v) else do
          Top.set_size_and_pinuse_of_inuse_chunk v nb
          set_size_and_pinuse_of_free_chunk (v + nb) rest
          keep (v + nb) rest)
            >> pure (chunk2mem v))
          s')
    used = elim (Bool-cases (ltb rest 32)) [
      | inl less ↦ rw less (whole-Allocates s' b k' v tiling free.0 free.1 nb enough stock)
      | inr more ↦ rw more (
          split-large record {
            pos = free.0;
            free = free.1;
            sum = omega (arith, enough);
            front = least;
            rest = ground (arith, more);
            words = words;
          })
    ]

  pub split_large-Allocates :
      (keep : Ptr → ℕ → Action)
      → IsKeeping keep s.dvsize
      → Allocates b nb (split_large keep nb fit s)
  unfolding split_large ok_address add64
  split_large-Allocates keep keeping =
      let (s', k', runs, tiling, stock, fields) =
        unlink_large_chunk-IsStock s b k 0 0 v (v + b.size v) v heap.0 heap.1 free ne large
          (own-IsGrown s b v heap.0 free.0) in
      rw (valid, follows, runs, whole_size) (used keep keeping s' k' tiling stock fields)
