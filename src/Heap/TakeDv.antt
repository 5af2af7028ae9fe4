-- ===== src/Heap/TakeDv.antt =====
-- `take_dv` on the heap: the designated victim is split, or used up.
use unimem.Base.{
  ℕ, ◌+◌, ◌-◌, ◌%◌, ◌≤◌, ◌^◌, ◌≡◌, ◌≢◌, refl, arith, inl, inr, true, false, Bool-cases, leb,
}
use unimem.Word.{sub64}
use unimem.Machine.{null, State, ok}
use unimem.Machine.Returns.{store-ok}
use unimem.Chunk.{head_at, chunk2mem, set_size_and_pinuse_of_inuse_chunk}
use unimem.Chunk.Head.{IsSize, inuse_word}
use unimem.MallocState.SmallBins.Victim.{with_dv}
use unimem.UniAllocator.{take_dv}
use unimem.Heap.{Blocks, IsTiling, IsChunk, Stock, IsFree, IsStock, IsHeap}
use unimem.Heap.Heads.{chunk_ne_null}
use unimem.Heap.Victim.{IsStock-set_dv, IsStock-drop_dv, IsTiling-with_dv}
use unimem.Heap.Carve.{carved, IsCut}
use unimem.Heap.Tagging.{framed, framed-runs}
use unimem.Heap.Allocated.{
  Allocates, own-IsGrown, whole-Allocates, front_last, front_last-IsSplit, carved-IsAllocated,
}

module _ (s : State) (b : Blocks) (k : Stock) (nb : ℕ) (heap : IsHeap s b k) (least : 32 ≤ nb)
    (words : nb % 8 ≡ 0) (free : IsFree b 0 0 s.dv) (size : s.dvsize ≡ b.size s.dv)
    (enough : nb ≤ s.dvsize) where
  its_chunk : IsChunk s b s.dv
  its_chunk = heap.0.each s.dv free.0

  abbrev given_up : State
  given_up = with_dv s null 0

  given_up-IsTiling : IsTiling given_up b
  given_up-IsTiling = IsTiling-with_dv s b null 0 heap.0

  given_up-IsStock : IsStock given_up b k s.dv (s.dv + b.size s.dv)
  given_up-IsStock =
      IsStock-drop_dv s b k 0 0 s.dv (s.dv + b.size s.dv) heap.0
        (own-IsGrown s b s.dv heap.0 free.0) heap.1

  abbrev rest : ℕ
  rest = b.size s.dv - nb

  rest-is : (s.dvsize + 2 ^ 64 - nb) % 2 ^ 64 ≡ rest
  rest-is = omega (arith, enough, size, its_chunk.high, heap.0.limit, its_chunk.low)

  used_up : leb 32 rest ≡ false → Allocates b nb (take_dv nb s)
  unfolding take_dv sub64
  used_up few =
      rw (rest-is, few, size)
        (whole-Allocates given_up b k s.dv given_up-IsTiling free.0 free.1 nb
          (omega (arith, enough, size)) given_up-IsStock)

  module _ (many : 32 ≤ rest) where
    cut : IsCut b s.dv nb rest
    cut = record {
      pos = free.0;
      free = free.1;
      sum = omega (arith, enough, size);
      front = least;
      rest = many;
      words = words;
    }

    abbrev split_up : State
    split_up =
        front_last (with_dv s (s.dv + nb) rest) b k s.dv
          (IsTiling-with_dv s b (s.dv + nb) rest heap.0) free.0 free.1 nb rest cut

    split_up-IsHeap : IsHeap split_up (carved b s.dv nb rest) k
    split_up-IsHeap =
        let given = front_last given_up b k s.dv given_up-IsTiling free.0 free.1 nb rest cut in
        let split =
          front_last-IsSplit given_up b k s.dv given_up-IsTiling free.0 free.1 nb rest cut
            given_up-IsStock in
        let nn : s.dv + nb ≢ null = λ e. chunk_ne_null s b s.dv heap.0 free.0 (omega (arith, e)) in
        let stock =
          IsStock-set_dv given (carved b s.dv nb rest) k s.dv (s.dv + b.size s.dv) (s.dv + nb)
            split.0 refl nn split.1 split.2 in
        (
          IsTiling-with_dv given (carved b s.dv nb rest) (s.dv + nb) rest split.0,
          rw split.3 at stock,
        )

    split_up-runs : leb 32 rest ≡ true → take_dv nb s ≡ ok (chunk2mem s.dv) split_up
    unfolding take_dv sub64 set_size_and_pinuse_of_inuse_chunk
    split_up-runs more =
        let nn = chunk_ne_null s b s.dv heap.0 free.0 in
        let s1 = with_dv s (s.dv + nb) rest in
        let rest_size : IsSize rest =
          omega
            (arith, its_chunk.words, words, its_chunk.high, heap.0.limit, its_chunk.low, many) in
        let front_size : IsSize nb =
          omega (arith, words, its_chunk.high, heap.0.limit, its_chunk.low, enough, size) in
        rw
          (
            rest-is,
            more,
            framed-runs s1 (s.dv + nb) rest (λ e. nn (omega (arith, e))) rest_size,
            inuse_word nb front_size,
            store-ok s.dv head_at (nb + 3) (framed s1 (s.dv + nb) rest) nn,
          )
          refl

  -- The designated victim is large enough.
  pub take_dv-Allocates : Allocates b nb (take_dv nb s)
  take_dv-Allocates = elim (Bool-cases (leb 32 rest)) [
    | inl more ↦
        let many : 32 ≤ rest = ground (arith, more) in
        inl (
          split_up many,
          carved b s.dv nb rest,
          k,
          s.dv,
          nb,
          split_up-runs many more,
          split_up-IsHeap many,
          carved-IsAllocated s b k s.dv heap.0 free.0 free.1 nb rest (cut many),
          omega arith,
        )
    | inr few ↦ used_up few
  ]
