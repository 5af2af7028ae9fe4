-- ===== src/UniAllocator/Bump.antt =====
-- `Alloc` from the top chunk, while nothing has been freed.
use unimem.Base.{
  ℕ, suc, ◌+◌, ◌-◌, ◌%◌, ◌≤◌, ◌<◌, ◌^◌, ◌≡◌, ◌≢◌, refl, ◌∙◌, arith, true, false, ◌==◌, leb, ltb,
  bit_or, update, List, [], ◌∷◌,
}
use unimem.Word.{sub64}
use unimem.Machine.{Ptr, null, Memory, State, ok, Cmd, pure, ◌>>=◌, store}
use unimem.Chunk.{head_at, pinuse_bit, cinuse_bit, max_request, chunk2mem, request2size}
use unimem.Chunk.Sizes.{request2size_bounds}
use unimem.Chunk.Head.{free_word, inuse_word}
use unimem.MallocState.Top
use unimem.UniAllocator.{chunk_size_for, take_top, alloc}
use unimem.UniAllocator.Stuck.{empty-bins}

-- For a request below `MAX_REQUEST`, the size that `Alloc` computes is that of `request2size`.
pub chunk_size_for-request2size :
    (bytes : ℕ) → bytes < max_request → chunk_size_for bytes ≡ request2size bytes
unfolding chunk_size_for request2size
chunk_size_for-request2size bytes h = ground arith

pub chunk_size_for_bounds :
    (bytes : ℕ)
    → bytes < max_request
    → (chunk_size_for bytes % 16 ≡ 0)
      × (32 ≤ chunk_size_for bytes)
      × (bytes + 8 ≤ chunk_size_for bytes)
      × (chunk_size_for bytes < 2 ^ 64)
chunk_size_for_bounds bytes h =
    rw (chunk_size_for-request2size bytes h) (omega (arith, request2size_bounds bytes h))

-- All that is free is the top chunk: the bitmaps are zero and there is no designated victim. The
-- top chunk is not null, and its size is a multiple of 8 below 2 ^ 64.
pub record IsBump (s : State) : Type 0 where
  pub smallmap : s.smallmap ≡ 0
  pub treemap : s.treemap ≡ 0
  pub dvsize : s.dvsize ≡ 0
  pub top : s.top ≢ null
  pub words : s.topsize % 8 ≡ 0
  pub size : s.topsize < 2 ^ 64

-- The state after a chunk of size `n` has been cut off the top chunk.
abbrev pub carved : State → ℕ → State
carved s n = record s {
  top = s.top + n;
  topsize = s.topsize - n;
  mem = update (update s.mem (s.top + n + head_at) (s.topsize - n + 1)) (s.top + head_at) (n + 3);
}

pub take_top-carved :
    (s : State) (n : ℕ)
    → IsBump s
    → n % 8 ≡ 0
    → n < s.topsize
    → take_top n s ≡ ok (chunk2mem s.top) (carved s n)
unfolding take_top store Top.set_size_and_pinuse_of_inuse_chunk
take_top-carved s n bump words below =
    let rest : sub64 s.topsize n ≡ s.topsize - n = unfold sub64 in omega (arith, bump.size) in
    let front : bit_or (bit_or n pinuse_bit) cinuse_bit ≡ n + 3 =
      inuse_word n (omega (arith, bump.size)) in
    let back : bit_or (s.topsize - n) pinuse_bit ≡ s.topsize - n + 1 =
      free_word (s.topsize - n) (omega (arith, bump.size, bump.words)) in
    let present : (s.top == null) ≡ false = ground (arith, bump.top) in
    let present' : (s.top + n == null) ≡ false = ground (arith, bump.top) in
    rw (rest, present', back, present, front)

pub carved-IsBump : (s : State) (n : ℕ) → IsBump s → n % 8 ≡ 0 → IsBump (carved s n)
carved-IsBump s n bump words = record {
  smallmap = bump.smallmap;
  treemap = bump.treemap;
  dvsize = bump.dvsize;
  top = λ e. bump.top (omega arith);
  words = omega (arith, bump.words);
  size = omega (arith, bump.size);
}

module _ (underlying : ℕ → ℕ → Ptr) where
  -- With free memory in the top chunk only, and more of it than the request needs, `Alloc`
  -- returns the front of the top chunk.
  pub alloc-carved :
      (fuel bytes : ℕ) (s : State)
      → IsBump s
      → bytes < max_request
      → chunk_size_for bytes < s.topsize
      → alloc underlying (suc fuel) bytes s ≡ ok (chunk2mem s.top) (carved s (chunk_size_for bytes))
  unfolding alloc
  alloc-carved fuel bytes s bump small below =
      let bounds = chunk_size_for_bounds bytes small in
      let dv : leb (chunk_size_for bytes) s.dvsize ≡ false = ground (arith, bump.dvsize, bounds) in
      let top : ltb (chunk_size_for bytes) s.topsize ≡ true = ground arith in
      rw (empty-bins bytes s bump.smallmap bump.treemap, dv, top)
        (take_top-carved s (chunk_size_for bytes) bump (omega (arith, bounds)) below)

  -- A client that asks for one block after the other.
  pub alloc_all : ℕ → List ℕ → Cmd (List Ptr)
  alloc_all fuel [] = pure []
  alloc_all fuel (b ∷ bs) = do m ← alloc underlying fuel b; ms ← alloc_all fuel bs; pure (m ∷ ms)

-- The blocks for the requests, one behind the other from `t` on.
abbrev pub blocks : Ptr → List ℕ → List Ptr
blocks t [] = []
blocks t (b ∷ bs) = chunk2mem t ∷ blocks (t + chunk_size_for b) bs

abbrev pub total : List ℕ → ℕ
total [] = 0
total (b ∷ bs) = chunk_size_for b + total bs

abbrev pub AllBelow : ℕ → List ℕ → Type 0
AllBelow n [] = Unit
AllBelow n (b ∷ bs) = (b < n) × AllBelow n bs

abbrev pub carved_all : State → List ℕ → State
carved_all s [] = s
carved_all s (b ∷ bs) = carved_all (carved s (chunk_size_for b)) bs

-- The chunks in `m` from `t` on have the headers of used chunks of the sizes for the requests.
abbrev pub Headers : Memory → Ptr → List ℕ → Type 0
Headers m t [] = Unit
Headers m t (b ∷ bs) =
    (m (t + head_at) ≡ chunk_size_for b + 3) × Headers m (t + chunk_size_for b) bs

carved_all-below :
    (s : State) (bs : List ℕ) (a : Ptr)
    → AllBelow max_request bs
    → a < s.top + head_at
    → (carved_all s bs).mem a ≡ s.mem a
carved_all-below s [] a small below = refl
carved_all-below s (b ∷ bs) a small below =
    carved_all-below (carved s (chunk_size_for b)) bs a small.1 (omega arith) ∙ ground arith

Headers-carved_all :
    (s : State) (bs : List ℕ) → AllBelow max_request bs → Headers (carved_all s bs).mem s.top bs
Headers-carved_all s [] small = tt
Headers-carved_all s (b ∷ bs) small = (
  carved_all-below (carved s (chunk_size_for b)) bs (s.top + head_at) small.1
        (omega (arith, chunk_size_for_bounds b small.0))
      ∙ ground arith,
  Headers-carved_all (carved s (chunk_size_for b)) bs small.1,
)

carved_all-tops :
    (s : State) (bs : List ℕ)
    → ((carved_all s bs).top ≡ s.top + total bs)
      × ((carved_all s bs).topsize ≡ s.topsize - total bs)
carved_all-tops s [] = omega arith
carved_all-tops s (b ∷ bs) = omega (arith, carved_all-tops (carved s (chunk_size_for b)) bs)

module _ (underlying : ℕ → ℕ → Ptr) where
  pub alloc_all-carved :
      (fuel : ℕ) (bs : List ℕ) (s : State)
      → IsBump s
      → AllBelow max_request bs
      → total bs < s.topsize
      → alloc_all underlying (suc fuel) bs s ≡ ok (blocks s.top bs) (carved_all s bs)
  unfolding alloc_all
  alloc_all-carved fuel [] s bump small fits = refl
  alloc_all-carved fuel (b ∷ bs) s bump small fits =
      let n = chunk_size_for b in
      let bounds = chunk_size_for_bounds b small.0 in
      rw
        (
          alloc-carved underlying fuel b s bump small.0 (omega arith),
          alloc_all-carved fuel bs (carved s n) (carved-IsBump s n bump (omega (arith, bounds)))
              small.1 (omega arith),
        )
        refl

  -- With free memory in the top chunk only (both bitmaps and the size of the designated victim are
  -- zero), whose address is not null and whose size is a multiple of 8 below 2 ^ 64, and for
  -- requests below `MAX_REQUEST` whose chunks sum up to less than the top chunk, a series of calls of `Alloc` returns blocks whose chunks stand
  -- one behind the other from the old top on. In the end each chunk has the header of a used
  -- chunk of its size, and what is left of the top chunk begins where the last one ends.
  pub alloc_all-blocks :
      (fuel : ℕ) (bs : List ℕ) (s : State)
      → IsBump s
      → AllBelow max_request bs
      → total bs < s.topsize
      → (s' : State) × (alloc_all underlying (suc fuel) bs s ≡ ok (blocks s.top bs) s')
        × Headers s'.mem s.top bs
        × (s'.top ≡ s.top + total bs)
        × (s'.topsize ≡ s.topsize - total bs)
  alloc_all-blocks fuel bs s bump small fits = (
    carved_all s bs,
    alloc_all-carved fuel bs s bump small fits,
    Headers-carved_all s bs small,
    (carved_all-tops s bs).0,
    (carved_all-tops s bs).1,
  )
