-- ===== src/UniAllocator/Lifo.antt =====
-- Blocks from the top chunk, given back in the reverse order.
use unimem.Base.{ℕ, suc, ◌+◌, ◌-◌, ◌%◌, ◌≤◌, ◌<◌, ◌≡◌, refl, ◌∙◌, arith, update, List, [], ◌∷◌}
use unimem.Machine.{Ptr, Memory, State, ok, Action, skip, ◌>>=◌, ◌>>◌}
use unimem.Chunk.{head_at, max_request}
use unimem.UniAllocator.{chunk_size_for, free}
use unimem.UniAllocator.Bump.{
  IsBump, carved, carved-IsBump, chunk_size_for_bounds, alloc_all, AllBelow, blocks, total,
  carved_all, alloc_all-carved,
}
use unimem.UniAllocator.Release.{IsLast, free-joined}

-- A client that gives back all of its blocks, the last one first.
pub free_all : List Ptr → Action
free_all [] = skip
free_all (m ∷ ms) = do free_all ms; free m

-- The top chunk has its header, and lies behind the designated victim (which may be null) and
-- not below the least address.
pub record IsReady (s : State) : Type 0 where
  pub bump : IsBump s
  pub victim : s.dv < s.top
  pub address : s.least_addr ≤ s.top
  pub head : s.mem (s.top + head_at) ≡ s.topsize + 1

carved-IsReady : (s : State) (n : ℕ) → IsReady s → n % 8 ≡ 0 → 16 ≤ n → IsReady (carved s n)
carved-IsReady s n ready words large = record {
  bump = carved-IsBump s n ready.bump words;
  victim = omega (arith, ready.victim);
  address = omega (arith, ready.address);
  head = ground arith;
}

-- `f` agrees with `g` up to the header of the chunk at `t`.
abbrev pub SameUpTo : Ptr → Memory → Memory → Type 0
SameUpTo t f g = (a : Ptr) → a ≤ t + head_at → f a ≡ g a

-- What is left of the state `s` once all is given back.
abbrev pub restored : State → Memory → State
restored s m = record s { mem = m }

restored-IsLast :
    (s : State) (n : ℕ) (m : Memory)
    → IsReady s
    → n % 8 ≡ 0
    → 16 ≤ n
    → n < s.topsize
    → SameUpTo (s.top + n) m (carved s n).mem
    → IsLast (restored (carved s n) m) s.top n
restored-IsLast s n m ready words large fits same = record {
  ne_null = ready.bump.top;
  address = ready.address;
  head = same (s.top + head_at) (omega arith) ∙ ground arith;
  next = refl;
  top_head = same (s.top + n + head_at) (omega arith) ∙ ground arith;
  words = words;
  top_words = omega (arith, words, ready.bump.words);
  positive = omega arith;
  size = omega (arith, ready.bump.size);
  not_victim = λ e. omega (arith, ready.victim, e);
}

free_all-restored :
    (bs : List ℕ) (s : State)
    → IsReady s
    → AllBelow max_request bs
    → total bs < s.topsize
    → (m : Memory) × (free_all (blocks s.top bs) (carved_all s bs) ≡ ok tt (restored s m))
      × SameUpTo s.top m s.mem
unfolding free_all
free_all-restored [] s ready small fits = (s.mem, refl, λ a h. refl)
free_all-restored (b ∷ bs) s ready small fits =
    let n = chunk_size_for b in
    let bounds = chunk_size_for_bounds b small.0 in
    let ready' = carved-IsReady s n ready (omega (arith, bounds)) (omega (arith, bounds)) in
    let (m, runs, same) = free_all-restored bs (carved s n) ready' small.1 (omega arith) in
    let last =
      restored-IsLast s n m ready (omega (arith, bounds)) (omega (arith, bounds)) (omega arith)
        same in
    let size : s.topsize - n + n ≡ s.topsize = omega arith in
    (
      update m (s.top + head_at) (s.topsize + 1),
      rw (runs, free-joined (restored (carved s n) m) s.top n last, size) refl,
      λ a h. ground (arith, same a, ready.head),
    )

-- From a state whose only free memory is the top chunk (both bitmaps and the size of the
-- designated victim are zero), which is not null, has a size that is a multiple of 8 below 2 ^ 64,
-- has its header, with that size and the flag PINUSE, and lies behind the address of the
-- designated victim and not below the least address, a client may allocate a series of blocks
-- (below `MAX_REQUEST` each, their chunks smaller than the top chunk in sum) and give all of them
-- back, the last one first. All calls return; in the end all fields of the state are as they
-- were, and so is the memory up to and with the header of the top chunk.
pub alloc_all-free_all :
    (underlying : ℕ → ℕ → Ptr) (fuel : ℕ) (bs : List ℕ) (s : State)
    → IsReady s
    → AllBelow max_request bs
    → total bs < s.topsize
    → (m : Memory) × ((alloc_all underlying (suc fuel) bs >>= free_all) s ≡ ok tt (restored s m))
      × SameUpTo s.top m s.mem
alloc_all-free_all underlying fuel bs s ready small fits =
    let (m, runs, same) = free_all-restored bs s ready small fits in
    (m, rw (alloc_all-carved underlying fuel bs s ready.bump small fits, runs) refl, same)
