-- ===== src/UniAllocator/Release.antt =====
-- A freed chunk in front of the top chunk joins it.
use unimem.Base.{
  ℕ, suc, ◌+◌, ◌-◌, ◌%◌, ◌≤◌, ◌<◌, ◌^◌, ◌≡◌, ◌≢◌, refl, sym, arith, true, false, ◌==◌, leb, ltb,
  bit_or, update, some,
}
use unimem.Word.{add64}
use unimem.Machine.{Ptr, null, State, ok, ◌>>=◌}
use unimem.Machine.Returns.{load-ok, store-ok}
use unimem.Chunk.{
  head_at, pinuse_bit, max_request, chunk2mem, head_is_inuse, is_inuse, chunksize, pinuse, cinuse,
}
use unimem.Chunk.Head.{IsSize, free_word, size_of-word, pinuse-word, cinuse-word, inuse_bits-word}
use unimem.MallocState.Top.{ok_address, should_trim, sys_trim}
use unimem.UniAllocator.{chunk_size_for, alloc, merge_back, merge_top, merge_forward, free}
use unimem.UniAllocator.Bump.{IsBump, carved, chunk_size_for_bounds, alloc-carved}

-- `p` is a used chunk of size `n` directly in front of the top chunk, behind a used chunk, and
-- not the designated victim. The two headers say so, and both sizes are multiples of 8.
pub record IsLast (s : State) (p n : ℕ) : Type 0 where
  pub ne_null : p ≢ null
  pub address : s.least_addr ≤ p
  pub head : s.mem (p + head_at) ≡ n + 3
  pub next : p + n ≡ s.top
  pub top_head : s.mem (s.top + head_at) ≡ s.topsize + 1
  pub words : n % 8 ≡ 0
  pub top_words : s.topsize % 8 ≡ 0
  pub positive : 0 < n
  pub size : s.topsize + n < 2 ^ 64
  pub not_victim : p ≢ s.dv

abbrev pub joined : State → Ptr → ℕ → State
joined s p n = record s {
  top = p;
  topsize = s.topsize + n;
  mem = update s.mem (p + head_at) (s.topsize + n + 1);
}

module _ (s : State) (p n : ℕ) (last : IsLast s p n) where
  size : IsSize n
  size = omega (arith, last.words, last.size)

  is_inuse-last : is_inuse p s ≡ ok true s
  unfolding is_inuse head_is_inuse
  is_inuse-last =
      rw (load-ok p head_at s last.ne_null, last.head, inuse_bits-word n 3 size (omega arith))

  chunksize-last : chunksize p s ≡ ok n s
  unfolding chunksize
  chunksize-last =
      rw (load-ok p head_at s last.ne_null, last.head, size_of-word n 3 size (omega arith))

  merge_back-last : merge_back p s.top n s ≡ ok (some (p, n)) s
  unfolding merge_back pinuse
  merge_back-last =
      rw (load-ok p head_at s last.ne_null, last.head, pinuse-word n 3 size (omega arith))

  merge_top-last : merge_top p n s ≡ ok tt (joined s p n)
  unfolding merge_top should_trim sys_trim
  merge_top-last =
      let sum : add64 s.topsize n ≡ s.topsize + n = unfold add64 in omega (arith, last.size) in
      let word : bit_or (s.topsize + n) pinuse_bit ≡ s.topsize + n + 1 =
        free_word (s.topsize + n) (omega (arith, last.words, last.top_words, last.size)) in
      let other : (p == s.dv) ≡ false = ground (arith, last.not_victim) in
      let s' = record s { top = p; topsize = s.topsize + n } in
      rw (sum, word, store-ok p head_at (s.topsize + n + 1) s' last.ne_null, other) (ground arith)

  merge_forward-last : merge_forward p s.top n s ≡ ok tt (joined s p n)
  unfolding merge_forward pinuse cinuse
  merge_forward-last =
      let above : ltb p s.top ≡ true = ground (arith, last.next, last.positive) in
      let nn : s.top ≢ null = λ e. last.ne_null (omega (arith, last.next)) in
      let top_size : IsSize s.topsize = omega (arith, last.top_words, last.size) in
      let same : (s.top == s.top) ≡ true = ground arith in
      rw
        (
          above,
          load-ok s.top head_at s nn,
          last.top_head,
          pinuse-word s.topsize 1 top_size (omega arith),
          load-ok s.top head_at s nn,
          last.top_head,
          cinuse-word s.topsize 1 top_size (omega arith),
          same,
        )
        merge_top-last

  merge_forward-behind : (q : Ptr) → q ≡ s.top → merge_forward p q n s ≡ ok tt (joined s p n)
  merge_forward-behind q e = rw (e) merge_forward-last

  -- `Free` of a used chunk that lies directly in front of the top chunk and behind a used chunk,
  -- is not null, not below the least address and not the designated victim, where the headers of
  -- the two chunks have their sizes and the flags of a used chunk and of the top chunk, and both
  -- sizes are multiples of 8, that of the chunk not zero and their sum below 2 ^ 64, returns; the chunk becomes the front of the top chunk, and
  -- nothing else changes but its header.
  pub free-joined : free (chunk2mem p) s ≡ ok tt (joined s p n)
  unfolding free ok_address
  free-joined =
      let back : p + 32 - 32 ≡ p = omega arith in
      let given : (p + 32 == 0) ≡ false = ground arith in
      let low : leb s.least_addr p ≡ true = ground (arith, last.address) in
      let next : p + 32 - 32 + n ≡ s.top = omega (arith, last.next) in
      rw (given, back, low, is_inuse-last, chunksize-last, last.next, merge_back-last)
        (merge_forward-behind (p + 32 - 32 + n) next)

-- Writing back the old value undoes a write.
update-restores :
    (m : ℕ → ℕ) (a b x y z : ℕ)
    → a ≢ b
    → m b ≡ z
    → update (update (update m a x) b y) b z ≡ update m a x
update-restores m a b x y z apart old i c =
    let same : update (update (update m a x) b y) b z c ≡ update m a x c =
      ground (arith, apart, old) in
    same i

-- From a state whose only free memory is the top chunk (both bitmaps and the size of the
-- designated victim are zero), which is not null, has a size that is a multiple of 8 below 2 ^ 64,
-- has its header, with that size and the flag PINUSE, is larger than the chunk for the request
-- (below `MAX_REQUEST`), not below the least address and not at the address of the designated
-- victim, the block that `Alloc` returns can be given back at once: `Free` makes the
-- top chunk what it was, with the same header, and all that the two calls leave changed is the
-- word in which the header of the smaller top chunk was.
pub alloc-free :
    (underlying : ℕ → ℕ → Ptr) (fuel bytes : ℕ) (s : State)
    → IsBump s
    → s.dv ≢ s.top
    → s.least_addr ≤ s.top
    → s.mem (s.top + head_at) ≡ s.topsize + 1
    → bytes < max_request
    → chunk_size_for bytes < s.topsize
    → (alloc underlying (suc fuel) bytes >>= free) s
      ≡ ok tt (record s {
        mem =
            update s.mem
              (s.top + chunk_size_for bytes + head_at)
              (s.topsize - chunk_size_for bytes + 1);
      })
alloc-free underlying fuel bytes s bump victim low head small below =
    let n = chunk_size_for bytes in
    let bounds = chunk_size_for_bounds bytes small in
    let last : IsLast (carved s n) s.top n = record {
      ne_null = bump.top;
      address = low;
      head = ground arith;
      next = refl;
      top_head = ground arith;
      words = omega (arith, bounds);
      top_words = omega (arith, bounds, bump.words);
      positive = omega (arith, bounds);
      size = omega (arith, bounds, bump.size);
      not_victim = λ e. victim (sym e);
    } in
    let size : s.topsize - n + n ≡ s.topsize = omega arith in
    let mem =
      update-restores s.mem (s.top + n + head_at) (s.top + head_at) (s.topsize - n + 1) (n + 3)
        (s.topsize + 1) (omega (arith, bounds)) head in
    rw
      (
        alloc-carved underlying fuel bytes s bump small below,
        free-joined (carved s n) s.top n last,
        size,
        mem,
      )
      refl
