-- ===== src/Heap/Heads.antt =====
-- What the getters read in the header words of the heap.
use unimem.Base.{ℕ, ◌+◌, ◌*◌, ◌/◌, ◌%◌, ◌<◌, ◌≡◌, ◌≢◌, refl, arith, true, ◌==◌, false}
use unimem.Machine.{Ptr, null, State, ok}
use unimem.Machine.Returns.{load-ok}
use unimem.Chunk.{head_at, pinuse, cinuse, chunksize, is_inuse, head_is_inuse}
use unimem.Chunk.Head.{IsSize, pinuse-word, cinuse-word, size_of-word, inuse_bits-word}
use unimem.Heap.{Blocks, IsTiling, IsChunk}

module _ (s : State) (b : Blocks) (x : Ptr) (tiling : IsTiling s b) (pos : 0 < b.size x) where
  chunk : IsChunk s b x
  chunk = tiling.each x pos

  pub chunk_ne_null : x ≢ null
  chunk_ne_null e = omega (arith, e, tiling.least_pos, tiling.least, chunk.low)

  pub size-IsSize : IsSize (b.size x)
  size-IsSize = omega (arith, chunk.words, chunk.low, chunk.high, tiling.limit)

  abbrev pub flags : ℕ
  flags = 2 * b.cinuse x + b.pinuse x

  pub few : flags < 8
  few = omega (arith, chunk.cflag, chunk.pflag)

  pub head_word : s.mem (x + head_at) ≡ b.size x + flags
  head_word = omega (arith, chunk.head)

  pub chunksize-ok : chunksize x s ≡ ok (b.size x) s
  unfolding chunksize
  chunksize-ok =
      rw
        (
          load-ok x head_at s chunk_ne_null,
          head_word,
          size_of-word (b.size x) flags size-IsSize few,
        )
        refl

  pub pinuse-ok : pinuse x s ≡ ok (b.pinuse x) s
  unfolding pinuse
  pinuse-ok =
      let bit : flags % 2 ≡ b.pinuse x = omega (arith, chunk.pflag) in
      rw
        (
          load-ok x head_at s chunk_ne_null,
          head_word,
          pinuse-word (b.size x) flags size-IsSize few,
          bit,
        )
        refl

  pub cinuse-ok : cinuse x s ≡ ok (b.cinuse x * 2) s
  unfolding cinuse
  cinuse-ok =
      let bit : flags / 2 % 2 * 2 ≡ b.cinuse x * 2 = omega (arith, chunk.pflag, chunk.cflag) in
      rw
        (
          load-ok x head_at s chunk_ne_null,
          head_word,
          cinuse-word (b.size x) flags size-IsSize few,
          bit,
        )
        refl

  pub is_inuse-ok : b.cinuse x ≡ 1 → is_inuse x s ≡ ok true s
  unfolding is_inuse head_is_inuse
  is_inuse-ok used =
      let bits : (flags % 4 == 1) ≡ false = ground (arith, chunk.pflag, used) in
      rw (
        load-ok x head_at s chunk_ne_null,
        head_word,
        inuse_bits-word (b.size x) flags size-IsSize few,
        bits,
      )

-- The header of the top chunk.
module _ (s : State) (b : Blocks) (tiling : IsTiling s b) where
  pub top_ne_null : s.top ≢ null
  top_ne_null e = omega (arith, e, tiling.least_pos, tiling.least, tiling.below)

  pub topsize-IsSize : IsSize s.topsize
  topsize-IsSize = omega (arith, tiling.words, tiling.below, tiling.limit)

  pub top_pinuse-ok : pinuse s.top s ≡ ok 1 s
  unfolding pinuse
  top_pinuse-ok = rw (
    load-ok s.top head_at s top_ne_null,
    tiling.top_head,
    pinuse-word s.topsize 1 topsize-IsSize (omega arith),
  )

  pub top_cinuse-ok : cinuse s.top s ≡ ok 0 s
  unfolding cinuse
  top_cinuse-ok = rw (
    load-ok s.top head_at s top_ne_null,
    tiling.top_head,
    cinuse-word s.topsize 1 topsize-IsSize (omega arith),
  )
