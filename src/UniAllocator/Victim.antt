-- ===== src/UniAllocator/Victim.antt =====
-- The designated victim serves a request: it is split or used up.
use unimem.Base.{ℕ, ◌+◌, ◌-◌, ◌%◌, ◌≤◌, ◌<◌, ◌≡◌, ◌≢◌, refl, arith, true, false, leb, bit_or, List}
use unimem.Word.{sub64}
use unimem.Machine.{Ptr, null, State, ok}
use unimem.Machine.Returns.{write, load-ok, store-ok}
use unimem.Chunk.{
  head_at, prev_foot_at, pinuse_bit, min_chunk_size, chunk2mem, set_foot,
  set_size_and_pinuse_of_free_chunk, set_size_and_pinuse_of_inuse_chunk,
}
use unimem.Chunk.Head.{IsSize, free_word, inuse_word}
use unimem.MallocState.Top.{smallbin_at, set_inuse_and_pinuse}
use unimem.MallocState.SmallBins.Table.{IsTable}
use unimem.MallocState.SmallBins.Frame.{IsSpared, IsTable-write}
use unimem.MallocState.SmallBins.Victim.{with_dv, IsTable-with_dv}
use unimem.UniAllocator.{take_dv}

-- The designated victim, of the size `d`, with its front of size `n` and the rest of size `r`:
-- no link of the table stands in the words that are written.
pub record IsServing (s : State) (bins : ℕ → List Ptr) (n r : ℕ) : Type 0 where
  pub ne_null : s.dv ≢ null
  pub size : IsSize s.dvsize
  pub room : n ≤ s.dvsize
  pub head : IsSpared s bins (s.dv + head_at)
  pub rest_head : IsSpared s bins (s.dv + n + head_at)
  pub rest_foot : IsSpared s bins (s.dv + n + r + prev_foot_at)
  pub next_head : IsSpared s bins (s.dv + s.dvsize + head_at)

-- The state after the victim has been split, or used up.
abbrev pub split : State → ℕ → ℕ → State
split s n r =
    write
      (write (write (with_dv s (s.dv + n) r) (s.dv + n + head_at) (r + 1))
        (s.dv + n + r + prev_foot_at) r)
      (s.dv + head_at) (n + 3)

abbrev pub used_up : State → State
used_up s =
    write (write (with_dv s null 0) (s.dv + head_at) (s.dvsize + 3)) (s.dv + s.dvsize + head_at)
      (bit_or (s.mem (s.dv + s.dvsize + head_at)) pinuse_bit)

module _ (s : State) (bins : ℕ → List Ptr) (n r : ℕ) (table : IsTable s bins)
    (serving : IsServing s bins n r) (words : n % 8 ≡ 0) (large : 16 ≤ n)
    (remainder : r ≡ s.dvsize - n) where
  rest_size : sub64 s.dvsize n ≡ r
  rest_size = unfold sub64 in omega (arith, serving.size, serving.room, remainder)

  pub split-IsTable : IsTable (split s n r) bins
  unfolding smallbin_at
  split-IsTable =
      let s1 = with_dv s (s.dv + n) r in
      let s2 = write s1 (s.dv + n + head_at) (r + 1) in
      let s3 = write s2 (s.dv + n + r + prev_foot_at) r in
      let t1 = IsTable-with_dv s bins (s.dv + n) r table in
      let t2 = IsTable-write s1 bins (s.dv + n + head_at) (r + 1) t1 serving.rest_head in
      let t3 = IsTable-write s2 bins (s.dv + n + r + prev_foot_at) r t2 serving.rest_foot in
      IsTable-write s3 bins (s.dv + head_at) (n + 3) t3 serving.head

  pub used_up-IsTable : IsTable (used_up s) bins
  unfolding smallbin_at
  used_up-IsTable =
      let s1 = with_dv s null 0 in
      let s2 = write s1 (s.dv + head_at) (s.dvsize + 3) in
      let t1 = IsTable-with_dv s bins null 0 table in
      let t2 = IsTable-write s1 bins (s.dv + head_at) (s.dvsize + 3) t1 serving.head in
      IsTable-write s2 bins (s.dv + s.dvsize + head_at)
        (bit_or (s.mem (s.dv + s.dvsize + head_at)) pinuse_bit) t2 serving.next_head

  pub take_dv-split : 32 ≤ r → take_dv n s ≡ ok (chunk2mem s.dv) (split s n r)
  unfolding take_dv set_size_and_pinuse_of_free_chunk set_foot set_size_and_pinuse_of_inuse_chunk
  take_dv-split enough =
      let p = s.dv in
      let s1 = with_dv s (p + n) r in
      let s2 = write s1 (p + n + head_at) (r + 1) in
      let s3 = write s2 (p + n + r + prev_foot_at) r in
      let nn_rest : p + n ≢ null = λ e. serving.ne_null (omega arith) in
      let nn_foot : p + n + r ≢ null = λ e. serving.ne_null (omega arith) in
      let cut : leb min_chunk_size r ≡ true = ground arith in
      rw
        (
          rest_size,
          cut,
          free_word r (omega (arith, remainder, words, serving.size)),
          store-ok (p + n) head_at (r + 1) s1 nn_rest,
          store-ok (p + n + r) prev_foot_at r s2 nn_foot,
          inuse_word n (omega (arith, words, serving.size, serving.room)),
          store-ok p head_at (n + 3) s3 serving.ne_null,
        )
        refl

  pub take_dv-used_up : r < 32 → take_dv n s ≡ ok (chunk2mem s.dv) (used_up s)
  unfolding take_dv set_inuse_and_pinuse
  take_dv-used_up little =
      let p = s.dv in
      let s1 = with_dv s null 0 in
      let s2 = write s1 (p + head_at) (s.dvsize + 3) in
      let nn_next : p + s.dvsize ≢ null = λ e. serving.ne_null (omega arith) in
      let whole : leb min_chunk_size r ≡ false = ground arith in
      let behind : s2.mem (p + s.dvsize + head_at) ≡ s.mem (p + s.dvsize + head_at) =
        ground (arith, serving.room, large) in
      rw
        (
          rest_size,
          whole,
          inuse_word s.dvsize serving.size,
          store-ok p head_at (s.dvsize + 3) s1 serving.ne_null,
          load-ok (p + s.dvsize) head_at s2 nn_next,
          behind,
          store-ok (p + s.dvsize) head_at (bit_or (s.mem (p + s.dvsize + head_at)) pinuse_bit) s2
              nn_next,
        )
        refl
