-- ===== src/UniAllocator/Init.antt =====
-- `InitOrExpand` on a zeroed `MallocState`.
use unimem.Base.{
  ℕ, zero, suc, ◌+◌, ◌-◌, ◌*◌, ◌%◌, ◌≤◌, ◌<◌, ◌^◌, ◌≡◌, ◌≢◌, refl, ◌∙◌, arith, ◌⊎◌, inl, inr, true,
  false, Bool-cases, ◌==◌, bit_or, update, [],
}
use unimem.Word.{mul64, sub64}
use unimem.Word.Bits.{bit_zero}
use unimem.Machine.{Ptr, null, Memory, State, ok, store}
use unimem.Machine.Returns.{store-ok}
use unimem.Chunk.{head_at, fd_at, bk_at, pinuse_bit, top_foot_size, align_offset, chunk2mem}
use unimem.Chunk.Sizes.{align_offset_aligned}
use unimem.Chunk.Head.{free_word}
use unimem.MallocState.Top.{
  smallbin_at, init_bins_from, init_bins, init_top, is_initialized, max_size_t,
  default_trim_threshold,
}
use unimem.MallocState.SmallBins.Table.{IsTable}
use unimem.UniAllocator.{init_or_expand}

-- The memory with `n` bins from the bin `i` on linked to themselves.
unfoldable pub anchored : ℕ → ℕ → Ptr → Memory → Memory
anchored zero i gm m = m
anchored (suc n) i gm m =
    let b = gm + 72 + 16 * i in
    anchored n (i + 1) gm (update (update m (b + bk_at) b) (b + fd_at) b)

init_bins_from-anchored :
    (n i : ℕ) (s : State)
    → init_bins_from n i s ≡ ok tt (record s { mem = anchored n i s.gm s.mem })
unfolding init_bins_from anchored smallbin_at
init_bins_from-anchored zero i s = refl
init_bins_from-anchored (suc n) i s =
    let b = s.gm + 72 + 16 * i in
    let ne : b ≢ null = omega arith in
    rw (store-ok b bk_at b s ne) (
      rw (store-ok b fd_at b (record s { mem = update s.mem (b + bk_at) b }) ne) (
        init_bins_from-anchored n (i + 1)
          (record s { mem = update (update s.mem (b + bk_at) b) (b + fd_at) b })))

init_bins-anchored : (s : State) → init_bins s ≡ ok tt (record s { mem = anchored 32 0 s.gm s.mem })
unfolding init_bins
init_bins-anchored s = init_bins_from-anchored 32 0 s

-- Outside of the links of those bins nothing changes.
pub anchored-outside :
    (n i gm : ℕ) (m : Memory) (a : Ptr)
    → (a < gm + 72 + 16 * i + 16) ⊎ (gm + 72 + 16 * (i + n) + 16 ≤ a)
    → anchored n i gm m a ≡ m a
unfolding anchored
anchored-outside zero i gm m a out = refl
anchored-outside (suc n) i gm m a out =
    anchored-outside n (i + 1) gm _ a (omega arith) ∙ ground arith

-- A bin in the range is linked to itself.
pub anchored-inside :
    (n i gm : ℕ) (m : Memory) (j : ℕ)
    → i ≤ j
    → j < i + n
    → let b = gm + 72 + 16 * j in
      (anchored n i gm m (b + fd_at) ≡ b) × (anchored n i gm m (b + bk_at) ≡ b)
unfolding anchored
anchored-inside zero i gm m j low high = absurd (omega arith)
anchored-inside (suc n) i gm m j low high = elim (Bool-cases (j == i)) [
  | inl e ↦
      let q : j ≡ i = ground arith in
      let b = gm + 72 + 16 * i in
      let m' = update (update m (b + bk_at) b) (b + fd_at) b in
      let fd = anchored-outside n (i + 1) gm m' (b + fd_at) (omega arith) in
      let bk = anchored-outside n (i + 1) gm m' (b + bk_at) (omega arith) in
      rw q (fd ∙ ground arith, bk ∙ ground arith)
  | inr e ↦ anchored-inside n (i + 1) gm _ j (ground arith) (omega arith)
]

-- A `MallocState` that is zero in the fields that `InitOrExpand` relies on.
pub record IsZeroed (s : State) : Type 0 where
  pub top : s.top ≡ null
  pub least : s.least_addr ≡ null
  pub smallmap : s.smallmap ≡ 0
  pub treemap : s.treemap ≡ 0
  pub dvsize : s.dvsize ≡ 0
  pub dv : s.dv ≡ null

-- `tsize` bytes at `tbase` that do not overlap the `MallocState` at `gm`.
pub record IsGrant (gm tbase tsize : ℕ) : Type 0 where
  pub ne_null : tbase ≢ null
  pub aligned : tbase % 16 ≡ 0
  pub room : 64 ≤ tsize
  pub words : tsize % 8 ≡ 0
  pub size : tsize < 2 ^ 64
  pub apart : (tbase + tsize + 8 ≤ gm) ⊎ (gm + 856 ≤ tbase)

-- The allocator after its first grant: the whole of it, less 8 bytes, is the top chunk.
abbrev pub started : State → Ptr → ℕ → State
started s tbase tsize = record s {
  mem =
      update (update (anchored 32 0 s.gm s.mem) (tbase + head_at) (tsize - 8 + 1))
        (tbase + (tsize - 8) + head_at) 8;
  calls = s.calls + 1;
  least_addr = tbase;
  magic = 1;
  release_checks = max_size_t;
  top = tbase;
  topsize = tsize - 8;
  trim_check = default_trim_threshold;
}

init_top-runs :
    (s : State) (tbase tsize : ℕ)
    → IsGrant s.gm tbase tsize
    → init_top tbase (tsize - 8) s
      ≡ ok tt (record s {
        mem =
            update
              (update s.mem (tbase + head_at) (tsize - 8 + 1))
              (tbase + (tsize - 8) + head_at)
              8;
        top = tbase;
        topsize = tsize - 8;
        trim_check = default_trim_threshold;
      })
unfolding init_top store
init_top-runs s tbase tsize grant =
    let offset : align_offset (chunk2mem tbase) ≡ 0 =
      align_offset_aligned (tbase + 32) (omega (arith, grant.aligned)) in
    let p : tbase + 0 ≡ tbase = omega arith in
    let size : sub64 (tsize - 8) 0 ≡ tsize - 8 = unfold sub64 in omega (arith, grant.size) in
    let word : bit_or (tsize - 8) pinuse_bit ≡ tsize - 8 + 1 =
      free_word (tsize - 8) (omega (arith, grant.words, grant.size, grant.room)) in
    let present : (tbase == null) ≡ false = ground (arith, grant.ne_null) in
    let end : (tbase + (tsize - 8) == null) ≡ false = ground (arith, grant.ne_null) in
    rw (offset, p, size, word, present, end)

-- The first `InitOrExpand`, on a zeroed state, makes a grant of `tsize` bytes the top chunk.
pub init_or_expand-started :
    (underlying : ℕ → ℕ → Ptr) (s : State) (tbase tsize : ℕ)
    → IsZeroed s
    → mul64 s.increasing_size s.increasing_step ≡ tsize
    → underlying s.calls tsize ≡ tbase
    → IsGrant s.gm tbase tsize
    → init_or_expand underlying s ≡ ok tt (started s tbase tsize)
unfolding init_or_expand is_initialized
init_or_expand-started underlying s tbase tsize zeroed size base grant =
    let s' = record s {
      calls = s.calls + 1;
      least_addr = tbase;
      magic = 1;
      release_checks = max_size_t;
    } in
    let fewer : sub64 tsize top_foot_size ≡ tsize - 8 =
      unfold sub64 in omega (arith, grant.size, grant.room) in
    let unset : (s.top == null) ≡ true = ground (arith, zeroed.top) in
    let lowest : (s.least_addr == null) ≡ true = ground (arith, zeroed.least) in
    rw (size, base, unset, lowest, fewer, init_bins-anchored s')
      (init_top-runs (record s' { mem = anchored 32 0 s.gm s.mem }) tbase tsize grant)

-- With no bin marked, the small bins are all empty.
pub IsTable-empty : (s : State) → s.smallmap ≡ 0 → IsTable s (λ _. [])
IsTable-empty s e = record {
  each = λ i low. record {
    index = low;
    map = omega arith;
    marked = rw e (ground (arith, bit_zero i));
    links = tt;
    apart = tt;
    distinct = tt;
    valid = tt;
  };
  cross = λ i j p q ne. tt;
  outside = λ i low. tt;
}

-- What the first `InitOrExpand` sets up: the small bins are empty and linked to themselves, the
-- top chunk is the grant less 8 bytes, with a header that says so, and the word behind the grant,
-- at `tbase + tsize`, is overwritten.
pub record IsStarted (s : State) (tbase tsize : ℕ) : Type 0 where
  pub table : IsTable s (λ _. [])
  pub anchors :
      (i : ℕ)
      → i < 32
      → (s.mem (smallbin_at i s + fd_at) ≡ smallbin_at i s)
        × (s.mem (smallbin_at i s + bk_at) ≡ smallbin_at i s)
  pub top : s.top ≡ tbase
  pub topsize : s.topsize ≡ tsize - 8
  pub head : s.mem (tbase + head_at) ≡ tsize - 8 + 1
  pub behind : s.mem (tbase + tsize) ≡ top_foot_size
  pub least : s.least_addr ≡ tbase

-- The first `InitOrExpand`, on a state whose top, least address, bitmaps, designated victim and
-- its size are zero, and with a grant that is not null, is aligned to 16 bytes, has a size of at
-- least 64 bytes that is a multiple of 8 below 2 ^ 64, and does not overlap the `MallocState`, nor
-- does the word behind it, returns and starts the allocator. Its top chunk ends in a word behind the grant.
pub init_or_expand-IsStarted :
    (underlying : ℕ → ℕ → Ptr) (s : State) (tbase tsize : ℕ)
    → IsZeroed s
    → mul64 s.increasing_size s.increasing_step ≡ tsize
    → underlying s.calls tsize ≡ tbase
    → IsGrant s.gm tbase tsize
    → (s' : State) × (init_or_expand underlying s ≡ ok tt s') × IsStarted s' tbase tsize
unfolding smallbin_at
init_or_expand-IsStarted underlying s tbase tsize zeroed size base grant = (
  started s tbase tsize,
  init_or_expand-started underlying s tbase tsize zeroed size base grant,
  record {
    table = IsTable-empty (started s tbase tsize) zeroed.smallmap;
    anchors = λ i low. ground (arith, grant.apart, grant.room, anchored-inside 32 0 s.gm s.mem i);
    top = refl;
    topsize = refl;
    head = ground (arith, grant.room);
    behind = ground (arith, grant.room);
    least = refl;
  },
)
