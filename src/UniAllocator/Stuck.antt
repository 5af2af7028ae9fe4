-- ===== src/UniAllocator/Stuck.antt =====
-- Requests that neither the bins nor the designated victim nor the top chunk can serve, made of an
-- allocator that has its first grant.
use native.Mathlib.Nat.{zero-div}
use unimem.Base.{
  ℕ, zero, suc, ◌+◌, ◌/◌, ◌≤◌, ◌<◌, ◌^◌, ◌≡◌, ◌≢◌, refl, ap, ◌∙◌, arith, false, leb, ltb, none,
}
use unimem.Word.{shr}
use unimem.Machine.{Ptr, null, State, ok, out_of_fuel}
use unimem.Chunk.{max_request}
use unimem.MallocState.Top.{max_size_t, is_initialized}
use unimem.MallocState.SmallBins.{small_index}
use unimem.UniAllocator.{
  chunk_size_for, from_bins_small, from_bins_large, from_bins, init_or_expand, alloc,
}

-- What another round of `InitOrExpand` changes.
abbrev pub asked : State → State
asked s = record s { calls = s.calls + 1 }

zero_shr : (k : ℕ) → 0 / 2 ^ k ≡ 0
zero_shr k = zero-div (2 ^ k)

empty-bins_small :
    (nb : ℕ) (s : State) → s.smallmap ≡ 0 → s.treemap ≡ 0 → from_bins_small nb s ≡ ok none s
unfolding from_bins_small
empty-bins_small nb s small trees =
    let e : shr s.smallmap (small_index nb) ≡ 0 =
      ap (λ (t : ℕ). t / 2 ^ small_index nb) small ∙ zero_shr (small_index nb) in
    rw (e, trees) (ground arith)

empty-bins_large : (nb : ℕ) (s : State) → s.treemap ≡ 0 → from_bins_large nb s ≡ ok none s
unfolding from_bins_large
empty-bins_large nb s trees = ground arith

-- With no chunk in them the bins give nothing.
pub empty-bins :
    (bytes : ℕ) (s : State) → s.smallmap ≡ 0 → s.treemap ≡ 0 → from_bins bytes s ≡ ok none s
unfolding from_bins
empty-bins bytes s small trees = ground (
  arith,
  empty-bins_small (chunk_size_for bytes) s small trees,
  empty-bins_large (chunk_size_for bytes) s trees,
)

module _ (underlying : ℕ → ℕ → Ptr) where
  pub init_or_expand-asked :
      (s : State) → s.top ≢ null → init_or_expand underlying s ≡ ok tt (asked s)
  unfolding init_or_expand is_initialized
  init_or_expand-asked s ne = ground arith

  -- One call that neither the bins nor the designated victim nor the top chunk can serve.
  pub alloc-again :
      (fuel bytes : ℕ) (s : State)
      → from_bins bytes s ≡ ok none s
      → s.top ≢ null
      → s.dvsize < chunk_size_for bytes
      → s.topsize ≤ chunk_size_for bytes
      → alloc underlying (suc fuel) bytes s ≡ alloc underlying fuel bytes (asked s)
  unfolding alloc
  alloc-again fuel bytes s bins top dv tops =
      let dv_small : leb (chunk_size_for bytes) s.dvsize ≡ false = ground arith in
      let top_small : ltb (chunk_size_for bytes) s.topsize ≡ false = ground arith in
      rw (bins, dv_small, top_small, init_or_expand-asked s top)

  huge-bins : (bytes : ℕ) (s : State) → max_request ≤ bytes → from_bins bytes s ≡ ok none s
  unfolding from_bins
  huge-bins bytes s h = ground arith

  pub huge_size : (bytes : ℕ) → max_request ≤ bytes → chunk_size_for bytes ≡ max_size_t
  unfolding chunk_size_for
  huge_size bytes h = ground arith

  -- A request of `MAX_REQUEST` bytes or more never returns from an initialised allocator,
  -- whatever the depth of the recursion, unless the designated victim has the size
  -- `MAX_SIZE_T`.
  pub alloc-huge_diverges :
      (fuel bytes : ℕ) (s : State)
      → max_request ≤ bytes
      → s.top ≢ null
      → s.dvsize < max_size_t
      → s.topsize ≤ max_size_t
      → alloc underlying fuel bytes s ≡ out_of_fuel
  alloc-huge_diverges zero bytes s h top dv tops = unfold alloc in refl
  alloc-huge_diverges (suc fuel) bytes s h top dv tops =
      let nb : chunk_size_for bytes ≡ max_size_t = huge_size bytes h in
      alloc-again fuel bytes s (huge-bins bytes s h) top (rw nb dv) (rw nb tops)
      ∙ alloc-huge_diverges fuel bytes (asked s) h top dv tops

  -- A request that neither the designated victim nor the top chunk can serve never returns from
  -- an initialised allocator with empty bins, whatever the depth of the recursion: memory that
  -- the underlying allocator grants is not used.
  pub alloc-exhausted_diverges :
      (fuel bytes : ℕ) (s : State)
      → s.smallmap ≡ 0
      → s.treemap ≡ 0
      → s.top ≢ null
      → s.dvsize < chunk_size_for bytes
      → s.topsize ≤ chunk_size_for bytes
      → alloc underlying fuel bytes s ≡ out_of_fuel
  alloc-exhausted_diverges zero bytes s small trees top dv tops = unfold alloc in refl
  alloc-exhausted_diverges (suc fuel) bytes s small trees top dv tops =
      alloc-again fuel bytes s (empty-bins bytes s small trees) top dv tops
      ∙ alloc-exhausted_diverges fuel bytes (asked s) small trees top dv tops
