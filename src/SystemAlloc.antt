-- ===== src/SystemAlloc.antt =====
-- src/cpp/allocator_backends/system_alloc.cc: `AlignedMalloc` and `CPUAllocator`, without _WIN32.
use unimem.Base.{
  ℕ, ◌+◌, ◌%◌, ◌<◌, ◌≡◌, ◌≢◌, refl, arith, ◌⊎◌, inl, inr, Bool, true, false, Bool-cases, not, ◌==◌,
  if◌then◌else◌, Option, none, some, List, ◌∷◌,
}
use unimem.Machine.{Ptr, null}

-- The macros of the build: NDEBUG and PADDLE_WITH_MKLDNN.
pub record Build : Type 0 where
  pub ndebug : Bool
  pub mkldnn : Bool

-- How often `posix_memalign` was called, what was given to `free`, and the caller's `*index`.
pub record System : Type 0 where
  pub calls : ℕ
  pub freed : List Ptr
  pub index : ℕ

-- `AlignedMalloc` has the local `p`.
pub record Frame : Type 0 where
  pub p : Ptr
  pub system : System

-- `assert(e)`: under NDEBUG the expression is not evaluated; `none` is an abort.
unfoldable pub assert_macro : Bool → (Frame → Bool × Frame) → Frame → Option Frame
assert_macro ndebug e f = if ndebug then some f else passed (e f)
  where
    passed : Bool × Frame → Option Frame
    passed (true, f') = some f'
    passed (false, f') = none

abbrev pub alignment : Build → ℕ
alignment build = if build.mkldnn then 4096 else 32

module _ (posix_memalign : ℕ → ℕ → ℕ → ℕ × Ptr) (build : Build) where
  -- `posix_memalign(&p, alignment, size) == 0`, where `posix_memalign n alignment size` is the
  -- code of call number `n` and what it leaves in `p`.
  abbrev pub memalign_is_zero : ℕ → Frame → Bool × Frame
  memalign_is_zero size f =
      let (code, p') = posix_memalign f.system.calls (alignment build) size in
      (code == 0, record { p = p'; system = record f.system { calls = f.system.calls + 1 } })

  abbrev pub p_is_not_null : Frame → Bool × Frame
  p_is_not_null f = (not (f.p == null), f)

  unfoldable pub aligned_malloc : ℕ → System → Option Frame
  aligned_malloc size s =
      elim (assert_macro build.ndebug (memalign_is_zero size) (record { p = null; system = s })) [
        | none ↦ none
        | some f ↦ assert_macro build.ndebug p_is_not_null f
      ]

  -- `CPUAllocator::Alloc`: the block and the system after it, or an abort.
  unfoldable pub cpu_alloc : ℕ → System → Option Frame
  cpu_alloc size s =
      if size == 0
      then some (record { p = null; system = s })
      else aligned_malloc size (record s { index = 0 })

-- `CPUAllocator::Free`, which calls `free(p)`.
unfoldable pub cpu_free : Ptr → System → System
cpu_free p s = record s { freed = p ∷ s.freed }

abbrev pub use_gpu : Bool
use_gpu = false

-- What POSIX says of a block that `posix_memalign` gives: it is aligned.
abbrev pub Aligns : (ℕ → ℕ → ℕ → ℕ × Ptr) → Type 0
Aligns memalign = (n a size : ℕ) → (memalign n a size).0 ≡ 0 → (memalign n a size).1 % a ≡ 0

module _ (posix_memalign : ℕ → ℕ → ℕ → ℕ × Ptr) (build : Build) where
  -- With `assert` on, a size that is not 0 and a `posix_memalign` that aligns what it gives,
  -- `CPUAllocator::Alloc` calls it once. It aborts if that call fails or gives null; else it
  -- returns, the block is not null and is aligned, and `*index` is 0.
  pub cpu_alloc-aligned :
      (size : ℕ) (s : System)
      → Aligns posix_memalign
      → build.ndebug ≡ false
      → 0 < size
      → let (code, p) = posix_memalign s.calls (alignment build) size in
        (((code ≢ 0) ⊎ (p ≡ null)) × (cpu_alloc posix_memalign build size s ≡ none))
        ⊎ ((f : Frame) × (cpu_alloc posix_memalign build size s ≡ some f)
            × (f.p ≢ null)
            × (f.p % alignment build ≡ 0)
            × (f.system.index ≡ 0)
            × (f.system.calls ≡ s.calls + 1))
  unfolding cpu_alloc aligned_malloc assert_macro
  cpu_alloc-aligned size s aligns debug positive =
      let (code, p) = posix_memalign s.calls (alignment build) size in
      elim (Bool-cases (code == 0)) [
        | inr e ↦ inl (inl (ground arith), ground (arith, debug))
        | inl e ↦ elim (Bool-cases (p == null)) [
          | inl z ↦ inl (inr (ground arith), ground (arith, debug))
          | inr z ↦ inr (
            record { p = p; system = record s { calls = s.calls + 1; index = 0 } },
            ground (arith, debug),
            ground arith,
            aligns s.calls (alignment build) size (ground arith),
            refl,
            refl,
          )
        ]
      ]

  -- Under NDEBUG `CPUAllocator::Alloc` returns null for every size, and does not call
  -- `posix_memalign`.
  pub cpu_alloc-ndebug :
      (size : ℕ) (s : System)
      → build.ndebug ≡ true
      → (f : Frame) × (cpu_alloc posix_memalign build size s ≡ some f)
        × (f.p ≡ null)
        × (f.system.calls ≡ s.calls)
  unfolding cpu_alloc aligned_malloc assert_macro
  cpu_alloc-ndebug size s ndebug = elim (Bool-cases (size == 0)) [
    | inl e ↦ (record { p = null; system = s }, rw e refl, refl, refl)
    | inr e ↦
        (record { p = null; system = record s { index = 0 } }, rw (e, ndebug) refl, refl, refl)
  ]
