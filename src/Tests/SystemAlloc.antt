-- ===== src/Tests/SystemAlloc.antt =====
-- `CPUAllocator` over a `posix_memalign` that grants up to 1024 bytes a call.
use native.Mathlib.Nat.{mul-mod_left}
use unimem.Base.{
  ℕ, ◌+◌, ◌*◌, ◌%◌, ◌≡◌, ◌≢◌, ◌⊎◌, inl, inr, Bool-cases, refl, arith, true, false, leb,
  if◌then◌else◌, none, some, [],
}
use unimem.Machine.{Ptr, null}
use unimem.SystemAlloc.{
  Build, System, Frame, alignment, cpu_alloc, Aligns, cpu_alloc-aligned, cpu_alloc-ndebug,
}

unfoldable memalign : ℕ → ℕ → ℕ → ℕ × Ptr
memalign n a size = if leb size 1024 then (0, (n + 1) * 1024 * a) else (12, null)

memalign-Aligns : Aligns memalign
unfolding memalign
memalign-Aligns n a size e = elim (Bool-cases (leb size 1024)) [
  | inl h ↦ rw h (mul-mod_left ((n + 1) * 1024) a)
  | inr h ↦ absurd (ground (arith, h, e))
]

abbrev new_system : System
new_system = record { calls = 0; freed = []; index = 7 }

abbrev debug : Build
debug = record { ndebug = false; mkldnn = false }

abbrev release : Build
release = record { ndebug = true; mkldnn = true }

cpu_alloc-aligned_example :
    ((((memalign 0 32 100).0 ≢ 0) ⊎ ((memalign 0 32 100).1 ≡ null))
      × (cpu_alloc memalign debug 100 new_system ≡ none))
    ⊎ ((f : Frame) × (cpu_alloc memalign debug 100 new_system ≡ some f)
        × (f.p ≢ null)
        × (f.p % alignment debug ≡ 0)
        × (f.system.index ≡ 0)
        × (f.system.calls ≡ 0 + 1))
cpu_alloc-aligned_example =
    cpu_alloc-aligned memalign debug 100 new_system memalign-Aligns refl (omega arith)

cpu_alloc-ndebug_example :
    (f : Frame) × (cpu_alloc memalign release 100 new_system ≡ some f)
    × (f.p ≡ null)
    × (f.system.calls ≡ 0)
cpu_alloc-ndebug_example = cpu_alloc-ndebug memalign release 100 new_system refl
