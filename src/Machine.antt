-- ===== src/Machine.antt =====
-- What the code of src/cpp/allocators/uni_allocator runs on: a memory of 8-byte words, the fields
-- of `MallocState` and of `UniAllocator`, and commands that read and write them, throw, abort or
-- run into undefined behaviour.
pub mod Returns
pub mod Outcomes
use unimem.Base.{ℕ, ◌+◌, Bool, true, false, ◌==◌, if◌then◌else◌, update}

abbrev pub Ptr : Type 0
Ptr = ℕ

abbrev pub null : Ptr
null = 0

-- The word at address `a` is `mem a`. The accesses of the code are to 8-byte fields at aligned
-- addresses (`TreeChunk::index` has four bytes, and padding behind it), so that two of them
-- overlap only where their addresses are equal.
abbrev pub Memory : Type 0
Memory = Ptr → ℕ

-- `MallocState` and the counters of `UniAllocator`. `gm` is the address of the `MallocState`
-- object, which the code needs for its two arrays: they are part of the memory. `calls` counts
-- the requests made to the underlying allocator.
pub record State : Type 0 where
  pub mem : Memory
  pub gm : Ptr
  pub smallmap : ℕ
  pub treemap : ℕ
  pub dvsize : ℕ
  pub topsize : ℕ
  pub least_addr : Ptr
  pub dv : Ptr
  pub top : Ptr
  pub trim_check : ℕ
  pub release_checks : ℕ
  pub magic : ℕ
  pub increasing_size : ℕ
  pub increasing_step : ℕ
  pub calls : ℕ

-- How a run ends. `corrupted` is a thrown `MemoryCorruptedException`, `aborted` a failed `assert`
-- (both with the state at that point), `fault` undefined behaviour: an access through the null
-- pointer, or `__builtin_ctz(0)`.
pub data Run {ℓ} (A : Type ℓ) : Type ℓ where
  ok : A → State → Run A
  corrupted : State → Run A
  aborted : State → Run A
  fault : Run A
  out_of_fuel : Run A

abbrev pub Cmd {ℓ} : Type ℓ → Type ℓ
Cmd A = State → Run A

abbrev pub pure {ℓ} : {A : Type ℓ} → A → Cmd A
pure = ok

module _ {ℓ κ} {A : Type ℓ} {B : Type κ} where
  abbrev pub and_then : Run A → (A → Cmd B) → Run B
  and_then (ok a s) k = k a s
  and_then (corrupted s) k = corrupted s
  and_then (aborted s) k = aborted s
  and_then fault k = fault
  and_then out_of_fuel k = out_of_fuel

  infixl 5 ◌>>=◌ ◌>>◌
  abbrev pub ◌>>=◌ : Cmd A → (A → Cmd B) → Cmd B
  m >>= k = λ s. and_then (m s) k

  abbrev pub ◌>>◌ : Cmd A → Cmd B → Cmd B
  m >> n = m >>= λ _. n

abbrev pub Action : Type 0
Action = Cmd (Unit {0})

abbrev pub skip : Action
skip s = ok tt s

abbrev pub gets {ℓ} : {A : Type ℓ} → (State → A) → Cmd A
gets f s = ok (f s) s

abbrev pub modify : (State → State) → Action
modify f s = ok tt (f s)

-- `throw MemoryCorruptedException()`.
abbrev pub throw_corrupted {ℓ} : {A : Type ℓ} → Cmd A
throw_corrupted s = corrupted s

-- `if (RTCHECK(b)) … else throw MemoryCorruptedException();`
abbrev pub rtcheck : Bool → Action
rtcheck true s = ok tt s
rtcheck false s = corrupted s

-- `assert(b)`.
abbrev pub assert : Bool → Action
assert true s = ok tt s
assert false s = aborted s

-- `p->f` and `p->f = v` for the field at offset `off`.
unfoldable pub load : Ptr → ℕ → Cmd ℕ
load p off s = if p == null then fault else ok (s.mem (p + off)) s

unfoldable pub store : Ptr → ℕ → ℕ → Action
store p off v s = if p == null then fault else ok tt (record s { mem = update s.mem (p + off) v })

-- `*q` and `*q = v` for a pointer to a pointer.
unfoldable pub deref : Ptr → Cmd ℕ
deref q s = if q == null then fault else ok (s.mem q) s

unfoldable pub assign : Ptr → ℕ → Action
assign q v s = if q == null then fault else ok tt (record s { mem = update s.mem q v })
