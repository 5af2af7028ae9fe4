-- ===== src/Machine/Returns.antt =====
-- Reads and writes that succeed, as equations.
use unimem.Base.{ℕ, ◌+◌, ◌≡◌, ◌≢◌, arith, update}
use unimem.Machine.{Ptr, null, State, ok, load, store, deref, assign}

-- The state with one word of the memory written.
abbrev pub write : State → Ptr → ℕ → State
write s a v = record s { mem = update s.mem a v }

pub load-ok : (p off : ℕ) (s : State) → p ≢ null → load p off s ≡ ok (s.mem (p + off)) s
unfolding load
load-ok p off s ne = ground arith

pub store-ok : (p off v : ℕ) (s : State) → p ≢ null → store p off v s ≡ ok tt (write s (p + off) v)
unfolding store
store-ok p off v s ne = ground arith

pub deref-ok : (q : ℕ) (s : State) → q ≢ null → deref q s ≡ ok (s.mem q) s
unfolding deref
deref-ok q s ne = ground arith

pub assign-ok : (q v : ℕ) (s : State) → q ≢ null → assign q v s ≡ ok tt (write s q v)
unfolding assign
assign-ok q v s ne = ground arith
