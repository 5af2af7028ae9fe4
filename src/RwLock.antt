-- ===== src/RwLock.antt =====
-- src/cpp/rw_lock/rw_lock.h: `RWLock` over a pthread read-write lock, and the guards `AutoRDLock`
-- and `AutoWRLock`, held by the threads of a program.
pub mod Posix
pub mod Exclusion
use unimem.Base.{ℕ, zero, suc, ◌≡◌, ◌==◌, if◌then◌else◌, Option, none, some, List, [], ◌∷◌, ◌++◌}

-- The pthread library: a lock `L`, and for each call the code that it returns and the lock
-- after it. `none` is a call that blocks.
pub record Pthread (L : Type 0) : Type 0 where
  pub rwlock_init : L
  pub rwlock_rdlock : L → Option (ℕ × L)
  pub rwlock_wrlock : L → Option (ℕ × L)
  pub rwlock_unlock : L → ℕ × L

-- A method returns, or throws a `RWLockException`.
pub data Outcome (L : Type 0) : Type 0 where
  returned : L → Outcome L
  threw : L → Outcome L

abbrev pub check : {L : Type 0} → ℕ × L → Outcome L
check (code, l) = if code == 0 then returned l else threw l

abbrev pub check_call : {L : Type 0} → Option (ℕ × L) → Option (Outcome L)
check_call none = none
check_call (some r) = some (check r)

module _ {L : Type 0} (pthread : Pthread L) where
  unfoldable pub rd_lock : L → Option (Outcome L)
  rd_lock l = check_call (pthread.rwlock_rdlock l)

  unfoldable pub wr_lock : L → Option (Outcome L)
  wr_lock l = check_call (pthread.rwlock_wrlock l)

  unfoldable pub un_lock : L → Outcome L
  un_lock l = check (pthread.rwlock_unlock l)

-- What a thread holds: no guard, or one of the two.
pub data Guard : Type 0 where
  idle : Guard
  reading : Guard
  writing : Guard

pub record System (L : Type 0) : Type 0 where
  pub lock : L
  pub threads : List Guard

-- One thread runs the constructor or the destructor of a guard. A constructor that throws leaves
-- no guard behind; a destructor that throws ends the program, so there is no state after it.
pub data Step {L : Type 0} (pthread : Pthread L) : System L → System L → Type 0 where
  auto_rd_lock :
      (l l' : L) (xs ys : List Guard)
      → rd_lock pthread l ≡ some (returned l')
      → Step pthread
          (record { lock = l; threads = xs ++ idle ∷ ys })
          (record { lock = l'; threads = xs ++ reading ∷ ys })
  auto_rd_lock_throws :
      (l l' : L) (xs ys : List Guard)
      → rd_lock pthread l ≡ some (threw l')
      → Step pthread
          (record { lock = l; threads = xs ++ idle ∷ ys })
          (record { lock = l'; threads = xs ++ idle ∷ ys })
  auto_wr_lock :
      (l l' : L) (xs ys : List Guard)
      → wr_lock pthread l ≡ some (returned l')
      → Step pthread
          (record { lock = l; threads = xs ++ idle ∷ ys })
          (record { lock = l'; threads = xs ++ writing ∷ ys })
  auto_wr_lock_throws :
      (l l' : L) (xs ys : List Guard)
      → wr_lock pthread l ≡ some (threw l')
      → Step pthread
          (record { lock = l; threads = xs ++ idle ∷ ys })
          (record { lock = l'; threads = xs ++ idle ∷ ys })
  auto_rd_unlock :
      (l l' : L) (xs ys : List Guard)
      → un_lock pthread l ≡ returned l'
      → Step pthread
          (record { lock = l; threads = xs ++ reading ∷ ys })
          (record { lock = l'; threads = xs ++ idle ∷ ys })
  auto_wr_unlock :
      (l l' : L) (xs ys : List Guard)
      → un_lock pthread l ≡ returned l'
      → Step pthread
          (record { lock = l; threads = xs ++ writing ∷ ys })
          (record { lock = l'; threads = xs ++ idle ∷ ys })

-- The states of `n` threads that share a new `RWLock`.
abbrev pub all_idle : ℕ → List Guard
all_idle zero = []
all_idle (suc n) = idle ∷ all_idle n

pub data Reach {L : Type 0} (pthread : Pthread L) (n : ℕ) : System L → Type 0 where
  start : Reach pthread n (record { lock = pthread.rwlock_init; threads = all_idle n })
  next : {s t : System L} → Reach pthread n s → Step pthread s t → Reach pthread n t
