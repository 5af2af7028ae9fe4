-- ===== src/RwLock/Posix.antt =====
-- What the pthread calls promise, and what the threads hold.
use unimem.Base.{ℕ, ◌+◌, ◌≡◌, ◌≢◌, arith, ◌⊎◌, some, List, [], ◌∷◌, ◌++◌}
use unimem.RwLock.{Pthread, Guard, idle, reading, writing}

-- What POSIX says of the calls, in terms of the numbers of read and of write locks that are held:
-- a read lock is granted only while there is no writer, a write lock only while there is no
-- other, a call that fails changes neither number, and a call of `unlock` that succeeds ends the
-- write lock if there is one, else a read lock. It succeeds if any lock is held.
pub record IsPosix {L : Type 0} (pthread : Pthread L) (readers writers : L → ℕ) : Type 0 where
  pub fresh : (readers pthread.rwlock_init ≡ 0) × (writers pthread.rwlock_init ≡ 0)
  pub rdlock :
      (l l' : L)
      → pthread.rwlock_rdlock l ≡ some (0, l')
      → (writers l ≡ 0) × (readers l' ≡ readers l + 1) × (writers l' ≡ 0)
  pub wrlock :
      (l l' : L)
      → pthread.rwlock_wrlock l ≡ some (0, l')
      → (writers l ≡ 0) × (readers l ≡ 0) × (readers l' ≡ 0) × (writers l' ≡ 1)
  pub lock_fails :
      (l l' : L) (code : ℕ)
      → code ≢ 0
      → (pthread.rwlock_rdlock l ≡ some (code, l')) ⊎ (pthread.rwlock_wrlock l ≡ some (code, l'))
      → (readers l' ≡ readers l) × (writers l' ≡ writers l)
  pub unlock_writer :
      (l l' : L)
      → pthread.rwlock_unlock l ≡ (0, l')
      → writers l ≡ 1
      → (readers l' ≡ readers l) × (writers l' ≡ 0)
  pub unlock_reader :
      (l l' : L)
      → pthread.rwlock_unlock l ≡ (0, l')
      → writers l ≡ 0
      → (readers l' + 1 ≡ readers l) × (writers l' ≡ 0)
  pub unlock_held :
      (l : L) → readers l + writers l ≢ 0 → (l' : L) × (pthread.rwlock_unlock l ≡ (0, l'))

abbrev pub readings : List Guard → ℕ
readings [] = 0
readings (idle ∷ gs) = readings gs
readings (reading ∷ gs) = readings gs + 1
readings (writing ∷ gs) = readings gs

abbrev pub writings : List Guard → ℕ
writings [] = 0
writings (idle ∷ gs) = writings gs
writings (reading ∷ gs) = writings gs
writings (writing ∷ gs) = writings gs + 1

-- What one thread adds to the counts.
pub readings-append : (xs ys : List Guard) → readings (xs ++ ys) ≡ readings xs + readings ys
readings-append [] ys = omega arith
readings-append (idle ∷ xs) ys = readings-append xs ys
readings-append (reading ∷ xs) ys = omega (arith, readings-append xs ys)
readings-append (writing ∷ xs) ys = readings-append xs ys

pub writings-append : (xs ys : List Guard) → writings (xs ++ ys) ≡ writings xs + writings ys
writings-append [] ys = omega arith
writings-append (idle ∷ xs) ys = writings-append xs ys
writings-append (reading ∷ xs) ys = writings-append xs ys
writings-append (writing ∷ xs) ys = omega (arith, writings-append xs ys)
