-- ===== src/Tests/RwLock.antt =====
-- Two threads that share a lock.
use unimem.Base.{
  ℕ, ◌+◌, ◌-◌, ◌≤◌, ◌≡◌, ◌≢◌, refl, arith, ◌⊎◌, inl, inr, Bool-cases, ◌==◌, false, if◌then◌else◌,
  Option, none, some, [], ◌∷◌,
}
use unimem.RwLock.{
  Pthread, returned, wr_lock, un_lock, idle, writing, System, auto_wr_lock, Reach, start, next,
}
use unimem.RwLock.Posix.{IsPosix, readings, writings}
use unimem.RwLock.Exclusion.{Reach-IsExclusive, un_lock-returned}

-- A lock that counts, for at most 99 readers.
record Counts : Type 0 where
  readers : ℕ
  writers : ℕ

unfoldable rdlock : Counts → Option (ℕ × Counts)
rdlock l =
    if l.writers == 0
    then if l.readers == 99
      then some (11, l)
      else some (0, record { readers = l.readers + 1; writers = 0 })
    else none

unfoldable wrlock : Counts → Option (ℕ × Counts)
wrlock l =
    if l.writers + l.readers == 0 then some (0, record { readers = 0; writers = 1 }) else none

unfoldable unlock : Counts → ℕ × Counts
unlock l =
    if l.writers == 0
    then if l.readers == 0 then (1, l) else (0, record { readers = l.readers - 1; writers = 0 })
    else (0, record { readers = l.readers; writers = 0 })

abbrev counting : Pthread Counts
counting = record {
  rwlock_init = record { readers = 0; writers = 0 };
  rwlock_rdlock = rdlock;
  rwlock_wrlock = wrlock;
  rwlock_unlock = unlock;
}

unlock-held : (l : Counts) → l.readers + l.writers ≢ 0 → (l' : Counts) × (unlock l ≡ (0, l'))
unfolding unlock
unlock-held l held = elim (Bool-cases (l.writers == 0)) [
  | inl e ↦
      let some_reader : (l.readers == 0) ≡ false = ground arith in
      (record { readers = l.readers - 1; writers = 0 }, rw (e, some_reader) refl)
  | inr e ↦ (record { readers = l.readers; writers = 0 }, rw e refl)
]

counting-IsPosix : IsPosix counting (λ l. l.readers) (λ l. l.writers)
unfolding rdlock wrlock unlock
counting-IsPosix = record {
  fresh = (refl, refl);
  rdlock = λ l l' e. ground arith;
  wrlock = λ l l' e. ground arith;
  lock_fails = λ l l' code ne e. ground arith;
  unlock_writer = λ l l' e w. ground arith;
  unlock_reader = λ l l' e w. ground arith;
  unlock_held = λ l held. unlock-held l held;
}

abbrev one_writes : System Counts
one_writes = record { lock = record { readers = 0; writers = 1 }; threads = writing ∷ idle ∷ [] }

one_writes-Reach : Reach counting 2 one_writes
unfolding wr_lock wrlock
one_writes-Reach =
    next start (
      auto_wr_lock counting.rwlock_init (record { readers = 0; writers = 1 }) [] (idle ∷ []) locked)
  where
    locked :
        wr_lock counting counting.rwlock_init
        ≡ some (returned (record { readers = 0; writers = 1 }))
    locked = refl

Reach-IsExclusive_example :
    (writings one_writes.threads ≤ 1)
    × ((writings one_writes.threads ≡ 0) ⊎ (readings one_writes.threads ≡ 0))
Reach-IsExclusive_example =
    Reach-IsExclusive counting (λ l. l.readers) (λ l. l.writers) counting-IsPosix 2 one_writes-Reach

un_lock-returned_example : (l' : Counts) × (un_lock counting one_writes.lock ≡ returned l')
un_lock-returned_example =
    un_lock-returned counting (λ l. l.readers) (λ l. l.writers) counting-IsPosix 2 one_writes.lock
      [] (idle ∷ []) writing (ground arith) one_writes-Reach
