-- ===== src/RwLock/Exclusion.antt =====
-- Readers and one writer exclude each other.
use unimem.Base.{
  ℕ, zero, suc, ◌+◌, ◌≤◌, ◌≡◌, ◌≢◌, refl, ◌∙◌, ap, arith, ◌⊎◌, inl, inr, Option, none, some, List,
  ◌∷◌, ◌++◌,
}
use unimem.RwLock.{
  Pthread, returned, threw, check, check_call, rd_lock, wr_lock, un_lock, Guard, idle, reading,
  writing, System, Step, auto_rd_lock, auto_rd_lock_throws, auto_wr_lock, auto_wr_lock_throws,
  auto_rd_unlock, auto_wr_unlock, all_idle, Reach, start, next,
}
use unimem.RwLock.Posix.{IsPosix, readings, writings, readings-append, writings-append}

-- What a call that returned or threw has done.
module _ {L : Type 0} (l l' : L) where
  code_of_return : (r : ℕ × L) → check r ≡ returned l' → r ≡ (0, l')
  code_of_return (code, k) e = ground arith

  call_of_return : (r : Option (ℕ × L)) → check_call r ≡ some (returned l') → r ≡ some (0, l')
  call_of_return none e = ground arith
  call_of_return (some r) e = ap some (code_of_return r (ground arith))

  call_of_throw :
      (r : Option (ℕ × L))
      → check_call r ≡ some (threw l')
      → (code : ℕ) × (code ≢ 0) × (r ≡ some (code, l'))
  call_of_throw none e = ground arith
  call_of_throw (some (code, k)) e = (code, ground arith, ground arith)

-- The lock counts what the threads hold, and a writer is alone.
pub record IsCounted {L : Type 0} (readers writers : L → ℕ) (s : System L) : Type 0 where
  pub read_count : readers s.lock ≡ readings s.threads
  pub write_count : writers s.lock ≡ writings s.threads
  pub one : writings s.threads ≤ 1
  pub alone : (writings s.threads ≡ 0) ⊎ (readings s.threads ≡ 0)

idle_threads : (n : ℕ) → (readings (all_idle n) ≡ 0) × (writings (all_idle n) ≡ 0)
idle_threads zero = (refl, refl)
idle_threads (suc n) = idle_threads n

module _ {L : Type 0} (pthread : Pthread L) (readers writers : L → ℕ)
    (posix : IsPosix pthread readers writers) where
  counts :
      (xs ys : List Guard)
      → (readings (xs ++ ys) ≡ readings xs + readings ys)
        × (writings (xs ++ ys) ≡ writings xs + writings ys)
  counts xs ys = (readings-append xs ys, writings-append xs ys)

  Step-IsCounted :
      {s t : System L}
      → Step pthread s t
      → IsCounted readers writers s
      → IsCounted readers writers t
  unfolding rd_lock wr_lock un_lock
  Step-IsCounted (auto_rd_lock l l' xs ys e) c =
      let law = posix.rdlock l l' (call_of_return l l' (pthread.rwlock_rdlock l) e) in
      record {
        read_count = omega (
          arith,
          law,
          c.read_count,
          c.write_count,
          counts xs (idle ∷ ys),
          counts xs (reading ∷ ys),
        );
        write_count =
            omega (arith, law, c.write_count, counts xs (idle ∷ ys), counts xs (reading ∷ ys));
        one =
            omega
              (arith, law, c.write_count, c.one, counts xs (idle ∷ ys), counts xs (reading ∷ ys));
        alone = omega (
          arith,
          law,
          c.read_count,
          c.write_count,
          c.alone,
          counts xs (idle ∷ ys),
          counts xs (reading ∷ ys),
        );
      }
  Step-IsCounted (auto_rd_lock_throws l l' xs ys e) c =
      let (code, ne, call) = call_of_throw l l' (pthread.rwlock_rdlock l) e in
      let law = posix.lock_fails l l' code ne (inl call) in
      record {
        read_count = law.0 ∙ c.read_count;
        write_count = law.1 ∙ c.write_count;
        one = c.one;
        alone = c.alone;
      }
  Step-IsCounted (auto_wr_lock l l' xs ys e) c =
      let law = posix.wrlock l l' (call_of_return l l' (pthread.rwlock_wrlock l) e) in
      record {
        read_count = omega (
          arith,
          law,
          c.read_count,
          c.write_count,
          counts xs (idle ∷ ys),
          counts xs (writing ∷ ys),
        );
        write_count =
            omega (arith, law, c.write_count, counts xs (idle ∷ ys), counts xs (writing ∷ ys));
        one =
            omega
              (arith, law, c.write_count, c.one, counts xs (idle ∷ ys), counts xs (writing ∷ ys));
        alone = omega (
          arith,
          law,
          c.read_count,
          c.write_count,
          c.alone,
          counts xs (idle ∷ ys),
          counts xs (writing ∷ ys),
        );
      }
  Step-IsCounted (auto_wr_lock_throws l l' xs ys e) c =
      let (code, ne, call) = call_of_throw l l' (pthread.rwlock_wrlock l) e in
      let law = posix.lock_fails l l' code ne (inr call) in
      record {
        read_count = law.0 ∙ c.read_count;
        write_count = law.1 ∙ c.write_count;
        one = c.one;
        alone = c.alone;
      }
  Step-IsCounted (auto_rd_unlock l l' xs ys e) c =
      let no_writer : writers l ≡ 0 =
        omega (arith, c.write_count, c.one, c.alone, counts xs (reading ∷ ys)) in
      let law =
        posix.unlock_reader l l' (code_of_return l l' (pthread.rwlock_unlock l) e) no_writer in
      record {
        read_count = omega (
          arith,
          law,
          c.read_count,
          c.write_count,
          counts xs (reading ∷ ys),
          counts xs (idle ∷ ys),
        );
        write_count =
            omega (arith, law, c.write_count, counts xs (reading ∷ ys), counts xs (idle ∷ ys));
        one =
            omega
              (arith, law, c.write_count, c.one, counts xs (reading ∷ ys), counts xs (idle ∷ ys));
        alone = omega (
          arith,
          law,
          c.read_count,
          c.write_count,
          c.alone,
          counts xs (reading ∷ ys),
          counts xs (idle ∷ ys),
        );
      }
  Step-IsCounted (auto_wr_unlock l l' xs ys e) c =
      let some_writer : writers l ≡ 1 =
        omega (arith, c.write_count, c.one, counts xs (writing ∷ ys)) in
      let law =
        posix.unlock_writer l l' (code_of_return l l' (pthread.rwlock_unlock l) e) some_writer in
      record {
        read_count = omega (
          arith,
          law,
          c.read_count,
          c.write_count,
          counts xs (writing ∷ ys),
          counts xs (idle ∷ ys),
        );
        write_count =
            omega (arith, law, c.write_count, counts xs (writing ∷ ys), counts xs (idle ∷ ys));
        one =
            omega
              (arith, law, c.write_count, c.one, counts xs (writing ∷ ys), counts xs (idle ∷ ys));
        alone = omega (
          arith,
          law,
          c.read_count,
          c.write_count,
          c.alone,
          counts xs (writing ∷ ys),
          counts xs (idle ∷ ys),
        );
      }

  Reach-IsCounted : (n : ℕ) {s : System L} → Reach pthread n s → IsCounted readers writers s
  Reach-IsCounted n start = record {
    read_count = omega (arith, posix.fresh, idle_threads n);
    write_count = omega (arith, posix.fresh, idle_threads n);
    one = omega (arith, idle_threads n);
    alone = inl (idle_threads n).1;
  }
  Reach-IsCounted n (next r step) = Step-IsCounted step (Reach-IsCounted n r)

  -- However the threads that share an `RWLock` run, over a lock that keeps what POSIX says: at
  -- most one of them holds an `AutoWRLock`, and while one does, none holds an `AutoRDLock`.
  pub Reach-IsExclusive :
      (n : ℕ) {s : System L}
      → Reach pthread n s
      → (writings s.threads ≤ 1) × ((writings s.threads ≡ 0) ⊎ (readings s.threads ≡ 0))
  Reach-IsExclusive n r = let c = Reach-IsCounted n r in (c.one, c.alone)

  held :
      (xs ys : List Guard) (g : Guard)
      → g ≢ idle
      → readings (xs ++ g ∷ ys) + writings (xs ++ g ∷ ys) ≢ 0
  held xs ys idle h e = h refl
  held xs ys reading h e = omega (arith, counts xs (reading ∷ ys), e)
  held xs ys writing h e = omega (arith, counts xs (writing ∷ ys), e)

  -- However the threads that share an `RWLock` run, over a lock that keeps what POSIX says: the
  -- destructor of a guard that a thread holds does not throw.
  pub un_lock-returned :
      (n : ℕ) (l : L) (xs ys : List Guard) (g : Guard)
      → g ≢ idle
      → Reach pthread n (record { lock = l; threads = xs ++ g ∷ ys })
      → (l' : L) × (un_lock pthread l ≡ returned l')
  unfolding un_lock
  un_lock-returned n l xs ys g h r =
      let c = Reach-IsCounted n r in
      let some_lock : readers l + writers l ≢ 0 =
        λ e. held xs ys g h (omega (arith, c.read_count, c.write_count, e)) in
      let (l', e) = posix.unlock_held l some_lock in (l', rw e refl)
