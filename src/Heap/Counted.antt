-- ===== src/Heap/Counted.antt =====
-- The calls of the underlying allocator are counted in the state, and nothing of the heap depends
-- on their number.
use unimem.Base.{ℕ, ◌≡◌, refl, Bool-cases, inl, inr, ◌==◌}
use unimem.Machine.{State, ok, fault}
use unimem.Machine.Outcomes.{ok-same}
use unimem.MallocState.Bitmap.{compute_bit2idx, trailing_zeros}
use unimem.Heap.{Blocks, Stock, IsHeap, IsTiling-frame}
use unimem.Heap.Keeping.{IsLeast, SameKept, IsStock-frame}

abbrev pub counted : State → ℕ → State
counted s c = record s { calls = c }

pub counted-IsHeap :
    (s : State) (b : Blocks) (k : Stock) (c : ℕ) → IsHeap s b k → IsHeap (counted s c) b k
counted-IsHeap s b k c heap =
    let least : IsLeast b = λ x pos. (heap.0.each x pos).least in
    let same : SameKept s (counted s c) b 0 0 = record {
      gm = refl;
      least = refl;
      smallmap = refl;
      treemap = refl;
      dv = refl;
      dvsize = refl;
      array = λ a from to. refl;
      chunks = λ x a free from to. refl;
    } in
    (
      IsTiling-frame s (counted s c) b refl refl refl refl refl (λ x pos. refl) (λ x pos free. refl)
          heap.0,
      IsStock-frame s (counted s c) b k 0 0 least same heap.1,
    )

-- The index that `compute_bit2idx` gives does not depend on the state.
pub compute_bit2idx-any :
    (x i : ℕ) (s s' : State) → compute_bit2idx x s ≡ ok i s → compute_bit2idx x s' ≡ ok i s'
unfolding compute_bit2idx
compute_bit2idx-any x i s s' runs = elim (Bool-cases (x == 0)) [
  | inl e ↦ let faults : fault ≡ ok i s = rw e at runs in absurd cc
  | inr e ↦
      let gives : ok (trailing_zeros 32 x) s ≡ ok i s = rw e at runs in
      let same : trailing_zeros 32 x ≡ i = (ok-same (trailing_zeros 32 x) i s s gives).0 in
      rw (e, same) refl
]
