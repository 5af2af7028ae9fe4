-- ===== src/Heap/Released.antt =====
-- What it means that a used chunk is released: the others stay as they are.
use unimem.Base.{
  ℕ, ◌+◌, ◌≤◌, ◌<◌, ◌≡◌, ◌≢◌, refl, sym, ap, ◌∙◌, arith, ◌⊎◌, inl, inr, true, Bool-cases, ltb, ◌&&◌,
}
use unimem.Machine.{Ptr, State, Run, ok, corrupted}
use unimem.MallocState.TreeBins.{insert_chunk}
use unimem.UniAllocator.{bin_chunk}
use unimem.Heap.{Blocks, IsTiling, Stock, IsHeap}
use unimem.Heap.InsertLarge.{Binned, insert_chunk-IsHeap}
use unimem.Heap.Settle.{merged, merged-IsMerged}
use unimem.Heap.Tagging.{IsSettled}
use unimem.Heap.TopMerge.{below}

-- `x` is a used chunk of the size `n`.
abbrev pub IsLive : Blocks → Ptr → ℕ → Type 0
IsLive b x n = (0 < n) × (b.size x ≡ n) × (b.cinuse x ≡ 1)

-- The used chunks of `b'` are those of `b` but `p`.
pub record IsReleased (b b' : Blocks) (p : Ptr) : Type 0 where
  pub old : (x n : ℕ) → IsLive b' x n → IsLive b x n × (x ≢ p)
  pub still : (x n : ℕ) → IsLive b x n → x ≢ p → IsLive b' x n

-- What a release leaves: a heap without the used chunk `p`, or the exception that a second size
-- in a tree brings about.
abbrev pub Releases : Blocks → Ptr → Run (Unit {0}) → Type 0
Releases b p run =
    ((s' : State) × (b' : Blocks) × (k' : Stock) × (run ≡ ok tt s')
      × IsHeap s' b' k'
      × IsReleased b b' p)
    ⊎ ((s' : State) × (run ≡ corrupted s'))

-- The only used chunk of the region from `q` to `q + m` is `p`.
pub record HoldsOnly (b : Blocks) (q m p : Ptr) : Type 0 where
  pub live : 0 < b.size p
  pub from : q ≤ p
  pub to : p < q + m
  pub only : (x : Ptr) → 0 < b.size x → b.cinuse x ≡ 1 → q ≤ x → x < q + m → x ≡ p

-- A used chunk other than `p` is outside of the region.
outside :
    (b : Blocks) (q m p x n : Ptr)
    → HoldsOnly b q m p
    → IsLive b x n
    → x ≢ p
    → (x < q) ⊎ (q + m ≤ x)
outside b q m p x n holds live ne = elim (Bool-cases (ltb x q)) [
  | inl e ↦ inl (ground (arith, e))
  | inr e ↦ elim (Bool-cases (ltb x (q + m))) [
    | inl e' ↦
        absurd
          (ne (holds.only x (omega (arith, live)) live.2 (ground (arith, e)) (ground (arith, e'))))
    | inr e' ↦ inr (ground (arith, e'))
  ]
]

pub merged-IsReleased :
    (b : Blocks) (q m p : Ptr) → 0 < m → HoldsOnly b q m p → IsReleased b (merged b q m) p
merged-IsReleased b q m p pos holds =
    let merge = merged-IsMerged b q m pos in
    record {
      old = λ x n live.
          let nq : x ≢ q =
            λ e. omega (arith, live.2, merge.cinuse_front, ap (merged b q m).cinuse e) in
          let out : (x < q) ⊎ (q + m ≤ x) = elim (Bool-cases (ltb q x && ltb x (q + m))) [
            | inl e ↦ absurd (
                omega (
                  arith,
                  live.0,
                  live.1,
                  merge.size_inside x (ground (arith, e)) (ground (arith, e)),
                ))
            | inr e ↦ ground (arith, e, nq)
          ] in
          (
            (
              live.0,
              sym (merge.size_outside x out) ∙ live.1,
              sym (merge.cinuse_other x nq) ∙ live.2,
            ),
            λ e. omega (arith, e, out, holds.from, holds.to),
          );
      still = λ x n live ne.
          let out = outside b q m p x n holds live ne in
          (
            live.0,
            merge.size_outside x out ∙ live.1,
            merge.cinuse_other x (λ e. omega (arith, e, out, pos)) ∙ live.2,
          );
    }

pub below-IsReleased :
    (b : Blocks) (q m p : Ptr)
    → ((x : Ptr) → 0 < b.size x → x < q + m)
    → HoldsOnly b q m p
    → IsReleased b (below b q) p
below-IsReleased b q m p bound holds = record {
  old = λ x n live. elim (Bool-cases (ltb x q)) [
    | inl e ↦
        let less : x < q = ground (arith, e) in
        ((live.0, rw e at live.1, live.2), λ is. omega (arith, is, less, holds.from))
    | inr e ↦ let gone : 0 ≡ n = rw e at live.1 in absurd (omega (arith, gone, live.0))
  ];
  still = λ x n live ne.
      let less : x < q =
        omega (arith, outside b q m p x n holds live ne, bound x (omega (arith, live))) in
      let e : ltb x q ≡ true = ground (arith, less) in (live.0, rw e live.1, live.2);
}

bin_chunk-insert_chunk : (p n : ℕ) → bin_chunk p n ≡ insert_chunk p n
unfolding bin_chunk insert_chunk
bin_chunk-insert_chunk p n = refl

-- The chunk of a settled region goes into its bin.
pub bin_chunk-Releases :
    (s : State) (b b' : Blocks) (k : Stock) (q m p : Ptr)
    → IsSettled s b' k q m
    → IsReleased b b' p
    → Releases b p (bin_chunk q m s)
bin_chunk-Releases s b b' k q m p settled released =
    let done : Binned s b' (insert_chunk q m s) =
      rw settled.size at
        (insert_chunk-IsHeap s b' k q (q + m) q settled.tiling settled.stock settled.loose) in
    rw (bin_chunk-insert_chunk q m) (elim done [
      | inl (s', k', runs, heap, fields) ↦ inl (s', b', k', runs, heap, released)
      | inr thrown ↦ inr thrown
    ])

-- A free chunk behind the region holds no used one.
pub HoldsOnly-next :
    (s : State) (b : Blocks) (q m p : Ptr)
    → IsTiling s b
    → 0 < b.size (q + m)
    → b.cinuse (q + m) ≡ 0
    → HoldsOnly b q m p
    → HoldsOnly b q (m + b.size (q + m)) p
HoldsOnly-next s b q m p tiling pos free holds = record {
  live = holds.live;
  from = holds.from;
  to = omega (arith, holds.to);
  only = λ x there used low high. elim (Bool-cases (ltb x (q + m))) [
    | inl e ↦ holds.only x there used low (ground (arith, e))
    | inr e ↦
        let ne : x ≢ q + m = λ is. omega (arith, ap b.cinuse is, used, free) in
        let least = (tiling.each x there).least in
        absurd (ground (arith, e, high, ne, tiling.apart x (q + m) there pos, least, pos))
  ];
}
