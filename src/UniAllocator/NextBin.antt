-- ===== src/UniAllocator/NextBin.antt =====
-- `Alloc` from the next nonempty small bin: the chunk is split, and its remainder becomes the
-- designated victim, or handed out whole.
use unimem.Base.{
  ℕ, ◌+◌, ◌-◌, ◌*◌, ◌%◌, ◌≤◌, ◌<◌, ◌^◌, ◌≡◌, ◌≢◌, refl, ap, ◌∙◌, arith, inl, inr, true, false,
  Bool-cases, ◌==◌, ltb, bit_and, List, [], ◌∷◌, some,
}
use unimem.Word.{shr, shl32, sub64}
use unimem.Word.Bits.{bit, bit-le-one}
use unimem.Word.Masks.{low_two}
use unimem.Machine.{Ptr, null, State, ok, load}
use unimem.Machine.Returns.{load-ok}
use unimem.Chunk.{fd_at}
use unimem.MallocState.Bitmap.{idx2bit, least_bit, left_bits, compute_bit2idx}
use unimem.MallocState.Bitmap.Marks.{has}
use unimem.MallocState.Bitmap.Next.{IsNext, bit-shr, pos_of_bit, compute_bit2idx-IsNext_small}
use unimem.MallocState.Top.{smallbin_at}
use unimem.MallocState.SmallBins.{small_index, small_index2size}
use unimem.MallocState.SmallBins.Ring.{is_cons, IsBin}
use unimem.MallocState.SmallBins.Insert.{smallbin_at-pos}
use unimem.MallocState.SmallBins.Table.{IsTable}
use unimem.UniAllocator.{take_next_bin, from_bins_small}

-- Of the bins from that for the size `nb` on, the bin `i` is the first one that is not empty. It
-- is at least the second one behind.
pub record IsNextBin (bins : ℕ → List Ptr) (nb i : ℕ) (p : Ptr) (ys : List Ptr) : Type 0 where
  pub held : bins i ≡ p ∷ ys
  pub below : i < 32
  pub behind : small_index nb + 1 < i
  pub empty : (j : ℕ) → small_index nb ≤ j → j < i → bins j ≡ []

IsNext-unique : (map idx i j : ℕ) → IsNext map idx i → IsNext map idx j → i ≡ j
IsNext-unique map idx i j a b = elim (Bool-cases (ltb i j)) [
  | inl e ↦ absurd (ground (arith, b.first i a.behind, a.marked))
  | inr e ↦ elim (Bool-cases (ltb j i)) [
    | inl e' ↦ absurd (ground (arith, a.first j b.behind, b.marked))
    | inr e' ↦ ground arith
  ]
]

module _ (s : State) (bins : ℕ → List Ptr) (nb i : ℕ) (p : Ptr) (ys : List Ptr)
    (table : IsTable s bins) (next : IsNextBin bins nb i p ys) where
  map_small : s.smallmap < 2 ^ 32
  map_small = (table.each i next.below).map

  unmarked : (j : ℕ) → small_index nb ≤ j → j < i → has s.smallmap j ≡ false
  unmarked j from to =
      (table.each j (omega (arith, next.below))).marked ∙ ap is_cons (next.empty j from to)

  marked : has s.smallmap i ≡ true
  marked = (table.each i next.below).marked ∙ ap is_cons next.held

  unmarked_bit : (j : ℕ) → small_index nb ≤ j → j < i → bit s.smallmap j ≡ 0
  unmarked_bit j from to = ground (arith, bit-le-one s.smallmap j, unmarked j from to)

  marked_bit : (j : ℕ) → j ≡ i → bit s.smallmap j ≡ 1
  marked_bit j e = rw e (ground (arith, marked))

  low_bits : bit_and (shr s.smallmap (small_index nb)) 0x3 ≡ 0
  low_bits = omega (
    arith,
    low_two (shr s.smallmap (small_index nb)),
    bit-shr s.smallmap (small_index nb) 0,
    bit-shr s.smallmap (small_index nb) 1,
    unmarked_bit (small_index nb + 0) (omega arith) (omega (arith, next.behind)),
    unmarked_bit (small_index nb + 1) (omega arith) (omega (arith, next.behind)),
  )

  some_bit : shr s.smallmap (small_index nb) ≢ 0
  some_bit = λ e.
      let one =
        bit-shr s.smallmap (small_index nb) (i - small_index nb)
        ∙ marked_bit (small_index nb + (i - small_index nb)) (omega (arith, next.behind)) in
      let positive = pos_of_bit (shr s.smallmap (small_index nb)) (i - small_index nb) one in
      omega (arith, positive, e)

  is_next : IsNext s.smallmap (small_index nb) i
  is_next = record {
    behind = omega (arith, next.behind);
    marked = marked;
    first = λ j from to. unmarked j (omega arith) to;
  }

  pub found :
      compute_bit2idx
        (least_bit (
          bit_and
            (shl32 (shr s.smallmap (small_index nb)) (small_index nb))
            (left_bits (idx2bit (small_index nb)))))
        s
      ≡ ok i s
  found =
      let (k, runs, low, is) =
        compute_bit2idx-IsNext_small s.smallmap (small_index nb) s map_small
          (omega (arith, next.behind, next.below)) low_bits some_bit in
      let same : k ≡ i = IsNext-unique s.smallmap (small_index nb) k i is is_next in rw same at runs

  pub bin : IsBin s i (p ∷ ys)
  bin = rw next.held at (table.each i next.below)

  pub first : load (smallbin_at i s) fd_at s ≡ ok p s
  first =
      let b_ne : smallbin_at i s ≢ null = omega (arith, smallbin_at-pos i s) in
      rw (load-ok (smallbin_at i s) fd_at s b_ne, bin.links.0) refl

  -- The remainder of the chunk.
  pub rest : nb % 8 ≡ 0 → nb < 256 → sub64 (small_index2size i) nb ≡ i * 8 - nb
  unfolding sub64
  rest words small = omega (arith, next.behind, next.below)

  pub from_bins_small-next :
      (m : Ptr) (s' : State)
      → s.dvsize < nb
      → take_next_bin nb (small_index nb) (shr s.smallmap (small_index nb)) s ≡ ok m s'
      → from_bins_small nb s ≡ ok (some m) s'
  unfolding from_bins_small
  from_bins_small-next m s' victim taken =
      let no_fit : (bit_and (shr s.smallmap (small_index nb)) 0x3 == 0) ≡ true =
        ground (arith, low_bits) in
      let victim_small : ltb s.dvsize nb ≡ true = ground arith in
      let some_bin : (shr s.smallmap (small_index nb) == 0) ≡ false = ground (arith, some_bit) in
      rw (no_fit, victim_small, some_bin, taken) refl
