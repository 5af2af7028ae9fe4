-- ===== src/UniAllocator/Served.antt =====
-- `Alloc` of a small request that the bins of its size cannot serve, but the victim can.
use unimem.Base.{
  ℕ, suc, ◌+◌, ◌-◌, ◌%◌, ◌≤◌, ◌<◌, ◌≡◌, refl, ap, ◌∙◌, ◌⊎◌, inl, inr, Bool-cases, arith, true,
  false, ◌==◌, leb, ltb, bit_and, bit_or, List, [], none,
}
use unimem.Word.{shr}
use unimem.Word.Bits.{bit, bit-le-one}
use unimem.Word.Masks.{low_two}
use unimem.Machine.{Ptr, null, State, ok}
use unimem.Chunk.{head_at, prev_foot_at, pinuse_bit, chunk2mem}
use unimem.MallocState.Bitmap.Next.{bit-shr}
use unimem.MallocState.SmallBins.{max_small_request, small_index}
use unimem.MallocState.SmallBins.Ring.{is_cons}
use unimem.MallocState.SmallBins.Table.{IsTable}
use unimem.UniAllocator.{chunk_size_for, from_bins_small, from_bins, alloc}
use unimem.UniAllocator.Bump.{chunk_size_for_bounds}
use unimem.UniAllocator.Reuse.{chunk_size_for_small}
use unimem.UniAllocator.Victim.{
  IsServing, split, used_up, split-IsTable, used_up-IsTable, take_dv-split, take_dv-used_up,
}

-- A bin of no chunk has its bit clear.
clear_bit :
    (s : State) (bins : ℕ → List Ptr) (j i : ℕ)
    → j ≡ i
    → IsTable s bins
    → i < 32
    → bins i ≡ []
    → bit s.smallmap j ≡ 0
clear_bit s bins j i same table low empty =
    let unmarked = (table.each i low).marked ∙ ap is_cons empty in
    rw same (ground (arith, bit-le-one s.smallmap i, unmarked))

-- The two bins that would fit are empty, and the victim is large enough: the bins give nothing.
from_bins_small-none :
    (s : State) (bins : ℕ → List Ptr) (nb : ℕ)
    → IsTable s bins
    → small_index nb + 1 < 32
    → bins (small_index nb) ≡ []
    → bins (small_index nb + 1) ≡ []
    → nb ≤ s.dvsize
    → from_bins_small nb s ≡ ok none s
unfolding from_bins_small
from_bins_small-none s bins nb table low this next enough =
    let i = small_index nb in
    let zero_bits : bit_and (shr s.smallmap i) 0x3 ≡ 0 = omega (
      arith,
      low_two (shr s.smallmap i),
      bit-shr s.smallmap i 0,
      bit-shr s.smallmap i 1,
      clear_bit s bins (i + 0) i (omega arith) table (omega arith) this,
      clear_bit s bins (i + 1) (i + 1) refl table low next,
    ) in
    let no_fit : (bit_and (shr s.smallmap i) 0x3 == 0) ≡ true = ground (arith, zero_bits) in
    let not_small : ltb s.dvsize nb ≡ false = ground arith in rw (no_fit, not_small) refl

-- What has become of the victim `p` of the size `d` after `n` bytes were asked of it, where the
-- word `h` was behind it: it is split, and the rest is the new victim, or it is used up.
abbrev pub Served : State → Ptr → ℕ → ℕ → ℕ → Type 0
Served s p d n h =
    ((32 ≤ d - n)
      × (s.dv ≡ p + n)
      × (s.dvsize ≡ d - n)
      × (s.mem (p + head_at) ≡ n + 3)
      × (s.mem (p + n + head_at) ≡ d - n + 1)
      × (s.mem (p + n + (d - n) + prev_foot_at) ≡ d - n))
    ⊎ ((d - n < 32)
        × (s.dv ≡ null)
        × (s.dvsize ≡ 0)
        × (s.mem (p + head_at) ≡ d + 3)
        × (s.mem (p + d + head_at) ≡ bit_or h pinuse_bit))

-- For a request of at most `MAX_SMALL_REQUEST` bytes, where the small bins hold a table of lists,
-- the bins of its chunk size and of the next one are empty, and the designated victim is large
-- enough: `Alloc` returns the block of the victim, with no recursion, and the bins hold what they
-- held. If at least 32 bytes are left, the victim is split, and the rest, with its header and
-- footer, is the new victim; else the victim is handed out whole, there is none any more, and
-- PINUSE is set in the header behind it. The condition is that the victim is not null and has a
-- chunk size, and that no link of the table stands in the words that are written.
pub alloc-Served :
    (underlying : ℕ → ℕ → Ptr) (fuel bytes : ℕ) (s : State) (bins : ℕ → List Ptr)
    → bytes ≤ max_small_request
    → IsTable s bins
    → bins (small_index (chunk_size_for bytes)) ≡ []
    → bins (small_index (chunk_size_for bytes) + 1) ≡ []
    → IsServing s bins (chunk_size_for bytes) (s.dvsize - chunk_size_for bytes)
    → (s' : State) × (alloc underlying (suc fuel) bytes s ≡ ok (chunk2mem s.dv) s')
      × IsTable s' bins
      × Served s' s.dv s.dvsize (chunk_size_for bytes) (s.mem (s.dv + s.dvsize + head_at))
unfolding alloc from_bins
alloc-Served underlying fuel bytes s bins small table this next serving =
    let n = chunk_size_for bytes in
    let r = s.dvsize - n in
    let bounds = chunk_size_for_bounds bytes (omega arith) in
    let limit = chunk_size_for_small bytes small in
    let words : n % 8 ≡ 0 = omega (arith, bounds) in
    let large : 16 ≤ n = omega (arith, bounds) in
    let path : leb bytes max_small_request ≡ true = ground arith in
    let none_there =
      from_bins_small-none s bins n table (omega (arith, limit)) this next serving.room in
    let serves : leb n s.dvsize ≡ true = ground (arith, serving.room) in
    elim (Bool-cases (leb 32 r)) [
      | inl e ↦
          let enough : 32 ≤ r = ground arith in
          (
            split s n r,
            rw (path, none_there, serves)
                (take_dv-split s bins n r table serving words large refl enough),
            split-IsTable s bins n r table serving words large refl,
            inl (enough, refl, refl, ground arith, ground (arith, large), ground (arith, large)),
          )
      | inr e ↦
          let little : r < 32 = ground arith in
          (
            used_up s,
            rw (path, none_there, serves)
                (take_dv-used_up s bins n r table serving words large refl little),
            used_up-IsTable s bins n r table serving words large refl,
            inr (little, refl, refl, ground (arith, serving.room, large), ground arith),
          )
    ]
