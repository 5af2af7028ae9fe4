-- ===== src/Tests/Split.antt =====
-- A chunk of 128 bytes in its bin, and a designated victim of 48 bytes.
use unimem.Base.{
  ℕ, ◌+◌, ◌-◌, ◌*◌, ◌<◌, ◌^◌, ◌≡◌, ◌≢◌, refl, arith, false, inl, inr, Bool-cases, ◌==◌, List, [],
  ◌∷◌, bit_or,
}
use unimem.Word.{add64}
use unimem.Machine.{Ptr, State, ok}
use unimem.Chunk.{head_at, prev_foot_at, pinuse_bit, chunk2mem, pad_request}
use unimem.MallocState.Top.{smallbin_at}
use unimem.MallocState.SmallBins.{small_index, replace_dv}
use unimem.MallocState.SmallBins.Ring.{AllApart}
use unimem.MallocState.SmallBins.Insert.{inserted}
use unimem.MallocState.SmallBins.Table.{IsTable, set_bin, inserted-IsTable}
use unimem.MallocState.SmallBins.Frame.{NoLink, IsSpared}
use unimem.MallocState.SmallBins.Victim.{IsVictim, with_victim, replace_dv-IsTable}
use unimem.UniAllocator.{chunk_size_for, alloc}
use unimem.UniAllocator.Init.{IsTable-empty}
use unimem.UniAllocator.NextBin.{IsNextBin}
use unimem.UniAllocator.Reuse.{IsReusable}
use unimem.UniAllocator.Whole.{alloc-IsTable_whole}
use unimem.UniAllocator.Split.{IsCuttable, IsSplit, IsClear, alloc-IsSplit}
use unimem.Tests.{grant, fresh}

abbrev big : Ptr
big = 2 ^ 20

abbrev victim : Ptr
victim = 2 ^ 20 + 1024

abbrev empty : ℕ → List Ptr
empty i = []

abbrev one_big : ℕ → List Ptr
one_big = set_bin empty 16 (big ∷ [])

abbrev with_big : State
with_big = record (inserted fresh big 16 []) { dv = victim; dvsize = 48 }

base-IsTable : IsTable (record fresh { dv = victim; dvsize = 48 }) empty
base-IsTable = IsTable-empty (record fresh { dv = victim; dvsize = 48 }) refl

with_big-IsTable : IsTable with_big one_big
unfolding smallbin_at
with_big-IsTable =
    inserted-IsTable (record fresh { dv = victim; dvsize = 48 }) empty base-IsTable 16 (omega arith)
      big
      record {
        ne_null = omega arith;
        address = omega arith;
        outside = omega arith;
        apart = λ i low. tt;
      }

victim-apart : (i : ℕ) → AllApart victim (one_big i)
victim-apart i = elim (Bool-cases (i == 16)) [ inl e ↦ rw e (omega arith, tt) | inr e ↦ rw e tt ]

with_big-IsVictim : IsVictim with_big one_big
with_big-IsVictim = inr (
  omega arith,
  omega arith,
  record {
    ne_null = omega arith;
    address = omega arith;
    outside = omega arith;
    apart = λ i low. victim-apart i;
  },
)

replace_dv-IsTable_example :
    (s' : State) × (replace_dv (2 ^ 20 + 4096) 64 with_big ≡ ok tt s')
    × IsTable s' (with_victim with_big one_big)
    × (s'.dv ≡ 2 ^ 20 + 4096)
    × (s'.dvsize ≡ 64)
    × ((a : Ptr) → IsSpared with_big one_big a → NoLink a with_big.dv → s'.mem a ≡ with_big.mem a)
replace_dv-IsTable_example =
    replace_dv-IsTable with_big one_big (2 ^ 20 + 4096) 64 with_big-IsTable with_big-IsVictim

size_64 : chunk_size_for 50 ≡ 64
unfolding chunk_size_for pad_request add64
size_64 = refl

big-IsNextBin : IsNextBin one_big (chunk_size_for 50) 16 big []
big-IsNextBin = rw size_64 record {
  held = refl;
  below = omega arith;
  behind = omega arith;
  empty = λ j from to. let other : (j == 16) ≡ false = ground arith in rw other refl;
}

big-IsSpared : (a : ℕ) → 2 ^ 20 < a → a ≢ big + 16 → a ≢ big + 24 → IsSpared with_big one_big a
unfolding smallbin_at
big-IsSpared a high fd bk i low = (
  (omega arith, omega arith),
  elim (Bool-cases (i == 16)) [ inl e ↦ rw e ((fd, bk), tt) | inr e ↦ rw e tt ],
)

big-IsCuttable : IsCuttable with_big one_big big (chunk_size_for 50) (16 * 8 - chunk_size_for 50)
big-IsCuttable = rw size_64 record {
  head = big-IsSpared (big + head_at) (omega arith) (omega arith) (omega arith);
  rest_head = big-IsSpared (big + 64 + head_at) (omega arith) (omega arith) (omega arith);
  rest_foot = big-IsSpared (big + 64 + 64 + prev_foot_at) (omega arith) (omega arith) (omega arith);
}

victim-IsClear : IsClear victim big (chunk_size_for 50) (16 * 8 - chunk_size_for 50)
victim-IsClear = rw size_64 record {
  head = (omega arith, omega arith);
  rest_head = (omega arith, omega arith);
  rest_foot = (omega arith, omega arith);
}

alloc-IsSplit_example :
    (s' : State) × (alloc grant 1 50 with_big ≡ ok (chunk2mem big) s')
    × IsTable s' (with_victim with_big (set_bin one_big 16 []))
    × IsSplit s' big (chunk_size_for 50) (16 * 8 - chunk_size_for 50)
alloc-IsSplit_example =
    alloc-IsSplit grant 0 50 with_big one_big 16 big [] (omega arith) with_big-IsTable
      with_big-IsVictim (omega (arith, size_64)) big-IsNextBin (omega (arith, size_64))
      big-IsCuttable victim-IsClear

-- 16 bytes are left of a chunk of 80 bytes.
abbrev odd_bin : ℕ → List Ptr
odd_bin = set_bin empty 10 (big ∷ [])

abbrev with_odd : State
with_odd = inserted fresh big 10 []

with_odd-IsTable : IsTable with_odd odd_bin
with_odd-IsTable =
    inserted-IsTable fresh empty (IsTable-empty fresh refl) 10 (omega arith) big record {
      ne_null = omega arith;
      address = omega arith;
      outside = omega arith;
      apart = λ i low. tt;
    }

odd-IsSpared : (a : ℕ) → 2 ^ 20 < a → a ≢ big + 16 → a ≢ big + 24 → IsSpared with_odd odd_bin a
unfolding smallbin_at
odd-IsSpared a high fd bk i low = (
  (omega arith, omega arith),
  elim (Bool-cases (i == 10)) [ inl e ↦ rw e ((fd, bk), tt) | inr e ↦ rw e tt ],
)

odd-IsReusable : IsReusable with_odd odd_bin big 80 0 []
unfolding smallbin_at
odd-IsReusable = record {
  held = refl;
  next_head = refl;
  size = omega arith;
  low = omega arith;
  high = omega arith;
  spared = odd-IsSpared (big + head_at) (omega arith) (omega arith) (omega arith);
  next_spared = odd-IsSpared (big + 80 + head_at) (omega arith) (omega arith) (omega arith);
}

odd-IsNextBin : IsNextBin odd_bin (chunk_size_for 50) (small_index 80) big []
odd-IsNextBin = rw size_64 record {
  held = refl;
  below = omega arith;
  behind = omega arith;
  empty = λ j from to. let other : (j == 10) ≡ false = ground arith in rw other refl;
}

alloc-IsTable_whole_example :
    (s' : State) × (alloc grant 1 50 with_odd ≡ ok (chunk2mem big) s')
    × IsTable s' (set_bin odd_bin (small_index 80) [])
    × (s'.mem (big + head_at) ≡ 80 + 3)
    × (s'.mem (big + 80 + head_at) ≡ bit_or 0 pinuse_bit)
alloc-IsTable_whole_example =
    alloc-IsTable_whole grant 0 50 with_odd odd_bin big 80 0 [] (omega arith) with_odd-IsTable
      (omega (arith, size_64)) odd-IsReusable odd-IsNextBin (omega (arith, size_64))
