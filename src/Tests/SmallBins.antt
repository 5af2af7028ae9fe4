-- ===== src/Tests/SmallBins.antt =====
-- Two chunks of 48 bytes in the small bin 6.
use unimem.Base.{ℕ, ◌+◌, ◌^◌, ◌≡◌, refl, arith, inl, inr, Bool-cases, ◌==◌, List, [], ◌∷◌}
use unimem.Machine.{Ptr, State, ok}
use unimem.MallocState.Top.{smallbin_at}
use unimem.MallocState.SmallBins.{insert_small_chunk, unlink_first_small_chunk, unlink_small_chunk}
use unimem.MallocState.SmallBins.Ring.{AllApart}
use unimem.MallocState.SmallBins.Insert.{inserted}
use unimem.MallocState.SmallBins.Table.{
  IsTable, IsFresh, set_bin, inserted-IsTable, insert_small_chunk-IsTable,
}
use unimem.MallocState.SmallBins.Cut.{unlink_small_chunk-IsTable, unlink_first_small_chunk-IsTable}
use unimem.UniAllocator.Init.{IsTable-empty}
use unimem.Tests.{fresh}

abbrev c1 : Ptr
c1 = 2 ^ 20

abbrev c2 : Ptr
c2 = 2 ^ 20 + 64

abbrev no_chunks : ℕ → List Ptr
no_chunks i = []

abbrev one_chunk : ℕ → List Ptr
one_chunk = set_bin no_chunks 6 (c1 ∷ [])

abbrev two_chunks : ℕ → List Ptr
two_chunks = set_bin one_chunk 6 (c2 ∷ c1 ∷ [])

abbrev with_one : State
with_one = inserted fresh c1 6 []

abbrev with_two : State
with_two = inserted with_one c2 6 (c1 ∷ [])

fresh-IsTable : IsTable fresh no_chunks
fresh-IsTable = IsTable-empty fresh refl

c1-IsFresh : IsFresh fresh no_chunks c1
c1-IsFresh = record {
  ne_null = omega arith;
  address = omega arith;
  outside = omega arith;
  apart = λ i low. tt;
}

with_one-IsTable : IsTable with_one one_chunk
with_one-IsTable = inserted-IsTable fresh no_chunks fresh-IsTable 6 (omega arith) c1 c1-IsFresh

c2-apart : (i : ℕ) → AllApart c2 (one_chunk i)
c2-apart i = elim (Bool-cases (i == 6)) [ inl e ↦ rw e (omega arith, tt) | inr e ↦ rw e tt ]

c2-IsFresh : IsFresh with_one one_chunk c2
c2-IsFresh = record {
  ne_null = omega arith;
  address = omega arith;
  outside = omega arith;
  apart = λ i low. c2-apart i;
}

with_two-IsTable : IsTable with_two two_chunks
with_two-IsTable =
    inserted-IsTable with_one one_chunk with_one-IsTable 6 (omega arith) c2 c2-IsFresh

insert_small_chunk-IsTable_example :
    (s' : State) × (insert_small_chunk c2 48 with_one ≡ ok tt s') × IsTable s' two_chunks
insert_small_chunk-IsTable_example =
    insert_small_chunk-IsTable with_one one_chunk c2 48 with_one-IsTable c2-IsFresh (omega arith)
      (omega arith)

unlink_small_chunk-IsTable_example :
    (s' : State) × (unlink_small_chunk c1 48 with_two ≡ ok tt s')
    × IsTable s' (set_bin two_chunks 6 (c2 ∷ []))
unlink_small_chunk-IsTable_example =
    unlink_small_chunk-IsTable with_two two_chunks c1 48 (c2 ∷ []) [] with_two-IsTable (omega arith)
      refl

unlink_first_small_chunk-IsTable_example :
    (s' : State) × (unlink_first_small_chunk (smallbin_at 6 with_two) c2 6 with_two ≡ ok tt s')
    × IsTable s' (set_bin two_chunks 6 (c1 ∷ []))
unlink_first_small_chunk-IsTable_example =
    unlink_first_small_chunk-IsTable with_two two_chunks c2 6 (c1 ∷ []) with_two-IsTable
      (omega arith) refl
