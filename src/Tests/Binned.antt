-- ===== src/Tests/Binned.antt =====
-- A used chunk of 48 bytes between two used chunks, a free one in its bin, and a designated
-- victim.
use unimem.Base.{
  ℕ, ◌+◌, ◌-◌, ◌*◌, ◌<◌, ◌^◌, ◌≡◌, ◌≢◌, refl, arith, inl, inr, Bool-cases, ◌==◌, List, [], ◌∷◌,
  update, bit_or,
}
use unimem.Word.{add64}
use unimem.Machine.{Ptr, State, ok, ◌>>◌}
use unimem.Chunk.{head_at, prev_foot_at, pinuse_bit, chunk2mem, pad_request}
use unimem.MallocState.Top.{smallbin_at}
use unimem.MallocState.SmallBins.{small_index}
use unimem.MallocState.SmallBins.Insert.{inserted}
use unimem.MallocState.SmallBins.Table.{IsTable, set_bin, inserted-IsTable}
use unimem.MallocState.SmallBins.Frame.{NoLinks}
use unimem.UniAllocator.{chunk_size_for, alloc, free}
use unimem.UniAllocator.Init.{IsTable-empty}
use unimem.UniAllocator.Binned.{IsBetween, IsFreed, free-IsTable}
use unimem.UniAllocator.Reuse.{IsReusable, alloc-IsTable}
use unimem.UniAllocator.Victim.{IsServing}
use unimem.UniAllocator.Served.{Served, alloc-Served}
use unimem.UniAllocator.Recycle.{free-alloc}
use unimem.Tests.{grant, fresh}

abbrev chunk : Ptr
chunk = 2 ^ 20

abbrev empty : ℕ → List Ptr
empty i = []

abbrev full : State
full = record fresh {
  least_addr = 2 ^ 20;
  mem = update (update fresh.mem (chunk + head_at) 51) (chunk + 48 + head_at) 67;
}

full-IsTable : IsTable full empty
full-IsTable = IsTable-empty full refl

size_48 : chunk_size_for 40 ≡ 48
unfolding chunk_size_for pad_request add64
size_48 = refl

-- A word behind the `MallocState` is no anchor.
no_anchor :
    (a i : ℕ)
    → i < 32
    → 2 ^ 20 < a
    → (a ≢ 2 ^ 12 + 72 + 16 * i + 16) × (a ≢ 2 ^ 12 + 72 + 16 * i + 24)
no_anchor a i low high = (omega arith, omega arith)

full-IsBetween : IsBetween full empty chunk (chunk_size_for 40) 64
unfolding smallbin_at
full-IsBetween = rw size_48 record {
  fresh = record {
    ne_null = omega arith;
    address = omega arith;
    outside = omega arith;
    apart = λ i low. tt;
  };
  head = refl;
  next_head = refl;
  size = omega arith;
  next_size = omega arith;
  low = omega arith;
  high = omega arith;
  spared = λ i low. (no_anchor (chunk + head_at) i low (omega arith), tt);
  next_spared = λ i low. (no_anchor (chunk + 48 + head_at) i low (omega arith), tt);
  foot_spared = λ i low. (no_anchor (chunk + 48 + prev_foot_at) i low (omega arith), tt);
}

free-IsTable_example :
    (s' : State) × (free (chunk2mem chunk) full ≡ ok tt s')
    × IsTable s' (
        set_bin empty
          (small_index (chunk_size_for 40))
          (chunk ∷ empty (small_index (chunk_size_for 40))))
    × IsFreed s' chunk (chunk_size_for 40) (64 + 2)
free-IsTable_example =
    free-IsTable full empty chunk (chunk_size_for 40) 64 full-IsTable full-IsBetween

free-alloc_example :
    (s' : State) × ((free (chunk2mem chunk) >> alloc grant 1 40) full ≡ ok (chunk2mem chunk) s')
    × IsTable s' empty
    × (s'.mem (chunk + head_at) ≡ full.mem (chunk + head_at))
    × (s'.mem (chunk + chunk_size_for 40 + head_at)
        ≡ full.mem (chunk + chunk_size_for 40 + head_at))
free-alloc_example =
    free-alloc grant 0 40 full empty chunk 64 (omega arith) full-IsTable full-IsBetween

-- The same chunk, free and in its bin.
abbrev with_free : State
with_free = inserted fresh chunk 6 []

abbrev one_free : ℕ → List Ptr
one_free = set_bin empty 6 (chunk ∷ [])

with_free-IsTable : IsTable with_free one_free
with_free-IsTable =
    inserted-IsTable fresh empty (IsTable-empty fresh refl) 6 (omega arith) chunk record {
      ne_null = omega arith;
      address = omega arith;
      outside = omega arith;
      apart = λ i low. tt;
    }

no_links : (a i : ℕ) → a ≢ chunk + 16 → a ≢ chunk + 24 → NoLinks a (one_free i)
no_links a i fd bk = elim (Bool-cases (i == 6)) [ inl e ↦ rw e ((fd, bk), tt) | inr e ↦ rw e tt ]

with_free-IsReusable : IsReusable with_free one_free chunk (chunk_size_for 40) 0 []
unfolding smallbin_at
with_free-IsReusable = rw size_48 record {
  held = refl;
  next_head = refl;
  size = omega arith;
  low = omega arith;
  high = omega arith;
  spared = λ i low. (
    no_anchor (chunk + head_at) i low (omega arith),
    no_links (chunk + head_at) i (omega arith) (omega arith),
  );
  next_spared = λ i low. (
    no_anchor (chunk + 48 + head_at) i low (omega arith),
    no_links (chunk + 48 + head_at) i (omega arith) (omega arith),
  );
}

alloc-IsTable_example :
    (s' : State) × (alloc grant 1 40 with_free ≡ ok (chunk2mem chunk) s')
    × IsTable s' (set_bin one_free (small_index (chunk_size_for 40)) [])
    × (s'.mem (chunk + head_at) ≡ chunk_size_for 40 + 3)
    × (s'.mem (chunk + chunk_size_for 40 + head_at) ≡ bit_or 0 pinuse_bit)
alloc-IsTable_example =
    alloc-IsTable grant 0 40 with_free one_free chunk 0 [] (omega arith) with_free-IsTable
      with_free-IsReusable

-- A designated victim of 128 bytes.
abbrev with_victim : State
with_victim = record fresh { dv = 2 ^ 20; dvsize = 128 }

size_64 : chunk_size_for 50 ≡ 64
unfolding chunk_size_for pad_request add64
size_64 = refl

with_victim-IsServing :
    IsServing with_victim empty (chunk_size_for 50) (with_victim.dvsize - chunk_size_for 50)
unfolding smallbin_at
with_victim-IsServing = rw size_64 record {
  ne_null = omega arith;
  size = omega arith;
  room = omega arith;
  head = λ i low. (no_anchor (2 ^ 20 + head_at) i low (omega arith), tt);
  rest_head = λ i low. (no_anchor (2 ^ 20 + 64 + head_at) i low (omega arith), tt);
  rest_foot = λ i low. (no_anchor (2 ^ 20 + 64 + 64 + prev_foot_at) i low (omega arith), tt);
  next_head = λ i low. (no_anchor (2 ^ 20 + 128 + head_at) i low (omega arith), tt);
}

alloc-Served_example :
    (s' : State) × (alloc grant 1 50 with_victim ≡ ok (chunk2mem with_victim.dv) s')
    × IsTable s' empty
    × Served s' with_victim.dv with_victim.dvsize
        (chunk_size_for 50)
        (with_victim.mem (with_victim.dv + with_victim.dvsize + head_at))
alloc-Served_example =
    alloc-Served grant 0 50 with_victim empty (omega arith) (IsTable-empty with_victim refl) refl
      refl with_victim-IsServing
