-- ===== src/Heap/Keep.antt =====
-- The rest of a chunk that is split, and the two ways to keep it.
use unimem.Base.{ℕ, ◌<◌, ◌≡◌, inl, inr}
use unimem.Machine.{Ptr, State}
use unimem.MallocState.SmallBins.{replace_dv}
use unimem.MallocState.TreeBins.{insert_chunk}
use unimem.Heap.{Blocks, IsTiling, Stock, IsStock}
use unimem.Heap.InsertSmall.{IsLoose}
use unimem.Heap.Victim.{replace_dv-IsHeap}
use unimem.Heap.InsertLarge.{insert_chunk-IsHeap}
use unimem.Heap.Allocated.{Keeps}

-- A chunk of the region that a split leaves, as the new designated victim.
abbrev pub Split : State → Blocks → Stock → Ptr → Ptr → Ptr → ℕ → Type 0
Split s b k lo hi r n = IsTiling s b × IsStock s b k lo hi × IsLoose b lo hi r × (b.size r ≡ n)

pub replace_dv-Keeps :
    (s : State) (b : Blocks) (k : Stock) (lo hi r : Ptr) (n : ℕ)
    → Split s b k lo hi r n
    → s.dvsize < 256
    → Keeps b (replace_dv r n s)
replace_dv-Keeps s b k lo hi r n split small =
    let (s', k', runs, heap, others, dv, size) =
      replace_dv-IsHeap s b k lo hi r split.0 split.1 split.2 small in
    inl (s', k', rw split.3 at runs, heap)

pub insert_chunk-Keeps :
    (s : State) (b : Blocks) (k : Stock) (lo hi r : Ptr) (n : ℕ)
    → Split s b k lo hi r n
    → Keeps b (insert_chunk r n s)
insert_chunk-Keeps s b k lo hi r n split =
    elim (insert_chunk-IsHeap s b k lo hi r split.0 split.1 split.2) [
      | inl (s', k', runs, heap, fields) ↦ inl (s', k', rw split.3 at runs, heap)
      | inr (s', runs) ↦ inr (s', rw split.3 at runs)
    ]
