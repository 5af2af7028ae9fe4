-- ===== src/Tests/Heap.antt =====
-- A new allocator, the heap after two blocks of 40 bytes, and a client that holds them.
use unimem.Base.{ℕ, suc, ◌+◌, ◌^◌, ◌≡◌, refl, ◌∙◌, arith, ◌⊎◌, List, [], ◌∷◌}
use unimem.Word.{add64, mul64}
use unimem.Machine.{Ptr, State, ok, corrupted, out_of_fuel}
use unimem.Machine.Returns.{write}
use unimem.Chunk.{chunk2mem, pad_request}
use unimem.MallocState.Top.{treebin_at}
use unimem.UniAllocator.{chunk_size_for, alloc, free}
use unimem.UniAllocator.Bump.{IsBump, carved, carved-IsBump, alloc-carved}
use unimem.UniAllocator.Init.{started}
use unimem.Heap.{Blocks, IsHeap}
use unimem.Heap.Released.{Releases}
use unimem.Heap.Allocated.{Allocates}
use unimem.Heap.TakeTop.{with_block, shrunk-IsTiling, shrunk-IsStock}
use unimem.Heap.Free.{free-IsHeap}
use unimem.Heap.Alloc.{IsShort, alloc-IsHeap, alloc-ends}
use unimem.Heap.Start.{IsNew, no_blocks, no_stock, started-IsHeap, alloc-first}
use unimem.Heap.Client.{Held, ClientReach, begun, allocated, wrote}
use unimem.Heap.Client.Apart.{Disjoint}
use unimem.Heap.Client.Safety.{ClientReach-Disjoint, ClientReach-free_ends}
use unimem.Tests.{grant, fresh}

abbrev base : Ptr
base = 2 ^ 20

fresh-IsNew : IsNew grant fresh base (2 ^ 20)
unfolding mul64 treebin_at
fresh-IsNew = record {
  zeroed = record {
    top = refl;
    least = refl;
    smallmap = refl;
    treemap = refl;
    dvsize = refl;
    dv = refl;
  };
  topsize = refl;
  roots = λ i low. refl;
  step = refl;
  base = refl;
  grant = record {
    ne_null = omega arith;
    aligned = refl;
    room = omega arith;
    words = refl;
    size = omega arith;
    apart = omega arith;
  };
  limit = omega arith;
}

abbrev begun_heap : State
begun_heap = started fresh base (2 ^ 20)

begun-IsHeap : IsHeap begun_heap (no_blocks base) no_stock
begun-IsHeap = started-IsHeap grant fresh base (2 ^ 20) fresh-IsNew

-- One chunk of 48 bytes, and a second one behind it.
abbrev one_block : Blocks
one_block = with_block (no_blocks base) base 48

abbrev one_state : State
one_state = carved begun_heap 48

one-IsHeap : IsHeap one_state one_block no_stock
one-IsHeap = (
  shrunk-IsTiling begun_heap (no_blocks base) 48 begun-IsHeap.0 (omega arith) refl (omega arith),
  shrunk-IsStock begun_heap (no_blocks base) 48 begun-IsHeap.0 (omega arith) refl (omega arith)
      no_stock begun-IsHeap.1,
)

abbrev two_blocks : Blocks
two_blocks = with_block one_block (base + 48) 48

abbrev two_state : State
two_state = carved one_state 48

two-IsHeap : IsHeap two_state two_blocks no_stock
two-IsHeap = (
  shrunk-IsTiling one_state one_block 48 one-IsHeap.0 (omega arith) refl (omega arith),
  shrunk-IsStock one_state one_block 48 one-IsHeap.0 (omega arith) refl (omega arith) no_stock
      one-IsHeap.1,
)

-- The first chunk goes into a small bin.
free-IsHeap_example : Releases two_blocks base (free (chunk2mem base) two_state)
free-IsHeap_example =
    free-IsHeap two_state two_blocks no_stock base 48 two-IsHeap (omega arith, refl, refl)

alloc-IsHeap_example :
    Allocates two_blocks (chunk_size_for 1000) (alloc grant 1 1000 two_state)
    ⊎ (IsShort grant two_state (chunk_size_for 1000) × (alloc grant 1 1000 two_state ≡ out_of_fuel))
alloc-IsHeap_example = alloc-IsHeap grant 0 1000 two_state two_blocks no_stock two-IsHeap

alloc-ends_example :
    (Allocates two_blocks (chunk_size_for 1000) (alloc grant 1 1000 two_state)
      × ((fuel : ℕ) → alloc grant (suc fuel) 1000 two_state ≡ alloc grant 1 1000 two_state))
    ⊎ (IsShort grant two_state (chunk_size_for 1000)
        × ((fuel : ℕ) → alloc grant fuel 1000 two_state ≡ out_of_fuel))
alloc-ends_example = alloc-ends grant 1000 two_state two_blocks no_stock two-IsHeap

size_40 : chunk_size_for 40 ≡ 48
unfolding chunk_size_for pad_request add64
size_40 = refl

begun-IsBump : IsBump begun_heap
begun-IsBump = record {
  smallmap = refl;
  treemap = refl;
  dvsize = refl;
  top = omega arith;
  words = refl;
  size = omega arith;
}

abbrev one_held : List Held
one_held = record { mem = chunk2mem base; bytes = 40 } ∷ []

abbrev two_held : List Held
two_held = record { mem = chunk2mem (base + 48); bytes = 40 } ∷ one_held

one-ClientReach : ClientReach grant fresh one_state one_held
one-ClientReach =
    let first = alloc-first grant fresh base (2 ^ 20) fresh-IsNew 1 40 (omega (arith, size_40)) in
    let then_served =
      alloc-carved grant 0 40 begun_heap begun-IsBump (omega arith) (omega (arith, size_40)) in
    allocated fresh one_state [] 2 40 (chunk2mem base) begun (rw size_40 at (first ∙ then_served))

two-ClientReach : ClientReach grant fresh two_state two_held
two-ClientReach =
    let bump : IsBump one_state = carved-IsBump begun_heap 48 begun-IsBump refl in
    let served = alloc-carved grant 0 40 one_state bump (omega arith) (omega (arith, size_40)) in
    allocated one_state two_state one_held 1 40 (chunk2mem (base + 48)) one-ClientReach
      (rw size_40 at served)

-- The client writes into the first block.
abbrev written : State
written = write two_state (chunk2mem base + 8) 7

written-ClientReach : ClientReach grant fresh written two_held
written-ClientReach =
    wrote two_state (record { mem = chunk2mem (base + 48); bytes = 40 } ∷ []) []
      (record { mem = chunk2mem base; bytes = 40 }) (chunk2mem base + 8) 7 two-ClientReach
      (omega arith) (omega (arith, size_40))

ClientReach-Disjoint_example : Disjoint two_held
ClientReach-Disjoint_example =
    ClientReach-Disjoint grant fresh base (2 ^ 20) fresh-IsNew written two_held written-ClientReach

ClientReach-free_ends_example :
    ((t' : State) × (free (chunk2mem (base + 48)) written ≡ ok tt t'))
    ⊎ ((t' : State) × (free (chunk2mem (base + 48)) written ≡ corrupted t'))
ClientReach-free_ends_example =
    ClientReach-free_ends grant fresh base (2 ^ 20) fresh-IsNew written [] one_held
      (record { mem = chunk2mem (base + 48); bytes = 40 }) written-ClientReach
