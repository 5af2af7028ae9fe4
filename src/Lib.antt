-- ===== src/Lib.antt =====
-- unimem: a memory allocator for device memory, after Doug Lea's malloc
-- (src/cpp/allocators/uni_allocator).
--
-- The program. `UniAllocator` (uni_allocator.h, uni_allocator.cc) takes one large block from an
-- underlying `Allocator` and hands out pieces of it. `InitOrExpand` gets the block, `Alloc` and
-- `Free` work on it. What the allocator knows stands in a `MallocState` (uni_allocator.h): two
-- bitmaps, 32 small bins (circular lists of chunks of one size below 256), 32 tree bins (tries of
-- larger chunks), a designated victim (the remainder of the last split) and the top chunk (what
-- was never handed out). A chunk (chunk.h, tree_chunk.h) has a header word with its size and
-- three flags, and while it is free its links and, at its end, its size once more.
--
-- The files, and the code they model (paths under src/cpp/allocators/uni_allocator/):
--   Base.antt: names of the libraries, tests on numbers, the updated function.
--   Word.antt, Word/: `size_t` and `unsigned int` arithmetic (modulo 2 ^ 64 and 2 ^ 32), bits.
--   Machine.antt, Machine/: the state (memory and fields), commands and their results;
--     `MemoryCorruptedException` of exception.h.
--   Chunk.antt: chunk.h, tree_chunk.h and size_bits.h. Chunk/Sizes.antt is on the macros on
--     sizes, Chunk/Head.antt on header words.
--   MallocState/Bitmap.antt: `idx2bit` to `compute_bit2idx` of uni_allocator.h. Bitmap/Marks.antt:
--     bitmaps as sets; Bitmap/Least.antt: the first bin; Bitmap/Next.antt: the next bin.
--   MallocState/Top.antt: `init_top`, `init_bins`, `smallbin_at`, `treebin_at`, `ok_address`,
--     `set_inuse_and_pinuse`, `should_trim`, `sys_trim`.
--   MallocState/SmallBins.antt: `insert_small_chunk`, `unlink_small_chunk`,
--     `unlink_first_small_chunk`, `replace_dv`. SmallBins/Ring.antt: a bin as a list;
--     SmallBins/Insert.antt, Unlink.antt and Removed.antt: one bin; SmallBins/Table.antt and
--     SmallBins/Cut.antt: all bins at once; SmallBins/Frame.antt: words outside
--     of the bins; SmallBins/Victim.antt: the designated victim.
--   MallocState/TreeIndex.antt: `compute_tree_index`, `leftshift_for_tree_index`.
--   MallocState/TreeBins.antt: `insert_large_chunk`, `unlink_large_chunk`, `insert_chunk`,
--     `unlink_chunk`. TreeBins/Leaf.antt and TreeBins/Alone.antt: trees of one node.
--     TreeBins/Nodes.antt and TreeBins/Forest.antt: one tree as the list of its ring, and all
--     trees; TreeBins/Join.antt and Planting.antt: insertion; TreeBins/Members.antt, Drop.antt,
--     Promote.antt, Lone.antt and Uprooting.antt: removal.
--   MallocState/TreeAlloc.antt: `tmalloc_small`, `tmalloc_large`.
--   UniAllocator.antt: `InitOrExpand`, `Alloc`, `Free` of uni_allocator.cc. UniAllocator/Init.antt:
--     the first grant; UniAllocator/Stuck.antt: requests that do not return;
--     UniAllocator/Bump.antt: allocation from the top chunk; UniAllocator/Release.antt and
--     UniAllocator/Lifo.antt: the way back; UniAllocator/Binned.antt: release into a small bin;
--     UniAllocator/Reuse.antt and UniAllocator/Recycle.antt: allocation from a small bin of the
--     right size; UniAllocator/NextBin.antt, Split.antt and Whole.antt: from a larger one;
--     UniAllocator/Victim.antt and UniAllocator/Served.antt: from the designated victim.
--   Heap.antt: what the allocator keeps to, over all of the above: the block is tiled by chunks
--     whose header words and footers agree, and the bins, the trees and the designated victim
--     hold the free ones. Heap/Members.antt to Heap/Add.antt, InsertSmall.antt, InsertLarge.antt,
--     UnlinkSmall.antt, UnlinkLarge.antt and Victim.antt: the operations of `MallocState` on it;
--     Heap/Settle.antt to Heap/MergeVictim.antt and Heap/Free.antt: `Free`; Heap/Take.antt to
--     Heap/FromBins.antt and Heap/Alloc.antt: `Alloc`; Heap/Start.antt: `InitOrExpand`;
--     Heap/Write.antt: writes into blocks; Heap/Client.antt and Client/: a client, as a relation of
--     states and the blocks held.
--   RwLock.antt: src/cpp/rw_lock/rw_lock.h, `RWLock`, `AutoRDLock` and `AutoWRLock`.
--     RwLock/Posix.antt: what the library promises; RwLock/Exclusion.antt:
--     what the threads can do.
--   SystemAlloc.antt: src/cpp/allocator_backends/system_alloc.cc, `AlignedMalloc`, `CPUAllocator`.
--   Tests.antt, Tests/: concrete states, and the theorems at them.
--
-- How the code is read. A method is a function of the chunk's address and its arguments into a
-- command: a function from a state to a result, which is `ok` with a value and a state,
-- `corrupted` (a thrown `MemoryCorruptedException`), `aborted` (a failed `assert`), `fault`
-- (undefined behaviour: an access through the null pointer, `__builtin_ctz(0)`) or `out_of_fuel`.
-- Pointers are natural numbers, and pointer arithmetic does not wrap, since an object past the
-- end of the address space is undefined behaviour; `size_t` and `unsigned int` arithmetic wraps.
-- The memory is a function from addresses to 8-byte words. The `MallocState` object stands at an
-- address `gm`, and its two arrays of bins are part of the memory, at the offsets 72 and 600, as
-- the code makes chunks of them by casts; its other fields are fields of the state.
-- The build is the one without DEBUG and FOOTERS: `DEBUG_ASSERT` and the `do_check_…` methods do
-- nothing, `assert` is on. Sizes of types are those of 64-bit Linux.
--
-- Parameters. The underlying allocator is a virtual call: `underlying n size` is the address that
-- its call number `n`, for `size` bytes, returns. The theorems on `InitOrExpand` and
-- on clients suppose that the first block is not null, is aligned to 16 bytes, has a size of at
-- least 64 bytes that is a multiple of 8, and does not overlap the `MallocState`, nor does the
-- word behind it; those on `Alloc` and `Free` alone suppose nothing of it, but that the size of
-- the top chunk is a multiple of 8, as it is then. The pthread read-write lock
-- and `posix_memalign` are parameters too, with what POSIX says of them as hypotheses.
--
-- Bounds. A heap stands in a block of at most 2 ^ 40 bytes that does not overlap the
-- `MallocState`, nor does the word behind it, which `init_top` overwrites. A client of the heap
-- writes only into the part of a block that lies in its chunk: since a block starts 32 bytes
-- behind the start of its chunk, its last bytes are the header of the next chunk. What a run that
-- throws leaves behind is not said: the theorems on reachable states follow runs that return.
--
-- Fuel. A walk in a tree runs on 66 steps, two more than the bits of a size, which a branch uses
-- up one by one. `Alloc` recurs without a bound, so its fuel is a bound on the depth of the
-- recursion; the theorems on runs that return hold for every depth from one on, and those on runs
-- that do not return for every depth.
--
-- Not modelled: the fields `footprint`, `max_footprint`, `footprint_limit`, `mflags`, `extp`,
-- `exts` and the device, which no code reads; the messages to `std::cout`; the checks of debug
-- builds; posix_alloc.h, two calls of the C library; the abstract class `Allocator` of
-- src/cpp/allocator.h; src/cpp/allocators/bestfit_allocator, a copy of another project's library,
-- which nothing here calls.
pub mod Base
pub mod Chunk
pub mod Heap
pub mod Machine
pub mod MallocState
pub mod RwLock
pub mod SystemAlloc
pub mod Tests
pub mod UniAllocator
pub mod Word
