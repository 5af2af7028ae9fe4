-- ===== src/MallocState.antt =====
-- `MallocState` of src/cpp/allocators/uni_allocator/uni_allocator.h: its bitmaps, its bins of
-- small chunks, its trees of large chunks, the allocation from the trees and the top chunk.
pub mod Bitmap
pub mod Top
pub mod SmallBins
pub mod TreeIndex
pub mod TreeBins
pub mod TreeAlloc
