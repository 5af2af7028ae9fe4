-- ===== src/Tests.antt =====
-- Concrete states, and the theorems at them.
pub mod Alloc
pub mod Binned
pub mod SmallBins
pub mod SystemAlloc
pub mod Split
pub mod Trees
pub mod RwLock
pub mod Numbers
pub mod Forest
pub mod Heap
use unimem.Base.{ℕ, ◌+◌, ◌*◌, ◌^◌}
use unimem.Machine.{Ptr, State}

-- An underlying allocator that grants one region behind the other.
abbrev pub grant : ℕ → ℕ → Ptr
grant n size = 2 ^ 20 + n * 2 ^ 24

-- A new allocator on zeroed memory.
abbrev pub fresh : State
fresh = record {
  mem = λ a. 0;
  gm = 2 ^ 12;
  smallmap = 0;
  treemap = 0;
  dvsize = 0;
  topsize = 0;
  least_addr = 0;
  dv = 0;
  top = 0;
  trim_check = 0;
  release_checks = 0;
  magic = 0;
  increasing_size = 2 ^ 20;
  increasing_step = 1;
  calls = 0;
}
