-- ===== src/Heap.antt =====
-- The heap as a whole: the block that the underlying allocator granted is cut into chunks and the
-- top chunk, the header words and footers say where, and the free chunks are those of the small
-- bins, of the trees and the designated victim.
pub mod Members
pub mod Keeping
pub mod Words
pub mod Drop
pub mod TreeStep
pub mod UnlinkSmall
pub mod UnlinkLarge
pub mod Add
pub mod InsertSmall
pub mod Victim
pub mod InsertLarge
pub mod Settle
pub mod Tagging
pub mod TopMerge
pub mod Heads
pub mod Released
pub mod MergeForward
pub mod MergeVictim
pub mod Free
pub mod Take
pub mod Carve
pub mod Allocated
pub mod Keep
pub mod TakeSmall
pub mod TakeTop
pub mod TakeDv
pub mod SplitLarge
pub mod Counted
pub mod Root
pub mod TakeTree
pub mod TakeLarge
pub mod FromBins
pub mod Alloc
pub mod Start
pub mod Write
pub mod Client
use unimem.Base.{ℕ, ◌+◌, ◌*◌, ◌/◌, ◌%◌, ◌^◌, ◌≤◌, ◌<◌, ◌≡◌, ◌≢◌, ◌∙◌, arith, ◌⊎◌, inl, inr, List}
use unimem.Machine.{Ptr, null, State}
use unimem.Chunk.{head_at, prev_foot_at}
use unimem.MallocState.TreeIndex.{compute_tree_index}
use unimem.MallocState.SmallBins.Table.{IsTable}
use unimem.MallocState.TreeBins.Members.{In}
use unimem.MallocState.TreeBins.Forest.{IsForest}

-- The chunks below the top chunk: the size of the chunk that starts at an address, 0 for none, and
-- its two flags.
pub record Blocks : Type 0 where
  pub base : Ptr
  pub size : Ptr → ℕ
  pub cinuse : Ptr → ℕ
  pub pinuse : Ptr → ℕ

-- The chunk behind `x` is the top chunk, if `x` is used, or has the flag PINUSE of `x`.
abbrev pub IsFollowed : State → Blocks → Ptr → Type 0
IsFollowed s b x =
    ((x + b.size x ≡ s.top) × (b.cinuse x ≡ 1))
    ⊎ ((0 < b.size (x + b.size x)) × (b.pinuse (x + b.size x) ≡ b.cinuse x))

-- A chunk of the heap. A free chunk has a footer, and used chunks on both sides.
pub record IsChunk (s : State) (b : Blocks) (x : Ptr) : Type 0 where
  pub low : b.base ≤ x
  pub high : x + b.size x ≤ s.top
  pub least : 32 ≤ b.size x
  pub words : b.size x % 8 ≡ 0
  pub cflag : b.cinuse x ≤ 1
  pub pflag : b.pinuse x ≤ 1
  pub head : s.mem (x + head_at) ≡ b.size x + 2 * b.cinuse x + b.pinuse x
  pub next : IsFollowed s b x
  pub foot : b.cinuse x ≡ 0 → s.mem (x + b.size x + prev_foot_at) ≡ b.size x
  pub between : b.cinuse x ≡ 0 → (b.cinuse (x + b.size x) ≡ 1) × (b.pinuse x ≡ 1)
  pub back : b.pinuse x ≡ 0 → (p : Ptr) × (0 < b.size p) × (p + b.size p ≡ x) × (b.cinuse p ≡ 0)

-- Two chunks are the same or do not overlap.
abbrev pub SameOrDisjoint : Blocks → Ptr → Ptr → Type 0
SameOrDisjoint b x y = (x ≡ y) ⊎ (x + b.size x ≤ y) ⊎ (y + b.size y ≤ x)

pub record IsTiling (s : State) (b : Blocks) : Type 0 where
  pub room : 0 < s.topsize
  pub least_pos : 0 < s.least_addr
  pub least : s.least_addr ≤ b.base
  pub below : b.base ≤ s.top
  pub limit : s.top + s.topsize ≤ b.base + 2 ^ 40
  pub place : (s.top + s.topsize + 16 ≤ s.gm) ⊎ (s.gm + 856 ≤ b.base)
  pub words : s.topsize % 8 ≡ 0
  pub top_head : s.mem (s.top + head_at) ≡ s.topsize + 1
  pub each : (x : Ptr) → 0 < b.size x → IsChunk s b x
  pub apart : (x y : Ptr) → 0 < b.size x → 0 < b.size y → SameOrDisjoint b x y

-- What the bins hold.
pub record Stock : Type 0 where
  pub bins : ℕ → List Ptr
  pub sizes : ℕ → ℕ
  pub trees : ℕ → List Ptr

-- A free chunk outside of the region from `lo` to `hi`.
abbrev pub IsFree : Blocks → Ptr → Ptr → Ptr → Type 0
IsFree b lo hi x = (0 < b.size x) × (b.cinuse x ≡ 0) × ((x < lo) ⊎ (hi ≤ x))

-- Where the free chunk `x` is kept.
abbrev pub IsKept : State → Blocks → Stock → Ptr → Type 0
IsKept s b k x =
    (x ≡ s.dv)
    ⊎ ((b.size x < 256) × In x (k.bins (b.size x / 8)))
    ⊎ ((256 ≤ b.size x) × In x (k.trees (compute_tree_index (b.size x))))

abbrev pub IsVictim : State → Blocks → Ptr → Ptr → Type 0
IsVictim s b lo hi =
    ((s.dv ≡ null) × (s.dvsize ≡ 0))
    ⊎ ((s.dv ≢ null) × IsFree b lo hi s.dv × (s.dvsize ≡ b.size s.dv))

-- The bins, the trees and the designated victim keep the free chunks outside of the region from
-- `lo` to `hi`, and nothing else.
pub record IsStock (s : State) (b : Blocks) (k : Stock) (lo hi : Ptr) : Type 0 where
  pub table : IsTable s k.bins
  pub forest : IsForest s k.sizes k.trees
  pub small :
      (i x : ℕ)
      → i < 32
      → In x (k.bins i)
      → IsFree b lo hi x × (b.size x < 256) × (b.size x / 8 ≡ i) × (x ≢ s.dv)
  pub large :
      (i x : ℕ)
      → i < 32
      → In x (k.trees i)
      → IsFree b lo hi x × (256 ≤ b.size x) × (b.size x ≡ k.sizes i) × (x ≢ s.dv)
  pub victim : IsVictim s b lo hi
  pub cover : (x : Ptr) → IsFree b lo hi x → IsKept s b k x

-- The whole heap: every free chunk is kept.
abbrev pub IsHeap : State → Blocks → Stock → Type 0
IsHeap s b k = IsTiling s b × IsStock s b k 0 0

-- The header words and footers decide about the tiling.
pub IsTiling-frame :
    (s s' : State) (b : Blocks)
    → s'.gm ≡ s.gm
    → s'.top ≡ s.top
    → s'.topsize ≡ s.topsize
    → s'.least_addr ≡ s.least_addr
    → s'.mem (s.top + head_at) ≡ s.mem (s.top + head_at)
    → ((x : Ptr) → 0 < b.size x → s'.mem (x + head_at) ≡ s.mem (x + head_at))
    → ((x : Ptr)
        → 0 < b.size x
        → b.cinuse x ≡ 0
        → s'.mem (x + b.size x + prev_foot_at) ≡ s.mem (x + b.size x + prev_foot_at))
    → IsTiling s b
    → IsTiling s' b
IsTiling-frame s s' b gm top topsize least top_head heads feet tiling = record {
  room = rw topsize tiling.room;
  least_pos = rw least tiling.least_pos;
  least = rw least tiling.least;
  below = rw top tiling.below;
  limit = rw (top, topsize) tiling.limit;
  place = rw (top, topsize, gm) tiling.place;
  words = rw topsize tiling.words;
  top_head = rw (top, topsize) (top_head ∙ tiling.top_head);
  each = λ x pos.
      let chunk = tiling.each x pos in
      record {
        low = chunk.low;
        high = rw top chunk.high;
        least = chunk.least;
        words = chunk.words;
        cflag = chunk.cflag;
        pflag = chunk.pflag;
        head = heads x pos ∙ chunk.head;
        next = rw top chunk.next;
        foot = λ free. feet x pos free ∙ chunk.foot free;
        between = chunk.between;
        back = chunk.back;
      };
  apart = tiling.apart;
}
