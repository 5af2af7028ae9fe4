-- ===== src/MallocState/TreeBins.antt =====
-- The bins of large chunks: a tree for each index, keyed by the bits of the size, with a ring of
-- chunks of one size at each node. The loops run on fuel: a branch of a tree is shorter than the
-- 64 bits of a size.
pub mod Leaf
pub mod Alone
pub mod Nodes
pub mod Members
pub mod Join
pub mod Drop
pub mod Promote
pub mod Lone
pub mod Forest
pub mod Planting
pub mod Uprooting
use unimem.Base.{ℕ, zero, suc, ◌+◌, ◌-◌, bit_and, ◌==◌, not, if◌then◌else◌}
use unimem.Word.{shr, shl64}
use unimem.Machine.{
  Ptr, null, Cmd, Action, out_of_fuel, skip, pure, gets, throw_corrupted, rtcheck, ◌>>=◌, ◌>>◌,
  load, store, deref, assign,
}
use unimem.Chunk.{
  child_at, index_at, size_t_bitsize, chunksize, get_fd, get_bk, set_fd, set_bk, get_child,
  set_child, get_parent, set_parent,
}
use unimem.MallocState.Bitmap.{mark_treemap, clear_treemap, treemap_is_marked}
use unimem.MallocState.Top.{treebin_at, ok_address}
use unimem.MallocState.SmallBins.{
  is_small, and_also, bk_is, fd_is, insert_small_chunk, unlink_small_chunk,
}
use unimem.MallocState.TreeIndex.{compute_tree_index, leftshift_for_tree_index}

abbrev pub tree_fuel : ℕ
tree_fuel = 66

-- A new node of its own: `*slot = X`, below `parent`.
unfoldable pub hang_below : Ptr → Ptr → Ptr → Action
hang_below slot parent x = do assign slot x; set_parent x parent; set_bk x x; set_fd x x

-- A chunk of the size of the node `t` goes into its ring.
unfoldable pub join_ring : Ptr → Ptr → Action
join_ring t x = do
  f ← get_fd t
  good_t ← ok_address t
  good_f ← ok_address f
  rtcheck (if good_t then good_f else good_t)
  set_bk f x
  set_fd t x
  set_fd x f
  set_bk x t
  set_parent x null

-- The `for (;;)` of `insert_large_chunk` at the node `t`, with `k` the bits still to be read.
unfoldable pub insert_from : ℕ → Ptr → ℕ → Ptr → ℕ → Action
unfolding hang_below join_ring
insert_from zero x size t k s = out_of_fuel
insert_from (suc fuel) x size t k s =
    let deeper = λ (c : Ptr). insert_from fuel x size c (shl64 k 1) in
    (do
      tsize ← chunksize t
      if tsize == size then join_ring t x else do
        let slot = t + child_at (bit_and (shr k (size_t_bitsize - 1)) 1)
        c ← deref slot
        if not (c == null) then deeper c else do
          c' ← deref slot
          good ← ok_address c'
          if good then hang_below slot t x else throw_corrupted)
      s

unfoldable pub insert_large_chunk : Ptr → ℕ → Action
insert_large_chunk x size = do
  let i = compute_tree_index size
  h ← gets (treebin_at i)
  store x index_at i
  set_child x 1 null
  set_child x 0 null
  marked ← treemap_is_marked i
  if marked == 0
      then (do
        mark_treemap i
        assign h x
        parent ← deref h
        set_parent x parent
        set_bk x x
        set_fd x x)
      else do t ← deref h; insert_from tree_fuel x size t (shl64 size (leftshift_for_tree_index i))

unfoldable pub insert_chunk : Ptr → ℕ → Action
unfolding insert_small_chunk insert_large_chunk
insert_chunk p size = if is_small size then insert_small_chunk p size else insert_large_chunk p size

-- The walk to a leaf below `r`, the content of `slot`, which is cut off there.
unfoldable pub take_leaf : ℕ → Ptr → Ptr → Cmd Ptr
take_leaf zero slot r s = out_of_fuel
take_leaf (suc fuel) slot r s =
    let deeper = λ (slot' r' : Ptr). take_leaf fuel slot' r' in
    (do
      right ← get_child r 1
      if not (right == null) then deeper (r + child_at 1) right else do
        left ← get_child r 0
        if not (left == null) then deeper (r + child_at 0) left else do
          content ← deref slot
          good ← ok_address content
          rtcheck good
          assign slot null
          pure r)
      s

-- The chunk `R` that takes the place of `x`: the one before it in its ring, a leaf below it, or
-- none.
unfoldable pub replacement : Ptr → Cmd Ptr
replacement x = do
  r ← get_bk x
  if r == x
      then (do
        right ← get_child x 1
        if not (right == null) then take_leaf tree_fuel (x + child_at 1) right else do
          left ← get_child x 0
          if not (left == null) then take_leaf tree_fuel (x + child_at 0) left else pure null)
      else do
        f ← get_fd x
        good_f ← ok_address f
        back ← and_also good_f (bk_is f x)
        linked ← and_also back (fd_is r x)
        rtcheck linked
        set_bk f r
        set_fd r f
        pure r

-- The child `i` of `x` becomes that of `r`.
unfoldable pub adopt_child : ℕ → Ptr → Ptr → Action
adopt_child i x r = do
  c ← get_child x i
  if c == null then skip else do good ← ok_address c; rtcheck good; set_child r i c; set_parent c r

-- What pointed at `x` from above points at `r`.
unfoldable pub relink_parent : Ptr → Ptr → Ptr → Action
relink_parent x xp r = do
  i ← load x index_at
  h ← gets (treebin_at i)
  root ← deref h
  if x == root
      then (do assign h r; if r == null then load x index_at >>= clear_treemap else skip)
      else do
        good ← ok_address xp
        rtcheck good
        left ← get_child xp 0
        if left == x then set_child xp 0 r else set_child xp 1 r

unfoldable pub unlink_large_chunk : Ptr → Action
unfolding replacement relink_parent adopt_child
unlink_large_chunk x = do
  xp ← get_parent x
  r ← replacement x
  if xp == null then skip else do
    relink_parent x xp r
    if r == null then skip else do
      good ← ok_address r
      rtcheck good
      set_parent r xp
      adopt_child 0 x r
      adopt_child 1 x r

unfoldable pub unlink_chunk : Ptr → ℕ → Action
unfolding unlink_small_chunk unlink_large_chunk
unlink_chunk p size = if is_small size then unlink_small_chunk p size else unlink_large_chunk p
