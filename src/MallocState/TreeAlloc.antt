-- ===== src/MallocState/TreeAlloc.antt =====
-- `tmalloc_small` and `tmalloc_large`: allocation from the best fitting chunk of the trees.
use unimem.Base.{ℕ, zero, suc, ◌-◌, bit_and, ◌==◌, ltb, not, ◌&&◌, if◌then◌else◌}
use unimem.Word.{shr, shl64, add64, sub64, neg64}
use unimem.Machine.{Ptr, null, Cmd, Action, out_of_fuel, pure, gets, rtcheck, ◌>>=◌, ◌>>◌, deref}
use unimem.Chunk.{
  size_t_bitsize, min_chunk_size, chunk_plus_offset, ok_next, chunk2mem, chunksize, get_child,
  leftmost_child, set_size_and_pinuse_of_free_chunk,
}
use unimem.MallocState.Bitmap.{idx2bit, least_bit, left_bits, compute_bit2idx}
use unimem.MallocState.Top.{
  treebin_at, ok_address, set_inuse_and_pinuse, set_size_and_pinuse_of_inuse_chunk,
}
use unimem.MallocState.SmallBins.{replace_dv}
use unimem.MallocState.TreeIndex.{compute_tree_index, leftshift_for_tree_index}
use unimem.MallocState.TreeBins.{tree_fuel, unlink_large_chunk, insert_chunk}

-- The best chunk found, and what it leaves over.
pub record Fit : Type 0 where
  pub chunk : Ptr
  pub rsize : ℕ

abbrev pub better : Ptr → ℕ → Fit → Fit
better t trem best = if ltb trem best.rsize then record { chunk = t; rsize = trem } else best

-- `while (t != 0)`: the smallest that fits along the leftmost branch from `t`.
unfoldable pub smallest : ℕ → ℕ → Ptr → Fit → Cmd Fit
smallest zero nb t best s = out_of_fuel
smallest (suc fuel) nb t best s =
    let deeper = λ (t' : Ptr) (best' : Fit). smallest fuel nb t' best' in
    (if t == null then pure best else do
      size ← chunksize t
      t' ← leftmost_child t
      deeper t' (better t (sub64 size nb) best))
      s

-- The remainder of a split chunk is handed to `keep`.
unfoldable pub split_large : (Ptr → ℕ → Action) → ℕ → Fit → Cmd Ptr
unfolding unlink_large_chunk
split_large keep nb best = do
  let v = best.chunk
  let rsize = best.rsize
  good ← ok_address v
  rtcheck good
  let r = chunk_plus_offset v nb
  rtcheck (ok_next v r)
  unlink_large_chunk v
  (if ltb rsize min_chunk_size then set_inuse_and_pinuse v (add64 rsize nb) else do
    set_size_and_pinuse_of_inuse_chunk v nb
    set_size_and_pinuse_of_free_chunk r rsize
    keep r rsize)
  pure (chunk2mem v)

-- Allocate a small request from the best fitting chunk of the first tree.
unfoldable pub tmalloc_small : ℕ → Cmd Ptr
unfolding split_large
tmalloc_small nb = do
  map ← gets (λ s. s.treemap)
  i ← compute_bit2idx (least_bit map)
  bin ← gets (treebin_at i)
  t ← deref bin
  size ← chunksize t
  t' ← leftmost_child t
  best ← smallest tree_fuel nb t' (record { chunk = t; rsize = sub64 size nb })
  split_large replace_dv nb best

-- Where the search for an exact size ends: the next node to look at, and the best fit so far.
pub record Search : Type 0 where
  pub next : Ptr
  pub best : Fit

-- `rst` is the deepest untaken right subtree, `sizebits` the bits still to be read.
unfoldable pub search_size : ℕ → ℕ → Ptr → Fit → Ptr → ℕ → Cmd Search
search_size zero nb t best rst sizebits s = out_of_fuel
search_size (suc fuel) nb t best rst sizebits s =
    let deeper = λ (t' : Ptr) (best' : Fit) (rst' : Ptr).
      search_size fuel nb t' best' rst' (shl64 sizebits 1) in
    (do
      size ← chunksize t
      let trem = sub64 size nb
      let best' = better t trem best
      if ltb trem best.rsize && (trem == 0) then pure (record { next = t; best = best' }) else do
        rt ← get_child t 1
        t' ← get_child t (bit_and (shr sizebits (size_t_bitsize - 1)) 1)
        let rst' = if not (rt == null) && not (rt == t') then rt else rst
        if t' == null then pure (record { next = rst'; best = best' }) else deeper t' best' rst')
      s

-- The root of the next tree that is not empty, if any.
unfoldable pub next_tree : ℕ → Cmd Ptr
next_tree idx = do
  map ← gets (λ s. s.treemap)
  let leftbits = bit_and (left_bits (idx2bit idx)) map
  if leftbits == 0
      then pure null
      else do i ← compute_bit2idx (least_bit leftbits); bin ← gets (treebin_at i); deref bin

-- Allocate a large request from the best fitting chunk; null if the designated victim is better.
unfoldable pub tmalloc_large : ℕ → Cmd Ptr
unfolding next_tree split_large
tmalloc_large nb = do
  let none_yet : Fit = record { chunk = null; rsize = neg64 nb }
  let idx = compute_tree_index nb
  bin ← gets (treebin_at idx)
  root ← deref bin
  found ←
      (if root == null
        then pure (record { next = null; best = none_yet })
        else search_size tree_fuel nb root none_yet null (shl64 nb (leftshift_for_tree_index idx)))
  t ←
      (if (found.next == null) && (found.best.chunk == null)
        then next_tree idx
        else pure found.next)
  best ← smallest tree_fuel nb t found.best
  dvs ← gets (λ s. s.dvsize)
  if not (best.chunk == null) && ltb best.rsize (sub64 dvs nb)
      then split_large insert_chunk nb best
      else pure null
