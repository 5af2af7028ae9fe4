-- ===== src/MallocState/TreeBins/Drop.antt =====
-- `unlink_large_chunk` on the trees that stand for lists.
use unimem.Base.{ℕ, ◌+◌, ◌≤◌, ◌≡◌, ◌≢◌, refl, sym, ◌∙◌, arith, inl, List, [], ◌∷◌, ◌++◌, update}
use unimem.Machine.{Ptr, null, Memory, State, ok, load, store}
use unimem.Machine.Returns.{load-ok}
use unimem.Chunk.{fd_at, bk_at, parent_at}
use unimem.MallocState.Top.{treebin_at, ok_address}
use unimem.MallocState.SmallBins.Insert.{first_or}
use unimem.MallocState.SmallBins.Unlink.{last_or, unlinked, neighbours, unlinked-Links}
use unimem.MallocState.TreeBins.{unlink_large_chunk, replacement}
use unimem.MallocState.TreeBins.Nodes.{
  SameBodies, SameBodies-refl, SameBodies-update, IsTree, AllNodes-frame, IsNode-frame, SameBut,
}
use unimem.MallocState.TreeBins.Members.{
  In-last, In-first, AllSameOrApart-In, AllOutsideTrees-In, AllClear-In, AllValid-In,
  AllValid-Rooted, AllNodes-middle, AllApart-trees, Distinct-trees, last-TreeApart,
  AllTreeApart-drop, TreeDistinct-drop, AllOutsideTrees-drop, AllNodes-drop,
}

-- The state after a chunk between `xs` and `ys` has left the ring of the node `t`.
abbrev pub dropped : State → Ptr → List Ptr → List Ptr → State
dropped s t xs ys = record s { mem = unlinked s.mem (last_or t xs) (first_or t ys) }

-- A chunk of a ring of several is cut out of the ring, and the one before it takes its place.
pub replacement-ring :
    (s : State) (p f r : Ptr)
    → p ≢ null
    → f ≢ null
    → r ≢ null
    → s.least_addr ≤ f
    → r ≢ p
    → s.mem (p + fd_at) ≡ f
    → s.mem (p + bk_at) ≡ r
    → s.mem (f + bk_at) ≡ p
    → s.mem (r + fd_at) ≡ p
    → replacement p s ≡ ok r (record s { mem = unlinked s.mem r f })
unfolding replacement ok_address load store
replacement-ring s p f r np nf nr lf ne fd bk back forth = ground arith

SameBodies-drop :
    (f g : Memory) (p : Ptr) (xs ys : List Ptr)
    → SameBodies f g (xs ++ p ∷ ys)
    → SameBodies f g (xs ++ ys)
SameBodies-drop f g p [] ys same = same.1
SameBodies-drop f g p (x ∷ xs) ys same = (same.0, SameBodies-drop f g p xs ys same.1)

module _ (s : State) (i n : ℕ) (t p : Ptr) (xs ys : List Ptr)
    (tree : IsTree s i n (t ∷ xs ++ p ∷ ys)) where
  pub dropped-runs : unlink_large_chunk p s ≡ ok tt (dropped s t xs ys)
  unfolding unlink_large_chunk
  dropped-runs =
      let valid = AllValid-Rooted s.least_addr s.mem i n (t ∷ xs ++ p ∷ ys) tree.rooted in
      let f =
        AllValid-In (first_or t ys) s.least_addr (t ∷ xs ++ p ∷ ys) valid (In-first t p xs ys) in
      let r =
        AllValid-In (last_or t xs) s.least_addr (t ∷ xs ++ p ∷ ys) valid (In-last t xs (p ∷ ys)) in
      let near = neighbours s.mem t t p xs ys tree.rooted.2 in
      let node = AllNodes-middle s.least_addr s.mem i n p xs ys tree.rooted.3 in
      let apart = last-TreeApart t p xs ys tree.distinct in
      let other : last_or t xs ≢ p = ground (arith, apart) in
      rw
        (
          load-ok p parent_at s node.0.ne_null,
          node.1,
          replacement-ring s p (first_or t ys) (last_or t xs) node.0.ne_null f.0 r.0 f.1 other
              near.0 near.1 near.2 near.3,
        )
        refl

  dropped_bodies : SameBodies s.mem (dropped s t xs ys).mem (t ∷ xs ++ p ∷ ys)
  dropped_bodies =
      let ts = t ∷ xs ++ p ∷ ys in
      let f = first_or t ys in
      let r = last_or t xs in
      let nf = AllSameOrApart-In f ts tree.distinct (In-first t p xs ys) in
      let nr = AllSameOrApart-In r ts tree.distinct (In-last t xs (p ∷ ys)) in
      let b1 = (SameBodies-update s.mem s.mem f r ts nf (SameBodies-refl s.mem ts)).1 in
      (SameBodies-update s.mem (update s.mem (f + bk_at) r) r f ts nr b1).0

  pub dropped-IsTree : IsTree (dropped s t xs ys) i n (t ∷ xs ++ ys)
  unfolding treebin_at
  dropped-IsTree =
      let s' = dropped s t xs ys in
      let ts = t ∷ xs ++ p ∷ ys in
      let f_out = AllOutsideTrees-In (first_or t ys) s.gm ts tree.outside (In-first t p xs ys) in
      let r_out = AllOutsideTrees-In (last_or t xs) s.gm ts tree.outside (In-last t xs (p ∷ ys)) in
      let apart = AllTreeApart-drop t p xs ys tree.distinct.0 in
      let distinct = TreeDistinct-drop p xs ys tree.distinct.1 in
      let nodes = AllNodes-drop s.least_addr s.mem i n p xs ys tree.rooted.3 in
      record {
        low = tree.low;
        map = tree.map;
        marked = tree.marked;
        root = ground (arith, tree.root, tree.low, f_out, r_out);
        rooted = (
          IsNode-frame s.least_addr s.mem s'.mem i n t dropped_bodies.0 tree.rooted.0,
          (λ e. tree.rooted.1 (
              sym (
                dropped_bodies.0 (t + parent_at) (omega arith) (omega arith) (omega arith)
                  (omega arith))
              ∙ e)),
          unlinked-Links s.mem t t p xs ys (inl refl) (AllApart-trees t (xs ++ ys) apart)
              (AllApart-trees t (xs ++ ys) apart) (Distinct-trees (xs ++ ys) distinct)
              tree.rooted.2,
          AllNodes-frame s.least_addr s.mem s'.mem i n (xs ++ ys)
              (SameBodies-drop s.mem s'.mem p xs ys dropped_bodies.1) nodes,
        );
        distinct = (apart, distinct);
        outside = (tree.outside.0, AllOutsideTrees-drop s.gm p xs ys tree.outside.1);
      }

  pub dropped-SameBut : SameBut s.mem (dropped s t xs ys).mem (treebin_at i s) (t ∷ xs ++ p ∷ ys)
  dropped-SameBut a slot clear = ground (
    arith,
    AllClear-In (first_or t ys) a (t ∷ xs ++ p ∷ ys) clear (In-first t p xs ys),
    AllClear-In (last_or t xs) a (t ∷ xs ++ p ∷ ys) clear (In-last t xs (p ∷ ys)),
  )
