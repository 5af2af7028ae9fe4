-- ===== src/MallocState/TreeBins/Promote.antt =====
-- `unlink_large_chunk` on the node of a tree: the chunk before it in its ring becomes the node.
use unimem.Base.{
  ℕ, zero, suc, ◌+◌, ◌≤◌, ◌<◌, ◌≡◌, ◌≢◌, refl, sym, ap, ◌∙◌, arith, inl, inr, true, false, ◌==◌,
  leb, List, [], ◌∷◌, ◌++◌, update,
}
use unimem.Machine.{Ptr, null, Memory, State, ok, load, deref, assign}
use unimem.Machine.Returns.{load-ok, store-ok}
use unimem.Chunk.{size_of, fd_at, bk_at, parent_at}
use unimem.MallocState.Top.{treebin_at, ok_address}
use unimem.MallocState.SmallBins.Ring.{Links, SameLinks, Links-frame}
use unimem.MallocState.SmallBins.Insert.{first_or}
use unimem.MallocState.SmallBins.Unlink.{unlinked}
use unimem.MallocState.TreeBins.{unlink_large_chunk, relink_parent, adopt_child}
use unimem.MallocState.TreeBins.Leaf.{TreeApart, OutsideTrees}
use unimem.MallocState.TreeBins.Nodes.{
  AllTreeApart, TreeDistinct, AllOutsideTrees, AllSameOrApart, SameBodies, IsNode, AllNodes, IsTree,
  AllNodes-frame, SameBut,
}
use unimem.MallocState.TreeBins.Members.{
  In, AllTreeApart-In, AllSameOrApart-In, AllOutsideTrees-In, AllClear-In, AllValid-In,
  AllValid-AllNodes,
}
use unimem.MallocState.TreeBins.Drop.{replacement-ring}

-- The state after the node `t` of the ring `t ∷ zs ++ r ∷ []` has been removed.
abbrev pub promoted : State → ℕ → Ptr → Ptr → List Ptr → State
promoted s i t r zs = record s {
  mem =
      update (update (unlinked s.mem r (first_or r zs)) (treebin_at i s) r) (r + parent_at)
        (s.mem (t + parent_at));
}

Links-shift :
    (m : Memory) (b q r : Ptr) (zs : List Ptr) → Links m b q (zs ++ r ∷ []) → Links m r q zs
Links-shift m b q r [] l = (l.0, l.1)
Links-shift m b q r (z ∷ zs) l = (l.0, l.1, Links-shift m b z r zs l.2)

Links-last :
    (m : Memory) (b q r : Ptr) (zs : List Ptr) → Links m b q (zs ++ r ∷ []) → m (b + bk_at) ≡ r
Links-last m b q r [] l = l.2.1
Links-last m b q r (z ∷ zs) l = Links-last m b z r zs l.2

Links-head :
    (m : Memory) (b q r : Ptr) (zs : List Ptr)
    → Links m b q (zs ++ r ∷ [])
    → (m (q + fd_at) ≡ first_or r zs) × (m (first_or r zs + bk_at) ≡ q)
Links-head m b q r [] l = (l.0, l.1)
Links-head m b q r (z ∷ zs) l = (l.0, l.1)

Links-end :
    (m : Memory) (b q r : Ptr) (zs : List Ptr) → Links m b q (zs ++ r ∷ []) → m (r + fd_at) ≡ b
Links-end m b q r [] l = l.2.0
Links-end m b q r (z ∷ zs) l = Links-end m b z r zs l.2

-- What a property of all of `zs ++ r ∷ []` says of `r` and of `zs`.
AllTreeApart-snoc :
    (a r : Ptr) (zs : List Ptr) → AllTreeApart a (zs ++ r ∷ []) → TreeApart a r × AllTreeApart a zs
AllTreeApart-snoc a r [] h = (h.0, tt)
AllTreeApart-snoc a r (z ∷ zs) h =
    let rest = AllTreeApart-snoc a r zs h.1 in (rest.0, (h.0, rest.1))

TreeDistinct-snoc : (r : Ptr) (zs : List Ptr) → TreeDistinct (zs ++ r ∷ []) → TreeDistinct (r ∷ zs)
TreeDistinct-snoc r [] d = (tt, tt)
TreeDistinct-snoc r (z ∷ zs) d =
    let rest = TreeDistinct-snoc r zs d.1 in
    let z_apart = AllTreeApart-snoc z r zs d.0 in
    ((ground (arith, z_apart.0), rest.0), (z_apart.1, rest.1))

AllOutsideTrees-snoc :
    (gm r : Ptr) (zs : List Ptr) → AllOutsideTrees gm (zs ++ r ∷ []) → AllOutsideTrees gm (r ∷ zs)
AllOutsideTrees-snoc gm r [] o = o
AllOutsideTrees-snoc gm r (z ∷ zs) o =
    let rest = AllOutsideTrees-snoc gm r zs o.1 in (rest.0, (o.0, rest.1))

In-snoc : (r : Ptr) (zs : List Ptr) → In r (zs ++ r ∷ [])
In-snoc r [] = inl refl
In-snoc r (z ∷ zs) = inr (In-snoc r zs)

In-first_or : (r : Ptr) (zs : List Ptr) → In (first_or r zs) (r ∷ zs)
In-first_or r [] = inl refl
In-first_or r (z ∷ zs) = inr (inl refl)

In-head : (r : Ptr) (zs : List Ptr) → In (first_or r zs) (zs ++ r ∷ [])
In-head r [] = inl refl
In-head r (z ∷ zs) = inl refl

AllNodes-snoc :
    (least : Ptr) (m : Memory) (i n r : ℕ) (zs : List Ptr)
    → AllNodes least m i n (zs ++ r ∷ [])
    → IsNode least m i n r × AllNodes least m i n zs
AllNodes-snoc least m i n r [] nodes = (nodes.0.0, tt)
AllNodes-snoc least m i n r (z ∷ zs) nodes =
    let rest = AllNodes-snoc least m i n r zs nodes.1 in (rest.0, (nodes.0, rest.1))

SameLinks-promoted :
    (s : State) (i t r f : ℕ) (ys : List Ptr)
    → i < 32
    → AllTreeApart r ys
    → AllTreeApart f ys
    → AllOutsideTrees s.gm ys
    → SameLinks s.mem
        (update
          (update (unlinked s.mem r f) (treebin_at i s) r)
          (r + parent_at)
          (s.mem (t + parent_at)))
        ys
unfolding treebin_at
SameLinks-promoted s i t r f [] low ar af out = tt
SameLinks-promoted s i t r f (y ∷ ys) low ar af out = (
  ground (arith, ar.0, af.0, out.0),
  ground (arith, ar.0, af.0, out.0),
  SameLinks-promoted s i t r f ys low ar.1 af.1 out.1,
)

Links-promoted :
    (s : State) (i t r : ℕ) (zs : List Ptr)
    → i < 32
    → TreeDistinct (r ∷ zs)
    → AllOutsideTrees s.gm (r ∷ zs)
    → Links s.mem r t zs
    → Links (promoted s i t r zs).mem r r zs
unfolding treebin_at
Links-promoted s i t r [] low d out l = (ground (arith, out.0), ground (arith, out.0))
Links-promoted s i t r (z ∷ zs) low d out l = (
  ground (arith, out.0, out.1.0, d.0.0),
  ground (arith, out.0, out.1.0, d.0.0),
  Links-frame s.mem (promoted s i t r (z ∷ zs)).mem r z zs
      (SameLinks-promoted s i t r z zs low d.0.1 d.1.0 out.1.1)
      (ground (arith, out.0, out.1.0, d.0.0)) (ground (arith, out.0, out.1.0, d.0.0)) l.2,
)

module _ (s : State) (i n : ℕ) (t r : Ptr) (zs : List Ptr)
    (tree : IsTree s i n (t ∷ zs ++ r ∷ [])) where
  abbrev before_parent : State
  before_parent = record s { mem = update (unlinked s.mem r (first_or r zs)) (treebin_at i s) r }

  first-TreeApart : TreeApart t (first_or r zs)
  first-TreeApart = AllTreeApart-In (first_or r zs) t (zs ++ r ∷ []) tree.distinct.0 (In-head r zs)

  last_one-TreeApart : TreeApart t r
  last_one-TreeApart = AllTreeApart-In r t (zs ++ r ∷ []) tree.distinct.0 (In-snoc r zs)

  first-OutsideTrees : OutsideTrees s.gm (first_or r zs)
  first-OutsideTrees =
      AllOutsideTrees-In (first_or r zs) s.gm (zs ++ r ∷ []) tree.outside.1 (In-head r zs)

  last_one-OutsideTrees : OutsideTrees s.gm r
  last_one-OutsideTrees = AllOutsideTrees-In r s.gm (zs ++ r ∷ []) tree.outside.1 (In-snoc r zs)

  first-valid : (first_or r zs ≢ null) × (s.least_addr ≤ first_or r zs)
  first-valid =
      AllValid-In (first_or r zs) s.least_addr (zs ++ r ∷ [])
        (AllValid-AllNodes s.least_addr s.mem i n (zs ++ r ∷ []) tree.rooted.3) (In-head r zs)

  last_one-IsNode : IsNode s.least_addr s.mem i n r
  last_one-IsNode = (AllNodes-snoc s.least_addr s.mem i n r zs tree.rooted.3).0

  relink_parent-promoted :
      relink_parent t
        (s.mem (t + parent_at))
        r
        (record s { mem = unlinked s.mem r (first_or r zs) })
      ≡ ok tt before_parent
  unfolding relink_parent deref assign load treebin_at
  relink_parent-promoted = ground (
    arith, first-TreeApart, last_one-TreeApart, first-OutsideTrees, last_one-OutsideTrees, tree.low,
    tree.root, tree.rooted.0.index, tree.rooted.0.ne_null, last_one-IsNode.ne_null,
  )

  adopt_child-promoted :
      (k : ℕ) → k < 2 → adopt_child k t r (promoted s i t r zs) ≡ ok tt (promoted s i t r zs)
  unfolding adopt_child load treebin_at
  adopt_child-promoted zero low = ground (
    arith, first-TreeApart, last_one-TreeApart, tree.outside.0, tree.low, tree.rooted.0.left,
    tree.rooted.0.ne_null,
  )
  adopt_child-promoted (suc zero) low = ground (
    arith, first-TreeApart, last_one-TreeApart, tree.outside.0, tree.low, tree.rooted.0.right,
    tree.rooted.0.ne_null,
  )
  adopt_child-promoted (suc (suc k)) low = absurd (omega arith)

  pub promoted-runs : unlink_large_chunk t s ≡ ok tt (promoted s i t r zs)
  unfolding unlink_large_chunk ok_address
  promoted-runs =
      let f = first_or r zs in
      let ends = Links-head s.mem t t r zs tree.rooted.2 in
      let node = tree.rooted.0 in
      let last = last_one-IsNode in
      let parent : (s.mem (t + parent_at) == null) ≡ false = ground (arith, tree.rooted.1) in
      let present : (r == null) ≡ false = ground (arith, last.ne_null) in
      let good : leb s.least_addr r ≡ true = ground (arith, last.address) in
      let cut =
        replacement-ring s t f r node.ne_null first-valid.0 last.ne_null first-valid.1
          (ground (arith, last_one-TreeApart)) ends.0 (Links-last s.mem t t r zs tree.rooted.2)
          ends.1 (Links-end s.mem t t r zs tree.rooted.2) in
      rw
        (
          load-ok t parent_at s node.ne_null,
          cut,
          parent,
          relink_parent-promoted,
          present,
          good,
          store-ok r parent_at (s.mem (t + parent_at)) before_parent last.ne_null,
          adopt_child-promoted 0 (omega arith),
          adopt_child-promoted 1 (omega arith),
        )
        refl

  promoted_bodies :
      (ys : List Ptr)
      → AllOutsideTrees s.gm ys
      → AllTreeApart r ys
      → AllSameOrApart (first_or r zs) ys
      → SameBodies s.mem (promoted s i t r zs).mem ys
  unfolding treebin_at
  promoted_bodies [] out apart near = tt
  promoted_bodies (y ∷ ys) out apart near = (
    (λ a from to fd bk. ground (arith, tree.low, out.0, apart.0, near.0)),
    promoted_bodies ys out.1 apart.1 near.1,
  )

  pub promoted-IsTree : IsTree (promoted s i t r zs) i n (r ∷ zs)
  unfolding treebin_at
  promoted-IsTree =
      let s' = promoted s i t r zs in
      let distinct = TreeDistinct-snoc r zs tree.distinct.1 in
      let out = AllOutsideTrees-snoc s.gm r zs tree.outside.1 in
      let nodes = AllNodes-snoc s.least_addr s.mem i n r zs tree.rooted.3 in
      let node = nodes.0 in
      let near = AllSameOrApart-In (first_or r zs) (r ∷ zs) distinct (In-first_or r zs) in
      record {
        low = tree.low;
        map = tree.map;
        marked = tree.marked;
        root = ground (arith, tree.low, out.0);
        rooted = (
          record {
            ne_null = node.ne_null;
            address = node.address;
            size = ap size_of (ground (arith, tree.low, out.0, near.0)) ∙ node.size;
            tree = node.tree;
            left = ground (arith, tree.low, out.0, near.0, node.left);
            right = ground (arith, tree.low, out.0, near.0, node.right);
            index = ground (arith, tree.low, out.0, near.0, node.index);
          },
          (λ e. tree.rooted.1 (sym (ground arith) ∙ e)),
          Links-promoted s i t r zs tree.low distinct out
              (Links-shift s.mem t t r zs tree.rooted.2),
          AllNodes-frame s.least_addr s.mem s'.mem i n zs
              (promoted_bodies zs out.1 distinct.0 near.1) nodes.1,
        );
        distinct = distinct;
        outside = out;
      }

  pub promoted-SameBut : SameBut s.mem (promoted s i t r zs).mem (treebin_at i s) (t ∷ zs ++ r ∷ [])
  promoted-SameBut a slot clear = ground (
    arith,
    AllClear-In (first_or r zs) a (zs ++ r ∷ []) clear.1 (In-head r zs),
    AllClear-In r a (zs ++ r ∷ []) clear.1 (In-snoc r zs),
  )
