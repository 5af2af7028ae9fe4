-- ===== src/MallocState/TreeBins/Join.antt =====
-- `insert_large_chunk` on the trees that stand for lists.
use unimem.Base.{
  ℕ, ◌+◌, ◌≤◌, ◌≡◌, ◌≢◌, refl, sym, ap, ◌∙◌, arith, inl, inr, true, false, ◌==◌, List, [], ◌∷◌,
  update,
}
use unimem.Machine.{Ptr, null, Memory, State, ok, load, store, deref}
use unimem.Machine.Returns.{load-ok}
use unimem.Chunk.{size_of, chunksize, head_at, fd_at, bk_at, child_at, parent_at, index_at}
use unimem.MallocState.Bitmap.{is_marked, treemap_is_marked}
use unimem.MallocState.Bitmap.Marks.{has-is_marked}
use unimem.MallocState.Top.{treebin_at, ok_address}
use unimem.MallocState.TreeIndex.{compute_tree_index}
use unimem.MallocState.SmallBins.Ring.{Links, SameLinks, Links-frame}
use unimem.MallocState.SmallBins.Insert.{first_or}
use unimem.MallocState.TreeBins.{insert_from, join_ring, insert_large_chunk}
use unimem.MallocState.TreeBins.Leaf.{TreeApart, OutsideTrees, prepared}
use unimem.MallocState.TreeBins.Alone.{planted}
use unimem.MallocState.TreeBins.Nodes.{
  AllTreeApart, AllOutsideTrees, TreeDistinct, SameBodies, SameBodies-refl, SameBodies-apart,
  SameBodies-update, AllSameOrApart, AllSameOrApart-apart, IsNode-frame, AllNodes, IsTree,
  AllNodes-frame, Clear, AllClear, SameBut,
}

-- The memory after `x` has joined the ring of `t`, behind which `f` stood.
abbrev pub joined : Memory → Ptr → Ptr → Ptr → Memory
joined m t f x =
    update
      (update (update (update (update m (f + bk_at) x) (t + fd_at) x) (x + fd_at) f) (x + bk_at) t)
      (x + parent_at) null

-- The state after `x` has been put into the tree `i` of the chunks `ts`.
abbrev pub grown : State → ℕ → List Ptr → Ptr → State
grown s i [] x = planted s x i
grown s i (t ∷ xs) x = record s { mem = joined (prepared s x i).mem t (first_or t xs) x }

abbrev pub with_chunk : List Ptr → Ptr → List Ptr
with_chunk [] x = x ∷ []
with_chunk (t ∷ xs) x = t ∷ x ∷ xs

Valid-first :
    (least t i n : ℕ) (m : Memory) (xs : List Ptr)
    → (t ≢ null) × (least ≤ t)
    → AllNodes least m i n xs
    → (first_or t xs ≢ null) × (least ≤ first_or t xs)
Valid-first least t i n m [] valid nodes = valid
Valid-first least t i n m (x ∷ xs) valid nodes = (nodes.0.0.ne_null, nodes.0.0.address)

Links-first :
    (m : Memory) (b q : Ptr) (xs : List Ptr) → Links m b q xs → m (q + fd_at) ≡ first_or b xs
Links-first m b q [] l = l.0
Links-first m b q (x ∷ xs) l = l.0

AllSameOrApart-first :
    (t : Ptr) (xs : List Ptr) → TreeDistinct (t ∷ xs) → AllSameOrApart (first_or t xs) (t ∷ xs)
AllSameOrApart-first t [] d = (inl refl, tt)
AllSameOrApart-first t (y ∷ ys) d =
    (inr (ground (arith, d.0.0)), (inl refl, AllSameOrApart-apart y ys d.1.0))

join_ring-runs :
    (s : State) (t x f : Ptr)
    → t ≢ null
    → f ≢ null
    → x ≢ null
    → s.least_addr ≤ t
    → s.least_addr ≤ f
    → s.mem (t + fd_at) ≡ f
    → join_ring t x s ≡ ok tt (record s { mem = joined s.mem t f x })
unfolding join_ring ok_address load store
join_ring-runs s t x f nt nf nx lt lf e = ground arith

first-Apart : (x t : Ptr) (xs : List Ptr) → AllTreeApart x (t ∷ xs) → TreeApart x (first_or t xs)
first-Apart x t [] apart = apart.0
first-Apart x t (y ∷ ys) apart = apart.1.0

first-Outside :
    (gm t : Ptr) (xs : List Ptr) → AllOutsideTrees gm (t ∷ xs) → OutsideTrees gm (first_or t xs)
first-Outside gm t [] out = out.0
first-Outside gm t (y ∷ ys) out = out.1.0

first-Clear : (a t : Ptr) (xs : List Ptr) → AllClear a (t ∷ xs) → Clear a (first_or t xs)
first-Clear a t [] clear = clear.0
first-Clear a t (y ∷ ys) clear = clear.1.0

SameLinks-joined :
    (s : State) (t f x i : ℕ) (ys : List Ptr)
    → AllTreeApart t ys
    → AllTreeApart f ys
    → AllTreeApart x ys
    → SameLinks s.mem (joined (prepared s x i).mem t f x) ys
SameLinks-joined s t f x i [] at af ax = tt
SameLinks-joined s t f x i (y ∷ ys) at af ax = (
  ground (arith, at.0, af.0, ax.0),
  ground (arith, at.0, af.0, ax.0),
  SameLinks-joined s t f x i ys at.1 af.1 ax.1,
)

Links-joined :
    (s : State) (t x i : ℕ) (xs : List Ptr)
    → TreeDistinct (t ∷ xs)
    → AllTreeApart x (t ∷ xs)
    → Links s.mem t t xs
    → Links (joined (prepared s x i).mem t (first_or t xs) x) t t (x ∷ xs)
Links-joined s t x i [] d apart l = ground (arith, apart.0)
Links-joined s t x i (y ∷ ys) d apart l = (
  ground (arith, apart.0, apart.1.0, d.0.0),
  ground (arith, apart.0, apart.1.0, d.0.0),
  (
    ground (arith, apart.0, apart.1.0, d.0.0),
    ground (arith, apart.0, apart.1.0, d.0.0),
    Links-frame s.mem (joined (prepared s x i).mem t y x) t y ys
        (SameLinks-joined s t y x i ys d.0.1 d.1.0 apart.1.1)
        (ground (arith, apart.0, apart.1.0, d.0.0)) (ground (arith, apart.0, apart.1.0, d.0.0)) l.2,
  ),
)

module _ (s : State) (i n : ℕ) (t x : Ptr) (xs : List Ptr) (tree : IsTree s i n (t ∷ xs))
    (nx : x ≢ null) (apart : AllTreeApart x (t ∷ xs)) (out : OutsideTrees s.gm x) where
  prepared_first : (prepared s x i).mem (t + fd_at) ≡ first_or t xs
  prepared_first = ground (arith, apart.0, Links-first s.mem t t xs tree.rooted.2)

  prepared_size : chunksize t (prepared s x i) ≡ ok n (prepared s x i)
  unfolding chunksize
  prepared_size =
      let size : size_of ((prepared s x i).mem (t + head_at)) ≡ n =
        ap size_of (ground (arith, apart.0)) ∙ tree.rooted.0.size in
      rw (load-ok t head_at (prepared s x i) tree.rooted.0.ne_null, size) refl

  pub grown-runs : insert_large_chunk x n s ≡ ok tt (grown s i (t ∷ xs) x)
  unfolding insert_large_chunk insert_from treemap_is_marked store
  grown-runs =
      let node = tree.rooted.0 in
      let first =
        Valid-first s.least_addr t i n s.mem xs (node.ne_null, node.address) tree.rooted.3 in
      let index : compute_tree_index n ≡ i = node.tree in
      let marked : (is_marked s.treemap i == 0) ≡ false =
        ground (arith, has-is_marked s.treemap i tree.low, tree.marked) in
      let present : (x == null) ≡ false = ground arith in
      let root : deref (treebin_at i s) (prepared s x i) ≡ ok t (prepared s x i) =
        unfold deref treebin_at in ground (arith, tree.root, tree.low) in
      let same : (n == n) ≡ true = ground arith in
      rw (index, present, present, present, marked, root, prepared_size, same)
        (join_ring-runs (prepared s x i) t x (first_or t xs) node.ne_null first.0 nx node.address
          first.1 prepared_first)

  prepared_bodies : SameBodies s.mem (prepared s x i).mem (t ∷ xs)
  prepared_bodies =
      let m1 = update s.mem (x + index_at) i in
      let m2 = update m1 (x + child_at 1) null in
      let b0 = SameBodies-refl s.mem (t ∷ xs) in
      let b1 = SameBodies-apart s.mem s.mem x index_at i (t ∷ xs) (omega arith) apart b0 in
      let b2 = SameBodies-apart s.mem m1 x (child_at 1) null (t ∷ xs) (omega arith) apart b1 in
      SameBodies-apart s.mem m2 x (child_at 0) null (t ∷ xs) (omega arith) apart b2

  first-SameOrApart : AllSameOrApart (first_or t xs) (t ∷ xs)
  first-SameOrApart = AllSameOrApart-first t xs tree.distinct

  node-SameOrApart : AllSameOrApart t (t ∷ xs)
  node-SameOrApart = (inl refl, AllSameOrApart-apart t xs tree.distinct.0)

  grown_bodies : SameBodies s.mem (grown s i (t ∷ xs) x).mem (t ∷ xs)
  grown_bodies =
      let f = first_or t xs in
      let ts = t ∷ xs in
      let m0 = (prepared s x i).mem in
      let m1 = update m0 (f + bk_at) x in
      let m2 = update m1 (t + fd_at) x in
      let m3 = update m2 (x + fd_at) f in
      let m4 = update m3 (x + bk_at) t in
      let b1 = (SameBodies-update s.mem m0 f x ts first-SameOrApart prepared_bodies).1 in
      let b2 = (SameBodies-update s.mem m1 t x ts node-SameOrApart b1).0 in
      let b3 = SameBodies-apart s.mem m2 x fd_at f ts (omega arith) apart b2 in
      let b4 = SameBodies-apart s.mem m3 x bk_at t ts (omega arith) apart b3 in
      SameBodies-apart s.mem m4 x parent_at null ts (omega arith) apart b4

  pub grown_ring :
      s.least_addr ≤ x
      → size_of (s.mem (x + head_at)) ≡ n
      → IsTree (grown s i (t ∷ xs) x) i n (t ∷ x ∷ xs)
  unfolding treebin_at
  grown_ring low size =
      let s' = grown s i (t ∷ xs) x in
      let far = first-Apart x t xs apart in
      record {
        low = tree.low;
        map = tree.map;
        marked = tree.marked;
        root =
            ground (
              arith,
              tree.root,
              tree.outside.0,
              tree.low,
              out,
              first-Outside s.gm t xs tree.outside,
            );
        rooted = (
          IsNode-frame s.least_addr s.mem s'.mem i n t grown_bodies.0 tree.rooted.0,
          (λ e. tree.rooted.1 (
              sym (
                grown_bodies.0 (t + parent_at) (omega arith) (omega arith) (omega arith)
                  (omega arith))
              ∙ e)),
          Links-joined s t x i xs tree.distinct apart tree.rooted.2,
          (
            (
              record {
                ne_null = nx;
                address = low;
                size = ap size_of (ground (arith, apart.0, far)) ∙ size;
                tree = tree.rooted.0.tree;
                left = (ground (arith, apart.0, far));
                right = (ground (arith, apart.0, far));
                index = (ground (arith, apart.0, far));
              },
              ground arith,
            ),
            AllNodes-frame s.least_addr s.mem s'.mem i n xs grown_bodies.1 tree.rooted.3,
          ),
        );
        distinct = ((ground (arith, apart.0), tree.distinct.0), (apart.1, tree.distinct.1));
        outside = (tree.outside.0, (out, tree.outside.1));
      }

  pub grown-SameBut : SameBut s.mem (grown s i (t ∷ xs) x).mem (treebin_at i s) (x ∷ t ∷ xs)
  grown-SameBut a slot clear = ground (arith, clear.0, clear.1.0, first-Clear a t xs clear.1)
