-- ===== src/MallocState/TreeBins/Nodes.antt =====
-- A tree of chunks of one size, as the list of its ring: the node first. Trees with more than one
-- node do not come about, since the insertion of a second size throws.
use unimem.Base.{
  ℕ, ◌+◌, ◌*◌, ◌≤◌, ◌<◌, ◌^◌, ◌≡◌, ◌≢◌, refl, sym, ap, ◌∙◌, arith, ◌⊎◌, inr, List, [], ◌∷◌, update,
}
use unimem.Machine.{Ptr, null, Memory, State}
use unimem.Chunk.{size_of, head_at, fd_at, bk_at, child_at, parent_at, index_at}
use unimem.MallocState.Bitmap.Marks.{has}
use unimem.MallocState.Top.{treebin_at}
use unimem.MallocState.TreeIndex.{compute_tree_index}
use unimem.MallocState.SmallBins.Ring.{is_cons, Links, SameLinks, Links-frame}
use unimem.MallocState.TreeBins.Leaf.{TreeApart, OutsideTrees}

abbrev pub AllTreeApart : Ptr → List Ptr → Type 0
AllTreeApart p [] = Unit
AllTreeApart p (x ∷ xs) = TreeApart p x × AllTreeApart p xs

abbrev pub TreeDistinct : List Ptr → Type 0
TreeDistinct [] = Unit
TreeDistinct (x ∷ xs) = AllTreeApart x xs × TreeDistinct xs

abbrev pub AllOutsideTrees : Ptr → List Ptr → Type 0
AllOutsideTrees gm [] = Unit
AllOutsideTrees gm (x ∷ xs) = OutsideTrees gm x × AllOutsideTrees gm xs

-- What every chunk of the tree has: its size, its index and no children.
pub record IsNode (least : Ptr) (m : Memory) (i n : ℕ) (x : Ptr) : Type 0 where
  pub ne_null : x ≢ null
  pub address : least ≤ x
  pub size : size_of (m (x + head_at)) ≡ n
  pub tree : compute_tree_index n ≡ i
  pub left : m (x + child_at 0) ≡ null
  pub right : m (x + child_at 1) ≡ null
  pub index : m (x + index_at) ≡ i

-- The chunks behind the node have no parent.
abbrev pub AllNodes : Ptr → Memory → ℕ → ℕ → List Ptr → Type 0
AllNodes least m i n [] = Unit
AllNodes least m i n (x ∷ xs) =
    (IsNode least m i n x × (m (x + parent_at) ≡ null)) × AllNodes least m i n xs

abbrev pub Rooted : Ptr → Memory → ℕ → ℕ → List Ptr → Type 0
Rooted least m i n [] = Unit
Rooted least m i n (t ∷ xs) =
    IsNode least m i n t × (m (t + parent_at) ≢ null) × Links m t t xs × AllNodes least m i n xs

abbrev pub root_of : List Ptr → Ptr
root_of [] = null
root_of (t ∷ xs) = t

-- The tree `i` holds the chunks `ts` of the size `n`.
pub record IsTree (s : State) (i n : ℕ) (ts : List Ptr) : Type 0 where
  pub low : i < 32
  pub map : s.treemap < 2 ^ 32
  pub marked : has s.treemap i ≡ is_cons ts
  pub root : s.mem (treebin_at i s) ≡ root_of ts
  pub rooted : Rooted s.least_addr s.mem i n ts
  pub distinct : TreeDistinct ts
  pub outside : AllOutsideTrees s.gm ts

-- `g` agrees with `f` on the words of the tree chunk `x`, but for its prev_foot.
abbrev pub SameChunk : Memory → Memory → Ptr → Type 0
SameChunk f g x = (a : Ptr) → x + 8 ≤ a → a < x + 64 → g a ≡ f a

abbrev pub SameChunks : Memory → Memory → List Ptr → Type 0
SameChunks f g [] = Unit
SameChunks f g (x ∷ xs) = SameChunk f g x × SameChunks f g xs

-- The same, but for the two links.
abbrev pub SameBody : Memory → Memory → Ptr → Type 0
SameBody f g x = (a : Ptr) → x + 8 ≤ a → a < x + 64 → a ≢ x + fd_at → a ≢ x + bk_at → g a ≡ f a

abbrev pub SameBodies : Memory → Memory → List Ptr → Type 0
SameBodies f g [] = Unit
SameBodies f g (x ∷ xs) = SameBody f g x × SameBodies f g xs

pub IsNode-frame :
    (least : Ptr) (f g : Memory) (i n x : ℕ)
    → SameBody f g x
    → IsNode least f i n x
    → IsNode least g i n x
IsNode-frame least f g i n x same node =
    let word = λ (k : ℕ) (from : 8 ≤ k) (to : k < 64) (fd : k ≢ 16) (bk : k ≢ 24).
      same (x + k) (omega arith) (omega arith) (λ e. fd (omega arith)) (λ e. bk (omega arith)) in
    record {
      ne_null = node.ne_null;
      address = node.address;
      size =
          ap size_of (word head_at (omega arith) (omega arith) (omega arith) (omega arith))
          ∙ node.size;
      tree = node.tree;
      left = word (child_at 0) (omega arith) (omega arith) (omega arith) (omega arith) ∙ node.left;
      right =
          word (child_at 1) (omega arith) (omega arith) (omega arith) (omega arith) ∙ node.right;
      index = word index_at (omega arith) (omega arith) (omega arith) (omega arith) ∙ node.index;
    }

pub AllNodes-frame :
    (least : Ptr) (f g : Memory) (i n : ℕ) (xs : List Ptr)
    → SameBodies f g xs
    → AllNodes least f i n xs
    → AllNodes least g i n xs
AllNodes-frame least f g i n [] same nodes = tt
AllNodes-frame least f g i n (x ∷ xs) same nodes = (
  (
    IsNode-frame least f g i n x same.0 nodes.0.0,
    same.0 (x + parent_at) (omega arith) (omega arith) (omega arith) (omega arith) ∙ nodes.0.1,
  ),
  AllNodes-frame least f g i n xs same.1 nodes.1,
)

SameBodies-SameChunks : (f g : Memory) (xs : List Ptr) → SameChunks f g xs → SameBodies f g xs
SameBodies-SameChunks f g [] same = tt
SameBodies-SameChunks f g (x ∷ xs) same =
    ((λ a from to fd bk. same.0 a from to), SameBodies-SameChunks f g xs same.1)

SameLinks-SameChunks : (f g : Memory) (xs : List Ptr) → SameChunks f g xs → SameLinks f g xs
SameLinks-SameChunks f g [] same = tt
SameLinks-SameChunks f g (x ∷ xs) same = (
  same.0 (x + fd_at) (omega arith) (omega arith),
  same.0 (x + bk_at) (omega arith) (omega arith),
  SameLinks-SameChunks f g xs same.1,
)

pub Rooted-frame :
    (least : Ptr) (f g : Memory) (i n : ℕ) (ts : List Ptr)
    → SameChunks f g ts
    → Rooted least f i n ts
    → Rooted least g i n ts
Rooted-frame least f g i n [] same rooted = tt
Rooted-frame least f g i n (t ∷ xs) same rooted = (
  IsNode-frame least f g i n t (λ a from to fd bk. same.0 a from to) rooted.0,
  (λ e. rooted.1 (sym (same.0 (t + parent_at) (omega arith) (omega arith)) ∙ e)),
  Links-frame f g t t xs (SameLinks-SameChunks f g xs same.1)
      (same.0 (t + fd_at) (omega arith) (omega arith))
      (same.0 (t + bk_at) (omega arith) (omega arith)) rooted.2,
  AllNodes-frame least f g i n xs (SameBodies-SameChunks f g xs same.1) rooted.3,
)

-- A tree stays as it is where its mark, its root and the words of its chunks do.
pub IsTree-frame :
    (s s' : State) (i n : ℕ) (ts : List Ptr)
    → s'.gm ≡ s.gm
    → s'.least_addr ≡ s.least_addr
    → s'.treemap < 2 ^ 32
    → has s'.treemap i ≡ has s.treemap i
    → s'.mem (treebin_at i s) ≡ s.mem (treebin_at i s)
    → SameChunks s.mem s'.mem ts
    → IsTree s i n ts
    → IsTree s' i n ts
unfolding treebin_at
IsTree-frame s s' i n ts gm least map marked root same tree = record {
  low = tree.low;
  map = map;
  marked = marked ∙ tree.marked;
  root = rw gm (root ∙ tree.root);
  rooted = rw least (Rooted-frame s.least_addr s.mem s'.mem i n ts same tree.rooted);
  distinct = tree.distinct;
  outside = rw gm tree.outside;
}

-- The word at `a` is none of the fields of the chunk behind the header.
abbrev pub Clear : Ptr → Ptr → Type 0
Clear a x = (a < x + 16) ⊎ (x + 64 ≤ a)

abbrev pub AllClear : Ptr → List Ptr → Type 0
AllClear a [] = Unit
AllClear a (x ∷ xs) = Clear a x × AllClear a xs

-- `g` agrees with `f` but on the slot at `b` and the fields of the chunks `xs` behind the headers.
abbrev pub SameBut : Memory → Memory → Ptr → List Ptr → Type 0
SameBut f g b xs = (a : Ptr) → a ≢ b → AllClear a xs → g a ≡ f a

AllClear-apart :
    (a x : Ptr) (ys : List Ptr) → x + 8 ≤ a → a < x + 64 → AllTreeApart x ys → AllClear a ys
AllClear-apart a x [] from to apart = tt
AllClear-apart a x (y ∷ ys) from to apart = (omega arith, AllClear-apart a x ys from to apart.1)

-- Every chunk of the one list is apart from every chunk of the other.
abbrev pub TreeCross : List Ptr → List Ptr → Type 0
TreeCross [] ys = Unit
TreeCross (x ∷ xs) ys = AllTreeApart x ys × TreeCross xs ys

pub SameChunks-cross :
    (f g : Memory) (gm i : ℕ) (xs ys : List Ptr)
    → i < 32
    → SameBut f g (gm + 600 + 8 * i) ys
    → AllOutsideTrees gm xs
    → TreeCross xs ys
    → SameChunks f g xs
SameChunks-cross f g gm i [] ys low same out cross = tt
SameChunks-cross f g gm i (x ∷ xs) ys low same out cross = (
  (λ a from to. same a (omega arith) (AllClear-apart a x ys from to cross.0)),
  SameChunks-cross f g gm i xs ys low same out.1 cross.1,
)

-- Two tree chunks are the same or do not overlap.
abbrev pub SameOrApart : Ptr → Ptr → Type 0
SameOrApart p q = (p ≡ q) ⊎ TreeApart p q

abbrev pub AllSameOrApart : Ptr → List Ptr → Type 0
AllSameOrApart p [] = Unit
AllSameOrApart p (x ∷ xs) = SameOrApart p x × AllSameOrApart p xs

pub AllSameOrApart-apart : (p : Ptr) (xs : List Ptr) → AllTreeApart p xs → AllSameOrApart p xs
AllSameOrApart-apart p [] apart = tt
AllSameOrApart-apart p (x ∷ xs) apart = (inr apart.0, AllSameOrApart-apart p xs apart.1)

-- A write to a link of one of the chunks, or outside of them.
pub SameBodies-update :
    (f g : Memory) (p v : ℕ) (xs : List Ptr)
    → AllSameOrApart p xs
    → SameBodies f g xs
    → SameBodies f (update g (p + fd_at) v) xs × SameBodies f (update g (p + bk_at) v) xs
SameBodies-update f g p v [] near same = (tt, tt)
SameBodies-update f g p v (x ∷ xs) near same =
    let rest = SameBodies-update f g p v xs near.1 same.1 in
    (
      ((λ a from to fd bk. ground (arith, near.0, same.0 a from to fd bk)), rest.0),
      ((λ a from to fd bk. ground (arith, near.0, same.0 a from to fd bk)), rest.1),
    )

-- A write to a word of a chunk that is apart.
pub SameBodies-apart :
    (f g : Memory) (p k v : ℕ) (xs : List Ptr)
    → k < 64
    → AllTreeApart p xs
    → SameBodies f g xs
    → SameBodies f (update g (p + k) v) xs
SameBodies-apart f g p k v [] h apart same = tt
SameBodies-apart f g p k v (x ∷ xs) h apart same = (
  (λ a from to fd bk. ground (arith, apart.0, same.0 a from to fd bk)),
  SameBodies-apart f g p k v xs h apart.1 same.1,
)

pub SameBodies-refl : (f : Memory) (xs : List Ptr) → SameBodies f f xs
SameBodies-refl f [] = tt
SameBodies-refl f (x ∷ xs) = ((λ a from to fd bk. refl), SameBodies-refl f xs)
