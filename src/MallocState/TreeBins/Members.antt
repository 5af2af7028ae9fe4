-- ===== src/MallocState/TreeBins/Members.antt =====
-- The members of a list of tree chunks, and the list without one of them.
use unimem.Base.{ℕ, ◌+◌, ◌≤◌, ◌≡◌, ◌≢◌, refl, arith, ◌⊎◌, inl, inr, List, [], ◌∷◌, ◌++◌}
use unimem.Machine.{Ptr, null, Memory}
use unimem.Chunk.{parent_at}
use unimem.MallocState.SmallBins.Ring.{AllApart, Distinct, AllValid}
use unimem.MallocState.SmallBins.Insert.{first_or}
use unimem.MallocState.SmallBins.Unlink.{last_or}
use unimem.MallocState.TreeBins.Leaf.{TreeApart, OutsideTrees}
use unimem.MallocState.TreeBins.Nodes.{
  AllTreeApart, TreeDistinct, AllOutsideTrees, AllSameOrApart, IsNode, AllNodes, Rooted, Clear,
  AllClear, TreeCross,
}

abbrev pub In : Ptr → List Ptr → Type 0
In z [] = ⊥
In z (x ∷ xs) = (z ≡ x) ⊎ In z xs

pub In-last : (q : Ptr) (xs ys : List Ptr) → In (last_or q xs) (q ∷ xs ++ ys)
In-last q [] ys = inl refl
In-last q (x ∷ xs) ys = inr (In-last x xs ys)

pub In-append : (z : Ptr) (xs ys : List Ptr) → In z ys → In z (xs ++ ys)
In-append z [] ys h = h
In-append z (x ∷ xs) ys h = inr (In-append z xs ys h)

pub In-first : (q p : Ptr) (xs ys : List Ptr) → In (first_or q ys) (q ∷ xs ++ p ∷ ys)
In-first q p xs [] = inl refl
In-first q p xs (y ∷ ys) = inr (In-append y xs (p ∷ y ∷ ys) (inr (inl refl)))

pub AllTreeApart-In : (z a : Ptr) (xs : List Ptr) → AllTreeApart a xs → In z xs → TreeApart a z
AllTreeApart-In z a [] apart h = elim h [ ]
AllTreeApart-In z a (x ∷ xs) apart (inl e) = rw e apart.0
AllTreeApart-In z a (x ∷ xs) apart (inr h) = AllTreeApart-In z a xs apart.1 h

AllSameOrApart-same : (z x : Ptr) (xs : List Ptr) → z ≡ x → AllTreeApart x xs → AllSameOrApart z xs
AllSameOrApart-same z x [] e apart = tt
AllSameOrApart-same z x (y ∷ ys) e apart =
    (inr (rw e apart.0), AllSameOrApart-same z x ys e apart.1)

pub AllSameOrApart-In : (z : Ptr) (xs : List Ptr) → TreeDistinct xs → In z xs → AllSameOrApart z xs
AllSameOrApart-In z [] d h = elim h [ ]
AllSameOrApart-In z (x ∷ xs) d (inl e) = (inl e, AllSameOrApart-same z x xs e d.0)
AllSameOrApart-In z (x ∷ xs) d (inr h) =
    (inr (ground (arith, AllTreeApart-In z x xs d.0 h)), AllSameOrApart-In z xs d.1 h)

pub AllOutsideTrees-In :
    (z gm : Ptr) (xs : List Ptr) → AllOutsideTrees gm xs → In z xs → OutsideTrees gm z
AllOutsideTrees-In z gm [] out h = elim h [ ]
AllOutsideTrees-In z gm (x ∷ xs) out (inl e) = rw e out.0
AllOutsideTrees-In z gm (x ∷ xs) out (inr h) = AllOutsideTrees-In z gm xs out.1 h

pub AllClear-In : (z a : Ptr) (xs : List Ptr) → AllClear a xs → In z xs → Clear a z
AllClear-In z a [] clear h = elim h [ ]
AllClear-In z a (x ∷ xs) clear (inl e) = rw e clear.0
AllClear-In z a (x ∷ xs) clear (inr h) = AllClear-In z a xs clear.1 h

pub AllValid-In :
    (z least : Ptr) (xs : List Ptr) → AllValid least xs → In z xs → (z ≢ null) × (least ≤ z)
AllValid-In z least [] valid h = elim h [ ]
AllValid-In z least (x ∷ xs) valid (inl e) = rw e valid.0
AllValid-In z least (x ∷ xs) valid (inr h) = AllValid-In z least xs valid.1 h

-- What a tree gives for its members.
pub AllValid-AllNodes :
    (least : Ptr) (m : Memory) (i n : ℕ) (xs : List Ptr)
    → AllNodes least m i n xs
    → AllValid least xs
AllValid-AllNodes least m i n [] nodes = tt
AllValid-AllNodes least m i n (x ∷ xs) nodes =
    ((nodes.0.0.ne_null, nodes.0.0.address), AllValid-AllNodes least m i n xs nodes.1)

pub AllValid-Rooted :
    (least : Ptr) (m : Memory) (i n : ℕ) (ts : List Ptr) → Rooted least m i n ts → AllValid least ts
AllValid-Rooted least m i n [] rooted = tt
AllValid-Rooted least m i n (t ∷ xs) rooted =
    ((rooted.0.ne_null, rooted.0.address), AllValid-AllNodes least m i n xs rooted.3)

pub AllNodes-middle :
    (least : Ptr) (m : Memory) (i n p : ℕ) (xs ys : List Ptr)
    → AllNodes least m i n (xs ++ p ∷ ys)
    → IsNode least m i n p × (m (p + parent_at) ≡ null)
AllNodes-middle least m i n p [] ys nodes = nodes.0
AllNodes-middle least m i n p (x ∷ xs) ys nodes = AllNodes-middle least m i n p xs ys nodes.1

-- Chunks that do not overlap have links that do not.
pub AllApart-trees : (a : Ptr) (xs : List Ptr) → AllTreeApart a xs → AllApart a xs
AllApart-trees a [] apart = tt
AllApart-trees a (x ∷ xs) apart = (ground (arith, apart.0), AllApart-trees a xs apart.1)

pub Distinct-trees : (xs : List Ptr) → TreeDistinct xs → Distinct xs
Distinct-trees [] d = tt
Distinct-trees (x ∷ xs) d = (AllApart-trees x xs d.0, Distinct-trees xs d.1)

-- The last one before a member is another one.
pub last-TreeApart :
    (q p : Ptr) (xs ys : List Ptr) → TreeDistinct (q ∷ xs ++ p ∷ ys) → TreeApart (last_or q xs) p
last-TreeApart q p [] ys d = d.0.0
last-TreeApart q p (x ∷ xs) ys d = last-TreeApart x p xs ys d.1

-- The list without a member.
pub AllTreeApart-drop :
    (a p : Ptr) (xs ys : List Ptr) → AllTreeApart a (xs ++ p ∷ ys) → AllTreeApart a (xs ++ ys)
AllTreeApart-drop a p [] ys h = h.1
AllTreeApart-drop a p (x ∷ xs) ys h = (h.0, AllTreeApart-drop a p xs ys h.1)

pub TreeDistinct-drop :
    (p : Ptr) (xs ys : List Ptr) → TreeDistinct (xs ++ p ∷ ys) → TreeDistinct (xs ++ ys)
TreeDistinct-drop p [] ys d = d.1
TreeDistinct-drop p (x ∷ xs) ys d = (AllTreeApart-drop x p xs ys d.0, TreeDistinct-drop p xs ys d.1)

pub AllOutsideTrees-drop :
    (gm p : Ptr) (xs ys : List Ptr)
    → AllOutsideTrees gm (xs ++ p ∷ ys)
    → AllOutsideTrees gm (xs ++ ys)
AllOutsideTrees-drop gm p [] ys o = o.1
AllOutsideTrees-drop gm p (x ∷ xs) ys o = (o.0, AllOutsideTrees-drop gm p xs ys o.1)

pub AllNodes-drop :
    (least : Ptr) (m : Memory) (i n p : ℕ) (xs ys : List Ptr)
    → AllNodes least m i n (xs ++ p ∷ ys)
    → AllNodes least m i n (xs ++ ys)
AllNodes-drop least m i n p [] ys nodes = nodes.1
AllNodes-drop least m i n p (x ∷ xs) ys nodes = (nodes.0, AllNodes-drop least m i n p xs ys nodes.1)

pub TreeCross-drop :
    (p : Ptr) (xs ys zs : List Ptr) → TreeCross (xs ++ p ∷ ys) zs → TreeCross (xs ++ ys) zs
TreeCross-drop p [] ys zs c = c.1
TreeCross-drop p (x ∷ xs) ys zs c = (c.0, TreeCross-drop p xs ys zs c.1)
