-- ===== src/Heap/Members.antt =====
-- The members of a list of chunks, and what holds of all of them.
use unimem.Base.{◌+◌, ◌≡◌, ◌≢◌, refl, sym, ap, ◌∙◌, arith, inl, inr, List, [], ◌∷◌, ◌++◌}
use unimem.Machine.{Ptr, Memory}
use unimem.Chunk.{fd_at, bk_at}
use unimem.MallocState.SmallBins.Ring.{Apart, AllApart, Distinct, SameLinks}
use unimem.MallocState.SmallBins.Frame.{NoLink, NoLinks}
use unimem.MallocState.TreeBins.Leaf.{TreeApart}
use unimem.MallocState.TreeBins.Nodes.{AllTreeApart, SameChunk, SameChunks, Clear, AllClear}
use unimem.MallocState.TreeBins.Members.{In}

pub AllApart-all : (p : Ptr) (xs : List Ptr) → ((x : Ptr) → In x xs → Apart p x) → AllApart p xs
AllApart-all p [] h = tt
AllApart-all p (x ∷ xs) h = (h x (inl refl), AllApart-all p xs (λ y m. h y (inr m)))

pub AllTreeApart-all :
    (p : Ptr) (xs : List Ptr) → ((x : Ptr) → In x xs → TreeApart p x) → AllTreeApart p xs
AllTreeApart-all p [] h = tt
AllTreeApart-all p (x ∷ xs) h = (h x (inl refl), AllTreeApart-all p xs (λ y m. h y (inr m)))

pub NoLinks-all : (a : Ptr) (xs : List Ptr) → ((x : Ptr) → In x xs → NoLink a x) → NoLinks a xs
NoLinks-all a [] h = tt
NoLinks-all a (x ∷ xs) h = (h x (inl refl), NoLinks-all a xs (λ y m. h y (inr m)))

pub AllClear-all : (a : Ptr) (xs : List Ptr) → ((x : Ptr) → In x xs → Clear a x) → AllClear a xs
AllClear-all a [] h = tt
AllClear-all a (x ∷ xs) h = (h x (inl refl), AllClear-all a xs (λ y m. h y (inr m)))

pub SameLinks-all :
    (f g : Memory) (xs : List Ptr)
    → ((x : Ptr) → In x xs → (g (x + fd_at) ≡ f (x + fd_at)) × (g (x + bk_at) ≡ f (x + bk_at)))
    → SameLinks f g xs
SameLinks-all f g [] h = tt
SameLinks-all f g (x ∷ xs) h =
    let own = h x (inl refl) in (own.0, own.1, SameLinks-all f g xs (λ y m. h y (inr m)))

pub SameChunks-all :
    (f g : Memory) (xs : List Ptr) → ((x : Ptr) → In x xs → SameChunk f g x) → SameChunks f g xs
SameChunks-all f g [] h = tt
SameChunks-all f g (x ∷ xs) h = (h x (inl refl), SameChunks-all f g xs (λ y m. h y (inr m)))

-- A member splits its list.
pub In-split :
    (x : Ptr) (xs : List Ptr)
    → In x xs
    → (pre : List Ptr) × (post : List Ptr) × (xs ≡ pre ++ x ∷ post)
In-split x [] h = elim h [ ]
In-split x (y ∷ ys) (inl e) = ([], ys, ap (λ z. z ∷ ys) (sym e))
In-split x (y ∷ ys) (inr h) =
    let rest = In-split x ys h in (y ∷ rest.0, rest.1, ap (λ zs. y ∷ zs) rest.2)

pub In-middle : (x : Ptr) (xs ys : List Ptr) → In x (xs ++ x ∷ ys)
In-middle x [] ys = inl refl
In-middle x (z ∷ zs) ys = inr (In-middle x zs ys)

pub In-add : (x p : Ptr) (xs ys : List Ptr) → In x (xs ++ ys) → In x (xs ++ p ∷ ys)
In-add x p [] ys h = inr h
In-add x p (z ∷ zs) ys (inl e) = inl e
In-add x p (z ∷ zs) ys (inr h) = inr (In-add x p zs ys h)

pub In-drop : (x p : Ptr) (xs ys : List Ptr) → x ≢ p → In x (xs ++ p ∷ ys) → In x (xs ++ ys)
In-drop x p [] ys ne (inl e) = absurd (ne e)
In-drop x p [] ys ne (inr h) = h
In-drop x p (z ∷ zs) ys ne (inl e) = inl e
In-drop x p (z ∷ zs) ys ne (inr h) = inr (In-drop x p zs ys ne h)

AllApart-ne : (p x : Ptr) (xs : List Ptr) → AllApart p xs → In x xs → x ≢ p
AllApart-ne p x [] apart h = elim h [ ]
AllApart-ne p x (y ∷ ys) apart (inl e) = λ q. ground (arith, apart.0)
AllApart-ne p x (y ∷ ys) apart (inr h) = AllApart-ne p x ys apart.1 h

-- In a list of distinct chunks, the rest does not hold the one taken out.
pub Distinct-ne : (x p : Ptr) (xs ys : List Ptr) → Distinct (xs ++ p ∷ ys) → In x (xs ++ ys) → x ≢ p
Distinct-ne x p [] ys d h = AllApart-ne p x ys d.0 h
Distinct-ne x p (z ∷ zs) ys d (inl e) =
    λ q. AllApart-ne z p (zs ++ p ∷ ys) d.0 (In-middle p zs ys) (sym q ∙ e)
Distinct-ne x p (z ∷ zs) ys d (inr h) = Distinct-ne x p zs ys d.1 h
