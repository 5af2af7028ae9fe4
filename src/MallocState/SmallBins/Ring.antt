-- ===== src/MallocState/SmallBins/Ring.antt =====
-- A small bin as the list of its chunks.
use unimem.Base.{
  ℕ, ◌+◌, ◌≤◌, ◌<◌, ◌^◌, ◌≡◌, ◌≢◌, arith, ◌⊎◌, Bool, true, false, List, [], ◌∷◌, update,
}
use unimem.Machine.{Ptr, null, Memory, State}
use unimem.Chunk.{fd_at, bk_at}
use unimem.MallocState.Bitmap.Marks.{has}
use unimem.MallocState.Top.{smallbin_at}

-- Two chunks whose link words do not overlap.
abbrev pub Apart : Ptr → Ptr → Type 0
Apart p q = (p + 16 ≤ q) ⊎ (q + 16 ≤ p)

abbrev pub AllApart : Ptr → List Ptr → Type 0
AllApart p [] = Unit
AllApart p (x ∷ xs) = Apart p x × AllApart p xs

abbrev pub Distinct : List Ptr → Type 0
Distinct [] = Unit
Distinct (x ∷ xs) = AllApart x xs × Distinct xs

-- The addresses that the run-time checks let through.
abbrev pub AllValid : Ptr → List Ptr → Type 0
AllValid least [] = Unit
AllValid least (x ∷ xs) = ((x ≢ null) × (least ≤ x)) × AllValid least xs

-- From `q` the `fd` pointers lead through `xs` to `b`, and the `bk` pointers back.
abbrev pub Links : Memory → Ptr → Ptr → List Ptr → Type 0
Links mem b q [] = (mem (q + fd_at) ≡ b) × (mem (b + bk_at) ≡ q)
Links mem b q (x ∷ xs) = (mem (q + fd_at) ≡ x) × (mem (x + bk_at) ≡ q) × Links mem b x xs

-- The bin of no chunk has no links to rely on: its bit is clear.
abbrev pub LinksIfAny : Memory → Ptr → List Ptr → Type 0
LinksIfAny mem b [] = Unit
LinksIfAny mem b (x ∷ xs) = Links mem b b (x ∷ xs)

abbrev pub is_cons : List Ptr → Bool
is_cons [] = false
is_cons (x ∷ xs) = true

-- The small bin `i` holds the chunks `xs`, the first to be taken first.
pub record IsBin (s : State) (i : ℕ) (xs : List Ptr) : Type 0 where
  pub index : i < 32
  pub map : s.smallmap < 2 ^ 32
  pub marked : has s.smallmap i ≡ is_cons xs
  pub links : LinksIfAny s.mem (smallbin_at i s) xs
  pub apart : AllApart (smallbin_at i s) xs
  pub distinct : Distinct xs
  pub valid : AllValid s.least_addr xs

-- `g` agrees with `f` on the link words of the chunks `xs`.
abbrev pub SameLinks : Memory → Memory → List Ptr → Type 0
SameLinks f g [] = Unit
SameLinks f g (x ∷ xs) =
    (g (x + fd_at) ≡ f (x + fd_at)) × (g (x + bk_at) ≡ f (x + bk_at)) × SameLinks f g xs

-- A segment survives a change that spares its words.
pub Links-frame :
    (f g : Memory) (b q : Ptr) (xs : List Ptr)
    → SameLinks f g xs
    → g (q + fd_at) ≡ f (q + fd_at)
    → g (b + bk_at) ≡ f (b + bk_at)
    → Links f b q xs
    → Links g b q xs
Links-frame f g b q [] same fd bk l = ground arith
Links-frame f g b q (x ∷ xs) same fd bk l =
    (ground arith, ground arith, Links-frame f g b x xs same.2 same.0 bk l.2)

-- A write to a link word of a chunk that is apart.
pub SameLinks-update :
    (f : Memory) (p v : ℕ) (xs : List Ptr)
    → AllApart p xs
    → SameLinks f (update f (p + fd_at) v) xs × SameLinks f (update f (p + bk_at) v) xs
SameLinks-update f p v [] apart = (tt, tt)
SameLinks-update f p v (x ∷ xs) apart =
    let rest = SameLinks-update f p v xs apart.1 in
    ((ground arith, ground arith, rest.0), (ground arith, ground arith, rest.1))

pub SameLinks-trans :
    (f g h : Memory) (xs : List Ptr) → SameLinks f g xs → SameLinks g h xs → SameLinks f h xs
SameLinks-trans f g h [] p q = tt
SameLinks-trans f g h (x ∷ xs) p q = (ground arith, ground arith, SameLinks-trans f g h xs p.2 q.2)
