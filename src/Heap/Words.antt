-- ===== src/Heap/Words.antt =====
-- The words that the bins and the trees do not use: header words and footers.
use unimem.Base.{ℕ, ◌+◌, ◌≤◌, ◌<◌, ◌≡◌, ap, arith, ◌⊎◌, inl, inr}
use unimem.Machine.{Ptr, State}
use unimem.Chunk.{head_at, prev_foot_at}
use unimem.MallocState.Top.{smallbin_at}
use unimem.MallocState.SmallBins.Frame.{NoLink}
use unimem.Heap.{Blocks, IsTiling, IsTiling-frame}

-- The word at `w` is in neither of the two arrays, and no field of a chunk behind its header.
abbrev pub IsTag : State → Blocks → Ptr → Type 0
IsTag s b w =
    ((w < s.gm + 72) ⊎ (s.gm + 856 ≤ w))
    × ((y : Ptr) → 0 < b.size y → (w < y + 16) ⊎ (y + b.size y ≤ w))

pub head-IsTag :
    (s : State) (b : Blocks) (x : Ptr) → IsTiling s b → 0 < b.size x → IsTag s b (x + head_at)
head-IsTag s b x tiling pos =
    let own = tiling.each x pos in
    (
      omega (arith, own.low, own.high, own.least, tiling.place),
      λ y there.
          let other = tiling.each y there in
          omega (arith, tiling.apart x y pos there, own.least, other.least),
    )

pub foot-IsTag :
    (s : State) (b : Blocks) (x : Ptr)
    → IsTiling s b
    → 0 < b.size x
    → IsTag s b (x + b.size x + prev_foot_at)
foot-IsTag s b x tiling pos =
    let own = tiling.each x pos in
    (
      omega (arith, own.low, own.high, own.least, tiling.place),
      λ y there.
          let other = tiling.each y there in
          elim (tiling.apart x y pos there) [
            | inl e ↦ inr (omega (arith, ap b.size e))
            | inr far ↦ omega (arith, far, own.least, other.least)
          ],
    )

pub top-IsTag : (s : State) (b : Blocks) → IsTiling s b → IsTag s b (s.top + head_at)
top-IsTag s b tiling = (
  omega (arith, tiling.place, tiling.below),
  λ y there. omega (arith, (tiling.each y there).high),
)

-- A word that is no field is no link either.
pub IsTag-NoLink :
    (s : State) (b : Blocks) (w y : Ptr) → IsTag s b w → IsTiling s b → 0 < b.size y → NoLink w y
IsTag-NoLink s b w y tag tiling pos =
    let large = (tiling.each y pos).least in
    ((λ e. omega (arith, tag.1 y pos, large)), (λ e. omega (arith, tag.1 y pos, large)))

pub IsTag-NoLink_bin :
    (s : State) (b : Blocks) (w i : ℕ) → IsTag s b w → i < 32 → NoLink w (smallbin_at i s)
unfolding smallbin_at
IsTag-NoLink_bin s b w i tag low = ((λ e. omega (arith, tag.0)), (λ e. omega (arith, tag.0)))

-- Nothing but the memory and the two maps differs.
abbrev pub SameFields : State → State → Type 0
SameFields s s' = s' ≡ record s { mem = s'.mem; smallmap = s'.smallmap; treemap = s'.treemap }

pub IsTiling-tags :
    (s s' : State) (b : Blocks)
    → SameFields s s'
    → ((w : Ptr) → IsTag s b w → s'.mem w ≡ s.mem w)
    → IsTiling s b
    → IsTiling s' b
IsTiling-tags s s' b fields same tiling =
    IsTiling-frame s s' b (ap (λ z. z.gm) fields) (ap (λ z. z.top) fields)
      (ap (λ z. z.topsize) fields) (ap (λ z. z.least_addr) fields)
      (same (s.top + head_at) (top-IsTag s b tiling))
      (λ x pos. same (x + head_at) (head-IsTag s b x tiling pos))
      (λ x pos free. same (x + b.size x + prev_foot_at) (foot-IsTag s b x tiling pos)) tiling
