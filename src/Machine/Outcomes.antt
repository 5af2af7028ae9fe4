-- ===== src/Machine/Outcomes.antt =====
-- What two equal results have in common, and results that are not equal.
use unimem.Base.{◌≡◌}
use unimem.Machine.{Ptr, State, ok, corrupted, out_of_fuel}

pub ok-same : (m m' : Ptr) (t t' : State) → ok m t ≡ ok m' t' → (m ≡ m') × (t ≡ t')
ok-same m m' t t' e = (cc, cc)

pub ok-tt : (t t' : State) → ok (tt {0}) t ≡ ok tt t' → t ≡ t'
ok-tt t t' e = cc

pub ok_not-corrupted : (A : Type 0) (m : A) (t t' : State) → ¬ (corrupted t' ≡ ok m t)
ok_not-corrupted A m t t' e = cc

pub ok_not-fuel : (m : Ptr) (t : State) → ¬ (out_of_fuel ≡ ok m t)
ok_not-fuel m t e = cc
