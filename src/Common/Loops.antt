-- ===== src/Common/Loops.antt =====
-- A counted loop, with the rule for its invariants.
use Prim.Native.Nat.{ℕ, zero, suc, ◌+◌, ◌<◌, ◌≤◌}
use mathlib.Core.Path.{◌≡◌}
use native.Mathlib.Omega.{arith}

-- for (k = from; rounds are left; k++) st = body(k, st), by the rounds that are left.
unfoldable pub for_range {ℓ} : {St : Type ℓ} (rounds from : ℕ) (body : ℕ → St → St) → St → St
for_range zero from body st = st
for_range (suc rounds) from body st = for_range rounds (from + 1) body (body from st)

-- `Inv k` holds before round `k`; each round may use that `k` is below the end.
pub for_range_inv {ℓ κ} :
    {St : Type ℓ} (Inv : ℕ → St → Type κ) (body : ℕ → St → St) (rounds from to : ℕ)
    → ((k : ℕ) (st : St) → from ≤ k → k < to → Inv k st → Inv (k + 1) (body k st))
    → from + rounds ≡ to
    → (st : St) → Inv from st
    → Inv to (for_range rounds from body st)
unfolding for_range
for_range_inv Inv body (suc rounds) from to round reach st start =
    for_range_inv Inv body rounds (from + 1) to (λ k t above below. round k t (omega arith) below)
      (omega arith) (body from st) (round from st (omega arith) (omega arith) start)
for_range_inv Inv body zero from to round reach st start =
    let same : from ≡ to = omega arith in rw (← same) start
