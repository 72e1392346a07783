-- ===== src/Treiber/Values.antt =====
-- The values of a run: what was pushed, what was popped, and what is on its way.
use swe_daily_challenge.Base.{
  ℕ, zero, suc, ◌+◌, ◌≡◌, ◌<◌, refl, sym, ap, ◌∙◌, none, some, List, [], ◌∷◌, ◌==◌, if◌then◌else◌,
  arith,
}
use swe_daily_challenge.Treiber.{
  update, Event, internal, calls_push, push_returns, calls_pop, pop_returns, empty_returns,
}
use swe_daily_challenge.Treiber.Spec.{Status, outside, pushing, popping, found}
use swe_daily_challenge.Treiber.Frame.{update_same, update_other}
use native.Mathlib.Decide.{ℕ_discrete}

-- How often a value is in a list.
unfoldable pub count : ℕ → List ℕ → ℕ
count x [] = 0
count x (y ∷ ys) = (if x == y then 1 else 0) + count x ys

-- The values of the calls of push in a run.
unfoldable pub pushed : List (ℕ × Event ℕ) → List ℕ
pushed [] = []
pushed ((i, calls_push v) ∷ es) = v ∷ pushed es
pushed ((i, internal) ∷ es) = pushed es
pushed ((i, push_returns) ∷ es) = pushed es
pushed ((i, calls_pop) ∷ es) = pushed es
pushed ((i, pop_returns r) ∷ es) = pushed es
pushed ((i, empty_returns b) ∷ es) = pushed es

-- The values that calls of pop returned.
unfoldable pub received : List (ℕ × Event ℕ) → List ℕ
received [] = []
received ((i, pop_returns (some v)) ∷ es) = v ∷ received es
received ((i, pop_returns none) ∷ es) = received es
received ((i, calls_push v) ∷ es) = received es
received ((i, internal) ∷ es) = received es
received ((i, push_returns) ∷ es) = received es
received ((i, calls_pop) ∷ es) = received es
received ((i, empty_returns b) ∷ es) = received es

-- The threads have numbers below `n`.
unfoldable pub AreBelow : ℕ → List (ℕ × Event ℕ) → Type 0
AreBelow n [] = Unit
AreBelow n ((i, e) ∷ es) = (i < n) × AreBelow n es

-- The value that a call has in its hands.
unfoldable pub in_flight : ℕ → Status ℕ → ℕ
in_flight x outside = 0
in_flight x (pushing v) = if x == v then 1 else 0
in_flight x popping = 0
in_flight x (found none) = 0
in_flight x (found (some v)) = if x == v then 1 else 0

-- Of all threads below `n`.
unfoldable pub all_in_flight : ℕ → ℕ → (ℕ → Status ℕ) → ℕ
unfolding in_flight
all_in_flight x zero status = 0
all_in_flight x (suc n) status = in_flight x (status n) + all_in_flight x n status

all_in_flight-update_other :
    (x n i : ℕ) (status : ℕ → Status ℕ) (st : Status ℕ)
    → n < suc i
    → all_in_flight x n (update status i st) ≡ all_in_flight x n status
unfolding all_in_flight
all_in_flight-update_other x zero i status st h = refl
all_in_flight-update_other x (suc n) i status st h = omega (
  arith,
  ap (in_flight x) (update_other status i n st (λ e. omega arith)),
  all_in_flight-update_other x n i status st (omega arith),
)

pub all_in_flight-update :
    (x n i : ℕ) (status : ℕ → Status ℕ) (st : Status ℕ)
    → i < n
    → all_in_flight x n (update status i st) + in_flight x (status i)
      ≡ all_in_flight x n status + in_flight x st
unfolding all_in_flight
all_in_flight-update x zero i status st h = absurd (omega arith)
all_in_flight-update x (suc n) i status st h = elim (ℕ_discrete i n) [
  | yes e ↦ omega (
    arith,
    ap (λ k. in_flight x (update status i st k)) (sym e)
        ∙ ap (in_flight x) (update_same status i st),
    ap (λ k. in_flight x (status k)) e,
    all_in_flight-update_other x n i status st (omega (arith, e)),
  )
  | no ne ↦ omega (
    arith,
    ap (in_flight x) (update_other status i n st ne),
    all_in_flight-update x n i status st (omega arith),
  )
]
