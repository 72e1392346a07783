-- ===== src/Treiber/Conserve.antt =====
-- Runs of the atomic stack, and of the threads, against the values that go in and out.
use swe_daily_challenge.Base.{
  ℕ, zero, suc, ◌+◌, ◌≡◌, ◌<◌, refl, ap, subst, Option, none, some, List, [], ◌∷◌, arith,
}
use swe_daily_challenge.Treiber.{idle, System, Event, Reach, Node}
use swe_daily_challenge.Treiber.Spec.{
  Status, outside, pushing, popping, found, Atomic, AtomicStep, nothing, call_push, push, look,
  call_pop, pop, pop_nothing, return_pop, AtomicReach, begin, later,
}
use swe_daily_challenge.Treiber.Invariant.{Role, Chain, Thread}
use swe_daily_challenge.Treiber.Linear.{Reach-refines}
use swe_daily_challenge.Treiber.Values.{
  count, pushed, received, AreBelow, in_flight, all_in_flight, all_in_flight-update,
}

-- What was pushed was received, is on the stack, or is on its way.
abbrev Balanced : (x n : ℕ) → List (ℕ × Event ℕ) → Atomic ℕ → Type 0
Balanced x n es a =
    count x (pushed es) ≡ count x (received es) + count x a.stack + all_in_flight x n a.status

all_outside :
    (x n : ℕ) (status : ℕ → Status ℕ)
    → ((i : ℕ) → status i ≡ outside)
    → all_in_flight x n status ≡ 0
unfolding all_in_flight in_flight
all_outside x zero status h = refl
all_outside x (suc n) status h = omega (arith, ap (in_flight x) (h n), all_outside x n status h)

Balanced-step :
    (x n i : ℕ) (e : Event ℕ) (es : List (ℕ × Event ℕ)) (a b : Atomic ℕ)
    → i < n
    → AtomicStep a i e b
    → Balanced x n es a
    → Balanced x n ((i, e) ∷ es) b
unfolding count pushed received in_flight
Balanced-step x n i _ es a _ h nothing bal = bal
Balanced-step x n i _ es a _ h (call_push v call) bal =
    omega (arith, bal, ap (in_flight x) call, all_in_flight-update x n i a.status (pushing v) h)
Balanced-step x n i _ es a _ h (push v call) bal =
    omega (arith, bal, ap (in_flight x) call, all_in_flight-update x n i a.status outside h)
Balanced-step x n i _ es a _ h (look call) bal = bal
Balanced-step x n i _ es a _ h (call_pop call) bal =
    omega (arith, bal, ap (in_flight x) call, all_in_flight-update x n i a.status popping h)
Balanced-step x n i _ es a _ h (pop v vs call top) bal = omega (
  arith,
  bal,
  ap (count x) top,
  ap (in_flight x) call,
  all_in_flight-update x n i a.status (found (some v)) h,
)
Balanced-step x n i _ es a _ h (pop_nothing call top) bal =
    omega (arith, bal, ap (in_flight x) call, all_in_flight-update x n i a.status (found none) h)
Balanced-step x n i _ es a _ h (return_pop none call) bal =
    omega (arith, bal, ap (in_flight x) call, all_in_flight-update x n i a.status outside h)
Balanced-step x n i _ es a _ h (return_pop (some v) call) bal =
    omega (arith, bal, ap (in_flight x) call, all_in_flight-update x n i a.status outside h)

AtomicReach-Balanced :
    (x n : ℕ) {es : List (ℕ × Event ℕ)} {a : Atomic ℕ}
    → AtomicReach es a
    → AreBelow n es
    → Balanced x n es a
unfolding count pushed received AreBelow
AtomicReach-Balanced x n begin below = omega (arith, all_outside x n (λ i. outside) (λ i. refl))
AtomicReach-Balanced x n (later {es} {a} {b} i e run st) (lt, below) =
    Balanced-step x n i e es a b lt st (AtomicReach-Balanced x n run below)

no_values :
    (x : ℕ) (role : ℕ → Role) (heap : ℕ → Option (Node ℕ)) (vs : List ℕ)
    → Chain role heap 0 vs
    → count x vs ≡ 0
unfolding count
no_values x role heap [] h = refl
no_values x role heap (v ∷ vs) (n, nz, at, here, rest) = absurd (nz refl)

-- Where a run of finitely many threads ends with no thread inside a call and an empty stack, every
-- value was returned by pop exactly as often as it was pushed.
pub received-pushed :
    {es : List (ℕ × Event ℕ)} {s : System ℕ} (n x : ℕ)
    → Reach es s
    → AreBelow n es
    → ((i : ℕ) → s.pc i ≡ idle)
    → s.mem.head ≡ 0
    → count x (received es) ≡ count x (pushed es)
received-pushed {s = s} n x r below rest null =
    let (a, run, inv) = Reach-refines r in
    omega (
      arith,
      AtomicReach-Balanced x n run below,
      all_outside x n a.status
          (λ i. subst (Thread inv.role s.mem.heap i (a.status i)) (rest i) (inv.threads i)),
      no_values x inv.role s.mem.heap a.stack
          (subst (λ h. Chain inv.role s.mem.heap h a.stack) null inv.chain),
    )
