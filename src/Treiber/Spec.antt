-- ===== src/Treiber/Spec.antt =====
-- What the stack promises: a list, on which each call takes effect at one moment between its
-- invocation and its return.
use swe_daily_challenge.Base.{ℕ, ◌≡◌, Bool, true, false, Option, none, some, List, [], ◌∷◌}
use swe_daily_challenge.Treiber.{
  Event, internal, calls_push, push_returns, calls_pop, pop_returns, empty_returns, update,
}

-- How far the call of a thread is.
pub data Status (A : Type 0) : Type 0 where
  outside : Status A
  pushing : A → Status A
  popping : Status A
  found : Option A → Status A

pub record Atomic (A : Type 0) : Type 0 where
  pub stack : List A
  pub status : ℕ → Status A

abbrev pub at_rest : {A : Type 0} → Atomic A
at_rest = record { stack = []; status = λ i. outside }

abbrev pub becomes : {A : Type 0} → Atomic A → ℕ → List A → Status A → Atomic A
becomes a i vs st = record { stack = vs; status = update a.status i st }

abbrev pub is_nil : {A : Type 0} → List A → Bool
is_nil [] = true
is_nil (v ∷ vs) = false

-- A push takes effect as it returns, a pop at some moment before.
pub data AtomicStep {A : Type 0} (a : Atomic A) (i : ℕ) : Event A → Atomic A → Type 0 where
  nothing : AtomicStep a i internal a
  call_push :
      (v : A)
      → a.status i ≡ outside
      → AtomicStep a i (calls_push v) (becomes a i a.stack (pushing v))
  push :
      (v : A)
      → a.status i ≡ pushing v
      → AtomicStep a i push_returns (becomes a i (v ∷ a.stack) outside)
  look : a.status i ≡ outside → AtomicStep a i (empty_returns (is_nil a.stack)) a
  call_pop : a.status i ≡ outside → AtomicStep a i calls_pop (becomes a i a.stack popping)
  pop :
      (v : A) (vs : List A)
      → a.status i ≡ popping
      → a.stack ≡ v ∷ vs
      → AtomicStep a i internal (becomes a i vs (found (some v)))
  pop_nothing :
      a.status i ≡ popping
      → a.stack ≡ []
      → AtomicStep a i internal (becomes a i a.stack (found none))
  return_pop :
      (r : Option A)
      → a.status i ≡ found r
      → AtomicStep a i (pop_returns r) (becomes a i a.stack outside)

pub data AtomicReach {A : Type 0} : List (ℕ × Event A) → Atomic A → Type 0 where
  begin : AtomicReach [] at_rest
  later :
      {es : List (ℕ × Event A)} {a b : Atomic A} (i : ℕ) (e : Event A)
      → AtomicReach es a
      → AtomicStep a i e b
      → AtomicReach ((i, e) ∷ es) b
