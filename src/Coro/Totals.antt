-- ===== src/Coro/Totals.antt =====
-- What the entries of `coros` add up to: how many are ready or done, and how much is left to run.
use swe_daily_challenge.Base.{
  ℕ, zero, suc, ◌+◌, ◌<◌, ◌≡◌, refl, sym, ap, true, none, some, List, [], ◌∷◌, length, get_elem?,
  set, ◌⊎◌, inl, inr, Option-cases, arith,
}
use mathlib.Core.Bool.{false≢true}
use mathlib.Core.Option.{none-ne-some, some-injective}
use swe_daily_challenge.Coro.{
  CoroState, ready, running, done, Code, printf, coro_yield, own_id, returns, Coroutine, rest_of,
  is_ready, ready_at,
}

abbrev pub total : (Coroutine → ℕ) → List Coroutine → ℕ
total w [] = 0
total w (e ∷ es) = w e + total w es

pub total-set :
    (w : Coroutine → ℕ) (cs : List Coroutine) (c : ℕ) (e v : Coroutine)
    → get_elem? cs c ≡ some e
    → total w (set cs c v) + w e ≡ total w cs + w v
total-set w [] c e v h = absurd (none-ne-some e h)
total-set w (x ∷ xs) zero e v h = omega (arith, ap w (some-injective x e h))
total-set w (x ∷ xs) (suc c) e v h = omega (arith, total-set w xs c e v h)

abbrev pub one_if_ready : CoroState → ℕ
one_if_ready ready = 1
one_if_ready running = 0
one_if_ready done = 0

abbrev pub one_if_done : CoroState → ℕ
one_if_done ready = 0
one_if_done running = 0
one_if_done done = 1

abbrev pub readies : List Coroutine → ℕ
readies cs = total (λ e. one_if_ready e.state) cs

abbrev pub dones : List Coroutine → ℕ
dones cs = total (λ e. one_if_done e.state) cs

-- How often the code yields.
abbrev pub yields : (id : ℕ) → Code → ℕ
yields id (printf l k) = yields id k
yields id (coro_yield k) = suc (yields id k)
yields id (own_id k) = yields id (k id)
yields id returns = 0

-- The times that a coroutine is yet to be switched to.
abbrev pub rounds_in : CoroState → ℕ → ℕ
rounds_in ready n = suc n
rounds_in running n = 0
rounds_in done n = 0

abbrev pub rounds_left : List Coroutine → ℕ
rounds_left cs = total (λ e. rounds_in e.state (yields e.id e.ctx)) cs

pub one_yield_less :
    (id : ℕ) (code k : Code) → rest_of id code ≡ some k → yields id code ≡ suc (yields id k)
unfolding rest_of
one_yield_less id (printf l code) k h = one_yield_less id code k h
one_yield_less id (coro_yield code) k h = ap (λ t. suc (yields id t)) (some-injective code k h)
one_yield_less id (own_id f) k h = one_yield_less id (f id) k h
one_yield_less id returns k h = absurd (none-ne-some k h)

pub no_yield_left : (id : ℕ) (code : Code) → rest_of id code ≡ none → yields id code ≡ 0
unfolding rest_of
no_yield_left id (printf l code) h = no_yield_left id code h
no_yield_left id (coro_yield code) h = absurd (none-ne-some code (sym h))
no_yield_left id (own_id f) h = no_yield_left id (f id) h
no_yield_left id returns h = refl

ready_or_not : (st : CoroState) → (st ≡ ready) ⊎ (one_if_ready st ≡ 0)
ready_or_not ready = inl refl
ready_or_not running = inr refl
ready_or_not done = inr refl

ready_at_next :
    (e : Coroutine) (es : List Coroutine)
    → (j : ℕ) × (j < length es) × (ready_at es j ≡ true)
    → (j : ℕ) × (j < length (e ∷ es)) × (ready_at (e ∷ es) j ≡ true)
unfolding ready_at
ready_at_next e es (j, lt, r) = (suc j, omega arith, r)

-- A ready entry exists, where the number of them is not 0.
pub a_ready_entry :
    (cs : List Coroutine) → 0 < readies cs → (j : ℕ) × (j < length cs) × (ready_at cs j ≡ true)
unfolding ready_at is_ready
a_ready_entry [] h = absurd (omega arith)
a_ready_entry (e ∷ es) h = elim (ready_or_not e.state) [
  | inl this ↦ (0, omega arith, ap is_ready this)
  | inr other ↦ ready_at_next e es (a_ready_entry es (omega (arith, other)))
]

is_ready_lem : (st : CoroState) → is_ready st ≡ true → st ≡ ready
unfolding is_ready
is_ready_lem ready h = refl
is_ready_lem running h = absurd (false≢true h)
is_ready_lem done h = absurd (false≢true h)

-- What `ready_at` says of the entry.
pub ready_entry :
    (cs : List Coroutine) (j : ℕ)
    → ready_at cs j ≡ true
    → (e : Coroutine) × (get_elem? cs j ≡ some e) × (e.state ≡ ready)
unfolding ready_at
ready_entry cs j h = elim (Option-cases (get_elem? cs j)) [
  | inl outside ↦ absurd (false≢true (simp (ready_at, outside) at h))
  | inr (e, at) ↦ (e, at, is_ready_lem e.state (simp (ready_at, at) at h))
]
