-- ===== src/Coro/Search.antt =====
-- The search for the coroutine to run next: the for loop of scheduler_run.
use native.Mathlib.Nat.{mod-eq_of_lt, add-mod_right}
use swe_daily_challenge.Base.{
  ℕ, zero, suc, ◌+◌, ◌-◌, ◌%◌, ◌≤◌, ◌<◌, ◌≡◌, refl, sym, ap, ◌∙◌, subst, true, false, some, List,
  length, inl, inr, Bool-cases, leb, arith,
}
use swe_daily_challenge.Coro.{Coroutine, ready_at, find_ready}

-- The entry that `k` probes from `cr` reach, and that none before it is ready.
abbrev pub FirstReady : (probes cr : ℕ) → List Coroutine → ℕ → Type 0
FirstReady probes cr cs j =
    (k : ℕ) × (k < probes)
    × (j ≡ (cr + k) % length cs)
    × (ready_at cs j ≡ true)
    × ((i : ℕ) → i < k → ready_at cs ((cr + i) % length cs) ≡ false)

find_ready_skip :
    (probes cr : ℕ) (cs : List Coroutine)
    → ready_at cs (cr % length cs) ≡ false
    → find_ready (suc probes) cr cs ≡ find_ready probes (suc cr) cs
unfolding find_ready
find_ready_skip probes cr cs h = simp (find_ready, h) refl

find_ready_hit :
    (probes cr : ℕ) (cs : List Coroutine)
    → ready_at cs (cr % length cs) ≡ true
    → find_ready (suc probes) cr cs ≡ some (cr % length cs)
unfolding find_ready
find_ready_hit probes cr cs h = simp (find_ready, h) refl

skipped :
    (cr k : ℕ) (cs : List Coroutine)
    → ready_at cs (cr % length cs) ≡ false
    → ((i : ℕ) → i < k → ready_at cs ((suc cr + i) % length cs) ≡ false)
    → (i : ℕ) → i < suc k
    → ready_at cs ((cr + i) % length cs) ≡ false
skipped cr k cs here later zero h =
    subst (λ (t : ℕ). ready_at cs (t % length cs) ≡ false) (omega arith) here
skipped cr k cs here later (suc i) h =
    subst (λ (t : ℕ). ready_at cs (t % length cs) ≡ false) (omega arith) (later i (omega arith))

hit_here :
    (probes cr : ℕ) (cs : List Coroutine)
    → ready_at cs (cr % length cs) ≡ true
    → (j : ℕ) × (find_ready (suc probes) cr cs ≡ some j) × FirstReady (suc probes) cr cs j
hit_here probes cr cs here = (
  cr % length cs,
  find_ready_hit probes cr cs here,
  (0, omega arith, ap (λ (t : ℕ). t % length cs) (omega arith), here, λ i lt. absurd (omega arith)),
)

hit_later :
    (probes cr : ℕ) (cs : List Coroutine)
    → ready_at cs (cr % length cs) ≡ false
    → (j : ℕ) × (find_ready probes (suc cr) cs ≡ some j) × FirstReady probes (suc cr) cs j
    → (j : ℕ) × (find_ready (suc probes) cr cs ≡ some j) × FirstReady (suc probes) cr cs j
hit_later probes cr cs here (j, found, (k, lt, at, hit, later)) = (
  j,
  find_ready_skip probes cr cs here ∙ found,
  (
    suc k,
    omega arith,
    at ∙ ap (λ (t : ℕ). t % length cs) (omega arith),
    hit,
    skipped cr k cs here later,
  ),
)

pub first_hit :
    (probes cr k : ℕ) (cs : List Coroutine)
    → k < probes
    → ready_at cs ((cr + k) % length cs) ≡ true
    → (j : ℕ) × (find_ready probes cr cs ≡ some j) × FirstReady probes cr cs j
first_hit zero cr k cs h r = absurd (omega arith)
first_hit (suc probes) cr zero cs h r =
    hit_here probes cr cs (subst (λ (t : ℕ). ready_at cs (t % length cs) ≡ true) (omega arith) r)
first_hit (suc probes) cr (suc k) cs h r = elim (Bool-cases (ready_at cs (cr % length cs))) [
  | inl here ↦ hit_here probes cr cs here
  | inr here ↦ hit_later probes cr cs here (
      first_hit probes (suc cr) k cs (omega arith)
        (subst (λ (t : ℕ). ready_at cs (t % length cs) ≡ true) (omega arith) r))
]

-- Probing all entries from `cr` on passes each of them.
reached : (cr n j : ℕ) → cr ≤ n → j < n → (k : ℕ) × (k < n) × ((cr + k) % n ≡ j)
reached cr n j h lt = elim (Bool-cases (leb cr j)) [
  | inl before ↦ (j - cr, omega arith, ap (λ (t : ℕ). t % n) (ground arith) ∙ mod-eq_of_lt lt)
  | inr behind ↦ (
    j + n - cr,
    ground arith,
    ap (λ (t : ℕ). t % n) (ground arith) ∙ add-mod_right j n ∙ mod-eq_of_lt lt,
  )
]

at_probe :
    (cr j : ℕ) (cs : List Coroutine)
    → ready_at cs j ≡ true
    → (k : ℕ) × (k < length cs) × ((cr + k) % length cs ≡ j)
    → (i : ℕ) × (find_ready (length cs) cr cs ≡ some i) × FirstReady (length cs) cr cs i
at_probe cr j cs r (k, lt, at) =
    first_hit (length cs) cr k cs lt (subst (λ (t : ℕ). ready_at cs t ≡ true) (sym at) r)

-- If an entry is ready, the search from any `cr` up to `coro_count` ends at the first ready entry
-- in cyclic order from `cr`.
pub find_ready-FirstReady :
    (cr j : ℕ) (cs : List Coroutine)
    → cr ≤ length cs
    → j < length cs
    → ready_at cs j ≡ true
    → (i : ℕ) × (find_ready (length cs) cr cs ≡ some i) × FirstReady (length cs) cr cs i
find_ready-FirstReady cr j cs h lt r = at_probe cr j cs r (reached cr (length cs) j h lt)
