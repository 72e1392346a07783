-- ===== src/Coro/Invariant.antt =====
-- The globals between two rounds of scheduler_run.
use mathlib.Core.Option.{none-ne-some, some-injective}
use swe_daily_challenge.Base.{
  ℕ, zero, suc, ◌+◌, ◌≤◌, ◌<◌, ◌≡◌, refl, sym, ap, ◌∙◌, true, none, some, List, [], ◌∷◌, map,
  length, length-set, get_elem?, set, inl, inr, Option-cases, arith,
}
use swe_daily_challenge.Coro.{
  CoroState, ready, done, Code, Coroutine, Scheduler, rest_of, ready_at, find_ready, after, pick,
  round, free_coros_stacks,
}
use swe_daily_challenge.Coro.Round.{yielded, finished, round_yields, round_returns}
use swe_daily_challenge.Coro.Search.{FirstReady, find_ready-FirstReady}
use swe_daily_challenge.Coro.Totals.{
  total-set, one_if_ready, one_if_done, rounds_in, readies, dones, yields, rounds_left,
  one_yield_less, no_yield_left, a_ready_entry, ready_entry,
}
use swe_daily_challenge.Coro.Promise.{promise, promise-yielded, promise-finished}

-- Between two rounds: `completed_coro` counts the coroutines that are done, the others are ready,
-- done_ctx can be used, and `current` is -1 or an index.
abbrev pub IsValid : ℕ → Scheduler → Type 0
IsValid completed s =
    (completed ≡ dones s.coros)
    × (dones s.coros + readies s.coros ≡ length s.coros)
    × (s.done_armed ≡ true)
    × (after s.current ≤ length s.coros)

-- The same blocks to free, and for each coroutine the same lines, printed or to come.
abbrev pub IsKept : Scheduler → Scheduler → Type 0
IsKept s s' = (free_coros_stacks s' ≡ free_coros_stacks s) × ((j : ℕ) → promise j s' ≡ promise j s)

abbrev pub Advances : ℕ → Scheduler → Type 0
Advances completed s =
    (n : ℕ) × (s' : Scheduler) × (round completed s ≡ some (n, s'))
    × IsValid n s'
    × (suc (rounds_left s'.coros) ≡ rounds_left s.coros)
    × IsKept s s'

get_elem?-lt :
    (cs : List Coroutine) (c : ℕ) (e : Coroutine) → get_elem? cs c ≡ some e → c < length cs
get_elem?-lt [] c e h = absurd (none-ne-some e h)
get_elem?-lt (x ∷ xs) zero e h = omega arith
get_elem?-lt (x ∷ xs) (suc c) e h = omega (arith, get_elem?-lt xs c e h)

stacks-set :
    (cs : List Coroutine) (c : ℕ) (e v : Coroutine)
    → get_elem? cs c ≡ some e
    → v.stack ≡ e.stack
    → map (λ (x : Coroutine). x.stack) (set cs c v) ≡ map (λ (x : Coroutine). x.stack) cs
stacks-set [] c e v h same = refl
stacks-set (x ∷ xs) zero e v h same =
    ap (λ t. t ∷ map (λ (x : Coroutine). x.stack) xs)
      (same ∙ ap (λ (x : Coroutine). x.stack) (sym (some-injective x e h)))
stacks-set (x ∷ xs) (suc c) e v h same = ap (◌∷◌ x.stack) (stacks-set xs c e v h same)

module _ (cs : List Coroutine) (c : ℕ) (e v : Coroutine) (at : get_elem? cs c ≡ some e) where
  dones-set : dones (set cs c v) + one_if_done e.state ≡ dones cs + one_if_done v.state
  dones-set = total-set (λ x. one_if_done x.state) cs c e v at

  readies-set : readies (set cs c v) + one_if_ready e.state ≡ readies cs + one_if_ready v.state
  readies-set = total-set (λ x. one_if_ready x.state) cs c e v at

  rounds_left-set :
      rounds_left (set cs c v) + rounds_in e.state (yields e.id e.ctx)
      ≡ rounds_left cs + rounds_in v.state (yields v.id v.ctx)
  rounds_left-set = total-set (λ x. rounds_in x.state (yields x.id x.ctx)) cs c e v at

  in_range : suc c ≤ length (set cs c v)
  in_range = omega (arith, length-set cs c v, get_elem?-lt cs c e at)

Advances-yielded :
    (n c : ℕ) (s : Scheduler) (e : Coroutine) (k : Code)
    → IsValid n s
    → pick s ≡ some c
    → get_elem? s.coros c ≡ some e
    → e.state ≡ ready
    → rest_of e.id e.ctx ≡ some k
    → Advances n s
unfolding free_coros_stacks after
Advances-yielded n c s e k (count, all, armed, cur) p at st r = (
  n,
  yielded c e k s,
  round_yields n c e k s p at r,
  (
    omega (
      arith,
      count,
      dones-set s.coros c e (record e { ctx = k; state = ready }) at,
      ap one_if_done st,
    ),
    omega (
      arith,
      all,
      dones-set s.coros c e (record e { ctx = k; state = ready }) at,
      ap one_if_done st,
      readies-set s.coros c e (record e { ctx = k; state = ready }) at,
      ap one_if_ready st,
      length-set s.coros c (record e { ctx = k; state = ready }),
    ),
    armed,
    in_range s.coros c e (record e { ctx = k; state = ready }) at,
  ),
  omega (
    arith,
    rounds_left-set s.coros c e (record e { ctx = k; state = ready }) at,
    ap (λ (t : CoroState). rounds_in t (yields e.id e.ctx)) st,
    one_yield_less e.id e.ctx k r,
  ),
  (
    stacks-set s.coros c e (record e { ctx = k; state = ready }) at refl,
    λ j. promise-yielded j c s e k at st r,
  ),
)

Advances-finished :
    (n c : ℕ) (s : Scheduler) (e : Coroutine)
    → IsValid n s
    → pick s ≡ some c
    → get_elem? s.coros c ≡ some e
    → e.state ≡ ready
    → rest_of e.id e.ctx ≡ none
    → Advances n s
unfolding free_coros_stacks after
Advances-finished n c s e (count, all, armed, cur) p at st r = (
  suc n,
  finished c e s,
  round_returns n c e s p at r armed,
  (
    omega (arith, count, dones-set s.coros c e (record e { state = done }) at, ap one_if_done st),
    omega (
      arith,
      all,
      dones-set s.coros c e (record e { state = done }) at,
      ap one_if_done st,
      readies-set s.coros c e (record e { state = done }) at,
      ap one_if_ready st,
      length-set s.coros c (record e { state = done }),
    ),
    armed,
    in_range s.coros c e (record e { state = done }) at,
  ),
  omega (
    arith,
    rounds_left-set s.coros c e (record e { state = done }) at,
    ap (λ (t : CoroState). rounds_in t (yields e.id e.ctx)) st,
    no_yield_left e.id e.ctx r,
  ),
  (
    stacks-set s.coros c e (record e { state = done }) at refl,
    λ j. promise-finished j c s e at st r,
  ),
)

pick_found :
    (s : Scheduler) (i : ℕ)
    → find_ready (length s.coros) (after s.current) s.coros ≡ some i
    → pick s ≡ some i
unfolding pick
pick_found s i h = simp (pick, h) refl

run_to_advance :
    (n c : ℕ) (s : Scheduler)
    → IsValid n s
    → pick s ≡ some c
    → (e : Coroutine) × (get_elem? s.coros c ≡ some e) × (e.state ≡ ready)
    → Advances n s
run_to_advance n c s valid p (e, at, st) = elim (Option-cases (rest_of e.id e.ctx)) [
  | inl r ↦ Advances-finished n c s e valid p at st r
  | inr (k, r) ↦ Advances-yielded n c s e k valid p at st r
]

find_to_advance :
    (n : ℕ) (s : Scheduler)
    → IsValid n s
    → (i : ℕ) × (find_ready (length s.coros) (after s.current) s.coros ≡ some i)
      × FirstReady (length s.coros) (after s.current) s.coros i
    → Advances n s
find_to_advance n s valid (i, found, (k, lt, at, hit, before)) =
    run_to_advance n i s valid (pick_found s i found) (ready_entry s.coros i hit)

-- A round from a valid state in which `completed_coro` is below `coro_count` neither faults nor
-- repeats: it leads to a valid state with one round less to go, and keeps the blocks to free and
-- what each coroutine prints in all.
pub round-IsValid : (n : ℕ) (s : Scheduler) → IsValid n s → n < length s.coros → Advances n s
round-IsValid n s valid h = from_entry (a_ready_entry s.coros some_ready)
  where
    some_ready : 0 < readies s.coros
    some_ready = omega (arith, valid.0, valid.1)

    from_entry : (j : ℕ) × (j < length s.coros) × (ready_at s.coros j ≡ true) → Advances n s
    from_entry (j, lt, r) =
        find_to_advance n s valid (find_ready-FirstReady (after s.current) j s.coros valid.3 lt r)
