-- ===== src/Coro/Ends.antt =====
-- The while loop of scheduler_run.
use swe_daily_challenge.Base.{
  ℕ, zero, suc, ◌≤◌, ◌<◌, ◌≡◌, refl, ◌∙◌, some, ltb, lt→ltb, le→ltb, length, inl, inr, Bool-cases,
  ltb→lt, ltb→le, arith,
}
use swe_daily_challenge.Coro.{Scheduler, round, ended, scheduler_run}
use swe_daily_challenge.Coro.Totals.{dones, rounds_left}
use swe_daily_challenge.Coro.Invariant.{IsValid, IsKept, Advances, round-IsValid}

-- `ended`, with nothing left to run.
abbrev pub EndsWell : ℕ → ℕ → Scheduler → Type 0
EndsWell fuel completed s =
    (s' : Scheduler) × (scheduler_run fuel completed s ≡ ended s')
    × (dones s'.coros ≡ length s'.coros)
    × IsKept s s'

loop_exit :
    (fuel n : ℕ) (s : Scheduler) → IsValid n s → length s.coros ≤ n → EndsWell (suc fuel) n s
unfolding scheduler_run
loop_exit fuel n s valid h = (
  s,
  simp (scheduler_run, le→ltb n (length s.coros) h) refl,
  omega (arith, valid.0, valid.1),
  (refl, λ j. refl),
)

loop_step :
    (fuel n n' : ℕ) (s s' : Scheduler)
    → n < length s.coros
    → round n s ≡ some (n', s')
    → IsKept s s'
    → EndsWell fuel n' s'
    → EndsWell (suc fuel) n s
unfolding scheduler_run
loop_step fuel n n' s s' lt r (stacks, promises) (t, run, all, (stacks', promises')) = (
  t,
  simp (scheduler_run, lt→ltb n (length s.coros) lt, r) run,
  all,
  (stacks' ∙ stacks, λ j. promises' j ∙ promises j),
)

on_to_rest :
    (fuel n : ℕ) (s : Scheduler)
    → n < length s.coros
    → rounds_left s.coros < suc fuel
    → ((n' : ℕ) (s' : Scheduler)
        → IsValid n' s'
        → rounds_left s'.coros < fuel
        → EndsWell fuel n' s')
    → Advances n s
    → EndsWell (suc fuel) n s
on_to_rest fuel n s lt h rest (n', s', r, valid, less, kept) =
    loop_step fuel n n' s s' lt r kept (rest n' s' valid (omega (arith, less)))

-- From a valid state the loop ends with every coroutine done, given more fuel than there are
-- rounds left; the blocks to free, and what each coroutine prints in all, stay what they were.
pub scheduler_run-EndsWell :
    (fuel n : ℕ) (s : Scheduler) → IsValid n s → rounds_left s.coros < fuel → EndsWell fuel n s
scheduler_run-EndsWell zero n s valid h = absurd (omega arith)
scheduler_run-EndsWell (suc fuel) n s valid h = elim (Bool-cases (ltb n (length s.coros))) [
  | inl more ↦
      on_to_rest fuel n s (ltb→lt n (length s.coros) more) h (scheduler_run-EndsWell fuel)
        (round-IsValid n s valid (ltb→lt n (length s.coros) more))
  | inr over ↦ loop_exit fuel n s valid (ltb→le n (length s.coros) over)
]
