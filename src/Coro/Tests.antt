-- ===== src/Coro/Tests.antt =====
-- Runs of the coroutines, and the theorems about them at concrete inputs.
use swe_daily_challenge.Base.{ℕ, ◌+◌, ◌*◌, ◌≡◌, refl, true, none, some, List, [], ◌∷◌, arith}
use swe_daily_challenge.Coro.{
  step, worker_done, ready, done, Code, returns, Coroutine, Scheduler, workers, run_program, after,
}
use swe_daily_challenge.Coro.Invariant.{Advances, round-IsValid}
use swe_daily_challenge.Coro.Workers.{printed, in_turns, run_workers_lem}
use swe_daily_challenge.Coro.Spawn.{RunsWell, run_program_lem, run_program_overflow}

abbrev blocks : ℕ → ℕ
blocks i = 4096 + i * 65536

main_output :
    printed (run_program 17 (workers blocks 4 0))
    ≡ step 0 0
      ∷ step 1 0
      ∷ step 2 0
      ∷ step 3 0
      ∷ step 0 1
      ∷ step 1 1
      ∷ step 2 1
      ∷ step 3 1
      ∷ step 0 2
      ∷ step 1 2
      ∷ step 2 2
      ∷ step 3 2
      ∷ worker_done 0
      ∷ worker_done 1
      ∷ worker_done 2
      ∷ worker_done 3
      ∷ []
unfolding run_program workers
main_output = refl

run_workers_lem_example : printed (run_program 17 (workers blocks 4 0)) ≡ in_turns 4
run_workers_lem_example = run_workers_lem 4 blocks (omega arith)

run_program_lem_example : RunsWell 17 (workers blocks 4 0)
unfolding workers
run_program_lem_example = run_program_lem 17 (workers blocks 4 0) (omega arith) (omega arith)

abbrev nine : List (ℕ × Code)
nine =
    (0, returns)
    ∷ (1, returns)
    ∷ (2, returns)
    ∷ (3, returns)
    ∷ (4, returns)
    ∷ (5, returns)
    ∷ (6, returns)
    ∷ (7, returns)
    ∷ (8, returns)
    ∷ []

run_program_overflow_example : run_program 10 nine ≡ none
run_program_overflow_example = run_program_overflow 10 nine (omega arith)

-- The second of two coroutines is next, and the first has just been running.
abbrev two : List Coroutine
two =
    record { ctx = returns; stack = 0; state = done; id = 0 }
    ∷ record { ctx = returns; stack = 1; state = ready; id = 1 }
    ∷ []

abbrev halfway : Scheduler
halfway = record { coros = two; current = some 0; done_armed = true; output = [] }

round-IsValid_example : Advances 1 halfway
unfolding after
round-IsValid_example = round-IsValid 1 halfway (refl, refl, refl, omega arith) (omega arith)
