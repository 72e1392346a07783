-- ===== src/Coro/Workers.antt =====
-- What the program with up to 8 workers prints: main has four.
use swe_daily_challenge.Base.{
  ℕ, zero, suc, ◌*◌, ◌≤◌, ◌≡◌, refl, Option, none, some, List, [], ◌∷◌, ◌++◌, map, arith,
}
use swe_daily_challenge.Coro.{
  Line, step, worker_done, Run, ended, faulted, out_of_fuel, run_program, workers, max_coroutines,
}

-- The lines that a run printed, once it has ended.
abbrev pub printed : Option Run → List Line
printed none = []
printed (some (ended s)) = map (λ (e : ℕ × Line). e.1) s.output
printed (some faulted) = []
printed (some out_of_fuel) = []

-- `f 0, …, f (n - 1)`
abbrev pub for_each : (ℕ → Line) → ℕ → List Line
for_each f zero = []
for_each f (suc n) = for_each f n ++ (f n ∷ [])

-- All workers take step 0, then all take step 1, then step 2, and then all are done.
abbrev pub in_turns : ℕ → List Line
in_turns n =
    for_each (λ id. step id 0) n
    ++ for_each (λ id. step id 1) n
    ++ for_each (λ id. step id 2) n
    ++ for_each worker_done n

-- Up to 8 workers print in turns, and the loop ends within four rounds for each and one more test.
pub run_workers_lem :
    (n : ℕ) (malloc : ℕ → ℕ)
    → n ≤ max_coroutines
    → printed (run_program (suc (4 * n)) (workers malloc n 0)) ≡ in_turns n
unfolding run_program workers
run_workers_lem zero malloc h = refl
run_workers_lem (suc zero) malloc h = refl
run_workers_lem (suc (suc zero)) malloc h = refl
run_workers_lem (suc (suc (suc zero))) malloc h = refl
run_workers_lem (suc (suc (suc (suc zero)))) malloc h = refl
run_workers_lem (suc (suc (suc (suc (suc zero))))) malloc h = refl
run_workers_lem (suc (suc (suc (suc (suc (suc zero)))))) malloc h = refl
run_workers_lem (suc (suc (suc (suc (suc (suc (suc zero))))))) malloc h = refl
run_workers_lem (suc (suc (suc (suc (suc (suc (suc (suc zero)))))))) malloc h = refl
run_workers_lem (suc (suc (suc (suc (suc (suc (suc (suc (suc n))))))))) malloc h =
    absurd (omega arith)
