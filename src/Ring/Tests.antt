-- ===== src/Ring/Tests.antt =====
-- A buffer of two slots, and the theorem on it.
use swe_daily_challenge.Base.{ℕ, ◌≡◌, refl, none, some, List, [], ◌∷◌, arith}
use swe_daily_challenge.Ring.{Call, pushes, pops, value, panics, run_new, new}
use swe_daily_challenge.Ring.Queue.{serve}
use swe_daily_challenge.Ring.Laws.{run_new-refines}

abbrev calls : List (Call ℕ)
calls = pushes 1 ∷ pushes 2 ∷ pushes 3 ∷ pops ∷ pushes 4 ∷ []

queue_of_two : serve 2 calls [] ≡ (none ∷ none ∷ some 3 ∷ some 1 ∷ none ∷ [], 2 ∷ 4 ∷ [])
queue_of_two = refl

no_capacity : run_new 0 calls ≡ panics
unfolding new
no_capacity = refl

run_new-refines_example :
    run_new 2 calls ≡ value (none ∷ none ∷ some 3 ∷ some 1 ∷ none ∷ [], 2 ∷ 4 ∷ [])
run_new-refines_example = run_new-refines 2 calls (omega arith)
