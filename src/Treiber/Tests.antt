-- ===== src/Treiber/Tests.antt =====
-- A run of two threads, and the theorems on it.
use swe_daily_challenge.Base.{ℕ, refl, some, List, arith}
use swe_daily_challenge.Treiber.{
  Event, internal, calls_push, push_returns, calls_pop, pop_returns, node, new_node, push_load,
  link, push_win, enter_pop, pop_load, read_next, pop_win, read_value, trash_load, retire_link,
  retire_win, System, pick, Reach, begin, later,
}
use swe_daily_challenge.Treiber.Spec.{Atomic, AtomicReach}
use swe_daily_challenge.Treiber.Invariant.{StandsFor}
use swe_daily_challenge.Treiber.Linear.{Reach-refines}
use swe_daily_challenge.Treiber.Progress.{Finishes, Reach-Finishes}

abbrev Run : Type 0
Run = (es : List (ℕ × Event ℕ)) × (s : System ℕ) × Reach es s

-- Thread 0 pushes 7 at address 16.
abbrev pushed : Run
pushed = (
  _,
  _,
  later 0 push_returns
      (later 0 internal
        (later 0 internal (later 0 (calls_push 7) begin (pick (new_node 7 16 (omega arith) refl)))
          (pick push_load))
        (pick (link (node 7 0) refl)))
      (pick (push_win refl)),
)

-- Thread 1 is in a pop, before it reads `next`.
abbrev popping_7 : Run
popping_7 = (_, _, later 1 internal (later 1 calls_pop pushed.2 (pick enter_pop)) (pick pop_load))

-- And returns it.
abbrev returned_7 : Run
returned_7 = (
  _,
  _,
  later 1 (pop_returns (some 7))
      (later 1 internal
        (later 1 internal
          (later 1 internal
            (later 1 internal
              (later 1 internal popping_7.2 (pick (read_next (node 7 0) (omega arith) refl)))
              (pick (pop_win refl)))
            (pick (read_value (node 7 0) refl)))
          (pick trash_load))
        (pick (retire_link (node 7 0) refl)))
      (pick (retire_win refl)),
)

Reach-refines_example : (a : Atomic ℕ) × AtomicReach returned_7.0 a × StandsFor returned_7.1 a
Reach-refines_example = Reach-refines returned_7.2

Reach-Finishes_example : Finishes 1 8 popping_7.1
Reach-Finishes_example = Reach-Finishes popping_7.2 1
