-- ===== src/Treiber/Stress/Tests.antt =====
-- A run of the stress test with one value for each producer, and the theorems on it.
use swe_daily_challenge.Base.{
  ℕ, zero, suc, ◌≡◌, refl, true, false, Option, none, some, List, arith, ne→==,
}
use swe_daily_challenge.Treiber.{
  Node, idle, Event, internal, calls_push, push_returns, calls_pop, pop_returns, empty_returns,
  node, new_node, push_load, link, push_win, look_empty, enter_pop, pop_load, read_next, pop_win,
  read_value, trash_load, retire_link, retire_win, System, pick, Reach, begin, later, freed,
  destroy,
}
use swe_daily_challenge.Treiber.Values.{count, pushed}
use swe_daily_challenge.Treiber.Stress.{produced, producer, values, passes, ArePlayed}
use swe_daily_challenge.Treiber.Stress.Laws.{passes_stress_test}
use swe_daily_challenge.Treiber.Destroy.{destroy_frees}

abbrev Run : Type 0
Run = (es : List (ℕ × Event ℕ)) × (s : System ℕ) × Reach es s

-- Each producer pushes its value.
abbrev run_1 : Run
run_1 = (
  _,
  _,
  later 0 push_returns
      (later 0 internal
        (later 0 internal (later 0 (calls_push 0) begin (pick (new_node 0 16 (omega arith) refl)))
          (pick push_load))
        (pick (link (node 0 0) refl)))
      (pick (push_win refl)),
)

abbrev run_2 : Run
run_2 = (
  _,
  _,
  later 1 push_returns
      (later 1 internal
        (later 1 internal
          (later 1 (calls_push 1) (run_1.2) (pick (new_node 1 32 (omega arith) refl)))
          (pick push_load))
        (pick (link (node 1 0) refl)))
      (pick (push_win refl)),
)

abbrev run_3 : Run
run_3 = (
  _,
  _,
  later 2 push_returns
      (later 2 internal
        (later 2 internal
          (later 2 (calls_push 2) (run_2.2) (pick (new_node 2 48 (omega arith) refl)))
          (pick push_load))
        (pick (link (node 2 0) refl)))
      (pick (push_win refl)),
)

abbrev run_4 : Run
run_4 = (
  _,
  _,
  later 3 push_returns
      (later 3 internal
        (later 3 internal
          (later 3 (calls_push 3) (run_3.2) (pick (new_node 3 64 (omega arith) refl)))
          (pick push_load))
        (pick (link (node 3 0) refl)))
      (pick (push_win refl)),
)

-- A consumer looks, and each pops one value.
abbrev run_5 : Run
run_5 = (_, _, later 4 (empty_returns false) (run_4.2) (pick look_empty))

abbrev run_6 : Run
run_6 = (
  _,
  _,
  later 4 (pop_returns (some 3))
      (later 4 internal
        (later 4 internal
          (later 4 internal
            (later 4 internal
              (later 4 internal
                (later 4 internal (later 4 calls_pop (run_5.2) (pick enter_pop)) (pick pop_load))
                (pick (read_next (node 3 48) (omega arith) refl)))
              (pick (pop_win refl)))
            (pick (read_value (node 3 48) refl)))
          (pick trash_load))
        (pick (retire_link (node 3 48) refl)))
      (pick (retire_win refl)),
)

abbrev run_7 : Run
run_7 = (
  _,
  _,
  later 5 (pop_returns (some 2))
      (later 5 internal
        (later 5 internal
          (later 5 internal
            (later 5 internal
              (later 5 internal
                (later 5 internal (later 5 calls_pop (run_6.2) (pick enter_pop)) (pick pop_load))
                (pick (read_next (node 2 32) (omega arith) refl)))
              (pick (pop_win refl)))
            (pick (read_value (node 2 32) refl)))
          (pick trash_load))
        (pick (retire_link (node 2 32) refl)))
      (pick (retire_win refl)),
)

abbrev run_8 : Run
run_8 = (
  _,
  _,
  later 6 (pop_returns (some 1))
      (later 6 internal
        (later 6 internal
          (later 6 internal
            (later 6 internal
              (later 6 internal
                (later 6 internal (later 6 calls_pop (run_7.2) (pick enter_pop)) (pick pop_load))
                (pick (read_next (node 1 16) (omega arith) refl)))
              (pick (pop_win refl)))
            (pick (read_value (node 1 16) refl)))
          (pick trash_load))
        (pick (retire_link (node 1 16) refl)))
      (pick (retire_win refl)),
)

abbrev run_9 : Run
run_9 = (
  _,
  _,
  later 7 (pop_returns (some 0))
      (later 7 internal
        (later 7 internal
          (later 7 internal
            (later 7 internal
              (later 7 internal
                (later 7 internal (later 7 calls_pop (run_8.2) (pick enter_pop)) (pick pop_load))
                (pick (read_next (node 0 0) (omega arith) refl)))
              (pick (pop_win refl)))
            (pick (read_value (node 0 0) refl)))
          (pick trash_load))
        (pick (retire_link (node 0 0) refl)))
      (pick (retire_win refl)),
)

all_idle : (i : ℕ) → run_9.1.pc i ≡ idle
all_idle zero = refl
all_idle (suc zero) = refl
all_idle (suc (suc zero)) = refl
all_idle (suc (suc (suc zero))) = refl
all_idle (suc (suc (suc (suc zero)))) = refl
all_idle (suc (suc (suc (suc (suc zero))))) = refl
all_idle (suc (suc (suc (suc (suc (suc zero)))))) = refl
all_idle (suc (suc (suc (suc (suc (suc (suc zero))))))) = refl
all_idle (suc (suc (suc (suc (suc (suc (suc (suc i)))))))) =
    simp
      (
        ne→== 0 (suc (suc (suc (suc (suc (suc (suc (suc i)))))))) (λ e. omega arith),
        ne→== 1 (suc (suc (suc (suc (suc (suc (suc (suc i)))))))) (λ e. omega arith),
        ne→== 2 (suc (suc (suc (suc (suc (suc (suc (suc i)))))))) (λ e. omega arith),
        ne→== 3 (suc (suc (suc (suc (suc (suc (suc (suc i)))))))) (λ e. omega arith),
        ne→== 4 (suc (suc (suc (suc (suc (suc (suc (suc i)))))))) (λ e. omega arith),
        ne→== 5 (suc (suc (suc (suc (suc (suc (suc (suc i)))))))) (λ e. omega arith),
        ne→== 6 (suc (suc (suc (suc (suc (suc (suc (suc i)))))))) (λ e. omega arith),
        ne→== 7 (suc (suc (suc (suc (suc (suc (suc (suc i)))))))) (λ e. omega arith),
      )
      refl

played : ArePlayed run_9.0
unfolding ArePlayed
played = (
  (omega arith, omega arith),
  (
    omega arith,
    (
      omega arith,
      (
        omega arith,
        (
          omega arith,
          (
            omega arith,
            (
              omega arith,
              (
                (omega arith, omega arith),
                (
                  (omega arith, omega arith),
                  (
                    omega arith,
                    (
                      omega arith,
                      (
                        omega arith,
                        (
                          omega arith,
                          (
                            omega arith,
                            (
                              omega arith,
                              (
                                (omega arith, omega arith),
                                (
                                  (omega arith, omega arith),
                                  (
                                    omega arith,
                                    (
                                      omega arith,
                                      (
                                        omega arith,
                                        (
                                          omega arith,
                                          (
                                            omega arith,
                                            (
                                              omega arith,
                                              (
                                                (omega arith, omega arith),
                                                (
                                                  (omega arith, omega arith),
                                                  (
                                                    omega arith,
                                                    (
                                                      omega arith,
                                                      (
                                                        omega arith,
                                                        (
                                                          omega arith,
                                                          (
                                                            omega arith,
                                                            (
                                                            omega arith,
                                                            (
                                                            (omega arith, omega arith),
                                                            (
                                                            (omega arith, omega arith),
                                                            (
                                                            omega arith,
                                                            (
                                                            omega arith,
                                                            (
                                                            omega arith,
                                                            (
                                                            omega arith,
                                                            (
                                                            omega arith,
                                                            (
                                                            omega arith,
                                                            (
                                                            omega arith,
                                                            (
                                                            omega arith,
                                                            (
                                                            omega arith,
                                                            (
                                                            omega arith,
                                                            (
                                                            omega arith,
                                                            (
                                                            omega arith,
                                                            (
                                                            omega arith,
                                                            (
                                                            omega arith,
                                                            (omega arith, (omega arith, tt)),
                                                            ),
                                                            ),
                                                            ),
                                                            ),
                                                            ),
                                                            ),
                                                            ),
                                                            ),
                                                            ),
                                                            ),
                                                            ),
                                                            ),
                                                            ),
                                                            ),
                                                            ),
                                                            ),
                                                            ),
                                                          ),
                                                        ),
                                                      ),
                                                    ),
                                                  ),
                                                ),
                                              ),
                                            ),
                                          ),
                                        ),
                                      ),
                                    ),
                                  ),
                                ),
                              ),
                            ),
                          ),
                        ),
                      ),
                    ),
                  ),
                ),
              ),
            ),
          ),
        ),
      ),
    ),
  ),
)

all_pushed : (x : ℕ) → count x (pushed run_9.0) ≡ count x (produced 1)
unfolding count pushed produced producer values
all_pushed x = omega arith

passes_stress_test_example : passes 1 run_9.0 ≡ true
passes_stress_test_example = passes_stress_test 1 run_9.2 played all_idle refl all_pushed

destroy_frees_example :
    (fuel : ℕ) × (heap : ℕ → Option (Node ℕ)) × (destroy fuel run_9.1.mem ≡ freed heap)
    × ((p : ℕ) → heap p ≡ none)
destroy_frees_example = destroy_frees run_9.2 all_idle
