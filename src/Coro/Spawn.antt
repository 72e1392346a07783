-- ===== src/Coro/Spawn.antt =====
-- From coro_spawn to the end of the program: main without its last printf.
use mathlib.Core.List.{append_assoc, append-nil}
use swe_daily_challenge.Base.{
  ℕ, zero, suc, ◌+◌, ◌≤◌, ◌<◌, ◌≡◌, refl, sym, ap, ◌∙◌, Option, none, some, List, [], ◌∷◌, ◌++◌,
  map, ltb, lt→ltb, le→ltb, length, length-append, get_elem?, arith, Bool-cases, ltb→lt, ltb→le,
  inl, inr, ◌⊎◌, ◌-◌,
}
use swe_daily_challenge.Coro.{
  Line, CoroState, ready, running, done, Code, Coroutine, Scheduler, max_coroutines, ◌>>=◌, start,
  done_spawn, coro_spawn, spawn_all, ended, scheduler_run, run_program, free_coros_stacks, after,
}
use swe_daily_challenge.Coro.Totals.{one_if_done, readies, dones, rounds_left}
use swe_daily_challenge.Coro.Promise.{printed_by, trace, promise, to_print, entry_prints}
use swe_daily_challenge.Coro.Invariant.{IsValid}
use swe_daily_challenge.Coro.Ends.{EndsWell, scheduler_run-EndsWell}

-- The entries of functions that were spawned from index `i` on.
abbrev pub entries : ℕ → List (ℕ × Code) → List Coroutine
entries i [] = []
entries i ((stack, fn) ∷ fns) =
    record { ctx = fn; stack = stack; state = ready; id = i } ∷ entries (suc i) fns

abbrev pub spawned : List (ℕ × Code) → Scheduler → Scheduler
spawned fns s = record s { coros = s.coros ++ entries (length s.coros) fns }

coro_spawn_room :
    (stack : ℕ) (fn : Code) (s : Scheduler)
    → length s.coros < max_coroutines
    → coro_spawn stack fn s ≡ some (spawned ((stack, fn) ∷ []) s)
unfolding coro_spawn
coro_spawn_room stack fn s h = simp (coro_spawn, lt→ltb (length s.coros) 8 h) refl

coro_spawn_full :
    (stack : ℕ) (fn : Code) (s : Scheduler)
    → max_coroutines ≤ length s.coros
    → coro_spawn stack fn s ≡ none
unfolding coro_spawn
coro_spawn_full stack fn s h = simp (coro_spawn, le→ltb (length s.coros) 8 h) refl

abbrev first_entry : ℕ → Code → Scheduler → Coroutine
first_entry stack fn s = record { ctx = fn; stack = stack; state = ready; id = length s.coros }

spawned-spawned :
    (stack : ℕ) (fn : Code) (fns : List (ℕ × Code)) (s : Scheduler)
    → spawned fns (spawned ((stack, fn) ∷ []) s) ≡ spawned ((stack, fn) ∷ fns) s
spawned-spawned stack fn fns s =
    ap (λ (cs : List Coroutine). record s { coros = cs })
      (append_assoc s.coros (first_entry stack fn s ∷ [])
          (entries (length (s.coros ++ first_entry stack fn s ∷ [])) fns)
        ∙ ap (λ (n : ℕ). s.coros ++ first_entry stack fn s ∷ entries n fns)
            (omega (arith, length-append s.coros (first_entry stack fn s ∷ []))))

one_longer :
    (stack : ℕ) (fn : Code) (s : Scheduler)
    → length (spawned ((stack, fn) ∷ []) s).coros ≡ suc (length s.coros)
one_longer stack fn s =
    omega (arith, length-append s.coros (entries (length s.coros) ((stack, fn) ∷ [])))

spawn_all_room :
    (fns : List (ℕ × Code)) (s : Scheduler)
    → length s.coros + length fns ≤ max_coroutines
    → spawn_all fns s ≡ some (spawned fns s)
unfolding spawn_all
spawn_all_room [] s h =
    ap (λ (cs : List Coroutine). some (record s { coros = cs })) (sym (append-nil s.coros))
spawn_all_room ((stack, fn) ∷ fns) s h =
    ap (λ o. o >>= spawn_all fns) (coro_spawn_room stack fn s (omega arith))
    ∙ (spawn_all_room fns (spawned ((stack, fn) ∷ []) s) (omega (arith, one_longer stack fn s))
        ∙ ap some (spawned-spawned stack fn fns s))

spawn_all_full :
    (fns : List (ℕ × Code)) (s : Scheduler)
    → length s.coros ≤ max_coroutines
    → max_coroutines < length s.coros + length fns
    → spawn_all fns s ≡ none
unfolding spawn_all
spawn_all_full [] s h lt = absurd (omega arith)
spawn_all_full ((stack, fn) ∷ fns) s h lt =
    elim (Bool-cases (ltb (length s.coros) max_coroutines)) [
      | inl room ↦
          ap (λ o. o >>= spawn_all fns)
            (coro_spawn_room stack fn s (ltb→lt (length s.coros) 8 room))
          ∙ spawn_all_full fns (spawned ((stack, fn) ∷ []) s)
              (omega (arith, one_longer stack fn s, ltb→lt (length s.coros) 8 room))
              (omega (arith, one_longer stack fn s))
      | inr full ↦
          ap (λ o. o >>= spawn_all fns)
            (coro_spawn_full stack fn s (ltb→le (length s.coros) 8 full))
    ]

dones-entries : (i : ℕ) (fns : List (ℕ × Code)) → dones (entries i fns) ≡ 0
dones-entries i [] = refl
dones-entries i ((stack, fn) ∷ fns) = omega (arith, dones-entries (suc i) fns)

readies-entries : (i : ℕ) (fns : List (ℕ × Code)) → readies (entries i fns) ≡ length (entries i fns)
readies-entries i [] = refl
readies-entries i ((stack, fn) ∷ fns) = omega (arith, readies-entries (suc i) fns)

stacks-entries :
    (i : ℕ) (fns : List (ℕ × Code))
    → map (λ (e : Coroutine). e.stack) (entries i fns) ≡ map (λ (f : ℕ × Code). f.0) fns
stacks-entries i [] = refl
stacks-entries i ((stack, fn) ∷ fns) = ap (◌∷◌ stack) (stacks-entries (suc i) fns)

-- What the function of coroutine `j` prints, if there is one.
abbrev pub fn_prints : ℕ → Option (ℕ × Code) → List Line
fn_prints j none = []
fn_prints j (some (stack, fn)) = trace j fn

prints-entries :
    (i j : ℕ) (fns : List (ℕ × Code))
    → entry_prints (get_elem? (entries i fns) j) ≡ fn_prints (i + j) (get_elem? fns j)
prints-entries i j [] = refl
prints-entries i zero ((stack, fn) ∷ fns) = ap (λ (n : ℕ). trace n fn) (omega arith)
prints-entries i (suc j) ((stack, fn) ∷ fns) =
    prints-entries (suc i) j fns ∙ ap (λ (n : ℕ). fn_prints n (get_elem? fns j)) (omega arith)

abbrev pub at_start : List (ℕ × Code) → Scheduler
at_start fns = spawned fns (done_spawn start)

at_start-IsValid : (fns : List (ℕ × Code)) → IsValid 0 (at_start fns)
unfolding done_spawn after
at_start-IsValid fns = (
  omega (arith, dones-entries 0 fns),
  omega (arith, dones-entries 0 fns, readies-entries 0 fns),
  refl,
  omega arith,
)

done_or_not : (st : CoroState) → (st ≡ done) ⊎ (one_if_done st ≡ 0)
done_or_not ready = inr refl
done_or_not running = inr refl
done_or_not done = inl refl

dones-le : (cs : List Coroutine) → dones cs ≤ length cs
dones-le [] = omega arith
dones-le (e ∷ es) = elim (done_or_not e.state) [
  | inl over ↦ omega (arith, dones-le es, ap one_if_done over)
  | inr more ↦ omega (arith, dones-le es, more)
]

in_done_list :
    (e : Coroutine) (es : List Coroutine) (j : ℕ)
    → e.state ≡ done
    → entry_prints (get_elem? es (j - 1)) ≡ []
    → entry_prints (get_elem? (e ∷ es) j) ≡ []
in_done_list e es zero over h = ap (λ st. to_print st (trace e.id e.ctx)) over
in_done_list e es (suc j) over h =
    ap (λ (i : ℕ). entry_prints (get_elem? es i)) {y = suc j - 1} (omega arith) ∙ h

nothing_to_print :
    (cs : List Coroutine) (j : ℕ) → dones cs ≡ length cs → entry_prints (get_elem? cs j) ≡ []
nothing_to_print [] j all = refl
nothing_to_print (e ∷ es) j all = elim (done_or_not e.state) [
  | inl over ↦
      in_done_list e es j over
        (nothing_to_print es (j - 1) (omega (arith, all, ap one_if_done over)))
  | inr more ↦ absurd (omega (arith, all, more, dones-le es))
]

printed_in_all :
    (fns : List (ℕ × Code)) (s' : Scheduler) (j : ℕ)
    → dones s'.coros ≡ length s'.coros
    → promise j s' ≡ promise j (at_start fns)
    → printed_by j s'.output ≡ fn_prints j (get_elem? fns j)
unfolding done_spawn
printed_in_all fns s' j all kept =
    sym (append-nil (printed_by j s'.output))
    ∙ ap (◌++◌ (printed_by j s'.output)) (sym (nothing_to_print s'.coros j all))
    ∙ kept
    ∙ prints-entries 0 j fns
    ∙ ap (λ (i : ℕ). fn_prints i (get_elem? fns j)) (omega arith)

-- The program runs to its end.
abbrev pub RunsWell : ℕ → List (ℕ × Code) → Type 0
RunsWell fuel fns =
    (s' : Scheduler) × (run_program fuel fns ≡ some (ended s'))
    × (dones s'.coros ≡ length s'.coros)
    × (free_coros_stacks s' ≡ map (λ (f : ℕ × Code). f.0) fns)
    × ((j : ℕ) → printed_by j s'.output ≡ fn_prints j (get_elem? fns j))

program_ends :
    (fuel : ℕ) (fns : List (ℕ × Code))
    → length fns ≤ max_coroutines
    → EndsWell fuel 0 (at_start fns)
    → RunsWell fuel fns
unfolding run_program done_spawn free_coros_stacks
program_ends fuel fns room (s', run, all, (stacks, promises)) = (
  s',
  ap (λ o. o >>= λ s. some (scheduler_run fuel 0 s))
        (spawn_all_room fns (done_spawn start) (omega arith))
      ∙ ap some run,
  all,
  stacks ∙ stacks-entries 0 fns,
  λ j. printed_in_all fns s' j all (promises j),
)

-- At most 8 functions: the program ends, given more fuel than the rounds to go, with every
-- coroutine done; coroutine `j` has printed all of what its function prints, in order; the blocks
-- passed to free are those that malloc returned, each once.
pub run_program_lem :
    (fuel : ℕ) (fns : List (ℕ × Code))
    → length fns ≤ max_coroutines
    → rounds_left (entries 0 fns) < fuel
    → RunsWell fuel fns
unfolding done_spawn
run_program_lem fuel fns room h =
    program_ends fuel fns room
      (scheduler_run-EndsWell fuel 0 (at_start fns) (at_start-IsValid fns) h)

-- More than 8 functions: coro_spawn writes behind the end of `coros`.
pub run_program_overflow :
    (fuel : ℕ) (fns : List (ℕ × Code)) → max_coroutines < length fns → run_program fuel fns ≡ none
unfolding run_program done_spawn
run_program_overflow fuel fns h =
    ap (λ o. o >>= λ s. some (scheduler_run fuel 0 s))
      (spawn_all_full fns (done_spawn start) (omega arith) (omega arith))
