-- ===== src/Coro.antt =====
-- Coroutines under a round-robin scheduler: 09-stackful_croutines_ucontext_t/main.c.
-- What a coroutine has yet to do is a `Code`: its saved context stands for that.
pub mod Search
pub mod Round
pub mod Totals
pub mod Promise
pub mod Invariant
pub mod Ends
pub mod Spawn
pub mod Workers
pub mod Tests
use swe_daily_challenge.Base.{
  ℕ, zero, suc, ◌+◌, ◌%◌, Bool, true, false, Option, none, some, List, [], ◌∷◌, ◌++◌, map, ltb,
  length, get_elem?, set,
}

pub data CoroState : Type 0 where
  ready running done : CoroState

-- The two calls of printf in worker.
pub data Line : Type 0 where
  step : (id i : ℕ) → Line
  worker_done : (id : ℕ) → Line

-- The rest of a coroutine: `own_id` reads `coros[current].id`.
pub data Code : Type 0 where
  printf : Line → Code → Code
  coro_yield : Code → Code
  own_id : (ℕ → Code) → Code
  returns : Code

pub record Coroutine : Type 0 where
  pub ctx : Code
  pub stack : ℕ
  pub state : CoroState
  pub id : ℕ

-- The globals: `coros` holds the first `coro_count` entries, `current` is none for -1, and
-- `done_armed` says that done_ctx was made and not yet used. Each line printed carries the index of
-- the coroutine that printed it.
pub record Scheduler : Type 0 where
  pub coros : List Coroutine
  pub current : Option ℕ
  pub done_armed : Bool
  pub output : List (ℕ × Line)

abbrev pub max_coroutines : ℕ
max_coroutines = 8

-- `none` is an access outside `coros`, or the use of a context that has run to its end.
infixl 5 ◌>>=◌
abbrev pub ◌>>=◌ : {A B : Type 0} → Option A → (A → Option B) → Option B
none >>= f = none
some a >>= f = f a

unfoldable pub done_spawn : Scheduler → Scheduler
done_spawn s = record s { done_armed = true }

-- The call of malloc returned `stack`.
unfoldable pub coro_spawn : (stack : ℕ) → Code → Scheduler → Option Scheduler
coro_spawn stack fn s = elim (ltb (length s.coros) max_coroutines) [
  | true ↦ some (record s {
    coros =
        s.coros ++ (record { ctx = fn; stack = stack; state = ready; id = length s.coros } ∷ []);
  })
  | false ↦ none
]

unfoldable pub set_state : CoroState → ℕ → Scheduler → Option Scheduler
set_state st c s =
    get_elem? s.coros c >>= λ e. some (record s { coros = set s.coros c (record e { state = st }) })

unfoldable pub finish_trampoline : ℕ → Scheduler → Option Scheduler
unfolding set_state
finish_trampoline c s = set_state done c s

-- Coroutine `c` runs on: what it prints, and its rest if it yields, or none if it returns.
unfoldable pub lines_of : (c id : ℕ) → Code → List (ℕ × Line)
lines_of c id (printf l k) = (c, l) ∷ lines_of c id k
lines_of c id (coro_yield k) = []
lines_of c id (own_id k) = lines_of c id (k id)
lines_of c id returns = []

unfoldable pub rest_of : (id : ℕ) → Code → Option Code
rest_of id (printf l k) = rest_of id k
rest_of id (coro_yield k) = some k
rest_of id (own_id k) = rest_of id (k id)
rest_of id returns = none

-- How the scheduler's context is entered again: from coro_yield, which saves the coroutine's
-- context, or along uc_link through done_ctx, which is used up.
unfoldable pub come_back : ℕ → Coroutine → Option Code → Scheduler → Option Scheduler
unfolding finish_trampoline
come_back c e (some k) s = some (record s { coros = set s.coros c (record e { ctx = k }) })
come_back c e none s = elim s.done_armed [
  | true ↦ finish_trampoline c (record s { done_armed = false })
  | false ↦ none
]

-- `swapcontext(&sched_ctx, &coros[current].ctx)`
unfoldable pub switch_to : ℕ → Scheduler → Option Scheduler
unfolding lines_of rest_of come_back
switch_to c s = get_elem? s.coros c >>= λ e.
    come_back c e (rest_of e.id e.ctx) (record s { output = s.output ++ lines_of c e.id e.ctx })

unfoldable pub is_ready : CoroState → Bool
is_ready ready = true
is_ready running = false
is_ready done = false

unfoldable pub ready_at : List Coroutine → ℕ → Bool
unfolding is_ready
ready_at cs j = elim (get_elem? cs j) [ some e ↦ is_ready e.state | none ↦ false ]

-- The for loop of scheduler_run from `cr`, with `probes` rounds to go.
unfoldable pub find_ready : (probes cr : ℕ) → List Coroutine → Option ℕ
unfolding ready_at
find_ready zero cr cs = none
find_ready (suc probes) cr cs = elim (ready_at cs (cr % length cs)) [
  | true ↦ some (cr % length cs)
  | false ↦ find_ready probes (suc cr) cs
]

-- `current + 1`
unfoldable pub after : Option ℕ → ℕ
after none = 0
after (some c) = suc c

-- `current` behind the for loop.
unfoldable pub pick : Scheduler → Option ℕ
unfolding find_ready after
pick s = elim (find_ready (length s.coros) (after s.current) s.coros) [
  | some c ↦ some c
  | none ↦ s.current
]

-- What follows the return to the scheduler, with `completed_coro`.
unfoldable pub settle : ℕ → ℕ → Scheduler → CoroState → Option (ℕ × Scheduler)
unfolding done_spawn set_state
settle c completed s done = some (suc completed, done_spawn s)
settle c completed s ready = set_state ready c s >>= λ s'. some (completed, s')
settle c completed s running = set_state ready c s >>= λ s'. some (completed, s')

-- One round of the while loop.
unfoldable pub round : ℕ → Scheduler → Option (ℕ × Scheduler)
unfolding set_state switch_to pick settle
round completed s = pick s >>= λ c. set_state running c (record s { current = some c }) >>= λ s₁.
    switch_to c s₁ >>= λ s₂. get_elem? s₂.coros c >>= λ e. settle c completed s₂ e.state

pub data Run : Type 0 where
  ended : Scheduler → Run
  faulted out_of_fuel : Run

unfoldable pub scheduler_run : (fuel completed : ℕ) → Scheduler → Run
unfolding round
scheduler_run zero completed s = out_of_fuel
scheduler_run (suc fuel) completed s = elim (ltb completed (length s.coros)) [
  | true ↦ elim (round completed s) [ some (n, s') ↦ scheduler_run fuel n s' | none ↦ faulted ]
  | false ↦ ended s
]

-- The blocks that are passed to free, in order.
unfoldable pub free_coros_stacks : Scheduler → List ℕ
free_coros_stacks s = map (λ (e : Coroutine). e.stack) s.coros

-- The loop of worker, with `left` rounds to go.
unfoldable pub worker_loop : (left i id : ℕ) → Code
worker_loop zero i id = printf (worker_done id) returns
worker_loop (suc left) i id = printf (step id i) (coro_yield (worker_loop left (suc i) id))

unfoldable pub worker : Code
unfolding worker_loop
worker = own_id (λ id. worker_loop 3 0 id)

-- The globals at the start of the program.
abbrev pub start : Scheduler
start = record { coros = []; current = none; done_armed = false; output = [] }

-- `coro_spawn(fn)` for each function in turn, with the block that malloc returns.
unfoldable pub spawn_all : List (ℕ × Code) → Scheduler → Option Scheduler
unfolding coro_spawn
spawn_all [] s = some s
spawn_all ((stack, fn) ∷ fns) s = coro_spawn stack fn s >>= λ s'. spawn_all fns s'

-- The program up to its last printf, with a list of functions where main has worker four times.
unfoldable pub run_program : (fuel : ℕ) → List (ℕ × Code) → Option Run
unfolding done_spawn spawn_all scheduler_run
run_program fuel fns = spawn_all fns (done_spawn start) >>= λ s. some (scheduler_run fuel 0 s)

-- `n` calls of `coro_spawn(worker)`, of which `i` are made; malloc returns `malloc i` to call `i`.
unfoldable pub workers : (malloc : ℕ → ℕ) → (n i : ℕ) → List (ℕ × Code)
unfolding worker
workers malloc zero i = []
workers malloc (suc n) i = (malloc i, worker) ∷ workers malloc n (suc i)
