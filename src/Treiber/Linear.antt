-- ===== src/Treiber/Linear.antt =====
-- Whole runs of the threads against the atomic stack.
use mathlib.Core.List.Memᴰ.{not-nil}
use swe_daily_challenge.Base.{ℕ, ◌≢◌, refl, List, [], ◌∷◌, inl, inr}
use swe_daily_challenge.Treiber.{
  node, Memory, Pc, idle, push_start, push_loaded, push_linked, pop_start, pop_loaded, pop_next,
  popped, retire_start, retire_loaded, retire_linked, Event, Move, push_load, link, push_lose,
  pop_load, pop_empty, read_next, pop_lose, read_value, trash_load, retire_link, retire_lose,
  System, start, Step, pick, Reach, begin, later,
}
use swe_daily_challenge.Treiber.Spec.{Status, Atomic, at_rest, AtomicStep, AtomicReach}
use swe_daily_challenge.Treiber.Invariant.{Role, unused, Thread, StandsFor}
use swe_daily_challenge.Treiber.Simulate.{simulate}

start-StandsFor : {A : Type 0} → StandsFor {A = A} start at_rest
start-StandsFor = record {
  role = λ p. unused;
  chain = refl;
  threads = λ i. refl;
  account = record {
    xs = [];
    ts = [];
    stack_line = refl;
    trash_line = refl;
    placed = λ p. refl;
    only_stacked = λ p mem. absurd (not-nil mem);
    only_retired = λ p mem. absurd (not-nil mem);
    distinct_xs = tt;
    distinct_ts = tt;
    no_null = refl;
  };
  unborn = λ p h. refl;
}

-- A step of any thread is matched by one step of the atomic stack, with the same event.
pub Step-refines :
    {A : Type 0} {s : System A} {i : ℕ} {e : Event A} {t : System A} (a : Atomic A)
    → StandsFor s a
    → Step s i e t
    → (b : Atomic A) × AtomicStep a i e b × StandsFor t b
Step-refines {s} {i} a inv (pick mv) = simulate s a inv i refl mv (inv.threads i)

one_more :
    {A : Type 0} {es : List (ℕ × Event A)} {s t : System A} (i : ℕ) (e : Event A)
    → Step s i e t
    → (a : Atomic A) × AtomicReach es a × StandsFor s a
    → (b : Atomic A) × AtomicReach ((i, e) ∷ es) b × StandsFor t b
one_more i e st (a, run, inv) =
    let next = Step-refines a inv st in (next.0, AtomicReach.later i e run next.1, next.2)

-- Linearisability: in whatever order the threads take their steps, and wherever a weak exchange
-- fails for no reason, the calls and returns are those of a run of the atomic stack, on which each
-- call takes effect at one moment between the two.
pub Reach-refines :
    {A : Type 0} {es : List (ℕ × Event A)} {s : System A}
    → Reach es s
    → (a : Atomic A) × AtomicReach es a × StandsFor s a
Reach-refines begin = (at_rest, AtomicReach.begin, start-StandsFor)
Reach-refines (later i e r st) = one_more i e st (Reach-refines r)

-- What a thread of a valid state can do next.
abbrev CanMove : {A : Type 0} → Memory A → Pc A → Type 0
CanMove {A} m pc = (e : Event A) × (m' : Memory A) × (pc' : Pc A) × Move m pc e m' pc'

-- A dereference finds its node.
Thread-CanMove :
    {A : Type 0} (role : ℕ → Role) (m : Memory A) (i : ℕ) (st : Status A) (pc : Pc A)
    → pc ≢ idle
    → Thread role m.heap i st pc
    → CanMove m pc
Thread-CanMove role m i st idle busy h = absurd (busy refl)
Thread-CanMove role m i st (push_start p) busy h = (_, _, _, push_load)
Thread-CanMove role m i st (push_loaded p l) busy (v, n, nz, held, at, call) =
    (_, _, _, link (node v n) at)
Thread-CanMove role m i st (push_linked p l) busy h = (_, _, _, push_lose)
Thread-CanMove role m i st pop_start busy h = (_, _, _, pop_load)
Thread-CanMove role m i st (pop_loaded l) busy (inl (null, call)) = (_, _, _, pop_empty null)
Thread-CanMove role m i st (pop_loaded l) busy (inr (x, nz, shared, at, call)) =
    (_, _, _, read_next x nz at)
Thread-CanMove role m i st (pop_next l n) busy h = (_, _, _, pop_lose)
Thread-CanMove role m i st (popped l) busy (v, (n, taken, at, call)) =
    (_, _, _, read_value (node v n) at)
Thread-CanMove role m i st (retire_start l v) busy h = (_, _, _, trash_load)
Thread-CanMove role m i st (retire_loaded l v t) busy (n, taken, at, call) =
    (_, _, _, retire_link (node v n) at)
Thread-CanMove role m i st (retire_linked l v t) busy h = (_, _, _, retire_lose)

-- No thread reads or writes through nullptr or through an address without a node: in every state
-- that is reached, each thread inside a call can take its next step.
pub Reach-CanMove :
    {A : Type 0} {es : List (ℕ × Event A)} {s : System A}
    → Reach es s
    → (i : ℕ) → s.pc i ≢ idle
    → (e : Event A) × (m' : Memory A) × (pc' : Pc A) × Move s.mem (s.pc i) e m' pc'
Reach-CanMove {s = s} r i busy =
    let ok = Reach-refines r in
    Thread-CanMove ok.2.role s.mem i (ok.0.status i) (s.pc i) busy (ok.2.threads i)
