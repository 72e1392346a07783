-- ===== src/Coro/Promise.antt =====
-- What the coroutines print, each for itself.
use mathlib.Core.List.{append_assoc, append-nil}
use mathlib.Core.Option.{none-ne-some, some-injective}
use native.Mathlib.Decide.{ℕ_discrete}
use swe_daily_challenge.Base.{
  ℕ, ◌≡◌, ◌≢◌, refl, sym, ap, subst, ◌∙◌, Option, none, some, List, [], ◌∷◌, ◌++◌, ◌==◌,
  if◌then◌else◌, set, get_elem?, get_elem?-set, get_elem?-set_other, arith, eq→==, ne→==,
}
use swe_daily_challenge.Coro.{
  Line, CoroState, ready, running, done, Code, printf, coro_yield, own_id, returns, Coroutine,
  Scheduler, lines_of, rest_of,
}
use swe_daily_challenge.Coro.Round.{yielded, finished}

-- The lines of coroutine `j` in the output.
abbrev pub printed_by : ℕ → List (ℕ × Line) → List Line
printed_by j [] = []
printed_by j ((c, l) ∷ out) = if c == j then l ∷ printed_by j out else printed_by j out

-- All that the code prints when it is run to its end.
abbrev pub trace : (id : ℕ) → Code → List Line
trace id (printf l k) = l ∷ trace id k
trace id (coro_yield k) = trace id k
trace id (own_id k) = trace id (k id)
trace id returns = []

abbrev pub to_print : CoroState → List Line → List Line
to_print ready ls = ls
to_print running ls = []
to_print done ls = []

abbrev pub entry_prints : Option Coroutine → List Line
entry_prints none = []
entry_prints (some e) = to_print e.state (trace e.id e.ctx)

-- What coroutine `j` has printed, and then what it has yet to print.
abbrev pub promise : ℕ → Scheduler → List Line
promise j s = printed_by j s.output ++ entry_prints (get_elem? s.coros j)

printed_by-append :
    (j : ℕ) (xs ys : List (ℕ × Line)) → printed_by j (xs ++ ys) ≡ printed_by j xs ++ printed_by j ys
printed_by-append j [] ys = refl
printed_by-append j ((c, l) ∷ xs) ys = ground (arith, printed_by-append j xs ys)

printed_by_other : (j c id : ℕ) (code : Code) → c ≢ j → printed_by j (lines_of c id code) ≡ []
unfolding lines_of
printed_by_other j c id (printf l k) h = simp (ne→== c j h, printed_by_other j c id k h) refl
printed_by_other j c id (coro_yield k) h = refl
printed_by_other j c id (own_id k) h = printed_by_other j c id (k id) h
printed_by_other j c id returns h = refl

trace_yield :
    (c id : ℕ) (code k : Code)
    → rest_of id code ≡ some k
    → printed_by c (lines_of c id code) ++ trace id k ≡ trace id code
unfolding lines_of rest_of
trace_yield c id (printf l code) k h = simp (eq→== c c refl, trace_yield c id code k h) refl
trace_yield c id (coro_yield code) k h = ap (trace id) (sym (some-injective code k h))
trace_yield c id (own_id f) k h = trace_yield c id (f id) k h
trace_yield c id returns k h = absurd (none-ne-some k h)

trace_return :
    (c id : ℕ) (code : Code)
    → rest_of id code ≡ none
    → printed_by c (lines_of c id code) ++ [] ≡ trace id code
unfolding lines_of rest_of
trace_return c id (printf l code) h = simp (eq→== c c refl, trace_return c id code h) refl
trace_return c id (coro_yield code) h = absurd (none-ne-some code (sym h))
trace_return c id (own_id f) h = trace_return c id (f id) h
trace_return c id returns h = refl

-- Coroutine `c` runs: its entry becomes `v`, and `ls` is printed.
after_own :
    (c : ℕ) (s : Scheduler) (e v : Coroutine) (ls : List (ℕ × Line))
    → get_elem? s.coros c ≡ some e
    → printed_by c ls ++ entry_prints (some v) ≡ entry_prints (some e)
    → printed_by c (s.output ++ ls) ++ entry_prints (some v) ≡ promise c s
after_own c s e v ls at h =
    simp (printed_by-append c s.output ls, at)
      (append_assoc (printed_by c s.output) (printed_by c ls) (entry_prints (some v))
        ∙ ap (◌++◌ (printed_by c s.output)) h)

after_other :
    (j c id : ℕ) (code : Code) (s : Scheduler) (v : Coroutine)
    → c ≢ j
    → printed_by j (s.output ++ lines_of c id code) ++ entry_prints (get_elem? (set s.coros c v) j)
      ≡ promise j s
after_other j c id code s v h =
    simp
      (
        printed_by-append j s.output (lines_of c id code),
        printed_by_other j c id code h,
        get_elem?-set_other s.coros c j v h,
        append-nil (printed_by j s.output),
      )
      refl

promise_own :
    (c : ℕ) (s : Scheduler) (e v : Coroutine)
    → get_elem? s.coros c ≡ some e
    → printed_by c (lines_of c e.id e.ctx) ++ entry_prints (some v) ≡ entry_prints (some e)
    → printed_by c (s.output ++ lines_of c e.id e.ctx)
        ++ entry_prints (get_elem? (set s.coros c v) c)
      ≡ promise c s
promise_own c s e v at h =
    ap
      (λ (o : Option Coroutine). printed_by c (s.output ++ lines_of c e.id e.ctx) ++ entry_prints o)
      (get_elem?-set s.coros c e v at)
    ∙ after_own c s e v (lines_of c e.id e.ctx) at h

promise_kept :
    (j c : ℕ) (s : Scheduler) (e v : Coroutine)
    → get_elem? s.coros c ≡ some e
    → printed_by c (lines_of c e.id e.ctx) ++ entry_prints (some v) ≡ entry_prints (some e)
    → printed_by j (s.output ++ lines_of c e.id e.ctx)
        ++ entry_prints (get_elem? (set s.coros c v) j)
      ≡ promise j s
promise_kept j c s e v at h = elim (ℕ_discrete c j) [
  | yes same ↦
      subst
        (λ (i : ℕ).
          printed_by i (s.output ++ lines_of c e.id e.ctx)
            ++ entry_prints (get_elem? (set s.coros c v) i)
          ≡ promise i s)
        same (promise_own c s e v at h)
  | no other ↦ after_other j c e.id e.ctx s v other
]

pub promise-yielded :
    (j c : ℕ) (s : Scheduler) (e : Coroutine) (k : Code)
    → get_elem? s.coros c ≡ some e
    → e.state ≡ ready
    → rest_of e.id e.ctx ≡ some k
    → promise j (yielded c e k s) ≡ promise j s
promise-yielded j c s e k at st r =
    promise_kept j c s e (record e { ctx = k; state = ready }) at
      (trace_yield c e.id e.ctx k r
        ∙ ap (λ (t : CoroState). to_print t (trace e.id e.ctx)) (sym st))

pub promise-finished :
    (j c : ℕ) (s : Scheduler) (e : Coroutine)
    → get_elem? s.coros c ≡ some e
    → e.state ≡ ready
    → rest_of e.id e.ctx ≡ none
    → promise j (finished c e s) ≡ promise j s
promise-finished j c s e at st r =
    promise_kept j c s e (record e { state = done }) at
      (trace_return c e.id e.ctx r ∙ ap (λ (t : CoroState). to_print t (trace e.id e.ctx)) (sym st))
