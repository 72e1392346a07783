-- ===== src/Coro/Round.antt =====
-- One round of the while loop of scheduler_run, as one change of the globals.
use swe_daily_challenge.Base.{
  ℕ, suc, ◌≡◌, refl, true, none, some, ◌++◌, get_elem?, set, get_elem?-set, set-set,
}
use swe_daily_challenge.Coro.{
  Code, Coroutine, ready, running, done, Scheduler, lines_of, rest_of, switch_to, come_back,
  set_state, finish_trampoline, settle, done_spawn, pick, round,
}

-- The coroutine runs and yields, or runs and returns.
abbrev pub yielded : ℕ → Coroutine → Code → Scheduler → Scheduler
yielded c e k s = record s {
  coros = set s.coros c (record e { ctx = k; state = ready });
  current = some c;
  output = s.output ++ lines_of c e.id e.ctx;
}

abbrev pub finished : ℕ → Coroutine → Scheduler → Scheduler
finished c e s = record s {
  coros = set s.coros c (record e { state = done });
  current = some c;
  output = s.output ++ lines_of c e.id e.ctx;
}

pub round_yields :
    (completed c : ℕ) (e : Coroutine) (k : Code) (s : Scheduler)
    → pick s ≡ some c
    → get_elem? s.coros c ≡ some e
    → rest_of e.id e.ctx ≡ some k
    → round completed s ≡ some (completed, yielded c e k s)
unfolding round set_state switch_to come_back settle
round_yields completed c e k s p at r =
    simp
      (
        p,
        at,
        get_elem?-set s.coros c e (record e { state = running }) at,
        r,
        set-set s.coros c (record e { state = running }) (record e { ctx = k; state = running }),
        get_elem?-set s.coros c e (record e { ctx = k; state = running }) at,
        set-set s.coros c (record e { ctx = k; state = running })
            (record e { ctx = k; state = ready }),
      )
      refl

pub round_returns :
    (completed c : ℕ) (e : Coroutine) (s : Scheduler)
    → pick s ≡ some c
    → get_elem? s.coros c ≡ some e
    → rest_of e.id e.ctx ≡ none
    → s.done_armed ≡ true
    → round completed s ≡ some (suc completed, finished c e s)
unfolding round set_state switch_to come_back settle finish_trampoline done_spawn
round_returns completed c e s p at r armed =
    simp
      (
        p,
        at,
        get_elem?-set s.coros c e (record e { state = running }) at,
        r,
        armed,
        set-set s.coros c (record e { state = running }) (record e { state = done }),
        get_elem?-set s.coros c e (record e { state = done }) at,
      )
      refl
