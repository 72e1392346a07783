-- ===== src/Reactor/Tests.antt =====
-- Runs of the reactor, and the theorems about it at concrete inputs.
use mathlib.Core.Bool.{false≢true}
use mathlib.Core.Option.{some-injective}
use swe_daily_challenge.Base.{
  ℕ, ◌≡◌, refl, sym, subst, true, false, some, List, [], ◌∷◌, ◌++◌, map, arith,
}
use swe_daily_challenge.Reactor.{
  accepted, no_more, would_block, end_of_stream, Event, Table, write, handle_client_data,
  event_loop, epoll_add, open_client,
}
use swe_daily_challenge.Reactor.Client.{delivered, whole, handle_client_data_echoes}
use swe_daily_challenge.Reactor.Descriptors.{AreNewIn}
use swe_daily_challenge.Reactor.Start.{
  Setup, Ended, exits, loops, make_nonblocking, reactor_main, reactor_main-Ended,
}

abbrev hi : List ℕ
hi = 104 ∷ 105 ∷ []

abbrev chunks : List (List ℕ)
chunks = (104 ∷ 105 ∷ []) ∷ (33 ∷ []) ∷ []

handle_client_data_echoes_example :
    (delivered (handle_client_data (map whole chunks ++ would_block ∷ [])) ≡ 104 ∷ 105 ∷ 33 ∷ [])
    × (handle_client_data (map whole chunks ++ would_block ∷ [])
        ≡ write (104 ∷ 105 ∷ []) (some 2) ∷ write (33 ∷ []) (some 1) ∷ [])
handle_client_data_echoes_example = handle_client_data_echoes chunks []

-- The listener is 3. Clients 5 and 6 connect, the second cannot be added; then 5 sends and leaves.
abbrev events : List Event
events =
    record {
      fd = 3;
      hup_or_err = false;
      accepts = accepted 5 true ∷ accepted 6 false ∷ no_more ∷ [];
      reads = [];
    }
    ∷ record {
      fd = 5;
      hup_or_err = false;
      accepts = [];
      reads = whole (33 ∷ []) ∷ end_of_stream ∷ [];
    }
    ∷ []

abbrev listening : Table
listening = record { opened = 3 ∷ []; watched = 3 ∷ [] }

after_events : event_loop 3 events listening ≡ listening
unfolding event_loop
after_events = refl

-- All calls of the start succeed.
abbrev starts : Setup
starts = record {
  socket = some 3;
  reuses = true;
  binds = true;
  listens = true;
  flags = some 2;
  sets_flags = true;
  epfd = some 4;
  adds = true;
}

nonblocking : make_nonblocking 2048 starts ≡ some 2050
unfolding make_nonblocking
nonblocking = refl

-- The port is taken: main returns, and the socket is left open.
port_taken :
    reactor_main 2048 (record starts { binds = false }) events
    ≡ exits (record { opened = 3 ∷ []; watched = [] })
unfolding reactor_main
port_taken = refl

-- The listener cannot be added: the loop starts all the same, and nothing is watched.
not_added :
    reactor_main 2048 (record starts { adds = false }) []
    ≡ loops (record { opened = 3 ∷ []; watched = [] })
unfolding reactor_main
not_added = refl

new_at_3 : AreNewIn 3 events listening
unfolding open_client epoll_add
new_at_3 = (((omega arith, tt), ((omega arith, (omega arith, tt)), tt)), (tt, tt))

new_in_events :
    (fd : ℕ)
    → some 3 ≡ some fd
    → AreNewIn fd events (record { opened = fd ∷ []; watched = fd ∷ [] })
new_in_events fd e =
    subst (λ k. AreNewIn k events (record { opened = k ∷ []; watched = k ∷ [] }))
      (some-injective 3 fd e) new_at_3

reactor_main-Ended_example : Ended starts (reactor_main 2048 starts events)
reactor_main-Ended_example =
    reactor_main-Ended 2048 starts events (λ e. absurd (false≢true (sym e))) new_in_events
