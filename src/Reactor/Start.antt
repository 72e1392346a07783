-- ===== src/Reactor/Start.antt =====
-- The start of 06-epoll_reactor/reactor.c, up to the loop and through it.
use Prim.Native.Nat.{bit_or}
use swe_daily_challenge.Base.{
  ℕ, ◌≡◌, refl, Bool, true, false, Option, none, some, List, [], ◌∷◌, ◌&&◌, if◌then◌else◌,
}
use swe_daily_challenge.Reactor.{Event, Table, epoll_add, event_loop}
use swe_daily_challenge.Reactor.Descriptors.{AreNewIn, event_loop_keeps}

-- What the calls of the start return, none and false for -1.
pub record Setup : Type 0 where
  pub socket : Option ℕ
  pub reuses : Bool
  pub binds : Bool
  pub listens : Bool
  pub flags : Option ℕ
  pub sets_flags : Bool
  pub epfd : Option ℕ
  pub adds : Bool

-- `make_nonblocking`, with the flags that the descriptor has behind it; O_NONBLOCK is an argument.
unfoldable pub make_nonblocking : (o_nonblock : ℕ) → Setup → Option ℕ
make_nonblocking o_nonblock s = elim s.flags [
  | none ↦ none
  | some flag ↦ if s.sets_flags then some (bit_or flag o_nonblock) else none
]

-- The descriptor, or none for -1, and the descriptors that are open.
unfoldable pub create_listen_socket : (o_nonblock : ℕ) → Setup → Option ℕ × List ℕ
unfolding make_nonblocking
create_listen_socket o_nonblock s = elim s.socket [
  | none ↦ (none, [])
  | some fd ↦
      if s.reuses
      then if s.binds
        then if s.listens
          then elim (make_nonblocking o_nonblock s) [
            | none ↦ (none, fd ∷ [])
            | some flags ↦ (some fd, fd ∷ [])
          ]
          else (none, fd ∷ [])
        else (none, fd ∷ [])
      else (none, fd ∷ [])
]

-- main returns 1, or is in its loop; the descriptor of the epoll instance is not in the table.
pub data Main : Type 0 where
  exits loops : Table → Main

unfoldable pub start_loop : Setup → List Event → Option ℕ × List ℕ → Main
unfolding event_loop
start_loop s events (none, opened) = exits (record { opened = opened; watched = [] })
start_loop s events (some listenfd, opened) = elim s.epfd [
  | none ↦ exits (record { opened = opened; watched = [] })
  | some epfd ↦ loops (
      event_loop listenfd events (
        if s.adds
        then epoll_add listenfd (record { opened = opened; watched = [] })
        else record { opened = opened; watched = [] }))
]

unfoldable pub reactor_main : (o_nonblock : ℕ) → Setup → List Event → Main
unfolding create_listen_socket start_loop
reactor_main o_nonblock s events = start_loop s events (create_listen_socket o_nonblock s)

-- The descriptors that main has opened by its first call.
abbrev pub sockets : Setup → List ℕ
sockets s = elim s.socket [ none ↦ [] | some fd ↦ fd ∷ [] ]

abbrev pub is_some : Option ℕ → Bool
is_some none = false
is_some (some n) = true

-- Whether every call of the start succeeds after which main would return.
unfoldable pub is_ready : Setup → Bool
is_ready s =
    is_some s.socket
    && (s.reuses
        && (s.binds && (s.listens && (is_some s.flags && (s.sets_flags && is_some s.epfd)))))

-- What main is to come to. It returns exactly where one of these calls fails, with the socket left
-- open, if there is one, and nothing watched. Else it is in its loop: the open descriptors are the
-- watched ones, or, where the listener could not be added, it alone is open and nothing is watched.
unfoldable pub Ended : Setup → Main → Type 0
unfolding is_ready
Ended s (exits t) = (is_ready s ≡ false) × (t.opened ≡ sockets s) × (t.watched ≡ [])
Ended s (loops t) =
    (is_ready s ≡ true)
    × (if s.adds then t.opened ≡ t.watched else ((t.opened ≡ sockets s) × (t.watched ≡ [])))

module _ (o_nonblock : ℕ) (events : List Event) where
  -- The start, with the results of its calls one by one.
  calls_lem :
      (socket : Option ℕ) (reuses binds listens : Bool) (flags : Option ℕ) (sets_flags : Bool)
      (epfd : Option ℕ) (adds : Bool)
      → (adds ≡ false → events ≡ [])
      → ((fd : ℕ)
          → socket ≡ some fd
          → AreNewIn fd events (record { opened = fd ∷ []; watched = fd ∷ [] }))
      → let s : Setup = record {
        socket = socket;
        reuses = reuses;
        binds = binds;
        listens = listens;
        flags = flags;
        sets_flags = sets_flags;
        epfd = epfd;
        adds = adds;
      } in
        Ended s (reactor_main o_nonblock s events)
  unfolding reactor_main create_listen_socket make_nonblocking start_loop event_loop epoll_add Ended
      is_ready
  calls_lem none r b l f sf e a quiet new = (refl, refl, refl)
  calls_lem (some fd) false b l f sf e a quiet new = (refl, refl, refl)
  calls_lem (some fd) true false l f sf e a quiet new = (refl, refl, refl)
  calls_lem (some fd) true true false f sf e a quiet new = (refl, refl, refl)
  calls_lem (some fd) true true true none sf e a quiet new = (refl, refl, refl)
  calls_lem (some fd) true true true (some f) false e a quiet new = (refl, refl, refl)
  calls_lem (some fd) true true true (some f) true none a quiet new = (refl, refl, refl)
  calls_lem (some fd) true true true (some f) true (some e) true quiet new = (
    refl,
    event_loop_keeps fd events (record { opened = fd ∷ []; watched = fd ∷ [] }) (new fd refl) refl,
  )
  calls_lem (some fd) true true true (some f) true (some e) false quiet new =
      (refl, rw (quiet refl) (refl, refl))

-- Whatever the calls of the start return, and whatever happens on the descriptors, main comes to
-- what is said of it above. The descriptors that accept4 returns are new, epoll_ctl removes a
-- watched descriptor, and epoll_wait reports nothing where the listener is not watched.
pub reactor_main-Ended :
    (o_nonblock : ℕ) (s : Setup) (events : List Event)
    → (s.adds ≡ false → events ≡ [])
    → ((fd : ℕ)
        → s.socket ≡ some fd
        → AreNewIn fd events (record { opened = fd ∷ []; watched = fd ∷ [] }))
    → Ended s (reactor_main o_nonblock s events)
reactor_main-Ended o_nonblock s events =
    calls_lem o_nonblock events s.socket s.reuses s.binds s.listens s.flags s.sets_flags s.epfd
      s.adds
