-- ===== src/Reactor.antt =====
-- The handlers of 06-epoll_reactor/reactor.c over scripts of what the system calls return.
pub mod Client
pub mod Descriptors
pub mod Start
pub mod Tests
use swe_daily_challenge.Base.{
  ℕ, Bool, true, false, not, Option, none, some, List, [], ◌∷◌, ◌++◌, ◌==◌, if◌then◌else◌,
}

-- What accept4 returns: a new descriptor, with whether epoll_ctl adds it; no more connections
-- (EAGAIN), or another error.
pub data Accept : Type 0 where
  accepted : (clientfd : ℕ) → (added : Bool) → Accept
  no_more failed : Accept

-- What read returns: EAGAIN, another error, the end of the stream, or bytes. To these belongs what
-- the write returns that follows: the number of bytes written, or none for -1.
pub data Read : Type 0 where
  would_block broken end_of_stream : Read
  received : List ℕ → Option ℕ → Read

-- An entry of `events`: the descriptor, whether EPOLLHUP or EPOLLERR is set, and what accept4 or
-- read return to the handler.
pub record Event : Type 0 where
  pub fd : ℕ
  pub hup_or_err : Bool
  pub accepts : List Accept
  pub reads : List Read

-- The descriptors that are open, and those that epoll watches.
pub record Table : Type 0 where
  pub opened : List ℕ
  pub watched : List ℕ

unfoldable pub remove : ℕ → List ℕ → List ℕ
remove fd [] = []
remove fd (x ∷ xs) = if x == fd then remove fd xs else x ∷ remove fd xs

-- `epoll_ctl(epfd, EPOLL_CTL_DEL, fd, NULL)`
unfoldable pub epoll_del : ℕ → Table → Table
unfolding remove
epoll_del fd t = record t { watched = remove fd t.watched }

unfoldable pub close : ℕ → Table → Table
unfolding remove
close fd t = record t { opened = remove fd t.opened }

unfoldable pub open_client : ℕ → Table → Table
open_client fd t = record t { opened = fd ∷ t.opened }

-- `epoll_ctl(epfd, EPOLL_CTL_ADD, clientfd, &ev)`, where it succeeds.
unfoldable pub epoll_add : ℕ → Table → Table
epoll_add fd t = record t { watched = fd ∷ t.watched }

-- The loop of handle_new_connection. A script that stops is a loop that is still running.
unfoldable pub handle_new_connection : List Accept → Table → Table
unfolding open_client epoll_add close
handle_new_connection [] t = t
handle_new_connection (accepted c true ∷ rest) t =
    handle_new_connection rest (epoll_add c (open_client c t))
handle_new_connection (accepted c false ∷ rest) t =
    handle_new_connection rest (close c (open_client c t))
handle_new_connection (no_more ∷ rest) t = t
handle_new_connection (failed ∷ rest) t = t

-- The calls of the loop of handle_client_data that have an effect.
pub data Call : Type 0 where
  write : List ℕ → Option ℕ → Call
  deregister hang_up : Call

unfoldable pub handle_client_data : List Read → List Call
handle_client_data [] = []
handle_client_data (would_block ∷ rest) = []
handle_client_data (broken ∷ rest) = deregister ∷ hang_up ∷ []
handle_client_data (end_of_stream ∷ rest) = deregister ∷ hang_up ∷ []
handle_client_data (received buf (some n) ∷ rest) = write buf (some n) ∷ handle_client_data rest
handle_client_data (received buf none ∷ rest) = write buf none ∷ deregister ∷ hang_up ∷ []

-- What the calls do to the table.
unfoldable pub perform : ℕ → List Call → Table → Table
unfolding epoll_del close
perform fd [] t = t
perform fd (write buf n ∷ calls) t = perform fd calls t
perform fd (deregister ∷ calls) t = perform fd calls (epoll_del fd t)
perform fd (hang_up ∷ calls) t = perform fd calls (close fd t)

-- The body of main's loop over the events.
unfoldable pub dispatch : (listenfd : ℕ) → Event → Table → Table
unfolding perform handle_client_data handle_new_connection
dispatch listenfd e t = elim e.hup_or_err [
  | true ↦ close e.fd (epoll_del e.fd t)
  | false ↦ elim (e.fd == listenfd) [
    | true ↦ handle_new_connection e.accepts t
    | false ↦ perform e.fd (handle_client_data e.reads) t
  ]
]

unfoldable pub event_loop : (listenfd : ℕ) → List Event → Table → Table
unfolding dispatch
event_loop listenfd [] t = t
event_loop listenfd (e ∷ es) t = event_loop listenfd es (dispatch listenfd e t)
