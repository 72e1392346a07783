-- ===== src/Reactor/Descriptors.antt =====
-- The table of descriptors under the event loop.
use swe_daily_challenge.Base.{
  ℕ, ◌≡◌, ◌≢◌, refl, ap, ◌∙◌, true, false, none, some, List, [], ◌∷◌, ◌==◌, eq→==, ne→==, inl, inr,
  Bool-cases,
}
use swe_daily_challenge.Reactor.{
  Accept, accepted, no_more, failed, Read, would_block, broken, end_of_stream, received, Event,
  Table, remove, epoll_del, close, open_client, epoll_add, handle_new_connection,
  handle_client_data, perform, dispatch, event_loop,
}

abbrev pub IsAbsent : ℕ → List ℕ → Type 0
IsAbsent fd [] = Unit
IsAbsent fd (x ∷ xs) = (x ≢ fd) × IsAbsent fd xs

remove_absent : (fd : ℕ) (xs : List ℕ) → IsAbsent fd xs → remove fd xs ≡ xs
unfolding remove
remove_absent fd [] h = refl
remove_absent fd (x ∷ xs) (ne, h) = simp (ne→== x fd ne) (ap (◌∷◌ x) (remove_absent fd xs h))

remove_head : (fd : ℕ) (xs : List ℕ) → IsAbsent fd xs → remove fd (fd ∷ xs) ≡ xs
unfolding remove
remove_head fd xs h = simp (eq→== fd fd refl) (remove_absent fd xs h)

-- accept4 returns descriptors that are not open.
abbrev pub AreNew : List Accept → Table → Type 0
AreNew [] t = Unit
AreNew (accepted c true ∷ rest) t =
    IsAbsent c t.opened × AreNew rest (epoll_add c (open_client c t))
AreNew (accepted c false ∷ rest) t = IsAbsent c t.opened × AreNew rest (close c (open_client c t))
AreNew (no_more ∷ rest) t = Unit
AreNew (failed ∷ rest) t = Unit

abbrev pub AreNewIn : ℕ → List Event → Table → Type 0
AreNewIn listenfd [] t = Unit
AreNewIn listenfd (e ∷ es) t = AreNew e.accepts t × AreNewIn listenfd es (dispatch listenfd e t)

handle_new_connection_keeps :
    (script : List Accept) (t : Table)
    → AreNew script t
    → t.opened ≡ t.watched
    → (handle_new_connection script t).opened ≡ (handle_new_connection script t).watched
unfolding handle_new_connection open_client epoll_add close
handle_new_connection_keeps [] t new h = h
handle_new_connection_keeps (accepted c true ∷ rest) t (new, news) h =
    handle_new_connection_keeps rest (epoll_add c (open_client c t)) news (ap (◌∷◌ c) h)
handle_new_connection_keeps (accepted c false ∷ rest) t (new, news) h =
    handle_new_connection_keeps rest (close c (open_client c t)) news
      (remove_head c t.opened new ∙ h)
handle_new_connection_keeps (no_more ∷ rest) t new h = h
handle_new_connection_keeps (failed ∷ rest) t new h = h

handle_client_data_keeps :
    (fd : ℕ) (script : List Read) (t : Table)
    → t.opened ≡ t.watched
    → (perform fd (handle_client_data script) t).opened
      ≡ (perform fd (handle_client_data script) t).watched
unfolding perform handle_client_data epoll_del close
handle_client_data_keeps fd [] t h = h
handle_client_data_keeps fd (would_block ∷ rest) t h = h
handle_client_data_keeps fd (broken ∷ rest) t h = ap (remove fd) h
handle_client_data_keeps fd (end_of_stream ∷ rest) t h = ap (remove fd) h
handle_client_data_keeps fd (received buf (some n) ∷ rest) t h =
    handle_client_data_keeps fd rest t h
handle_client_data_keeps fd (received buf none ∷ rest) t h = ap (remove fd) h

dispatch_keeps :
    (listenfd : ℕ) (e : Event) (t : Table)
    → AreNew e.accepts t
    → t.opened ≡ t.watched
    → (dispatch listenfd e t).opened ≡ (dispatch listenfd e t).watched
unfolding dispatch epoll_del close
dispatch_keeps listenfd e t new h = elim (Bool-cases e.hup_or_err) [
  | inl hup ↦ simp (dispatch, hup) (ap (remove e.fd) h)
  | inr no_hup ↦ elim (Bool-cases (e.fd == listenfd)) [
    | inl listener ↦
        simp (dispatch, no_hup, listener) (handle_new_connection_keeps e.accepts t new h)
    | inr client ↦ simp (dispatch, no_hup, client) (handle_client_data_keeps e.fd e.reads t h)
  ]
]

-- Whatever happens on the descriptors, an open one is watched and a watched one is open: none is
-- leaked, by an error of epoll_ctl or of a connection. The descriptors that accept4 returns are
-- new, and epoll_ctl removes a watched descriptor.
pub event_loop_keeps :
    (listenfd : ℕ) (es : List Event) (t : Table)
    → AreNewIn listenfd es t
    → t.opened ≡ t.watched
    → (event_loop listenfd es t).opened ≡ (event_loop listenfd es t).watched
unfolding event_loop
event_loop_keeps listenfd [] t new h = h
event_loop_keeps listenfd (e ∷ es) t (new, news) h =
    event_loop_keeps listenfd es (dispatch listenfd e t) news (dispatch_keeps listenfd e t new h)
