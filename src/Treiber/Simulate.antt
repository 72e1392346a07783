-- ===== src/Treiber/Simulate.antt =====
-- Every move of a thread against the atomic stack.
use swe_daily_challenge.Base.{
  ℕ, ◌≡◌, refl, sym, ap, ◌∙◌, subst, Option, none, some, List, [], ◌∷◌, inl, inr, ◌==◌, eq→==,
  ne→==,
}
use swe_daily_challenge.Treiber.{
  update, Node, node, Memory, Pc, idle, push_linked, pop_start, pop_next, retire_start,
  retire_loaded, retire_linked, Event, empty_returns, look_empty, push_loaded, Move, new_node,
  push_load, link, push_win, push_lose, enter_pop, pop_load, pop_empty, read_next, pop_win,
  pop_lose, read_value, trash_load, retire_link, retire_win, retire_lose, System,
}
use swe_daily_challenge.Treiber.Spec.{
  outside, popping, found, Atomic, becomes, AtomicStep, nothing, call_pop, return_pop, look, is_nil,
}
use swe_daily_challenge.Treiber.Invariant.{Role, held_by, taken_by, Chain, Thread, owned, StandsFor}
use swe_daily_challenge.Treiber.Frame.{update_same, hold, keep}
use swe_daily_challenge.Treiber.Ledger.{
  held_not_stacked, taken_not_stacked, held_not_retired, taken_not_retired, holds-mine, takes-mine,
  not_null,
}
use swe_daily_challenge.Treiber.Settle.{looks, looks_and_becomes}
use swe_daily_challenge.Treiber.Moves.{
  Matched, value_of, load_head, take_head, make_node, write_next, wrote_node, put_head, put_trash,
}

is_nil-head :
    {A : Type 0} (role : ℕ → Role) (heap : ℕ → Option (Node A)) (vs : List A) (h : ℕ)
    → Chain role heap h vs
    → (h == 0) ≡ is_nil vs
is_nil-head role heap [] h null = eq→== h 0 null
is_nil-head role heap (v ∷ vs) h (n, nz, at, here, rest) = ne→== h 0 nz

module _ {A : Type 0} (s : System A) (a : Atomic A) (inv : StandsFor s a) (i : ℕ) where
  pub simulate :
      {e : Event A} {pc pc' : Pc A} {m' : Memory A}
      → owned (s.pc i) ≡ owned pc
      → Move s.mem pc e m' pc'
      → Thread inv.role s.mem.heap i (a.status i) pc
      → Matched s a inv i e (record { mem = m'; pc = update s.pc i pc' })
  simulate at (new_node v p nz free) own = make_node s a inv i v p nz free at own
  simulate at (push_load {p}) own = (a, nothing, looks s a inv i (push_loaded p _) (sym at) own)
  simulate at (link {p} {h} x there) (v, n, nz, held, here, call) =
      write_next s a inv i p h (held_by i) x (push_linked p h) held hold (λ d. held_not_stacked)
        held_not_retired nz (holds-mine inv.role s.mem s.pc inv.account i (push_linked p h) p at)
        (ap owned (update_same s.pc i (push_linked p h)))
        (v, nz, update_same inv.role p (held_by i), wrote_node s a inv i p h n v x there here, call)
  simulate at (push_win {p} {h} same) (v, nz, held, here, call) =
      put_head s a inv i p h v same nz held here at call
  simulate at (push_lose {p}) (v, nz, held, here, call) =
      (a, nothing, looks s a inv i (push_loaded p _) (sym at) (v, _, nz, held, here, call))
  simulate at look_empty own = (
    a,
    subst (λ b. AtomicStep a i (empty_returns b) a)
        (sym (is_nil-head inv.role s.mem.heap a.stack s.mem.head inv.chain)) (look own),
    looks s a inv i idle (sym at) own,
  )
  simulate at enter_pop own = (
    becomes a i a.stack popping,
    call_pop own,
    looks_and_becomes s a inv i pop_start popping (sym at) refl,
  )
  simulate at pop_load own = load_head s a inv i a.stack at refl inv.chain own
  simulate at (pop_empty null) (inl (z, call)) = (
    becomes a i a.stack outside,
    return_pop none call,
    looks_and_becomes s a inv i idle outside (sym at) refl,
  )
  simulate at (pop_empty null) (inr (x, nz, shared, here, call)) = absurd (nz null)
  simulate at (read_next x nz there) (inl (z, call)) = absurd (nz z)
  simulate at (read_next {h} x nz there) (inr (y, nz', shared, there', call)) = (
    a,
    nothing,
    looks s a inv i (pop_next h x.next) (sym at) (shared, (λ d e. (x.value, there)), nz, call),
  )
  simulate at (pop_win {h} {n} same) own =
      take_head s a inv i h n a.stack at same refl inv.chain own
  simulate at pop_lose (shared, next, nz, call) = load_head s a inv i a.stack at refl inv.chain call
  simulate at (read_value {h} x there) (v, (n, taken, here, call)) = (
    a,
    nothing,
    looks s a inv i (retire_start h x.value) (sym at)
        (n, taken, here ∙ ap (λ w. some (node w n)) same, call ∙ ap (λ w. found (some w)) same),
  )
    where
      same : v ≡ x.value
      same = ap (λ (y : Node A). y.value) (value_of here there)
  simulate at (trash_load {h} {v}) own =
      (a, nothing, looks s a inv i (retire_loaded h v s.mem.trash) (sym at) own)
  simulate at (retire_link {h} {t} {v} x there) (n, taken, here, call) =
      write_next s a inv i h t (taken_by i) x (retire_linked h v t) taken keep
        (λ d. taken_not_stacked) taken_not_retired
        (not_null inv.role s.mem s.pc inv.account i (retire_linked h v t) h x there)
        (takes-mine inv.role s.mem s.pc inv.account i (retire_linked h v t) h at)
        (ap owned (update_same s.pc i (retire_linked h v t)))
        (update_same inv.role h (taken_by i), wrote_node s a inv i h t n v x there here, call)
  simulate at (retire_win {h} {t} {v} same) own = put_trash s a inv i h t v same at own
  simulate at (retire_lose {h} {t} {v}) (taken, here, call) =
      (a, nothing, looks s a inv i (retire_loaded h v s.mem.trash) (sym at) (t, taken, here, call))
