-- ===== src/Treiber/Moves.antt =====
-- Each move of a thread against the atomic stack.
use mathlib.Core.Option.{some-injective}
use swe_daily_challenge.Base.{
  ℕ, ◌≡◌, ◌≢◌, refl, sym, ap, ◌∙◌, subst, Option, none, some, List, [], ◌∷◌, length, inl, inr, ◌⊎◌,
  arith,
}
use swe_daily_challenge.Treiber.{
  update, Node, node, Memory, set_next, Pc, idle, push_start, pop_loaded, pop_next, popped,
  retire_linked, Event, internal, calls_push, push_returns, pop_returns, System,
}
use swe_daily_challenge.Treiber.Spec.{
  outside, pushing, popping, found, Atomic, becomes, AtomicStep, nothing, call_push, push, pop,
  pop_nothing, return_pop,
}
use swe_daily_challenge.Treiber.Invariant.{
  Role, unused, held_by, stacked, taken_by, retired, IsShared, Chain, Thread, owns_nothing, holds,
  takes, owned, Placed, StandsFor,
}
use swe_daily_challenge.Treiber.Frame.{
  update_same, update_other, Change, make, publish, take, retire,
}
use swe_daily_challenge.Treiber.Ledger.{
  held_not_stacked, taken_not_stacked, unused_not_stacked, unused_not_retired, nothing-mine,
  Account-writes, Account-publishes, Account-retires, Account-takes,
}
use swe_daily_challenge.Treiber.Settle.{
  looks, looks_and_becomes, changes, changes_and_becomes, Chain-after,
}

stacked_inj : {d e : ℕ} → stacked d ≡ stacked e → d ≡ e
stacked_inj h = cc

pub value_of : {A : Type 0} {x y : Node A} {o : Option (Node A)} → o ≡ some x → o ≡ some y → x ≡ y
value_of {x} {y} h h' = some-injective x y (sym h ∙ h')

module _ {A : Type 0} (s : System A) (a : Atomic A) (inv : StandsFor s a) (i : ℕ) where
  -- The atomic stack makes the step that the move stands for.
  abbrev pub Matched : Event A → System A → Type 0
  Matched e t = (b : Atomic A) × AtomicStep a i e b × StandsFor t b

  -- A load of `head` in pop: it finds the stack empty, or an address that others know.
  pub load_head :
      (vs : List A)
      → owned (s.pc i) ≡ owns_nothing
      → a.stack ≡ vs
      → Chain inv.role s.mem.heap s.mem.head vs
      → a.status i ≡ popping
      → Matched internal (record { mem = s.mem; pc = update s.pc i (pop_loaded s.mem.head) })
  load_head [] own same null call = (
    becomes a i a.stack (found none),
    pop_nothing call same,
    looks_and_becomes s a inv i (pop_loaded s.mem.head) (found none) (sym own) (inl (null, refl)),
  )
  load_head (v ∷ vs) own same (n, nz, at, here, rest) call = (
    a,
    nothing,
    looks s a inv i (pop_loaded s.mem.head) (sym own)
        (inr (node v n, nz, subst IsShared (sym at) tt, here, call)),
  )

  -- The exchange of `head` in pop takes out the node that it was read from.
  pub take_head :
      (h n : ℕ) (vs : List A)
      → owned (s.pc i) ≡ owns_nothing
      → s.mem.head ≡ h
      → a.stack ≡ vs
      → Chain inv.role s.mem.heap s.mem.head vs
      → Thread inv.role s.mem.heap i (a.status i) (pop_next h n)
      → Matched internal (record { mem = record s.mem { head = n }; pc = update s.pc i (popped h) })
  take_head h n [] own same_h same null (shared, next, nz, call) = absurd (nz (sym same_h ∙ null))
  take_head h n (v ∷ vs) own same_h same (n', nz', at, here, rest) (shared, next, nz, call) = (
    becomes a i vs (found (some v)),
    pop v vs call same,
    changes_and_becomes s a inv i h (record s.mem { head = n }) (stacked (length vs)) (taken_by i)
        at_h (take (length vs)) (node v n', here_h) (λ q ne. refl) (popped h) vs (found (some v))
        (Chain-after s a inv i h (record s.mem { head = n }) (stacked (length vs)) (taken_by i) at_h
          (take (length vs)) (node v n', here_h) (λ q ne. refl) n vs
          (λ d lt e. absurd (omega (arith, stacked_inj e)))
          (subst (λ k. Chain inv.role s.mem.heap k vs) same_next rest))
        (v, (n', update_same inv.role h (taken_by i), here_h, refl))
        (Account-takes inv.role s.mem s.pc inv.account i (popped h) h (length vs) n v at_h same_h
          (here_h ∙ ap (λ k. some (node v k)) same_next) own refl),
  )
    where
      at_h : inv.role h ≡ stacked (length vs)
      at_h = ap inv.role (sym same_h) ∙ at

      here_h : s.mem.heap h ≡ some (node v n')
      here_h = ap s.mem.heap (sym same_h) ∙ here

      same_next : n' ≡ n
      same_next = ap (λ (x : Node A). x.next) (value_of here_h (next (length vs) at_h).1)

  pub make_node :
      (v : A) (p : ℕ)
      → p ≢ 0
      → s.mem.heap p ≡ none
      → owned (s.pc i) ≡ owns_nothing
      → a.status i ≡ outside
      → Matched (calls_push v) (record {
        mem = record s.mem { heap = update s.mem.heap p (some (node v 0)) };
        pc = update s.pc i (push_start p);
      })
  make_node v p nz free own call = (
    becomes a i a.stack (pushing v),
    call_push v call,
    changes_and_becomes s a inv i p m' unused (held_by i) (inv.unborn p free) make (node v 0, made)
        (λ q ne. update_other s.mem.heap p q (some (node v 0)) ne) (push_start p) a.stack
        (pushing v)
        (Chain-after s a inv i p m' unused (held_by i) (inv.unborn p free) make (node v 0, made)
          (λ q ne. update_other s.mem.heap p q (some (node v 0)) ne) s.mem.head a.stack
          (λ d lt. unused_not_stacked) inv.chain)
        (v, 0, nz, update_same inv.role p (held_by i), made, refl)
        (Account-writes inv.role s.mem s.pc inv.account i (push_start p) p unused (held_by i)
          m'.heap (inv.unborn p free) (λ d. unused_not_stacked) unused_not_retired nz
          (λ q ne. update_other s.mem.heap p q (some (node v 0)) ne)
          (nothing-mine inv.role s.mem s.pc inv.account i (push_start p) p own)
          (ap owned (update_same s.pc i (push_start p)))),
  )
    where
      m' : Memory A
      m' = record s.mem { heap = update s.mem.heap p (some (node v 0)) }

      made : update s.mem.heap p (some (node v 0)) p ≡ some (node v 0)
      made = update_same s.mem.heap p (some (node v 0))

  -- A write of `next` at a node that is the thread's own.
  pub write_next :
      (p t : ℕ) (r : Role) (x : Node A) (pc' : Pc A)
      → inv.role p ≡ r
      → Change i r r
      → ((d : ℕ) → r ≢ stacked d)
      → r ≢ retired
      → p ≢ 0
      → ((q : ℕ) → (owned (s.pc i) ≡ holds q) ⊎ (owned (s.pc i) ≡ takes q) → p ≡ q)
      → Placed (set_next p t x s.mem).heap (update s.pc i pc') inv.account.xs inv.account.ts p r
      → Thread (update inv.role p r) (set_next p t x s.mem).heap i (a.status i) pc'
      → Matched internal (record { mem = set_next p t x s.mem; pc = update s.pc i pc' })
  write_next p t r x pc' at_p change low other_list nz mine here own = (
    a,
    nothing,
    changes s a inv i p (set_next p t x s.mem) r r at_p change (node x.value t, wrote) other pc'
        a.stack a.status (a.status i) refl (λ j ne. refl)
        (Chain-after s a inv i p (set_next p t x s.mem) r r at_p change (node x.value t, wrote)
          other s.mem.head a.stack (λ d lt. low d) inv.chain)
        own
        (Account-writes inv.role s.mem s.pc inv.account i pc' p r r (set_next p t x s.mem).heap at_p
          low other_list nz other mine here),
  )
    where
      wrote : (set_next p t x s.mem).heap p ≡ some (node x.value t)
      wrote = update_same s.mem.heap p (some (node x.value t))

      other : (q : ℕ) → p ≢ q → (set_next p t x s.mem).heap q ≡ s.mem.heap q
      other q ne = update_other s.mem.heap p q (some (node x.value t)) ne

  -- After it the node is known with its value and its new `next`.
  pub wrote_node :
      (p t n : ℕ) (v : A) (x : Node A)
      → s.mem.heap p ≡ some x
      → s.mem.heap p ≡ some (node v n)
      → (set_next p t x s.mem).heap p ≡ some (node v t)
  wrote_node p t n v x at here =
      update_same s.mem.heap p (some (node x.value t))
      ∙ ap (λ (y : Node A). some (node y.value t)) (value_of at here)

  pub put_head :
      (p h : ℕ) (v : A)
      → s.mem.head ≡ h
      → p ≢ 0
      → inv.role p ≡ held_by i
      → s.mem.heap p ≡ some (node v h)
      → owned (s.pc i) ≡ holds p
      → a.status i ≡ pushing v
      → Matched push_returns (record { mem = record s.mem { head = p }; pc = update s.pc i idle })
  put_head p h v same nz held here own call = (
    becomes a i (v ∷ a.stack) outside,
    push v call,
    changes_and_becomes s a inv i p (record s.mem { head = p }) (held_by i)
        (stacked (length a.stack)) held (publish (length a.stack)) (node v h, here) (λ q ne. refl)
        idle (v ∷ a.stack) outside
        (h, nz, update_same inv.role p (stacked (length a.stack)), here, below) refl
        (Account-publishes inv.role s.mem s.pc inv.account i idle p (length a.stack) v held
          (here ∙ ap (λ k. some (node v k)) (sym same)) own),
  )
    where
      below : Chain (update inv.role p (stacked (length a.stack))) s.mem.heap h a.stack
      below =
          Chain-after s a inv i p (record s.mem { head = p }) (held_by i) (stacked (length a.stack))
            held (publish (length a.stack)) (node v h, here) (λ q ne. refl) h a.stack
            (λ d lt. held_not_stacked)
            (subst (λ k. Chain inv.role s.mem.heap k a.stack) same inv.chain)

  pub put_trash :
      (h t : ℕ) (v : A)
      → s.mem.trash ≡ t
      → owned (s.pc i) ≡ takes h
      → Thread inv.role s.mem.heap i (a.status i) (retire_linked h v t)
      → Matched
          (pop_returns (some v))
          (record { mem = record s.mem { trash = h }; pc = update s.pc i idle })
  put_trash h t v same own (taken, here, call) = (
    becomes a i a.stack outside,
    return_pop (some v) call,
    changes_and_becomes s a inv i h (record s.mem { trash = h }) (taken_by i) retired taken retire
        (node v t, here) (λ q ne. refl) idle a.stack outside
        (Chain-after s a inv i h (record s.mem { trash = h }) (taken_by i) retired taken retire
          (node v t, here) (λ q ne. refl) s.mem.head a.stack (λ d lt. taken_not_stacked) inv.chain)
        refl
        (Account-retires inv.role s.mem s.pc inv.account i idle h v taken
          (here ∙ ap (λ k. some (node v k)) (sym same)) own),
  )
