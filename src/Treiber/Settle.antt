-- ===== src/Treiber/Settle.antt =====
-- The state after a move of one thread.
use mathlib.Core.Option.{none-ne-some}
use native.Mathlib.Decide.{ℕ_discrete}
use swe_daily_challenge.Base.{ℕ, ◌≡◌, ◌≢◌, ◌<◌, refl, sym, ap, ◌∙◌, subst, none, some, List, length}
use swe_daily_challenge.Treiber.{update, Node, Memory, Pc, System}
use swe_daily_challenge.Treiber.Spec.{Status, Atomic, becomes}
use swe_daily_challenge.Treiber.Invariant.{
  Role, unused, stacked, Chain, Thread, owned, Account, StandsFor,
}
use swe_daily_challenge.Treiber.Account.{Account-looks}
use swe_daily_challenge.Treiber.Frame.{update_same, update_other, Change, Thread-still, Chain-still}

module _ {A : Type 0} (s : System A) (a : Atomic A) (inv : StandsFor s a) (i : ℕ) where
  -- The state after a move of thread `i`, from its parts.
  settle :
      (role' : ℕ → Role) (m' : Memory A) (pc' : Pc A) (vs : List A) (status' : ℕ → Status A)
      (st' : Status A)
      → status' i ≡ st'
      → ((j : ℕ) → i ≢ j → status' j ≡ a.status j)
      → Chain role' m'.heap m'.head vs
      → Thread role' m'.heap i st' pc'
      → ((j : ℕ) (st : Status A) (pc : Pc A)
          → i ≢ j
          → Thread inv.role s.mem.heap j st pc
          → Thread role' m'.heap j st pc)
      → ((p : ℕ) → m'.heap p ≡ none → role' p ≡ unused)
      → Account role' m' (update s.pc i pc')
      → StandsFor
          (record { mem = m'; pc = update s.pc i pc' })
          (record { stack = vs; status = status' })
  settle role' m' pc' vs status' st' own_st other_st chain own others unborn acc = record {
    role = role';
    chain = chain;
    threads = λ j. elim (ℕ_discrete i j) [
      | yes same ↦
          subst (λ (k : ℕ). Thread role' m'.heap k (status' k) (update s.pc i pc' k)) same
            (subst (λ pc. Thread role' m'.heap i (status' i) pc) (sym (update_same s.pc i pc'))
              (subst (λ st. Thread role' m'.heap i st pc') (sym own_st) own))
      | no other ↦
          subst (λ pc. Thread role' m'.heap j (status' j) pc)
            (sym (update_other s.pc i j pc' other))
            (subst (λ st. Thread role' m'.heap j st (s.pc j)) (sym (other_st j other))
              (others j (a.status j) (s.pc j) other (inv.threads j)))
    ];
    account = acc;
    unborn = unborn;
  }

  -- A move that leaves the memory as it is.
  pub looks :
      (pc' : Pc A)
      → owned pc' ≡ owned (s.pc i)
      → Thread inv.role s.mem.heap i (a.status i) pc'
      → StandsFor (record { mem = s.mem; pc = update s.pc i pc' }) a
  looks pc' same own =
      settle inv.role s.mem pc' a.stack a.status (a.status i) refl (λ j ne. refl) inv.chain own
        (λ j st pc ne h. h) inv.unborn (Account-looks inv.role s.mem s.pc inv.account i pc' same)

  pub looks_and_becomes :
      (pc' : Pc A) (st' : Status A)
      → owned pc' ≡ owned (s.pc i)
      → Thread inv.role s.mem.heap i st' pc'
      → StandsFor (record { mem = s.mem; pc = update s.pc i pc' }) (becomes a i a.stack st')
  looks_and_becomes pc' st' same own =
      settle inv.role s.mem pc' a.stack (update a.status i st') st' (update_same a.status i st')
        (λ j ne. update_other a.status i j st' ne) inv.chain own (λ j st pc ne h. h) inv.unborn
        (Account-looks inv.role s.mem s.pc inv.account i pc' same)

  -- A move that changes the node at `p`, to role `r'`.
  module _ (p : ℕ) (m' : Memory A) (r r' : Role) (at_p : inv.role p ≡ r) (change : Change i r r')
      (lives : (x : Node A) × (m'.heap p ≡ some x))
      (elsewhere : (q : ℕ) → p ≢ q → m'.heap q ≡ s.mem.heap q) where
    abbrev role_after : ℕ → Role
    role_after = update inv.role p r'

    both_elsewhere : (q : ℕ) → p ≢ q → (role_after q ≡ inv.role q) × (m'.heap q ≡ s.mem.heap q)
    both_elsewhere q ne = (update_other inv.role p q r' ne, elsewhere q ne)

    unborn_after : (q : ℕ) → m'.heap q ≡ none → role_after q ≡ unused
    unborn_after q h = elim (ℕ_discrete p q) [
      | yes same ↦ absurd (none-ne-some lives.0 (sym h ∙ ap m'.heap (sym same) ∙ lives.1))
      | no other ↦ update_other inv.role p q r' other ∙ inv.unborn q (sym (elsewhere q other) ∙ h)
    ]

    pub changes :
        (pc' : Pc A) (vs : List A) (status' : ℕ → Status A) (st' : Status A)
        → status' i ≡ st'
        → ((j : ℕ) → i ≢ j → status' j ≡ a.status j)
        → Chain role_after m'.heap m'.head vs
        → Thread role_after m'.heap i st' pc'
        → Account role_after m' (update s.pc i pc')
        → StandsFor
            (record { mem = m'; pc = update s.pc i pc' })
            (record { stack = vs; status = status' })
    changes pc' vs status' st' own_st other_st chain own acc =
        settle role_after m' pc' vs status' st' own_st other_st chain own
          (λ j st pc ne h.
            Thread-still i p inv.role role_after s.mem.heap m'.heap r r' at_p
              (update_same inv.role p r') change lives both_elsewhere j st pc ne h)
          unborn_after acc

    pub changes_and_becomes :
        (pc' : Pc A) (vs : List A) (st' : Status A)
        → Chain role_after m'.heap m'.head vs
        → Thread role_after m'.heap i st' pc'
        → Account role_after m' (update s.pc i pc')
        → StandsFor (record { mem = m'; pc = update s.pc i pc' }) (becomes a i vs st')
    changes_and_becomes pc' vs st' chain own acc =
        changes pc' vs (update a.status i st') st' (update_same a.status i st')
          (λ j ne. update_other a.status i j st' ne) chain own acc

    pub Chain-after :
        (b : ℕ) (vs : List A)
        → ((d : ℕ) → d < length vs → r ≢ stacked d)
        → Chain inv.role s.mem.heap b vs
        → Chain role_after m'.heap b vs
    Chain-after b vs low h =
        Chain-still i p inv.role role_after s.mem.heap m'.heap r r' at_p (update_same inv.role p r')
          change lives both_elsewhere b vs low h
