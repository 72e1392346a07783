-- ===== src/Treiber/Account.antt =====
-- What the moves of a thread change in the account of the nodes.
use mathlib.Core.List.{Memᴰ}
use mathlib.Core.List.Memᴰ.{head, tail}
use native.Mathlib.Decide.{ℕ_discrete}
use swe_daily_challenge.Base.{
  ℕ, ◌≡◌, ◌≢◌, ◌⊎◌, sym, ap, ◌∙◌, subst, Option, List, [], ◌∷◌, inl, inr,
}
use swe_daily_challenge.Treiber.{update, Node, Memory, Pc}
use swe_daily_challenge.Treiber.Invariant.{
  Role, unused, held_by, stacked, taken_by, retired, holds, takes, owned, Line, Distinct, Placed,
  Account,
}
use swe_daily_challenge.Treiber.Frame.{update_same, update_other}

-- A line without the node that changes.
pub Line-still :
    {A : Type 0} (heap heap' : ℕ → Option (Node A)) (p a : ℕ) (ps : List ℕ)
    → ((q : ℕ) → p ≢ q → heap' q ≡ heap q)
    → (Memᴰ p ps → ⊥)
    → Line heap a ps
    → Line heap' a ps
Line-still heap heap' p a [] elsewhere absent h = h
Line-still heap heap' p a (q ∷ ps) elsewhere absent (same, x, at, rest) = (
  same,
  x,
  elsewhere q (λ e. absent (head e)) ∙ at,
  Line-still heap heap' p x.next ps elsewhere (λ m. absent (tail m)) rest,
)

module _ {A : Type 0} (role : ℕ → Role) (m : Memory A) (pc : ℕ → Pc A) (acc : Account role m pc)
    (i : ℕ) (pc' : Pc A) where
  owned_kept : owned pc' ≡ owned (pc i) → (j : ℕ) → owned (update pc i pc' j) ≡ owned (pc j)
  owned_kept same j = elim (ℕ_discrete i j) [
    | yes e ↦
        subst (λ k. owned (update pc i pc' k) ≡ owned (pc k)) e
          (ap owned (update_same pc i pc') ∙ same)
    | no other ↦ ap owned (update_other pc i j pc' other)
  ]

  Placed-looks :
      (p : ℕ) (r : Role)
      → ((j : ℕ) → owned (update pc i pc' j) ≡ owned (pc j))
      → Placed m.heap pc acc.xs acc.ts p r
      → Placed m.heap (update pc i pc') acc.xs acc.ts p r
  Placed-looks p unused kept h = h
  Placed-looks p (held_by j) kept h = kept j ∙ h
  Placed-looks p (stacked d) kept h = h
  Placed-looks p (taken_by j) kept h = kept j ∙ h
  Placed-looks p retired kept h = h

  -- The memory stays, and what the thread owns.
  pub Account-looks : owned pc' ≡ owned (pc i) → Account role m (update pc i pc')
  Account-looks same = record {
    xs = acc.xs;
    ts = acc.ts;
    stack_line = acc.stack_line;
    trash_line = acc.trash_line;
    placed = λ p. Placed-looks p (role p) (owned_kept same) (acc.placed p);
    only_stacked = acc.only_stacked;
    only_retired = acc.only_retired;
    distinct_xs = acc.distinct_xs;
    distinct_ts = acc.distinct_ts;
    no_null = acc.no_null;
  }

  -- The node at `p` becomes one of role `r'`, and the lists become `xs'` and `ts'`.
  module _ (p : ℕ) (m' : Memory A) (r' : Role) (xs' ts' : List ℕ) (nz : p ≢ 0)
      (elsewhere : (q : ℕ) → p ≢ q → m'.heap q ≡ m.heap q)
      (mine : (q : ℕ) → (owned (pc i) ≡ holds q) ⊎ (owned (pc i) ≡ takes q) → p ≡ q)
      (xs_in : (q : ℕ) → p ≢ q → Memᴰ q acc.xs → Memᴰ q xs')
      (ts_in : (q : ℕ) → p ≢ q → Memᴰ q acc.ts → Memᴰ q ts') where
    Placed-elsewhere :
        (q : ℕ) (r : Role)
        → p ≢ q
        → Placed m.heap pc acc.xs acc.ts q r
        → Placed m'.heap (update pc i pc') xs' ts' q r
    Placed-elsewhere q unused ne h = elsewhere q ne ∙ h
    Placed-elsewhere q (held_by j) ne h = elim (ℕ_discrete i j) [
      | yes e ↦ absurd (ne (mine q (inl (ap (λ k. owned (pc k)) e ∙ h))))
      | no other ↦ ap owned (update_other pc i j pc' other) ∙ h
    ]
    Placed-elsewhere q (stacked d) ne h = xs_in q ne h
    Placed-elsewhere q (taken_by j) ne h = elim (ℕ_discrete i j) [
      | yes e ↦ absurd (ne (mine q (inr (ap (λ k. owned (pc k)) e ∙ h))))
      | no other ↦ ap owned (update_other pc i j pc' other) ∙ h
    ]
    Placed-elsewhere q retired ne h = ts_in q ne h

    pub Account-changes :
        ((q : ℕ) → p ≢ q → Memᴰ q xs' → Memᴰ q acc.xs)
        → ((q : ℕ) → p ≢ q → Memᴰ q ts' → Memᴰ q acc.ts)
        → Placed m'.heap (update pc i pc') xs' ts' p r'
        → (Memᴰ p xs' → (d : ℕ) × (r' ≡ stacked d))
        → (Memᴰ p ts' → r' ≡ retired)
        → Line m'.heap m'.head xs'
        → Line m'.heap m'.trash ts'
        → Distinct xs'
        → Distinct ts'
        → Account (update role p r') m' (update pc i pc')
    Account-changes xs_out ts_out here xs_here ts_here stack trash dx dt = record {
      xs = xs';
      ts = ts';
      stack_line = stack;
      trash_line = trash;
      placed = λ q. elim (ℕ_discrete p q) [
        | yes e ↦
            subst (λ k. Placed m'.heap (update pc i pc') xs' ts' k (update role p r' k)) e
              (subst (Placed m'.heap (update pc i pc') xs' ts' p) (sym (update_same role p r'))
                here)
        | no ne ↦
            subst (Placed m'.heap (update pc i pc') xs' ts' q) (sym (update_other role p q r' ne))
              (Placed-elsewhere q (role q) ne (acc.placed q))
      ];
      only_stacked = λ q mem. elim (ℕ_discrete p q) [
        | yes e ↦
            let (d, is) = xs_here (subst (λ k. Memᴰ k xs') (sym e) mem) in
            (d, subst (λ k. update role p r' k ≡ stacked d) e (update_same role p r' ∙ is))
        | no ne ↦
            let (d, is) = acc.only_stacked q (xs_out q ne mem) in
            (d, update_other role p q r' ne ∙ is)
      ];
      only_retired = λ q mem. elim (ℕ_discrete p q) [
        | yes e ↦
            subst (λ k. update role p r' k ≡ retired) e
              (update_same role p r' ∙ ts_here (subst (λ k. Memᴰ k ts') (sym e) mem))
        | no ne ↦ update_other role p q r' ne ∙ acc.only_retired q (ts_out q ne mem)
      ];
      distinct_xs = dx;
      distinct_ts = dt;
      no_null = elsewhere 0 nz ∙ acc.no_null;
    }
