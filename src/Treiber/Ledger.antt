-- ===== src/Treiber/Ledger.antt =====
-- The account of the nodes after each kind of change.
use mathlib.Core.List.{Memᴰ}
use mathlib.Core.List.Memᴰ.{head, tail, cases_cons}
use mathlib.Core.Option.{none-ne-some, some-injective}
use swe_daily_challenge.Base.{
  ℕ, ◌≡◌, ◌≢◌, ◌⊎◌, refl, sym, ap, ◌∙◌, subst, Option, some, List, [], ◌∷◌, inl, inr,
}
use swe_daily_challenge.Treiber.{update, Node, node, Memory, Pc}
use swe_daily_challenge.Treiber.Invariant.{
  Role, unused, held_by, stacked, taken_by, retired, owns_nothing, holds, takes, owned, Line,
  Distinct, Placed, Account,
}
use swe_daily_challenge.Treiber.Frame.{update_same}
use swe_daily_challenge.Treiber.Account.{Line-still, Account-changes}

pub held_not_stacked : {i d : ℕ} → held_by i ≢ stacked d
held_not_stacked e = cc

pub taken_not_stacked : {i d : ℕ} → taken_by i ≢ stacked d
taken_not_stacked e = cc

pub unused_not_stacked : {d : ℕ} → unused ≢ stacked d
unused_not_stacked e = cc

pub unused_not_retired : unused ≢ retired
unused_not_retired e = cc

pub held_not_retired : {i : ℕ} → held_by i ≢ retired
held_not_retired e = cc

pub taken_not_retired : {i : ℕ} → taken_by i ≢ retired
taken_not_retired e = cc

stacked_not_retired : {d : ℕ} → stacked d ≢ retired
stacked_not_retired e = cc

module _ {A : Type 0} (role : ℕ → Role) (m : Memory A) (pc : ℕ → Pc A) (acc : Account role m pc)
    (i : ℕ) (pc' : Pc A) (p : ℕ) where
  abbrev Mine : Type 0
  Mine = (q : ℕ) → (owned (pc i) ≡ holds q) ⊎ (owned (pc i) ≡ takes q) → p ≡ q

  pub holds-mine : owned (pc i) ≡ holds p → Mine
  holds-mine own q (inl h) = cc
  holds-mine own q (inr h) = cc

  pub takes-mine : owned (pc i) ≡ takes p → Mine
  takes-mine own q (inl h) = cc
  takes-mine own q (inr h) = cc

  pub nothing-mine : owned (pc i) ≡ owns_nothing → Mine
  nothing-mine own q (inl h) = cc
  nothing-mine own q (inr h) = cc

  absent_xs : {r : Role} → role p ≡ r → ((d : ℕ) → r ≢ stacked d) → Memᴰ p acc.xs → ⊥
  absent_xs at ne mem = let (d, is) = acc.only_stacked p mem in ne d (sym at ∙ is)

  absent_ts : {r : Role} → role p ≡ r → r ≢ retired → Memᴰ p acc.ts → ⊥
  absent_ts at ne mem = ne (sym at ∙ acc.only_retired p mem)

  pub not_null : (x : Node A) → m.heap p ≡ some x → p ≢ 0
  not_null x at e = none-ne-some x (sym (ap m.heap e ∙ acc.no_null) ∙ at)

  -- A node that is in neither list is written.
  pub Account-writes :
      (r r' : Role) (heap' : ℕ → Option (Node A))
      → role p ≡ r
      → ((d : ℕ) → r ≢ stacked d)
      → r ≢ retired
      → p ≢ 0
      → ((q : ℕ) → p ≢ q → heap' q ≡ m.heap q)
      → Mine
      → Placed heap' (update pc i pc') acc.xs acc.ts p r'
      → Account (update role p r') (record m { heap = heap' }) (update pc i pc')
  Account-writes r r' heap' at ns nr nz elsewhere mine here =
      Account-changes role m pc acc i pc' p (record m { heap = heap' }) r' acc.xs acc.ts nz
        elsewhere mine (λ q ne mem. mem) (λ q ne mem. mem) (λ q ne mem. mem) (λ q ne mem. mem) here
        (λ mem. absurd (absent_xs at ns mem)) (λ mem. absurd (absent_ts at nr mem))
        (Line-still m.heap heap' p m.head acc.xs elsewhere (absent_xs at ns) acc.stack_line)
        (Line-still m.heap heap' p m.trash acc.ts elsewhere (absent_ts at nr) acc.trash_line)
        acc.distinct_xs acc.distinct_ts

  -- The thread's own node is put on the stack.
  pub Account-publishes :
      (d : ℕ) (v : A)
      → role p ≡ held_by i
      → m.heap p ≡ some (node v m.head)
      → owned (pc i) ≡ holds p
      → Account (update role p (stacked d)) (record m { head = p }) (update pc i pc')
  Account-publishes d v at here own =
      Account-changes role m pc acc i pc' p (record m { head = p }) (stacked d) (p ∷ acc.xs) acc.ts
        (not_null (node v m.head) here) (λ q ne. refl) (holds-mine own) (λ q ne mem. tail mem)
        (λ q ne mem. mem) (λ q ne mem. off q ne mem) (λ q ne mem. mem) (head refl)
        (λ mem. (d, refl)) (λ mem. absurd (absent_ts at held_not_retired mem))
        (refl, node v m.head, here, acc.stack_line) acc.trash_line
        (absent_xs at (λ d e. held_not_stacked e), acc.distinct_xs) acc.distinct_ts
    where
      off : (q : ℕ) → p ≢ q → Memᴰ q (p ∷ acc.xs) → Memᴰ q acc.xs
      off q ne mem = elim (cases_cons mem) [ inl e ↦ absurd (ne (sym e)) | inr m ↦ m ]

  -- The thread's own node is retired.
  pub Account-retires :
      (v : A)
      → role p ≡ taken_by i
      → m.heap p ≡ some (node v m.trash)
      → owned (pc i) ≡ takes p
      → Account (update role p retired) (record m { trash = p }) (update pc i pc')
  Account-retires v at here own =
      Account-changes role m pc acc i pc' p (record m { trash = p }) retired acc.xs (p ∷ acc.ts)
        (not_null (node v m.trash) here) (λ q ne. refl) (takes-mine own) (λ q ne mem. mem)
        (λ q ne mem. tail mem) (λ q ne mem. mem) (λ q ne mem. off q ne mem) (head refl)
        (λ mem. absurd (absent_xs at (λ d e. taken_not_stacked e) mem)) (λ mem. refl) acc.stack_line
        (refl, node v m.trash, here, acc.trash_line) acc.distinct_xs
        (absent_ts at taken_not_retired, acc.distinct_ts)
    where
      off : (q : ℕ) → p ≢ q → Memᴰ q (p ∷ acc.ts) → Memᴰ q acc.ts
      off q ne mem = elim (cases_cons mem) [ inl e ↦ absurd (ne (sym e)) | inr m ↦ m ]

  -- The node at `head` is taken off the stack.
  pub Account-takes :
      (d n : ℕ) (v : A)
      → role p ≡ stacked d
      → m.head ≡ p
      → m.heap p ≡ some (node v n)
      → owned (pc i) ≡ owns_nothing
      → owned pc' ≡ takes p
      → Account (update role p (taken_by i)) (record m { head = n }) (update pc i pc')
  Account-takes d n v at top here own own' =
      from acc.xs acc.stack_line acc.distinct_xs (λ q mem. mem) (λ q mem. mem)
    where
      from :
          (xs : List ℕ)
          → Line m.heap m.head xs
          → Distinct xs
          → ((q : ℕ) → Memᴰ q acc.xs → Memᴰ q xs)
          → ((q : ℕ) → Memᴰ q xs → Memᴰ q acc.xs)
          → Account (update role p (taken_by i)) (record m { head = n }) (update pc i pc')
      from [] null dx into out = absurd (not_null (node v n) here (sym top ∙ null))
      from (q ∷ rest) (same, x, at_q, line) (fresh, dx) into out =
          Account-changes role m pc acc i pc' p (record m { head = n }) (taken_by i) rest acc.ts
            (not_null (node v n) here) (λ k ne. refl) (nothing-mine own)
            (λ k ne mem. off k ne (into k mem)) (λ k ne mem. mem) (λ k ne mem. out k (tail mem))
            (λ k ne mem. mem) (ap owned (update_same pc i pc') ∙ own')
            (λ mem. absurd (fresh (subst (λ k. Memᴰ k rest) same_p mem)))
            (λ mem. absurd (absent_ts at stacked_not_retired mem))
            (subst (λ k. Line m.heap k rest) next line) acc.trash_line dx acc.distinct_ts
        where
          same_p : p ≡ q
          same_p = sym top ∙ same

          off : (k : ℕ) → p ≢ k → Memᴰ k (q ∷ rest) → Memᴰ k rest
          off k ne mem = elim (cases_cons mem) [ inl e ↦ absurd (ne (same_p ∙ sym e)) | inr m ↦ m ]

          next : x.next ≡ n
          next =
              ap (λ (y : Node A). y.next)
                (some-injective x (node v n) (sym at_q ∙ ap m.heap (sym same_p) ∙ here))
