-- ===== src/Treiber/Destroy.antt =====
-- The destructor after a run.
use mathlib.Core.List.{Memᴰ}
use mathlib.Core.List.Memᴰ.{head, tail, not-nil}
use mathlib.Core.Option.{none-ne-some}
use native.Mathlib.Decide.{ℕ_discrete}
use swe_daily_challenge.Base.{
  ℕ, zero, suc, ◌+◌, ◌≡◌, ◌≢◌, ◌≤◌, refl, sym, ap, ◌∙◌, subst, Option, none, some, List, [], ◌∷◌,
  length, arith,
}
use swe_daily_challenge.Treiber.{
  update, Node, Memory, Pc, idle, System, Event, Reach, freed, delete_line, and_then, destroy,
}
use swe_daily_challenge.Treiber.Invariant.{
  Role, unused, held_by, stacked, taken_by, retired, holds, takes, owned, Line, Distinct, Placed,
  Account,
}
use swe_daily_challenge.Treiber.Frame.{update_same, update_other}
use swe_daily_challenge.Treiber.Account.{Line-still}
use swe_daily_challenge.Treiber.Linear.{Reach-refines}

module _ {A : Type 0} where
  -- The heap without the nodes at some addresses.
  abbrev erase : List ℕ → (ℕ → Option (Node A)) → ℕ → Option (Node A)
  erase [] heap = heap
  erase (p ∷ ps) heap = erase ps (update heap p none)

  erase-none :
      (ps : List ℕ) (heap : ℕ → Option (Node A)) (q : ℕ) → heap q ≡ none → erase ps heap q ≡ none
  erase-none [] heap q h = h
  erase-none (p ∷ ps) heap q h = erase-none ps (update heap p none) q (elim (ℕ_discrete p q) [
    | yes e ↦ subst (λ k. update heap p none k ≡ none) e (update_same heap p none)
    | no ne ↦ update_other heap p q none ne ∙ h
  ])

  erase_here :
      (ps : List ℕ) (heap : ℕ → Option (Node A)) (q : ℕ) → Memᴰ q ps → erase ps heap q ≡ none
  erase_here [] heap q mem = absurd (not-nil mem)
  erase_here (p ∷ ps) heap q (head e) =
      erase-none ps (update heap p none) q
        (subst (λ k. update heap p none k ≡ none) (sym e) (update_same heap p none))
  erase_here (p ∷ ps) heap q (tail mem) = erase_here ps (update heap p none) q mem

  -- A line that shares no node with those.
  Line-erase :
      (ps : List ℕ) (heap : ℕ → Option (Node A)) (a : ℕ) (qs : List ℕ)
      → ((q : ℕ) → Memᴰ q ps → Memᴰ q qs → ⊥)
      → Line heap a qs
      → Line (erase ps heap) a qs
  Line-erase [] heap a qs apart h = h
  Line-erase (p ∷ ps) heap a qs apart h =
      Line-erase ps (update heap p none) a qs (λ q mem. apart q (tail mem))
        (Line-still heap (update heap p none) p a qs (λ q ne. update_other heap p q none ne)
          (apart p (head refl)) h)

  delete_step :
      (fuel cur : ℕ) (heap : ℕ → Option (Node A)) (x : Node A)
      → heap (suc cur) ≡ some x
      → delete_line (suc fuel) (suc cur) heap ≡ delete_line fuel x.next (update heap (suc cur) none)
  unfolding delete_line
  delete_step fuel cur heap x h = simp (delete_line, h) refl

  -- A walk deletes the nodes of its line, each once.
  delete_line-erase :
      (ps : List ℕ) (fuel a : ℕ) (heap : ℕ → Option (Node A))
      → heap 0 ≡ none
      → Line heap a ps
      → Distinct ps
      → length ps ≤ fuel
      → delete_line fuel a heap ≡ freed (erase ps heap)
  unfolding delete_line
  delete_line-erase [] fuel a heap null line dx enough =
      ap (λ k. delete_line fuel k heap) line ∙ at_end fuel
    where
      at_end : (fuel : ℕ) → delete_line fuel 0 heap ≡ freed heap
      at_end zero = refl
      at_end (suc fuel) = refl
  delete_line-erase (p ∷ ps) zero a heap null line dx enough = absurd (omega arith)
  delete_line-erase (p ∷ ps) (suc fuel) zero heap null (same, x, at, rest) dx enough =
      absurd (none-ne-some x (sym null ∙ ap heap same ∙ at))
  delete_line-erase (p ∷ ps) (suc fuel) (suc cur) heap null (same, x, at, rest) (fresh, dx) enough =
      delete_step fuel cur heap x (ap heap same ∙ at)
      ∙ ap (λ k. delete_line fuel x.next (update heap k none)) same
      ∙ delete_line-erase ps fuel x.next (update heap p none) (erase-none (p ∷ []) heap 0 null)
          (Line-still heap (update heap p none) p x.next ps (λ q ne. update_other heap p q none ne)
            fresh rest)
          dx (omega arith)

  module _ (role : ℕ → Role) (m : Memory A) (pc : ℕ → Pc A) (acc : Account role m pc)
      (rest : (i : ℕ) → pc i ≡ idle) where
    after : ℕ → Option (Node A)
    after = erase acc.ts (erase acc.xs m.heap)

    nothing_left : (p : ℕ) (r : Role) → Placed m.heap pc acc.xs acc.ts p r → after p ≡ none
    unfolding after
    nothing_left p unused h =
        erase-none acc.ts (erase acc.xs m.heap) p (erase-none acc.xs m.heap p h)
    nothing_left p (held_by i) h = absurd (owns_none p (sym (ap owned (rest i)) ∙ h))
      where
        owns_none : (p : ℕ) → owned {A = A} idle ≢ holds p
        owns_none p e = cc
    nothing_left p (stacked d) h =
        erase-none acc.ts (erase acc.xs m.heap) p (erase_here acc.xs m.heap p h)
    nothing_left p (taken_by i) h = absurd (owns_none p (sym (ap owned (rest i)) ∙ h))
      where
        owns_none : (p : ℕ) → owned {A = A} idle ≢ takes p
        owns_none p e = cc
    nothing_left p retired h = erase_here acc.ts (erase acc.xs m.heap) p h

    apart : (q : ℕ) → Memᴰ q acc.xs → Memᴰ q acc.ts → ⊥
    apart q in_xs in_ts =
        let (d, is) = acc.only_stacked q in_xs in cc_roles d (sym is ∙ acc.only_retired q in_ts)
      where
        cc_roles : (d : ℕ) → stacked d ≢ retired
        cc_roles d e = cc

    destroy_lem : (fuel : ℕ) → length acc.xs + length acc.ts ≤ fuel → destroy fuel m ≡ freed after
    unfolding destroy after
    destroy_lem fuel enough =
        ap (λ o. and_then o (delete_line fuel m.trash))
          (delete_line-erase acc.xs fuel m.head m.heap acc.no_null acc.stack_line acc.distinct_xs
            (omega arith))
        ∙ delete_line-erase acc.ts fuel m.trash (erase acc.xs m.heap)
            (erase-none acc.xs m.heap 0 acc.no_null)
            (Line-erase acc.xs m.heap m.trash acc.ts apart acc.trash_line) acc.distinct_ts
            (omega arith)

-- After any run at whose end no thread is inside a call, the destructor ends, with some fuel, deletes
-- no node twice, and leaves none.
pub destroy_frees :
    {A : Type 0} {es : List (ℕ × Event A)} {s : System A}
    → Reach es s
    → ((i : ℕ) → s.pc i ≡ idle)
    → (fuel : ℕ) × (heap : ℕ → Option (Node A)) × (destroy fuel s.mem ≡ freed heap)
      × ((p : ℕ) → heap p ≡ none)
destroy_frees {s = s} r rest =
    let inv = (Reach-refines r).2 in
    let acc = inv.account in
    (
      length acc.xs + length acc.ts,
      after inv.role s.mem s.pc acc rest,
      destroy_lem inv.role s.mem s.pc acc rest (length acc.xs + length acc.ts) (omega arith),
      λ p. nothing_left inv.role s.mem s.pc acc rest p (inv.role p) (acc.placed p),
    )
