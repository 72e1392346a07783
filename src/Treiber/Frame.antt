-- ===== src/Treiber/Frame.antt =====
-- What a change of one node leaves as it was, for the other threads and for the chain.
use native.Mathlib.Decide.{ℕ_discrete}
use swe_daily_challenge.Base.{
  ℕ, ◌≡◌, ◌≢◌, ◌<◌, refl, sym, ap, ◌∙◌, subst, Option, some, List, [], ◌∷◌, length, inl, inr, eq→==,
  ne→==, arith,
}
use swe_daily_challenge.Treiber.{
  update, Node, Pc, idle, push_start, push_loaded, push_linked, pop_start, pop_loaded, pop_next,
  popped, retire_start, retire_loaded, retire_linked,
}
use swe_daily_challenge.Treiber.Spec.{Status}
use swe_daily_challenge.Treiber.Invariant.{
  Role, unused, held_by, stacked, taken_by, retired, IsShared, Chain, IsHeld, IsTaken, IsLoaded,
  Thread,
}

pub update_same {ℓ} : {A : Type ℓ} (f : ℕ → A) (i : ℕ) (a : A) → update f i a i ≡ a
update_same f i a = simp (eq→== i i refl) refl

pub update_other {ℓ} : {A : Type ℓ} (f : ℕ → A) (i j : ℕ) (a : A) → i ≢ j → update f i a j ≡ f j
update_other f i j a h = simp (ne→== i j h) refl

-- The changes of a node's role that thread `i` makes.
pub data Change (i : ℕ) : Role → Role → Type 0 where
  make : Change i unused (held_by i)
  hold : Change i (held_by i) (held_by i)
  publish : (d : ℕ) → Change i (held_by i) (stacked d)
  take : (d : ℕ) → Change i (stacked d) (taken_by i)
  keep : Change i (taken_by i) (taken_by i)
  retire : Change i (taken_by i) retired

pub holder_kept : {i j : ℕ} {r r' : Role} → Change i r r' → i ≢ j → r ≢ held_by j
holder_kept make ne e = cc
holder_kept hold ne e = ne cc
holder_kept (publish d) ne e = ne cc
holder_kept (take d) ne e = cc
holder_kept keep ne e = cc
holder_kept retire ne e = cc

pub taker_kept : {i j : ℕ} {r r' : Role} → Change i r r' → i ≢ j → r ≢ taken_by j
taker_kept make ne e = cc
taker_kept hold ne e = cc
taker_kept (publish d) ne e = cc
taker_kept (take d) ne e = cc
taker_kept keep ne e = ne cc
taker_kept retire ne e = ne cc

pub IsShared-kept : {i : ℕ} {r r' : Role} → Change i r r' → IsShared r → IsShared r'
IsShared-kept make h = h
IsShared-kept hold h = h
IsShared-kept (publish d) h = tt
IsShared-kept (take d) h = tt
IsShared-kept keep h = tt
IsShared-kept retire h = tt

pub never_back : {i : ℕ} {r r' : Role} → Change i r r' → IsShared r → (d : ℕ) → r' ≢ stacked d
never_back make h d e = h
never_back hold h d e = h
never_back (publish d') h d e = h
never_back (take d') h d e = cc
never_back keep h d e = cc
never_back retire h d e = cc

-- Thread `i` changes the node at `p`, and nothing else.
module _ {A : Type 0} (i p : ℕ) (role role' : ℕ → Role) (heap heap' : ℕ → Option (Node A))
    (r r' : Role) (at_p : role p ≡ r) (at_p' : role' p ≡ r') (change : Change i r r')
    (lives : (x : Node A) × (heap' p ≡ some x))
    (elsewhere : (q : ℕ) → p ≢ q → (role' q ≡ role q) × (heap' q ≡ heap q)) where
  still_held : (j q : ℕ) → i ≢ j → role q ≡ held_by j → (role' q ≡ held_by j) × (heap' q ≡ heap q)
  still_held j q ne h = elim (ℕ_discrete p q) [
    | yes same ↦ absurd (holder_kept change ne (sym at_p ∙ ap role same ∙ h))
    | no other ↦ ((elsewhere q other).0 ∙ h, (elsewhere q other).1)
  ]

  still_taken :
      (j q : ℕ) → i ≢ j → role q ≡ taken_by j → (role' q ≡ taken_by j) × (heap' q ≡ heap q)
  still_taken j q ne h = elim (ℕ_discrete p q) [
    | yes same ↦ absurd (taker_kept change ne (sym at_p ∙ ap role same ∙ h))
    | no other ↦ ((elsewhere q other).0 ∙ h, (elsewhere q other).1)
  ]

  still-IsShared : (q : ℕ) → IsShared (role q) → IsShared (role' q)
  still-IsShared q h = elim (ℕ_discrete p q) [
    | yes same ↦
        subst (λ (t : ℕ). IsShared (role' t)) same
          (subst IsShared (sym at_p') (
            IsShared-kept change
              (subst IsShared at_p (subst (λ (t : ℕ). IsShared (role t)) (sym same) h))))
    | no other ↦ subst IsShared (sym (elsewhere q other).0) h
  ]

  still_stacked :
      (q d : ℕ)
      → IsShared (role q)
      → role' q ≡ stacked d
      → (role q ≡ stacked d) × (heap' q ≡ heap q)
  still_stacked q d h e = elim (ℕ_discrete p q) [
    | yes same ↦ absurd (
        never_back change (subst IsShared at_p (subst (λ (t : ℕ). IsShared (role t)) (sym same) h))
          d (sym at_p' ∙ ap role' same ∙ e))
    | no other ↦ (sym (elsewhere q other).0 ∙ e, (elsewhere q other).1)
  ]

  still_there : (q : ℕ) (x : Node A) → heap q ≡ some x → (y : Node A) × (heap' q ≡ some y)
  still_there q x h = elim (ℕ_discrete p q) [
    | yes same ↦ subst (λ (t : ℕ). (y : Node A) × (heap' t ≡ some y)) same lives
    | no other ↦ (x, (elsewhere q other).1 ∙ h)
  ]

  IsHeld-still :
      (j q : ℕ) (st : Status A) → i ≢ j → IsHeld role heap j q st → IsHeld role' heap' j q st
  IsHeld-still j q st ne (v, n, nz, held, at, call) =
      let kept = still_held j q ne held in (v, n, nz, kept.0, kept.1 ∙ at, call)

  IsTaken-still :
      (j q : ℕ) (v : A) (st : Status A)
      → i ≢ j
      → IsTaken role heap j q v st
      → IsTaken role' heap' j q v st
  IsTaken-still j q v st ne (n, taken, at, call) =
      let kept = still_taken j q ne taken in (n, kept.0, kept.1 ∙ at, call)

  IsLoaded-still : (q : ℕ) (st : Status A) → IsLoaded role heap q st → IsLoaded role' heap' q st
  IsLoaded-still q st (inl null) = inl null
  IsLoaded-still q st (inr (x, nz, shared, at, call)) =
      let there = still_there q x at in inr (there.0, nz, still-IsShared q shared, there.1, call)

  -- What another thread knows stays true.
  pub Thread-still :
      (j : ℕ) (st : Status A) (pc : Pc A)
      → i ≢ j
      → Thread role heap j st pc
      → Thread role' heap' j st pc
  Thread-still j st idle ne h = h
  Thread-still j st (push_start q) ne h = IsHeld-still j q st ne h
  Thread-still j st (push_loaded q l) ne h = IsHeld-still j q st ne h
  Thread-still j st (push_linked q l) ne (v, nz, held, at, call) =
      let kept = still_held j q ne held in (v, nz, kept.0, kept.1 ∙ at, call)
  Thread-still j st pop_start ne h = h
  Thread-still j st (pop_loaded q) ne h = IsLoaded-still q st h
  Thread-still j st (pop_next q n) ne (shared, next, nz, call) = (
    still-IsShared q shared,
    λ d e.
        let kept = still_stacked q d shared e in
        let known = next d kept.0 in (known.0, kept.1 ∙ known.1),
    nz,
    call,
  )
  Thread-still j st (popped q) ne (v, h) = (v, IsTaken-still j q v st ne h)
  Thread-still j st (retire_start q v) ne h = IsTaken-still j q v st ne h
  Thread-still j st (retire_loaded q v t) ne h = IsTaken-still j q v st ne h
  Thread-still j st (retire_linked q v t) ne (taken, at, call) =
      let kept = still_taken j q ne taken in (kept.0, kept.1 ∙ at, call)

  -- A chain that does not reach so high as the node stays a chain.
  pub Chain-still :
      (a : ℕ) (vs : List A)
      → ((d : ℕ) → d < length vs → r ≢ stacked d)
      → Chain role heap a vs
      → Chain role' heap' a vs
  Chain-still a [] low h = h
  Chain-still a (v ∷ vs) low (n, nz, here, at, rest) = (
    n,
    nz,
    (elsewhere a other).0 ∙ here,
    (elsewhere a other).1 ∙ at,
    Chain-still n vs (λ d lt. low d (omega arith)) rest,
  )
    where
      other : p ≢ a
      other e = low (length vs) (omega arith) (sym at_p ∙ ap role e ∙ here)
