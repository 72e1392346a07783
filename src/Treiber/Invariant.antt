-- ===== src/Treiber/Invariant.antt =====
-- What each node is for, and how a state of the threads stands for a state of the atomic stack.
use mathlib.Core.List.{Memᴰ}
use swe_daily_challenge.Base.{ℕ, ◌≡◌, ◌≢◌, Option, none, some, List, [], ◌∷◌, length, ◌⊎◌}
use swe_daily_challenge.Treiber.{
  Node, node, Pc, idle, push_start, push_loaded, push_linked, pop_start, pop_loaded, pop_next,
  popped, retire_start, retire_loaded, retire_linked, Memory, System,
}
use swe_daily_challenge.Treiber.Spec.{Status, outside, pushing, popping, found, Atomic}

-- A node is made by a thread that pushes it, stands in the stack with so many nodes below it, is
-- taken out by a thread that pops it, and is retired.
pub data Role : Type 0 where
  unused : Role
  held_by : ℕ → Role
  stacked : ℕ → Role
  taken_by : ℕ → Role
  retired : Role

-- Threads other than its maker may have the address.
abbrev pub IsShared : Role → Type 0
IsShared unused = ⊥
IsShared (held_by i) = ⊥
IsShared (stacked d) = Unit
IsShared (taken_by i) = Unit
IsShared retired = Unit

module _ {A : Type 0} (role : ℕ → Role) (heap : ℕ → Option (Node A)) where
  -- From address `a` on the nodes hold the values.
  abbrev pub Chain : ℕ → List A → Type 0
  Chain a [] = a ≡ 0
  Chain a (v ∷ vs) =
      (n : ℕ) × (a ≢ 0) × (role a ≡ stacked (length vs)) × (heap a ≡ some (node v n)) × Chain n vs

  abbrev pub IsHeld : ℕ → ℕ → Status A → Type 0
  IsHeld i p st =
      (v : A) × (n : ℕ) × (p ≢ 0)
      × (role p ≡ held_by i)
      × (heap p ≡ some (node v n))
      × (st ≡ pushing v)

  abbrev pub IsTaken : ℕ → ℕ → A → Status A → Type 0
  IsTaken i h v st =
      (n : ℕ) × (role h ≡ taken_by i) × (heap h ≡ some (node v n)) × (st ≡ found (some v))

  abbrev pub IsLoaded : ℕ → Status A → Type 0
  IsLoaded h st =
      ((h ≡ 0) × (st ≡ found none))
      ⊎ ((x : Node A) × (h ≢ 0) × IsShared (role h) × (heap h ≡ some x) × (st ≡ popping))

  -- What a thread knows, and how far its call is.
  abbrev pub Thread : ℕ → Status A → Pc A → Type 0
  Thread i st idle = st ≡ outside
  Thread i st (push_start p) = IsHeld i p st
  Thread i st (push_loaded p h) = IsHeld i p st
  Thread i st (push_linked p h) =
      (v : A) × (p ≢ 0) × (role p ≡ held_by i) × (heap p ≡ some (node v h)) × (st ≡ pushing v)
  Thread i st pop_start = st ≡ popping
  Thread i st (pop_loaded h) = IsLoaded h st
  Thread i st (pop_next h n) =
      IsShared (role h)
      × ((d : ℕ) → role h ≡ stacked d → (v : A) × (heap h ≡ some (node v n)))
      × (h ≢ 0)
      × (st ≡ popping)
  Thread i st (popped h) = (v : A) × IsTaken i h v st
  Thread i st (retire_start h v) = IsTaken i h v st
  Thread i st (retire_loaded h v t) = IsTaken i h v st
  Thread i st (retire_linked h v t) =
      (role h ≡ taken_by i) × (heap h ≡ some (node v t)) × (st ≡ found (some v))

-- The node that a thread alone has: one that it pushes, or one that it has popped.
pub data Owner : Type 0 where
  owns_nothing : Owner
  holds takes : ℕ → Owner

abbrev pub owned : {A : Type 0} → Pc A → Owner
owned idle = owns_nothing
owned (push_start p) = holds p
owned (push_loaded p h) = holds p
owned (push_linked p h) = holds p
owned pop_start = owns_nothing
owned (pop_loaded h) = owns_nothing
owned (pop_next h n) = owns_nothing
owned (popped h) = takes h
owned (retire_start h v) = takes h
owned (retire_loaded h v t) = takes h
owned (retire_linked h v t) = takes h

-- From address `a` on stand the nodes at these addresses.
abbrev pub Line : {A : Type 0} → (ℕ → Option (Node A)) → ℕ → List ℕ → Type 0
Line heap a [] = a ≡ 0
Line {A} heap a (p ∷ ps) = (a ≡ p) × (x : Node A) × (heap p ≡ some x) × Line heap x.next ps

abbrev pub Distinct : List ℕ → Type 0
Distinct [] = Unit
Distinct (p ∷ ps) = (Memᴰ p ps → ⊥) × Distinct ps

module _ {A : Type 0} (heap : ℕ → Option (Node A)) (pc : ℕ → Pc A) (xs ts : List ℕ) (p : ℕ) where
  -- Where a node is to be found.
  abbrev pub Placed : Role → Type 0
  Placed unused = heap p ≡ none
  Placed (held_by i) = owned (pc i) ≡ holds p
  Placed (stacked d) = Memᴰ p xs
  Placed (taken_by i) = owned (pc i) ≡ takes p
  Placed retired = Memᴰ p ts

-- Every node is accounted for: one thread has it, or it stands in one of the two lists, once.
pub record Account {A : Type 0} (role : ℕ → Role) (m : Memory A) (pc : ℕ → Pc A) : Type 0 where
  pub xs : List ℕ
  pub ts : List ℕ
  pub stack_line : Line m.heap m.head xs
  pub trash_line : Line m.heap m.trash ts
  pub placed : (p : ℕ) → Placed m.heap pc xs ts p (role p)
  pub only_stacked : (p : ℕ) → Memᴰ p xs → (d : ℕ) × (role p ≡ stacked d)
  pub only_retired : (p : ℕ) → Memᴰ p ts → role p ≡ retired
  pub distinct_xs : Distinct xs
  pub distinct_ts : Distinct ts
  pub no_null : m.heap 0 ≡ none

pub record StandsFor {A : Type 0} (s : System A) (a : Atomic A) : Type 0 where
  pub role : ℕ → Role
  pub chain : Chain role s.mem.heap s.mem.head a.stack
  pub threads : (i : ℕ) → Thread role s.mem.heap i (a.status i) (s.pc i)
  pub account : Account role s.mem s.pc
  pub unborn : (p : ℕ) → s.mem.heap p ≡ none → role p ≡ unused
