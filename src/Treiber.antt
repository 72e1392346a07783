-- ===== src/Treiber.antt =====
-- A lock-free stack: 02-treiber_lock_free_stack/main.cpp, one atomic access for each step.
pub mod Spec
pub mod Invariant
pub mod Frame
pub mod Account
pub mod Ledger
pub mod Settle
pub mod Moves
pub mod Simulate
pub mod Linear
pub mod Destroy
pub mod Progress
pub mod Values
pub mod Conserve
pub mod Stress
pub mod Tests
use swe_daily_challenge.Base.{
  ℕ, zero, suc, ◌≡◌, ◌≢◌, ◌==◌, Bool, Option, none, some, List, [], ◌∷◌, if◌then◌else◌,
}

abbrev pub update {ℓ} : {A : Type ℓ} → (ℕ → A) → ℕ → A → ℕ → A
update f i a j = if i == j then a else f j

-- Addresses are numbers, and 0 is nullptr.
pub record Node (A : Type 0) : Type 0 where
  pub value : A
  pub next : ℕ

abbrev pub node : {A : Type 0} → A → ℕ → Node A
node v n = record { value = v; next = n }

-- The two atomics of the stack, and the nodes that were made and not yet deleted.
pub record Memory (A : Type 0) : Type 0 where
  pub head : ℕ
  pub trash : ℕ
  pub heap : ℕ → Option (Node A)

-- Where a thread stands, with its locals: `p` is newHead of push, `h` is oldHead, `n` newHead of
-- pop, `t` old_trash. A state `…_loaded` is at the start of a round of a do loop.
pub data Pc (A : Type 0) : Type 0 where
  idle : Pc A
  push_start : (p : ℕ) → Pc A
  push_loaded push_linked : (p h : ℕ) → Pc A
  pop_start : Pc A
  pop_loaded : (h : ℕ) → Pc A
  pop_next : (h n : ℕ) → Pc A
  popped : (h : ℕ) → Pc A
  retire_start : (h : ℕ) → A → Pc A
  retire_loaded retire_linked : (h : ℕ) → A → (t : ℕ) → Pc A

-- What a caller sees.
pub data Event (A : Type 0) : Type 0 where
  internal : Event A
  calls_push : A → Event A
  push_returns calls_pop : Event A
  pop_returns : Option A → Event A
  empty_returns : Bool → Event A

abbrev pub set_next : {A : Type 0} → ℕ → ℕ → Node A → Memory A → Memory A
set_next p n x m = record m { heap = update m.heap p (some (node x.value n)) }

-- A step of one thread; a call of empty is one step. A dereference needs a node at the address.
-- `compare_exchange_weak` may fail whatever the atomic holds, and then loads it.
pub data Move {A : Type 0} (m : Memory A) : Pc A → Event A → Memory A → Pc A → Type 0 where
  new_node :
      (v : A) (p : ℕ)
      → p ≢ 0
      → m.heap p ≡ none
      → Move m idle
          (calls_push v)
          (record m { heap = update m.heap p (some (node v 0)) })
          (push_start p)
  push_load : {p : ℕ} → Move m (push_start p) internal m (push_loaded p m.head)
  link :
      {p h : ℕ} (x : Node A)
      → m.heap p ≡ some x
      → Move m (push_loaded p h) internal (set_next p h x m) (push_linked p h)
  push_win :
      {p h : ℕ} → m.head ≡ h → Move m (push_linked p h) push_returns (record m { head = p }) idle
  push_lose : {p h : ℕ} → Move m (push_linked p h) internal m (push_loaded p m.head)
  look_empty : Move m idle (empty_returns (m.head == 0)) m idle
  enter_pop : Move m idle calls_pop m pop_start
  pop_load : Move m pop_start internal m (pop_loaded m.head)
  pop_empty : {h : ℕ} → h ≡ 0 → Move m (pop_loaded h) (pop_returns none) m idle
  read_next :
      {h : ℕ} (x : Node A)
      → h ≢ 0
      → m.heap h ≡ some x
      → Move m (pop_loaded h) internal m (pop_next h x.next)
  pop_win :
      {h n : ℕ} → m.head ≡ h → Move m (pop_next h n) internal (record m { head = n }) (popped h)
  pop_lose : {h n : ℕ} → Move m (pop_next h n) internal m (pop_loaded m.head)
  read_value :
      {h : ℕ} (x : Node A)
      → m.heap h ≡ some x
      → Move m (popped h) internal m (retire_start h x.value)
  trash_load : {h : ℕ} {v : A} → Move m (retire_start h v) internal m (retire_loaded h v m.trash)
  retire_link :
      {h t : ℕ} {v : A} (x : Node A)
      → m.heap h ≡ some x
      → Move m (retire_loaded h v t) internal (set_next h t x m) (retire_linked h v t)
  retire_win :
      {h t : ℕ} {v : A}
      → m.trash ≡ t
      → Move m (retire_linked h v t) (pop_returns (some v)) (record m { trash = h }) idle
  retire_lose :
      {h t : ℕ} {v : A} → Move m (retire_linked h v t) internal m (retire_loaded h v m.trash)

-- `delete` of an address without a node is undefined; `hangs` is a walk with no fuel left.
pub data Freeing (A : Type 0) : Type 0 where
  freed : (ℕ → Option (Node A)) → Freeing A
  undefined hangs : Freeing A

-- `while (cur) { Node* next = cur->next; delete cur; cur = next; }`
unfoldable pub delete_line : {A : Type 0} → (fuel cur : ℕ) → (ℕ → Option (Node A)) → Freeing A
delete_line fuel zero heap = freed heap
delete_line zero (suc cur) heap = hangs
delete_line (suc fuel) (suc cur) heap = elim (heap (suc cur)) [
  | none ↦ undefined
  | some x ↦ delete_line fuel x.next (update heap (suc cur) none)
]

abbrev pub and_then : {A : Type 0} → Freeing A → ((ℕ → Option (Node A)) → Freeing A) → Freeing A
and_then (freed heap) next = next heap
and_then undefined next = undefined
and_then hangs next = hangs

-- The destructor: the stack, then the trash.
unfoldable pub destroy : {A : Type 0} → (fuel : ℕ) → Memory A → Freeing A
unfolding delete_line
destroy fuel m = and_then (delete_line fuel m.head m.heap) (delete_line fuel m.trash)

-- Threads by number, over one memory.
pub record System (A : Type 0) : Type 0 where
  pub mem : Memory A
  pub pc : ℕ → Pc A

abbrev pub start : {A : Type 0} → System A
start = record { mem = record { head = 0; trash = 0; heap = λ a. none }; pc = λ i. idle }

-- Thread `i` makes a step, any thread at any time.
pub data Step {A : Type 0} (s : System A) (i : ℕ) (e : Event A) : System A → Type 0 where
  pick :
      {m : Memory A} {p : Pc A}
      → Move s.mem (s.pc i) e m p
      → Step s i e (record { mem = m; pc = update s.pc i p })

-- A run from the start, with its events, the last one first.
pub data Reach {A : Type 0} : List (ℕ × Event A) → System A → Type 0 where
  begin : Reach [] start
  later :
      {es : List (ℕ × Event A)} {s t : System A} (i : ℕ) (e : Event A)
      → Reach es s
      → Step s i e t
      → Reach ((i, e) ∷ es) t
