-- ===== src/Treiber/Progress.antt =====
-- A thread that runs alone finishes its call.
use native.Mathlib.Decide.{ℕ_discrete}
use swe_daily_challenge.Base.{ℕ, suc, ◌≡◌, ◌≢◌, refl, sym, subst, List, inl, inr}
use swe_daily_challenge.Treiber.{
  update, node, Memory, Pc, idle, push_start, push_loaded, push_linked, pop_start, pop_loaded,
  pop_next, popped, retire_start, retire_loaded, retire_linked, Event, Move, push_load, link,
  push_win, push_lose, pop_load, pop_empty, read_next, pop_win, pop_lose, read_value, trash_load,
  retire_link, retire_win, retire_lose, System, pick, Reach,
}
use swe_daily_challenge.Treiber.Spec.{Atomic}
use swe_daily_challenge.Treiber.Invariant.{StandsFor, Thread}
use swe_daily_challenge.Treiber.Frame.{update_same}
use swe_daily_challenge.Treiber.Linear.{Step-refines, Reach-refines}

-- A step between two places is no exchange that fails although the atomic holds the expected value.
abbrev pub HasCause : {A : Type 0} → Memory A → Pc A → Pc A → Type 0
HasCause m (push_linked p h) (push_loaded q l) = m.head ≢ h
HasCause m (pop_next h n) (pop_loaded l) = m.head ≢ h
HasCause m (retire_linked h v t) (retire_loaded k w u) = m.trash ≢ t
HasCause m _ _ = Unit

-- The state behind a step of thread `i`.
abbrev pub behind : {A : Type 0} → ℕ → System A → Memory A → Pc A → System A
behind i s m p = record { mem = m; pc = update s.pc i p }

-- Thread `i`, running alone, is outside the stack after so many steps at most: it is outside now, or
-- it can take a step that has its cause, and each such step leads to a state from which it is outside
-- after one step less.
pub data Finishes {A : Type 0} (i : ℕ) : ℕ → System A → Type 0 where
  outside_now : {n : ℕ} {s : System A} → s.pc i ≡ idle → Finishes i n s
  after_step :
      {n : ℕ} {s : System A}
      → (e : Event A) × (m : Memory A) × (p : Pc A) × Move s.mem (s.pc i) e m p
        × HasCause s.mem (s.pc i) p
      → ((e : Event A) (m : Memory A) (p : Pc A)
          → Move s.mem (s.pc i) e m p
          → HasCause s.mem (s.pc i) p
          → Finishes i n (behind i s m p))
      → Finishes i (suc n) s

module _ {A : Type 0} (i : ℕ) where
  abbrev Valid : System A → Type 0
  Valid s = (a : Atomic A) × StandsFor s a

  -- What can be done from a place.
  abbrev CanStep : Memory A → Pc A → Type 0
  CanStep m now =
      (e : Event A) × (m' : Memory A) × (p : Pc A) × Move m now e m' p × HasCause m now p

  -- Every step from a place leads to a state from which the thread finishes.
  abbrev After : ℕ → System A → Pc A → Type 0
  After n s now =
      (e : Event A) (m : Memory A) (p : Pc A)
      → Move s.mem now e m p
      → HasCause s.mem now p
      → Valid (behind i s m p)
      → update s.pc i p i ≡ p
      → Finishes i n (behind i s m p)

  advance :
      {n : ℕ} (s : System A) (now : Pc A)
      → Valid s
      → s.pc i ≡ now
      → CanStep s.mem now
      → After n s now
      → Finishes i (suc n) s
  advance s now v at can rest = after_step (subst (CanStep s.mem) (sym at) can) (λ e m p move cause.
      let next = Step-refines {t = behind i s m p} v.0 v.1 (pick move) in
      rest e m p (subst (λ pc. Move s.mem pc e m p) at move)
        (subst (λ pc. HasCause s.mem pc p) at cause) (next.0, next.2) (update_same s.pc i p))

  -- What the thread knows at a place.
  known :
      (s : System A) {now : Pc A} (v : Valid s)
      → s.pc i ≡ now
      → Thread v.1.role s.mem.heap i (v.0.status i) now
  known s v at = subst (Thread v.1.role s.mem.heap i (v.0.status i)) at (v.1.threads i)

  push_linked_fresh :
      {k : ℕ} {p h : ℕ} (s : System A)
      → Valid s
      → s.pc i ≡ push_linked p h
      → s.mem.head ≡ h
      → Finishes i (suc k) s
  push_linked_fresh {k = k} {p = p} {h = h} s v at same =
      advance s (push_linked p h) v at (_, _, _, push_win same, tt) next
    where
      next : After k s (push_linked p h)
      next _ _ _ (push_win _) _ _ end = outside_now end
      next _ _ _ push_lose cause _ _ = absurd (cause same)

  push_loaded_fresh :
      {k : ℕ} {p h : ℕ} (s : System A)
      → Valid s
      → s.pc i ≡ push_loaded p h
      → s.mem.head ≡ h
      → Finishes i (suc (suc k)) s
  push_loaded_fresh {k = k} {p = p} {h = h} s v at same =
      let (x, n, nz, held, here, call) = known s v at in
      advance s (push_loaded p h) v at (_, _, _, link (node x n) here, tt) next
    where
      next : After (suc k) s (push_loaded p h)
      next _ _ _ (link x there) _ v' at' = push_linked_fresh _ v' at' same

  try_push : (m : Memory A) (p h : ℕ) → CanStep m (push_linked p h)
  try_push m p h = elim (ℕ_discrete m.head h) [
    | yes same ↦ (_, _, _, push_win same, tt)
    | no changed ↦ (_, _, _, push_lose, changed)
  ]

  push_linked_any :
      {k : ℕ} {p h : ℕ} (s : System A)
      → Valid s
      → s.pc i ≡ push_linked p h
      → Finishes i (suc (suc (suc k))) s
  push_linked_any {k = k} {p = p} {h = h} s v at =
      advance s (push_linked p h) v at (try_push s.mem p h) next
    where
      next : After (suc (suc k)) s (push_linked p h)
      next _ _ _ (push_win _) _ _ end = outside_now end
      next _ _ _ push_lose _ v' at' = push_loaded_fresh _ v' at' refl

  retire_linked_fresh :
      {k : ℕ} {h t : ℕ} {x : A} (s : System A)
      → Valid s
      → s.pc i ≡ retire_linked h x t
      → s.mem.trash ≡ t
      → Finishes i (suc k) s
  retire_linked_fresh {k = k} {h = h} {t = t} {x = x} s v at same =
      advance s (retire_linked h x t) v at (_, _, _, retire_win same, tt) next
    where
      next : After k s (retire_linked h x t)
      next _ _ _ (retire_win _) _ _ end = outside_now end
      next _ _ _ retire_lose cause _ _ = absurd (cause same)

  retire_loaded_fresh :
      {k : ℕ} {h t : ℕ} {x : A} (s : System A)
      → Valid s
      → s.pc i ≡ retire_loaded h x t
      → s.mem.trash ≡ t
      → Finishes i (suc (suc k)) s
  retire_loaded_fresh {k = k} {h = h} {t = t} {x = x} s v at same =
      let (n, taken, here, call) = known s v at in
      advance s (retire_loaded h x t) v at (_, _, _, retire_link (node x n) here, tt) next
    where
      next : After (suc k) s (retire_loaded h x t)
      next _ _ _ (retire_link y there) _ v' at' = retire_linked_fresh _ v' at' same

  try_retire : (m : Memory A) (h t : ℕ) (x : A) → CanStep m (retire_linked h x t)
  try_retire m h t x = elim (ℕ_discrete m.trash t) [
    | yes same ↦ (_, _, _, retire_win same, tt)
    | no changed ↦ (_, _, _, retire_lose, changed)
  ]

  retire_linked_any :
      {k : ℕ} {h t : ℕ} {x : A} (s : System A)
      → Valid s
      → s.pc i ≡ retire_linked h x t
      → Finishes i (suc (suc (suc k))) s
  retire_linked_any {k = k} {h = h} {t = t} {x = x} s v at =
      advance s (retire_linked h x t) v at (try_retire s.mem h t x) next
    where
      next : After (suc (suc k)) s (retire_linked h x t)
      next _ _ _ (retire_win _) _ _ end = outside_now end
      next _ _ _ retire_lose _ v' at' = retire_loaded_fresh _ v' at' refl

  retire_start_any :
      {k : ℕ} {h : ℕ} {x : A} (s : System A)
      → Valid s
      → s.pc i ≡ retire_start h x
      → Finishes i (suc (suc (suc k))) s
  retire_start_any {k = k} {h = h} {x = x} s v at =
      advance s (retire_start h x) v at (_, _, _, trash_load, tt) next
    where
      next : After (suc (suc k)) s (retire_start h x)
      next _ _ _ trash_load _ v' at' = retire_loaded_fresh _ v' at' refl

  popped_any :
      {k : ℕ} {h : ℕ} (s : System A)
      → Valid s
      → s.pc i ≡ popped h
      → Finishes i (suc (suc (suc (suc k)))) s
  popped_any {k = k} {h = h} s v at =
      let (x, (n, taken, here, call)) = known s v at in
      advance s (popped h) v at (_, _, _, read_value (node x n) here, tt) next
    where
      next : After (suc (suc (suc k))) s (popped h)
      next _ _ _ (read_value y there) _ v' at' = retire_start_any _ v' at'

  pop_next_fresh :
      {k : ℕ} {h n : ℕ} (s : System A)
      → Valid s
      → s.pc i ≡ pop_next h n
      → s.mem.head ≡ h
      → Finishes i (suc (suc (suc (suc (suc k))))) s
  pop_next_fresh {k = k} {h = h} {n = n} s v at same =
      advance s (pop_next h n) v at (_, _, _, pop_win same, tt) next
    where
      next : After (suc (suc (suc (suc k)))) s (pop_next h n)
      next _ _ _ (pop_win _) _ v' at' = popped_any _ v' at'
      next _ _ _ pop_lose cause _ _ = absurd (cause same)

  try_read : (s : System A) (h : ℕ) → Valid s → s.pc i ≡ pop_loaded h → CanStep s.mem (pop_loaded h)
  try_read s h v at = elim (known s v at) [
    | inl (null, call) ↦ (_, _, _, pop_empty null, tt)
    | inr (x, nz, shared, here, call) ↦ (_, _, _, read_next x nz here, tt)
  ]

  pop_loaded_fresh :
      {k : ℕ} {h : ℕ} (s : System A)
      → Valid s
      → s.pc i ≡ pop_loaded h
      → s.mem.head ≡ h
      → Finishes i (suc (suc (suc (suc (suc (suc k)))))) s
  pop_loaded_fresh {k = k} {h = h} s v at same =
      advance s (pop_loaded h) v at (try_read s h v at) next
    where
      next : After (suc (suc (suc (suc (suc k))))) s (pop_loaded h)
      next _ _ _ (pop_empty _) _ _ end = outside_now end
      next _ _ _ (read_next x _ _) _ v' at' = pop_next_fresh _ v' at' same

  try_pop : (m : Memory A) (h n : ℕ) → CanStep m (pop_next h n)
  try_pop m h n = elim (ℕ_discrete m.head h) [
    | yes same ↦ (_, _, _, pop_win same, tt)
    | no changed ↦ (_, _, _, pop_lose, changed)
  ]

  pop_next_any :
      {k : ℕ} {h n : ℕ} (s : System A)
      → Valid s
      → s.pc i ≡ pop_next h n
      → Finishes i (suc (suc (suc (suc (suc (suc (suc k))))))) s
  pop_next_any {k = k} {h = h} {n = n} s v at =
      advance s (pop_next h n) v at (try_pop s.mem h n) next
    where
      next : After (suc (suc (suc (suc (suc (suc k)))))) s (pop_next h n)
      next _ _ _ (pop_win _) _ v' at' = popped_any _ v' at'
      next _ _ _ pop_lose _ v' at' = pop_loaded_fresh _ v' at' refl

  pop_loaded_any :
      {k : ℕ} {h : ℕ} (s : System A)
      → Valid s
      → s.pc i ≡ pop_loaded h
      → Finishes i (suc (suc (suc (suc (suc (suc (suc (suc k)))))))) s
  pop_loaded_any {k = k} {h = h} s v at = advance s (pop_loaded h) v at (try_read s h v at) next
    where
      next : After (suc (suc (suc (suc (suc (suc (suc k))))))) s (pop_loaded h)
      next _ _ _ (pop_empty _) _ _ end = outside_now end
      next _ _ _ (read_next x _ _) _ v' at' = pop_next_any _ v' at'

  push_start_any :
      {k : ℕ} {p : ℕ} (s : System A)
      → Valid s
      → s.pc i ≡ push_start p
      → Finishes i (suc (suc (suc k))) s
  push_start_any {k = k} {p = p} s v at =
      advance s (push_start p) v at (_, _, _, push_load, tt) next
    where
      next : After (suc (suc k)) s (push_start p)
      next _ _ _ push_load _ v' at' = push_loaded_fresh _ v' at' refl

  push_loaded_any :
      {k : ℕ} {p h : ℕ} (s : System A)
      → Valid s
      → s.pc i ≡ push_loaded p h
      → Finishes i (suc (suc (suc (suc k)))) s
  push_loaded_any {k = k} {p = p} {h = h} s v at =
      let (x, n, nz, held, here, call) = known s v at in
      advance s (push_loaded p h) v at (_, _, _, link (node x n) here, tt) next
    where
      next : After (suc (suc (suc k))) s (push_loaded p h)
      next _ _ _ (link x there) _ v' at' = push_linked_any _ v' at'

  retire_loaded_any :
      {k : ℕ} {h t : ℕ} {x : A} (s : System A)
      → Valid s
      → s.pc i ≡ retire_loaded h x t
      → Finishes i (suc (suc (suc (suc k)))) s
  retire_loaded_any {k = k} {h = h} {t = t} {x = x} s v at =
      let (n, taken, here, call) = known s v at in
      advance s (retire_loaded h x t) v at (_, _, _, retire_link (node x n) here, tt) next
    where
      next : After (suc (suc (suc k))) s (retire_loaded h x t)
      next _ _ _ (retire_link y there) _ v' at' = retire_linked_any _ v' at'

  pop_start_any :
      {k : ℕ} (s : System A)
      → Valid s
      → s.pc i ≡ pop_start
      → Finishes i (suc (suc (suc (suc (suc (suc (suc k))))))) s
  pop_start_any {k = k} s v at = advance s pop_start v at (_, _, _, pop_load, tt) next
    where
      next : After (suc (suc (suc (suc (suc (suc k)))))) s pop_start
      next _ _ _ pop_load _ v' at' = pop_loaded_fresh _ v' at' refl

  Finishes-pc : (s : System A) (now : Pc A) → Valid s → s.pc i ≡ now → Finishes i 8 s
  Finishes-pc s idle v at = outside_now at
  Finishes-pc s (push_start p) v at = push_start_any s v at
  Finishes-pc s (push_loaded p h) v at = push_loaded_any s v at
  Finishes-pc s (push_linked p h) v at = push_linked_any s v at
  Finishes-pc s pop_start v at = pop_start_any s v at
  Finishes-pc s (pop_loaded h) v at = pop_loaded_any s v at
  Finishes-pc s (pop_next h n) v at = pop_next_any s v at
  Finishes-pc s (popped h) v at = popped_any s v at
  Finishes-pc s (retire_start h x) v at = retire_start_any s v at
  Finishes-pc s (retire_loaded h x t) v at = retire_loaded_any s v at
  Finishes-pc s (retire_linked h x t) v at = retire_linked_any s v at

-- Progress: in every state that is reached, wherever the other threads have stopped, each thread
-- that runs alone is outside the stack after at most eight steps, whichever steps it takes, as long
-- as no exchange fails although the atomic holds the expected value; and until then it always has
-- such a step.
pub Reach-Finishes :
    {A : Type 0} {es : List (ℕ × Event A)} {s : System A} → Reach es s → (i : ℕ) → Finishes i 8 s
Reach-Finishes {s = s} r i = let ok = Reach-refines r in Finishes-pc i s (s.pc i) (ok.0, ok.2) refl
