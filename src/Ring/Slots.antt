-- ===== src/Ring/Slots.antt =====
-- The invariant of 13-heap_ring_buffer/src/lib.rs: which slots hold the values of a queue.
use mathlib.Core.Option.{none-ne-some}
use native.Mathlib.Nat.{mod-lt, mod-add-mod, mod-eq_of_lt, mod-eq-sub-mod}
use swe_daily_challenge.Base.{
  ℕ, zero, suc, ◌+◌, ◌-◌, ◌%◌, ◌<◌, ◌≤◌, ◌≡◌, ◌≢◌, refl, sym, ap, ◌∙◌, none, some, List, [], ◌∷◌,
  ◌++◌, length, length-replicate, get_elem?, replicate, ltb, ltb→lt, ltb→le, arith, ◌⊎◌, inl, inr,
  Bool-cases,
}
use swe_daily_challenge.Ring.{RingBuffer, value, new}

-- An index below twice the capacity, brought back.
wraps :
    (x cap : ℕ) → x < cap + cap → ((x < cap) × (x % cap ≡ x)) ⊎ ((cap ≤ x) × (x % cap ≡ x - cap))
wraps x cap h = elim (Bool-cases (ltb x cap)) [
  | inl lt ↦ inl (ltb→lt x cap lt, mod-eq_of_lt (ltb→lt x cap lt))
  | inr ge ↦ let le = ltb→le x cap ge in inr (le, mod-eq-sub-mod le ∙ mod-eq_of_lt (omega arith))
]

-- Two positions of the same round are two slots.
pub slots-differ :
    (tail i j cap : ℕ) → tail < cap → i < j → j < cap → (tail + i) % cap ≢ (tail + j) % cap
slots-differ tail i j cap low lt high e = elim (wraps (tail + i) cap (omega arith)) [
  | inl a ↦ elim (wraps (tail + j) cap (omega arith)) [
    | inl b ↦ omega (arith, a.0, a.1, b.0, b.1)
    | inr b ↦ omega (arith, a.0, a.1, b.0, b.1)
  ]
  | inr a ↦ elim (wraps (tail + j) cap (omega arith)) [
    | inl b ↦ omega (arith, a.0, a.1, b.0, b.1)
    | inr b ↦ omega (arith, a.0, a.1, b.0, b.1)
  ]
]

-- The slot that `i` names after `tail` has moved on.
pub slot_moved : (tail i cap : ℕ) → ((tail + 1) % cap + i) % cap ≡ (tail + suc i) % cap
slot_moved tail i cap =
    mod-add-mod (tail + 1) cap i
    ∙ ap (λ n. n % cap) {x = tail + 1 + i} {y = tail + suc i} (omega arith)

module _ {T : Type 0} where
  pub lt_of_get_elem? : (xs : List T) (i : ℕ) (x : T) → get_elem? xs i ≡ some x → i < length xs
  lt_of_get_elem? [] i x h = absurd (none-ne-some x h)
  lt_of_get_elem? (y ∷ xs) zero x h = omega arith
  lt_of_get_elem? (y ∷ xs) (suc i) x h = omega (arith, lt_of_get_elem? xs i x h)

  pub get_elem?-snoc :
      (xs : List T) (v : T) (i : ℕ) (x : T)
      → get_elem? (xs ++ (v ∷ [])) i ≡ some x
      → (get_elem? xs i ≡ some x) ⊎ ((i ≡ length xs) × (x ≡ v))
  get_elem?-snoc [] v zero x h = inr (refl, cc)
  get_elem?-snoc [] v (suc i) x h = absurd (none-ne-some x h)
  get_elem?-snoc (y ∷ xs) v zero x h = inl h
  get_elem?-snoc (y ∷ xs) v (suc i) x h = elim (get_elem?-snoc xs v i x h) [
    | inl here ↦ inl here
    | inr (e, same) ↦ inr (ap suc e, same)
  ]

  -- The buffer holds the values `xs`, the oldest first.
  pub record Holds (r : RingBuffer T) (xs : List T) : Type 0 where
    pub pos : 0 < r.cap
    pub size : length r.buf ≡ r.cap
    pub low : r.tail < r.cap
    pub next : r.head ≡ (r.tail + r.len) % r.cap
    pub count : length xs ≡ r.len
    pub fits : r.len ≤ r.cap
    pub slots :
        (i : ℕ) (x : T)
        → get_elem? xs i ≡ some x
        → get_elem? r.buf ((r.tail + i) % r.cap) ≡ some (some x)

  pub new-Holds :
      (n : ℕ) → (r : RingBuffer T) × (new (suc n) ≡ value r) × (r.cap ≡ suc n) × Holds r []
  unfolding new
  new-Holds n = (
    record { buf = replicate (suc n) none; cap = suc n; head = 0; tail = 0; len = 0 },
    refl,
    refl,
    record {
      pos = omega arith;
      size = length-replicate (suc n) none;
      low = omega arith;
      next = sym (mod-eq_of_lt (omega arith));
      count = refl;
      fits = omega arith;
      slots = λ i x h. absurd (none-ne-some x h);
    },
  )

  pub head-lt : (r : RingBuffer T) (xs : List T) → Holds r xs → r.head < length r.buf
  head-lt r xs h = omega (arith, h.next, h.size, mod-lt (r.tail + r.len) h.pos)
