-- ===== src/Ring/Steps.antt =====
-- push and pop of 13-heap_ring_buffer/src/lib.rs keep the invariant of the slots.
use native.Mathlib.Nat.{mod-lt, mod-add-mod, mod-eq_of_lt}
use swe_daily_challenge.Base.{
  suc, ◌+◌, ◌-◌, ◌%◌, ◌<◌, ◌≡◌, refl, sym, ap, ◌∙◌, true, false, none, some, List, [], ◌∷◌, ◌++◌,
  length, length-set, length-append, get_elem?, get_elem?-set, get_elem?-set_other, get_elem?_of_lt,
  set, ltb, ltb→le, eq→==, arith, inl, inr,
}
use swe_daily_challenge.Ring.{RingBuffer, value, is_empty, is_full, push, pop, take_slot}
use swe_daily_challenge.Ring.Slots.{
  slots-differ, slot_moved, lt_of_get_elem?, get_elem?-snoc, Holds, head-lt,
}

module _ {T : Type 0} where
  pub is_full_lem :
      (r : RingBuffer T) (xs : List T)
      → Holds r xs
      → ltb (length xs) r.cap ≡ false
      → is_full r ≡ true
  is_full_lem r xs h full =
      eq→== r.len r.cap
        (let le = ltb→le (length xs) r.cap full in omega (arith, le, h.count, h.fits))

  pub push_full : (val : T) (r : RingBuffer T) → is_full r ≡ true → push val r ≡ value (some val, r)
  unfolding push
  push_full val r full = simp (push, full) refl

  pub pushed : T → RingBuffer T → RingBuffer T
  pushed val r = record r {
    buf = set r.buf r.head (some val);
    head = (r.head + 1) % r.cap;
    len = r.len + 1;
  }

  pub pushed-cap : (val : T) (r : RingBuffer T) → (pushed val r).cap ≡ r.cap
  unfolding pushed
  pushed-cap val r = refl

  pub push_room :
      (val : T) (r : RingBuffer T)
      → is_full r ≡ false
      → ltb r.head (length r.buf) ≡ true
      → push val r ≡ value (none, pushed val r)
  unfolding push pushed
  push_room val r room live = simp (push, room, live) refl

  pub pushed-Holds :
      (val : T) (r : RingBuffer T) (xs : List T)
      → Holds r xs
      → length xs < r.cap
      → Holds (pushed val r) (xs ++ (val ∷ []))
  unfolding pushed
  pushed-Holds val r xs h room = record {
    pos = h.pos;
    size = length-set r.buf r.head (some val) ∙ h.size;
    low = h.low;
    next =
        ap (λ n. (n + 1) % r.cap) h.next
        ∙ mod-add-mod (r.tail + r.len) r.cap 1
        ∙ ap (λ n. n % r.cap) {x = r.tail + r.len + 1} {y = r.tail + (r.len + 1)} (omega arith);
    count = length-append xs (val ∷ []) ∙ ap (λ n. n + 1) h.count;
    fits = omega (arith, h.count);
    slots = λ i x at. elim (get_elem?-snoc xs val i x at) [
      | inl before ↦
          get_elem?-set_other r.buf r.head ((r.tail + i) % r.cap) (some val) (λ e.
            slots-differ r.tail i r.len r.cap h.low
              (omega (arith, lt_of_get_elem? xs i x before, h.count)) (omega (arith, h.count))
              (sym e ∙ h.next))
          ∙ h.slots i x before
      | inr (last, same) ↦
          ap (get_elem? (set r.buf r.head (some val)))
            (ap (λ n. (r.tail + n) % r.cap) (last ∙ h.count) ∙ sym h.next)
          ∙ written val r h
          ∙ ap (λ y. some (some y)) (sym same)
    ];
  }
    where
      written :
          (val : T) (r : RingBuffer T)
          → Holds r xs
          → get_elem? (set r.buf r.head (some val)) r.head ≡ some (some val)
      written val r h =
          let (old, at) = get_elem?_of_lt r.buf r.head (head-lt r xs h) in
          get_elem?-set r.buf r.head old (some val) at

  pub pop_empty : (r : RingBuffer T) → Holds r [] → pop r ≡ value (none, r)
  unfolding pop
  pop_empty r h = simp (pop, eq→== r.len 0 (sym h.count)) refl

  pub popped : RingBuffer T → RingBuffer T
  popped r = record r { buf = set r.buf r.tail none; tail = (r.tail + 1) % r.cap; len = r.len - 1 }

  pub popped-cap : (r : RingBuffer T) → (popped r).cap ≡ r.cap
  unfolding popped
  popped-cap r = refl

  pub pop_first :
      (r : RingBuffer T) (x : T)
      → is_empty r ≡ false
      → get_elem? r.buf r.tail ≡ some (some x)
      → pop r ≡ value (some x, popped r)
  unfolding pop popped take_slot
  pop_first r x live at = simp (pop, live, at) refl

  pub oldest :
      (r : RingBuffer T) (x : T) (xs : List T)
      → Holds r (x ∷ xs)
      → get_elem? r.buf r.tail ≡ some (some x)
  oldest r x xs h =
      ap (get_elem? r.buf)
        (sym (mod-eq_of_lt h.low) ∙ ap (λ n. n % r.cap) {x = r.tail} {y = r.tail + 0} (omega arith))
      ∙ h.slots 0 x refl

  pub popped-Holds :
      (r : RingBuffer T) (x : T) (xs : List T) → Holds r (x ∷ xs) → Holds (popped r) xs
  unfolding popped
  popped-Holds r x xs h = record {
    pos = h.pos;
    size = length-set r.buf r.tail none ∙ h.size;
    low = mod-lt (r.tail + 1) h.pos;
    next =
        h.next
        ∙ ap (λ n. (r.tail + n) % r.cap) {x = r.len} {y = suc (r.len - 1)} (omega (arith, h.count))
        ∙ sym (slot_moved r.tail (r.len - 1) r.cap);
    count = omega (arith, h.count);
    fits = omega (arith, h.fits);
    slots = λ i y at.
        ap (get_elem? (set r.buf r.tail none)) (slot_moved r.tail i r.cap)
        ∙ get_elem?-set_other r.buf r.tail ((r.tail + suc i) % r.cap) none (λ e.
          slots-differ r.tail 0 (suc i) r.cap h.low (omega arith)
            (omega (arith, lt_of_get_elem? xs i y at, h.count, h.fits))
            (ap (λ n. n % r.cap) {x = r.tail + 0} {y = r.tail} (omega arith)
              ∙ mod-eq_of_lt h.low
              ∙ e))
        ∙ h.slots (suc i) y at;
  }
