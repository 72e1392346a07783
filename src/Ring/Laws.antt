-- ===== src/Ring/Laws.antt =====
-- A buffer, from new to Drop::drop, against the bounded queue.
use swe_daily_challenge.Base.{
  ℕ, zero, suc, ◌+◌, ◌%◌, ◌<◌, ◌≡◌, refl, sym, ap, ap₂, ◌∙◌, none, some, List, [], ◌∷◌, ◌++◌,
  length, get_elem?, ltb, lt→ltb, ltb→lt, ne→==, arith, inl, inr, Bool-cases,
}
use swe_daily_challenge.Ring.{
  RingBuffer, value, push, pop, drop_slot, drop_from, drop, Call, pushes, pops, and_more, and_then,
  and_drop, run, run_on, run_new,
}
use swe_daily_challenge.Ring.Queue.{serve}
use swe_daily_challenge.Ring.Slots.{Holds, new-Holds, head-lt}
use swe_daily_challenge.Ring.Steps.{
  is_full_lem, push_full, pushed, pushed-cap, push_room, pushed-Holds, pop_empty, popped,
  popped-cap, pop_first, oldest, popped-Holds,
}

module _ {T : Type 0} where
  drop_from_lem :
      (r : RingBuffer T) (xs : List T) (i : ℕ)
      → ((j : ℕ) (x : T)
          → get_elem? xs j ≡ some x
          → get_elem? r.buf ((r.tail + (i + j)) % r.cap) ≡ some (some x))
      → drop_from (length xs) i r ≡ value xs
  unfolding drop_from
  drop_from_lem r [] i slots = refl
  drop_from_lem r (x ∷ xs) i slots =
      ap₂ drop_slot
        (ap (λ n. get_elem? r.buf ((r.tail + n) % r.cap)) {x = i} {y = i + 0} (omega arith)
          ∙ slots 0 x refl)
        (drop_from_lem r xs (suc i) (λ j y at.
          ap (λ n. get_elem? r.buf ((r.tail + n) % r.cap)) {x = suc i + j} {y = i + suc j}
            (omega arith)
          ∙ slots (suc j) y at))

  drop_lem : (r : RingBuffer T) (xs : List T) → Holds r xs → drop r ≡ value xs
  unfolding drop
  drop_lem r xs h =
      ap (λ n. drop_from n 0 r) (sym h.count)
      ∙ drop_from_lem r xs 0 (λ j x at.
        ap (λ n. get_elem? r.buf ((r.tail + n) % r.cap)) {x = 0 + j} {y = j} (omega arith)
        ∙ h.slots j x at)

  pushes_lem :
      (val : T) (calls : List (Call T)) (r : RingBuffer T) (xs : List T)
      → Holds r xs
      → ((r' : RingBuffer T) (ys : List T)
          → Holds r' ys
          → r'.cap ≡ r.cap
          → run calls r' ≡ value (serve r.cap calls ys))
      → and_then (push val r) (run calls) ≡ value (serve r.cap (pushes val ∷ calls) xs)
  pushes_lem val calls r xs h rest = elim (Bool-cases (ltb (length xs) r.cap)) [
    | inl room ↦
        let lt = ltb→lt (length xs) r.cap room in
        ap (λ o. and_then o (run calls))
          (push_room val r (ne→== r.len r.cap (λ e. omega (arith, lt, h.count)))
            (lt→ltb r.head (length r.buf) (head-lt r xs h)))
        ∙ ap (and_more none)
            (rest (pushed val r) (xs ++ (val ∷ [])) (pushed-Holds val r xs h lt) (pushed-cap val r))
        ∙ simp (serve, room) refl
    | inr full ↦
        ap (λ o. and_then o (run calls)) (push_full val r (is_full_lem r xs h full))
        ∙ ap (and_more (some val)) (rest r xs h refl)
        ∙ simp (serve, full) refl
  ]

  pops_lem :
      (calls : List (Call T)) (r : RingBuffer T) (xs : List T)
      → Holds r xs
      → ((r' : RingBuffer T) (ys : List T)
          → Holds r' ys
          → r'.cap ≡ r.cap
          → run calls r' ≡ value (serve r.cap calls ys))
      → and_then (pop r) (run calls) ≡ value (serve r.cap (pops ∷ calls) xs)
  pops_lem calls r [] h rest =
      ap (λ o. and_then o (run calls)) (pop_empty r h) ∙ ap (and_more none) (rest r [] h refl)
  pops_lem calls r (x ∷ xs) h rest =
      ap (λ o. and_then o (run calls))
        (pop_first r x (ne→== r.len 0 (λ e. omega (arith, h.count))) (oldest r x xs h))
      ∙ ap (and_more (some x)) (rest (popped r) xs (popped-Holds r x xs h) (popped-cap r))

  run-serve :
      (calls : List (Call T)) (r : RingBuffer T) (xs : List T)
      → Holds r xs
      → run calls r ≡ value (serve r.cap calls xs)
  unfolding run
  run-serve [] r xs h = ap and_drop (drop_lem r xs h)
  run-serve (pushes val ∷ calls) r xs h =
      pushes_lem val calls r xs h
        (λ r' ys h' same. run-serve calls r' ys h' ∙ ap (λ cap. value (serve cap calls ys)) same)
  run-serve (pops ∷ calls) r xs h =
      pops_lem calls r xs h
        (λ r' ys h' same. run-serve calls r' ys h' ∙ ap (λ cap. value (serve cap calls ys)) same)

  -- A buffer of positive capacity is the bounded queue: whatever is pushed and popped, each call
  -- returns what it returns on the queue, no slot is read that is not initialised or not allocated,
  -- and Drop drops exactly the values that are left, the oldest first.
  pub run_new-refines :
      (capacity : ℕ) (calls : List (Call T))
      → 0 < capacity
      → run_new capacity calls ≡ value (serve capacity calls [])
  run_new-refines zero calls h = absurd (omega arith)
  run_new-refines (suc n) calls h =
      let (r, made, same, holds) = new-Holds n in
      ap (λ o. run_on o calls) made
      ∙ run-serve calls r [] holds
      ∙ ap (λ cap. value (serve cap calls [])) same
