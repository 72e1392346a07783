-- ===== src/Ring.antt =====
-- A queue in a fixed heap allocation: 13-heap_ring_buffer/src/lib.rs.
pub mod Queue
pub mod Slots
pub mod Steps
pub mod Laws
pub mod Tests
use swe_daily_challenge.Base.{
  ℕ, zero, suc, ◌+◌, ◌-◌, ◌%◌, Bool, true, false, Option, none, some, List, [], ◌∷◌, ltb, ◌==◌,
  get_elem?, set, length, replicate,
}

-- A slot is none while it holds no initialised value.
pub record RingBuffer (T : Type 0) : Type 0 where
  pub buf : List (Option T)
  pub cap : ℕ
  pub head : ℕ
  pub tail : ℕ
  pub len : ℕ

-- `undefined` is an access outside the allocation, or the use of a slot that is not initialised.
pub data Outcome (A : Type 0) : Type 0 where
  value : A → Outcome A
  panics undefined : Outcome A

-- The allocator is taken to succeed.
unfoldable pub new : {T : Type 0} → (capacity : ℕ) → Outcome (RingBuffer T)
new zero = panics
new (suc n) =
    value (record { buf = replicate (suc n) none; cap = suc n; head = 0; tail = 0; len = 0 })

abbrev pub is_empty : {T : Type 0} → RingBuffer T → Bool
is_empty r = r.len == 0

abbrev pub is_full : {T : Type 0} → RingBuffer T → Bool
is_full r = r.len == r.cap

-- `Err(val)` is `some val`, `Ok(())` is none.
unfoldable pub push : {T : Type 0} → T → RingBuffer T → Outcome (Option T × RingBuffer T)
push val r = elim (is_full r) [
  | true ↦ value (some val, r)
  | false ↦ elim (ltb r.head (length r.buf)) [
    | true ↦ value (
      none,
      record r { buf = set r.buf r.head (some val); head = (r.head + 1) % r.cap; len = r.len + 1 },
    )
    | false ↦ undefined
  ]
]

-- `read().assume_init()` of the slot, which is moved out of.
unfoldable pub take_slot :
    {T : Type 0}
    → Option (Option T)
    → (T → Outcome (Option T × RingBuffer T))
    → Outcome (Option T × RingBuffer T)
take_slot none k = undefined
take_slot (some none) k = undefined
take_slot (some (some val)) k = k val

unfoldable pub pop : {T : Type 0} → RingBuffer T → Outcome (Option T × RingBuffer T)
unfolding take_slot
pop r = elim (is_empty r) [
  | true ↦ value (none, r)
  | false ↦ take_slot (get_elem? r.buf r.tail) (λ val. value (
    some val,
    record r { buf = set r.buf r.tail none; tail = (r.tail + 1) % r.cap; len = r.len - 1 },
  ))
]

abbrev pub drop_slot : {T : Type 0} → Option (Option T) → Outcome (List T) → Outcome (List T)
drop_slot (some (some val)) (value rest) = value (val ∷ rest)
drop_slot (some (some val)) panics = panics
drop_slot (some (some val)) undefined = undefined
drop_slot (some none) rest = undefined
drop_slot none rest = undefined

-- The loop of Drop::drop over `i`, with `left` rounds to go: the values that are dropped.
unfoldable pub drop_from : {T : Type 0} → (left i : ℕ) → RingBuffer T → Outcome (List T)
drop_from zero i r = value []
drop_from (suc left) i r =
    drop_slot (get_elem? r.buf ((r.tail + i) % r.cap)) (drop_from left (suc i) r)

unfoldable pub drop : {T : Type 0} → RingBuffer T → Outcome (List T)
unfolding drop_from
drop r = drop_from r.len 0 r

-- What a user can do, and what comes back.
pub data Call (T : Type 0) : Type 0 where
  pushes : T → Call T
  pops : Call T

-- A sequence of calls, with what they return, and a drop at the end.
abbrev pub and_more :
    {T : Type 0}
    → Option T
    → Outcome (List (Option T) × List T)
    → Outcome (List (Option T) × List T)
and_more result (value (results, dropped)) = value (result ∷ results, dropped)
and_more result panics = panics
and_more result undefined = undefined

abbrev pub and_then :
    {T : Type 0}
    → Outcome (Option T × RingBuffer T)
    → (RingBuffer T → Outcome (List (Option T) × List T))
    → Outcome (List (Option T) × List T)
and_then undefined k = undefined
and_then panics k = panics
and_then (value (result, r)) k = and_more result (k r)

abbrev pub and_drop : {T : Type 0} → Outcome (List T) → Outcome (List (Option T) × List T)
and_drop (value dropped) = value ([], dropped)
and_drop panics = panics
and_drop undefined = undefined

unfoldable pub run :
    {T : Type 0} → List (Call T) → RingBuffer T → Outcome (List (Option T) × List T)
unfolding push pop drop
run [] r = and_drop (drop r)
run (pushes val ∷ calls) r = and_then (push val r) (run calls)
run (pops ∷ calls) r = and_then (pop r) (run calls)

-- A user's program: a new buffer, the calls, and the end of its scope.
abbrev pub run_on :
    {T : Type 0} → Outcome (RingBuffer T) → List (Call T) → Outcome (List (Option T) × List T)
run_on (value r) calls = run calls r
run_on panics calls = panics
run_on undefined calls = undefined

abbrev pub run_new :
    {T : Type 0} → (capacity : ℕ) → List (Call T) → Outcome (List (Option T) × List T)
run_new capacity calls = run_on (new capacity) calls
