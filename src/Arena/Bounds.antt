-- ===== src/Arena/Bounds.antt =====
-- What one call of `arena_alloc` returns.
use native.Mathlib.Nat.{one-le-pow}
use swe_daily_challenge.Base.{
  ℕ, ◌+◌, ◌-◌, ◌%◌, ◌^◌, ◌≤◌, ◌<◌, ◌≡◌, refl, none, some, arith, ltb, if◌then◌else◌,
}
use swe_daily_challenge.Arena.{Arena, sizeof_arena, add_size, sub_size, align_up, arena_alloc}
use swe_daily_challenge.Arena.Align.{ceil, ceil_bounds, ceil_least, align_up_lem}

-- The region lies in the address space, and the free part starts behind the header.
pub record IsValid (a : Arena) : Type 0 where
  pub mapped : a.base + a.capacity ≤ 2 ^ 64
  pub header : sizeof_arena ≤ a.offset
  pub within : a.offset ≤ a.capacity

-- A request whose sums stay below 2 ^ 64; `2 ^ k` is the alignment.
pub record Fits (a : Arena) (size k : ℕ) : Type 0 where
  pub bits : k < 64
  pub pointer : a.base + a.offset + 2 ^ k ≤ 2 ^ 64
  pub extent : a.offset + 2 ^ k + size ≤ 2 ^ 64

module _ (a : Arena) (size k : ℕ) (v : IsValid a) (f : Fits a size k) where
  abbrev start : ℕ
  start = ceil k (a.base + a.offset)

  -- The call without its wrap-around.
  pub arena_alloc_lem : arena_alloc a size (2 ^ k) ≡ (
      if ltb a.capacity (start - a.base + size)
      then (none, a)
      else (some start, record a { offset = start - a.base + size }))
  unfolding arena_alloc
  arena_alloc_lem =
      let sum : add_size a.base a.offset ≡ a.base + a.offset =
        ground (arith, v, f, one-le-pow k 2) in
      let up : align_up (add_size a.base a.offset) (2 ^ k) ≡ start =
        rw sum (align_up_lem k (a.base + a.offset) f.bits f.pointer) in
      let total : add_size (sub_size start a.base) size ≡ start - a.base + size =
        ground (arith, v, f, ceil_bounds k (a.base + a.offset)) in
      rw (up, total) refl

-- What a successful call hands out.
pub record IsBlock (a : Arena) (size k p : ℕ) (a' : Arena) : Type 0 where
  pub aligned : p % 2 ^ k ≡ 0
  pub above : a.base + a.offset ≤ p
  pub padding : p < a.base + a.offset + 2 ^ k
  pub ends : p + size ≡ a'.base + a'.offset
  pub same_base : a'.base ≡ a.base
  pub same_capacity : a'.capacity ≡ a.capacity
  pub valid : IsValid a'

-- A successful call, where the alignment is a power of two below 2 ^ 64 and none of the sums of
-- arena_alloc wraps around: the block is aligned, starts at or above the free part of the region with less
-- than an alignment of padding, ends where the new free part starts, and the arena stays valid.
pub arena_alloc-IsBlock :
    (a : Arena) (size k p : ℕ)
    → IsValid a
    → Fits a size k
    → (arena_alloc a size (2 ^ k)).0 ≡ some p
    → IsBlock a size k p (arena_alloc a size (2 ^ k)).1
arena_alloc-IsBlock a size k p v f e =
    ground (arith, v, arena_alloc_lem a size k v f, ceil_bounds k (a.base + a.offset))

-- Under the same conditions, a power of two for the alignment and no sum that wraps around: a call
-- that returns NULL leaves the arena as it was, and no aligned block of that size fits into
-- the free part of the region.
pub arena_alloc_exhausted :
    (a : Arena) (size k : ℕ)
    → IsValid a
    → Fits a size k
    → (arena_alloc a size (2 ^ k)).0 ≡ none
    → ((arena_alloc a size (2 ^ k)).1 ≡ a)
      × ((q : ℕ) → q % 2 ^ k ≡ 0 → a.base + a.offset ≤ q → a.base + a.capacity < q + size)
arena_alloc_exhausted a size k v f e = (
  ground (arith, arena_alloc_lem a size k v f),
  λ q aligned above. ground (
    arith,
    arena_alloc_lem a size k v f,
    ceil_bounds k (a.base + a.offset),
    ceil_least k (a.base + a.offset) q,
  ),
)
