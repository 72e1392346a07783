-- ===== src/Arena/Overflow.antt =====
-- A request near 2 ^ 64.
use swe_daily_challenge.Base.{ℕ, ◌+◌, ◌-◌, ◌^◌, ◌<◌, ◌≡◌, some, arith}
use swe_daily_challenge.Arena.{Arena, add_size, align_up, arena_alloc}
use swe_daily_challenge.Arena.Align.{align_up_lem}
use swe_daily_challenge.Arena.Bounds.{IsValid}

-- A request of `2 ^ 64 - offset + back` bytes succeeds although it is larger than the free part of
-- the region, and moves the offset back to `back`, behind blocks that are in use.
pub arena_alloc_wraps :
    (a : Arena) (back : ℕ)
    → IsValid a
    → a.capacity < 2 ^ 64
    → back < a.offset
    → a.base + a.offset < 2 ^ 64
    → (arena_alloc a (2 ^ 64 - a.offset + back) 1
        ≡ (some (a.base + a.offset), record a { offset = back }))
      × (a.capacity - a.offset < 2 ^ 64 - a.offset + back)
unfolding arena_alloc
arena_alloc_wraps a back v word h top =
    let up : align_up (add_size a.base a.offset) 1 ≡ a.base + a.offset =
      ground (arith, align_up_lem 0 (a.base + a.offset)) in
    (rw up (ground (arith, v)), omega (arith, v))
