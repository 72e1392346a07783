-- ===== src/Arena/Reset.antt =====
-- `arena_reset`, and filling the region again.
use swe_daily_challenge.Base.{ℕ, ◌≡◌, some, List, [], ◌∷◌, arith, Option-cases, inl, inr}
use swe_daily_challenge.Arena.{Arena, sizeof_arena, arena_alloc, arena_reset}
use swe_daily_challenge.Arena.Cycles.Defs.{Request, Block, assert_block, fill}

abbrev SameRegion : Arena → Arena → Type 0
SameRegion a a' = (a'.base ≡ a.base) × (a'.capacity ≡ a.capacity)

assert_block-SameRegion :
    (a : Arena) (size align p : ℕ) (a' : Arena)
    → assert_block align (arena_alloc a size align) ≡ some (p, a')
    → SameRegion a a'
unfolding assert_block arena_alloc
assert_block-SameRegion a size align p a' e = ground arith

fill-SameRegion :
    (qs : List Request) (a : Arena) (bs : List Block) (a' : Arena)
    → fill a qs ≡ some (bs, a')
    → SameRegion a a'
unfolding fill
fill-SameRegion [] a bs a' e = ground arith
fill-SameRegion (q ∷ qs) a bs a' e =
    elim (Option-cases (assert_block q.align (arena_alloc a q.size q.align))) [
      | inl failed ↦ ground arith
      | inr ((p, a₁), served) ↦ elim (Option-cases (fill a₁ qs)) [
        | inl failed ↦ ground arith
        | inr ((cs, a₂), filled) ↦ ground (
          arith,
          assert_block-SameRegion a q.size q.align p a₁ served,
          fill-SameRegion qs a₁ cs a₂ filled,
        )
      ]
    ]

-- After any successful filling of a new arena, a reset brings back the new arena: the same requests
-- are served by the same blocks again.
pub fill-arena_reset :
    (a : Arena) (qs : List Request) (bs : List Block) (a' : Arena)
    → a.offset ≡ sizeof_arena
    → fill a qs ≡ some (bs, a')
    → (arena_reset a' ≡ a) × (fill (arena_reset a') qs ≡ some (bs, a'))
unfolding arena_reset
fill-arena_reset a qs bs a' fresh e =
    let same : arena_reset a' ≡ a = ground (arith, fill-SameRegion qs a bs a' e) in
    (same, rw same e)
