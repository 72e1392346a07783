-- ===== src/Arena/Tests.antt =====
-- The arena at a region of 4096 bytes.
use swe_daily_challenge.Base.{
  ℕ, ◌+◌, ◌-◌, ◌%◌, ◌^◌, ◌≤◌, ◌<◌, ◌≡◌, refl, none, some, List, [], ◌∷◌, arith,
}
use swe_daily_challenge.Arena.{Arena, arena_create, align_up, arena_alloc, arena_destroy}
use swe_daily_challenge.Arena.Bounds.{IsBlock, arena_alloc-IsBlock, arena_alloc_exhausted}
use swe_daily_challenge.Arena.Overflow.{arena_alloc_wraps}
use swe_daily_challenge.Arena.Cycles.Defs.{Request, Block, fill, overlaps, run_main}
use swe_daily_challenge.Arena.Cycles.Laws.{ArePowers, run_main_lem}

abbrev fresh : Arena
fresh = record { base = 0x10000; capacity = 4096; offset = 24 }

abbrev used : Arena
used = record { base = 0x10000; capacity = 4096; offset = 100 }

abbrev two_requests : List Request
two_requests = record { size = 3; align = 4 } ∷ record { size = 16; align = 16 } ∷ []

abbrev two_blocks : List Block
two_blocks = record { ptr = 0x10018; size = 3 } ∷ record { ptr = 0x10020; size = 16 } ∷ []

create_and_destroy :
    (arena_create (λ n. some 0x10000) 4096 ≡ some fresh)
    × (arena_create (λ n. none) 4096 ≡ none)
    × (arena_destroy (λ region free. region ∷ free) fresh [] ≡ 0x10000 ∷ [])
unfolding arena_create arena_destroy
create_and_destroy = (refl, refl, refl)

rounds_up : align_up 0x10065 16 ≡ 0x10070
unfolding align_up
rounds_up = refl

served : arena_alloc used 7 8 ≡ (some 0x10068, record used { offset = 111 })
unfolding arena_alloc align_up
served = refl

fill_two : fill fresh two_requests ≡ some (two_blocks, record fresh { offset = 48 })
unfolding fill arena_alloc align_up
fill_two = refl

overlapping : overlaps (record { ptr = 8; size = 8 } ∷ record { ptr = 12; size = 1 } ∷ []) ≡ 1
unfolding overlaps
overlapping = refl

arena_alloc-IsBlock_example : IsBlock used 7 3 0x10068 (arena_alloc used 7 8).1
unfolding arena_alloc align_up
arena_alloc-IsBlock_example = arena_alloc-IsBlock used 7 3 0x10068 (omega arith) (omega arith) refl

arena_alloc_exhausted_example :
    ((arena_alloc used 4000 8).1 ≡ used) × ((q : ℕ) → q % 8 ≡ 0 → 0x10064 ≤ q → 0x11000 < q + 4000)
unfolding arena_alloc align_up
arena_alloc_exhausted_example = arena_alloc_exhausted used 4000 3 (omega arith) (omega arith) refl

two_requests-ArePowers : ArePowers two_requests
two_requests-ArePowers = ((2, omega arith, refl), ((4, omega arith, refl), tt))

run_main_lem_example : run_main (λ n. some 0x10000) ≡ some (0 ∷ 0 ∷ 0 ∷ [])
run_main_lem_example = run_main_lem (λ n. some 0x10000) 0x10000 refl (omega arith)

arena_alloc_wraps_example :
    (arena_alloc used (2 ^ 64 - 100 + 24) 1 ≡ (some 0x10064, record used { offset = 24 }))
    × (4096 - 100 < 2 ^ 64 - 100 + 24)
arena_alloc_wraps_example =
    arena_alloc_wraps used 24 (omega arith) (omega arith) (omega arith) (omega arith)
