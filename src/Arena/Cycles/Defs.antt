-- ===== src/Arena/Cycles/Defs.antt =====
-- The test program of the arena. `none` is a failed assertion, or the use of a null pointer.
use swe_daily_challenge.Base.{
  ℕ, zero, suc, ◌+◌, ◌%◌, Bool, ◌||◌, Option, none, some, List, [], ◌∷◌, leb, ◌==◌, if◌then◌else◌,
}
use swe_daily_challenge.Arena.{Arena, add_size, arena_create, arena_alloc, arena_reset}

-- An entry of `sizes` with its entry of `aligns`.
pub record Request : Type 0 where
  pub size : ℕ
  pub align : ℕ

-- An entry of `allocs`.
pub record Block : Type 0 where
  pub ptr : ℕ
  pub size : ℕ

-- Both assertions on the pointer that `arena_alloc` returns.
unfoldable pub assert_block : ℕ → Option ℕ × Arena → Option (ℕ × Arena)
assert_block align (none, a) = none
assert_block align (some p, a) = if p % align == 0 then some (p, a) else none

unfoldable pub fill : Arena → List Request → Option (List Block × Arena)
unfolding assert_block
fill a [] = some ([], a)
fill a (q ∷ qs) = elim (assert_block q.align (arena_alloc a q.size q.align)) [
  | none ↦ none
  | some (p, a') ↦ elim (fill a' qs) [
    | none ↦ none
    | some (bs, a'') ↦ some (record { ptr = p; size = q.size } ∷ bs, a'')
  ]
]

-- `ai + allocs[i].size <= aj || aj + allocs[j].size <= ai`
unfoldable pub disjoint : Block → Block → Bool
disjoint b c = leb (add_size b.ptr b.size) c.ptr || leb (add_size c.ptr c.size) b.ptr

-- The inner loop over `j`.
unfoldable pub overlaps_with : Block → List Block → ℕ
unfolding disjoint
overlaps_with b [] = 0
overlaps_with b (c ∷ cs) = (if disjoint b c then 0 else 1) + overlaps_with b cs

unfoldable pub overlaps : List Block → ℕ
unfolding overlaps_with
overlaps [] = 0
overlaps (b ∷ bs) = overlaps_with b bs + overlaps bs

-- The loop over `cycle`: the number of overlaps that each cycle prints.
unfoldable pub cycles : ℕ → (first_base : ℕ) → List Request → Arena → Option (List ℕ)
unfolding fill overlaps
cycles zero first_base qs a = some []
cycles (suc n) first_base qs a = elim (fill a qs) [
  | none ↦ none
  | some (bs, a') ↦
      let rest = cycles n first_base qs (arena_reset a') in
      if a'.base == first_base
      then (if (arena_reset a').base == first_base
          then elim rest [ none ↦ none | some counts ↦ some (overlaps bs ∷ counts) ]
          else none)
      else none
]

-- The arrays `sizes` and `aligns`.
abbrev pub main_requests : List Request
main_requests =
    record { size = 1; align = 1 }
    ∷ record { size = 3; align = 4 }
    ∷ record { size = 7; align = 8 }
    ∷ record { size = 16; align = 16 }
    ∷ record { size = 4; align = 1 }
    ∷ record { size = 32; align = 64 }
    ∷ record { size = 8; align = 8 }
    ∷ record { size = 5; align = 4 }
    ∷ []

unfoldable pub run_main : (virtual_alloc : ℕ → Option ℕ) → Option (List ℕ)
unfolding cycles arena_create arena_reset
run_main virtual_alloc = elim (arena_create virtual_alloc 4096) [
  | none ↦ none
  | some a ↦ cycles 3 a.base main_requests a
]
