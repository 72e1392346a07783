-- ===== src/Arena/Cycles/Laws.antt =====
-- The test program of the arena: its assertions and its counts.
use swe_daily_challenge.Base.{
  ℕ, zero, suc, ◌+◌, ◌%◌, ◌^◌, ◌≤◌, ◌<◌, ◌≡◌, refl, ◌∙◌, Option, none, some, List, [], ◌∷◌, arith,
  replicate,
}
use swe_daily_challenge.Arena.{Arena, sizeof_arena, arena_alloc, arena_create, arena_reset}
use swe_daily_challenge.Arena.Align.{ceil, ceil_bounds}
use swe_daily_challenge.Arena.Bounds.{IsValid, Fits, IsBlock, arena_alloc_lem, arena_alloc-IsBlock}
use swe_daily_challenge.Arena.Cycles.Defs.{
  Request, Block, assert_block, fill, overlaps_with, overlaps, cycles, main_requests, run_main,
}

-- Every alignment is a power of two.
abbrev pub ArePowers : List Request → Type 0
ArePowers [] = Unit
ArePowers (q ∷ qs) = ((k : ℕ) × (k < 64) × (q.align ≡ 2 ^ k)) × ArePowers qs

-- Bytes that are enough for the requests, whatever padding they get.
abbrev pub need : List Request → ℕ
need [] = 0
need (q ∷ qs) = q.align + q.size + need qs

-- The blocks lie in `[lo, hi)`.
abbrev pub AreWithin : ℕ → ℕ → List Block → Type 0
AreWithin lo hi [] = Unit
AreWithin lo hi (b ∷ bs) = (lo ≤ b.ptr) × (b.ptr + b.size ≤ hi) × AreWithin lo hi bs

AreWithin-weaken :
    (lo lo' hi : ℕ) (bs : List Block) → lo' ≤ lo → AreWithin lo hi bs → AreWithin lo' hi bs
AreWithin-weaken lo lo' hi [] h w = tt
AreWithin-weaken lo lo' hi (b ∷ bs) h w = (omega arith, w.1, AreWithin-weaken lo lo' hi bs h w.2)

overlaps_with-eq-zero :
    (b : Block) (lo hi : ℕ) (cs : List Block)
    → b.ptr + b.size ≤ lo
    → lo ≤ 2 ^ 64
    → AreWithin lo hi cs
    → overlaps_with b cs ≡ 0
unfolding overlaps_with
overlaps_with-eq-zero b lo hi [] h top w = refl
overlaps_with-eq-zero b lo hi (c ∷ cs) h top w =
    ground (arith, overlaps_with-eq-zero b lo hi cs h top w.2)

-- What `fill` leaves: blocks that lie side by side between the old and the new free part.
pub record IsFilled (a : Arena) (qs : List Request) (bs : List Block) (a' : Arena) : Type 0 where
  pub returns : fill a qs ≡ some (bs, a')
  pub within : AreWithin (a.base + a.offset) (a'.base + a'.offset) bs
  pub apart : overlaps bs ≡ 0
  pub valid : IsValid a'
  pub same_base : a'.base ≡ a.base
  pub same_capacity : a'.capacity ≡ a.capacity
  pub grows : a.offset ≤ a'.offset

abbrev pub Filling : Arena → List Request → Type 0
Filling a qs = (bs : List Block) × (a' : Arena) × IsFilled a qs bs a'

-- One request that the free part can serve.
alloc_succeeds :
    (a : Arena) (size k : ℕ)
    → IsValid a
    → Fits a size k
    → a.offset + 2 ^ k + size ≤ a.capacity
    → (p : ℕ) × ((arena_alloc a size (2 ^ k)).0 ≡ some p)
alloc_succeeds a size k v f h = (
  ceil k (a.base + a.offset),
  ground (arith, arena_alloc_lem a size k v f, ceil_bounds k (a.base + a.offset)),
)

assert_block_lem :
    (align p : ℕ) (r : Option ℕ × Arena)
    → r.0 ≡ some p
    → p % align ≡ 0
    → assert_block align r ≡ some (p, r.1)
unfolding assert_block
assert_block_lem align p (none, a) h e = cc
assert_block_lem align p (some q, a) h e = ground arith

-- `fill` behind its first request.
IsFilled-cons :
    (a a' a'' : Arena) (q : Request) (qs : List Request) (p k : ℕ) (bs : List Block)
    → assert_block q.align (arena_alloc a q.size q.align) ≡ some (p, a')
    → IsValid a
    → IsBlock a q.size k p a'
    → IsFilled a' qs bs a''
    → IsFilled a (q ∷ qs) (record { ptr = p; size = q.size } ∷ bs) a''
IsFilled-cons a a' a'' q qs p k bs e v b f = record {
  returns = unfold fill in ground (arith, e, f.returns);
  within = (
    b.above,
    omega (arith, b, f.grows, f.same_base),
    AreWithin-weaken (a'.base + a'.offset) (a.base + a.offset) (a''.base + a''.offset) bs
        (omega (arith, b)) f.within,
  );
  apart =
      unfold overlaps in
      ground (
        arith,
        overlaps_with-eq-zero (record { ptr = p; size = q.size }) (a'.base + a'.offset)
            (a''.base + a''.offset) bs (omega (arith, b)) (omega (arith, b.valid)) f.within,
        f.apart,
      );
  valid = f.valid;
  same_base = f.same_base ∙ b.same_base;
  same_capacity = f.same_capacity ∙ b.same_capacity;
  grows = omega (arith, b, f.grows);
}

-- A valid arena with enough room serves all requests: no assertion fails, the blocks lie side by
-- side in what was the free part, and the count of overlaps is 0.
pub fill-IsFilled :
    (a : Arena) (qs : List Request)
    → IsValid a
    → ArePowers qs
    → a.offset + need qs ≤ a.capacity
    → Filling a qs
fill-IsFilled a [] v ps h = (
  [],
  a,
  record {
    returns = unfold fill in refl;
    within = tt;
    apart = unfold overlaps in refl;
    valid = v;
    same_base = refl;
    same_capacity = refl;
    grows = omega arith;
  },
)
fill-IsFilled a (q ∷ qs) v ((k, small, e), ps) h =
    let f : Fits a q.size k = record {
      bits = small;
      pointer = omega (arith, v);
      extent = omega (arith, v);
    } in
    let (p, served) = alloc_succeeds a q.size k v f (omega arith) in
    let a' = (arena_alloc a q.size (2 ^ k)).1 in
    let b = arena_alloc-IsBlock a q.size k p v f served in
    let (bs, a'', rest) = fill-IsFilled a' qs b.valid ps (omega (arith, b)) in
    (
      record { ptr = p; size = q.size } ∷ bs,
      a'',
      IsFilled-cons a a' a'' q qs p k bs
          (rw e (assert_block_lem (2 ^ k) p (arena_alloc a q.size (2 ^ k)) served b.aligned)) v b
          rest,
    )

-- After a reset the arena is as `arena_create` left it.
arena_reset_lem :
    (a a' : Arena)
    → a.offset ≡ sizeof_arena
    → a'.base ≡ a.base
    → a'.capacity ≡ a.capacity
    → arena_reset a' ≡ a
unfolding arena_reset
arena_reset_lem a a' e b c = ground arith

-- Every cycle passes its assertions and prints 0 overlaps, however many cycles there are.
pub cycles_lem :
    (n : ℕ) (qs : List Request) (a : Arena)
    → IsValid a
    → a.offset ≡ sizeof_arena
    → ArePowers qs
    → sizeof_arena + need qs ≤ a.capacity
    → cycles n a.base qs a ≡ some (replicate n 0)
unfolding cycles
cycles_lem zero qs a v e ps h = refl
cycles_lem (suc n) qs a v e ps h =
    let (bs, a', f) = fill-IsFilled a qs v ps (omega arith) in
    ground
      (arith, f, arena_reset_lem a a' e f.same_base f.same_capacity, cycles_lem n qs a v e ps h)

-- The test program prints 0 overlaps in each of its three cycles, wherever VirtualAlloc maps the
-- 4096 bytes.
pub run_main_lem :
    (virtual_alloc : ℕ → Option ℕ) (region : ℕ)
    → virtual_alloc 4096 ≡ some region
    → region + 4096 ≤ 2 ^ 64
    → run_main virtual_alloc ≡ some (0 ∷ 0 ∷ 0 ∷ [])
unfolding run_main arena_create
run_main_lem virtual_alloc region e h =
    rw (e, run_main, arena_create)
      (cycles_lem 3 main_requests (record { base = region; capacity = 4096; offset = sizeof_arena })
        (omega arith) refl powers (omega arith))
  where
    powers : ArePowers main_requests
    powers = (
      (0, omega arith, refl),
      (
        (2, omega arith, refl),
        (
          (3, omega arith, refl),
          (
            (4, omega arith, refl),
            (
              (0, omega arith, refl),
              ((6, omega arith, refl), ((3, omega arith, refl), ((2, omega arith, refl), tt))),
            ),
          ),
        ),
      ),
    )
