-- ===== src/Base/Bits.antt =====
-- `&` and `|` at variables, as arithmetic.
use Prim.Native.Nat.{ℕ, zero, suc, ◌+◌, ◌-◌, ◌*◌, ◌/◌, ◌%◌, ◌^◌, ◌≤◌, ◌<◌, min, max}
use Prim.Native.Nat.{bit_and, bit_or, digits, bitwise, bit_and-bitwise, bit_or-bitwise}
use mathlib.Core.Path.{◌≡◌, refl, ap, ◌∙◌}
use native.Mathlib.Nat.{pow-suc, one-le-pow, suc-add, add-zero, add-suc}
use native.Mathlib.Omega.{arith}

-- The fuel that `bitwise` starts from is the first number, and spare fuel is not used.
spare_fuel :
    (on_zero : ℕ → ℕ) (digit : ℕ → ℕ → ℕ) (spare fuel x y : ℕ)
    → x ≤ fuel
    → digits on_zero digit (fuel + spare) x y ≡ digits on_zero digit fuel x y
spare_fuel on_zero digit zero zero zero y h = refl
spare_fuel on_zero digit (suc spare) zero zero y h = simp add-suc refl
spare_fuel on_zero digit spare (suc fuel) zero y h = simp suc-add refl
spare_fuel on_zero digit spare zero (suc x) y h = absurd (omega arith)
spare_fuel on_zero digit spare (suc fuel) (suc x) y h =
    simp suc-add
      (omega (arith, spare_fuel on_zero digit spare fuel (suc x / 2) (y / 2) (omega arith)))

pub fuel_of_half :
    (on_zero : ℕ → ℕ) (digit : ℕ → ℕ → ℕ) (x y : ℕ)
    → digits on_zero digit x (suc x / 2) y ≡ bitwise on_zero digit (suc x / 2) y
fuel_of_half on_zero digit x y =
    ap (λ (fuel : ℕ). digits on_zero digit fuel (suc x / 2) y) split
    ∙ spare_fuel on_zero digit (x - suc x / 2) (suc x / 2) (suc x / 2) y (omega arith)
  where
    split : x ≡ suc x / 2 + (x - suc x / 2)
    split = omega arith

-- One equation for the lowest binary digit of each operation.
pub bit_or_step : (x y : ℕ) → bit_or x y ≡ 2 * bit_or (x / 2) (y / 2) + max (x % 2) (y % 2)
bit_or_step zero y = simp bit_or-bitwise (omega arith)
bit_or_step (suc x) y = simp bit_or-bitwise (omega (arith, fuel_of_half (λ t. t) max x (y / 2)))

pub bit_and_step : (x y : ℕ) → bit_and x y ≡ 2 * bit_and (x / 2) (y / 2) + min (x % 2) (y % 2)
bit_and_step zero y = simp bit_and-bitwise (omega arith)
bit_and_step (suc x) y = simp bit_and-bitwise (omega (arith, fuel_of_half (λ t. 0) min x (y / 2)))

or_nothing_below : (bound x : ℕ) → x < bound → bit_or x 0 ≡ x
or_nothing_below zero x h = absurd (omega arith)
or_nothing_below (suc bound) zero h = refl
or_nothing_below (suc bound) (suc x) h =
    omega (arith, or_nothing_below bound (suc x / 2) (omega arith), bit_or_step (suc x) 0)

and_nothing_below : (bound x : ℕ) → x < bound → bit_and x 0 ≡ 0
and_nothing_below zero x h = absurd (omega arith)
and_nothing_below (suc bound) zero h = refl
and_nothing_below (suc bound) (suc x) h =
    omega (arith, and_nothing_below bound (suc x / 2) (omega arith), bit_and_step (suc x) 0)

pub bit_or-zero : (x : ℕ) → bit_or x 0 ≡ x
bit_or-zero x = or_nothing_below (suc x) x (omega arith)

pub bit_and-zero : (x : ℕ) → bit_and x 0 ≡ 0
bit_and-zero x = and_nothing_below (suc x) x (omega arith)

field_of_one_more : (high w : ℕ) → high * 2 ^ suc w ≡ high * 2 ^ w + high * 2 ^ w
field_of_one_more high w = omega (arith, ap (λ (t : ℕ). high * t) (pow-suc 2 w))

-- A field that is shifted past `w` bits, and a field in those: `|` adds them up.
pub bit_or_fields : (w high low : ℕ) → low < 2 ^ w → bit_or (high * 2 ^ w) low ≡ high * 2 ^ w + low
bit_or_fields zero high low h = ground (arith, bit_or-zero high)
bit_or_fields (suc w) high low h = ground (
  arith,
  bit_or_fields w high (low / 2) (omega (arith, pow-suc 2 w)),
  field_of_one_more high w,
  bit_or_step (high * 2 ^ suc w) low,
  pow-suc 2 w,
)

bit_and_fields : (w high low : ℕ) → low < 2 ^ w → bit_and (high * 2 ^ w + low) (2 ^ w - 1) ≡ low
bit_and_fields zero high low h = omega (arith, bit_and-zero (high * 1 + low))
bit_and_fields (suc w) high low h = ground (
  arith,
  bit_and_fields w high (low / 2) (omega (arith, pow-suc 2 w)),
  field_of_one_more high w,
  bit_and_step (high * 2 ^ suc w + low) (2 ^ suc w - 1),
  pow-suc 2 w,
)

-- A mask of `w` ones takes the remainder by `2 ^ w`.
pub bit_and_mask : (w x : ℕ) → bit_and x (2 ^ w - 1) ≡ x % 2 ^ w
bit_and_mask w x = ground (arith, bit_and_fields w (x / 2 ^ w) (x % 2 ^ w), one-le-pow w 2)

bit_and_round :
    (n k q r : ℕ)
    → q < 2 ^ n
    → r < 2 ^ k
    → bit_and (q * 2 ^ k + r) ((2 ^ n - 1) * 2 ^ k) ≡ q * 2 ^ k
bit_and_round n zero q r hq hr = ground (arith, bit_and_fields n 0 q hq)
bit_and_round n (suc k) q r hq hr = ground (
  arith,
  bit_and_step (q * 2 ^ suc k + r) ((2 ^ n - 1) * 2 ^ suc k),
  field_of_one_more q k,
  field_of_one_more (2 ^ n - 1) k,
  bit_and_round n k q (r / 2) hq (omega (arith, pow-suc 2 k)),
)

-- A mask of `n` ones above `k` zeros rounds a number of `n + k` bits down to a multiple of `2 ^ k`.
pub bit_and_high :
    (n k a : ℕ) → a / 2 ^ k < 2 ^ n → bit_and a ((2 ^ n - 1) * 2 ^ k) ≡ a / 2 ^ k * 2 ^ k
bit_and_high n k a h = ground (arith, one-le-pow k 2, bit_and_round n k (a / 2 ^ k) (a % 2 ^ k) h)

pub pow-add : (n k : ℕ) → 2 ^ (n + k) ≡ 2 ^ n * 2 ^ k
pow-add n zero = rw add-zero (omega arith)
pow-add n (suc k) = rw (add-suc, pow-suc 2 (n + k), pow-suc 2 k) (grind (arith, pow-add n k))
