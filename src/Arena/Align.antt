-- ===== src/Arena/Align.antt =====
-- Rounding up to a multiple of a power of two.
use native.Mathlib.Nat.{
  one-le-pow, div-add-mod, mod-lt, mul-mod_left, mul-sub, div-lt_iff_lt-mul, pow-le-pow_right,
}
use swe_daily_challenge.Base.{
  ℕ, ◌+◌, ◌-◌, ◌*◌, ◌/◌, ◌%◌, ◌^◌, ◌≤◌, ◌<◌, ◌≡◌, ap, sym, ◌∙◌, arith, bit_and_high, pow-add,
}
use swe_daily_challenge.Arena.{add_size, sub_size, bit_not, align_up}

width : (k : ℕ) → k < 64 → 2 ^ (64 - k) * 2 ^ k ≡ 2 ^ 64
width k hk =
    sym (pow-add (64 - k) k) ∙ ap (λ (t : ℕ). 2 ^ t) {x = 64 - k + k} {y = 64} (omega arith)

small : (k : ℕ) → k < 64 → 2 ^ k ≤ 2 ^ 64
small k hk = pow-le-pow_right {n = 2} (omega arith) {i = k} {j = 64} (omega arith)

-- The least multiple of `2 ^ k` that is not below `x`.
abbrev pub ceil : ℕ → ℕ → ℕ
ceil k x = (x + 2 ^ k - 1) / 2 ^ k * 2 ^ k

pub ceil_bounds : (k x : ℕ) → (x ≤ ceil k x) × (ceil k x < x + 2 ^ k) × (ceil k x % 2 ^ k ≡ 0)
ceil_bounds k x = ground (
  arith,
  one-le-pow k 2,
  div-add-mod (x + 2 ^ k - 1) (2 ^ k),
  mod-lt (x + 2 ^ k - 1) {m = 2 ^ k},
  mul-mod_left ((x + 2 ^ k - 1) / 2 ^ k) (2 ^ k),
)

-- The mask `~(align - 1)` has `64 - k` ones above `k` zeros.
mask_lem : (k : ℕ) → k < 64 → bit_not (sub_size (2 ^ k) 1) ≡ (2 ^ (64 - k) - 1) * 2 ^ k
mask_lem k hk = ground (
  arith,
  small k hk,
  width k hk,
  one-le-pow k 2,
  one-le-pow (64 - k) 2,
  mul-sub (2 ^ k) (2 ^ (64 - k)) 1,
)

pub align_up_lem : (k x : ℕ) → k < 64 → x + 2 ^ k ≤ 2 ^ 64 → align_up x (2 ^ k) ≡ ceil k x
unfolding align_up
align_up_lem k x hk h = rw (mask_lem k hk, sum) (bit_and_high (64 - k) k (x + 2 ^ k - 1) fits)
  where
    sum : sub_size (add_size x (2 ^ k)) 1 ≡ x + 2 ^ k - 1
    sum = omega (arith, one-le-pow k 2)

    fits : (x + 2 ^ k - 1) / 2 ^ k < 2 ^ (64 - k)
    fits =
        (div-lt_iff_lt-mul (one-le-pow k 2 (omega arith))).1
          (omega (arith, width k hk, one-le-pow k 2))

-- No multiple of `2 ^ k` lies between.
pub ceil_least : (k x q : ℕ) → x ≤ q → q % 2 ^ k ≡ 0 → ceil k x ≤ q
ceil_least k x q h e =
    let pos : 0 < 2 ^ k = one-le-pow k 2 (omega arith) in
    let below : (x + 2 ^ k - 1) / 2 ^ k < q / 2 ^ k + 1 =
      (div-lt_iff_lt-mul pos).1 (ground (arith, div-add-mod q (2 ^ k))) in
    grind (arith, div-add-mod q (2 ^ k))
