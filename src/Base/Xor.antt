-- ===== src/Base/Xor.antt =====
-- `^` digit by digit.
use Prim.Native.Nat.{ℕ, zero, suc, ◌+◌, ◌*◌, ◌/◌, ◌%◌, ◌≤◌, ◌<◌}
use Prim.Native.Nat.{bit_xor, differ, bit_xor-bitwise}
use mathlib.Core.Path.{◌≡◌, refl, ap, ap₂, ◌∙◌}
use native.Mathlib.Omega.{arith}
use swe_daily_challenge.Base.Bits.{fuel_of_half}

differ_lem : (x y : ℕ) → x < 2 → y < 2 → differ x y ≡ (x + y) % 2
differ_lem zero y hx hy = omega arith
differ_lem (suc zero) zero hx hy = refl
differ_lem (suc zero) (suc zero) hx hy = refl
differ_lem (suc zero) (suc (suc y)) hx hy = absurd (omega arith)
differ_lem (suc (suc x)) y hx hy = absurd (omega arith)

bit_xor_step : (x y : ℕ) → bit_xor x y ≡ 2 * bit_xor (x / 2) (y / 2) + (x + y) % 2
bit_xor_step zero y = simp bit_xor-bitwise (omega arith)
bit_xor_step (suc x) y = simp bit_xor-bitwise (
    omega (
      arith,
      fuel_of_half (λ t. t) differ x (y / 2),
      differ_lem (suc x % 2) (y % 2) (omega arith) (omega arith),
    ))

pub bit_xor_half : (x y : ℕ) → bit_xor x y / 2 ≡ bit_xor (x / 2) (y / 2)
bit_xor_half x y = omega (arith, bit_xor_step x y)

pub bit_xor_digit : (x y : ℕ) → bit_xor x y % 2 ≡ (x + y) % 2
bit_xor_digit x y = omega (arith, bit_xor_step x y)

-- A number is its half and its lowest digit.
by_digit : (x y : ℕ) → x / 2 ≡ y / 2 → x % 2 ≡ y % 2 → x ≡ y
by_digit x y half digit = omega (arith, half, digit)

cancel_zero : (x k : ℕ) → x ≡ 0 → k ≡ 0 → bit_xor (bit_xor x k) k ≡ x
cancel_zero x k ex ek = rw (ex, ek) refl

cancel_below : (n x k : ℕ) → x ≤ n → k ≤ n → bit_xor (bit_xor x k) k ≡ x
cancel_below zero x k hx hk = cancel_zero x k (omega arith) (omega arith)
cancel_below (suc n) x k hx hk =
    by_digit (bit_xor (bit_xor x k) k) x
      (bit_xor_half (bit_xor x k) k
        ∙ ap (λ t. bit_xor t (k / 2)) (bit_xor_half x k)
        ∙ cancel_below n (x / 2) (k / 2) (omega arith) (omega arith))
      (omega (arith, bit_xor_digit (bit_xor x k) k, bit_xor_digit x k))

pub bit_xor-cancel : (x k : ℕ) → bit_xor (bit_xor x k) k ≡ x
bit_xor-cancel x k = cancel_below (x + k) x k (omega arith) (omega arith)

recover_zero :
    (x y k : ℕ) → x ≡ 0 → y ≡ 0 → k ≡ 0 → bit_xor (bit_xor (bit_xor x k) (bit_xor y k)) x ≡ y
recover_zero x y k ex ey ek = rw (ex, ey, ek) refl

recover_below :
    (n x y k : ℕ) → x ≤ n → y ≤ n → k ≤ n → bit_xor (bit_xor (bit_xor x k) (bit_xor y k)) x ≡ y
recover_below zero x y k hx hy hk = recover_zero x y k (omega arith) (omega arith) (omega arith)
recover_below (suc n) x y k hx hy hk =
    by_digit (bit_xor (bit_xor (bit_xor x k) (bit_xor y k)) x) y
      (bit_xor_half (bit_xor (bit_xor x k) (bit_xor y k)) x
        ∙ ap (λ t. bit_xor t (x / 2))
            (bit_xor_half (bit_xor x k) (bit_xor y k)
              ∙ ap₂ bit_xor (bit_xor_half x k) (bit_xor_half y k))
        ∙ recover_below n (x / 2) (y / 2) (k / 2) (omega arith) (omega arith) (omega arith))
      (omega (
        arith,
        bit_xor_digit (bit_xor (bit_xor x k) (bit_xor y k)) x,
        bit_xor_digit (bit_xor x k) (bit_xor y k),
        bit_xor_digit x k,
        bit_xor_digit y k,
      ))

-- Two numbers that were masked with the same mask tell each other.
pub bit_xor-recover : (x y k : ℕ) → bit_xor (bit_xor (bit_xor x k) (bit_xor y k)) x ≡ y
bit_xor-recover x y k = recover_below (x + y + k) x y k (omega arith) (omega arith) (omega arith)
