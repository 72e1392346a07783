-- ===== src/Lsm/Digits.antt =====
-- The decimal form of a number, read back.
use swe_daily_challenge.Base.{
  ℕ, zero, suc, ◌+◌, ◌-◌, ◌*◌, ◌/◌, ◌%◌, ◌<◌, ◌≡◌, refl, ap, ◌∙◌, List, [], ◌∷◌, ◌++◌, ltb, ltb→lt,
  ltb→le, arith, Bool-cases, inl, inr,
}
use swe_daily_challenge.Lsm.Strings.{decimal, decimal_small, decimal_big}

-- The number that digits stand for, behind others.
unfoldable pub value_from : ℕ → List ℕ → ℕ
value_from acc [] = acc
value_from acc (c ∷ s) = value_from (acc * 10 + (c - 48)) s

value_from-append :
    (acc : ℕ) (s : List ℕ) (c : ℕ)
    → value_from acc (s ++ (c ∷ [])) ≡ value_from acc s * 10 + (c - 48)
unfolding value_from
value_from-append acc [] c = refl
value_from-append acc (d ∷ s) c = value_from-append (acc * 10 + (d - 48)) s c

abbrev pub bound : (digits : ℕ) → ℕ
bound zero = 1
bound (suc digits) = 10 * bound digits

pub value_from-decimal : (fuel n : ℕ) → n < bound fuel → value_from 0 (decimal fuel n) ≡ n
unfolding value_from decimal
value_from-decimal zero n h = omega arith
value_from-decimal (suc fuel) n h = elim (Bool-cases (ltb n 10)) [
  | inl small ↦ ap (value_from 0) (decimal_small fuel n (ltb→lt n 10 small)) ∙ one_digit n
  | inr big ↦
      ap (value_from 0) (decimal_big fuel n (ltb→le n 10 big))
      ∙ value_from-append 0 (decimal fuel (n / 10)) (48 + n % 10)
      ∙ shift (value_from-decimal fuel (n / 10) (omega arith))
]
  where
    one_digit : (n : ℕ) → value_from 0 ((48 + n) ∷ []) ≡ n
    one_digit n = omega arith

    shift : {v : ℕ} → v ≡ n / 10 → v * 10 + (48 + n % 10 - 48) ≡ n
    shift e = omega arith
