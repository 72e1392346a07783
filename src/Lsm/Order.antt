-- ===== src/Lsm/Order.antt =====
-- `<` on std::string is a total order.
use swe_daily_challenge.Base.{
  ℕ, ◌≤◌, ◌≡◌, refl, sym, ap, subst, true, false, [], ◌∷◌, arith, inl, inr, ◌⊎◌, Bool-cases, ltb,
  ltb→lt, ltb→le,
}
use swe_daily_challenge.Lsm.Strings.{Str, str_lt}

str_lt_trans : (p q r : Str) → str_lt p q ≡ true → str_lt q r ≡ true → str_lt p r ≡ true
str_lt_trans [] [] r h k = cc
str_lt_trans [] (y ∷ q) [] h k = cc
str_lt_trans [] (y ∷ q) (z ∷ r) h k = refl
str_lt_trans (x ∷ p) [] r h k = cc
str_lt_trans (x ∷ p) (y ∷ q) [] h k = cc
str_lt_trans (x ∷ p) (y ∷ q) (z ∷ r) h k = ground (arith, str_lt_trans p q r)

-- Two strings compare in one way, or are the same.
abbrev pub Compared : Str → Str → Type 0
Compared p q =
    ((str_lt p q ≡ true) × (str_lt q p ≡ false))
    ⊎ ((str_lt q p ≡ true) × (str_lt p q ≡ false))
    ⊎ (p ≡ q)

Compared-cons : (x : ℕ) (p q : Str) → Compared p q → Compared (x ∷ p) (x ∷ q)
Compared-cons x p q (inl h) = inl (ground (arith, h.0), ground (arith, h.1))
Compared-cons x p q (inr (inl h)) = inr (inl (ground (arith, h.0), ground (arith, h.1)))
Compared-cons x p q (inr (inr e)) = inr (inr (ap (◌∷◌ x) e))

Compared-heads : (x y : ℕ) (p q : Str) → Compared p q → Compared (x ∷ p) (y ∷ q)
Compared-heads x y p q h = elim (Bool-cases (ltb x y)) [
  | inl t ↦ let lt = ltb→lt x y t in inl (ground arith, ground arith)
  | inr f ↦ elim (Bool-cases (ltb y x)) [
    | inl t ↦ let lt = ltb→lt y x t in inr (inl (ground arith, ground arith))
    | inr g ↦
        let a = ltb→le x y f in
        let b = ltb→le y x g in
        subst (λ k. Compared (x ∷ p) (k ∷ q)) (same a b) (Compared-cons x p q h)
  ]
]
  where
    same : y ≤ x → x ≤ y → x ≡ y
    same a b = omega (arith, a, b)

pub compared : (p q : Str) → Compared p q
compared [] [] = inr (inr refl)
compared [] (y ∷ q) = inl (refl, refl)
compared (x ∷ p) [] = inr (inl (refl, refl))
compared (x ∷ p) (y ∷ q) = Compared-heads x y p q (compared p q)

pub lt_of_lt_ge : (p q r : Str) → str_lt p r ≡ true → str_lt q r ≡ false → str_lt p q ≡ true
lt_of_lt_ge p q r h k = elim (compared q r) [
  | inl (lt, _) ↦ cc
  | inr (inl (gt, _)) ↦ str_lt_trans p r q h gt
  | inr (inr e) ↦ subst (λ s. str_lt p s ≡ true) (sym e) h
]
