-- ===== src/Lsm/Strings.antt =====
-- std::string as a list of bytes: comparison, and the decimal form of a number.
use mathlib.Core.Bool.{false≢true}
use swe_daily_challenge.Base.{
  ℕ, zero, suc, ◌+◌, ◌-◌, ◌/◌, ◌%◌, ◌<◌, ◌≤◌, ◌≡◌, ◌≢◌, refl, Bool, true, false, ◌&&◌, List, [],
  ◌∷◌, ◌++◌, ltb, ◌==◌, ==→eq, lt→ltb, le→ltb, ltb→lt, ltb→le, ◌∙◌, sym, subst, if◌then◌else◌,
  length, replicate, arith, Bool-cases, inl, inr,
}

abbrev pub Str : Type 0
Str = List ℕ

abbrev pub str_eq : Str → Str → Bool
str_eq [] [] = true
str_eq [] (y ∷ ys) = false
str_eq (x ∷ xs) [] = false
str_eq (x ∷ xs) (y ∷ ys) = (x == y) && str_eq xs ys

-- `a < b`, byte by byte.
abbrev pub str_lt : Str → Str → Bool
str_lt [] [] = false
str_lt [] (y ∷ ys) = true
str_lt (x ∷ xs) [] = false
str_lt (x ∷ xs) (y ∷ ys) = if ltb x y then true else (if x == y then str_lt xs ys else false)

-- The digits of an int, with fuel for the ten that it has at most.
unfoldable pub decimal : (fuel : ℕ) → ℕ → Str
decimal zero n = []
decimal (suc fuel) n =
    let front = decimal fuel (n / 10) in
    if ltb n 10 then (48 + n) ∷ [] else front ++ ((48 + n % 10) ∷ [])

-- `std::setw(4) << std::setfill('0')`
unfoldable pub padded : Str → Str
padded s = replicate (4 - length s) 48 ++ s

pub str_eq_refl : (s : Str) → str_eq s s ≡ true
str_eq_refl [] = refl
str_eq_refl (x ∷ xs) = ground (arith, str_eq_refl xs)

pub str_eq→≡ : (s t : Str) → str_eq s t ≡ true → s ≡ t
str_eq→≡ [] [] h = refl
str_eq→≡ [] (y ∷ ys) h = cc
str_eq→≡ (x ∷ xs) [] h = cc
str_eq→≡ (x ∷ xs) (y ∷ ys) h = ground (arith, str_eq→≡ xs ys, ==→eq x y)

pub str_lt-append : (p s t : Str) → str_lt (p ++ s) (p ++ t) ≡ str_lt s t
str_lt-append [] s t = refl
str_lt-append (x ∷ p) s t = ground (arith, str_lt-append p s t)

pub str_eq-append : (p s t : Str) → str_eq (p ++ s) (p ++ t) ≡ str_eq s t
str_eq-append [] s t = refl
str_eq-append (x ∷ p) s t = ground (arith, str_eq-append p s t)

pub decimal_small : (fuel n : ℕ) → n < 10 → decimal (suc fuel) n ≡ (48 + n) ∷ []
unfolding decimal
decimal_small fuel n h = simp (lt→ltb n 10 h) refl

pub decimal_big :
    (fuel n : ℕ) → 10 ≤ n → decimal (suc fuel) n ≡ decimal fuel (n / 10) ++ ((48 + n % 10) ∷ [])
unfolding decimal
decimal_big fuel n h = simp (le→ltb n 10 h) refl

four : ℕ → ℕ → ℕ → ℕ → Str
four a b c d = (48 + a) ∷ (48 + b) ∷ (48 + c) ∷ (48 + d) ∷ []

four-ap :
    {a b c d a' b' c' d' : ℕ} → a ≡ a' → b ≡ b' → c ≡ c' → d ≡ d' → four a b c d ≡ four a' b' c' d'
four-ap p q r t = cc

pad_1 : (n : ℕ) → n < 10 → padded (decimal 10 n) ≡ four 0 0 0 n
unfolding padded four
pad_1 n h = rw (decimal_small 9 n h) refl

pad_2 : (n : ℕ) → 10 ≤ n → n < 100 → padded (decimal 10 n) ≡ four 0 0 (n / 10) (n % 10)
unfolding padded four
pad_2 n h l = rw (decimal_big 9 n h, decimal_small 8 (n / 10) (omega arith)) refl

pad_3 :
    (n : ℕ)
    → 100 ≤ n
    → n < 1000
    → padded (decimal 10 n) ≡ four 0 (n / 10 / 10) (n / 10 % 10) (n % 10)
unfolding padded four
pad_3 n h l =
    rw
      (
        decimal_big 9 n (omega arith),
        decimal_big 8 (n / 10) (omega arith),
        decimal_small 7 (n / 10 / 10) (omega arith),
      )
      refl

pad_4 :
    (n : ℕ)
    → 1000 ≤ n
    → n < 10000
    → padded (decimal 10 n) ≡ four (n / 10 / 10 / 10) (n / 10 / 10 % 10) (n / 10 % 10) (n % 10)
unfolding padded four
pad_4 n h l =
    rw
      (
        decimal_big 9 n (omega arith),
        decimal_big 8 (n / 10) (omega arith),
        decimal_big 7 (n / 10 / 10) (omega arith),
        decimal_small 6 (n / 10 / 10 / 10) (omega arith),
      )
      refl

four_digits : ℕ → Str
four_digits n = four (n / 1000) (n / 100 % 10) (n / 10 % 10) (n % 10)

padded-decimal : (n : ℕ) → n < 10000 → padded (decimal 10 n) ≡ four_digits n
unfolding four_digits
padded-decimal n h = elim (Bool-cases (ltb n 10)) [
  | inl one ↦
      pad_1 n (ltb→lt n 10 one)
      ∙ four-ap (ground arith) (ground arith) (ground arith) (ground arith)
  | inr more ↦ elim (Bool-cases (ltb n 100)) [
    | inl two ↦
        pad_2 n (ltb→le n 10 more) (ltb→lt n 100 two)
        ∙ four-ap (ground arith) (ground arith) (ground arith) refl
    | inr more' ↦ elim (Bool-cases (ltb n 1000)) [
      | inl three ↦
          pad_3 n (ltb→le n 100 more') (ltb→lt n 1000 three)
          ∙ four-ap (ground arith) (ground arith) refl refl
      | inr more'' ↦
          pad_4 n (ltb→le n 1000 more'') h ∙ four-ap (ground arith) (ground arith) refl refl
    ]
  ]
]

-- Numbers of four digits compare as their digits do, whatever follows.
four_digits-lt :
    (m n : ℕ) (z : Str)
    → m < n
    → n < 10000
    → str_lt (four_digits m ++ z) (four_digits n ++ z) ≡ true
unfolding four_digits four
four_digits-lt m n z h l = ground arith

four_digits-gt :
    (m n : ℕ) (z : Str)
    → m < n
    → n < 10000
    → str_lt (four_digits n ++ z) (four_digits m ++ z) ≡ false
unfolding four_digits four
four_digits-gt m n z h l = ground arith

pub str_lt-padded :
    (m n : ℕ) (z : Str)
    → m < n
    → n < 10000
    → str_lt (padded (decimal 10 m) ++ z) (padded (decimal 10 n) ++ z) ≡ true
str_lt-padded m n z h l =
    rw (padded-decimal m (omega arith), padded-decimal n l) (four_digits-lt m n z h l)

pub str_lt-padded_back :
    (m n : ℕ) (z : Str)
    → m < n
    → n < 10000
    → str_lt (padded (decimal 10 n) ++ z) (padded (decimal 10 m) ++ z) ≡ false
str_lt-padded_back m n z h l =
    rw (padded-decimal m (omega arith), padded-decimal n l) (four_digits-gt m n z h l)

str_lt_irrefl : (s : Str) → str_lt s s ≡ false
str_lt_irrefl [] = refl
str_lt_irrefl (x ∷ xs) = ground (arith, str_lt_irrefl xs)

pub str_lt→≢ : (s t : Str) → str_lt s t ≡ true → s ≢ t
str_lt→≢ s t h e =
    false≢true (sym (subst (λ (u : Str). str_lt s u ≡ false) e (str_lt_irrefl s)) ∙ h)

pub str_eq_ne : (s t : Str) → s ≢ t → str_eq s t ≡ false
str_eq_ne s t h = elim (Bool-cases (str_eq s t)) [
  | inl same ↦ absurd (h (str_eq→≡ s t same))
  | inr other ↦ other
]
