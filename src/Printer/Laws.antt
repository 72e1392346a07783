-- ===== src/Printer/Laws.antt =====
-- What the debugger shows of a value is what the value was made of.
use swe_daily_challenge.Base.{
  ℕ, zero, suc, ◌+◌, ◌-◌, ◌*◌, ◌/◌, ◌%◌, ◌^◌, ◌<◌, ◌≤◌, ◌≡◌, ◌≢◌, refl, sym, ap, ap₂, ◌∙◌, Option,
  none, some, List, [], ◌∷◌, ◌++◌, length, drop, arith, lt→ltb, le→ltb, ◌==◌, if◌then◌else◌, ne→==,
  Bool-cases, inl, inr, ltb, ltb→lt, ltb→le,
}
use swe_daily_challenge.Lsm.Strings.{Str, decimal, decimal_small, decimal_big}
use swe_daily_challenge.Lsm.Digits.{value_from, value_from-decimal}
use swe_daily_challenge.Printer.{
  ℤ, pos, negsuc, bits64, int64_of, to_bytes, from_bytes, Value, val_string, set_ptr, set_len,
  make_int, make_float, strlen, make_str, read_bytes, read_text, shown_str, shown_int, int_shown,
  float_shown, to_string,
}

abbrev pub bound : (width : ℕ) → ℕ
bound zero = 1
bound (suc width) = 256 * bound width

from_bytes-to_bytes :
    (width n : ℕ) (rest : List ℕ)
    → n < bound width
    → from_bytes width (to_bytes width n ++ rest) ≡ n
unfolding from_bytes to_bytes
from_bytes-to_bytes zero n rest h = omega arith
from_bytes-to_bytes (suc width) n rest h =
    omega (arith, from_bytes-to_bytes width (n / 256) rest (omega arith))

-- The numbers of an `int64_t`.
abbrev pub IsInt64 : ℤ → Type 0
IsInt64 (pos n) = n < 2 ^ 63
IsInt64 (negsuc n) = n < 2 ^ 63

int64_of-bits64 : (n : ℤ) → IsInt64 n → int64_of (bits64 n) ≡ n
unfolding int64_of
int64_of-bits64 (pos n) h = simp (lt→ltb n (2 ^ 63) h) refl
int64_of-bits64 (negsuc n) h =
    simp (le→ltb (2 ^ 64 - 1 - n) (2 ^ 63) (omega arith))
      (ap negsuc {x = 2 ^ 64 - 1 - (2 ^ 64 - 1 - n)} {y = n} (omega arith))

bits64-lt : (n : ℤ) → IsInt64 n → bits64 n < bound 8
bits64-lt (pos n) h = omega arith
bits64-lt (negsuc n) h = omega arith

-- A C string: bytes that are not NUL, and a NUL behind them.
unfoldable pub HasString : (memory : ℕ → Option ℕ) → (s : ℕ) → Str → Type 0
HasString memory s [] = memory s ≡ some 0
HasString memory s (c ∷ text) = (c ≢ 0) × (memory s ≡ some c) × HasString memory (suc s) text

-- The number that a text stands for: digits, with a minus sign or none.
abbrev pub negated : ℕ → ℤ
negated zero = pos 0
negated (suc n) = negsuc n

unfoldable pub int_value : Str → ℤ
unfolding value_from
int_value [] = pos 0
int_value (c ∷ text) =
    if c == b'-' then negated (value_from 0 text) else pos (value_from 0 (c ∷ text))

first_digit : (fuel n : ℕ) → (c : ℕ) × (rest : Str) × (decimal (suc fuel) n ≡ c ∷ rest) × (48 ≤ c)
unfolding decimal
first_digit zero n = elim (Bool-cases (ltb n 10)) [
  | inl small ↦ (48 + n, [], decimal_small 0 n (ltb→lt n 10 small), omega arith)
  | inr big ↦ (48 + n % 10, [], decimal_big 0 n (ltb→le n 10 big), omega arith)
]
first_digit (suc fuel) n =
    let (c, rest, e, low) = first_digit fuel (n / 10) in
    elim (Bool-cases (ltb n 10)) [
      | inl small ↦ (48 + n, [], decimal_small (suc fuel) n (ltb→lt n 10 small), omega arith)
      | inr big ↦ (
        c,
        rest ++ ((48 + n % 10) ∷ []),
        decimal_big (suc fuel) n (ltb→le n 10 big) ∙ ap (λ t. t ++ ((48 + n % 10) ∷ [])) e,
        low,
      )
    ]

int_value-shown_int : (n : ℤ) → IsInt64 n → int_value (shown_int n) ≡ n
unfolding int_value
int_value-shown_int (pos n) h =
    let (c, rest, e, low) = first_digit 19 n in
    ap int_value e
    ∙ ap (λ b. if b then negated (value_from 0 rest) else pos (value_from 0 (c ∷ rest)))
        (ne→== c b'-' (differs c low))
    ∙ ap (λ t. pos (value_from 0 t)) (sym e)
    ∙ ap pos (value_from-decimal 20 n (omega arith))
  where
    differs : (c : ℕ) → 48 ≤ c → c ≢ b'-'
    differs c low e = omega arith
int_value-shown_int (negsuc n) h =
    ap negated (value_from-decimal 20 (n + 1) (omega arith))
    ∙ ap negated {x = n + 1} {y = suc n} (omega arith)

module _ (memory : ℕ → Option ℕ) where
  strlen_lem :
      (text : Str) (fuel s : ℕ)
      → HasString memory s text
      → length text < fuel
      → strlen fuel memory s ≡ some (length text)
  unfolding strlen HasString
  strlen_lem text zero s h enough = absurd (omega arith)
  strlen_lem [] (suc fuel) s h enough = simp (strlen, h) refl
  strlen_lem (c ∷ text) (suc fuel) s (ne, at, rest) enough =
      let tail = strlen_lem text fuel (suc s) rest (omega arith) in
      let differs = ne→== c 0 ne in simp (strlen, at, differs, tail) refl

  read_bytes_lem :
      (text : Str) (s : ℕ) → HasString memory s text → read_bytes (length text) memory s ≡ some text
  unfolding read_bytes HasString
  read_bytes_lem [] s h = refl
  read_bytes_lem (c ∷ text) s (ne, at, rest) =
      let tail = read_bytes_lem text (suc s) rest in simp (read_bytes, at, tail) refl

  module _ (float_text : ℕ → Str) (decode : List ℕ → Option Str) where
    -- An integer is shown as the number that it was made of.
    int_lem :
        (n : ℤ) (v : Value)
        → IsInt64 n
        → to_string float_text decode memory (make_int n v) ≡ some (int_shown (shown_int n))
    unfolding to_string make_int
    int_lem n v h =
        ap (λ k. some (int_shown (shown_int k)))
          (ap int64_of (from_bytes-to_bytes 8 (bits64 n) (drop 8 v.members) (bits64-lt n h))
            ∙ int64_of-bits64 n h)

    float_lem :
        (d : ℕ) (v : Value)
        → d < 2 ^ 64
        → to_string float_text decode memory (make_float d v) ≡ some (float_shown (float_text d))
    unfolding to_string make_float
    float_lem d v h =
        ap (λ k. some (float_shown (float_text k)))
          (from_bytes-to_bytes 8 d (drop 8 v.members) (omega arith))

    -- What make_str leaves in the value.
    abbrev stored : (s len : ℕ) → Value → Value
    stored s len v = record { kind = val_string; members = set_len len (set_ptr s v.members) }

    make_str_lem :
        (text : Str) (fuel s : ℕ) (v : Value)
        → HasString memory s text
        → length text < fuel
        → make_str fuel memory s v ≡ some (stored s (length text) v)
    unfolding make_str
    make_str_lem text fuel s v h enough =
        let len = strlen_lem text fuel s h enough in simp (make_str, len) refl

    stored_ptr : (s len : ℕ) (v : Value) → s < 2 ^ 64 → from_bytes 8 (stored s len v).members ≡ s
    unfolding to_bytes
    stored_ptr s len v h =
        from_bytes-to_bytes 8 s (to_bytes 8 len ++ drop 16 (set_ptr s v.members)) (omega arith)

    stored_len :
        (s len : ℕ) (v : Value)
        → len < 2 ^ 64
        → from_bytes 8 (drop 8 (stored s len v).members) ≡ len
    unfolding to_bytes
    stored_len s len v h = from_bytes-to_bytes 8 len (drop 16 (set_ptr s v.members)) (omega arith)

    str_lem :
        (text : Str) (s : ℕ) (v : Value)
        → HasString memory s text
        → length text < 2 ^ 64
        → s < 2 ^ 64
        → to_string float_text decode memory (stored s (length text) v) ≡ shown_str (decode text)
    unfolding to_string read_text
    str_lem text s v h short low = ap shown_str (
        ap₂ (λ len ptr. read_text decode len memory ptr) (stored_len s (length text) v short)
          (stored_ptr s (length text) v low)
        ∙ ap (λ o. elim o as (λ _. Option Str) [ none ↦ none | some bytes ↦ decode bytes ])
            (read_bytes_lem text s h))

    -- Whatever the union held before: the debugger shows an int64_t as a text that stands for the
    -- number, sign included; a double as the format of its bits; and a C string in memory, of which
    -- make_str takes the length, as what its bytes are decoded to, with an error if they cannot be.
    pub to_string_lem :
        (n : ℤ) (d : ℕ) (text : Str) (s fuel : ℕ) (v : Value)
        → IsInt64 n
        → d < 2 ^ 64
        → HasString memory s text
        → s < 2 ^ 64
        → length text < 2 ^ 64
        → length text < fuel
        → (made : Value) × (shown : Str) × (make_str fuel memory s v ≡ some made)
          × (to_string float_text decode memory made ≡ shown_str (decode text))
          × (to_string float_text decode memory (make_float d v)
              ≡ some (float_shown (float_text d)))
          × (to_string float_text decode memory (make_int n v) ≡ some (int_shown shown))
          × (int_value shown ≡ n)
    to_string_lem n d text s fuel v small wide h low short enough = (
      stored s (length text) v,
      shown_int n,
      make_str_lem text fuel s v h enough,
      str_lem text s v h short low,
      float_lem d v wide,
      int_lem n v small,
      int_value-shown_int n small,
    )
