-- ===== src/Elf/Fields.antt =====
-- Bytes that stand in the mapping, read as numbers and strings.
use native.Mathlib.Nat.{pow-suc}
use swe_daily_challenge.Base.{
  ℕ, zero, suc, ◌+◌, ◌*◌, ◌/◌, ◌%◌, ◌^◌, ◌<◌, ◌≡◌, refl, ap, ap₂, ◌∙◌, some, List, [], ◌∷◌, ◌++◌,
  get_elem?, drop, arith,
}
use mathlib.Core.Option.{none-ne-some}
use swe_daily_challenge.Elf.Bytes.{add_byte, field, string_in, string_at}

-- The bytes from an offset on.
unfoldable pub At : List ℕ → (offset : ℕ) → List ℕ → Type 0
At base offset [] = Unit
At base offset (b ∷ bytes) = (get_elem? base offset ≡ some b) × At base (suc offset) bytes

-- A number in `width` bytes, its low byte first.
unfoldable pub le : (width : ℕ) → ℕ → List ℕ
le zero n = []
le (suc width) n = (n % 256) ∷ le width (n / 256)

pub field-le :
    (width : ℕ) (base : List ℕ) (offset n : ℕ)
    → n < 256 ^ width
    → At base offset (le width n)
    → field width base offset ≡ some n
unfolding At le field
field-le zero base offset n h at = ap some (omega arith)
field-le (suc width) base offset n h at =
    ap₂ add_byte at.0
      (field-le width base (suc offset) (n / 256) (omega (arith, pow-suc 256 width)) at.1)
    ∙ ap some {x = n % 256 + 256 * (n / 256)} {y = n} (omega arith)

drop_here : (xs : List ℕ) (i x : ℕ) → get_elem? xs i ≡ some x → drop i xs ≡ x ∷ drop (suc i) xs
drop_here [] i x h = absurd (none-ne-some x h)
drop_here (y ∷ xs) zero x h = ap (λ z. z ∷ xs) cc
drop_here (y ∷ xs) (suc i) x h = drop_here xs i x h

-- A string has no NUL.
unfoldable pub NoNul : List ℕ → Type 0
NoNul [] = Unit
NoNul (c ∷ s) = (0 < c) × NoNul s

string_in_step :
    (c : ℕ) (bytes s : List ℕ)
    → string_in bytes ≡ some s
    → string_in (suc c ∷ bytes) ≡ some (suc c ∷ s)
unfolding string_in
string_in_step c bytes s h = simp (string_in, h) refl

pub string_at-At :
    (base : List ℕ) (offset : ℕ) (s : List ℕ)
    → NoNul s
    → At base offset (s ++ (0 ∷ []))
    → string_at base offset ≡ some s
unfolding At NoNul string_at string_in
string_at-At base offset [] clean at = ap string_in (drop_here base offset 0 at.0)
string_at-At base offset (zero ∷ s) clean at = absurd (omega (arith, clean.0))
string_at-At base offset (suc c ∷ s) clean at =
    ap string_in (drop_here base offset (suc c) at.0)
    ∙ string_in_step c (drop (suc offset) base) s (string_at-At base (suc offset) s clean.1 at.1)
