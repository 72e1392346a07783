-- ===== src/Elf/Bytes.antt =====
-- Fields of the structures of elf.h in the mapped bytes.
use swe_daily_challenge.Base.{
  ℕ, zero, suc, ◌+◌, ◌*◌, Option, none, some, List, [], ◌∷◌, get_elem?, drop,
}

infixl 5 ◌>>=◌
abbrev pub ◌>>=◌ {ℓ ℓ'} : {A : Type ℓ} {B : Type ℓ'} → Option A → (A → Option B) → Option B
none >>= k = none
some a >>= k = k a

abbrev pub add_byte : Option ℕ → Option ℕ → Option ℕ
add_byte (some b) (some rest) = some (b + 256 * rest)
add_byte (some b) none = none
add_byte none rest = none

-- A field of `width` bytes at an offset, its low byte first. none is a read outside the mapping.
unfoldable pub field : (width : ℕ) → List ℕ → (offset : ℕ) → Option ℕ
field zero base offset = some 0
field (suc width) base offset = add_byte (get_elem? base offset) (field width base (suc offset))

-- The string at the start of some bytes, up to its NUL.
unfoldable pub string_in : List ℕ → Option (List ℕ)
string_in [] = none
string_in (zero ∷ bytes) = some []
string_in (suc c ∷ bytes) = elim (string_in bytes) [ none ↦ none | some s ↦ some (suc c ∷ s) ]

unfoldable pub string_at : List ℕ → (offset : ℕ) → Option (List ℕ)
unfolding string_in
string_at base offset = string_in (drop offset base)
