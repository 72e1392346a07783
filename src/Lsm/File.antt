-- ===== src/Lsm/File.antt =====
-- The bytes of a table file: each entry as key length, key, value length, value.
use swe_daily_challenge.Base.{
  ℕ, zero, suc, ◌+◌, ◌-◌, ◌*◌, ◌/◌, ◌%◌, ◌^◌, ◌<◌, ◌≤◌, ◌≡◌, refl, ap, ◌∙◌, List, [], ◌∷◌, ◌++◌,
  ltb, if◌then◌else◌, length, length-append, take, drop, take-append, replicate, arith,
}
use swe_daily_challenge.Lsm.Strings.{Str}

-- The bytes of a `uint32_t`, on a little-endian machine.
abbrev pub le32 : ℕ → Str
le32 n = (n % 256) ∷ (n / 256 % 256) ∷ (n / 65536 % 256) ∷ (n / 16777216 % 256) ∷ []

abbrev pub le32_value : Str → ℕ
le32_value (a ∷ b ∷ c ∷ d ∷ rest) = a + b * 256 + c * 65536 + d * 16777216
le32_value other = 0

unfoldable pub encode : List (Str × Str) → Str
encode [] = []
encode ((key, val) ∷ entries) =
    le32 (length key) ++ (key ++ (le32 (length val) ++ (val ++ encode entries)))

-- The loop of readSSTable. A read past the end fills the string with what there is, leaves the rest
-- of it zero, and ends the loop at its next test.
unfoldable pub read_entries : (fuel : ℕ) → Str → List (Str × Str)
read_entries zero bytes = []
read_entries (suc fuel) bytes =
    let key_len = le32_value bytes in
    let at_key = drop 4 bytes in
    let at_val_len = drop key_len at_key in
    let val_len = le32_value at_val_len in
    let at_val = drop 4 at_val_len in
    let more = read_entries fuel (drop val_len at_val) in
    if ltb (length bytes) 4
    then []
    else (if ltb (length at_key) key_len
        then []
        else (if ltb (length at_val_len) 4
            then []
            else (if ltb (length at_val) val_len
                then (take key_len at_key, at_val ++ replicate (val_len - length at_val) 0) ∷ []
                else (take key_len at_key, take val_len at_val) ∷ more)))

abbrev pub Fits : List (Str × Str) → Type 0
Fits [] = Unit
Fits ((key, val) ∷ entries) = (length key < 2 ^ 32) × (length val < 2 ^ 32) × Fits entries

le32_value-le32 : (n : ℕ) (rest : Str) → n < 2 ^ 32 → le32_value (le32 n ++ rest) ≡ n
le32_value-le32 n rest h = omega arith

drop_key : (xs ys : Str) → drop (length xs) (xs ++ ys) ≡ ys
drop_key [] ys = refl
drop_key (x ∷ xs) ys = drop_key xs ys

read_entry :
    (fuel : ℕ) (key val rest : Str)
    → length key < 2 ^ 32
    → length val < 2 ^ 32
    → read_entries (suc fuel) (le32 (length key) ++ (key ++ (le32 (length val) ++ (val ++ rest))))
      ≡ (key, val) ∷ read_entries fuel rest
unfolding read_entries
read_entry fuel key val rest hk hv =
    simp
      (
        le32_value-le32 (length key) (key ++ (le32 (length val) ++ (val ++ rest))) hk,
        drop_key key (le32 (length val) ++ (val ++ rest)),
        le32_value-le32 (length val) (val ++ rest) hv,
        drop_key val rest,
        take-append key (le32 (length val) ++ (val ++ rest)),
        take-append val rest,
      )
      (ground
        (arith, length-append key (le32 (length val) ++ (val ++ rest)), length-append val rest))

read_entries-encode_fuel :
    (fuel : ℕ) (entries : List (Str × Str))
    → Fits entries
    → length entries < fuel
    → read_entries fuel (encode entries) ≡ entries
unfolding encode read_entries
read_entries-encode_fuel zero entries fits h = absurd (omega arith)
read_entries-encode_fuel (suc fuel) [] fits h = refl
read_entries-encode_fuel (suc fuel) ((key, val) ∷ entries) (hk, hv, fits) h =
    read_entry fuel key val (encode entries) hk hv
    ∙ ap (◌∷◌ (key, val)) (read_entries-encode_fuel fuel entries fits (omega arith))

length-encode : (entries : List (Str × Str)) → length entries ≤ length (encode entries)
unfolding encode
length-encode [] = omega arith
length-encode ((key, val) ∷ entries) = omega (
  arith,
  length-append key (le32 (length val) ++ (val ++ encode entries)),
  length-append val (encode entries),
  length-encode entries,
)

-- Keys and values below 4 GiB: reading a file gives back the entries that were written, in order.
pub read_entries-encode :
    (entries : List (Str × Str))
    → Fits entries
    → read_entries (suc (length (encode entries))) (encode entries) ≡ entries
read_entries-encode entries fits =
    read_entries-encode_fuel (suc (length (encode entries))) entries fits
      (omega (arith, length-encode entries))
