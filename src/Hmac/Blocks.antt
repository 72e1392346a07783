-- ===== src/Hmac/Blocks.antt =====
-- Padding, hash words as bytes, and messages cut into blocks.
use swe_daily_challenge.Base.{
  ℕ, zero, suc, ◌+◌, ◌-◌, ◌*◌, ◌/◌, ◌%◌, ◌^◌, ◌<◌, ◌≤◌, ◌≡◌, refl, ap, ap₂, ◌∙◌, true, List, [],
  ◌∷◌, ◌++◌, bit_or_fields, length, length-append, length-replicate, length-drop, take, drop,
  replicate, eq→==, ne→==, arith,
}
use swe_daily_challenge.Hmac.{
  key_len, bytes_eq, be_word, load_state, zeros, length_bytes, padding_1,
}
use swe_daily_challenge.Hmac.Sha256.{
  Small, AreWords, be64, digest_bytes, padding, absorb, absorb_all,
}

pub bytes_eq_refl : (xs : List ℕ) → bytes_eq xs xs ≡ true
bytes_eq_refl [] = refl
bytes_eq_refl (x ∷ xs) = ground (arith, bytes_eq_refl xs)

be_word-be32 :
    (w : ℕ)
    → w < 2 ^ 32
    → be_word (w / 2 ^ 24 % 256) (w / 2 ^ 16 % 256) (w / 2 ^ 8 % 256) (w % 256) ≡ w
be_word-be32 w h = ground (
  arith,
  bit_or_fields 24 (w / 2 ^ 24 % 256) (w / 2 ^ 16 % 256 * 2 ^ 16) (omega arith),
  bit_or_fields 16 (w / 2 ^ 16) (w / 2 ^ 8 % 256 * 2 ^ 8) (omega arith),
  bit_or_fields 8 (w / 2 ^ 8) (w % 256) (omega arith),
)

-- The attacker reads the hash words back from the token.
pub load_state-digest_bytes :
    (words : ℕ) (h : List ℕ) → length h ≡ words → Small h → load_state words (digest_bytes h) ≡ h
unfolding load_state
load_state-digest_bytes zero [] e small = refl
load_state-digest_bytes zero (w ∷ ws) e small = absurd (omega arith)
load_state-digest_bytes (suc n) [] e small = absurd (omega arith)
load_state-digest_bytes (suc n) (w ∷ ws) e (hw, small) =
    ap₂ ◌∷◌ (be_word-be32 w hw) (load_state-digest_bytes n ws (omega arith) small)

-- The loop of the padding adds the zeros that the standard asks for.
zeros_lem :
    (fuel z len size : ℕ)
    → z < fuel
    → z < 64
    → (len + size + z) % 64 ≡ 56
    → zeros fuel len size ≡ replicate z 0
unfolding zeros
zeros_lem zero z len size h small fit = absurd (omega arith)
zeros_lem (suc fuel) zero len size h small fit =
    simp (zeros, eq→== ((len + size) % 64) 56 (omega arith)) refl
zeros_lem (suc fuel) (suc z) len size h small fit =
    simp (zeros, ne→== ((len + size) % 64) 56 (omega arith))
      (ap (◌∷◌ 0) (zeros_lem fuel z len (suc size) (omega arith) (omega arith) (omega arith)))

-- The padding of the attack is that of the message behind the key.
pub padding_1_lem : (n : ℕ) → (key_len + n) * 8 < 2 ^ 32 → padding_1 n ≡ padding (key_len + n)
unfolding padding_1 length_bytes
padding_1_lem n h =
    ap (λ (len : ℕ). (0x80 ∷ zeros 64 len 1) ++ length_bytes (len * 8 % 2 ^ 32)) {y = key_len + n}
      (omega arith)
    ∙ ap₂ (λ (zs : List ℕ) (bits : ℕ). (0x80 ∷ zs) ++ length_bytes bits)
        (zeros_lem 64 ((119 - (key_len + n) % 64) % 64) (key_len + n) 1 (omega arith) (omega arith)
          (omega arith))
        bits
  where
    bits : (key_len + n) * 8 % 2 ^ 32 ≡ (key_len + n) * 8
    bits = omega arith

pub length-padding : (n : ℕ) → (n + length (padding n)) % 64 ≡ 0
length-padding n = omega (
  arith,
  length-append (replicate ((119 - n % 64) % 64) 0) (be64 (n * 8)),
  length-replicate {A = ℕ} ((119 - n % 64) % 64) 0,
)

take-whole : (n : ℕ) (xs ys : List ℕ) → n ≤ length xs → take n (xs ++ ys) ≡ take n xs
take-whole zero xs ys h = refl
take-whole (suc n) [] ys h = absurd (omega arith)
take-whole (suc n) (x ∷ xs) ys h = ap (◌∷◌ x) (take-whole n xs ys (omega arith))

drop-whole : (n : ℕ) (xs ys : List ℕ) → n ≤ length xs → drop n (xs ++ ys) ≡ drop n xs ++ ys
drop-whole zero xs ys h = refl
drop-whole (suc n) [] ys h = absurd (omega arith)
drop-whole (suc n) (x ∷ xs) ys h = drop-whole n xs ys (omega arith)

module _ (compress : List ℕ → List ℕ → List ℕ) where
  -- Whole blocks first, then the others.
  absorb-append :
      (n a b : ℕ) (h xs ys : List ℕ)
      → n ≡ a + b
      → length xs ≡ a * 64
      → absorb compress n h (xs ++ ys) ≡ absorb compress b (absorb compress a h xs) ys
  absorb-append n zero b h [] ys e l =
      ap (λ k. absorb compress k h ys) {x = n} {y = b} (omega arith)
  absorb-append n zero b h (x ∷ xs) ys e l = absurd (omega arith)
  absorb-append zero (suc a) b h xs ys e l = absurd (omega arith)
  absorb-append (suc n) (suc a) b h xs ys e l =
      ap₂ (λ block rest. absorb compress n (compress h block) rest)
        (take-whole 64 xs ys (omega arith)) (drop-whole 64 xs ys (omega arith))
      ∙ absorb-append n a b (compress h (take 64 xs)) (drop 64 xs) ys (omega arith)
          (omega (arith, length-drop 64 xs))

  pub absorb-AreWords :
      ((h block : List ℕ) → AreWords h → AreWords (compress h block))
      → (n : ℕ) (h xs : List ℕ) → AreWords h
      → AreWords (absorb compress n h xs)
  absorb-AreWords keeps zero h xs ok = ok
  absorb-AreWords keeps (suc n) h xs ok =
      absorb-AreWords keeps n (compress h (take 64 xs)) (drop 64 xs) (keeps h (take 64 xs) ok)

  pub absorb_all-append :
      (h xs ys : List ℕ)
      → length xs % 64 ≡ 0
      → absorb_all compress h (xs ++ ys) ≡ absorb_all compress (absorb_all compress h xs) ys
  absorb_all-append h xs ys whole =
      absorb-append (length (xs ++ ys) / 64) (length xs / 64) (length ys / 64) h xs ys
        (omega (arith, length-append xs ys)) (omega arith)
