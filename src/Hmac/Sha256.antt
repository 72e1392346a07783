-- ===== src/Hmac/Sha256.antt =====
-- SHA-256 of OpenSSL, as FIPS 180-4 and openssl/sha.h describe it.
use swe_daily_challenge.Base.{
  ℕ, zero, suc, ◌+◌, ◌-◌, ◌*◌, ◌/◌, ◌%◌, ◌^◌, ◌<◌, ◌≡◌, List, [], ◌∷◌, ◌++◌, length, take, drop,
  replicate,
}

-- `SHA256_CTX`: the hash words, the bit count in two halves, and the bytes of an open block.
pub record Sha256Ctx : Type 0 where
  pub h : List ℕ
  pub nl : ℕ
  pub nh : ℕ
  pub data_bytes : List ℕ
  pub num : ℕ

-- Eight words of 32 bits.
abbrev pub Small : List ℕ → Type 0
Small [] = Unit
Small (w ∷ ws) = (w < 2 ^ 32) × Small ws

abbrev pub AreWords : List ℕ → Type 0
AreWords h = (length h ≡ 8) × Small h

abbrev pub be32 : ℕ → List ℕ
be32 w = (w / 2 ^ 24 % 256) ∷ (w / 2 ^ 16 % 256) ∷ (w / 2 ^ 8 % 256) ∷ (w % 256) ∷ []

abbrev pub be64 : ℕ → List ℕ
be64 n = (n / 2 ^ 56 % 256) ∷ (n / 2 ^ 48 % 256) ∷ (n / 2 ^ 40 % 256) ∷ (n / 2 ^ 32 % 256) ∷ be32 n

-- The words of a digest in order, each with its high byte first.
abbrev pub digest_bytes : List ℕ → List ℕ
digest_bytes [] = []
digest_bytes (w ∷ ws) = be32 w ++ digest_bytes ws

-- Behind a message of `n` bytes: a one, zeros up to 8 bytes before a block ends, the bit count.
abbrev pub padding : ℕ → List ℕ
padding n = 0x80 ∷ (replicate ((119 - n % 64) % 64) 0 ++ be64 (n * 8))

module _ (compress : List ℕ → List ℕ → List ℕ) where
  -- The blocks of 64 bytes go through `compress` one after the other.
  abbrev pub absorb : (blocks : ℕ) → List ℕ → List ℕ → List ℕ
  absorb zero h bytes = h
  absorb (suc blocks) h bytes = absorb blocks (compress h (take 64 bytes)) (drop 64 bytes)

  abbrev pub absorb_all : List ℕ → List ℕ → List ℕ
  absorb_all h bytes = absorb (length bytes / 64) h bytes

-- What the code relies on: SHA256_Init, SHA256_Update and SHA256_Final on a context with no open
-- block.
pub record IsSha256 (compress : List ℕ → List ℕ → List ℕ) (init : Sha256Ctx)
    (update : Sha256Ctx → List ℕ → Sha256Ctx) (final : Sha256Ctx → List ℕ) : Type 0 where
  pub words : (h block : List ℕ) → AreWords h → AreWords (compress h block)
  pub init_words : AreWords init.h
  pub init_nl : init.nl ≡ 0
  pub init_nh : init.nh ≡ 0
  pub init_num : init.num ≡ 0
  pub updates :
      (c : Sha256Ctx) (xs ys : List ℕ)
      → c.num ≡ 0
      → final (update (update c xs) ys) ≡ final (update c (xs ++ ys))
  pub finishes :
      (c : Sha256Ctx) (bytes : List ℕ)
      → c.num ≡ 0
      → c.nh ≡ 0
      → c.nl % 512 ≡ 0
      → c.nl + length bytes * 8 < 2 ^ 32
      → AreWords c.h
      → final (update c bytes)
        ≡ digest_bytes (absorb_all compress c.h (bytes ++ padding (c.nl / 8 + length bytes)))
