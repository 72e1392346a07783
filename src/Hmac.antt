-- ===== src/Hmac.antt =====
-- The length extension attack on a naive MAC: 10-HMAC_length_extension/main.cpp.
pub mod Sha256
pub mod Blocks
pub mod Laws
pub mod Program
pub mod Tests
use swe_daily_challenge.Base.{
  ℕ, zero, suc, ◌+◌, ◌*◌, ◌/◌, ◌%◌, ◌^◌, Bool, true, false, ◌&&◌, List, [], ◌∷◌, ◌++◌, ◌==◌, bit_or,
  length,
}
use swe_daily_challenge.Hmac.Sha256.{Sha256Ctx}

abbrev pub key_len : ℕ
key_len = 16

-- `==` of vectors.
abbrev pub bytes_eq : List ℕ → List ℕ → Bool
bytes_eq [] [] = true
bytes_eq [] (y ∷ ys) = false
bytes_eq (x ∷ xs) [] = false
bytes_eq (x ∷ xs) (y ∷ ys) = (x == y) && bytes_eq xs ys

-- `state[i]`
abbrev pub be_word : (a b c d : ℕ) → ℕ
be_word a b c d = bit_or (bit_or (bit_or (a * 2 ^ 24) (b * 2 ^ 16)) (c * 2 ^ 8)) d

-- The eight words of the token; a token that is too short would be read past its end.
unfoldable pub load_state : (words : ℕ) → List ℕ → List ℕ
load_state zero token = []
load_state (suc words) (a ∷ b ∷ c ∷ d ∷ token) = be_word a b c d ∷ load_state words token
load_state (suc words) token = []

-- `while ((length + padding_1.size()) % 64 != 56) padding_1.push_back(0x00)`, where `size` is
-- `padding_1.size()`: the zeros that are added.
unfoldable pub zeros : (fuel len size : ℕ) → List ℕ
zeros zero len size = []
zeros (suc fuel) len size = elim ((len + size) % 64 == 56) [
  | true ↦ []
  | false ↦ 0 ∷ zeros fuel len (suc size)
]

-- The loop over `i` from 7 down to 0.
unfoldable pub length_bytes : ℕ → List ℕ
length_bytes bits =
    (bits / 2 ^ 56 % 256)
    ∷ (bits / 2 ^ 48 % 256)
    ∷ (bits / 2 ^ 40 % 256)
    ∷ (bits / 2 ^ 32 % 256)
    ∷ (bits / 2 ^ 24 % 256)
    ∷ (bits / 2 ^ 16 % 256)
    ∷ (bits / 2 ^ 8 % 256)
    ∷ (bits % 256)
    ∷ []

-- `length` is a `uint32_t`, and so is `length * 8`.
unfoldable pub padding_1 : (msg_size : ℕ) → List ℕ
unfolding zeros length_bytes
padding_1 msg_size =
    let len = (key_len + msg_size) % 2 ^ 32 in
    (0x80 ∷ zeros 64 len 1) ++ length_bytes (len * 8 % 2 ^ 32)

module _ (init : Sha256Ctx) (update : Sha256Ctx → List ℕ → Sha256Ctx)
    (final : Sha256Ctx → List ℕ) where
  unfoldable pub naive_mac : (secret_key msg : List ℕ) → List ℕ
  naive_mac secret_key msg = final (update (update init secret_key) msg)

  unfoldable pub server_verify_naive : (secret_key msg token : List ℕ) → Bool
  unfolding naive_mac
  server_verify_naive secret_key msg token = bytes_eq (naive_mac secret_key msg) token

  -- The context that the attack writes by hand.
  unfoldable pub resumed : (original_msg valid_token : List ℕ) → Sha256Ctx
  resumed original_msg valid_token = record init {
    h = load_state 8 valid_token;
    nl = (key_len + length original_msg + length (padding_1 (length original_msg))) * 8 % 2 ^ 32;
    nh = 0;
    num = 0;
  }

  unfoldable pub length_extension_attack :
      (original_msg valid_token extension : List ℕ) → List ℕ × List ℕ
  length_extension_attack original_msg valid_token extension = (
    (original_msg ++ padding_1 (length original_msg)) ++ extension,
    final (update (resumed original_msg valid_token) extension),
  )

-- `HMAC` of OpenSSL is a parameter.
module _ (hmac : (key msg : List ℕ) → List ℕ) where
  unfoldable pub hmac_sha256_mac : (secret_key msg : List ℕ) → List ℕ
  hmac_sha256_mac secret_key msg = hmac secret_key msg

  unfoldable pub server_verify_hmac : (secret_key msg token : List ℕ) → Bool
  unfolding hmac_sha256_mac
  server_verify_hmac secret_key msg token = bytes_eq (hmac_sha256_mac secret_key msg) token
