-- ===== src/Gcm/Openssl.antt =====
-- AES-128-GCM of OpenSSL, as its documentation describes the EVP calls.
use Prim.Native.Nat.{bit_xor}
use swe_daily_challenge.Base.{ℕ, suc, ◌≡◌, ◌≢◌, Option, none, some, List, [], ◌∷◌, ◌++◌, length}

-- The calls, each with the arguments that the wrapper varies. none is a call that fails, and a call
-- that writes bytes gives them back beside the context.
pub record Evp : Type 1 where
  pub Ctx : Type 0
  pub ctx_new : Option Ctx
  pub encrypt_init : Ctx → Option Ctx
  pub encrypt_init_key : Ctx → (key iv : List ℕ) → Option Ctx
  pub encrypt_aad : Ctx → (aad : List ℕ) → Option Ctx
  pub encrypt_update : Ctx → (bytes : List ℕ) → Option (List ℕ × Ctx)
  pub encrypt_final : Ctx → Option (List ℕ × Ctx)
  pub get_tag : Ctx → Option (List ℕ × Ctx)
  pub decrypt_init : Ctx → Option Ctx
  pub decrypt_init_key : Ctx → (key iv : List ℕ) → Option Ctx
  pub decrypt_aad : Ctx → (aad : List ℕ) → Option Ctx
  pub decrypt_update : Ctx → (bytes : List ℕ) → Option (List ℕ × Ctx)
  pub set_tag : Ctx → (tag : List ℕ) → Option Ctx
  pub decrypt_final : Ctx → Option (List ℕ × Ctx)

-- What a context has been given: the key, the nonce, the additional data and the ciphertext.
pub record Given : Type 0 where
  pub key : List ℕ
  pub iv : List ℕ
  pub aad : List ℕ
  pub ciphertext : List ℕ

-- Bytes under the keystream.
abbrev pub xor_stream : (stream : ℕ → ℕ) → (from : ℕ) → List ℕ → List ℕ
xor_stream stream from [] = []
xor_stream stream from (x ∷ xs) = bit_xor x (stream from) ∷ xor_stream stream (suc from) xs

-- What the code relies on, where a call succeeds: the bytes that it writes, and when
-- EVP_DecryptFinal_ex succeeds. `keystream` and `tag_of` are those of AES-128-GCM.
pub record IsAesGcm (evp : Evp) (keystream : (key iv : List ℕ) → ℕ → ℕ) (tag_of : Given → List ℕ)
    : Type 1 where
  pub Encrypts : evp.Ctx → Given → Type 0
  pub Decrypts : evp.Ctx → Given → Type 0
  pub Expects : evp.Ctx → Given → List ℕ → Type 0
  pub encrypt_init_key_lem :
      (c c' : evp.Ctx) (k v : List ℕ)
      → evp.encrypt_init_key c k v ≡ some c'
      → Encrypts c' (record { key = k; iv = v; aad = []; ciphertext = [] })
  pub encrypt_aad_lem :
      (c c' : evp.Ctx) (g : Given) (a : List ℕ)
      → Encrypts c g
      → evp.encrypt_aad c a ≡ some c'
      → Encrypts c' (record g { aad = g.aad ++ a })
  pub encrypt_update_lem :
      (c c' : evp.Ctx) (g : Given) (xs ys : List ℕ)
      → Encrypts c g
      → evp.encrypt_update c xs ≡ some (ys, c')
      → (ys ≡ xor_stream (keystream g.key g.iv) (length g.ciphertext) xs)
        × Encrypts c' (record g { ciphertext = g.ciphertext ++ ys })
  pub encrypt_final_lem :
      (c c' : evp.Ctx) (g : Given) (ys : List ℕ)
      → Encrypts c g
      → evp.encrypt_final c ≡ some (ys, c')
      → (ys ≡ []) × Encrypts c' g
  pub get_tag_lem :
      (c c' : evp.Ctx) (g : Given) (tag : List ℕ)
      → Encrypts c g
      → evp.get_tag c ≡ some (tag, c')
      → tag ≡ tag_of g
  pub decrypt_init_key_lem :
      (c c' : evp.Ctx) (k v : List ℕ)
      → evp.decrypt_init_key c k v ≡ some c'
      → Decrypts c' (record { key = k; iv = v; aad = []; ciphertext = [] })
  pub decrypt_aad_lem :
      (c c' : evp.Ctx) (g : Given) (a : List ℕ)
      → Decrypts c g
      → evp.decrypt_aad c a ≡ some c'
      → Decrypts c' (record g { aad = g.aad ++ a })
  pub decrypt_update_lem :
      (c c' : evp.Ctx) (g : Given) (xs ys : List ℕ)
      → Decrypts c g
      → evp.decrypt_update c xs ≡ some (ys, c')
      → (ys ≡ xor_stream (keystream g.key g.iv) (length g.ciphertext) xs)
        × Decrypts c' (record g { ciphertext = g.ciphertext ++ xs })
  pub set_tag_lem :
      (c c' : evp.Ctx) (g : Given) (tag : List ℕ)
      → Decrypts c g
      → evp.set_tag c tag ≡ some c'
      → Expects c' g tag
  pub decrypt_final_lem :
      (c c' : evp.Ctx) (g : Given) (tag ys : List ℕ)
      → Expects c g tag
      → evp.decrypt_final c ≡ some (ys, c')
      → (ys ≡ []) × (tag ≡ tag_of g)
  pub tag_size : (g : Given) → length (tag_of g) ≡ 16

-- The calls that do not fail: those in the order of the documentation, and EVP_DecryptFinal_ex for
-- the right tag.
pub record Works (evp : Evp) (keystream : (key iv : List ℕ) → ℕ → ℕ) (tag_of : Given → List ℕ)
    (gcm : IsAesGcm evp keystream tag_of) : Type 0 where
  pub new_works : evp.ctx_new ≢ none
  pub encrypt_init_works : (c : evp.Ctx) → evp.ctx_new ≡ some c → evp.encrypt_init c ≢ none
  pub encrypt_key_works :
      (c₀ c : evp.Ctx) (k v : List ℕ)
      → evp.ctx_new ≡ some c₀
      → evp.encrypt_init c₀ ≡ some c
      → evp.encrypt_init_key c k v ≢ none
  pub encrypt_aad_works :
      (c : evp.Ctx) (g : Given) (a : List ℕ) → gcm.Encrypts c g → evp.encrypt_aad c a ≢ none
  pub encrypt_update_works :
      (c : evp.Ctx) (g : Given) (xs : List ℕ) → gcm.Encrypts c g → evp.encrypt_update c xs ≢ none
  pub encrypt_final_works :
      (c : evp.Ctx) (g : Given) → gcm.Encrypts c g → evp.encrypt_final c ≢ none
  pub get_tag_works : (c : evp.Ctx) (g : Given) → gcm.Encrypts c g → evp.get_tag c ≢ none
  pub decrypt_init_works : (c : evp.Ctx) → evp.ctx_new ≡ some c → evp.decrypt_init c ≢ none
  pub decrypt_key_works :
      (c₀ c : evp.Ctx) (k v : List ℕ)
      → evp.ctx_new ≡ some c₀
      → evp.decrypt_init c₀ ≡ some c
      → evp.decrypt_init_key c k v ≢ none
  pub decrypt_aad_works :
      (c : evp.Ctx) (g : Given) (a : List ℕ) → gcm.Decrypts c g → evp.decrypt_aad c a ≢ none
  pub decrypt_update_works :
      (c : evp.Ctx) (g : Given) (xs : List ℕ) → gcm.Decrypts c g → evp.decrypt_update c xs ≢ none
  pub set_tag_works :
      (c : evp.Ctx) (g : Given) (tag : List ℕ) → gcm.Decrypts c g → evp.set_tag c tag ≢ none
  pub decrypt_final_works :
      (c : evp.Ctx) (g : Given) → gcm.Expects c g (tag_of g) → evp.decrypt_final c ≢ none
