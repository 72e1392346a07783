-- ===== src/Gcm/Program.antt =====
-- main of 03-aes_gcm_AEAD_nonce_reuse/main.cpp.
pub mod Laws
use swe_daily_challenge.Base.{ℕ, Bool, List, [], ◌∷◌}
use swe_daily_challenge.Gcm.{
  normal_trip, normal_trip_with_aad, change_cipher, change_tag, change_aad, round_trip, nonce_reuse,
  same_bytes,
}
use swe_daily_challenge.Gcm.Openssl.{Evp}

abbrev pub main_key : List ℕ
main_key =
    0x60 ∷ 0x3d ∷ 0xeb ∷ 0x10 ∷ 0x15 ∷ 0xca ∷ 0x71 ∷ 0xbe ∷ 0x2b ∷ 0x73 ∷ 0xae ∷ 0xf0 ∷ 0x85 ∷ 0x7d
    ∷ 0x77 ∷ 0x81 ∷ 0x1f ∷ 0x35 ∷ 0x2c ∷ 0x07 ∷ 0x3b ∷ 0x61 ∷ 0x08 ∷ 0xd7 ∷ 0x2d ∷ 0x98 ∷ 0x10
    ∷ 0xa3 ∷ 0x09 ∷ 0x14 ∷ 0xdf ∷ 0xf4 ∷ []

abbrev pub main_iv : List ℕ
main_iv = 0xca ∷ 0xfe ∷ 0xba ∷ 0xbe ∷ 0xfa ∷ 0xce ∷ 0xdb ∷ 0xad ∷ 0xde ∷ 0xca ∷ 0xf8 ∷ 0x88 ∷ []

abbrev pub msg1 : List ℕ
msg1 =
    0x3a ∷ 0xd7 ∷ 0x7b ∷ 0xb4 ∷ 0x0d ∷ 0x7a ∷ 0x36 ∷ 0x60 ∷ 0xa8 ∷ 0x9e ∷ 0xca ∷ 0xf3 ∷ 0x24 ∷ 0x66
    ∷ 0xef ∷ 0x97 ∷ []

abbrev pub msg2 : List ℕ
msg2 =
    0x6b ∷ 0xc1 ∷ 0xbe ∷ 0xe2 ∷ 0x2e ∷ 0x40 ∷ 0x9f ∷ 0x96 ∷ 0xe9 ∷ 0x3d ∷ 0x7e ∷ 0x11 ∷ 0x73 ∷ 0x93
    ∷ 0x17 ∷ 0x2a ∷ 0xae ∷ 0x2d ∷ 0x8a ∷ 0x57 ∷ 0x1e ∷ 0x03 ∷ 0xac ∷ 0x9c ∷ 0x9e ∷ 0xb7 ∷ 0x6f
    ∷ 0xac ∷ 0x45 ∷ 0xaf ∷ 0x8e ∷ 0x51 ∷ 0x30 ∷ 0xc8 ∷ 0x1c ∷ 0x46 ∷ 0xa3 ∷ 0x5c ∷ 0xe4 ∷ 0x11
    ∷ 0xe5 ∷ 0xfb ∷ 0xc1 ∷ 0x19 ∷ 0x1a ∷ 0x0a ∷ 0x52 ∷ []

abbrev pub msg4 : List ℕ
msg4 =
    0x3a ∷ 0xd7 ∷ 0x7b ∷ 0xb4 ∷ 0x0d ∷ 0x7a ∷ 0x36 ∷ 0x60 ∷ 0xa8 ∷ 0x9e ∷ 0xca ∷ 0xf3 ∷ 0x24 ∷ 0x66
    ∷ 0xef ∷ 0x97 ∷ []

abbrev pub msg5 : List ℕ
msg5 =
    0xa8 ∷ 0x9e ∷ 0xca ∷ 0xf3 ∷ 0x24 ∷ 0x66 ∷ 0xef ∷ 0x97 ∷ 0x3a ∷ 0xd7 ∷ 0x7b ∷ 0xb4 ∷ 0x0d ∷ 0x7a
    ∷ 0x36 ∷ 0x60 ∷ []

-- The lines that main prints: true for OK and for YES.
pub record Printed : Type 0 where
  pub msg0_trip : Bool
  pub msg1_trip : Bool
  pub msg2_trip : Bool
  pub wrong_ciphertext : Bool
  pub wrong_tag : Bool
  pub wrong_aad : Bool
  pub with_aad : Bool
  pub recovered : Bool

-- `tag` is what the uninitialised array of each call of round_trip, and of main, holds.
unfoldable pub gcm_main : (evp : Evp) → (tag : ℕ → List ℕ) → Printed
gcm_main evp tag = record {
  msg0_trip = round_trip evp main_key main_iv [] (tag 0) normal_trip;
  msg1_trip = round_trip evp main_key main_iv msg1 (tag 1) normal_trip;
  msg2_trip = round_trip evp main_key main_iv msg2 (tag 2) normal_trip;
  wrong_ciphertext = round_trip evp main_key main_iv msg2 (tag 3) change_cipher;
  wrong_tag = round_trip evp main_key main_iv msg2 (tag 4) change_tag;
  wrong_aad = round_trip evp main_key main_iv msg2 (tag 5) change_aad;
  with_aad = round_trip evp main_key main_iv msg2 (tag 6) normal_trip_with_aad;
  recovered = same_bytes (nonce_reuse evp main_key main_iv msg4 msg5 (tag 7)) msg5;
}
