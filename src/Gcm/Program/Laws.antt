-- ===== src/Gcm/Program/Laws.antt =====
-- The lines that main prints.
use swe_daily_challenge.Base.{ℕ, ◌≡◌, refl, ap, ◌∙◌, true, List, [], length}
use swe_daily_challenge.Gcm.{nonce_reuse, same_bytes}
use swe_daily_challenge.Gcm.Openssl.{Evp, Given, IsAesGcm, Works}
use swe_daily_challenge.Gcm.Buffers.{same_bytes_refl}
use swe_daily_challenge.Gcm.RoundTrip.{round_trip_lem, nonce_reuse_lem}
use swe_daily_challenge.Gcm.Program.{main_key, main_iv, msg1, msg2, msg4, msg5, gcm_main}

module _ (evp : Evp) (keystream : (key iv : List ℕ) → ℕ → ℕ) (tag_of : Given → List ℕ)
    (gcm : IsAesGcm evp keystream tag_of) (works : Works evp keystream tag_of gcm) where
  recovered_lem :
      (tag : List ℕ) → same_bytes (nonce_reuse evp main_key main_iv msg4 msg5 tag) msg5 ≡ true
  recovered_lem tag =
      ap (λ xs. same_bytes xs msg5)
        (nonce_reuse_lem evp keystream tag_of gcm works main_key main_iv msg4 msg5 tag refl)
      ∙ same_bytes_refl msg5

  -- Where the calls of OpenSSL work, main prints OK for the three messages and for the one with
  -- additional data, and YES for the recovered message.
  pub gcm_main_lem :
      (tag : ℕ → List ℕ)
      → ((i : ℕ) → length (tag i) ≡ 16)
      → let out = gcm_main evp tag in
        (out.msg0_trip ≡ true)
        × (out.msg1_trip ≡ true)
        × (out.msg2_trip ≡ true)
        × (out.with_aad ≡ true)
        × (out.recovered ≡ true)
  unfolding gcm_main
  gcm_main_lem tag size = (
    (round_trip_lem evp keystream tag_of gcm works main_key main_iv [] (tag 0) (size 0)).0,
    (round_trip_lem evp keystream tag_of gcm works main_key main_iv msg1 (tag 1) (size 1)).0,
    (round_trip_lem evp keystream tag_of gcm works main_key main_iv msg2 (tag 2) (size 2)).0,
    (round_trip_lem evp keystream tag_of gcm works main_key main_iv msg2 (tag 6) (size 6)).1,
    recovered_lem (tag 7),
  )
