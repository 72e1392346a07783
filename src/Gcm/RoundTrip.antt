-- ===== src/Gcm/RoundTrip.antt =====
-- A message there and back, and two messages under one nonce.
use swe_daily_challenge.Base.{
  ℕ, ◌≡◌, refl, sym, ap, ap₂, ◌∙◌, true, false, List, [], length, length-replicate, replicate, take,
  ◌&&◌, eq→==, ltb,
}
use swe_daily_challenge.Gcm.{
  call, write_at, Encrypted, Decrypted, decrypt_returns, aes_gcm_encrypt, aes_gcm_decrypt,
  normal_trip, normal_trip_with_aad, round_trip, nonce_reuse, recover, same_bytes, checks, trip_aad,
}
use swe_daily_challenge.Gcm.Openssl.{Evp, Given, xor_stream, IsAesGcm, Works}
use swe_daily_challenge.Gcm.Laws.{call-cases, length-xor_stream, verified}
use swe_daily_challenge.Gcm.Buffers.{
  write_at_whole, take-length, same_bytes_refl, xor_stream-cancel, recover-xor_stream,
}
use swe_daily_challenge.Gcm.Sent.{sent, aes_gcm_encrypt-sent}

module _ (evp : Evp) (keystream : (key iv : List ℕ) → ℕ → ℕ) (tag_of : Given → List ℕ)
    (gcm : IsAesGcm evp keystream tag_of) (works : Works evp keystream tag_of gcm) where
  aes_gcm_decrypt_lem :
      (key iv aad ciphertext plaintext_out : List ℕ)
      → aes_gcm_decrypt evp key iv aad ciphertext
          (tag_of (record { key = key; iv = iv; aad = aad; ciphertext = ciphertext }))
          plaintext_out
        ≡ decrypt_returns
            (length ciphertext)
            (ltb (length plaintext_out) (length ciphertext))
            (write_at 0 (xor_stream (keystream key iv) 0 ciphertext) plaintext_out)
  unfolding aes_gcm_decrypt
  aes_gcm_decrypt_lem key iv aad ciphertext plaintext_out =
      call-cases evp.ctx_new _ _ P (λ e. absurd (works.new_works e))
        (λ c₀ e₀.
          call-cases (evp.decrypt_init c₀) _ _ P (λ e. absurd (works.decrypt_init_works c₀ e₀ e))
            (λ c₁ e₁.
              call-cases (evp.decrypt_init_key c₁ key iv) _ _ P
                (λ e. absurd (works.decrypt_key_works c₀ c₁ key iv e₀ e₁ e))
                (λ c₂ e₂.
                  let keyed = gcm.decrypt_init_key_lem c₁ c₂ key iv e₂ in
                  call-cases (evp.decrypt_aad c₂ aad) _ _ P
                    (λ e. absurd (works.decrypt_aad_works c₂ _ aad keyed e))
                    (λ c₃ e₃.
                      let ready = gcm.decrypt_aad_lem c₂ c₃ _ aad keyed e₃ in
                      call-cases (evp.decrypt_update c₃ ciphertext) _ _ P
                        (λ e. absurd (works.decrypt_update_works c₃ _ ciphertext ready e))
                        (λ updated e₄.
                          let (same, after) =
                            gcm.decrypt_update_lem c₃ updated.1 _ ciphertext updated.0 ready e₄ in
                          call-cases (evp.set_tag updated.1 (tag_of given)) _ _ P
                            (λ e. absurd (works.set_tag_works updated.1 _ (tag_of given) after e))
                            (λ c₅ e₅.
                              let expects =
                                gcm.set_tag_lem updated.1 c₅ given (tag_of given) after e₅ in
                              call-cases (evp.decrypt_final c₅) _ _ P
                                (λ e. absurd (works.decrypt_final_works c₅ given expects e))
                                (λ finished e₆.
                                  let (nothing, _) =
                                    gcm.decrypt_final_lem c₅ finished.1 given (tag_of given)
                                      finished.0 expects e₆ in
                                  verified evp keystream tag_of gcm key iv aad ciphertext
                                    (tag_of given) plaintext_out updated.0 finished.0 same
                                    nothing)))))))
    where
      given : Given
      given = record { key = key; iv = iv; aad = aad; ciphertext = ciphertext }

      P : Decrypted → Type 0
      P d =
          d
          ≡ decrypt_returns (length ciphertext) (ltb (length plaintext_out) (length ciphertext))
              (write_at 0 (xor_stream (keystream key iv) 0 ciphertext) plaintext_out)

  -- The ciphertext that a buffer of the message's length is left with.
  sent_ct :
      (key iv aad pt tag : List ℕ)
      → (aes_gcm_encrypt evp key iv aad pt (replicate (length pt) 0) tag).ciphertext
        ≡ xor_stream (keystream key iv) 0 pt
  unfolding sent
  sent_ct key iv aad pt tag =
      ap (λ e. e.ciphertext)
        (aes_gcm_encrypt-sent evp keystream tag_of gcm works key iv aad pt (replicate (length pt) 0)
          tag)
      ∙ write_at_whole (xor_stream (keystream key iv) 0 pt) (replicate (length pt) 0)
          (length-xor_stream (keystream key iv) 0 pt ∙ sym (length-replicate (length pt) 0))

  -- Where the calls of OpenSSL work: under one key and one nonce, the two ciphertexts and the first
  -- of two messages of one length give the second.
  pub nonce_reuse_lem :
      (key iv msg₁ msg₂ tag : List ℕ)
      → length msg₁ ≡ length msg₂
      → nonce_reuse evp key iv msg₁ msg₂ tag ≡ msg₂
  nonce_reuse_lem key iv msg₁ msg₂ tag same =
      ap₂ (λ ct₁ ct₂. recover ct₁ ct₂ msg₁) (sent_ct key iv [] msg₁ tag)
        (sent_ct key iv [] msg₂ tag)
      ∙ recover-xor_stream (keystream key iv) 0 msg₁ msg₂ same

  checks-plain :
      (key iv pt ct : List ℕ)
      → ct ≡ xor_stream (keystream key iv) 0 pt
      → checks pt (
          decrypt_returns
            (length ct)
            (ltb (length (replicate {A = ℕ} (length pt) 0)) (length ct))
            (write_at 0 (xor_stream (keystream key iv) 0 ct) (replicate (length pt) 0)))
        ≡ true
  checks-plain key iv pt ct e =
      ap₂ (λ a b. a && b)
        (eq→== (length ct) (length pt) (ap length e ∙ length-xor_stream (keystream key iv) 0 pt))
        (ap (same_bytes pt) (
            ap (λ xs. write_at 0 xs (replicate (length pt) 0))
              (ap (xor_stream (keystream key iv) 0) e ∙ xor_stream-cancel (keystream key iv) 0 pt)
            ∙ write_at_whole pt (replicate (length pt) 0) (sym (length-replicate (length pt) 0)))
          ∙ same_bytes_refl pt)

  -- Decrypting what aes_gcm_encrypt gave.
  returns :
      (key iv aad pt tag : List ℕ)
      → length tag ≡ 16
      → call (aes_gcm_encrypt evp key iv aad pt (replicate (length pt) 0) tag).ret false (λ ct_len.
        checks pt (
          aes_gcm_decrypt evp key iv aad
            (take ct_len
              (aes_gcm_encrypt evp key iv aad pt (replicate (length pt) 0) tag).ciphertext)
            (aes_gcm_encrypt evp key iv aad pt (replicate (length pt) 0) tag).tag_out
            (replicate (length pt) 0)))
        ≡ true
  unfolding sent
  returns key iv aad pt tag size =
      ap
        (λ (e : Encrypted). call e.ret false (λ ct_len.
          checks pt (aes_gcm_decrypt evp key iv aad (take ct_len e.ciphertext) e.tag_out zeros)))
        (aes_gcm_encrypt-sent evp keystream tag_of gcm works key iv aad pt zeros tag)
      ∙ ap₂ (λ c t. checks pt (aes_gcm_decrypt evp key iv aad c t zeros))
          (ap₂ take (sym size_ct)
              (write_at_whole ct zeros (size_ct ∙ sym (length-replicate (length pt) 0)))
            ∙ take-length ct)
          (write_at_whole (tag_of given) tag (gcm.tag_size given ∙ sym size))
      ∙ ap (checks pt) (aes_gcm_decrypt_lem key iv aad ct zeros)
      ∙ checks-plain key iv pt ct refl
    where
      zeros : List ℕ
      zeros = replicate (length pt) 0

      ct : List ℕ
      ct = xor_stream (keystream key iv) 0 pt

      given : Given
      given = record { key = key; iv = iv; aad = aad; ciphertext = ct }

      size_ct : length ct ≡ length pt
      size_ct = length-xor_stream (keystream key iv) 0 pt

  -- Where the calls of OpenSSL work, the round trip of main gives the message back, of any length
  -- and with or without additional data.
  pub round_trip_lem :
      (key iv pt tag : List ℕ)
      → length tag ≡ 16
      → (round_trip evp key iv pt tag normal_trip ≡ true)
        × (round_trip evp key iv pt tag normal_trip_with_aad ≡ true)
  round_trip_lem key iv pt tag size =
      (returns key iv [] pt tag size, returns key iv trip_aad pt tag size)
