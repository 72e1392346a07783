-- ===== src/Gcm/Sent.antt =====
-- What aes_gcm_encrypt gives where its calls succeed.
use swe_daily_challenge.Base.{ℕ, ◌+◌, ◌≡◌, ap₂, ◌||◌, some, List, [], length, arith}
use swe_daily_challenge.Gcm.{write_at, past_end, Encrypted, aes_gcm_encrypt}
use swe_daily_challenge.Gcm.Openssl.{Evp, Given, xor_stream, IsAesGcm, Works}
use swe_daily_challenge.Gcm.Buffers.{past_end_again}
use swe_daily_challenge.Gcm.Laws.{call-cases, length-xor_stream}

module _ (evp : Evp) (keystream : (key iv : List ℕ) → ℕ → ℕ) (tag_of : Given → List ℕ)
    (gcm : IsAesGcm evp keystream tag_of) (works : Works evp keystream tag_of gcm) where
  -- What the wrapper is to give for a message, and for a ciphertext.
  unfoldable pub sent : (key iv aad plaintext ciphertext tag_out : List ℕ) → Encrypted
  sent key iv aad plaintext ciphertext tag_out =
      let ct = xor_stream (keystream key iv) 0 plaintext in
      record {
        ret = some (length plaintext);
        ciphertext = write_at 0 ct ciphertext;
        tag_out =
            write_at 0 (tag_of (record { key = key; iv = iv; aad = aad; ciphertext = ct })) tag_out;
        leaked = 0;
        overrun =
            past_end 0 ct ciphertext
            || past_end 0 (tag_of (record { key = key; iv = iv; aad = aad; ciphertext = ct }))
                tag_out;
      }

  pub aes_gcm_encrypt-sent :
      (key iv aad plaintext ciphertext tag_out : List ℕ)
      → aes_gcm_encrypt evp key iv aad plaintext ciphertext tag_out
        ≡ sent key iv aad plaintext ciphertext tag_out
  unfolding aes_gcm_encrypt sent
  aes_gcm_encrypt-sent key iv aad plaintext ciphertext tag_out =
      call-cases evp.ctx_new _ _ P (λ e. absurd (works.new_works e))
        (λ c₀ e₀.
          call-cases (evp.encrypt_init c₀) _ _ P (λ e. absurd (works.encrypt_init_works c₀ e₀ e))
            (λ c₁ e₁.
              call-cases (evp.encrypt_init_key c₁ key iv) _ _ P
                (λ e. absurd (works.encrypt_key_works c₀ c₁ key iv e₀ e₁ e))
                (λ c₂ e₂.
                  let keyed = gcm.encrypt_init_key_lem c₁ c₂ key iv e₂ in
                  call-cases (evp.encrypt_aad c₂ aad) _ _ P
                    (λ e. absurd (works.encrypt_aad_works c₂ _ aad keyed e))
                    (λ c₃ e₃.
                      let ready = gcm.encrypt_aad_lem c₂ c₃ _ aad keyed e₃ in
                      call-cases (evp.encrypt_update c₃ plaintext) _ _ P
                        (λ e. absurd (works.encrypt_update_works c₃ _ plaintext ready e))
                        (λ updated e₄.
                          let (same, after) =
                            gcm.encrypt_update_lem c₃ updated.1 _ plaintext updated.0 ready e₄ in
                          call-cases (evp.encrypt_final updated.1) _ _ P
                            (λ e. absurd (works.encrypt_final_works updated.1 _ after e))
                            (λ finished e₅.
                              let (nothing, ended) =
                                gcm.encrypt_final_lem updated.1 finished.1 _ finished.0 after e₅ in
                              call-cases (evp.get_tag finished.1) _ _ P
                                (λ e. absurd (works.get_tag_works finished.1 _ ended e))
                                (λ got e₆.
                                  put updated.0 finished.0 got.0 same nothing
                                    (gcm.get_tag_lem finished.1 got.1 _ got.0 ended e₆))))))))
    where
      P : Encrypted → Type 0
      P e = e ≡ sent key iv aad plaintext ciphertext tag_out

      stream : ℕ → ℕ
      stream = keystream key iv

      put :
          (ys zs tag : List ℕ)
          → ys ≡ xor_stream stream 0 plaintext
          → zs ≡ []
          → tag ≡ tag_of (record { key = key; iv = iv; aad = aad; ciphertext = ys })
          → P (record {
            ret = some (length ys + length zs);
            ciphertext = write_at (length ys) zs (write_at 0 ys ciphertext);
            tag_out = write_at 0 tag tag_out;
            leaked = 0;
            overrun =
                (past_end 0 ys ciphertext || past_end (length ys) zs ciphertext)
                || past_end 0 tag tag_out;
          })
      put ys zs tag same nothing tagged =
          rw (nothing, tagged, same)
            (ap₂
              (λ n over. record {
                ret = some n;
                ciphertext = write_at 0 ct ciphertext;
                tag_out = write_at 0 right_tag tag_out;
                leaked = 0;
                overrun = over || past_end 0 right_tag tag_out;
              })
              size (past_end_again ct ciphertext))
        where
          ct : List ℕ
          ct = xor_stream stream 0 plaintext

          right_tag : List ℕ
          right_tag = tag_of (record { key = key; iv = iv; aad = aad; ciphertext = ct })

          size : length ct + 0 ≡ length plaintext
          size = omega (arith, length-xor_stream stream 0 plaintext)
