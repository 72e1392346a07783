-- ===== src/Gcm/Laws.antt =====
-- What the wrapper gives back, by the calls that fail.
use swe_daily_challenge.Base.{
  ℕ, suc, ◌+◌, ◌≡◌, refl, ap, ap₂, ◌∙◌, ◌||◌, Bool, false, ltb, length-replicate, Option, none,
  some, List, [], ◌∷◌, length, replicate, arith, ◌⊎◌, inl, inr,
}
use swe_daily_challenge.Gcm.{
  call, write_at, past_end, Decrypted, decrypt_fails, decrypt_returns, aes_gcm_decrypt,
}
use swe_daily_challenge.Gcm.Buffers.{past_end_again, past_end_twice}
use swe_daily_challenge.Gcm.Openssl.{Evp, Given, xor_stream, IsAesGcm}

-- A call ends the function or goes on.
pub call-cases :
    {A R : Type 0} (o : Option A) (failed : R) (next : A → R) (P : R → Type 0)
    → (o ≡ none → P failed)
    → ((a : A) → o ≡ some a → P (next a))
    → P (call o failed next)
call-cases none failed next P on_none on_some = on_none refl
call-cases (some a) failed next P on_none on_some = on_some a refl

pub length-xor_stream :
    (stream : ℕ → ℕ) (from : ℕ) (xs : List ℕ) → length (xor_stream stream from xs) ≡ length xs
length-xor_stream stream from [] = refl
length-xor_stream stream from (x ∷ xs) = ap suc (length-xor_stream stream (suc from) xs)

module _ (evp : Evp) (keystream : (key iv : List ℕ) → ℕ → ℕ) (tag_of : Given → List ℕ)
    (gcm : IsAesGcm evp keystream tag_of) where
  -- How far the calls of aes_gcm_decrypt have come, each with what the one before it gave.
  module _ (key iv aad ciphertext tag_in : List ℕ) where
    abbrev pub IsStarted : evp.Ctx → Type 0
    IsStarted c = (c₀ : evp.Ctx) × (evp.ctx_new ≡ some c₀) × (evp.decrypt_init c₀ ≡ some c)

    abbrev pub IsKeyed : evp.Ctx → Type 0
    IsKeyed c = (c₁ : evp.Ctx) × IsStarted c₁ × (evp.decrypt_init_key c₁ key iv ≡ some c)

    abbrev pub IsReady : evp.Ctx → Type 0
    IsReady c = (c₂ : evp.Ctx) × IsKeyed c₂ × (evp.decrypt_aad c₂ aad ≡ some c)

    abbrev pub IsUpdated : List ℕ × evp.Ctx → Type 0
    IsUpdated u = (c₃ : evp.Ctx) × IsReady c₃ × (evp.decrypt_update c₃ ciphertext ≡ some u)

    abbrev pub IsTagged : evp.Ctx → Type 0
    IsTagged c = (u : List ℕ × evp.Ctx) × IsUpdated u × (evp.set_tag u.1 tag_in ≡ some c)

    -- One of the four calls between EVP_CIPHER_CTX_new and the first write failed.
    abbrev pub FailsEarly : Type 0
    FailsEarly =
        ((c : evp.Ctx) × (evp.ctx_new ≡ some c) × (evp.decrypt_init c ≡ none))
        ⊎ ((c : evp.Ctx) × IsStarted c × (evp.decrypt_init_key c key iv ≡ none))
        ⊎ ((c : evp.Ctx) × IsKeyed c × (evp.decrypt_aad c aad ≡ none))
        ⊎ ((c : evp.Ctx) × IsReady c × (evp.decrypt_update c ciphertext ≡ none))

  -- The returns of aes_gcm_decrypt, each with the call that leads to it: the message, with the
  -- right tag; -1 with a buffer that is not written to, where EVP_CIPHER_CTX_new or one of the four
  -- calls behind it failed; -1 with zeros, where EVP_DecryptFinal_ex failed; and -1 with the message
  -- left in the buffer, where EVP_CTRL_GCM_SET_TAG failed. The buffer is overrun where it is
  -- shorter than the ciphertext.
  unfoldable pub Verdict :
      (key iv aad ciphertext tag_in plaintext_out : List ℕ) → Decrypted → Type 0
  Verdict key iv aad ciphertext tag_in plaintext_out d =
      let given : Given = record { key = key; iv = iv; aad = aad; ciphertext = ciphertext } in
      let plain = write_at 0 (xor_stream (keystream key iv) 0 ciphertext) plaintext_out in
      let over = ltb (length plaintext_out) (length ciphertext) in
      ((tag_in ≡ tag_of given) × (d ≡ decrypt_returns (length ciphertext) over plain))
      ⊎ ((evp.ctx_new ≡ none) × (d ≡ decrypt_fails 0 false plaintext_out))
      ⊎ (FailsEarly key iv aad ciphertext tag_in × (d ≡ decrypt_fails 1 false plaintext_out))
      ⊎ (((c : evp.Ctx) × IsTagged key iv aad ciphertext tag_in c × (evp.decrypt_final c ≡ none))
          × (d ≡ decrypt_fails 0 over (write_at 0 (replicate (length ciphertext) 0) plain)))
      ⊎ (((u : List ℕ × evp.Ctx) × IsUpdated key iv aad ciphertext tag_in u
            × (evp.set_tag u.1 tag_in ≡ none))
          × (d ≡ decrypt_fails 1 over plain))

  module _ (key iv aad ciphertext tag_in plaintext_out : List ℕ) where
    abbrev stream : ℕ → ℕ
    stream = keystream key iv

    abbrev over : Bool
    over = ltb (length plaintext_out) (length ciphertext)

    -- The flag behind the first write.
    over_lem :
        (ys : List ℕ) → ys ≡ xor_stream stream 0 ciphertext → past_end 0 ys plaintext_out ≡ over
    over_lem ys same =
        ap (ltb (length plaintext_out)) {x = 0 + length ys} {y = length ciphertext}
          (omega (arith, ap length same, length-xor_stream stream 0 ciphertext))

    -- The three returns behind the first write.
    pub verified :
        (ys zs : List ℕ)
        → ys ≡ xor_stream stream 0 ciphertext
        → zs ≡ []
        → decrypt_returns
            (length ys + length zs)
            (past_end 0 ys plaintext_out || past_end (length ys) zs plaintext_out)
            (write_at (length ys) zs (write_at 0 ys plaintext_out))
          ≡ decrypt_returns
              (length ciphertext)
              over
              (write_at 0 (xor_stream stream 0 ciphertext) plaintext_out)
    verified ys zs same nothing = rw nothing (
        ap₂ (λ n b. decrypt_returns n b (write_at 0 ys plaintext_out)) size
          (past_end_again ys plaintext_out ∙ over_lem ys same)
        ∙ ap (λ out. decrypt_returns (length ciphertext) over (write_at 0 out plaintext_out)) same)
      where
        size : length ys + 0 ≡ length ciphertext
        size = omega (arith, ap length same, length-xor_stream stream 0 ciphertext)

    not_verified :
        (ys : List ℕ)
        → ys ≡ xor_stream stream 0 ciphertext
        → decrypt_fails 1 (past_end 0 ys plaintext_out) (write_at 0 ys plaintext_out)
          ≡ decrypt_fails 1 over (write_at 0 (xor_stream stream 0 ciphertext) plaintext_out)
    not_verified ys same =
        ap₂ (decrypt_fails 1) (over_lem ys same) (ap (λ out. write_at 0 out plaintext_out) same)

    zeroed :
        (ys : List ℕ)
        → ys ≡ xor_stream stream 0 ciphertext
        → decrypt_fails 0
            (past_end 0 ys plaintext_out
              || past_end 0 (replicate (length ciphertext) 0) plaintext_out)
            (write_at 0 (replicate (length ciphertext) 0) (write_at 0 ys plaintext_out))
          ≡ decrypt_fails 0 over (
              write_at 0
                (replicate (length ciphertext) 0)
                (write_at 0 (xor_stream stream 0 ciphertext) plaintext_out))
    zeroed ys same =
        ap₂ (decrypt_fails 0)
          (past_end_twice ys (replicate (length ciphertext) 0) plaintext_out (
              omega (
                arith,
                ap length same,
                length-xor_stream stream 0 ciphertext,
                length-replicate {A = ℕ} (length ciphertext) 0,
              ))
            ∙ over_lem ys same)
          (ap (λ out. write_at 0 (replicate (length ciphertext) 0) (write_at 0 out plaintext_out))
            same)

  -- aes_gcm_decrypt has these returns only: the message, and then the tag is the right one for the
  -- key, the nonce, the additional data and the ciphertext; -1 with the buffer as it was, where
  -- EVP_CIPHER_CTX_new failed or one of the four calls up to EVP_DecryptUpdate on the ciphertext,
  -- which then leaves the context allocated; -1 with the written bytes zeroed, where
  -- EVP_DecryptFinal_ex failed; and, where EVP_CTRL_GCM_SET_TAG failed, -1 with the message that is
  -- not authenticated left in the buffer. The buffer is overrun where it is shorter than the
  -- ciphertext and the decryption has written to it.
  pub aes_gcm_decrypt-Verdict :
      (key iv aad ciphertext tag_in plaintext_out : List ℕ)
      → Verdict key iv aad ciphertext tag_in plaintext_out
          (aes_gcm_decrypt evp key iv aad ciphertext tag_in plaintext_out)
  unfolding aes_gcm_decrypt Verdict
  aes_gcm_decrypt-Verdict key iv aad ciphertext tag_in plaintext_out =
      call-cases evp.ctx_new _ _ P (λ f₀. inr (inl (f₀, refl)))
        (λ c₀ e₀.
          call-cases (evp.decrypt_init c₀) _ _ P (λ f. early (inl (c₀, e₀, f)))
            (λ c₁ e₁.
              let started : IsStarted key iv aad ciphertext tag_in c₁ = (c₀, e₀, e₁) in
              call-cases (evp.decrypt_init_key c₁ key iv) _ _ P
                (λ f. early (inr (inl (c₁, started, f))))
                (λ c₂ e₂.
                  let keyed : IsKeyed key iv aad ciphertext tag_in c₂ = (c₁, started, e₂) in
                  call-cases (evp.decrypt_aad c₂ aad) _ _ P
                    (λ f. early (inr (inr (inl (c₂, keyed, f)))))
                    (λ c₃ e₃.
                      let ready : IsReady key iv aad ciphertext tag_in c₃ = (c₂, keyed, e₃) in
                      call-cases (evp.decrypt_update c₃ ciphertext) _ _ P
                        (λ f. early (inr (inr (inr (c₃, ready, f)))))
                        (λ updated e₄.
                          let is_updated : IsUpdated key iv aad ciphertext tag_in updated =
                            (c₃, ready, e₄) in
                          let (same, after) =
                            gcm.decrypt_update_lem c₃ updated.1 _ ciphertext updated.0
                              (gcm.decrypt_aad_lem c₂ c₃ _ aad
                                (gcm.decrypt_init_key_lem c₁ c₂ key iv e₂) e₃)
                              e₄ in
                          call-cases (evp.set_tag updated.1 tag_in) _ _ P
                            (λ f. inr (
                              inr (
                                inr (
                                  inr (
                                    (updated, is_updated, f),
                                    not_verified key iv aad ciphertext tag_in plaintext_out
                                        updated.0 same,
                                  )))))
                            (λ c₅ e₅.
                              call-cases (evp.decrypt_final c₅) _ _ P
                                (λ f. inr (
                                  inr (
                                    inr (
                                      inl (
                                        (c₅, (updated, is_updated, e₅), f),
                                        zeroed key iv aad ciphertext tag_in plaintext_out updated.0
                                            same,
                                      )))))
                                (λ finished e₆.
                                  let (nothing, tag) =
                                    gcm.decrypt_final_lem c₅ finished.1 _ tag_in finished.0
                                      (gcm.set_tag_lem updated.1 c₅ _ tag_in after e₅) e₆ in
                                  inl (
                                    tag,
                                    verified key iv aad ciphertext tag_in plaintext_out updated.0
                                        finished.0 same nothing,
                                  ))))))))
    where
      P : Decrypted → Type 0
      P = Verdict key iv aad ciphertext tag_in plaintext_out

      early : FailsEarly key iv aad ciphertext tag_in → P (decrypt_fails 1 false plaintext_out)
      early f = inr (inr (inl (f, refl)))
