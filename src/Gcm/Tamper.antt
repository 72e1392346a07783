-- ===== src/Gcm/Tamper.antt =====
-- A round trip whose ciphertext, tag or additional data is changed on the way.
use mathlib.Core.Bool.{false≢true}
use swe_daily_challenge.Base.{
  ℕ, ◌≡◌, ◌≢◌, refl, sym, ap, ◌∙◌, subst, true, false, none, List, length, length-replicate,
  length-set, replicate, take, inl, inr,
}
use swe_daily_challenge.Gcm.{
  call, write_at, Encrypted, Decrypted, aes_gcm_decrypt, ForcedIssue, normal_trip,
  normal_trip_with_aad, change_cipher, change_tag, change_aad, round_trip, checks, encrypt_aad_for,
  decrypt_aad_for, tamper_ct, tamper_tag,
}
use swe_daily_challenge.Gcm.Openssl.{Evp, Given, xor_stream, IsAesGcm, Works}
use swe_daily_challenge.Gcm.Laws.{Verdict, aes_gcm_decrypt-Verdict, length-xor_stream}
use swe_daily_challenge.Gcm.Buffers.{write_at_whole, take-length}
use swe_daily_challenge.Gcm.Sent.{sent, aes_gcm_encrypt-sent}

length-tamper_ct : (issue : ForcedIssue) (ct : List ℕ) → length (tamper_ct issue ct) ≡ length ct
length-tamper_ct normal_trip ct = refl
length-tamper_ct normal_trip_with_aad ct = refl
length-tamper_ct change_cipher ct = length-set ct 0 0
length-tamper_ct change_tag ct = refl
length-tamper_ct change_aad ct = refl

checks-failed : (pt : List ℕ) (d : Decrypted) → d.ret ≡ none → checks pt d ≢ true
checks-failed pt d e h = false≢true (simp (checks, e) at h)

module _ (evp : Evp) (keystream : (key iv : List ℕ) → ℕ → ℕ) (tag_of : Given → List ℕ)
    (gcm : IsAesGcm evp keystream tag_of) where
  accepts_lem :
      (key iv aad ct tag out pt : List ℕ) (d : Decrypted)
      → Verdict evp keystream tag_of gcm key iv aad ct tag out d
      → checks pt d ≡ true
      → tag ≡ tag_of (record { key = key; iv = iv; aad = aad; ciphertext = ct })
  unfolding Verdict
  accepts_lem key iv aad ct tag out pt d (inl (same, _)) h = same
  accepts_lem key iv aad ct tag out pt d (inr (inl (_, e))) h =
      absurd (checks-failed pt d (ap (λ r. r.ret) e) h)
  accepts_lem key iv aad ct tag out pt d (inr (inr (inl (_, e)))) h =
      absurd (checks-failed pt d (ap (λ r. r.ret) e) h)
  accepts_lem key iv aad ct tag out pt d (inr (inr (inr (inl (_, e))))) h =
      absurd (checks-failed pt d (ap (λ r. r.ret) e) h)
  accepts_lem key iv aad ct tag out pt d (inr (inr (inr (inr (_, e))))) h =
      absurd (checks-failed pt d (ap (λ r. r.ret) e) h)

  module _ (works : Works evp keystream tag_of gcm) where
    -- What goes out and what comes in.
    abbrev pub outgoing : (key iv pt : List ℕ) → ForcedIssue → Given
    outgoing key iv pt issue = record {
      key = key;
      iv = iv;
      aad = encrypt_aad_for issue;
      ciphertext = xor_stream (keystream key iv) 0 pt;
    }

    abbrev pub incoming : (key iv pt : List ℕ) → ForcedIssue → Given
    incoming key iv pt issue = record {
      key = key;
      iv = iv;
      aad = decrypt_aad_for issue;
      ciphertext = tamper_ct issue (xor_stream (keystream key iv) 0 pt);
    }

    -- A round trip of main says OK only if the tag that comes in is the right one for what comes in.
    pub round_trip-tag :
        (key iv pt tag : List ℕ) (issue : ForcedIssue)
        → length tag ≡ 16
        → round_trip evp key iv pt tag issue ≡ true
        → tamper_tag issue (tag_of (outgoing key iv pt issue)) ≡ tag_of (incoming key iv pt issue)
    unfolding sent
    round_trip-tag key iv pt tag issue size h =
        ap (tamper_tag issue) (sym whole_tag)
        ∙ accepts_lem key iv (decrypt_aad_for issue)
            (take (length pt) (tamper_ct issue (write_at 0 ct zeros)))
            (tamper_tag issue (write_at 0 (tag_of (outgoing key iv pt issue)) tag)) zeros pt _
            (aes_gcm_decrypt-Verdict evp keystream tag_of gcm key iv (decrypt_aad_for issue)
              (take (length pt) (tamper_ct issue (write_at 0 ct zeros)))
              (tamper_tag issue (write_at 0 (tag_of (outgoing key iv pt issue)) tag)) zeros)
            (subst
              (λ (e : Encrypted).
                call e.ret false (λ ct_len. checks pt (
                  aes_gcm_decrypt evp key iv (decrypt_aad_for issue)
                    (take ct_len (tamper_ct issue e.ciphertext)) (tamper_tag issue e.tag_out)
                    zeros))
                ≡ true)
              (aes_gcm_encrypt-sent evp keystream tag_of gcm works key iv (encrypt_aad_for issue) pt
                zeros tag)
              h)
        ∙ ap (λ c. tag_of (record (incoming key iv pt issue) { ciphertext = c }))
            (ap (λ c. take (length pt) (tamper_ct issue c)) whole_ct
              ∙ ap (λ n. take n (tamper_ct issue ct))
                  (sym size_ct ∙ sym (length-tamper_ct issue ct))
              ∙ take-length (tamper_ct issue ct))
      where
        zeros : List ℕ
        zeros = replicate (length pt) 0

        ct : List ℕ
        ct = xor_stream (keystream key iv) 0 pt

        size_ct : length ct ≡ length pt
        size_ct = length-xor_stream (keystream key iv) 0 pt

        whole_ct : write_at 0 ct zeros ≡ ct
        whole_ct = write_at_whole ct zeros (size_ct ∙ sym (length-replicate (length pt) 0))

        whole_tag :
            write_at 0 (tag_of (outgoing key iv pt issue)) tag ≡ tag_of (outgoing key iv pt issue)
        whole_tag =
            write_at_whole (tag_of (outgoing key iv pt issue)) tag
              (gcm.tag_size (outgoing key iv pt issue) ∙ sym size)
