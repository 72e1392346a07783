-- ===== src/Gcm.antt =====
-- The AES-GCM wrapper: 03-aes_gcm_AEAD_nonce_reuse/aes_gcm.cpp and main.cpp.
pub mod Openssl
pub mod Laws
pub mod Buffers
pub mod Sent
pub mod RoundTrip
pub mod Tamper
pub mod Program
pub mod Tests
use Prim.Native.Nat.{bit_xor}
use swe_daily_challenge.Base.{
  ℕ, zero, suc, ◌+◌, ◌≡◌, Bool, true, false, Option, none, some, List, [], ◌∷◌, ◌++◌, ◌==◌, ◌&&◌,
  ◌||◌, ltb, length, set, replicate, take,
}
use swe_daily_challenge.Gcm.Openssl.{Evp}

-- Bytes written to a buffer from `at` on, as far as it goes.
abbrev pub write_at : (at : ℕ) → List ℕ → List ℕ → List ℕ
write_at at [] buf = buf
write_at at (x ∷ xs) buf = write_at (suc at) xs (set buf at x)

-- Whether that write goes past the end of the buffer.
abbrev pub past_end : (at : ℕ) → List ℕ → List ℕ → Bool
past_end at xs buf = ltb (length buf) (at + length xs)

-- A call that fails ends the function with `failed`.
abbrev pub call : {A R : Type 0} → Option A → (failed : R) → (A → R) → R
call none failed next = failed
call (some a) failed next = next a

-- The returned number, where none is -1, the buffers, the contexts that are left allocated, and
-- whether a byte was written past the end of a buffer, which C leaves undefined.
pub record Encrypted : Type 0 where
  pub ret : Option ℕ
  pub ciphertext : List ℕ
  pub tag_out : List ℕ
  pub leaked : ℕ
  pub overrun : Bool

pub record Decrypted : Type 0 where
  pub ret : Option ℕ
  pub plaintext_out : List ℕ
  pub leaked : ℕ
  pub overrun : Bool

abbrev pub encrypt_fails : (leaked : ℕ) (overrun : Bool) (ciphertext tag_out : List ℕ) → Encrypted
encrypt_fails leaked overrun ciphertext tag_out = record {
  ret = none;
  ciphertext = ciphertext;
  tag_out = tag_out;
  leaked = leaked;
  overrun = overrun;
}

abbrev pub decrypt_fails : (leaked : ℕ) (overrun : Bool) (plaintext_out : List ℕ) → Decrypted
decrypt_fails leaked overrun plaintext_out = record {
  ret = none;
  plaintext_out = plaintext_out;
  leaked = leaked;
  overrun = overrun;
}

abbrev pub decrypt_returns : (ret : ℕ) (overrun : Bool) (plaintext_out : List ℕ) → Decrypted
decrypt_returns ret overrun plaintext_out = record {
  ret = some ret;
  plaintext_out = plaintext_out;
  leaked = 0;
  overrun = overrun;
}

-- `forced_issue`
pub data ForcedIssue : Type 0 where
  normal_trip normal_trip_with_aad change_cipher change_tag change_aad : ForcedIssue

abbrev pub trip_aad : List ℕ
trip_aad = 0xaa ∷ 0xbb ∷ 0xcc ∷ 0xdd ∷ 0 ∷ 0 ∷ 0 ∷ 0 ∷ []

abbrev pub encrypt_aad_for : ForcedIssue → List ℕ
encrypt_aad_for normal_trip_with_aad = trip_aad
encrypt_aad_for _ = []

abbrev pub decrypt_aad_for : ForcedIssue → List ℕ
decrypt_aad_for normal_trip_with_aad = trip_aad
decrypt_aad_for change_aad = 1 ∷ []
decrypt_aad_for _ = []

abbrev pub tamper_ct : ForcedIssue → List ℕ → List ℕ
tamper_ct change_cipher ct = set ct 0 0
tamper_ct _ ct = ct

abbrev pub tamper_tag : ForcedIssue → List ℕ → List ℕ
tamper_tag change_tag tag = set tag 0 1
tamper_tag _ tag = tag

-- `memcmp(xs, ys, xs.size()) == 0`
abbrev pub same_bytes : List ℕ → List ℕ → Bool
same_bytes [] ys = true
same_bytes (x ∷ xs) [] = false
same_bytes (x ∷ xs) (y ∷ ys) = (x == y) && same_bytes xs ys

abbrev pub checks : (pt : List ℕ) → Decrypted → Bool
checks pt out = elim out.ret [
  | none ↦ false
  | some pt_len_out ↦ (pt_len_out == length pt) && same_bytes pt out.plaintext_out
]

-- `ct1[i] ^ ct2[i] ^ msg4[i]`
abbrev pub recover : (ct₁ ct₂ msg : List ℕ) → List ℕ
recover (a ∷ ct₁) (b ∷ ct₂) (p ∷ msg) = bit_xor (bit_xor a b) p ∷ recover ct₁ ct₂ msg
recover _ _ _ = []

module _ (evp : Evp) where
  unfoldable pub aes_gcm_encrypt : (key iv aad plaintext ciphertext tag_out : List ℕ) → Encrypted
  aes_gcm_encrypt key iv aad plaintext ciphertext tag_out =
      call evp.ctx_new (encrypt_fails 0 false ciphertext tag_out) (λ ctx₀.
        call (evp.encrypt_init ctx₀) (encrypt_fails 1 false ciphertext tag_out) (λ ctx₁.
          call (evp.encrypt_init_key ctx₁ key iv) (encrypt_fails 1 false ciphertext tag_out)
            (λ ctx₂.
              call (evp.encrypt_aad ctx₂ aad) (encrypt_fails 1 false ciphertext tag_out) (λ ctx₃.
                call (evp.encrypt_update ctx₃ plaintext) (encrypt_fails 1 false ciphertext tag_out)
                  (λ updated.
                    let updated_ct = write_at 0 updated.0 ciphertext in
                    let over_ct = past_end 0 updated.0 ciphertext in
                    call (evp.encrypt_final updated.1) (encrypt_fails 1 over_ct updated_ct tag_out)
                      (λ finished.
                        let finished_ct = write_at (length updated.0) finished.0 updated_ct in
                        let over = over_ct || past_end (length updated.0) finished.0 ciphertext in
                        call (evp.get_tag finished.1) (encrypt_fails 1 over finished_ct tag_out)
                          (λ got. record {
                            ret = some (length updated.0 + length finished.0);
                            ciphertext = finished_ct;
                            tag_out = write_at 0 got.0 tag_out;
                            leaked = 0;
                            overrun = over || past_end 0 got.0 tag_out;
                          })))))))

  unfoldable pub aes_gcm_decrypt : (key iv aad ciphertext tag_in plaintext_out : List ℕ) → Decrypted
  aes_gcm_decrypt key iv aad ciphertext tag_in plaintext_out =
      call evp.ctx_new (decrypt_fails 0 false plaintext_out) (λ ctx₀.
        call (evp.decrypt_init ctx₀) (decrypt_fails 1 false plaintext_out) (λ ctx₁.
          call (evp.decrypt_init_key ctx₁ key iv) (decrypt_fails 1 false plaintext_out) (λ ctx₂.
            call (evp.decrypt_aad ctx₂ aad) (decrypt_fails 1 false plaintext_out) (λ ctx₃.
              call (evp.decrypt_update ctx₃ ciphertext) (decrypt_fails 1 false plaintext_out)
                (λ updated.
                  let updated_out = write_at 0 updated.0 plaintext_out in
                  let over = past_end 0 updated.0 plaintext_out in
                  call (evp.set_tag updated.1 tag_in) (decrypt_fails 1 over updated_out) (λ ctx₄.
                    let zeros : List ℕ = replicate (length ciphertext) 0 in
                    call (evp.decrypt_final ctx₄)
                      (decrypt_fails 0 (over || past_end 0 zeros plaintext_out)
                        (write_at 0 zeros updated_out))
                      (λ finished.
                        decrypt_returns (length updated.0 + length finished.0)
                          (over || past_end (length updated.0) finished.0 plaintext_out)
                          (write_at (length updated.0) finished.0 updated_out))))))))

  -- `tag` has any 16 bytes at first.
  abbrev pub round_trip : (key iv pt tag : List ℕ) → ForcedIssue → Bool
  round_trip key iv pt tag issue =
      let sent = aes_gcm_encrypt key iv (encrypt_aad_for issue) pt (replicate (length pt) 0) tag in
      call sent.ret false (λ ct_len. checks pt (
        aes_gcm_decrypt key iv (decrypt_aad_for issue)
          (take ct_len (tamper_ct issue sent.ciphertext)) (tamper_tag issue sent.tag_out)
          (replicate (length pt) 0)))

  -- The end of main: two messages under one nonce, and the second from the first.
  abbrev pub nonce_reuse : (key iv msg₁ msg₂ tag : List ℕ) → List ℕ
  nonce_reuse key iv msg₁ msg₂ tag =
      let ct₁ = (aes_gcm_encrypt key iv [] msg₁ (replicate (length msg₁) 0) tag).ciphertext in
      let ct₂ = (aes_gcm_encrypt key iv [] msg₂ (replicate (length msg₂) 0) tag).ciphertext in
      recover ct₁ ct₂ msg₁
