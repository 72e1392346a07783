-- ===== src/Gcm/Tests.antt =====
-- A small cipher with the calls of OpenSSL, and the theorems on it.
use mathlib.Core.Option.{none-ne-some}
use swe_daily_challenge.Base.{
  ℕ, ◌+◌, ◌%◌, ◌≡◌, ◌≢◌, refl, sym, ap, ap₂, ◌∙◌, Bool, true, false, Option, none, some, List, [],
  ◌∷◌, ◌++◌, length, replicate,
}
use swe_daily_challenge.Lsm.Strings.{str_eq, str_eq→≡, str_eq_refl}
use swe_daily_challenge.Gcm.{
  aes_gcm_encrypt, aes_gcm_decrypt, round_trip, nonce_reuse, normal_trip, normal_trip_with_aad,
  change_cipher, change_tag, tamper_tag,
}
use swe_daily_challenge.Gcm.Openssl.{Evp, Given, xor_stream, IsAesGcm, Works}
use swe_daily_challenge.Gcm.Laws.{Verdict, aes_gcm_decrypt-Verdict}
use swe_daily_challenge.Gcm.RoundTrip.{round_trip_lem, nonce_reuse_lem}
use swe_daily_challenge.Gcm.Tamper.{outgoing, incoming, round_trip-tag}

abbrev sum : List ℕ → ℕ
sum [] = 0
sum (x ∷ xs) = x + sum xs

abbrev keystream : (key iv : List ℕ) → ℕ → ℕ
keystream key iv i = (sum key + sum iv + i) % 256

abbrev tag_of : Given → List ℕ
tag_of g = replicate 16 ((sum g.key + sum g.iv + sum g.aad + sum g.ciphertext) % 256)

abbrev Context : Type 0
Context = Given × List ℕ

abbrev start : Given
start = record { key = []; iv = []; aad = []; ciphertext = [] }

abbrev with_key : Context → (key iv : List ℕ) → Option Context
with_key c key iv = some (record { key = key; iv = iv; aad = []; ciphertext = [] }, [])

abbrev with_aad : Context → List ℕ → Option Context
with_aad (g, t) aad = some (record g { aad = g.aad ++ aad }, t)

abbrev masked : Given → List ℕ → List ℕ
masked g xs = xor_stream (keystream g.key g.iv) (length g.ciphertext) xs

abbrev final_of : Bool → Context → Option (List ℕ × Context)
final_of true c = some ([], c)
final_of false c = none

abbrev evp : Evp
evp = record {
  Ctx = Context;
  ctx_new = some (start, []);
  encrypt_init = λ c. some c;
  encrypt_init_key = with_key;
  encrypt_aad = with_aad;
  encrypt_update = λ c xs.
      some (masked c.0 xs, (record c.0 { ciphertext = c.0.ciphertext ++ masked c.0 xs }, c.1));
  encrypt_final = λ c. some ([], c);
  get_tag = λ c. some (tag_of c.0, c);
  decrypt_init = λ c. some c;
  decrypt_init_key = with_key;
  decrypt_aad = with_aad;
  decrypt_update =
      λ c xs. some (masked c.0 xs, (record c.0 { ciphertext = c.0.ciphertext ++ xs }, c.1));
  set_tag = λ c tag. some (c.0, tag);
  decrypt_final = λ c. final_of (str_eq c.1 (tag_of c.0)) c;
}

some_inj : {A : Type 0} {a b : A} → some a ≡ some b → a ≡ b
some_inj h = cc

some-ne-none : {A : Type 0} {a : A} → some a ≢ none
some-ne-none h = none-ne-some _ (sym h)

final_lem :
    (b : Bool) (c c' : Context) (ys : List ℕ)
    → final_of b c ≡ some (ys, c')
    → (ys ≡ []) × (b ≡ true)
final_lem true c c' ys h = (sym (ap (λ p. p.0) (some_inj h)), refl)
final_lem false c c' ys h = absurd (none-ne-some _ h)

unfoldable gcm : IsAesGcm evp keystream tag_of
gcm = record {
  Encrypts = λ c g. c.0 ≡ g;
  Decrypts = λ c g. c.0 ≡ g;
  Expects = λ c g tag. (c.0 ≡ g) × (c.1 ≡ tag);
  encrypt_init_key_lem = λ c c' k v e. sym (ap (λ p. p.0) (some_inj e));
  encrypt_aad_lem = λ c c' g a h e.
      sym (ap (λ p. p.0) (some_inj e)) ∙ ap (λ (g : Given). record g { aad = g.aad ++ a }) h;
  encrypt_update_lem = λ c c' g xs ys h e. (
    sym (ap (λ p. p.0) (some_inj e)) ∙ ap (λ (g : Given). masked g xs) h,
    sym (ap (λ p. p.1.0) (some_inj e))
        ∙ ap₂ (λ (g : Given) zs. record g { ciphertext = g.ciphertext ++ zs }) h
            (ap (λ p. p.0) (some_inj e)),
  );
  encrypt_final_lem =
      λ c c' g ys h e. (sym (ap (λ p. p.0) (some_inj e)), sym (ap (λ p. p.1.0) (some_inj e)) ∙ h);
  get_tag_lem = λ c c' g tag h e. sym (ap (λ p. p.0) (some_inj e)) ∙ ap tag_of h;
  decrypt_init_key_lem = λ c c' k v e. sym (ap (λ p. p.0) (some_inj e));
  decrypt_aad_lem = λ c c' g a h e.
      sym (ap (λ p. p.0) (some_inj e)) ∙ ap (λ (g : Given). record g { aad = g.aad ++ a }) h;
  decrypt_update_lem = λ c c' g xs ys h e. (
    sym (ap (λ p. p.0) (some_inj e)) ∙ ap (λ (g : Given). masked g xs) h,
    sym (ap (λ p. p.1.0) (some_inj e))
        ∙ ap (λ (g : Given). record g { ciphertext = g.ciphertext ++ xs }) h,
  );
  set_tag_lem =
      λ c c' g tag h e. (sym (ap (λ p. p.0) (some_inj e)) ∙ h, sym (ap (λ p. p.1) (some_inj e)));
  decrypt_final_lem = λ c c' g tag ys h e.
      let (nothing, same) = final_lem (str_eq c.1 (tag_of c.0)) c c' ys e in
      (nothing, sym h.1 ∙ str_eq→≡ c.1 (tag_of c.0) same ∙ ap tag_of h.0);
  tag_size = λ g. refl;
}

works : Works evp keystream tag_of gcm
unfolding gcm
works = record {
  new_works = some-ne-none;
  encrypt_init_works = λ c e. some-ne-none;
  encrypt_key_works = λ c₀ c k v e₀ e. some-ne-none;
  encrypt_aad_works = λ c g a h. some-ne-none;
  encrypt_update_works = λ c g xs h. some-ne-none;
  encrypt_final_works = λ c g h. some-ne-none;
  get_tag_works = λ c g h. some-ne-none;
  decrypt_init_works = λ c e. some-ne-none;
  decrypt_key_works = λ c₀ c k v e₀ e. some-ne-none;
  decrypt_aad_works = λ c g a h. some-ne-none;
  decrypt_update_works = λ c g xs h. some-ne-none;
  set_tag_works = λ c g tag h. some-ne-none;
  decrypt_final_works = λ c g h e. some-ne-none (
      sym (
        ap (λ b. final_of b c)
          (ap₂ str_eq (h.1 ∙ ap tag_of (sym h.0)) refl ∙ str_eq_refl (tag_of c.0)))
      ∙ e);
}

abbrev key : List ℕ
key = replicate 16 0x60

abbrev iv : List ℕ
iv = replicate 12 0xca

abbrev buffer : List ℕ
buffer = replicate 16 0

abbrev msg : List ℕ
msg = 0x3a ∷ 0xd7 ∷ 0x7b ∷ []

wrong_ciphertext : round_trip evp key iv msg buffer change_cipher ≡ false
unfolding aes_gcm_encrypt aes_gcm_decrypt
wrong_ciphertext = refl

aes_gcm_decrypt-Verdict_example :
    Verdict evp keystream tag_of gcm key iv [] msg buffer
      (0 ∷ 0 ∷ 0 ∷ [])
      (aes_gcm_decrypt evp key iv [] msg buffer (0 ∷ 0 ∷ 0 ∷ []))
aes_gcm_decrypt-Verdict_example =
    aes_gcm_decrypt-Verdict evp keystream tag_of gcm key iv [] msg buffer (0 ∷ 0 ∷ 0 ∷ [])

round_trip_lem_example :
    (round_trip evp key iv msg buffer normal_trip ≡ true)
    × (round_trip evp key iv msg buffer normal_trip_with_aad ≡ true)
round_trip_lem_example = round_trip_lem evp keystream tag_of gcm works key iv msg buffer refl

nonce_reuse_lem_example :
    nonce_reuse evp key iv msg (0xa8 ∷ 0x9e ∷ 0xca ∷ []) buffer ≡ 0xa8 ∷ 0x9e ∷ 0xca ∷ []
nonce_reuse_lem_example =
    nonce_reuse_lem evp keystream tag_of gcm works key iv msg (0xa8 ∷ 0x9e ∷ 0xca ∷ []) buffer refl

-- A tag that starts with the byte that main writes over its first one.
abbrev zero_iv : List ℕ
zero_iv = replicate 12 0

unlucky : round_trip evp key zero_iv (0 ∷ 0 ∷ []) buffer change_tag ≡ true
unfolding aes_gcm_encrypt aes_gcm_decrypt
unlucky = refl

round_trip-tag_example :
    tamper_tag change_tag
      (tag_of (outgoing evp keystream tag_of gcm works key zero_iv (0 ∷ 0 ∷ []) change_tag))
    ≡ tag_of (incoming evp keystream tag_of gcm works key zero_iv (0 ∷ 0 ∷ []) change_tag)
round_trip-tag_example =
    round_trip-tag evp keystream tag_of gcm works key zero_iv (0 ∷ 0 ∷ []) buffer change_tag refl
      unlucky
