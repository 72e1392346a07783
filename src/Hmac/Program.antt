-- ===== src/Hmac/Program.antt =====
-- main of 10-HMAC_length_extension/main.cpp: the forgery against both servers.
use swe_daily_challenge.Base.{
  ℕ, ◌≡◌, refl, ap, ◌∙◌, Bool, true, false, ◌&&◌, List, [], ◌∷◌, length, arith, if◌then◌else◌,
}
use swe_daily_challenge.Hmac.{
  key_len, naive_mac, server_verify_naive, length_extension_attack, server_verify_hmac,
}
use swe_daily_challenge.Hmac.Sha256.{Sha256Ctx, IsSha256}
use swe_daily_challenge.Hmac.Laws.{length_extension_attack_accepted}

abbrev pub not : Bool → Bool
not true = false
not false = true

-- `command=reboot`
abbrev pub cmd : List ℕ
cmd =
    b'c' ∷ b'o' ∷ b'm' ∷ b'm' ∷ b'a' ∷ b'n' ∷ b'd' ∷ b'=' ∷ b'r' ∷ b'e' ∷ b'b' ∷ b'o' ∷ b'o' ∷ b't'
    ∷ []

-- `&admin=1`
abbrev pub ext_str : List ℕ
ext_str = b'&' ∷ b'a' ∷ b'd' ∷ b'm' ∷ b'i' ∷ b'n' ∷ b'=' ∷ b'1' ∷ []

-- The two lines that main prints, and what it returns.
pub record Report : Type 0 where
  pub part_a : Bool
  pub part_b : Bool
  pub returned : ℕ

abbrev pub report : (part_a part_b : Bool) → (returned : ℕ) → Report
report part_a part_b returned = record { part_a = part_a; part_b = part_b; returned = returned }

module _ (init : Sha256Ctx) (update : Sha256Ctx → List ℕ → Sha256Ctx) (final : Sha256Ctx → List ℕ)
    (hmac : (key msg : List ℕ) → List ℕ) where
  unfoldable pub hmac_main : (secret_key : List ℕ) → Report
  unfolding naive_mac length_extension_attack server_verify_naive server_verify_hmac
  hmac_main secret_key =
      let token = naive_mac init update final secret_key cmd in
      let forgery = length_extension_attack init update final cmd token ext_str in
      let part_a = server_verify_naive init update final secret_key forgery.0 forgery.1 in
      let part_b = not (server_verify_hmac hmac secret_key forgery.0 forgery.1) in
      report part_a part_b (if part_a && part_b then 0 else 1)

  -- The message and the token that main presents to the HMAC server.
  abbrev pub forged : (secret_key : List ℕ) → List ℕ × List ℕ
  forged secret_key =
      length_extension_attack init update final cmd (naive_mac init update final secret_key cmd)
        ext_str

  -- Part A of main passes under every key of 16 bytes; main returns 0 exactly where the server
  -- with HMAC rejects the forgery, and 1 where it accepts it.
  pub hmac_main_lem :
      (compress : List ℕ → List ℕ → List ℕ) (secret_key : List ℕ)
      → IsSha256 compress init update final
      → length secret_key ≡ key_len
      → let accepted =
          server_verify_hmac hmac secret_key (forged secret_key).0 (forged secret_key).1 in
        hmac_main secret_key ≡ report true (not accepted) (if accepted then 1 else 0)
  unfolding hmac_main
  hmac_main_lem compress secret_key sha size =
      let accepted =
        server_verify_hmac hmac secret_key (forged secret_key).0 (forged secret_key).1 in
      ap (λ (a : Bool). report a (not accepted) (if a && not accepted then 0 else 1))
        (length_extension_attack_accepted compress init update final sha secret_key size cmd ext_str
          (omega arith))
      ∙ flip accepted
    where
      flip :
          (b : Bool)
          → report true (not b) (if not b then 0 else 1) ≡ report true (not b) (if b then 1 else 0)
      flip true = refl
      flip false = refl
