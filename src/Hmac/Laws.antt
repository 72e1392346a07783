-- ===== src/Hmac/Laws.antt =====
-- The token of the attack against the token of the server.
use mathlib.Core.List.{append_assoc}
use swe_daily_challenge.Base.{
  ℕ, ◌+◌, ◌-◌, ◌*◌, ◌/◌, ◌%◌, ◌^◌, ◌<◌, ◌≤◌, ◌≡◌, refl, sym, ap, ap₂, ◌∙◌, subst, true, List, ◌++◌,
  length, length-append, length-replicate, replicate, arith,
}
use swe_daily_challenge.Hmac.{
  key_len, bytes_eq, load_state, padding_1, naive_mac, server_verify_naive, resumed,
  length_extension_attack,
}
use swe_daily_challenge.Hmac.Sha256.{
  Sha256Ctx, AreWords, be64, digest_bytes, padding, absorb_all, IsSha256,
}
use swe_daily_challenge.Hmac.Blocks.{
  bytes_eq_refl, load_state-digest_bytes, padding_1_lem, length-padding, absorb-AreWords,
  absorb_all-append,
}

module _ (compress : List ℕ → List ℕ → List ℕ) (init : Sha256Ctx)
    (update : Sha256Ctx → List ℕ → Sha256Ctx) (final : Sha256Ctx → List ℕ)
    (sha : IsSha256 compress init update final) (secret_key : List ℕ)
    (key_size : length secret_key ≡ key_len) where
  -- The words behind a message of the server.
  hash_words : List ℕ → List ℕ
  hash_words msg =
      absorb_all compress init.h ((secret_key ++ msg) ++ padding (key_len + length msg))

  naive_mac_lem :
      (msg : List ℕ)
      → (key_len + length msg) * 8 < 2 ^ 32
      → naive_mac init update final secret_key msg ≡ digest_bytes (hash_words msg)
  unfolding naive_mac hash_words
  naive_mac_lem msg h =
      sha.updates init secret_key msg sha.init_num
      ∙ sha.finishes init (secret_key ++ msg) sha.init_num sha.init_nh (omega (arith, sha.init_nl))
          (omega (arith, sha.init_nl, length-append secret_key msg, key_size)) sha.init_words
      ∙ ap (λ (n : ℕ). digest_bytes (absorb_all compress init.h ((secret_key ++ msg) ++ padding n)))
          (omega (arith, sha.init_nl, length-append secret_key msg, key_size))

  hash_words-AreWords : (msg : List ℕ) → AreWords (hash_words msg)
  unfolding hash_words
  hash_words-AreWords msg =
      absorb-AreWords compress sha.words
        (length ((secret_key ++ msg) ++ padding (key_len + length msg)) / 64) init.h
        ((secret_key ++ msg) ++ padding (key_len + length msg)) sha.init_words

  -- The message of the attack, block-wise: the original one with its padding, and the rest.
  hash_words-extended :
      (msg extension : List ℕ)
      → (key_len + length msg) * 8 < 2 ^ 32
      → hash_words ((msg ++ padding_1 (length msg)) ++ extension)
        ≡ absorb_all compress
            (hash_words msg)
            (extension ++ padding (key_len + length ((msg ++ padding_1 (length msg)) ++ extension)))
  unfolding hash_words
  hash_words-extended msg extension h =
      ap (λ xs. absorb_all compress init.h xs) regroup
      ∙ absorb_all-append compress init.h blocks (extension ++ tail) whole
    where
      total : ℕ
      total = key_len + length ((msg ++ padding_1 (length msg)) ++ extension)

      tail : List ℕ
      tail = padding total

      blocks : List ℕ
      blocks = (secret_key ++ msg) ++ padding (key_len + length msg)

      whole : length blocks % 64 ≡ 0
      whole = omega (
        arith,
        length-append (secret_key ++ msg) (padding (key_len + length msg)),
        length-append secret_key msg,
        key_size,
        length-padding (key_len + length msg),
      )

      regroup :
          (secret_key ++ ((msg ++ padding_1 (length msg)) ++ extension)) ++ tail
          ≡ blocks ++ (extension ++ tail)
      regroup = simp (padding_1_lem (length msg) h, append_assoc) refl

  length-extended :
      (msg extension : List ℕ)
      → (key_len + length msg) * 8 < 2 ^ 32
      → length ((msg ++ padding_1 (length msg)) ++ extension)
        ≡ length msg + length (padding_1 (length msg)) + length extension
  length-extended msg extension h = omega (
    arith,
    length-append (msg ++ padding_1 (length msg)) extension,
    length-append msg (padding_1 (length msg)),
  )

  length-padding_1 :
      (n : ℕ)
      → (key_len + n) * 8 < 2 ^ 32
      → ((key_len + n + length (padding_1 n)) % 64 ≡ 0) × (length (padding_1 n) ≤ 72)
  length-padding_1 n h = rw (padding_1_lem n h) (
    length-padding (key_len + n),
    omega (
      arith,
      length-append (replicate ((119 - (key_len + n) % 64) % 64) 0) (be64 ((key_len + n) * 8)),
      length-replicate {A = ℕ} ((119 - (key_len + n) % 64) % 64) 0,
    ),
  )

  -- The context of the attack goes on where the server's message ended.
  resumed_lem :
      (msg : List ℕ)
      → (key_len + length msg) * 8 < 2 ^ 32
      → (resumed init update final msg (naive_mac init update final secret_key msg)).h
        ≡ hash_words msg
  unfolding resumed
  resumed_lem msg h =
      ap (load_state 8) (naive_mac_lem msg h)
      ∙ load_state-digest_bytes 8 (hash_words msg) (hash_words-AreWords msg).0
          (hash_words-AreWords msg).1

  resumed_open :
      (msg token : List ℕ)
      → ((resumed init update final msg token).num ≡ 0)
        × ((resumed init update final msg token).nh ≡ 0)
  unfolding resumed
  resumed_open msg token = (refl, refl)

  resumed_nl :
      (msg token : List ℕ)
      → (key_len + length msg + 72) * 8 < 2 ^ 32
      → (resumed init update final msg token).nl
        ≡ (key_len + length msg + length (padding_1 (length msg))) * 8
  unfolding resumed
  resumed_nl msg token h =
      let pads = length-padding_1 (length msg) (omega arith) in omega (arith, pads.1)

  forged_lem :
      (msg extension : List ℕ)
      → (key_len + length msg + 72 + length extension) * 8 < 2 ^ 32
      → (length_extension_attack init update final msg
          (naive_mac init update final secret_key msg)
          extension).1
        ≡ digest_bytes (hash_words ((msg ++ padding_1 (length msg)) ++ extension))
  unfolding length_extension_attack
  forged_lem msg extension h =
      sha.finishes ctx extension opened.0 opened.1 (omega (arith, nl, pads.0))
        (omega (arith, nl, pads.1))
        (subst AreWords (sym (resumed_lem msg small)) (hash_words-AreWords msg))
      ∙ ap digest_bytes (
          ap₂ (λ words n. absorb_all compress words (extension ++ padding n))
            (resumed_lem msg small) size
          ∙ sym (hash_words-extended msg extension small))
    where
      ctx : Sha256Ctx
      ctx = resumed init update final msg (naive_mac init update final secret_key msg)

      opened : (ctx.num ≡ 0) × (ctx.nh ≡ 0)
      opened = resumed_open msg (naive_mac init update final secret_key msg)

      small : (key_len + length msg) * 8 < 2 ^ 32
      small = omega arith

      pads :
          ((key_len + length msg + length (padding_1 (length msg))) % 64 ≡ 0)
          × (length (padding_1 (length msg)) ≤ 72)
      pads = length-padding_1 (length msg) small

      nl : ctx.nl ≡ (key_len + length msg + length (padding_1 (length msg))) * 8
      nl = resumed_nl msg (naive_mac init update final secret_key msg) (omega arith)

      size :
          ctx.nl / 8 + length extension
          ≡ key_len + length ((msg ++ padding_1 (length msg)) ++ extension)
      size = omega (arith, nl, length-extended msg extension small)

  attack_msg :
      (msg token extension : List ℕ)
      → (length_extension_attack init update final msg token extension).0
        ≡ (msg ++ padding_1 (length msg)) ++ extension
  unfolding length_extension_attack
  attack_msg msg token extension = refl

  server_accepts :
      (msg token : List ℕ) (words : List ℕ)
      → naive_mac init update final secret_key msg ≡ words
      → token ≡ words
      → server_verify_naive init update final secret_key msg token ≡ true
  unfolding server_verify_naive
  server_accepts msg token words mac same = ap₂ bytes_eq mac same ∙ bytes_eq_refl words

  extended_mac :
      (msg extension : List ℕ)
      → (key_len + length msg + 72 + length extension) * 8 < 2 ^ 32
      → naive_mac init update final secret_key ((msg ++ padding_1 (length msg)) ++ extension)
        ≡ digest_bytes (hash_words ((msg ++ padding_1 (length msg)) ++ extension))
  extended_mac msg extension h =
      let pads = length-padding_1 (length msg) (omega arith) in
      naive_mac_lem ((msg ++ padding_1 (length msg)) ++ extension)
        (omega (arith, length-extended msg extension (omega arith), pads.1))

  -- The attack needs a token and the length of the key, and not the key: whatever the server has
  -- tokened, below 2 ^ 32 bits in all, the server accepts the extended message with the forged token.
  pub length_extension_attack_accepted :
      (msg extension : List ℕ)
      → (key_len + length msg + 72 + length extension) * 8 < 2 ^ 32
      → let forgery =
          length_extension_attack init update final msg
            (naive_mac init update final secret_key msg)
            extension in
        server_verify_naive init update final secret_key forgery.0 forgery.1 ≡ true
  length_extension_attack_accepted msg extension h =
      let mac = naive_mac init update final secret_key msg in
      server_accepts (length_extension_attack init update final msg mac extension).0
        (length_extension_attack init update final msg mac extension).1
        (digest_bytes (hash_words ((msg ++ padding_1 (length msg)) ++ extension)))
        (ap (naive_mac init update final secret_key) (attack_msg msg mac extension)
          ∙ extended_mac msg extension h)
        (forged_lem msg extension h)
