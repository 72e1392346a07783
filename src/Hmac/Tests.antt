-- ===== src/Hmac/Tests.antt =====
-- A hash function with the structure of SHA-256, and the theorem on it.
use swe_daily_challenge.Base.{
  ℕ, ◌+◌, ◌/◌, ◌%◌, ◌^◌, ◌<◌, ◌≡◌, refl, sym, ap, ◌∙◌, true, List, [], ◌∷◌, ◌++◌, if◌then◌else◌,
  length, length-append, take, replicate, arith,
}
use swe_daily_challenge.Hmac.{
  naive_mac, server_verify_naive, length_extension_attack, server_verify_hmac,
}
use swe_daily_challenge.Hmac.Sha256.{
  Sha256Ctx, AreWords, digest_bytes, padding, absorb_all, IsSha256,
}
use swe_daily_challenge.Hmac.Laws.{length_extension_attack_accepted}
use swe_daily_challenge.Hmac.Program.{not, report, forged, hmac_main, hmac_main_lem}

sum : List ℕ → ℕ
sum [] = 0
sum (x ∷ xs) = x + sum xs

-- Each word of the result is the first word and the block, added up.
mix : List ℕ → List ℕ → ℕ
mix h block = (sum (take 1 h) + sum block) % 2 ^ 32

compress : List ℕ → List ℕ → List ℕ
compress h block = replicate 8 (mix h block)

abbrev init : Sha256Ctx
init = record { h = replicate 8 7; nl = 0; nh = 0; data_bytes = []; num = 0 }

abbrev update : Sha256Ctx → List ℕ → Sha256Ctx
update c xs = record c { data_bytes = take c.num c.data_bytes ++ xs; num = c.num + length xs }

-- The bytes of the open block; here a block is never closed before the end.
abbrev open_bytes : Sha256Ctx → List ℕ
open_bytes c = take c.num c.data_bytes

finish : List ℕ → ℕ → List ℕ → List ℕ
finish h nl bytes = digest_bytes (absorb_all compress h (bytes ++ padding (nl / 8 + length bytes)))

final : Sha256Ctx → List ℕ
final c = finish c.h c.nl (open_bytes c)

mix-small : (h block : List ℕ) → mix h block < 2 ^ 32
unfolding mix
mix-small h block = omega arith

take_whole : (xs : List ℕ) → take (length xs) xs ≡ xs
take_whole [] = refl
take_whole (x ∷ xs) = ap (◌∷◌ x) (take_whole xs)

open_bytes-update : (c : Sha256Ctx) (xs : List ℕ) → c.num ≡ 0 → open_bytes (update c xs) ≡ xs
open_bytes-update c xs e =
    ap (λ n. take (n + length xs) (take n c.data_bytes ++ xs)) e
    ∙ ap (λ n. take n xs) {x = 0 + length xs} {y = length xs} (omega arith)
    ∙ take_whole xs

open_bytes-again :
    (c : Sha256Ctx) (xs ys : List ℕ) → c.num ≡ 0 → open_bytes (update (update c xs) ys) ≡ xs ++ ys
open_bytes-again c xs ys e =
    ap (λ zs. take (c.num + length xs + length ys) (zs ++ ys)) (open_bytes-update c xs e)
    ∙ ap (λ n. take n (xs ++ ys)) {x = c.num + length xs + length ys} {y = length (xs ++ ys)}
        (omega (arith, e, length-append xs ys))
    ∙ take_whole (xs ++ ys)

compress-AreWords : (h block : List ℕ) → AreWords (compress h block)
unfolding compress
compress-AreWords h block =
    let small = mix-small h block in
    (refl, (small, (small, (small, (small, (small, (small, (small, (small, tt)))))))))

init-AreWords : AreWords init.h
init-AreWords = (
  refl,
  (
    omega arith,
    (
      omega arith,
      (omega arith, (omega arith, (omega arith, (omega arith, (omega arith, (omega arith, tt)))))),
    ),
  ),
)

toy-IsSha256 : IsSha256 compress init update final
unfolding final finish
toy-IsSha256 = record {
  words = λ h block ok. compress-AreWords h block;
  init_words = init-AreWords;
  init_nl = refl;
  init_nh = refl;
  init_num = refl;
  updates = λ c xs ys e.
      ap (finish c.h c.nl) (open_bytes-again c xs ys e ∙ sym (open_bytes-update c (xs ++ ys) e));
  finishes = λ c bytes e nh nl small ok. ap (finish c.h c.nl) (open_bytes-update c bytes e);
}

abbrev the_key : List ℕ
the_key = replicate 16 0x5A

-- "cmd", and "&a" behind it.
length_extension_attack_accepted_example :
    let forgery =
      length_extension_attack init update final
        (99 ∷ 109 ∷ 100 ∷ [])
        (naive_mac init update final the_key (99 ∷ 109 ∷ 100 ∷ []))
        (38 ∷ 97 ∷ []) in
    server_verify_naive init update final the_key forgery.0 forgery.1 ≡ true
length_extension_attack_accepted_example =
    length_extension_attack_accepted compress init update final toy-IsSha256 the_key refl
      (99 ∷ 109 ∷ 100 ∷ []) (38 ∷ 97 ∷ []) (omega arith)

-- A MAC that the attack does not break.
abbrev outer_mac : List ℕ → List ℕ → List ℕ
outer_mac k m = final (update init (final (update init (k ++ m))))

hmac_main_lem_example :
    hmac_main init update final outer_mac the_key
    ≡ report true
        (not (
          server_verify_hmac outer_mac the_key
            (forged init update final outer_mac the_key).0
            (forged init update final outer_mac the_key).1))
        (if server_verify_hmac outer_mac the_key
            (forged init update final outer_mac the_key).0
            (forged init update final outer_mac the_key).1
          then 1
          else 0)
hmac_main_lem_example = hmac_main_lem init update final outer_mac compress the_key toy-IsSha256 refl
