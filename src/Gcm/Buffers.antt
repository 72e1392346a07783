-- ===== src/Gcm/Buffers.antt =====
-- Buffers of the wrapper, and bytes under a keystream.
use mathlib.Core.List.{append_assoc}
use swe_daily_challenge.Base.{
  ℕ, suc, ◌≡◌, refl, sym, ap, ap₂, ◌∙◌, Bool, true, false, ◌||◌, ◌+◌, ltb, List, [], ◌∷◌, ◌++◌,
  length, length-append, set-append, take, bit_xor-cancel, bit_xor-recover, arith, eq→==,
}
use swe_daily_challenge.Gcm.{write_at, past_end, recover, same_bytes}
use swe_daily_challenge.Gcm.Openssl.{xor_stream}

write_at-append :
    (done xs buf : List ℕ)
    → length xs ≡ length buf
    → write_at (length done) xs (done ++ buf) ≡ done ++ xs
write_at-append done [] [] h = refl
write_at-append done [] (y ∷ buf) h = absurd (omega arith)
write_at-append done (x ∷ xs) [] h = absurd (omega arith)
write_at-append done (x ∷ xs) (y ∷ buf) h =
    ap₂ (λ n ys. write_at n xs ys) size
      (set-append done buf y x ∙ sym (append_assoc done (x ∷ []) buf))
    ∙ write_at-append (done ++ (x ∷ [])) xs buf (omega (arith, h))
    ∙ append_assoc done (x ∷ []) xs
  where
    size : suc (length done) ≡ length (done ++ (x ∷ []))
    size = omega (arith, length-append done (x ∷ []))

-- Writing a whole buffer.
pub write_at_whole : (xs buf : List ℕ) → length xs ≡ length buf → write_at 0 xs buf ≡ xs
write_at_whole xs buf h = write_at-append [] xs buf h

pub take-length : (xs : List ℕ) → take (length xs) xs ≡ xs
take-length [] = refl
take-length (x ∷ xs) = ap (◌∷◌ x) (take-length xs)

pub same_bytes_refl : (xs : List ℕ) → same_bytes xs xs ≡ true
same_bytes_refl [] = refl
same_bytes_refl (x ∷ xs) = rw (eq→== x x refl) (same_bytes_refl xs)

pub xor_stream-cancel :
    (stream : ℕ → ℕ) (from : ℕ) (xs : List ℕ)
    → xor_stream stream from (xor_stream stream from xs) ≡ xs
xor_stream-cancel stream from [] = refl
xor_stream-cancel stream from (x ∷ xs) =
    ap₂ (◌∷◌) (bit_xor-cancel x (stream from)) (xor_stream-cancel stream (suc from) xs)

pub recover-xor_stream :
    (stream : ℕ → ℕ) (from : ℕ) (xs ys : List ℕ)
    → length xs ≡ length ys
    → recover (xor_stream stream from xs) (xor_stream stream from ys) xs ≡ ys
recover-xor_stream stream from [] [] h = refl
recover-xor_stream stream from [] (y ∷ ys) h = absurd (omega arith)
recover-xor_stream stream from (x ∷ xs) [] h = absurd (omega arith)
recover-xor_stream stream from (x ∷ xs) (y ∷ ys) h =
    ap₂ (◌∷◌) (bit_xor-recover x y (stream from))
      (recover-xor_stream stream (suc from) xs ys (omega (arith, h)))

or_self : (b : Bool) → (b || b) ≡ b
or_self true = refl
or_self false = refl

-- A second write that adds nothing, and one of the same length.
pub past_end_again :
    (xs buf : List ℕ) → (past_end 0 xs buf || past_end (length xs) [] buf) ≡ past_end 0 xs buf
past_end_again xs buf =
    ap (λ n. past_end 0 xs buf || ltb (length buf) n) same ∙ or_self (past_end 0 xs buf)
  where
    same : length xs + 0 ≡ 0 + length xs
    same = omega arith

pub past_end_twice :
    (xs ys buf : List ℕ)
    → length ys ≡ length xs
    → (past_end 0 xs buf || past_end 0 ys buf) ≡ past_end 0 xs buf
past_end_twice xs ys buf h =
    ap (λ n. past_end 0 xs buf || ltb (length buf) (0 + n)) h ∙ or_self (past_end 0 xs buf)
