-- ===== src/Dns/Name/Loop.antt =====
-- The steps of the loop of `encode_name`.
use mathlib.Core.List.{append_assoc, append-nil}
use swe_daily_challenge.Base.{
  ℕ, suc, ◌+◌, ◌^◌, ◌≤◌, ◌<◌, ◌≡◌, ap, List, [], ◌∷◌, ◌++◌, length, length-append, length-drop,
  drop, drop_of_lt, set, set-append, get_elem?-append_here, arith,
}
use swe_daily_challenge.Dns.Types.{ok, max_label_segment}
use swe_daily_challenge.Dns.Name.{Enc, emit, copy_seg, memset, flush, put_char}
use swe_daily_challenge.Dns.Name.Spec.{overwrite}

-- Writing just behind what has been written.
set-overwrite :
    (out buf : List ℕ) (v : ℕ)
    → length out < length buf
    → set (overwrite out buf) (length out) v ≡ overwrite (out ++ v ∷ []) buf
set-overwrite out buf v h =
    let (x, e) = drop_of_lt (length out) buf h in
    rw (e, set-append out (drop (suc (length out)) buf) x v, append_assoc out (v ∷ []))
      (ap (λ n. out ++ v ∷ drop n buf) {x = suc (length out)} {y = length (out ++ v ∷ [])}
        (omega (arith, length-append out (v ∷ []))))

pub length-overwrite :
    (out buf : List ℕ) → length out ≤ length buf → length (overwrite out buf) ≡ length buf
length-overwrite out buf h =
    omega (arith, length-append out (drop (length out) buf), length-drop (length out) buf)

module _ (buf₀ : List ℕ) (word : length buf₀ < 2 ^ 16) where
  -- The state with `out` written and `k` bytes of a label in `seg`.
  abbrev pub at : ℕ → List ℕ → List ℕ → Enc
  at k seg out = record { seg_i = k; buf_i = length out; seg = seg; buf = overwrite out buf₀ }

  pub emit_lem :
      (k v : ℕ) (seg out : List ℕ)
      → length out < length buf₀
      → emit v (at k seg out) ≡ ok (at k seg (out ++ v ∷ []))
  unfolding emit
  emit_lem k v seg out h =
      ground
        (arith, length-overwrite out buf₀, set-overwrite out buf₀ v, length-append out (v ∷ []))

  copy_seg_lem :
      (k : ℕ) (pre xs junk out : List ℕ)
      → length out + length xs ≤ length buf₀
      → length pre + length xs ≤ max_label_segment
      → copy_seg (length xs) (length pre) (at k (pre ++ (xs ++ junk)) out)
        ≡ ok (at k (pre ++ (xs ++ junk)) (out ++ xs))
  unfolding copy_seg
  copy_seg_lem k pre [] junk out h s = rw (append-nil out)
  copy_seg_lem k pre (x ∷ xs) junk out h s = ground (
    arith,
    get_elem?-append_here pre (xs ++ junk) x,
    emit_lem k x (pre ++ x ∷ (xs ++ junk)) out,
    copy_seg_lem k (pre ++ x ∷ []) xs junk (out ++ x ∷ []),
    append_assoc pre (x ∷ []) (xs ++ junk),
    append_assoc out (x ∷ []) xs,
    length-append pre (x ∷ []),
    length-append out (x ∷ []),
  )

  pub flush_lem :
      (cur junk out : List ℕ)
      → length cur ≤ max_label_segment
      → length out + length cur + 1 ≤ length buf₀
      → flush (at (length cur) (cur ++ junk) out)
        ≡ ok (at 0 (memset (cur ++ junk) 0 63) (out ++ length cur ∷ cur))
  unfolding flush
  flush_lem cur junk out s h = ground (
    arith,
    emit_lem (length cur) (length cur) (cur ++ junk) out,
    copy_seg_lem (length cur) [] cur junk (out ++ length cur ∷ []),
    append_assoc out (length cur ∷ []) cur,
    length-append out (length cur ∷ []),
  )

  pub put_char_lem :
      (c x : ℕ) (cur junk out : List ℕ)
      → length cur < max_label_segment
      → put_char c (at (length cur) (cur ++ x ∷ junk) out)
        ≡ ok (at (length (cur ++ c ∷ [])) ((cur ++ c ∷ []) ++ junk) out)
  unfolding put_char
  put_char_lem c x cur junk out h = ground (
    arith,
    length-append cur (x ∷ junk),
    length-append cur (c ∷ []),
    set-append cur junk x c,
    append_assoc cur (c ∷ []) junk,
  )
