-- ===== src/Dns/Name/Laws.antt =====
-- What `encode_name` returns and writes.
use mathlib.Core.List.{append_assoc, append-nil}
use swe_daily_challenge.Base.{
  ℕ, ◌+◌, ◌^◌, ◌≤◌, ◌<◌, ◌≡◌, refl, ap, ◌∙◌, List, [], ◌∷◌, ◌++◌, Bool-cases, inl, inr, length, ltb,
  if◌then◌else◌, length-append, length-drop, length-replicate, drop, replicate, arith,
}
use swe_daily_challenge.Dns.Types.{Outcome, ok, refused, ◌>>=◌, max_label_segment, max_label_total}
use swe_daily_challenge.Dns.Name.{
  Enc, memset, flush, put_char, is_separator, encode_loop, encode_name,
}
use swe_daily_challenge.Dns.Name.Spec.{
  split_from, split, wire_labels, wire, AreShort, AreShort-cur, overwrite, length-wire,
  length-wire_labels,
}
use swe_daily_challenge.Dns.Name.Loop.{at, emit_lem, flush_lem, put_char_lem}

pub length-memset : (xs : List ℕ) (v n : ℕ) → n ≤ length xs → length (memset xs v n) ≡ length xs
unfolding memset
length-memset xs v n h =
    omega (arith, length-append (replicate n v) (drop n xs), length-replicate n v, length-drop n xs)

module _ (buf₀ : List ℕ) (word : length buf₀ < 2 ^ 16) where
  -- The loop ended, with the labels behind what was written before.
  abbrev Ended : Outcome Enc → List ℕ → Type 0
  Ended r out = (seg : List ℕ) × (r ≡ ok (at buf₀ word 0 seg out))

  room_behind :
      (cur rest out : List ℕ)
      → length out + length (length cur ∷ (cur ++ rest)) ≤ length buf₀
      → length (out ++ length cur ∷ cur) + length rest ≤ length buf₀
  room_behind cur rest out h =
      omega (arith, length-append cur rest, length-append out (length cur ∷ cur))

  -- One round at a separator.
  Ended-flush :
      (cs cur junk out rest : List ℕ)
      → length cur ≤ max_label_segment
      → length out + length (length cur ∷ (cur ++ rest)) ≤ length buf₀
      → Ended
          (encode_loop cs (at buf₀ word 0 (memset (cur ++ junk) 0 63) (out ++ length cur ∷ cur)))
          ((out ++ length cur ∷ cur) ++ rest)
      → Ended
          (flush (at buf₀ word (length cur) (cur ++ junk) out) >>= encode_loop cs)
          (out ++ length cur ∷ (cur ++ rest))
  Ended-flush cs cur junk out rest s h (seg, e) = (
    seg,
    rw (flush_lem buf₀ word cur junk out s (omega (arith, length-append cur rest)))
        (e ∙ ap (λ o. ok (at buf₀ word 0 seg o)) (append_assoc out (length cur ∷ cur) rest)),
  )

  -- One round at any other character.
  Ended-put_char :
      (c : ℕ) (cs cur junk out rest : List ℕ)
      → length cur < max_label_segment
      → length cur + length junk ≡ 63
      → ((junk' : List ℕ)
          → length (cur ++ c ∷ []) + length junk' ≡ 63
          → Ended
              (encode_loop cs
                (at buf₀ word (length (cur ++ c ∷ [])) ((cur ++ c ∷ []) ++ junk') out))
              (out ++ rest))
      → Ended
          (put_char c (at buf₀ word (length cur) (cur ++ junk) out) >>= encode_loop cs)
          (out ++ rest)
  Ended-put_char c cs cur [] out rest s j next = absurd (omega arith)
  Ended-put_char c cs cur (x ∷ junk) out rest s j next =
      rw (put_char_lem buf₀ word c x cur junk out s)
        (next junk (omega (arith, length-append cur (c ∷ []))))

  pub encode_loop_lem :
      (cs cur junk out : List ℕ)
      → AreShort (split_from cur cs)
      → length cur + length junk ≡ 63
      → length out + length (wire_labels (split_from cur cs)) ≤ length buf₀
      → Ended
          (encode_loop cs (at buf₀ word (length cur) (cur ++ junk) out))
          (out ++ wire_labels (split_from cur cs))
  unfolding encode_loop split_from
  encode_loop_lem [] cur junk out s j h = (
    memset (cur ++ junk) 0 63,
    rw append-nil (flush_lem buf₀ word cur junk out s.0 (omega (arith, length-append cur []))),
  )
  encode_loop_lem (c ∷ cs) cur junk out s j h = elim (Bool-cases (is_separator c)) [
    | inl e ↦ rw e (
        Ended-flush cs cur junk out (wire_labels (split_from [] cs)) (rw e at s).0 (rw e at h) (
          encode_loop_lem cs [] (memset (cur ++ junk) 0 63) (out ++ length cur ∷ cur) (rw e at s).1
            (omega (arith, length-memset (cur ++ junk) 0 63, length-append cur junk))
            (room_behind cur (wire_labels (split_from [] cs)) out (rw e at h))))
    | inr e ↦ rw e (
        Ended-put_char c cs cur junk out (wire_labels (split_from (cur ++ c ∷ []) cs))
          (omega (arith, AreShort-cur (cur ++ c ∷ []) cs (rw e at s), length-append cur (c ∷ []))) j
          λ junk' j'. encode_loop_lem cs (cur ++ c ∷ []) junk' out (rw e at s) j' (rw e at h))
  ]

-- A domain with labels of at most 63 bytes, and a buffer of at least `strlen + 2` bytes and less than
-- 2 ^ 16: the first `strlen + 2` bytes of the buffer become the
-- wire form of its labels and their number is returned; if that is above 255, the call is refused.
pub encode_name_room :
    (domain seg buf : List ℕ)
    → length seg ≡ 63
    → length buf < 2 ^ 16
    → AreShort (split domain)
    → length domain + 2 ≤ length buf
    → encode_name domain seg buf ≡ (
        if ltb max_label_total (length domain + 2)
        then refused
        else ok (length domain + 2, overwrite (wire (split domain)) buf))
unfolding encode_name
encode_name_room domain seg buf junk word short room =
    let (seg', ended) =
      encode_loop_lem buf word domain [] seg [] short (omega arith)
        (omega (arith, length-wire_labels [] domain)) in
    let size : length (wire_labels (split domain)) ≡ length domain + 1 =
      omega (arith, length-wire_labels [] domain) in
    rw
      (
        ended,
        emit_lem buf word 0 0 seg' (wire_labels (split domain)) (omega arith),
        length-wire domain,
      )
      refl
