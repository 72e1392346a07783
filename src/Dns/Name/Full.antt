-- ===== src/Dns/Name/Full.antt =====
-- `encode_name` where the buffer of the caller is too short.
use mathlib.Core.List.{append_assoc}
use swe_daily_challenge.Base.{
  ℕ, ◌+◌, ◌^◌, ◌≤◌, ◌<◌, ◌≡◌, refl, List, [], ◌∷◌, ◌++◌, Bool-cases, inl, inr, length, ltb, ltb→lt,
  ltb→le, if◌then◌else◌, length-append, get_elem?-append_here, arith,
}
use swe_daily_challenge.Dns.Types.{ok, refused, fault, ◌>>=◌, max_label_segment, max_label_total}
use swe_daily_challenge.Dns.Name.{
  emit, copy_seg, memset, flush, put_char, is_separator, encode_loop, encode_name,
}
use swe_daily_challenge.Dns.Name.Spec.{
  split_from, split, wire_labels, wire, AreShort, AreShort-cur, overwrite, length-wire_labels,
}
use swe_daily_challenge.Dns.Name.Loop.{at, emit_lem, flush_lem, put_char_lem, length-overwrite}
use swe_daily_challenge.Dns.Name.Laws.{length-memset, encode_loop_lem, encode_name_room}

module _ (buf₀ : List ℕ) (word : length buf₀ < 2 ^ 16) where
  emit_full :
      (k v : ℕ) (seg out : List ℕ)
      → length out ≡ length buf₀
      → emit v (at buf₀ word k seg out) ≡ fault
  unfolding emit
  emit_full k v seg out h = ground (arith, length-overwrite out buf₀)

  copy_seg_full :
      (k : ℕ) (pre xs junk out : List ℕ)
      → length out ≤ length buf₀
      → length buf₀ < length out + length xs
      → length pre + length xs ≤ max_label_segment
      → copy_seg (length xs) (length pre) (at buf₀ word k (pre ++ (xs ++ junk)) out) ≡ fault
  unfolding copy_seg
  copy_seg_full k pre [] junk out room h s = absurd (omega arith)
  copy_seg_full k pre (x ∷ xs) junk out room h s = ground (
    arith,
    get_elem?-append_here pre (xs ++ junk) x,
    emit_full k x (pre ++ x ∷ (xs ++ junk)) out,
    emit_lem buf₀ word k x (pre ++ x ∷ (xs ++ junk)) out,
    copy_seg_full k (pre ++ x ∷ []) xs junk (out ++ x ∷ []),
    append_assoc pre (x ∷ []) (xs ++ junk),
    length-append pre (x ∷ []),
    length-append out (x ∷ []),
  )

  flush_full :
      (cur junk out : List ℕ)
      → length cur ≤ max_label_segment
      → length out ≤ length buf₀
      → length buf₀ < length out + length cur + 1
      → flush (at buf₀ word (length cur) (cur ++ junk) out) ≡ fault
  unfolding flush
  flush_full cur junk out s room h = ground (
    arith,
    emit_full (length cur) (length cur) (cur ++ junk) out,
    emit_lem buf₀ word (length cur) (length cur) (cur ++ junk) out,
    copy_seg_full (length cur) [] cur junk (out ++ length cur ∷ []),
    length-append out (length cur ∷ []),
  )

  -- A round at a separator, and at any other character.
  full_at_separator :
      (cs cur junk out : List ℕ)
      → length cur ≤ max_label_segment
      → length out ≤ length buf₀
      → (length out + length cur + 1 ≤ length buf₀
          → encode_loop cs (at buf₀ word 0 (memset (cur ++ junk) 0 63) (out ++ length cur ∷ cur))
            ≡ fault)
      → (flush (at buf₀ word (length cur) (cur ++ junk) out) >>= encode_loop cs) ≡ fault
  full_at_separator cs cur junk out s room next =
      elim (Bool-cases (ltb (length buf₀) (length out + length cur + 1))) [
        | inl full ↦
            rw
              (flush_full cur junk out s room
                (ltb→lt (length buf₀) (length out + length cur + 1) full))
              refl
        | inr fits ↦
            rw
              (flush_lem buf₀ word cur junk out s
                (ltb→le (length buf₀) (length out + length cur + 1) fits))
              (next (ltb→le (length buf₀) (length out + length cur + 1) fits))
      ]

  full_at_other :
      (c : ℕ) (cs cur junk out : List ℕ)
      → length cur < max_label_segment
      → length cur + length junk ≡ 63
      → ((junk' : List ℕ)
          → length (cur ++ c ∷ []) + length junk' ≡ 63
          → encode_loop cs (at buf₀ word (length (cur ++ c ∷ [])) ((cur ++ c ∷ []) ++ junk') out)
            ≡ fault)
      → (put_char c (at buf₀ word (length cur) (cur ++ junk) out) >>= encode_loop cs) ≡ fault
  full_at_other c cs cur [] out s j next = absurd (omega arith)
  full_at_other c cs cur (x ∷ junk) out s j next =
      rw (put_char_lem buf₀ word c x cur junk out s)
        (next junk (omega (arith, length-append cur (c ∷ []))))

  encode_loop_full :
      (cs cur junk out : List ℕ)
      → AreShort (split_from cur cs)
      → length cur + length junk ≡ 63
      → length out ≤ length buf₀
      → length buf₀ < length out + length (wire_labels (split_from cur cs))
      → encode_loop cs (at buf₀ word (length cur) (cur ++ junk) out) ≡ fault
  unfolding encode_loop split_from
  encode_loop_full [] cur junk out s j room h =
      flush_full cur junk out s.0 room (omega (arith, length-append cur []))
  encode_loop_full (c ∷ cs) cur junk out s j room h = elim (Bool-cases (is_separator c)) [
    | inl e ↦ rw e (
        full_at_separator cs cur junk out (rw e at s).0 room (λ fits.
          encode_loop_full cs [] (memset (cur ++ junk) 0 63) (out ++ length cur ∷ cur) (rw e at s).1
            (omega (arith, length-memset (cur ++ junk) 0 63, length-append cur junk))
            (omega (arith, length-append out (length cur ∷ cur)))
            (room_gone cs cur out (rw e at h))))
    | inr e ↦ rw e (
        full_at_other c cs cur junk out
          (omega (arith, AreShort-cur (cur ++ c ∷ []) cs (rw e at s), length-append cur (c ∷ []))) j
          λ junk' j'. encode_loop_full cs (cur ++ c ∷ []) junk' out (rw e at s) j' room (rw e at h))
  ]
    where
      room_gone :
          (cs cur out : List ℕ)
          → length buf₀ < length out + length (length cur ∷ (cur ++ wire_labels (split_from [] cs)))
          → length buf₀ < length (out ++ length cur ∷ cur) + length (wire_labels (split_from [] cs))
      room_gone cs cur out h = omega (
        arith,
        length-append cur (wire_labels (split_from [] cs)),
        length-append out (length cur ∷ cur),
      )

overruns :
    (domain seg buf : List ℕ)
    → length seg ≡ 63
    → length buf < 2 ^ 16
    → AreShort (split domain)
    → length buf < length domain + 2
    → encode_name domain seg buf ≡ fault
unfolding encode_name
overruns domain seg buf junk word short full =
    elim (Bool-cases (ltb (length buf) (length domain + 1))) [
      | inl before ↦
          rw
            (encode_loop_full buf word domain [] seg [] short (omega arith) (omega arith) (
              omega (
                arith,
                length-wire_labels [] domain,
                ltb→lt (length buf) (length domain + 1) before,
              )))
            refl
      | inr behind ↦
          let (seg', ended) = encode_loop_lem buf word domain [] seg [] short (omega arith) (
            omega (
              arith,
              length-wire_labels [] domain,
              ltb→le (length buf) (length domain + 1) behind,
            )) in
          rw
            (
              ended,
              emit_full buf word 0 0 seg' (wire_labels (split domain)) (
                  omega (
                    arith,
                    length-wire_labels [] domain,
                    ltb→le (length buf) (length domain + 1) behind,
                  )),
            )
            refl
    ]

-- A domain with labels of at most 63 bytes, and a buffer of less than 2 ^ 16 bytes: if the buffer is
-- shorter than `strlen + 2` bytes, encode_name writes past its end. Else its first `strlen + 2`
-- bytes become the wire form of the labels and their number is returned; if that is above 255, the
-- call is refused.
pub encode_name_lem :
    (domain seg buf : List ℕ)
    → length seg ≡ 63
    → length buf < 2 ^ 16
    → AreShort (split domain)
    → encode_name domain seg buf ≡ (
        if ltb (length buf) (length domain + 2)
        then fault
        else (if ltb max_label_total (length domain + 2)
            then refused
            else ok (length domain + 2, overwrite (wire (split domain)) buf)))
encode_name_lem domain seg buf junk word short =
    elim (Bool-cases (ltb (length buf) (length domain + 2))) [
      | inl full ↦
          rw full
            (overruns domain seg buf junk word short (ltb→lt (length buf) (length domain + 2) full))
      | inr fits ↦ rw fits (
          encode_name_room domain seg buf junk word short
            (ltb→le (length buf) (length domain + 2) fits))
    ]
