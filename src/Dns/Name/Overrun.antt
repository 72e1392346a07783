-- ===== src/Dns/Name/Overrun.antt =====
-- `encode_name` on a label of more than 63 bytes.
use swe_daily_challenge.Base.{
  ℕ, zero, suc, ◌+◌, ◌≤◌, ◌<◌, ◌≡◌, refl, ◌∙◌, List, [], ◌∷◌, ◌++◌, Bool-cases, inl, inr, length,
  length-append, length-set, get_elem?, ltb, Option-cases, le→ltb, tests, arith,
}
use swe_daily_challenge.Dns.Types.{Outcome, ok, refused, fault, hang, ◌>>=◌, u8, max_label_segment}
use swe_daily_challenge.Dns.Name.{
  Enc, emit, memset, copy_seg, flush, put_char, is_separator, encode_loop, encode_name,
}
use swe_daily_challenge.Dns.Name.Spec.{split_from, split, AreShort}
use swe_daily_challenge.Dns.Name.Laws.{length-memset}

-- A fault, or a state with these values of `seg` and `seg_i`.
abbrev Keeps : List ℕ → ℕ → Outcome Enc → Type 0
Keeps seg k (ok e) = (e.seg ≡ seg) × (e.seg_i ≡ k)
Keeps seg k refused = ⊥
Keeps seg k fault = Unit
Keeps seg k hang = ⊥

>>=-Keeps :
    (seg : List ℕ) (k : ℕ) (r : Outcome Enc) (f : Enc → Outcome Enc)
    → Keeps seg k r
    → ((e : Enc) → e.seg ≡ seg → e.seg_i ≡ k → Keeps seg k (f e))
    → Keeps seg k (r >>= f)
>>=-Keeps seg k (ok e) f h next = next e h.0 h.1
>>=-Keeps seg k refused f h next = h
>>=-Keeps seg k fault f h next = h
>>=-Keeps seg k hang f h next = h

emit-Keeps : (v : ℕ) (e : Enc) → Keeps e.seg e.seg_i (emit v e)
unfolding emit
emit-Keeps v e = elim (Bool-cases (ltb e.buf_i (length e.buf))) [
  | inl in_range ↦ rw in_range (refl, refl)
  | inr out_of_range ↦ rw out_of_range tt
]

copy_seg-Keeps :
    (left i : ℕ) (seg : List ℕ) (k : ℕ) (e : Enc)
    → e.seg ≡ seg
    → e.seg_i ≡ k
    → Keeps seg k (copy_seg left i e)
unfolding copy_seg
copy_seg-Keeps zero i seg k e p q = (p, q)
copy_seg-Keeps (suc left) i seg k e p q = elim (Option-cases (get_elem? e.seg i)) [
  | inl outside ↦ rw outside tt
  | inr (c, inside) ↦ rw inside (
      >>=-Keeps seg k (emit c e) (copy_seg left (u8 (i + 1))) (rw (← p, ← q) (emit-Keeps c e))
        (λ e' p' q'. copy_seg-Keeps left (u8 (i + 1)) seg k e' p' q'))
]

-- The loop goes on to a fault from whatever a separator leaves.
flush-fault :
    (e : Enc) (f : Enc → Outcome Enc)
    → e.seg_i ≤ max_label_segment
    → length e.seg ≡ 63
    → ((e' : Enc) → length e'.seg ≡ 63 → e'.seg_i ≡ 0 → f e' ≡ fault)
    → (flush e >>= f) ≡ fault
unfolding flush
flush-fault e f small size next =
    rw (le→ltb 63 e.seg_i small) (go (emit e.seg_i e) (emit-Keeps e.seg_i e))
  where
    after_copy :
        (r : Outcome Enc)
        → Keeps e.seg e.seg_i r
        → (r >>= (λ e₂. ok (record e₂ { seg = memset e₂.seg 0 63; seg_i = 0 })) >>= f) ≡ fault
    after_copy (ok e₂) k =
        next (record e₂ { seg = memset e₂.seg 0 63; seg_i = 0 })
          (rw k.0 (length-memset e.seg 0 63 (omega arith) ∙ size)) refl
    after_copy refused k = absurd k
    after_copy fault k = refl
    after_copy hang k = absurd k

    go :
        (r : Outcome Enc)
        → Keeps e.seg e.seg_i r
        → (r
            >>= (λ e₁. copy_seg e.seg_i 0 e₁ >>= λ e₂.
                ok (record e₂ { seg = memset e₂.seg 0 63; seg_i = 0 }))
            >>= f)
          ≡ fault
    go (ok e₁) k =
        after_copy (copy_seg e.seg_i 0 e₁) (copy_seg-Keeps e.seg_i 0 e.seg e.seg_i e₁ k.0 k.1)
    go refused k = absurd k
    go fault k = refl
    go hang k = absurd k

put_char-fault :
    (c : ℕ) (e : Enc) (f : Enc → Outcome Enc)
    → e.seg_i ≤ max_label_segment
    → length e.seg ≡ 63
    → ((e' : Enc)
        → length e'.seg ≡ 63
        → e'.seg_i ≡ e.seg_i + 1
        → e'.seg_i ≤ max_label_segment
        → f e' ≡ fault)
    → (put_char c e >>= f) ≡ fault
unfolding put_char
put_char-fault c e f s j next = elim (Bool-cases (ltb e.seg_i (length e.seg))) [
  | inl h ↦
      let below : e.seg_i < 63 = omega (tests, j) in
      rw h (next _ (length-set e.seg e.seg_i c ∙ j) (omega arith) (omega arith))
  | inr h ↦ rw h refl
]

encode_loop-fault :
    (cs cur : List ℕ) (e : Enc)
    → e.seg_i ≡ length cur
    → length cur ≤ max_label_segment
    → length e.seg ≡ 63
    → ¬ AreShort (split_from cur cs)
    → encode_loop cs e ≡ fault
unfolding encode_loop split_from
encode_loop-fault [] cur e i s j long = absurd (long (s, tt))
encode_loop-fault (c ∷ cs) cur e i s j long = elim (Bool-cases (is_separator c)) [
  | inl sep ↦ rw sep (
      flush-fault e (encode_loop cs) (omega arith) j (λ e' j' i'.
        encode_loop-fault cs [] e' i' (omega arith) j' (λ short. (rw sep at long) (s, short))))
  | inr other ↦ rw other (
      put_char-fault c e (encode_loop cs) (omega arith) j (λ e' j' i' s'.
        encode_loop-fault cs (cur ++ c ∷ []) e' (omega (arith, length-append cur (c ∷ [])))
          (omega (arith, length-append cur (c ∷ []))) j' (rw other at long)))
]

-- A domain with a label of more than 63 bytes makes `encode_name` write outside an array: the
-- return of -1 that its first test promises is never reached.
pub encode_name-fault :
    (domain seg buf : List ℕ)
    → length seg ≡ 63
    → ¬ AreShort (split domain)
    → encode_name domain seg buf ≡ fault
unfolding encode_name
encode_name-fault domain seg buf j long =
    rw
      (encode_loop-fault domain [] (record { seg_i = 0; buf_i = 0; seg = seg; buf = buf }) refl
        (omega arith) j long)
      refl
