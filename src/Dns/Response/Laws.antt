-- ===== src/Dns/Response/Laws.antt =====
-- `parse_response` on well-formed records.
use mathlib.Core.List.{append_assoc}
use swe_daily_challenge.Base.{
  ℕ, suc, ◌+◌, ◌*◌, ◌/◌, ◌%◌, ◌^◌, ◌≤◌, ◌<◌, ◌≡◌, refl, sym, subst, ap, ◌∙◌, bit_or_fields, List,
  [], ◌∷◌, ◌++◌, ◌&&◌, ◌==◌, if◌then◌else◌, length, length-append, get_elem?, get_elem?-append,
  arith,
}
use swe_daily_challenge.Dns.Types.{ok, htons_bytes, dns_type_a, read_u16, read_u32}
use swe_daily_challenge.Dns.Skip.{skip_name}
use swe_daily_challenge.Dns.Skip.Laws.{name_bytes, skip_name_lem}
use swe_daily_challenge.Dns.Response.{
  a_record, Trace, returns, print, print_address, answer_at, answers,
}
use swe_daily_challenge.Dns.Response.Spec.{
  be32_bytes, Answer, IsAnswer, AreAnswers, field_bytes, answer_bytes, answers_size, address_lines,
  printing,
}

pub read_u16_lem : (x : ℕ) → x < 2 ^ 16 → read_u16 (x / 2 ^ 8 % 2 ^ 8) (x % 2 ^ 8) ≡ x
read_u16_lem x h = omega (arith, bit_or_fields 8 (x / 2 ^ 8 % 2 ^ 8) (x % 2 ^ 8) (omega arith))

pub read_u32_lem :
    (x : ℕ)
    → x < 2 ^ 32
    → read_u32 (x / 2 ^ 24 % 2 ^ 8) (x / 2 ^ 16 % 2 ^ 8) (x / 2 ^ 8 % 2 ^ 8) (x % 2 ^ 8) ≡ x
read_u32_lem x h = ground (
  arith,
  bit_or_fields 24 (x / 2 ^ 24 % 2 ^ 8) (x / 2 ^ 16 % 2 ^ 8 * 2 ^ 16) (omega arith),
  bit_or_fields 16 (x / 2 ^ 16) (x / 2 ^ 8 % 2 ^ 8 * 2 ^ 8) (omega arith),
  bit_or_fields 8 (x / 2 ^ 8) (x % 2 ^ 8) (omega arith),
)

module _ (pre : List ℕ) where
  -- Reading `i` bytes behind a prefix.
  read_at : (ys : List ℕ) (i p : ℕ) → p ≡ length pre + i → get_elem? (pre ++ ys) p ≡ get_elem? ys i
  read_at ys i p e = ap (get_elem? (pre ++ ys)) e ∙ get_elem?-append pre ys i

  -- The ten bytes of the fields.
  answer_at_bytes :
      (t₁ t₀ c₁ c₀ l₃ l₂ l₁ l₀ r₁ r₀ : ℕ) (tail : List ℕ) (next : ℕ → Trace)
      → let buf = pre ++ t₁ ∷ t₀ ∷ c₁ ∷ c₀ ∷ l₃ ∷ l₂ ∷ l₁ ∷ l₀ ∷ r₁ ∷ r₀ ∷ tail in
        let behind = length pre + 2 + 2 + 4 + 2 in
        answer_at buf (length pre) next ≡ (
          if read_u16 t₁ t₀ == dns_type_a && read_u16 r₁ r₀ == 4
          then print_address buf behind
              (read_u32 l₃ l₂ l₁ l₀)
              (read_u16 c₁ c₀)
              (next (behind + read_u16 r₁ r₀))
          else next (behind + read_u16 r₁ r₀))
  unfolding answer_at
  answer_at_bytes t₁ t₀ c₁ c₀ l₃ l₂ l₁ l₀ r₁ r₀ tail next =
      let ys = t₁ ∷ t₀ ∷ c₁ ∷ c₀ ∷ l₃ ∷ l₂ ∷ l₁ ∷ l₀ ∷ r₁ ∷ r₀ ∷ tail in
      simp (
        read_at ys 0 (length pre) (omega arith),
        read_at ys 1 (length pre + 1) (omega arith),
        read_at ys 2 (length pre + 2) (omega arith),
        read_at ys 3 (length pre + 2 + 1) (omega arith),
        read_at ys 4 (length pre + 2 + 2) (omega arith),
        read_at ys 5 (length pre + 2 + 2 + 1) (omega arith),
        read_at ys 6 (length pre + 2 + 2 + 2) (omega arith),
        read_at ys 7 (length pre + 2 + 2 + 3) (omega arith),
        read_at ys 8 (length pre + 2 + 2 + 4) (omega arith),
        read_at ys 9 (length pre + 2 + 2 + 4 + 1) (omega arith),
      )

  read_behind :
      (ys zs : List ℕ) (j p : ℕ)
      → p ≡ length pre + length ys + j
      → get_elem? (pre ++ (ys ++ zs)) p ≡ get_elem? zs j
  read_behind ys zs j p e =
      read_at (ys ++ zs) (length ys + j) p (omega arith) ∙ get_elem?-append ys zs j

  -- The four bytes of an address, behind the fields.
  print_address_lem :
      (ys rdata rest : List ℕ) (i ttl class : ℕ) (t : Trace)
      → length rdata ≡ 4
      → i ≡ length pre + length ys
      → print_address (pre ++ (ys ++ (rdata ++ rest))) i ttl class t
        ≡ print (a_record rdata ttl class) t
  unfolding print_address
  print_address_lem ys (a ∷ b ∷ c ∷ d ∷ []) rest i ttl class t h e =
      let zs = a ∷ b ∷ c ∷ d ∷ rest in
      simp (
        read_behind ys zs 0 i (omega arith),
        read_behind ys zs 1 (i + 1) (omega arith),
        read_behind ys zs 2 (i + 2) (omega arith),
        read_behind ys zs 3 (i + 3) (omega arith),
      )
  print_address_lem _ _ rest i ttl class t h e = absurd (omega arith)

  -- One round behind the name, on a well-formed record.
  answer_at_lem :
      (a : Answer) (rest : List ℕ) (next : ℕ → Trace)
      → IsAnswer a
      → let behind = length pre + 2 + 2 + 4 + 2 + length a.rdata in
        answer_at (pre ++ field_bytes a rest) (length pre) next ≡ (
          if a.rtype == dns_type_a && length a.rdata == 4
          then print (a_record a.rdata a.ttl a.class) (next behind)
          else next behind)
  answer_at_lem a rest next v =
      let fields =
        htons_bytes a.rtype
        ++ (htons_bytes a.class ++ (be32_bytes a.ttl ++ htons_bytes (length a.rdata))) in
      let behind = length pre + 2 + 2 + 4 + 2 in
      rw
        (
          answer_at_bytes _ _ _ _ _ _ _ _ _ _ (a.rdata ++ rest) next,
          read_u16_lem a.rtype v.rtype,
          read_u16_lem a.class v.class,
          read_u32_lem a.ttl v.ttl,
          read_u16_lem (length a.rdata) v.rdlen,
        )
        (ground (
          arith,
          print_address_lem fields a.rdata rest behind a.ttl a.class
              (next (behind + length a.rdata)),
        ))

-- The bytes behind one record.
regroup :
    (pre : List ℕ) (a : Answer) (tail : List ℕ)
    → (pre ++ name_bytes a.labels a.name_end) ++ field_bytes a tail
      ≡ ((pre ++ name_bytes a.labels a.name_end)
          ++ (htons_bytes a.rtype
              ++ (htons_bytes a.class
                  ++ (be32_bytes a.ttl ++ (htons_bytes (length a.rdata) ++ a.rdata)))))
        ++ tail
regroup pre a tail = simp append_assoc

-- One round, with the name in front of the fields.
answers_step :
    (left an : ℕ) (buf : List ℕ) (len pos : ℕ) (pre : List ℕ) (a : Answer) (tail : List ℕ)
    → buf ≡ pre ++ field_bytes a tail
    → skip_name buf len pos ≡ ok (length pre)
    → IsAnswer a
    → let rest = answers left (an + 1) buf len (length pre + 2 + 2 + 4 + 2 + length a.rdata) in
      answers (suc left) an buf len pos ≡ (
        if a.rtype == dns_type_a && length a.rdata == 4
        then print (a_record a.rdata a.ttl a.class) rest
        else rest)
unfolding answers
answers_step left an buf len pos pre a tail e skip v = rw skip (
    subst
      (λ b. answer_at b (length pre) next ≡ (
        if a.rtype == dns_type_a && length a.rdata == 4
        then print (a_record a.rdata a.ttl a.class) (next behind)
        else next behind))
      (sym e) (answer_at_lem pre a tail next v))
  where
    behind : ℕ
    behind = length pre + 2 + 2 + 4 + 2 + length a.rdata

    next : ℕ → Trace
    next = answers left (an + 1) buf len

-- The loop on well-formed records prints the line of each address record, in order, and returns.
pub answers_lem :
    (rrs : List Answer) (an : ℕ) (pre rest : List ℕ) (len : ℕ)
    → AreAnswers rrs
    → length pre + answers_size rrs ≤ len
    → answers (length rrs) an (pre ++ answer_bytes rrs rest) len (length pre)
      ≡ printing (address_lines rrs) returns
answers_lem [] an pre rest len v h = unfold answers in refl
answers_lem (a ∷ more) an pre rest len v h =
    let name = name_bytes a.labels a.name_end in
    let tail = answer_bytes more rest in
    let buf = pre ++ (name ++ field_bytes a tail) in
    let fields =
      htons_bytes a.rtype
      ++ (htons_bytes a.class ++ (be32_bytes a.ttl ++ (htons_bytes (length a.rdata) ++ a.rdata))) in
    let next = (pre ++ name) ++ fields in
    let front = length-append pre name in
    let size = length-append (pre ++ name) fields in
    let ih : answers (length more) (an + 1) (next ++ tail) len (length next)
        ≡ printing (address_lines more) returns =
      answers_lem more (an + 1) next rest len v.1 (omega (arith, front, size)) in
    let split_buf = sym (append_assoc pre name (field_bytes a tail)) in
    ground (
      arith,
      answers_step (length more) an buf len (length pre) (pre ++ name) a tail split_buf
          (skip_name_lem pre a.labels a.name_end (field_bytes a tail) len v.0.labels v.0.name_end
              (omega arith)
            ∙ ap ok (sym front))
          v.0,
      ih,
      front,
      size,
      split_buf ∙ regroup pre a tail,
    )
