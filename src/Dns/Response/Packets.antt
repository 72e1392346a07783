-- ===== src/Dns/Response/Packets.antt =====
-- `parse_response` on whole packets: well-formed, refused, cut short, and any.
use mathlib.Core.List.{append_assoc}
use swe_daily_challenge.Base.{
  ℕ, ◌+◌, ◌^◌, ◌≤◌, ◌<◌, ◌≡◌, ◌≢◌, refl, sym, ap, ap₂, ◌∙◌, List, [], ◌∷◌, ◌++◌, ◌==◌,
  if◌then◌else◌, le→ltb, lt→ltb, eq→==, ne→==, length, length-append, arith,
}
use swe_daily_challenge.Dns.Types.{DnsHeader, htons_bytes}
use swe_daily_challenge.Dns.Header.{print_header}
use swe_daily_challenge.Dns.Skip.Laws.{NameEnd, IsEnd, AreLabels, name_bytes, skip_name_lem}
use swe_daily_challenge.Dns.Response.{
  received, no_header, header_lines, id_mismatch, blank, returns, print, answers, parse_body,
  parse_response,
}
use swe_daily_challenge.Dns.Response.Spec.{
  Answer, AreAnswers, answer_bytes, answers_size, address_lines, printing,
}
use swe_daily_challenge.Dns.Response.Laws.{read_u16_lem, answers_lem}

-- The header as it is sent, with what follows it.
abbrev pub sent_header : DnsHeader → List ℕ → List ℕ
sent_header h rest =
    htons_bytes h.id
    ++ (htons_bytes h.flags
        ++ (htons_bytes h.qdcount
            ++ (htons_bytes h.ancount
                ++ (htons_bytes h.nscount ++ (htons_bytes h.arcount ++ rest)))))

pub record IsHeader (h : DnsHeader) : Type 0 where
  pub id : h.id < 2 ^ 16
  pub flags : h.flags < 2 ^ 16
  pub qdcount : h.qdcount < 2 ^ 16
  pub ancount : h.ancount < 2 ^ 16
  pub nscount : h.nscount < 2 ^ 16
  pub arcount : h.arcount < 2 ^ 16

-- The question: a name, then type and class.
pub record Question : Type 0 where
  pub labels : List (List ℕ)
  pub name_end : NameEnd
  pub qtype : ℕ
  pub qclass : ℕ

abbrev pub IsQuestion : Question → Type 0
IsQuestion q = AreLabels q.labels × IsEnd q.name_end

abbrev pub response_bytes : DnsHeader → Question → List ℕ → List ℕ
response_bytes h q rest =
    sent_header h
      (name_bytes q.labels q.name_end ++ (htons_bytes q.qtype ++ (htons_bytes q.qclass ++ rest)))

abbrev pub response_size : Question → List Answer → ℕ
response_size q rrs = 16 + length (name_bytes q.labels q.name_end) + answers_size rrs

-- What happens behind the test of the length.
pub enter_lem :
    (h : DnsHeader) (rest : List ℕ) (len expected_id : ℕ)
    → IsHeader h
    → 12 ≤ len
    → parse_response (sent_header h rest) len expected_id
      ≡ print (received len) (
          print (header_lines (print_header h)) (
            if expected_id == h.id
            then parse_body (sent_header h rest) len h
            else print id_mismatch returns))
unfolding parse_response
enter_lem h rest len expected_id v fits = rw (le→ltb len 12 fits) (
    simp (
      read_u16_lem h.id v.id,
      read_u16_lem h.flags v.flags,
      read_u16_lem h.qdcount v.qdcount,
      read_u16_lem h.ancount v.ancount,
      read_u16_lem h.nscount v.nscount,
      read_u16_lem h.arcount v.arcount,
    ))

-- The packet up to the first record.
abbrev pub question_end : DnsHeader → Question → List ℕ
question_end h q =
    sent_header h (name_bytes q.labels q.name_end ++ (htons_bytes q.qtype ++ htons_bytes q.qclass))

pub length-question_end :
    (h : DnsHeader) (q : Question)
    → length (question_end h q) ≡ 16 + length (name_bytes q.labels q.name_end)
length-question_end h q = omega (
  arith,
  length-append (name_bytes q.labels q.name_end) (htons_bytes q.qtype ++ htons_bytes q.qclass),
)

-- The question is skipped, and the loop starts behind it.
pub parse_body_lem :
    (h : DnsHeader) (q : Question) (rest : List ℕ) (len : ℕ)
    → IsQuestion q
    → 12 + length (name_bytes q.labels q.name_end) ≤ len
    → parse_body (response_bytes h q rest) len h
      ≡ print blank (answers h.ancount 0 (question_end h q ++ rest) len (length (question_end h q)))
unfolding parse_body
parse_body_lem h q rest len vq fits =
    let fields = htons_bytes q.qtype ++ htons_bytes q.qclass in
    rw (skip_name_lem (sent_header h []) q.labels q.name_end (fields ++ rest) len vq.0 vq.1 fits) (
      ap₂ (λ buf pos. print blank (answers h.ancount 0 buf len pos))
        (ap (sent_header h) (sym (append_assoc (name_bytes q.labels q.name_end) fields rest)))
        (omega (arith, length-question_end h q)))

-- Whatever follows the records, a well-formed response with the expected id makes the function
-- print the header, a blank line and the line of each address record in order, and return.
pub parse_response_lem :
    (h : DnsHeader) (q : Question) (rrs : List Answer) (rest : List ℕ) (len : ℕ)
    → IsHeader h
    → h.ancount ≡ length rrs
    → IsQuestion q
    → AreAnswers rrs
    → response_size q rrs ≤ len
    → parse_response (response_bytes h q (answer_bytes rrs rest)) len h.id
      ≡ printing (received len ∷ header_lines (print_header h) ∷ blank ∷ address_lines rrs) returns
parse_response_lem h q rrs rest len vh count vq va fits =
    rw
      (
        enter_lem h _ len h.id vh (omega arith),
        eq→== h.id h.id refl,
        parse_body_lem h q (answer_bytes rrs rest) len vq (omega arith),
      )
      (ap (λ t. printing (received len ∷ header_lines (print_header h) ∷ blank ∷ []) t)
        (ap
            (λ n.
              answers n 0 (question_end h q ++ answer_bytes rrs rest) len
                (length (question_end h q)))
            count
          ∙ answers_lem rrs 0 (question_end h q) rest len va
              (omega (arith, length-question_end h q))))

-- A packet of fewer than 12 bytes is reported as such, and one with another id is not read any
-- further than its header.
pub parse_response_rejects :
    (h : DnsHeader) (rest buf : List ℕ) (len expected_id : ℕ)
    → IsHeader h
    → (len < 12
        → parse_response buf len expected_id ≡ printing (received len ∷ no_header ∷ []) returns)
      × (12 ≤ len
          → expected_id ≢ h.id
          → parse_response (sent_header h rest) len expected_id
            ≡ printing (received len ∷ header_lines (print_header h) ∷ id_mismatch ∷ []) returns)
unfolding parse_response
parse_response_rejects h rest buf len expected_id v = (
  λ short. rw (lt→ltb len 12 short) refl,
  λ fits other. rw (enter_lem h rest len expected_id v fits, ne→== expected_id h.id other) refl,
)
