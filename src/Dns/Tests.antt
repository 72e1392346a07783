-- ===== src/Dns/Tests.antt =====
-- Names, queries and responses of the DNS program.
use swe_daily_challenge.Base.{
  ℕ, ◌-◌, ◌<◌, ◌≡◌, refl, true, Option, some, List, [], ◌∷◌, replicate, arith,
}
use swe_daily_challenge.Dns.Types.{DnsHeader, ok, fault}
use swe_daily_challenge.Dns.Name.{encode_name}
use swe_daily_challenge.Dns.Name.Spec.{split, split_from, AreShort, overwrite}
use swe_daily_challenge.Dns.Name.Full.{encode_name_lem}
use swe_daily_challenge.Dns.Name.Overrun.{encode_name-fault}
use swe_daily_challenge.Dns.Query.{build_query}
use swe_daily_challenge.Dns.Query.EmptyLabel.{build_query_empty_label}
use swe_daily_challenge.Dns.Skip.{skip_name}
use swe_daily_challenge.Dns.Skip.Laws.{root, pointer}
use swe_daily_challenge.Dns.Header.{print_header}
use swe_daily_challenge.Dns.Response.{
  received, header_lines, blank, a_record, returns, faults, parse_response,
}
use swe_daily_challenge.Dns.Response.Spec.{Answer, printing, answer_bytes}
use swe_daily_challenge.Dns.Response.Packets.{Question, response_bytes, parse_response_lem}
use swe_daily_challenge.Dns.Response.Ends.{Ends, parse_response-Ends}
use swe_daily_challenge.Dns.Program.{dns_main, answered, usage}
use swe_daily_challenge.Dns.Program.Laws.{dns_main_lem}
use swe_daily_challenge.Dns.Response.Truncated.{parse_response_truncated}

-- a.bc
abbrev short_name : List ℕ
short_name = b'a' ∷ b'.' ∷ b'b' ∷ b'c' ∷ []

-- a.
abbrev dotted_name : List ℕ
dotted_name = b'a' ∷ b'.' ∷ []

abbrev long_label : List ℕ
long_label = replicate 64 b'a'

abbrev array : ℕ → List ℕ
array n = replicate n 0xAA

encodes :
    encode_name short_name (array 63) (array 8)
    ≡ ok (6, 1 ∷ b'a' ∷ 2 ∷ b'b' ∷ b'c' ∷ 0 ∷ 0xAA ∷ 0xAA ∷ [])
unfolding encode_name
encodes = refl

encode_name_lem_example :
    encode_name short_name (array 63) (array 512)
    ≡ ok (6, overwrite (1 ∷ b'a' ∷ 2 ∷ b'b' ∷ b'c' ∷ 0 ∷ []) (array 512))
unfolding split_from
encode_name_lem_example =
    encode_name_lem short_name (array 63) (array 512) refl (omega arith) (omega arith)

long_label_lem : ¬ AreShort (split long_label)
unfolding split_from
long_label_lem h = absurd (omega (arith, h.0))

encode_name-fault_example : encode_name long_label (array 63) (array 512) ≡ fault
encode_name-fault_example = encode_name-fault long_label (array 63) (array 512) refl long_label_lem

build_query_empty_label_example :
    (len pos : ℕ) × (packet : List ℕ) × (build_query dotted_name
        (array 63)
        (array 512)
        (array 512)
        0x1234
      ≡ ok (len, packet))
    × (skip_name packet len 12 ≡ ok pos)
    × (pos < len - 4)
unfolding split_from
build_query_empty_label_example =
    build_query_empty_label dotted_name (array 63) (array 512) (array 512) 0x1234 ((b'a' ∷ []) ∷ [])
      [] refl refl refl (omega arith) (omega arith) refl (omega arith)

-- A pointer whose second byte is missing.
cut_pointer : skip_name (0xC0 ∷ []) 1 0 ≡ ok 2
unfolding skip_name
cut_pointer = refl

-- A response with an error and its flags: QR, RD, RA and RCODE 3.
abbrev one_answer : DnsHeader
one_answer = record {
  id = 0x1234;
  flags = 0x8183;
  qdcount = 1;
  ancount = 1;
  nscount = 0;
  arcount = 0;
}

abbrev question : Question
question = record { labels = (b'a' ∷ []) ∷ []; name_end = root; qtype = 1; qclass = 1 }

abbrev address : Answer
address = record {
  labels = [];
  name_end = pointer 0xC0 12;
  rtype = 1;
  class = 1;
  ttl = 300;
  rdata = 93 ∷ 184 ∷ 216 ∷ 34 ∷ [];
}

parse_response_lem_example :
    parse_response (response_bytes one_answer question (answer_bytes (address ∷ []) [])) 35 0x1234
    ≡ printing
        (received 35
          ∷ header_lines (print_header one_answer)
          ∷ blank
          ∷ a_record (93 ∷ 184 ∷ 216 ∷ 34 ∷ []) 300 1
          ∷ [])
        returns
parse_response_lem_example =
    parse_response_lem one_answer question (address ∷ []) [] 35 (omega arith) refl (omega arith)
      (omega arith) (omega arith)

parse_response-Ends_example : Ends (parse_response (array 512) 40 7)
parse_response-Ends_example = parse_response-Ends (array 512) 40 7 (omega arith)

-- The response above, cut behind the type of its record.
parse_response_truncated_example :
    parse_response (response_bytes one_answer question (0xC0 ∷ 12 ∷ 0 ∷ 1 ∷ [])) 23 0x1234
    ≡ printing (received 23 ∷ header_lines (print_header one_answer) ∷ blank ∷ []) faults
parse_response_truncated_example =
    parse_response_truncated one_answer question [] (pointer 0xC0 12) (0 ∷ 1 ∷ []) 0 (omega arith)
      refl (omega arith) tt (omega arith) (omega arith)

-- A resolver that has one answer.
abbrev resolver : (len : ℕ) → (packet : List ℕ) → Option (List ℕ)
resolver len packet = some (response_bytes one_answer question (answer_bytes (address ∷ []) []))

no_arguments : dns_main resolver ((b'd' ∷ []) ∷ []) 7 [] [] [] [] true ≡ usage
unfolding dns_main
no_arguments = refl

dns_main_lem_example :
    dns_main resolver
      ((b'd' ∷ []) ∷ (b'a' ∷ []) ∷ [])
      0x11234
      (array 63)
      (array 512)
      (array 512)
      (array 512)
      true
    ≡ answered 0x1234 (
        printing
          (received 35
            ∷ header_lines (print_header one_answer)
            ∷ blank
            ∷ a_record (93 ∷ 184 ∷ 216 ∷ 34 ∷ []) 300 1
            ∷ [])
          returns)
unfolding split_from
dns_main_lem_example =
    dns_main_lem resolver (b'd' ∷ []) (b'a' ∷ []) 0x11234 (array 63) (array 512) (array 512)
      (array 512) one_answer question (address ∷ []) refl refl refl refl (omega arith) (omega arith)
      refl refl (omega arith) refl (omega arith) (omega arith) (omega arith)
