-- ===== src/Dns/Program/Laws.antt =====
-- A query and its answer, through the whole program.
use mathlib.Core.List.{append_assoc}
use swe_daily_challenge.Base.{
  ℕ, zero, suc, ◌+◌, ◌≤◌, ◌≡◌, refl, sym, ap, ap₂, ◌∙◌, true, Option, some, List, [], ◌∷◌, ◌++◌,
  length, length-append, take, drop, arith,
}
use swe_daily_challenge.Dns.Types.{max_label_total, DnsHeader, htons_bytes, u16}
use swe_daily_challenge.Dns.Name.Spec.{split, AreShort, overwrite}
use swe_daily_challenge.Dns.Header.{print_header}
use swe_daily_challenge.Dns.Query.{write_at, header_bytes}
use swe_daily_challenge.Dns.Query.Laws.{query_bytes, build_query_lem}
use swe_daily_challenge.Dns.Skip.Laws.{name_bytes}
use swe_daily_challenge.Dns.Response.{received, header_lines, blank, returns, parse_response}
use swe_daily_challenge.Dns.Response.Spec.{
  Answer, AreAnswers, field_bytes, answer_bytes, answers_size, address_lines, printing,
}
use swe_daily_challenge.Dns.Response.Packets.{
  Question, IsQuestion, IsHeader, response_bytes, response_size, parse_response_lem,
}
use swe_daily_challenge.Dns.Program.{answered, exchange, send_query, dns_main}

take-all : (n : ℕ) (xs : List ℕ) → length xs ≤ n → take n xs ≡ xs
take-all zero [] h = refl
take-all zero (x ∷ xs) h = absurd (omega arith)
take-all (suc n) [] h = refl
take-all (suc n) (x ∷ xs) h = ap (◌∷◌ x) (take-all n xs (omega arith))

answer_bytes-append :
    (rrs : List Answer) (rest : List ℕ) → answer_bytes rrs [] ++ rest ≡ answer_bytes rrs rest
answer_bytes-append [] rest = refl
answer_bytes-append (a ∷ more) rest = simp (append_assoc, answer_bytes-append more rest) refl

length-answer_bytes : (rrs : List Answer) → length (answer_bytes rrs []) ≡ answers_size rrs
length-answer_bytes [] = refl
length-answer_bytes (a ∷ more) = omega (
  arith,
  length-append (name_bytes a.labels a.name_end) (field_bytes a (answer_bytes more [])),
  length-append a.rdata (answer_bytes more []),
  length-answer_bytes more,
)

response_bytes-append :
    (h : DnsHeader) (q : Question) (rrs : List Answer) (rest : List ℕ)
    → response_bytes h q (answer_bytes rrs []) ++ rest ≡ response_bytes h q (answer_bytes rrs rest)
response_bytes-append h q rrs rest = simp (append_assoc, answer_bytes-append rrs rest) refl

length-response_bytes :
    (h : DnsHeader) (q : Question) (rrs : List Answer)
    → length (response_bytes h q (answer_bytes rrs [])) ≡ response_size q rrs
length-response_bytes h q rrs = omega (
  arith,
  length-append (name_bytes q.labels q.name_end)
      (htons_bytes q.qtype ++ (htons_bytes q.qclass ++ answer_bytes rrs [])),
  length-answer_bytes rrs,
)

module _ (network : (len : ℕ) → (packet : List ℕ) → Option (List ℕ)) where
  -- A datagram that fits in the array.
  exchange_lem :
      (pkt_len : ℕ) (pkt resp bytes : List ℕ) (id : ℕ)
      → network pkt_len pkt ≡ some bytes
      → length bytes ≤ length resp
      → exchange network pkt_len pkt resp id
        ≡ answered id (parse_response (bytes ++ drop (length bytes) resp) (length bytes) id)
  unfolding exchange
  exchange_lem pkt_len pkt resp bytes id reply fits =
      simp (exchange, reply, take-all (length resp) bytes fits) refl

  -- For a domain with labels of at most 63 bytes and a wire form of at most 255: if the network
  -- answers the encoded query with a well-formed response that has its id and fits in 512 bytes,
  -- the program prints the header and the line of each address record in order.
  pub dns_main_lem :
      (program domain : List ℕ) (pid : ℕ) (seg encoded pkt resp : List ℕ) (h : DnsHeader)
      (q : Question) (rrs : List Answer)
      → length seg ≡ 63
      → length encoded ≡ 512
      → length pkt ≡ 512
      → length resp ≡ 512
      → AreShort (split domain)
      → length domain + 2 ≤ max_label_total
      → network (length domain + 18) (overwrite (query_bytes domain (u16 pid)) pkt)
        ≡ some (response_bytes h q (answer_bytes rrs []))
      → h.id ≡ u16 pid
      → IsHeader h
      → h.ancount ≡ length rrs
      → IsQuestion q
      → AreAnswers rrs
      → response_size q rrs ≤ 512
      → dns_main network (program ∷ domain ∷ []) pid seg encoded pkt resp true
        ≡ answered (u16 pid) (
            printing
              (received (response_size q rrs)
                ∷ header_lines (print_header h)
                ∷ blank
                ∷ address_lines rrs)
              returns)
  unfolding dns_main
  dns_main_lem program domain pid seg encoded pkt resp h q rrs hs he hp hr short total reply same vh
        count vq va fits =
      let size = length-response_bytes h q rrs in
      ap (λ o. send_query network o (write_at pkt 0 (header_bytes (u16 pid))) resp (u16 pid))
        (build_query_lem domain seg encoded pkt (u16 pid) hs he hp short total)
      ∙ exchange_lem (length domain + 18) (overwrite (query_bytes domain (u16 pid)) pkt) resp
          (response_bytes h q (answer_bytes rrs [])) (u16 pid) reply (omega (arith, size))
      ∙ ap₂ (λ buf n. answered (u16 pid) (parse_response buf n (u16 pid)))
          (response_bytes-append h q rrs
            (drop (length (response_bytes h q (answer_bytes rrs []))) resp))
          size
      ∙ ap
          (λ id. answered (u16 pid) (
            parse_response
              (response_bytes h q
                (answer_bytes rrs (drop (length (response_bytes h q (answer_bytes rrs []))) resp)))
              (response_size q rrs) id))
          (sym same)
      ∙ ap (answered (u16 pid)) (
          parse_response_lem h q rrs (drop (length (response_bytes h q (answer_bytes rrs []))) resp)
            (response_size q rrs) vh count vq va (omega arith))
