-- ===== src/Dns/Program.antt =====
-- main of 04-dns_query/main.c: the query goes out, and what comes back is parsed.
pub mod Laws
use swe_daily_challenge.Base.{
  ℕ, ◌-◌, ◌%◌, ◌^◌, Bool, true, false, Option, none, some, List, [], ◌∷◌, ◌++◌, length, take, drop,
}
use swe_daily_challenge.Dns.Types.{Outcome, ok, refused, fault, hang, u16}
use swe_daily_challenge.Dns.Query.{write_at, header_bytes, build_query}
use swe_daily_challenge.Dns.Response.{Trace, parse_response}

-- How main ends: a wrong number of arguments; an access outside an array in build_query; with the
-- printed id, an error of socket or of recvfrom, or what parse_response prints.
pub data Run : Type 0 where
  usage overruns : Run
  no_socket no_answer : (id : ℕ) → Run
  answered : (id : ℕ) → Trace → Run

-- `recvfrom` into the array: a datagram that is longer is cut.
abbrev pub receive : (bytes resp : List ℕ) → List ℕ
receive bytes resp = take (length resp) bytes ++ drop (length bytes) resp

-- `network` is what comes back in `recvfrom` for the length and the array that sendto is given, or
-- none for an error.
module _ (network : (len : ℕ) → (packet : List ℕ) → Option (List ℕ)) where
  unfoldable pub exchange : (pkt_len : ℕ) → (pkt resp : List ℕ) → (id : ℕ) → Run
  exchange pkt_len pkt resp id = elim (network pkt_len pkt) [
    | none ↦ no_answer id
    | some bytes ↦
        answered id (parse_response (receive bytes resp) (length (take (length resp) bytes)) id)
  ]

  -- A result of -1 is not tested: it is converted to a `size_t`.
  abbrev pub send_query :
      Outcome (ℕ × List ℕ) → (header : Outcome (List ℕ)) → (resp : List ℕ) → (id : ℕ) → Run
  send_query (ok (pkt_len, pkt)) header resp id = exchange pkt_len pkt resp id
  send_query refused (ok pkt) resp id = exchange (2 ^ 64 - 1) pkt resp id
  send_query refused refused resp id = overruns
  send_query refused fault resp id = overruns
  send_query refused hang resp id = overruns
  send_query fault header resp id = overruns
  send_query hang header resp id = overruns

  -- `seg`, `encoded_domain`, `pkt` and `resp` are uninitialised arrays; build_query comes before
  -- socket.
  unfoldable pub dns_main :
      (argv : List (List ℕ)) (pid : ℕ) (seg encoded_domain pkt resp : List ℕ) (socket_opens : Bool)
      → Run
  unfolding exchange build_query
  dns_main (program ∷ domain ∷ []) pid seg encoded_domain pkt resp true =
      let id = u16 pid in
      send_query (build_query domain seg encoded_domain pkt id) (write_at pkt 0 (header_bytes id))
        resp id
  dns_main (program ∷ domain ∷ []) pid seg encoded_domain pkt resp false =
      elim (build_query domain seg encoded_domain pkt (u16 pid)) [
        | ok r ↦ no_socket (u16 pid)
        | refused ↦ no_socket (u16 pid)
        | fault ↦ overruns
        | hang ↦ overruns
      ]
  dns_main _ pid seg encoded_domain pkt resp socket_opens = usage
