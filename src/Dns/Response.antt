-- ===== src/Dns/Response.antt =====
-- `parse_response`: what it prints for the bytes received.
pub mod Spec
pub mod Laws
pub mod Packets
pub mod Ends
pub mod Truncated
use swe_daily_challenge.Base.{
  ℕ, zero, suc, ◌+◌, Option, none, some, List, [], ◌∷◌, Bool, true, false, not, ◌&&◌, ltb, ◌==◌,
  if◌then◌else◌, get_elem?,
}
use swe_daily_challenge.Dns.Types.{
  Outcome, ok, refused, fault, hang, DnsHeader, dns_type_a, read_u16, read_u32,
}
use swe_daily_challenge.Dns.Header.{HeaderLines, print_header}
use swe_daily_challenge.Dns.Skip.{skip_name}

-- A line of output. Of an address the four bytes are shown that `inet_ntop` is given.
pub data Line : Type 0 where
  received : ℕ → Line
  no_header : Line
  header_lines : HeaderLines → Line
  id_mismatch : Line
  blank : Line
  bad_question_name : Line
  bad_answer_name : ℕ → Line
  a_record : List ℕ → (ttl class : ℕ) → Line

-- The lines printed before the function returns, reads outside the buffer, or loops for ever.
pub data Trace : Type 0 where
  returns faults hangs : Trace
  print : Line → Trace → Trace

-- `buf[i]`
infixl 5 ◌>>=◌
abbrev pub ◌>>=◌ : Option ℕ → (ℕ → Trace) → Trace
none >>= k = faults
some x >>= k = k x

abbrev pub read16 : List ℕ → ℕ → (ℕ → Trace) → Trace
read16 buf i k = do a ← get_elem? buf i; b ← get_elem? buf (i + 1); k (read_u16 a b)

abbrev pub read32 : List ℕ → ℕ → (ℕ → Trace) → Trace
read32 buf i k = do
  a ← get_elem? buf i
  b ← get_elem? buf (i + 1)
  c ← get_elem? buf (i + 2)
  d ← get_elem? buf (i + 3)
  k (read_u32 a b c d)

-- A call of `skip_name`, with the line printed where it returns -1.
abbrev pub skipping : Outcome ℕ → Line → (ℕ → Trace) → Trace
skipping (ok pos) l k = k pos
skipping refused l k = print l returns
skipping fault l k = faults
skipping hang l k = hangs

-- `inet_ntop(AF_INET, &buf[pos], ...)` and the line that shows the result.
unfoldable pub print_address : List ℕ → ℕ → (ttl class : ℕ) → Trace → Trace
print_address buf pos ttl class rest = do
  a ← get_elem? buf pos
  b ← get_elem? buf (pos + 1)
  c ← get_elem? buf (pos + 2)
  d ← get_elem? buf (pos + 3)
  print (a_record (a ∷ b ∷ c ∷ d ∷ []) ttl class) rest

-- One round behind the name: the record's fields, its line if it is an address, and the rest of the
-- rounds from the end of its data.
unfoldable pub answer_at : List ℕ → ℕ → (ℕ → Trace) → Trace
unfolding print_address
answer_at buf pos next = read16 buf pos λ type. read16 buf (pos + 2) λ class.
    read32 buf (pos + 2 + 2) λ ttl. read16 buf (pos + 2 + 2 + 4) λ rdlen.
      let end_of_fields = pos + 2 + 2 + 4 + 2 in
      if type == dns_type_a && rdlen == 4
      then print_address buf end_of_fields ttl class (next (end_of_fields + rdlen))
      else next (end_of_fields + rdlen)

-- The loop over `an`, with `left` rounds to go.
unfoldable pub answers : (left an : ℕ) → List ℕ → (len pos : ℕ) → Trace
unfolding answer_at
answers zero an buf len pos = returns
answers (suc left) an buf len pos =
    skipping (skip_name buf len pos) (bad_answer_name an)
      λ pos'. answer_at buf pos' λ pos''. answers left (an + 1) buf len pos''

-- The bytes of the header, read as the six numbers.
unfoldable pub read_header : List ℕ → Option DnsHeader
read_header (a₀ ∷ a₁ ∷ b₀ ∷ b₁ ∷ c₀ ∷ c₁ ∷ d₀ ∷ d₁ ∷ e₀ ∷ e₁ ∷ f₀ ∷ f₁ ∷ _) = some (record {
  id = read_u16 a₀ a₁;
  flags = read_u16 b₀ b₁;
  qdcount = read_u16 c₀ c₁;
  ancount = read_u16 d₀ d₁;
  nscount = read_u16 e₀ e₁;
  arcount = read_u16 f₀ f₁;
})
read_header _ = none

-- Behind the test of the id.
unfoldable pub parse_body : List ℕ → ℕ → DnsHeader → Trace
unfolding answers
parse_body buf len header = print blank (
    skipping (skip_name buf len 12) bad_question_name
      λ pos. answers header.ancount 0 buf len (pos + 4))

-- `buf` is the whole array that the caller passes, of which `len` bytes were received.
unfoldable pub parse_response : List ℕ → (len expected_id : ℕ) → Trace
unfolding parse_body read_header print_header
parse_response buf len expected_id = print (received len) (
    if ltb len 12 then print no_header returns else elim (read_header buf) [
      | none ↦ faults
      | some header ↦ print (header_lines (print_header header)) (
          if expected_id == header.id then parse_body buf len header else print id_mismatch returns)
    ])
