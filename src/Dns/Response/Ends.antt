-- ===== src/Dns/Response/Ends.antt =====
-- `parse_response` on any packet, well-formed or not.
use swe_daily_challenge.Base.{
  ℕ, zero, suc, ◌+◌, ◌≤◌, Bool, true, false, ◌&&◌, Option, none, some, List, ltb, ◌==◌,
  if◌then◌else◌, length, get_elem?,
}
use swe_daily_challenge.Dns.Types.{
  Outcome, ok, refused, fault, hang, DnsHeader, dns_type_a, read_u16, read_u32,
}
use swe_daily_challenge.Dns.Header.{print_header}
use swe_daily_challenge.Dns.Skip.{skip_name}
use swe_daily_challenge.Dns.Skip.Laws.{Advances, skip_name-Advances}
use swe_daily_challenge.Dns.Response.{
  Line, Trace, returns, faults, print, header_lines, id_mismatch, ◌>>=◌, read16, read32, skipping,
  print_address, answer_at, answers, read_header, parse_body, parse_response,
}

-- The function prints finitely many lines, and then returns or reads outside the buffer.
pub data Ends : Trace → Type 0 where
  by_return : Ends returns
  by_fault : Ends faults
  behind_line : {l : Line} {t : Trace} → Ends t → Ends (print l t)

skipping-Ends :
    (len pos : ℕ) (r : Outcome ℕ) (l : Line) (k : ℕ → Trace)
    → Advances len pos r
    → ((p : ℕ) → Ends (k p))
    → Ends (skipping r l k)
skipping-Ends len pos (ok p) l k a h = h p
skipping-Ends len pos refused l k a h = behind_line by_return
skipping-Ends len pos fault l k a h = absurd a
skipping-Ends len pos hang l k a h = absurd a

>>=-Ends : (o : Option ℕ) (k : ℕ → Trace) → ((x : ℕ) → Ends (k x)) → Ends (o >>= k)
>>=-Ends none k h = by_fault
>>=-Ends (some x) k h = h x

read16-Ends :
    (buf : List ℕ) (i : ℕ) (k : ℕ → Trace) → ((x : ℕ) → Ends (k x)) → Ends (read16 buf i k)
read16-Ends buf i k h =
    >>=-Ends (get_elem? buf i) _ λ a. >>=-Ends (get_elem? buf (i + 1)) _ λ b. h (read_u16 a b)

read32-Ends :
    (buf : List ℕ) (i : ℕ) (k : ℕ → Trace) → ((x : ℕ) → Ends (k x)) → Ends (read32 buf i k)
read32-Ends buf i k h = >>=-Ends (get_elem? buf i) _ λ a. >>=-Ends (get_elem? buf (i + 1)) _ λ b.
    >>=-Ends (get_elem? buf (i + 2)) _
      λ c. >>=-Ends (get_elem? buf (i + 3)) _ λ d. h (read_u32 a b c d)

if-Ends : (b : Bool) (s t : Trace) → Ends s → Ends t → Ends (if b then s else t)
if-Ends true s t hs ht = hs
if-Ends false s t hs ht = ht

print_address-Ends :
    (buf : List ℕ) (pos ttl class : ℕ) (t : Trace)
    → Ends t
    → Ends (print_address buf pos ttl class t)
unfolding print_address
print_address-Ends buf pos ttl class t h = >>=-Ends (get_elem? buf pos) _ λ a.
    >>=-Ends (get_elem? buf (pos + 1)) _ λ b.
      >>=-Ends (get_elem? buf (pos + 2)) _
        λ c. >>=-Ends (get_elem? buf (pos + 3)) _ λ d. behind_line h

answer_at-Ends :
    (buf : List ℕ) (pos : ℕ) (next : ℕ → Trace)
    → ((p : ℕ) → Ends (next p))
    → Ends (answer_at buf pos next)
unfolding answer_at
answer_at-Ends buf pos next h = read16-Ends buf pos _ λ type. read16-Ends buf (pos + 2) _ λ class.
    read32-Ends buf (pos + 2 + 2) _ λ ttl. read16-Ends buf (pos + 2 + 2 + 4) _ λ rdlen.
      if-Ends (type == dns_type_a && rdlen == 4) _ _
        (print_address-Ends buf (pos + 2 + 2 + 4 + 2) ttl class _ (h (pos + 2 + 2 + 4 + 2 + rdlen)))
        (h (pos + 2 + 2 + 4 + 2 + rdlen))

answers-Ends :
    (left an : ℕ) (buf : List ℕ) (len pos : ℕ)
    → len ≤ length buf
    → Ends (answers left an buf len pos)
unfolding answers
answers-Ends zero an buf len pos h = by_return
answers-Ends (suc left) an buf len pos h =
    skipping-Ends len pos (skip_name buf len pos) _ _ (skip_name-Advances buf len pos h)
      λ p. answer_at-Ends buf p _ λ p'. answers-Ends left (an + 1) buf len p' h

-- Whatever the bytes are, if they lie in the buffer the function does not loop for ever.
pub parse_response-Ends :
    (buf : List ℕ) (len expected_id : ℕ)
    → len ≤ length buf
    → Ends (parse_response buf len expected_id)
unfolding parse_response
parse_response-Ends buf len expected_id h =
    behind_line (if-Ends (ltb len 12) _ _ (behind_line by_return) (header_case (read_header buf)))
  where
    header_case :
        (o : Option DnsHeader)
        → Ends (elim o [
          | none ↦ faults
          | some header ↦ print (header_lines (print_header header)) (
              if expected_id == header.id
              then parse_body buf len header
              else print id_mismatch returns)
        ])
    header_case none = by_fault
    header_case (some header) = behind_line (
        if-Ends (expected_id == header.id) _ _
          (behind_line (
            skipping-Ends len 12 (skip_name buf len 12) _ _ (skip_name-Advances buf len 12 h)
              λ p. answers-Ends header.ancount 0 buf len (p + 4) h))
          (behind_line by_return))
