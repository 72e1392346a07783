-- ===== src/Dns/Header/Laws.antt =====
-- `print_header` against the layout of the flags in RFC 1035.
use swe_daily_challenge.Base.{ℕ, ◌+◌, ◌*◌, ◌/◌, ◌^◌, ◌<◌, ◌≡◌, bit_and_mask, arith}
use swe_daily_challenge.Dns.Types.{DnsHeader}
use swe_daily_challenge.Dns.Header.{HeaderLines, print_header}

-- QR, Opcode, AA, TC, RD, RA, Z and RCODE, from the highest bit down.
pub record Flags : Type 0 where
  pub qr : ℕ
  pub opcode : ℕ
  pub aa : ℕ
  pub tc : ℕ
  pub rd : ℕ
  pub ra : ℕ
  pub z : ℕ
  pub rcode : ℕ

pub record AreFlags (f : Flags) : Type 0 where
  pub qr : f.qr < 2
  pub opcode : f.opcode < 16
  pub aa : f.aa < 2
  pub tc : f.tc < 2
  pub rd : f.rd < 2
  pub ra : f.ra < 2
  pub z : f.z < 8
  pub rcode : f.rcode < 16

abbrev pub flag_word : Flags → ℕ
flag_word f =
    f.qr * 2 ^ 15
    + f.opcode * 2 ^ 11
    + f.aa * 2 ^ 10
    + f.tc * 2 ^ 9
    + f.rd * 2 ^ 8
    + f.ra * 2 ^ 7
    + f.z * 2 ^ 4
    + f.rcode

abbrev pub shown_flags : HeaderLines → Flags
shown_flags p = record {
  qr = p.qr;
  opcode = p.opcode;
  aa = p.aa;
  tc = p.tc;
  rd = p.rd;
  ra = p.ra;
  z = p.z;
  rcode = p.rcode;
}

-- Every flag that is printed is the one that was put into the word.
pub print_header_flags :
    (h : DnsHeader) (f : Flags)
    → AreFlags f
    → h.flags ≡ flag_word f
    → shown_flags (print_header h) ≡ f
unfolding print_header
print_header_flags h f v e = ground (
  arith,
  bit_and_mask 1 (h.flags / 2 ^ 15),
  bit_and_mask 4 (h.flags / 2 ^ 11),
  bit_and_mask 1 (h.flags / 2 ^ 10),
  bit_and_mask 1 (h.flags / 2 ^ 9),
  bit_and_mask 1 (h.flags / 2 ^ 8),
  bit_and_mask 1 (h.flags / 2 ^ 7),
  bit_and_mask 3 (h.flags / 2 ^ 4),
  bit_and_mask 4 (h.flags / 2 ^ 0),
)
