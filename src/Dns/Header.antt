-- ===== src/Dns/Header.antt =====
-- `print_header`: the fields of the header, with the flags taken apart.
pub mod Laws
use Prim.Native.String.{String}
use swe_daily_challenge.Base.{ℕ, ◌/◌, ◌^◌, bit_and, ◌==◌, if◌then◌else◌}
use swe_daily_challenge.Dns.Types.{DnsHeader, u8}

-- What the calls of `printf` print, in their order.
pub record HeaderLines : Type 0 where
  pub id : ℕ
  pub flags : ℕ
  pub qr : ℕ
  pub qr_text : String
  pub opcode : ℕ
  pub opcode_text : String
  pub aa : ℕ
  pub tc : ℕ
  pub rd : ℕ
  pub ra : ℕ
  pub z : ℕ
  pub rcode : ℕ
  pub rcode_text : String
  pub qdcount : ℕ
  pub ancount : ℕ
  pub nscount : ℕ
  pub arcount : ℕ

-- `(f >> k) & mask`, stored in a `uint8_t`
abbrev pub flag_field : ℕ → ℕ → ℕ → ℕ
flag_field f k mask = u8 (bit_and (f / 2 ^ k) mask)

unfoldable pub print_header : DnsHeader → HeaderLines
print_header header =
    let f = header.flags in
    let qr = flag_field f 15 0x1 in
    let opcode = flag_field f 11 0xF in
    let rcode = flag_field f 0 0xF in
    record {
      id = header.id;
      flags = f;
      qr = qr;
      qr_text = if qr == 0 then "query" else "response";
      opcode = opcode;
      opcode_text = if opcode == 0 then "standard query" else "other";
      aa = flag_field f 10 0x1;
      tc = flag_field f 9 0x1;
      rd = flag_field f 8 0x1;
      ra = flag_field f 7 0x1;
      z = flag_field f 4 0x7;
      rcode = rcode;
      rcode_text = if rcode == 0 then "no error" else (if rcode == 3 then "NXDOMAIN" else "other");
      qdcount = header.qdcount;
      ancount = header.ancount;
      nscount = header.nscount;
      arcount = header.arcount;
    }
