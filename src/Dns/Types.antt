-- ===== src/Dns/Types.antt =====
-- What the parts of 04-dns_query/main.c share: the header, the constants, and the outcome of a call.
use swe_daily_challenge.Base.{ℕ, ◌*◌, ◌/◌, ◌%◌, ◌^◌, bit_or, Option, none, some, List, [], ◌∷◌}

-- `refused` is the return value -1; `fault` is an access outside an array, which C leaves
-- undefined; `hang` is a loop that has used up its fuel.
pub data Outcome (A : Type 0) : Type 0 where
  ok : A → Outcome A
  refused fault hang : Outcome A

infixl 5 ◌>>=◌
abbrev pub ◌>>=◌ : {A B : Type 0} → Outcome A → (A → Outcome B) → Outcome B
ok a >>= f = f a
refused >>= f = refused
fault >>= f = fault
hang >>= f = hang

-- An access that must lie inside the array.
abbrev pub access : {A : Type 0} → Option A → Outcome A
access none = fault
access (some a) = ok a

-- A cast to `uint8_t`, `uint16_t`, `uint32_t`.
abbrev pub u8 : ℕ → ℕ
u8 n = n % 2 ^ 8

abbrev pub u16 : ℕ → ℕ
u16 n = n % 2 ^ 16

abbrev pub u32 : ℕ → ℕ
u32 n = n % 2 ^ 32

-- `dns_header_t`
pub record DnsHeader : Type 0 where
  pub id : ℕ
  pub flags : ℕ
  pub qdcount : ℕ
  pub ancount : ℕ
  pub nscount : ℕ
  pub arcount : ℕ

abbrev pub dns_type_a : ℕ
dns_type_a = 1

abbrev pub dns_class_in : ℕ
dns_class_in = 1

abbrev pub dns_header_flags : ℕ
dns_header_flags = 0x0100

abbrev pub max_label_total : ℕ
max_label_total = 255

abbrev pub max_label_segment : ℕ
max_label_segment = 63

-- A `uint16_t` that went through `htons` lies in memory with its high byte first.
abbrev pub htons_bytes : ℕ → List ℕ
htons_bytes x = (x / 2 ^ 8 % 2 ^ 8) ∷ (x % 2 ^ 8) ∷ []

-- `(uint16_t)a << 8 | (uint16_t)b`
abbrev pub read_u16 : ℕ → ℕ → ℕ
read_u16 a b = u16 (bit_or (a * 2 ^ 8) b)

-- `(uint32_t)a << 24 | (uint32_t)b << 16 | (uint32_t)c << 8 | (uint32_t)d`
abbrev pub read_u32 : ℕ → ℕ → ℕ → ℕ → ℕ
read_u32 a b c d =
    bit_or (bit_or (bit_or (u32 (a * 2 ^ 24)) (u32 (b * 2 ^ 16))) (u32 (c * 2 ^ 8))) d
