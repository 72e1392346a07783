-- ===== src/Dns/Response/Spec.antt =====
-- A response as RFC 1035 lays it out, and the lines that are due for it.
use swe_daily_challenge.Base.{
  ℕ, ◌+◌, ◌/◌, ◌%◌, ◌^◌, ◌<◌, List, [], ◌∷◌, ◌++◌, ◌&&◌, ◌==◌, if◌then◌else◌, length,
}
use swe_daily_challenge.Dns.Types.{htons_bytes, dns_type_a}
use swe_daily_challenge.Dns.Skip.Laws.{NameEnd, IsEnd, AreLabels, name_bytes}
use swe_daily_challenge.Dns.Response.{Line, a_record, Trace, print}

-- The 32 bits of `x`, high byte first.
abbrev pub be32_bytes : ℕ → List ℕ
be32_bytes x = (x / 2 ^ 24 % 2 ^ 8) ∷ (x / 2 ^ 16 % 2 ^ 8) ∷ (x / 2 ^ 8 % 2 ^ 8) ∷ (x % 2 ^ 8) ∷ []

-- A resource record.
pub record Answer : Type 0 where
  pub labels : List (List ℕ)
  pub name_end : NameEnd
  pub rtype : ℕ
  pub class : ℕ
  pub ttl : ℕ
  pub rdata : List ℕ

pub record IsAnswer (a : Answer) : Type 0 where
  pub labels : AreLabels a.labels
  pub name_end : IsEnd a.name_end
  pub rtype : a.rtype < 2 ^ 16
  pub class : a.class < 2 ^ 16
  pub ttl : a.ttl < 2 ^ 32
  pub rdlen : length a.rdata < 2 ^ 16

abbrev pub AreAnswers : List Answer → Type 0
AreAnswers [] = Unit
AreAnswers (a ∷ rest) = IsAnswer a × AreAnswers rest

abbrev pub field_bytes : Answer → List ℕ → List ℕ
field_bytes a rest =
    htons_bytes a.rtype
    ++ (htons_bytes a.class
        ++ (be32_bytes a.ttl ++ (htons_bytes (length a.rdata) ++ (a.rdata ++ rest))))

-- The records, with what follows them.
abbrev pub answer_bytes : List Answer → List ℕ → List ℕ
answer_bytes [] rest = rest
answer_bytes (a ∷ more) rest =
    name_bytes a.labels a.name_end ++ field_bytes a (answer_bytes more rest)

-- How many bytes the records take.
abbrev pub answers_size : List Answer → ℕ
answers_size [] = 0
answers_size (a ∷ more) =
    length (name_bytes a.labels a.name_end) + 10 + length a.rdata + answers_size more

-- One line for each address record of the Internet type, in order.
abbrev pub address_lines : List Answer → List Line
address_lines [] = []
address_lines (a ∷ more) =
    if a.rtype == dns_type_a && length a.rdata == 4
    then a_record a.rdata a.ttl a.class ∷ address_lines more
    else address_lines more

abbrev pub printing : List Line → Trace → Trace
printing [] t = t
printing (l ∷ ls) t = print l (printing ls t)
