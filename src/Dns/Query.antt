-- ===== src/Dns/Query.antt =====
-- `build_query`: the header, the encoded name, and the type and class of the question.
pub mod Laws
pub mod EmptyLabel
use swe_daily_challenge.Base.{ℕ, ◌+◌, List, [], ◌∷◌, ◌++◌, leb, if◌then◌else◌, length, take, drop}
use swe_daily_challenge.Dns.Types.{
  Outcome, ok, fault, ◌>>=◌, DnsHeader, htons_bytes, dns_header_flags, dns_type_a, dns_class_in,
}
use swe_daily_challenge.Dns.Name.{encode_name}

-- `memcpy(&xs[i], ys, ...)`
unfoldable pub write_at : List ℕ → ℕ → List ℕ → Outcome (List ℕ)
write_at xs i ys =
    if leb (i + length ys) (length xs)
    then ok (take i xs ++ (ys ++ drop (i + length ys) xs))
    else fault

-- The header in memory; the counts of 0 are stored without `htons`, which makes no difference.
unfoldable pub header_bytes : ℕ → List ℕ
header_bytes id =
    htons_bytes id
    ++ (htons_bytes dns_header_flags ++ (htons_bytes 1 ++ (0 ∷ 0 ∷ 0 ∷ 0 ∷ 0 ∷ 0 ∷ [])))

-- From the copying of QNAME on; `n` is `domain_len`.
unfoldable pub append_question : ℕ → List ℕ → List ℕ → Outcome (ℕ × List ℕ)
unfolding write_at
append_question n encoded_domain buf = write_at buf 12 (take n encoded_domain) >>= λ buf₂.
    write_at buf₂ (12 + n) (htons_bytes dns_type_a) >>= λ buf₃.
    write_at buf₃ (12 + n + 2) (htons_bytes dns_class_in) >>= λ buf₄. ok (12 + n + 2 + 2, buf₄)

-- `seg` and `encoded_domain` are uninitialised arrays. The result is the length of the packet and
-- the buffer.
unfoldable pub build_query : List ℕ → (seg encoded_domain buf : List ℕ) → ℕ → Outcome (ℕ × List ℕ)
unfolding header_bytes encode_name append_question
build_query domain seg encoded_domain buf id = write_at buf 0 (header_bytes id) >>= λ buf₁.
    encode_name domain seg encoded_domain >>= λ encoded. append_question encoded.0 encoded.1 buf₁
