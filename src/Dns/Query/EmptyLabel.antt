-- ===== src/Dns/Query/EmptyLabel.antt =====
-- A name with an empty label, such as one with a trailing dot.
use mathlib.Core.List.{append_assoc}
use swe_daily_challenge.Base.{
  ℕ, ◌+◌, ◌-◌, ◌≤◌, ◌<◌, ◌≡◌, refl, ap, List, [], ◌∷◌, ◌++◌, length, length-append, drop, arith,
}
use swe_daily_challenge.Dns.Types.{ok, max_label_total}
use swe_daily_challenge.Dns.Name.Spec.{split, wire_labels, AreShort, overwrite, length-wire_labels}
use swe_daily_challenge.Dns.Skip.{skip_name}
use swe_daily_challenge.Dns.Skip.Laws.{AreLabels, root, name_bytes, skip_name_lem}
use swe_daily_challenge.Dns.Query.{header_bytes, build_query}
use swe_daily_challenge.Dns.Query.Laws.{query_bytes, length-header_bytes, build_query_lem}

wire_labels-append :
    (ls ms : List (List ℕ)) → wire_labels (ls ++ ms) ≡ wire_labels ls ++ wire_labels ms
wire_labels-append [] ms = refl
wire_labels-append (l ∷ ls) ms = rw (wire_labels-append ls ms) (simp append_assoc)

-- What follows the empty label in the packet.
abbrev after_empty : List (List ℕ) → List ℕ → List ℕ
after_empty ms rest = wire_labels ms ++ (0 ∷ 0 ∷ 1 ∷ 0 ∷ 1 ∷ rest)

packet_eq :
    (domain : List ℕ) (id : ℕ) (ls ms : List (List ℕ)) (rest : List ℕ)
    → split domain ≡ ls ++ [] ∷ ms
    → query_bytes domain id ++ rest ≡ header_bytes id ++ (name_bytes ls root ++ after_empty ms rest)
packet_eq domain id ls ms rest e = rw (e, wire_labels-append ls ([] ∷ ms)) (simp append_assoc)

-- `build_query` accepts a domain with an empty label behind the labels `ls`, and `skip_name` ends at
-- that label, before the end of the name that was written.
pub build_query_empty_label :
    (domain seg encoded buf : List ℕ) (id : ℕ) (ls ms : List (List ℕ))
    → length seg ≡ 63
    → length encoded ≡ 512
    → length buf ≡ 512
    → AreShort (split domain)
    → length domain + 2 ≤ max_label_total
    → split domain ≡ ls ++ [] ∷ ms
    → AreLabels ls
    → (len pos : ℕ) × (packet : List ℕ) × (build_query domain seg encoded buf id ≡ ok (len, packet))
      × (skip_name packet len 12 ≡ ok pos)
      × (pos < len - 4)
build_query_empty_label domain seg encoded buf id ls ms hs he hb short total e labels = (
  length domain + 18,
  12 + length (name_bytes ls root),
  overwrite (query_bytes domain id) buf,
  build_query_lem domain seg encoded buf id hs he hb short total,
  ground (
    arith,
    skip_name_lem (header_bytes id) ls root
        (after_empty ms (drop (length (query_bytes domain id)) buf)) (length domain + 18) labels tt
        (omega (arith, before_end, length-header_bytes id)),
    packet_eq domain id ls ms (drop (length (query_bytes domain id)) buf) e,
    length-header_bytes id,
  ),
  omega (arith, before_end),
)
  where
    before_end : 12 + length (name_bytes ls root) < length domain + 14
    before_end = omega (
      arith,
      length-wire_labels [] domain,
      ap (λ ks. length (wire_labels ks)) e,
      ap length (wire_labels-append ls ([] ∷ ms)),
      length-append (wire_labels ls) (wire_labels ([] ∷ ms)),
      length-append (wire_labels ls) (0 ∷ []),
    )
