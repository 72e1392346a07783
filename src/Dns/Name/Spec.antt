-- ===== src/Dns/Name/Spec.antt =====
-- The wire form of a name, by RFC 1035: each label behind its length, and a zero at the end.
use swe_daily_challenge.Base.{
  ℕ, ◌+◌, ◌≤◌, ◌≡◌, List, [], ◌∷◌, ◌++◌, if◌then◌else◌, length, length-append, drop, arith,
}
use swe_daily_challenge.Dns.Types.{max_label_segment}
use swe_daily_challenge.Dns.Name.{is_separator}

-- The labels of a domain, with `cur` the part of the first one that has been read.
unfoldable pub split_from : List ℕ → List ℕ → List (List ℕ)
unfolding is_separator
split_from cur [] = cur ∷ []
split_from cur (c ∷ cs) =
    if is_separator c then cur ∷ split_from [] cs else split_from (cur ++ c ∷ []) cs

abbrev pub split : List ℕ → List (List ℕ)
split = split_from []

abbrev pub wire_labels : List (List ℕ) → List ℕ
wire_labels [] = []
wire_labels (l ∷ ls) = length l ∷ (l ++ wire_labels ls)

abbrev pub wire : List (List ℕ) → List ℕ
wire ls = wire_labels ls ++ 0 ∷ []

-- No label is longer than 63 bytes.
abbrev pub AreShort : List (List ℕ) → Type 0
AreShort [] = Unit
AreShort (l ∷ ls) = (length l ≤ max_label_segment) × AreShort ls

-- `xs` written over the start of an array.
abbrev pub overwrite : List ℕ → List ℕ → List ℕ
overwrite xs buf = xs ++ drop (length xs) buf

-- The wire form is two bytes longer than the domain.
pub length-wire_labels :
    (cur cs : List ℕ) → length (wire_labels (split_from cur cs)) ≡ length cur + length cs + 1
unfolding split_from
length-wire_labels cur [] = omega (arith, length-append cur [])
length-wire_labels cur (c ∷ cs) = ground (
  arith,
  length-append cur (wire_labels (split_from [] cs)),
  length-append cur (c ∷ []),
  length-wire_labels [] cs,
  length-wire_labels (cur ++ c ∷ []) cs,
)

pub length-wire : (domain : List ℕ) → length (wire (split domain)) ≡ length domain + 2
length-wire domain =
    omega (arith, length-append (wire_labels (split domain)) (0 ∷ []), length-wire_labels [] domain)

-- The label being read is no longer than the label that it becomes.
pub AreShort-cur : (cur cs : List ℕ) → AreShort (split_from cur cs) → length cur ≤ max_label_segment
unfolding split_from
AreShort-cur cur [] h = h.0
AreShort-cur cur (c ∷ cs) h =
    ground (arith, AreShort-cur (cur ++ c ∷ []) cs, length-append cur (c ∷ []))
