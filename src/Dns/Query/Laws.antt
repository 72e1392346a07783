-- ===== src/Dns/Query/Laws.antt =====
-- The packet of `build_query`, byte for byte, and its reading by `skip_name`.
use mathlib.Core.List.{append_assoc}
use swe_daily_challenge.Base.{
  ℕ, ◌+◌, ◌-◌, ◌≤◌, ◌<◌, ◌≡◌, refl, sym, ap, ap₂, List, [], ◌∷◌, ◌++◌, length, le→ltb, lt→ltb,
  length-append, length-drop, drop, drop-drop, drop-append, take-append, arith,
}
use swe_daily_challenge.Dns.Types.{ok, refused, fault, max_label_total}
use swe_daily_challenge.Dns.Name.Spec.{split, wire, AreShort, overwrite, length-wire}
use swe_daily_challenge.Dns.Name.Laws.{encode_name_room}
use swe_daily_challenge.Dns.Name.Overrun.{encode_name-fault}
use swe_daily_challenge.Dns.Skip.{skip_name}
use swe_daily_challenge.Dns.Skip.Laws.{AreLabels, root, skip_name_lem}
use swe_daily_challenge.Dns.Query.{write_at, header_bytes, append_question, build_query}

length-overwrite :
    (out buf : List ℕ) → length out ≤ length buf → length (overwrite out buf) ≡ length buf
length-overwrite out buf h =
    omega (arith, length-append out (drop (length out) buf), length-drop (length out) buf)

-- Writing behind what has been written.
write_at_lem :
    (out ys buf : List ℕ) (i : ℕ)
    → i ≡ length out
    → length out + length ys ≤ length buf
    → write_at (overwrite out buf) i ys ≡ ok (overwrite (out ++ ys) buf)
unfolding write_at
write_at_lem out ys buf i e h = ground (
  arith,
  length-overwrite out buf,
  take-append out (drop (length out) buf),
  drop-append out (drop (length out) buf) (length ys),
  drop-drop (length out) (length ys) buf,
  length-append out ys,
  append_assoc out ys (drop (length out + length ys) buf),
)

-- The whole packet.
abbrev pub query_bytes : List ℕ → ℕ → List ℕ
query_bytes domain id = header_bytes id ++ (wire (split domain) ++ (0 ∷ 1 ∷ 0 ∷ 1 ∷ []))

pub length-header_bytes : (id : ℕ) → length (header_bytes id) ≡ 12
unfolding header_bytes
length-header_bytes id = refl

pub length-query_bytes :
    (domain : List ℕ) (id : ℕ) → length (query_bytes domain id) ≡ length domain + 18
length-query_bytes domain id = omega (
  arith,
  length-header_bytes id,
  length-append (header_bytes id) (wire (split domain) ++ (0 ∷ 1 ∷ 0 ∷ 1 ∷ [])),
  length-append (wire (split domain)) (0 ∷ 1 ∷ 0 ∷ 1 ∷ []),
  length-wire domain,
)

-- The writes behind the header, for any header and name.
append_question_lem :
    (h w encoded buf : List ℕ) (n : ℕ)
    → length h ≡ 12
    → n ≡ length w
    → 12 + length w + 4 ≤ length buf
    → append_question n (overwrite w encoded) (overwrite h buf)
      ≡ ok (length w + 16, overwrite (h ++ (w ++ (0 ∷ 1 ∷ 0 ∷ 1 ∷ []))) buf)
unfolding append_question
append_question_lem h w encoded buf n hh e fits =
    rw
      (
        e,
        take-append w (drop (length w) encoded),
        write_at_lem h w buf 12 (omega arith) (omega arith),
        write_at_lem (h ++ w) (0 ∷ 1 ∷ []) buf (12 + length w) (omega (arith, hw))
            (omega (arith, hw)),
        write_at_lem ((h ++ w) ++ 0 ∷ 1 ∷ []) (0 ∷ 1 ∷ []) buf (12 + length w + 2)
            (omega (arith, hwt)) (omega (arith, hwt)),
      )
      (ap₂ (λ k out. ok (k, overwrite out buf)) (omega arith) (simp append_assoc))
  where
    hw : length (h ++ w) ≡ 12 + length w
    hw = omega (arith, length-append h w)

    hwt : length ((h ++ w) ++ 0 ∷ 1 ∷ []) ≡ 14 + length w
    hwt = omega (arith, length-append h w, length-append (h ++ w) (0 ∷ 1 ∷ []))

-- For a domain with labels of at most 63 bytes whose wire form fits in 255, the first `strlen + 18`
-- bytes of the buffer become the header, the name, and the type and class of the question.
pub build_query_lem :
    (domain seg encoded buf : List ℕ) (id : ℕ)
    → length seg ≡ 63
    → length encoded ≡ 512
    → length buf ≡ 512
    → AreShort (split domain)
    → length domain + 2 ≤ max_label_total
    → build_query domain seg encoded buf id
      ≡ ok (length domain + 18, overwrite (query_bytes domain id) buf)
unfolding build_query
build_query_lem domain seg encoded buf id hs he hb short total =
    rw
      (
        write_at_lem [] (header_bytes id) buf 0 refl (omega (arith, length-header_bytes id)),
        encode_name_room domain seg encoded hs (omega arith) short (omega arith),
        le→ltb max_label_total (length domain + 2) total,
        append_question_lem (header_bytes id) (wire (split domain)) encoded buf (length domain + 2)
            (length-header_bytes id) (sym (length-wire domain)) (omega (arith, length-wire domain)),
      )
      (ap (λ n. ok (n, overwrite (query_bytes domain id) buf)) (omega (arith, length-wire domain)))

-- A domain whose wire form needs more than 255 bytes (but fits in the 512 of the local array) is
-- refused; one with a label of more than 63 bytes makes the call write outside an array.
pub build_query_errors :
    (domain seg encoded buf : List ℕ) (id : ℕ)
    → length seg ≡ 63
    → length encoded ≡ 512
    → length buf ≡ 512
    → (AreShort (split domain)
        → max_label_total < length domain + 2
        → length domain + 2 ≤ 512
        → build_query domain seg encoded buf id ≡ refused)
      × (¬ AreShort (split domain) → build_query domain seg encoded buf id ≡ fault)
unfolding build_query
build_query_errors domain seg encoded buf id hs he hb = (
  λ short total fits.
      rw
        (
          start,
          encode_name_room domain seg encoded hs (omega arith) short (omega arith),
          lt→ltb max_label_total (length domain + 2) total,
        )
        refl,
  λ long. rw (start, encode_name-fault domain seg encoded hs long) refl,
)
  where
    start : write_at buf 0 (header_bytes id) ≡ ok (overwrite (header_bytes id) buf)
    start = write_at_lem [] (header_bytes id) buf 0 refl (omega (arith, length-header_bytes id))

AreLabels-AreShort : (ls : List (List ℕ)) → AreLabels ls → AreShort ls
AreLabels-AreShort [] h = tt
AreLabels-AreShort (l ∷ ls) h = (h.1, AreLabels-AreShort ls h.2)

-- Where no label is empty, the packet is read back as it was meant: from behind the header
-- `skip_name` lands on the type and class of the question, four bytes before the end.
pub build_query-skip_name :
    (domain seg encoded buf : List ℕ) (id : ℕ)
    → length seg ≡ 63
    → length encoded ≡ 512
    → length buf ≡ 512
    → AreLabels (split domain)
    → length domain + 2 ≤ max_label_total
    → (len : ℕ) × (packet : List ℕ) × (build_query domain seg encoded buf id ≡ ok (len, packet))
      × (skip_name packet len 12 ≡ ok (len - 4))
build_query-skip_name domain seg encoded buf id hs he hb labels total = (
  length domain + 18,
  overwrite (query_bytes domain id) buf,
  build_query_lem domain seg encoded buf id hs he hb (AreLabels-AreShort (split domain) labels)
      total,
  ground (
    arith,
    skip_name_lem (header_bytes id) (split domain) root
        ((0 ∷ 1 ∷ 0 ∷ 1 ∷ []) ++ drop (length (query_bytes domain id)) buf) (length domain + 18)
        labels tt (omega (arith, length-wire domain, length-header_bytes id)),
    packet_eq domain id (drop (length (query_bytes domain id)) buf),
    length-wire domain,
    length-header_bytes id,
  ),
)
  where
    packet_eq :
        (domain : List ℕ) (id : ℕ) (rest : List ℕ)
        → query_bytes domain id ++ rest
          ≡ header_bytes id ++ (wire (split domain) ++ ((0 ∷ 1 ∷ 0 ∷ 1 ∷ []) ++ rest))
    packet_eq domain id rest = simp append_assoc
