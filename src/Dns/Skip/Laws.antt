-- ===== src/Dns/Skip/Laws.antt =====
-- `skip_name` on any bytes, and on a well-formed name.
use mathlib.Core.List.{append_assoc}
use native.Mathlib.Decide.{dec_lt, ℕ_discrete}
use swe_daily_challenge.Base.{
  ℕ, zero, suc, ◌+◌, ◌-◌, ◌≤◌, ◌<◌, ◌≡◌, ◌≢◌, refl, ◌∙◌, some, bit_and, Bool, true, ◌&&◌, List, [],
  ◌∷◌, ◌++◌, leb, if◌then◌else◌, ◌==◌, ==→eq, get_elem?, get_elem?-append_here, get_elem?_of_lt,
  length, length-append, arith,
}
use swe_daily_challenge.Dns.Types.{Outcome, ok, refused, fault, hang, max_label_segment}
use swe_daily_challenge.Dns.Name.Spec.{wire_labels}
use swe_daily_challenge.Dns.Skip.{skip_from, skip_name}

-- The call returns: with -1, or with a position further on, at most one byte behind the packet.
abbrev pub Advances : ℕ → ℕ → Outcome ℕ → Type 0
Advances len pos (ok p) = (pos < p) × (p ≤ len + 1)
Advances len pos refused = Unit
Advances len pos fault = ⊥
Advances len pos hang = ⊥

Advances-further :
    (len pos pos' : ℕ) (r : Outcome ℕ) → pos ≤ pos' → Advances len pos' r → Advances len pos r
Advances-further len pos pos' (ok p) h a = (omega arith, a.1)
Advances-further len pos pos' refused h a = tt
Advances-further len pos pos' fault h a = a
Advances-further len pos pos' hang h a = a

skip_from_ran_off :
    (fuel : ℕ) (buf : List ℕ) (len pos : ℕ)
    → ¬ (pos < len)
    → skip_from (suc fuel) buf len pos ≡ refused
unfolding skip_from
skip_from_ran_off fuel buf len pos h = ground arith

-- One round at the byte `l`.
module _ (fuel : ℕ) (buf : List ℕ) (len pos l : ℕ) (below : pos < len)
    (here : get_elem? buf pos ≡ some l) where
  skip_from_root : l ≡ 0 → skip_from (suc fuel) buf len pos ≡ ok (pos + 1)
  unfolding skip_from
  skip_from_root e = ground arith

  skip_from_pointer :
      l ≢ 0 → bit_and l 0xC0 ≡ 0xC0 → skip_from (suc fuel) buf len pos ≡ ok (pos + 2)
  unfolding skip_from
  skip_from_pointer ne e = ground arith

  skip_from_label :
      l ≢ 0
      → bit_and l 0xC0 ≢ 0xC0
      → skip_from (suc fuel) buf len pos ≡ skip_from fuel buf len (pos + (1 + l))
  unfolding skip_from
  skip_from_label ne ne' = ground arith

skip_from-Advances :
    (fuel : ℕ) (buf : List ℕ) (len pos : ℕ)
    → len ≤ length buf
    → len - pos < fuel
    → Advances len pos (skip_from fuel buf len pos)
skip_from-Advances zero buf len pos h f = absurd (omega arith)
skip_from-Advances (suc fuel) buf len pos h f = elim (dec_lt pos len) [
  | no e ↦ rw (skip_from_ran_off fuel buf len pos e) tt
  | yes below ↦
      let (l, here) = get_elem?_of_lt buf pos (omega arith) in
      elim (ℕ_discrete l 0) [
        | yes root ↦ rw (skip_from_root fuel buf len pos l below here root) (omega arith)
        | no ne ↦ elim (ℕ_discrete (bit_and l 0xC0) 0xC0) [
          | yes bits ↦ rw (skip_from_pointer fuel buf len pos l below here ne bits) (omega arith)
          | no ne' ↦ rw (skip_from_label fuel buf len pos l below here ne ne') (
              Advances-further len pos (pos + (1 + l)) (skip_from fuel buf len (pos + (1 + l)))
                (omega arith) (skip_from-Advances fuel buf len (pos + (1 + l)) h (omega arith)))
        ]
      ]
]

-- On any packet inside its buffer the loop ends and reads nothing outside: the call returns -1, or
-- moves forward, at most one byte past the end of the packet.
pub skip_name-Advances :
    (buf : List ℕ) (len pos : ℕ) → len ≤ length buf → Advances len pos (skip_name buf len pos)
unfolding skip_name
skip_name-Advances buf len pos h = skip_from-Advances (suc (len - pos)) buf len pos h (omega arith)

-- How a name ends: with the root label, or with a pointer to the rest of it.
pub data NameEnd : Type 0 where
  root : NameEnd
  pointer : (hi lo : ℕ) → NameEnd

abbrev pub end_bytes : NameEnd → List ℕ
end_bytes root = 0 ∷ []
end_bytes (pointer hi lo) = hi ∷ lo ∷ []

-- The two high bits of a pointer are set.
abbrev pub IsEnd : NameEnd → Type 0
IsEnd root = Unit
IsEnd (pointer hi lo) = (192 ≤ hi) × (hi < 256)

-- Labels of 1 to 63 bytes.
abbrev pub AreLabels : List (List ℕ) → Type 0
AreLabels [] = Unit
AreLabels (l ∷ ls) = (0 < length l) × (length l ≤ max_label_segment) × AreLabels ls

abbrev pub name_bytes : List (List ℕ) → NameEnd → List ℕ
name_bytes ls e = wire_labels ls ++ end_bytes e

passes : (ℕ → Bool) → ℕ → Bool
passes test zero = true
passes test (suc bound) = passes test bound && test bound

passes_at : (test : ℕ → Bool) (bound l : ℕ) → l < bound → passes test bound ≡ true → test l ≡ true
unfolding passes
passes_at test zero l below table = absurd (omega arith)
passes_at test (suc bound) l below table = ground (arith, passes_at test bound l)

label_table : passes (λ l. bit_and l 0xC0 == 0) 64 ≡ true
unfolding passes
label_table = refl

label_bits : (l : ℕ) → l ≤ 63 → bit_and l 0xC0 ≡ 0
label_bits l h =
    ==→eq (bit_and l 0xC0) 0 (passes_at (λ k. bit_and k 0xC0 == 0) 64 l (omega arith) label_table)

pointer_table : passes (λ h. if leb 192 h then bit_and h 0xC0 == 0xC0 else true) 256 ≡ true
unfolding passes
pointer_table = refl

pointer_bits : (h : ℕ) → 192 ≤ h → h < 256 → bit_and h 0xC0 ≡ 0xC0
pointer_bits h lo hi = ground (
  arith,
  passes_at (λ k. if leb 192 k then bit_and k 0xC0 == 0xC0 else true) 256 h hi pointer_table,
)

skip_from_end :
    (fuel : ℕ) (pre post : List ℕ) (e : NameEnd) (len : ℕ)
    → IsEnd e
    → length pre + length (end_bytes e) ≤ len
    → skip_from (suc fuel) (pre ++ (end_bytes e ++ post)) len (length pre)
      ≡ ok (length pre + length (end_bytes e))
skip_from_end fuel pre post root len w h =
    skip_from_root fuel _ len (length pre) 0 (omega arith) (get_elem?-append_here pre post 0) refl
skip_from_end fuel pre post (pointer hi lo) len w h =
    skip_from_pointer fuel _ len (length pre) hi (omega arith)
      (get_elem?-append_here pre (lo ∷ post) hi) (omega arith) (pointer_bits hi w.0 w.1)

-- The bytes behind one label.
regroup :
    (pre l : List ℕ) (ls : List (List ℕ)) (e : NameEnd) (post : List ℕ)
    → pre ++ (name_bytes (l ∷ ls) e ++ post) ≡ (pre ++ length l ∷ l) ++ (name_bytes ls e ++ post)
regroup pre l ls e post = simp append_assoc

length-name_bytes :
    (l : List ℕ) (ls : List (List ℕ)) (e : NameEnd)
    → length (name_bytes (l ∷ ls) e) ≡ 1 + length l + length (name_bytes ls e)
length-name_bytes l ls e = rw append_assoc (omega (arith, length-append l (name_bytes ls e)))

skip_from_lem :
    (fuel : ℕ) (pre : List ℕ) (ls : List (List ℕ)) (e : NameEnd) (post : List ℕ) (len : ℕ)
    → AreLabels ls
    → IsEnd e
    → length pre + length (name_bytes ls e) ≤ len
    → len - length pre < fuel
    → skip_from fuel (pre ++ (name_bytes ls e ++ post)) len (length pre)
      ≡ ok (length pre + length (name_bytes ls e))
skip_from_lem zero pre ls e post len a w h f = absurd (omega arith)
skip_from_lem (suc fuel) pre [] e post len a w h f = skip_from_end fuel pre post e len w h
skip_from_lem (suc fuel) pre (l ∷ ls) e post len a w h f =
    let pre' : List ℕ = pre ++ length l ∷ l in
    let size = length-name_bytes l ls e in
    let step = length-append pre (length l ∷ l) in
    let rest =
      skip_from_lem fuel pre' ls e post len a.2 w (omega (arith, size, step))
        (omega (arith, size, step)) in
    skip_from_label fuel _ len (length pre) (length l) (omega (arith, size))
      (get_elem?-append_here pre _ (length l)) (omega arith)
      (omega (arith, label_bits (length l) a.1))
    ∙ ground (arith, regroup pre l ls e post, rest, size, step)

-- From the start of a well-formed name inside the packet the call lands right behind it.
pub skip_name_lem :
    (pre : List ℕ) (ls : List (List ℕ)) (e : NameEnd) (post : List ℕ) (len : ℕ)
    → AreLabels ls
    → IsEnd e
    → length pre + length (name_bytes ls e) ≤ len
    → skip_name (pre ++ (name_bytes ls e ++ post)) len (length pre)
      ≡ ok (length pre + length (name_bytes ls e))
unfolding skip_name
skip_name_lem pre ls e post len a w h =
    skip_from_lem (suc (len - length pre)) pre ls e post len a w h (omega arith)
