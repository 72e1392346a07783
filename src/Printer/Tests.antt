-- ===== src/Printer/Tests.antt =====
-- The values of main, and the theorem on them.
use swe_daily_challenge.Base.{
  ℕ, ◌-◌, ◌≡◌, refl, Option, none, some, List, [], ◌∷◌, ◌++◌, get_elem?, replicate, arith, ltb,
  if◌then◌else◌, map,
}
use swe_daily_challenge.Lsm.Strings.{Str}
use swe_daily_challenge.Printer.{
  negsuc, Value, make_int, make_float, make_str, inspected, Shown, int_shown, float_shown,
  str_shown, shown_str, unknown, to_string,
}
use swe_daily_challenge.Printer.Laws.{HasString, int_value, to_string_lem}

abbrev hello : Str
hello = b'h' ∷ b'e' ∷ b'l' ∷ b'l' ∷ b'o' ∷ []

-- `hello` at the address 100.
abbrev memory : ℕ → Option ℕ
memory a = get_elem? (hello ++ (0 ∷ [])) (a - 100)

abbrev garbage : Value
garbage = record { kind = 7; members = replicate 16 0xAA }

-- A format that names its bits, and a decoding that takes ASCII only.
abbrev float_text : ℕ → Str
float_text d = d ∷ []

abbrev decode : List ℕ → Option Str
decode [] = some []
decode (c ∷ bytes) =
    let rest = decode bytes in
    if ltb c 128 then (elim rest [ none ↦ none | some text ↦ some (c ∷ text) ]) else none

hello-HasString : HasString memory 100 hello
unfolding HasString
hello-HasString = (
  omega arith,
  refl,
  (omega arith, refl, (omega arith, refl, (omega arith, refl, (omega arith, refl, refl)))),
)

shown_by_main :
    map
      (λ (v : Option Value). elim v as (λ _. Option Shown) [
        | none ↦ none
        | some w ↦ to_string float_text decode memory w
      ])
      (inspected 6 memory 100 (λ i. garbage))
    ≡ some (int_shown (b'4' ∷ b'2' ∷ []))
      ∷ some (float_shown (0x40091eb851eb851f ∷ []))
      ∷ some (str_shown hello)
      ∷ []
unfolding to_string inspected
shown_by_main = refl

shown_garbage : to_string float_text decode memory garbage ≡ some (unknown (b'7' ∷ []))
unfolding to_string
shown_garbage = refl

to_string_lem_example :
    (made : Value) × (shown : Str) × (make_str 6 memory 100 garbage ≡ some made)
    × (to_string float_text decode memory made ≡ shown_str (decode hello))
    × (to_string float_text decode memory (make_float 0x40091eb851eb851f garbage)
        ≡ some (float_shown (float_text 0x40091eb851eb851f)))
    × (to_string float_text decode memory (make_int (negsuc 0) garbage) ≡ some (int_shown shown))
    × (int_value shown ≡ negsuc 0)
to_string_lem_example =
    to_string_lem memory float_text decode (negsuc 0) 0x40091eb851eb851f hello 100 6 garbage
      (omega arith) (omega arith) hello-HasString (omega arith) (omega arith) (omega arith)
