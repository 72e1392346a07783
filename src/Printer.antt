-- ===== src/Printer.antt =====
-- A tagged union and its debugger view: 05-gdb_python_pretty_printer/main.c and value_printer.py.
pub mod Laws
pub mod Tests
use swe_daily_challenge.Base.{
  ℕ, zero, suc, ◌+◌, ◌-◌, ◌*◌, ◌/◌, ◌%◌, ◌^◌, ◌<◌, Bool, Option, none, some, List, [], ◌∷◌, ◌++◌,
  ◌==◌, ltb, if◌then◌else◌, length, take, drop,
}
use swe_daily_challenge.Lsm.Strings.{Str, decimal}

-- `int64_t`, and `int` of Python.
pub data ℤ : Type 0 where
  pos negsuc : (n : ℕ) → ℤ

-- The two's complement of 64 bits, and back.
abbrev pub bits64 : ℤ → ℕ
bits64 (pos n) = n
bits64 (negsuc n) = 2 ^ 64 - 1 - n

unfoldable pub int64_of : ℕ → ℤ
int64_of b = if ltb b (2 ^ 63) then pos b else negsuc (2 ^ 64 - 1 - b)

-- A number as bytes, its low byte first.
unfoldable pub to_bytes : (width : ℕ) → ℕ → List ℕ
to_bytes zero n = []
to_bytes (suc width) n = (n % 256) ∷ to_bytes width (n / 256)

unfoldable pub from_bytes : (width : ℕ) → List ℕ → ℕ
from_bytes zero bytes = 0
from_bytes (suc width) [] = 0
from_bytes (suc width) (b ∷ bytes) = b + 256 * from_bytes width bytes

-- `kind` is an int in memory, `members` the bytes of the union.
pub record Value : Type 0 where
  pub kind : ℕ
  pub members : List ℕ

abbrev pub val_int : ℕ
val_int = 0

abbrev pub val_float : ℕ
val_float = 1

abbrev pub val_string : ℕ
val_string = 2

-- Assignments to the members; `as_float` gets the 64 bits of a double.
abbrev pub set_as_int : ℤ → List ℕ → List ℕ
set_as_int n members = to_bytes 8 (bits64 n) ++ drop 8 members

abbrev pub set_as_float : ℕ → List ℕ → List ℕ
set_as_float d members = to_bytes 8 d ++ drop 8 members

abbrev pub set_ptr : ℕ → List ℕ → List ℕ
set_ptr p members = to_bytes 8 p ++ drop 8 members

abbrev pub set_len : ℕ → List ℕ → List ℕ
set_len n members = take 8 members ++ (to_bytes 8 n ++ drop 16 members)

-- `v` is not initialised: its bytes are an argument.
unfoldable pub make_int : ℤ → (v : Value) → Value
unfolding to_bytes
make_int n v = record { kind = val_int; members = set_as_int n v.members }

unfoldable pub make_float : (d : ℕ) → (v : Value) → Value
unfolding to_bytes
make_float d v = record { kind = val_float; members = set_as_float d v.members }

-- `memory` is the byte at an address, or none where nothing is mapped. The pointer does not wrap.
unfoldable pub strlen : (fuel : ℕ) → (memory : ℕ → Option ℕ) → (s : ℕ) → Option ℕ
strlen zero memory s = none
strlen (suc fuel) memory s =
    let rest = strlen fuel memory (suc s) in
    elim (memory s) [
      | none ↦ none
      | some c ↦ if c == 0 then some 0 else elim rest [ none ↦ none | some n ↦ some (suc n) ]
    ]

-- none is a read outside the memory.
unfoldable pub make_str :
    (fuel : ℕ) → (memory : ℕ → Option ℕ) → (s : ℕ) → (v : Value) → Option Value
unfolding strlen to_bytes
make_str fuel memory s v = elim (strlen fuel memory s) [
  | none ↦ none
  | some len ↦ some (record { kind = val_string; members = set_len len (set_ptr s v.members) })
]

-- The values that main passes to inspect: 42, 3.14 and the string at `hello`. `v` is what the
-- uninitialised variables hold.
unfoldable pub inspected :
    (fuel : ℕ) → (memory : ℕ → Option ℕ) → (hello : ℕ) → (v : ℕ → Value) → List (Option Value)
unfolding make_int make_float make_str
inspected fuel memory hello v =
    some (make_int (pos 42) (v 0))
    ∷ some (make_float 0x40091eb851eb851f (v 1))
    ∷ make_str fuel memory hello (v 2)
    ∷ []

-- The bytes that gdb reads; none is an address where nothing is mapped.
unfoldable pub read_bytes : (length : ℕ) → (memory : ℕ → Option ℕ) → (ptr : ℕ) → Option (List ℕ)
read_bytes zero memory ptr = some []
read_bytes (suc length) memory ptr =
    let rest = read_bytes length memory (suc ptr) in
    elim (memory ptr) [
      | none ↦ none
      | some c ↦ elim rest [ none ↦ none | some bytes ↦ some (c ∷ bytes) ]
    ]

-- `ptr.string(length=length)`, where `decode` is gdb's decoding of bytes in the charset of the
-- target: none is the error that it raises on bytes that have no text.
unfoldable pub read_text :
    (decode : List ℕ → Option Str) → (length : ℕ) → (memory : ℕ → Option ℕ) → (ptr : ℕ) → Option Str
unfolding read_bytes
read_text decode length memory ptr = elim (read_bytes length memory ptr) [
  | none ↦ none
  | some bytes ↦ decode bytes
]

-- `{n}`
abbrev pub shown_int : ℤ → Str
shown_int (pos n) = decimal 20 n
shown_int (negsuc n) = b'-' ∷ decimal 20 (n + 1)

-- What to_string returns, with the text that it puts in.
pub data Shown : Type 0 where
  int_shown float_shown str_shown unknown : Str → Shown

abbrev pub shown_str : Option Str → Option Shown
shown_str none = none
shown_str (some text) = some (str_shown text)

-- `float_text` is the format `.5g` on the bits of a double; none is an error that gdb raises.
unfoldable pub to_string :
    (float_text : ℕ → Str)
    → (decode : List ℕ → Option Str) → (memory : ℕ → Option ℕ) → Value
    → Option Shown
unfolding from_bytes int64_of read_text decimal
to_string float_text decode memory val =
    let text =
      read_text decode (from_bytes 8 (drop 8 val.members)) memory (from_bytes 8 val.members) in
    if val.kind == 0
    then some (int_shown (shown_int (int64_of (from_bytes 8 val.members))))
    else if val.kind == 1
    then some (float_shown (float_text (from_bytes 8 val.members)))
    else if val.kind == 2
    then shown_str text
    else some (unknown (decimal 10 val.kind))
