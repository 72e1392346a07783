-- ===== src/Elf/Tests.antt =====
-- A small file with a segment and a symbol table of two symbols, one of them global.
use swe_daily_challenge.Base.{
  ℕ, suc, ◌≡◌, refl, ap, Bool, true, false, Option, none, some, List, [], ◌∷◌, ◌++◌, replicate,
  arith, ◌==◌, get_elem?, if◌then◌else◌, ==→eq, Bool-cases, inl, inr,
}
use mathlib.Core.Bool.{false≢true}
use swe_daily_challenge.Elf.{inspect, not_elf, not_64_bit, lists}
use swe_daily_challenge.Elf.Bytes.{field}
use swe_daily_challenge.Elf.Fields.{At, le, NoNul}
use swe_daily_challenge.Elf.Laws.{Symbol, Table, IsTable, IsSymbol, AreSymbols, Fits}
use swe_daily_challenge.Elf.File.{
  Section, Segment, IsSection, AreSections, IsSegment, AreSegments, shown_sections, shown_segments,
}
use swe_daily_challenge.Elf.Whole.{
  HasTable, HaveTables, shown_tables, ElfFile, IsElfFile, elf_main_lem,
}
use swe_daily_challenge.Elf.Program.{elf_main}

-- To see that bytes stand at an offset.
abbrev stands : Option ℕ → ℕ → Bool
stands none b = false
stands (some x) b = x == b

stand : List ℕ → (offset : ℕ) → List ℕ → Bool
stand base offset [] = true
stand base offset (b ∷ bytes) =
    let rest = stand base (suc offset) bytes in
    if stands (get_elem? base offset) b then rest else false

stands-some : (o : Option ℕ) (b : ℕ) → stands o b ≡ true → o ≡ some b
stands-some none b h = absurd (false≢true h)
stands-some (some x) b h = ap some (==→eq x b h)

stand-At :
    (base : List ℕ) (offset : ℕ) (bytes : List ℕ)
    → stand base offset bytes ≡ true
    → At base offset bytes
unfolding stand At
stand-At base offset [] h = tt
stand-At base offset (b ∷ bytes) h = elim (Bool-cases (stands (get_elem? base offset) b)) [
  | inl here ↦ (
    stands-some (get_elem? base offset) b here,
    stand-At base (suc offset) bytes (simp (stand, here) at h),
  )
  | inr f ↦ absurd (false≢true (simp (stand, f) at h))
]

-- A field of eight bytes with a small value, one of four, and one of two.
abbrev wide : ℕ → List ℕ
wide n = n ∷ replicate 7 0

abbrev word : ℕ → List ℕ
word n = n ∷ replicate 3 0

abbrev half : ℕ → List ℕ
half n = n ∷ 0 ∷ []

-- The ELF header, the program header, the headers of the symbol table and of the string table, the
-- symbols, the strings.
abbrev image : List ℕ
image =
    (0x7f ∷ b'E' ∷ b'L' ∷ b'F' ∷ 2 ∷ 1 ∷ 1 ∷ 0 ∷ [])
    ++ wide 0
    ++ (half 2 ++ half 62 ++ word 1)
    ++ wide 0
    ++ wide 64
    ++ wide 120
    ++ (word 0 ++ half 64 ++ half 56 ++ half 1 ++ half 64 ++ half 2 ++ half 1)
    ++ (word 1 ++ word 5 ++ wide 0 ++ wide 32 ++ wide 32 ++ wide 99 ++ wide 99 ++ wide 16)
    ++ (word 1
        ++ word 2
        ++ wide 0
        ++ wide 0
        ++ wide 248
        ++ wide 48
        ++ word 1
        ++ word 0
        ++ wide 8
        ++ wide 24)
    ++ (word 0
        ++ word 3
        ++ wide 0
        ++ wide 0
        ++ (40 ∷ 1 ∷ replicate 6 0)
        ++ wide 3
        ++ word 0
        ++ word 0
        ++ wide 1
        ++ wide 0)
    ++ (word 1 ++ (0x12 ∷ 0 ∷ 1 ∷ 0 ∷ []) ++ wide 64 ++ wide 7)
    ++ (word 1 ++ (0x02 ∷ 0 ∷ 1 ∷ 0 ∷ []) ++ wide 80 ++ wide 9)
    ++ (0 ∷ b'f' ∷ 0 ∷ [])

abbrev global_f : Symbol
global_f = record {
  st_name = 1;
  st_info = 0x12;
  st_other = 0;
  st_shndx = 1;
  st_value = 64;
  st_size = 7;
  name = b'f' ∷ [];
}

abbrev local_f : Symbol
local_f = record {
  st_name = 1;
  st_info = 0x02;
  st_other = 0;
  st_shndx = 1;
  st_value = 80;
  st_size = 9;
  name = b'f' ∷ [];
}

abbrev table : Table
table = record { sh_link = 1; strtab = 296; syms = 248; symbols = global_f ∷ local_f ∷ [] }

abbrev symtab : Section
symtab = record {
  sh_name = 1;
  sh_type = 2;
  sh_flags = 0;
  sh_offset = 248;
  sh_size = 48;
  name = b'f' ∷ [];
  table = some table;
}

abbrev strings : Section
strings = record {
  sh_name = 0;
  sh_type = 3;
  sh_flags = 0;
  sh_offset = 296;
  sh_size = 3;
  name = [];
  table = none;
}

abbrev text : Segment
text = record { p_type = 1; p_flags = 5; p_offset = 0; p_vaddr = 32; p_filesz = 99; p_memsz = 99 }

abbrev file : ElfFile
file = record {
  e_phoff = 64;
  e_shoff = 120;
  e_shstrndx = 1;
  shstrtab_data = 296;
  sections = symtab ∷ strings ∷ [];
  segments = text ∷ [];
}

table-IsTable : IsTable image 120 0 table
unfolding IsTable AreSymbols IsSymbol At le Fits NoNul stand
table-IsTable = (
  stand-At image 124 (le 4 2) refl,
  stand-At image 176 (le 8 24) refl,
  stand-At image 160 (le 4 1) refl,
  stand-At image 208 (le 8 296) refl,
  stand-At image 152 (le 8 48) refl,
  stand-At image 144 (le 8 248) refl,
  omega arith,
  omega arith,
  omega arith,
  omega arith,
  (
    (
      stand-At image 248 (le 4 1) refl,
      stand-At image 252 (le 1 18) refl,
      stand-At image 253 (le 1 0) refl,
      stand-At image 254 (le 2 1) refl,
      stand-At image 256 (le 8 64) refl,
      stand-At image 264 (le 8 7) refl,
      stand-At image 297 (b'f' ∷ 0 ∷ []) refl,
      (omega arith, omega arith, omega arith, omega arith, (omega arith, tt)),
    ),
    (
      (
        stand-At image 272 (le 4 1) refl,
        stand-At image 276 (le 1 2) refl,
        stand-At image 277 (le 1 0) refl,
        stand-At image 278 (le 2 1) refl,
        stand-At image 280 (le 8 80) refl,
        stand-At image 288 (le 8 9) refl,
        stand-At image 297 (b'f' ∷ 0 ∷ []) refl,
        (omega arith, omega arith, omega arith, omega arith, (omega arith, tt)),
      ),
      tt,
    ),
  ),
)

file-AreSections : AreSections image 296 120 0 (symtab ∷ strings ∷ [])
unfolding AreSections IsSection At le NoNul stand
file-AreSections = (
  (
    stand-At image 120 (le 4 1) refl,
    stand-At image 124 (le 4 2) refl,
    stand-At image 128 (le 8 0) refl,
    stand-At image 144 (le 8 248) refl,
    stand-At image 152 (le 8 48) refl,
    stand-At image 297 (b'f' ∷ 0 ∷ []) refl,
    omega arith,
    omega arith,
    omega arith,
    omega arith,
    omega arith,
    (omega arith, tt),
  ),
  (
    (
      stand-At image 184 (le 4 0) refl,
      stand-At image 188 (le 4 3) refl,
      stand-At image 192 (le 8 0) refl,
      stand-At image 208 (le 8 296) refl,
      stand-At image 216 (le 8 3) refl,
      stand-At image 296 (0 ∷ []) refl,
      omega arith,
      omega arith,
      omega arith,
      omega arith,
      omega arith,
      tt,
    ),
    tt,
  ),
)

file-AreSegments : AreSegments image 64 0 (text ∷ [])
unfolding AreSegments IsSegment At le stand
file-AreSegments = (
  (
    stand-At image 64 (le 4 1) refl,
    stand-At image 68 (le 4 5) refl,
    stand-At image 72 (le 8 0) refl,
    stand-At image 80 (le 8 32) refl,
    stand-At image 96 (le 8 99) refl,
    stand-At image 104 (le 8 99) refl,
    omega arith,
    omega arith,
    omega arith,
    omega arith,
    omega arith,
    omega arith,
  ),
  tt,
)

file-HaveTables : HaveTables image 120 0 (symtab ∷ strings ∷ [])
unfolding HaveTables HasTable
file-HaveTables = (table-IsTable, (omega arith, tt))

image-IsElfFile : IsElfFile image file
unfolding At le stand
image-IsElfFile = record {
  magic = stand-At image 0 (le 4 0x464c457f) refl;
  class = stand-At image 4 (le 1 2) refl;
  encoding = stand-At image 5 (le 1 1) refl;
  at_phoff = stand-At image 32 (le 8 64) refl;
  at_shoff = stand-At image 40 (le 8 120) refl;
  at_phnum = stand-At image 56 (le 2 1) refl;
  at_shnum = stand-At image 60 (le 2 2) refl;
  at_shstrndx = stand-At image 62 (le 2 1) refl;
  at_shstrtab = stand-At image 208 (le 8 296) refl;
  phoff_fits = omega arith;
  shoff_fits = omega arith;
  phnum_fits = omega arith;
  shnum_fits = omega arith;
  shstrndx_fits = omega arith;
  shstrtab_fits = omega arith;
  are_sections = file-AreSections;
  have_tables = file-HaveTables;
  are_segments = file-AreSegments;
}

text_file : inspect (b'#' ∷ b'!' ∷ b'/' ∷ b'b' ∷ b'i' ∷ b'n' ∷ []) ≡ some not_elf
unfolding inspect field
text_file = refl

class_32 : inspect (0x7f ∷ b'E' ∷ b'L' ∷ b'F' ∷ 1 ∷ 1 ∷ []) ≡ some not_64_bit
unfolding inspect field
class_32 = refl

elf_main_lem_example :
    elf_main ([] ∷ (b'x' ∷ []) ∷ []) (record { fd = some 3; st_size = some 299; base = some image })
    ≡ some (record {
      returned = 0;
      printed = some (
          lists
            (shown_sections 0 (symtab ∷ strings ∷ []))
            (shown_segments (text ∷ []))
            (shown_tables (symtab ∷ strings ∷ [])));
      opened = false;
      mapped = false;
    })
elf_main_lem_example = elf_main_lem [] (b'x' ∷ []) image 3 299 file image-IsElfFile
