-- ===== src/Elf.antt =====
-- The ELF inspector: 12-elf-inspector/main.c.
pub mod Bytes
pub mod Lines
pub mod Fields
pub mod Laws
pub mod File
pub mod Whole
pub mod Program
pub mod Tests
use swe_daily_challenge.Base.{
  ℕ, zero, suc, ◌+◌, ◌*◌, ◌/◌, ◌%◌, Bool, true, false, Option, none, some, List, [], ◌∷◌, ◌==◌,
  ◌&&◌, not, if◌then◌else◌, bit_and,
}
use swe_daily_challenge.Elf.Bytes.{◌>>=◌, field, string_at}
use swe_daily_challenge.Elf.Lines.{
  sh_type_str, pt_type_str, symbol_type, SectionLine, ProgramLine, SymbolLine,
}

abbrev pub cons_line {ℓ} : {A : Type ℓ} → Option A → Option (List A) → Option (List A)
cons_line none rest = none
cons_line (some line) none = none
cons_line (some line) (some rest) = some (line ∷ rest)

-- Elf64_Shdr has 64 bytes, Elf64_Phdr 56 and Elf64_Sym 24.
abbrev pub shdr : (shdrs i : ℕ) → ℕ
shdr shdrs i = shdrs + i * 64

unfoldable pub section_line : List ℕ → (shstrtab_data shdrs i : ℕ) → Option SectionLine
section_line base shstrtab_data shdrs i = do
  sh_name ← field 4 base (shdr shdrs i)
  name ← string_at base (shstrtab_data + sh_name)
  sh_type ← field 4 base (shdr shdrs i + 4)
  offset ← field 8 base (shdr shdrs i + 24)
  size ← field 8 base (shdr shdrs i + 32)
  flags ← field 8 base (shdr shdrs i + 8)
  some (record {
    index = i;
    name = name;
    sh_type = sh_type_str sh_type;
    sh_offset = offset;
    sh_size = size;
    sh_flags = flags;
  })

-- `left` rounds to go from `i` on, in this loop and in the next ones.
unfoldable pub section_lines : List ℕ → (shstrtab_data shdrs left i : ℕ) → Option (List SectionLine)
section_lines base shstrtab_data shdrs zero i = some []
section_lines base shstrtab_data shdrs (suc left) i =
    cons_line (section_line base shstrtab_data shdrs i)
      (section_lines base shstrtab_data shdrs left (suc i))

unfoldable pub program_line : List ℕ → (ph : ℕ) → Option ProgramLine
program_line base ph = do
  flags ← field 4 base (ph + 4)
  type ← field 4 base ph
  vaddr ← field 8 base (ph + 16)
  offset ← field 8 base (ph + 8)
  filesz ← field 8 base (ph + 32)
  memsz ← field 8 base (ph + 40)
  some (record {
    p_type = pt_type_str type;
    p_vaddr = vaddr;
    p_offset = offset;
    p_filesz = filesz;
    p_memsz = memsz;
    r = not (bit_and flags 4 == 0);
    w = not (bit_and flags 2 == 0);
    x = not (bit_and flags 1 == 0);
  })

unfoldable pub program_lines : List ℕ → (phdrs left i : ℕ) → Option (List ProgramLine)
program_lines base phdrs zero i = some []
program_lines base phdrs (suc left) i =
    cons_line (program_line base (phdrs + i * 56)) (program_lines base phdrs left (suc i))

-- The line of a symbol whose `st_info` is known.
unfoldable pub symbol_line : List ℕ → (strtab sym st_info : ℕ) → Option SymbolLine
symbol_line base strtab sym st_info = do
  st_name ← field 4 base sym
  name ← string_at base (strtab + st_name)
  value ← field 8 base (sym + 8)
  size ← field 8 base (sym + 16)
  some (record {
    sym_name = name;
    type_str = symbol_type (bit_and st_info 15);
    st_value = value;
    st_size = size;
  })

-- `continue` unless the binding is STB_GLOBAL.
abbrev pub global_line :
    List ℕ → (strtab sym : ℕ) → Option ℕ → Option (List SymbolLine) → Option (List SymbolLine)
global_line base strtab sym none rest = none
global_line base strtab sym (some st_info) rest = elim (st_info / 16 == 1) [
  | true ↦ cons_line (symbol_line base strtab sym st_info) rest
  | false ↦ rest
]

unfoldable pub symbol_lines : List ℕ → (strtab syms left j : ℕ) → Option (List SymbolLine)
symbol_lines base strtab syms zero j = some []
symbol_lines base strtab syms (suc left) j =
    let rest = symbol_lines base strtab syms left (suc j) in
    global_line base strtab (syms + j * 24) (field 1 base (syms + j * 24 + 4)) rest

-- Whether a symbol table was found, and the symbols of each one that is listed.
abbrev pub SymbolTables : Type 0
SymbolTables = Bool × List (List SymbolLine)

unfoldable pub symbol_table : List ℕ → (shdrs i entsize : ℕ) → Option (List SymbolLine)
symbol_table base shdrs i entsize = do
  sh_link ← field 4 base (shdr shdrs i + 40)
  strtab ← field 8 base (shdr shdrs sh_link + 24)
  size ← field 8 base (shdr shdrs i + 32)
  syms ← field 8 base (shdr shdrs i + 24)
  symbol_lines base strtab syms (size / entsize) 0

-- One round: `continue` for another type of section, and for an entry size of zero.
unfoldable pub symbol_section : List ℕ → (shdrs i : ℕ) → Option SymbolTables → Option SymbolTables
symbol_section base shdrs i rest = do
  sh_type ← field 4 base (shdr shdrs i + 4)
  if not (sh_type == 2) then rest else do
    entsize ← field 8 base (shdr shdrs i + 56)
    (_, tables) ← rest
    if entsize == 0
        then some (true, tables)
        else do table ← symbol_table base shdrs i entsize; some (true, table ∷ tables)

unfoldable pub symbol_sections : List ℕ → (shdrs left i : ℕ) → Option SymbolTables
symbol_sections base shdrs zero i = some (false, [])
symbol_sections base shdrs (suc left) i =
    symbol_section base shdrs i (symbol_sections base shdrs left (suc i))

-- What main returns behind the mapping of the file, with what it prints.
pub data Outcome : Type 0 where
  not_elf not_64_bit not_little_endian : Outcome
  lists : List SectionLine → List ProgramLine → SymbolTables → Outcome

unfoldable pub listing : List ℕ → Option Outcome
listing base = do
  e_shoff ← field 8 base 40
  e_phoff ← field 8 base 32
  e_shstrndx ← field 2 base 62
  e_shnum ← field 2 base 60
  e_phnum ← field 2 base 56
  shstrtab_data ← field 8 base (shdr e_shoff e_shstrndx + 24)
  sections ← section_lines base shstrtab_data e_shoff e_shnum 0
  programs ← program_lines base e_phoff e_phnum 0
  tables ← symbol_sections base e_shoff e_shnum 0
  some (lists sections programs tables)

-- The checks of `e_ident`. `base` holds the bytes of the mapped pages, and none is a read outside.
unfoldable pub inspect : List ℕ → Option Outcome
inspect base = do
  magic ← field 4 base 0
  if not (magic == 0x464c457f) then some not_elf else do
    class ← field 1 base 4
    if not (class == 2) then some not_64_bit else do
      encoding ← field 1 base 5
      if not (encoding == 1) then some not_little_endian else listing base
