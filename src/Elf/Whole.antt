-- ===== src/Elf/Whole.antt =====
-- A whole ELF file through main.
use swe_daily_challenge.Base.{
  ℕ, suc, ◌+◌, ◌^◌, ◌<◌, ◌≡◌, ◌≢◌, refl, ap, ◌∙◌, true, false, Option, none, some, List, [], ◌∷◌,
  length, arith, ne→==,
}
use swe_daily_challenge.Elf.{
  shdr, SymbolTables, symbol_section, symbol_sections, lists, listing, inspect,
}
use swe_daily_challenge.Elf.Fields.{At, le, field-le}
use swe_daily_challenge.Elf.Laws.{Table, IsTable, globals, symbol_section-globals}
use swe_daily_challenge.Elf.Program.{on_mapping, elf_main}
use swe_daily_challenge.Elf.File.{
  Section, Segment, AreSections, AreSegments, IsSection, shown_sections, shown_segments,
  section_lines_lem, program_lines_lem,
}

-- A section has a table exactly where its type is SHT_SYMTAB.
unfoldable pub HasTable : List ℕ → (shdrs i : ℕ) → Section → Option Table → Type 0
unfolding IsTable
HasTable base shdrs i s none = s.sh_type ≢ 2
HasTable base shdrs i s (some t) = IsTable base shdrs i t

unfoldable pub HaveTables : List ℕ → (shdrs i : ℕ) → List Section → Type 0
unfolding HasTable
HaveTables base shdrs i [] = Unit
HaveTables base shdrs i (s ∷ more) =
    HasTable base shdrs i s s.table × HaveTables base shdrs (suc i) more

-- The tables that are listed, with the global symbols of each.
abbrev pub add_table : Option Table → SymbolTables → SymbolTables
add_table none tables = tables
add_table (some t) tables = (true, globals t.symbols ∷ tables.1)

abbrev pub shown_tables : List Section → SymbolTables
shown_tables [] = (false, [])
shown_tables (s ∷ more) = add_table s.table (shown_tables more)

other_section :
    (base : List ℕ) (shdrs i sh_type : ℕ) (rest : Option SymbolTables)
    → sh_type < 256 ^ 4
    → At base (shdr shdrs i + 4) (le 4 sh_type)
    → sh_type ≢ 2
    → symbol_section base shdrs i rest ≡ rest
unfolding symbol_section
other_section base shdrs i sh_type rest small at other =
    simp
      (symbol_section, field-le 4 base (shdr shdrs i + 4) sh_type small at, ne→== sh_type 2 other)
      refl

one_section :
    (base : List ℕ) (shstrtab_data shdrs i : ℕ) (s : Section) (table : Option Table)
    (tables : SymbolTables)
    → IsSection base shstrtab_data shdrs i s
    → HasTable base shdrs i s table
    → symbol_section base shdrs i (some tables) ≡ some (add_table table tables)
unfolding IsSection HasTable
one_section base shstrtab_data shdrs i s none tables h other =
    other_section base shdrs i s.sh_type (some tables) h.7 h.1 other
one_section base shstrtab_data shdrs i s (some t) (found, tables) h is =
    symbol_section-globals base shdrs i t found tables is

symbol_sections_lem :
    (base : List ℕ) (shstrtab_data shdrs i : ℕ) (ss : List Section)
    → AreSections base shstrtab_data shdrs i ss
    → HaveTables base shdrs i ss
    → symbol_sections base shdrs (length ss) i ≡ some (shown_tables ss)
unfolding symbol_sections AreSections HaveTables
symbol_sections_lem base shstrtab_data shdrs i [] h t = refl
symbol_sections_lem base shstrtab_data shdrs i (s ∷ more) (here, h) (table, t) =
    ap (symbol_section base shdrs i) (symbol_sections_lem base shstrtab_data shdrs (suc i) more h t)
    ∙ one_section base shstrtab_data shdrs i s s.table (shown_tables more) here table

-- Elf64_Ehdr, with the sections and segments of the file.
pub record ElfFile : Type 0 where
  pub e_phoff : ℕ
  pub e_shoff : ℕ
  pub e_shstrndx : ℕ
  pub shstrtab_data : ℕ
  pub sections : List Section
  pub segments : List Segment

-- The fields of the header that main reads, and what they refer to.
pub record IsElfFile (base : List ℕ) (f : ElfFile) : Type 0 where
  pub magic : At base 0 (le 4 0x464c457f)
  pub class : At base 4 (le 1 2)
  pub encoding : At base 5 (le 1 1)
  pub at_phoff : At base 32 (le 8 f.e_phoff)
  pub at_shoff : At base 40 (le 8 f.e_shoff)
  pub at_phnum : At base 56 (le 2 (length f.segments))
  pub at_shnum : At base 60 (le 2 (length f.sections))
  pub at_shstrndx : At base 62 (le 2 f.e_shstrndx)
  pub at_shstrtab : At base (shdr f.e_shoff f.e_shstrndx + 24) (le 8 f.shstrtab_data)
  pub phoff_fits : f.e_phoff < 256 ^ 8
  pub shoff_fits : f.e_shoff < 256 ^ 8
  pub phnum_fits : length f.segments < 256 ^ 2
  pub shnum_fits : length f.sections < 256 ^ 2
  pub shstrndx_fits : f.e_shstrndx < 256 ^ 2
  pub shstrtab_fits : f.shstrtab_data < 256 ^ 8
  pub are_sections : AreSections base f.shstrtab_data f.e_shoff 0 f.sections
  pub have_tables : HaveTables base f.e_shoff 0 f.sections
  pub are_segments : AreSegments base f.e_phoff 0 f.segments

listing_lem :
    (base : List ℕ) (f : ElfFile)
    → IsElfFile base f
    → listing base
      ≡ some (
          lists (shown_sections 0 f.sections) (shown_segments f.segments) (shown_tables f.sections))
unfolding listing
listing_lem base f h =
    simp
      (
        listing,
        field-le 8 base 40 f.e_shoff h.shoff_fits h.at_shoff,
        field-le 8 base 32 f.e_phoff h.phoff_fits h.at_phoff,
        field-le 2 base 62 f.e_shstrndx h.shstrndx_fits h.at_shstrndx,
        field-le 2 base 60 (length f.sections) h.shnum_fits h.at_shnum,
        field-le 2 base 56 (length f.segments) h.phnum_fits h.at_phnum,
        field-le 8 base (shdr f.e_shoff f.e_shstrndx + 24) f.shstrtab_data h.shstrtab_fits
            h.at_shstrtab,
        section_lines_lem base f.shstrtab_data f.e_shoff 0 f.sections h.are_sections,
        program_lines_lem base f.e_phoff 0 f.segments h.are_segments,
        symbol_sections_lem base f.shstrtab_data f.e_shoff 0 f.sections h.are_sections
            h.have_tables,
      )
      refl

-- Of a file whose header, section headers with their names, program headers and symbol tables stand
-- where the fields say, main lists every section, every segment, and of each symbol table exactly
-- the global symbols, in order and with the values of the file.
pub inspect_lem :
    (base : List ℕ) (f : ElfFile)
    → IsElfFile base f
    → inspect base
      ≡ some (
          lists (shown_sections 0 f.sections) (shown_segments f.segments) (shown_tables f.sections))
unfolding inspect
inspect_lem base f h =
    simp
      (
        inspect,
        field-le 4 base 0 0x464c457f (omega arith) h.magic,
        field-le 1 base 4 2 (omega arith) h.class,
        field-le 1 base 5 1 (omega arith) h.encoding,
      )
      (listing_lem base f h)

-- The same through main: where the file can be opened, measured and mapped, main lists all that and
-- returns 0, with the file unmapped and closed.
pub elf_main_lem :
    (program path base : List ℕ) (fd size : ℕ) (f : ElfFile)
    → IsElfFile base f
    → elf_main
        (program ∷ path ∷ [])
        (record { fd = some fd; st_size = some size; base = some base })
      ≡ some (record {
        returned = 0;
        printed = some (
            lists
              (shown_sections 0 f.sections)
              (shown_segments f.segments)
              (shown_tables f.sections));
        opened = false;
        mapped = false;
      })
unfolding elf_main on_mapping
elf_main_lem program path base fd size f h = ap on_mapping (inspect_lem base f h)
