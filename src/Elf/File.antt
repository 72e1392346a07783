-- ===== src/Elf/File.antt =====
-- A whole ELF file: what main lists of one whose headers and tables are all in place.
use swe_daily_challenge.Base.{
  ℕ, suc, ◌+◌, ◌*◌, ◌^◌, ◌<◌, ◌≡◌, refl, ap₂, Option, some, List, [], ◌∷◌, ◌++◌, ◌==◌, not, bit_and,
  length,
}
use swe_daily_challenge.Elf.{
  shdr, cons_line, section_line, section_lines, program_line, program_lines,
}
use swe_daily_challenge.Elf.Lines.{SectionLine, ProgramLine, sh_type_str, pt_type_str}
use swe_daily_challenge.Elf.Fields.{At, le, NoNul, field-le, string_at-At}
use swe_daily_challenge.Elf.Laws.{Table}

-- Elf64_Shdr with its name, and the symbol table of a section of type SHT_SYMTAB.
pub record Section : Type 0 where
  pub sh_name : ℕ
  pub sh_type : ℕ
  pub sh_flags : ℕ
  pub sh_offset : ℕ
  pub sh_size : ℕ
  pub name : List ℕ
  pub table : Option Table

-- The header of section `i`, and the bytes of its name.
unfoldable pub IsSection : List ℕ → (shstrtab_data shdrs i : ℕ) → Section → Type 0
unfolding At le NoNul
IsSection base shstrtab_data shdrs i s =
    At base (shdr shdrs i) (le 4 s.sh_name)
    × At base (shdr shdrs i + 4) (le 4 s.sh_type)
    × At base (shdr shdrs i + 8) (le 8 s.sh_flags)
    × At base (shdr shdrs i + 24) (le 8 s.sh_offset)
    × At base (shdr shdrs i + 32) (le 8 s.sh_size)
    × At base (shstrtab_data + s.sh_name) (s.name ++ (0 ∷ []))
    × (s.sh_name < 256 ^ 4)
    × (s.sh_type < 256 ^ 4)
    × (s.sh_flags < 256 ^ 8)
    × (s.sh_offset < 256 ^ 8)
    × (s.sh_size < 256 ^ 8)
    × NoNul s.name

abbrev pub shown_section : (i : ℕ) → Section → SectionLine
shown_section i s = record {
  index = i;
  name = s.name;
  sh_type = sh_type_str s.sh_type;
  sh_offset = s.sh_offset;
  sh_size = s.sh_size;
  sh_flags = s.sh_flags;
}

abbrev pub shown_sections : (i : ℕ) → List Section → List SectionLine
shown_sections i [] = []
shown_sections i (s ∷ more) = shown_section i s ∷ shown_sections (suc i) more

unfoldable pub AreSections : List ℕ → (shstrtab_data shdrs i : ℕ) → List Section → Type 0
unfolding IsSection
AreSections base shstrtab_data shdrs i [] = Unit
AreSections base shstrtab_data shdrs i (s ∷ more) =
    IsSection base shstrtab_data shdrs i s × AreSections base shstrtab_data shdrs (suc i) more

section_line_lem :
    (base : List ℕ) (shstrtab_data shdrs i : ℕ) (s : Section)
    → IsSection base shstrtab_data shdrs i s
    → section_line base shstrtab_data shdrs i ≡ some (shown_section i s)
unfolding section_line IsSection
section_line_lem base shstrtab_data shdrs i s h =
    simp
      (
        section_line,
        field-le 4 base (shdr shdrs i) s.sh_name h.6 h.0,
        string_at-At base (shstrtab_data + s.sh_name) s.name h.11 h.5,
        field-le 4 base (shdr shdrs i + 4) s.sh_type h.7 h.1,
        field-le 8 base (shdr shdrs i + 24) s.sh_offset h.9 h.3,
        field-le 8 base (shdr shdrs i + 32) s.sh_size h.10 h.4,
        field-le 8 base (shdr shdrs i + 8) s.sh_flags h.8 h.2,
      )
      refl

pub section_lines_lem :
    (base : List ℕ) (shstrtab_data shdrs i : ℕ) (ss : List Section)
    → AreSections base shstrtab_data shdrs i ss
    → section_lines base shstrtab_data shdrs (length ss) i ≡ some (shown_sections i ss)
unfolding section_lines AreSections
section_lines_lem base shstrtab_data shdrs i [] h = refl
section_lines_lem base shstrtab_data shdrs i (s ∷ more) (here, h) =
    ap₂ cons_line (section_line_lem base shstrtab_data shdrs i s here)
      (section_lines_lem base shstrtab_data shdrs (suc i) more h)

-- Elf64_Phdr.
pub record Segment : Type 0 where
  pub p_type : ℕ
  pub p_flags : ℕ
  pub p_offset : ℕ
  pub p_vaddr : ℕ
  pub p_filesz : ℕ
  pub p_memsz : ℕ

unfoldable pub IsSegment : List ℕ → (ph : ℕ) → Segment → Type 0
unfolding At le
IsSegment base ph p =
    At base ph (le 4 p.p_type)
    × At base (ph + 4) (le 4 p.p_flags)
    × At base (ph + 8) (le 8 p.p_offset)
    × At base (ph + 16) (le 8 p.p_vaddr)
    × At base (ph + 32) (le 8 p.p_filesz)
    × At base (ph + 40) (le 8 p.p_memsz)
    × (p.p_type < 256 ^ 4)
    × (p.p_flags < 256 ^ 4)
    × (p.p_offset < 256 ^ 8)
    × (p.p_vaddr < 256 ^ 8)
    × (p.p_filesz < 256 ^ 8)
    × (p.p_memsz < 256 ^ 8)

abbrev pub shown_segment : Segment → ProgramLine
shown_segment p = record {
  p_type = pt_type_str p.p_type;
  p_vaddr = p.p_vaddr;
  p_offset = p.p_offset;
  p_filesz = p.p_filesz;
  p_memsz = p.p_memsz;
  r = not (bit_and p.p_flags 4 == 0);
  w = not (bit_and p.p_flags 2 == 0);
  x = not (bit_and p.p_flags 1 == 0);
}

abbrev pub shown_segments : List Segment → List ProgramLine
shown_segments [] = []
shown_segments (p ∷ more) = shown_segment p ∷ shown_segments more

unfoldable pub AreSegments : List ℕ → (phdrs i : ℕ) → List Segment → Type 0
unfolding IsSegment
AreSegments base phdrs i [] = Unit
AreSegments base phdrs i (p ∷ more) =
    IsSegment base (phdrs + i * 56) p × AreSegments base phdrs (suc i) more

program_line_lem :
    (base : List ℕ) (ph : ℕ) (p : Segment)
    → IsSegment base ph p
    → program_line base ph ≡ some (shown_segment p)
unfolding program_line IsSegment
program_line_lem base ph p h =
    simp
      (
        program_line,
        field-le 4 base (ph + 4) p.p_flags h.7 h.1,
        field-le 4 base ph p.p_type h.6 h.0,
        field-le 8 base (ph + 16) p.p_vaddr h.9 h.3,
        field-le 8 base (ph + 8) p.p_offset h.8 h.2,
        field-le 8 base (ph + 32) p.p_filesz h.10 h.4,
        field-le 8 base (ph + 40) p.p_memsz h.11 h.5,
      )
      refl

pub program_lines_lem :
    (base : List ℕ) (phdrs i : ℕ) (ps : List Segment)
    → AreSegments base phdrs i ps
    → program_lines base phdrs (length ps) i ≡ some (shown_segments ps)
unfolding program_lines AreSegments
program_lines_lem base phdrs i [] h = refl
program_lines_lem base phdrs i (p ∷ more) (here, h) =
    ap₂ cons_line (program_line_lem base (phdrs + i * 56) p here)
      (program_lines_lem base phdrs (suc i) more h)
