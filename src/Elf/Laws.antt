-- ===== src/Elf/Laws.antt =====
-- The symbols that are listed.
use swe_daily_challenge.Base.{
  ℕ, suc, ◌+◌, ◌*◌, ◌/◌, ◌^◌, ◌<◌, ◌≡◌, refl, ap, ◌∙◌, Bool, true, false, some, List, [], ◌∷◌, ◌++◌,
  ◌==◌, if◌then◌else◌, bit_and, length, arith,
}
use swe_daily_challenge.Elf.{
  shdr, symbol_table, symbol_section, cons_line, symbol_line, global_line, symbol_lines,
}
use swe_daily_challenge.Elf.Lines.{SymbolLine, symbol_type}
use swe_daily_challenge.Elf.Bytes.{field}
use swe_daily_challenge.Elf.Fields.{At, le, NoNul, field-le, string_at-At}

-- Elf64_Sym, and the name that it refers to.
pub record Symbol : Type 0 where
  pub st_name : ℕ
  pub st_info : ℕ
  pub st_other : ℕ
  pub st_shndx : ℕ
  pub st_value : ℕ
  pub st_size : ℕ
  pub name : List ℕ

unfoldable pub Fits : Symbol → Type 0
Fits s =
    (s.st_name < 256 ^ 4)
    × (s.st_info < 256 ^ 1)
    × (s.st_value < 256 ^ 8)
    × (s.st_size < 256 ^ 8)
    × NoNul s.name

-- The 24 bytes of a symbol, and the bytes of its name in the string table.
unfoldable pub IsSymbol : List ℕ → (strtab offset : ℕ) → Symbol → Type 0
unfolding At Fits le NoNul
IsSymbol base strtab offset s =
    At base offset (le 4 s.st_name)
    × At base (offset + 4) (le 1 s.st_info)
    × At base (offset + 5) (le 1 s.st_other)
    × At base (offset + 6) (le 2 s.st_shndx)
    × At base (offset + 8) (le 8 s.st_value)
    × At base (offset + 16) (le 8 s.st_size)
    × At base (strtab + s.st_name) (s.name ++ (0 ∷ []))
    × Fits s

unfoldable pub AreSymbols : List ℕ → (strtab syms j : ℕ) → List Symbol → Type 0
unfolding IsSymbol
AreSymbols base strtab syms j [] = Unit
AreSymbols base strtab syms j (s ∷ table) =
    IsSymbol base strtab (syms + j * 24) s × AreSymbols base strtab syms (suc j) table

-- What is to be shown of a symbol: st_info is its binding times 16 and its type.
abbrev pub shown : Symbol → SymbolLine
shown s = record {
  sym_name = s.name;
  type_str = symbol_type (bit_and s.st_info 15);
  st_value = s.st_value;
  st_size = s.st_size;
}

abbrev pub globals : List Symbol → List SymbolLine
globals [] = []
globals (s ∷ table) = if s.st_info / 16 == 1 then shown s ∷ globals table else globals table

symbol_line_lem :
    (base : List ℕ) (strtab offset : ℕ) (s : Symbol)
    → IsSymbol base strtab offset s
    → symbol_line base strtab offset s.st_info ≡ some (shown s)
unfolding IsSymbol symbol_line Fits
symbol_line_lem base strtab offset s (name, info, other, shndx, value, size, str, fits) =
    simp
      (
        symbol_line,
        field-le 4 base offset s.st_name fits.0 name,
        string_at-At base (strtab + s.st_name) s.name fits.4 str,
        field-le 8 base (offset + 8) s.st_value fits.2 value,
        field-le 8 base (offset + 16) s.st_size fits.3 size,
      )
      refl

-- One round of the loop on a symbol.
global_line_lem :
    (base : List ℕ) (strtab offset : ℕ) (s : Symbol) (rest : List SymbolLine)
    → IsSymbol base strtab offset s
    → global_line base strtab offset (field 1 base (offset + 4)) (some rest)
      ≡ some (if s.st_info / 16 == 1 then shown s ∷ rest else rest)
unfolding IsSymbol Fits
global_line_lem base strtab offset s rest h =
    ap (λ o. global_line base strtab offset o (some rest))
      (field-le 1 base (offset + 4) s.st_info h.7.1 h.1)
    ∙ by_binding (s.st_info / 16 == 1)
  where
    by_binding :
        (b : Bool)
        → elim b [
          | true ↦ cons_line (symbol_line base strtab offset s.st_info) (some rest)
          | false ↦ some rest
        ]
          ≡ some (if b then shown s ∷ rest else rest)
    by_binding true = ap (λ o. cons_line o (some rest)) (symbol_line_lem base strtab offset s h)
    by_binding false = refl

-- The loop over the symbols.
symbol_lines-globals :
    (base : List ℕ) (strtab syms j : ℕ) (table : List Symbol)
    → AreSymbols base strtab syms j table
    → symbol_lines base strtab syms (length table) j ≡ some (globals table)
unfolding symbol_lines AreSymbols
symbol_lines-globals base strtab syms j [] h = refl
symbol_lines-globals base strtab syms j (s ∷ table) h =
    ap (global_line base strtab (syms + j * 24) (field 1 base (syms + j * 24 + 4)))
      (symbol_lines-globals base strtab syms (suc j) table h.1)
    ∙ global_line_lem base strtab (syms + j * 24) s (globals table) h.0

-- The header of a symbol table, the header of its string table, and its symbols.
pub record Table : Type 0 where
  pub sh_link : ℕ
  pub strtab : ℕ
  pub syms : ℕ
  pub symbols : List Symbol

unfoldable pub IsTable : List ℕ → (shdrs i : ℕ) → Table → Type 0
unfolding At le AreSymbols
IsTable base shdrs i t =
    At base (shdr shdrs i + 4) (le 4 2)
    × At base (shdr shdrs i + 56) (le 8 24)
    × At base (shdr shdrs i + 40) (le 4 t.sh_link)
    × At base (shdr shdrs t.sh_link + 24) (le 8 t.strtab)
    × At base (shdr shdrs i + 32) (le 8 (length t.symbols * 24))
    × At base (shdr shdrs i + 24) (le 8 t.syms)
    × (t.sh_link < 256 ^ 4)
    × (t.strtab < 256 ^ 8)
    × (length t.symbols * 24 < 256 ^ 8)
    × (t.syms < 256 ^ 8)
    × AreSymbols base t.strtab t.syms 0 t.symbols

symbol_table-globals :
    (base : List ℕ) (shdrs i : ℕ) (t : Table)
    → IsTable base shdrs i t
    → symbol_table base shdrs i 24 ≡ some (globals t.symbols)
unfolding IsTable symbol_table
symbol_table-globals base shdrs i t h =
    simp
      (
        symbol_table,
        field-le 4 base (shdr shdrs i + 40) t.sh_link h.6 h.2,
        field-le 8 base (shdr shdrs t.sh_link + 24) t.strtab h.7 h.3,
        field-le 8 base (shdr shdrs i + 32) (length t.symbols * 24) h.8 h.4,
        field-le 8 base (shdr shdrs i + 24) t.syms h.9 h.5,
      )
      (ap (λ n. symbol_lines base t.strtab t.syms n 0) {x = length t.symbols * 24 / 24}
          {y = length t.symbols} (omega arith)
        ∙ symbol_lines-globals base t.strtab t.syms 0 t.symbols h.10)

-- Where the mapped bytes hold the header of a symbol table, the header of its string table, and the
-- table, each symbol an Elf64_Sym whose name stands in the string table, the round of the loop for
-- this section adds exactly the global symbols, in order, with their names, types, values and
-- sizes, to what the other rounds list.
pub symbol_section-globals :
    (base : List ℕ) (shdrs i : ℕ) (t : Table) (found : Bool) (tables : List (List SymbolLine))
    → IsTable base shdrs i t
    → symbol_section base shdrs i (some (found, tables)) ≡ some (true, globals t.symbols ∷ tables)
unfolding symbol_section IsTable
symbol_section-globals base shdrs i t found tables h =
    simp
      (
        symbol_section,
        field-le 4 base (shdr shdrs i + 4) 2 (omega arith) h.0,
        field-le 8 base (shdr shdrs i + 56) 24 (omega arith) h.1,
        symbol_table-globals base shdrs i t h,
      )
      refl
