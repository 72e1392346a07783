-- ===== src/Elf/Lines.antt =====
-- The lines that 12-elf-inspector/main.c prints.
use swe_daily_challenge.Base.{ℕ, Bool, List, ◌==◌, if◌then◌else◌}

pub data ShType : Type 0 where
  sht_null sht_progbits sht_symtab sht_strtab sht_rela sht_hash : ShType
  sht_dynamic sht_note sht_nobits sht_rel sht_dynsym sht_other : ShType

unfoldable pub sh_type_str : ℕ → ShType
sh_type_str type =
    if type == 0
    then sht_null
    else (if type == 1
        then sht_progbits
        else (if type == 2
            then sht_symtab
            else (if type == 3
                then sht_strtab
                else (if type == 4
                    then sht_rela
                    else (if type == 5
                        then sht_hash
                        else (if type == 6
                            then sht_dynamic
                            else (if type == 7
                                then sht_note
                                else (if type == 8
                                    then sht_nobits
                                    else (if type == 9
                                        then sht_rel
                                        else (if type == 11
                                            then sht_dynsym
                                            else (sht_other)))))))))))

pub data PtType : Type 0 where
  pt_null pt_load pt_dynamic pt_interp pt_note pt_phdr pt_tls pt_other : PtType

unfoldable pub pt_type_str : ℕ → PtType
pt_type_str type =
    if type == 0
    then pt_null
    else (if type == 1
        then pt_load
        else (if type == 2
            then pt_dynamic
            else (if type == 3
                then pt_interp
                else (if type == 4
                    then pt_note
                    else (if type == 6
                        then pt_phdr
                        else (if type == 7 then pt_tls else (pt_other)))))))

pub data SymbolType : Type 0 where
  stt_func stt_object stt_notype stt_other : SymbolType

abbrev pub symbol_type : (stype : ℕ) → SymbolType
symbol_type stype =
    if stype == 2
    then stt_func
    else (if stype == 1 then stt_object else (if stype == 0 then stt_notype else stt_other))

-- The lines that are printed.
pub record SectionLine : Type 0 where
  pub index : ℕ
  pub name : List ℕ
  pub sh_type : ShType
  pub sh_offset : ℕ
  pub sh_size : ℕ
  pub sh_flags : ℕ

pub record ProgramLine : Type 0 where
  pub p_type : PtType
  pub p_vaddr : ℕ
  pub p_offset : ℕ
  pub p_filesz : ℕ
  pub p_memsz : ℕ
  pub r : Bool
  pub w : Bool
  pub x : Bool

pub record SymbolLine : Type 0 where
  pub sym_name : List ℕ
  pub type_str : SymbolType
  pub st_value : ℕ
  pub st_size : ℕ
