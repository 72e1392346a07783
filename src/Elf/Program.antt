-- ===== src/Elf/Program.antt =====
-- main of 12-elf-inspector/main.c around the mapping: what it opens, and what it gives back.
use swe_daily_challenge.Base.{
  ℕ, ◌≡◌, sym, ap, Bool, true, false, Option, none, some, List, [], ◌∷◌, inl, inr, Option-cases,
}
use mathlib.Core.Option.{none-ne-some, some_inj}
use swe_daily_challenge.Elf.{Outcome, not_elf, not_64_bit, not_little_endian, lists, inspect}

-- What open, fstat and mmap return: the descriptor, `st_size` and the bytes of the pages; none is
-- their failure.
pub record Calls : Type 0 where
  pub fd : Option ℕ
  pub st_size : Option ℕ
  pub base : Option (List ℕ)

-- What main returns, what it printed of the file, and what it holds at the end.
pub record Ended : Type 0 where
  pub returned : ℕ
  pub printed : Option Outcome
  pub opened : Bool
  pub mapped : Bool

abbrev pub munmap : Ended → Ended
munmap e = record e { mapped = false }

abbrev pub close : Ended → Ended
close e = record e { opened = false }

abbrev pub returned_for : Outcome → ℕ
returned_for not_elf = 1
returned_for not_64_bit = 1
returned_for not_little_endian = 1
returned_for (lists sections programs tables) = 0

-- Each path behind the mapping ends with munmap and close. none is a read outside the mapping.
unfoldable pub on_mapping : Option Outcome → Option Ended
on_mapping none = none
on_mapping (some outcome) = some (
    close (
      munmap (record {
        returned = returned_for outcome;
        printed = some outcome;
        opened = true;
        mapped = true;
      })))

abbrev pub gives_up : (opened : Bool) → Ended
gives_up opened = record { returned = 1; printed = none; opened = opened; mapped = false }

unfoldable pub elf_main : (argv : List (List ℕ)) → Calls → Option Ended
unfolding on_mapping inspect
elf_main (program ∷ path ∷ []) calls = elim calls.fd [
  | none ↦ some (gives_up false)
  | some fd ↦ elim calls.st_size [
    | none ↦ some (gives_up true)
    | some size ↦ elim calls.base [
      | none ↦ some (close (gives_up true))
      | some base ↦ on_mapping (inspect base)
    ]
  ]
]
elf_main _ calls = some (gives_up false)

released :
    (o : Option Outcome) (e : Ended)
    → on_mapping o ≡ some e
    → (e.opened ≡ false) × (e.mapped ≡ false)
unfolding on_mapping
released none e h = absurd (none-ne-some e h)
released (some outcome) e h =
    (sym (ap (λ r. r.opened) (some_inj.0 h)), sym (ap (λ r. r.mapped) (some_inj.0 h)))

gave_up : (e : Ended) → some (gives_up false) ≡ some e → (e.opened ≡ false) × (e.mapped ≡ false)
gave_up e h = (sym (ap (λ r. r.opened) (some_inj.0 h)), sym (ap (λ r. r.mapped) (some_inj.0 h)))

-- What main has opened is closed again and what it has mapped unmapped on every path on which it
-- returns, the failure of fstat aside.
elf_main_releases :
    (argv : List (List ℕ)) (calls : Calls) (size : ℕ) (e : Ended)
    → calls.st_size ≡ some size
    → elf_main argv calls ≡ some e
    → (e.opened ≡ false) × (e.mapped ≡ false)
unfolding elf_main
elf_main_releases [] calls size e stats h = gave_up e h
elf_main_releases (program ∷ []) calls size e stats h = gave_up e h
elf_main_releases (program ∷ path ∷ third ∷ more) calls size e stats h = gave_up e h
elf_main_releases (program ∷ path ∷ []) calls size e stats h = elim (Option-cases calls.fd) [
  | inl n ↦ gave_up e (simp (elf_main, n) at h)
  | inr (fd, opens) ↦ elim (Option-cases calls.base) [
    | inl n ↦ gave_up e (simp (elf_main, opens, stats, n) at h)
    | inr (base, maps) ↦ released (inspect base) e (simp (elf_main, opens, stats, maps) at h)
  ]
]
