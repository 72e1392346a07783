-- ===== src/Jit/Processor.antt =====
-- What the emitted code relies on: four instructions of x86-64 and the calling convention, as their
-- manuals describe them.
use swe_daily_challenge.Base.{ℕ, ◌+◌, ◌*◌, ◌%◌, ◌^◌, ◌<◌, ◌≡◌, List, ◌∷◌, ◌==◌, if◌then◌else◌}

-- The low halves of the registers by their number: eax is 0, esi 6, edi 7.
abbrev pub Regs : Type 0
Regs = ℕ → ℕ

abbrev pub write_reg : ℕ → ℕ → Regs → Regs
write_reg r v regs = λ k. if k == r then v else regs k

-- The byte behind an opcode, where both operands are registers.
abbrev pub mod_rm : (reg rm : ℕ) → ℕ
mod_rm reg rm = 192 + reg * 8 + rm

-- `run bytes regs` is eax at the return from the code that starts with `bytes`.
pub record IsX86 (run : List ℕ → Regs → ℕ) : Type 0 where
  pub mov :
      (reg rm : ℕ) (rest : List ℕ) (regs : Regs)
      → reg < 8
      → rm < 8
      → run (0x89 ∷ mod_rm reg rm ∷ rest) regs ≡ run rest (write_reg rm (regs reg) regs)
  pub add :
      (reg rm : ℕ) (rest : List ℕ) (regs : Regs)
      → reg < 8
      → rm < 8
      → run (0x01 ∷ mod_rm reg rm ∷ rest) regs
        ≡ run rest (write_reg rm ((regs rm + regs reg) % 2 ^ 32) regs)
  pub imul :
      (reg rm : ℕ) (rest : List ℕ) (regs : Regs)
      → reg < 8
      → rm < 8
      → run (0x0F ∷ 0xAF ∷ mod_rm reg rm ∷ rest) regs
        ≡ run rest (write_reg reg ((regs reg * regs rm) % 2 ^ 32) regs)
  pub ret : (rest : List ℕ) (regs : Regs) → run (0xC3 ∷ rest) regs ≡ regs 0

-- The registers at a call with two arguments of type int: the others hold anything.
abbrev pub at_call : (others : Regs) → ℕ → ℕ → Regs
at_call others a b = λ k. if k == 7 then a else (if k == 6 then b else others k)
