-- ===== src/Jit/Tests.antt =====
-- A processor that has the four instructions, and the theorems on it.
use swe_daily_challenge.Base.{
  ℕ, ◌+◌, ◌*◌, ◌/◌, ◌%◌, ◌^◌, ◌<◌, ◌≡◌, refl, ap₂, true, false, List, [], ◌∷◌, ◌==◌, arith,
}
use swe_daily_challenge.Jit.{add, mul}
use swe_daily_challenge.Jit.Processor.{Regs, write_reg, mod_rm, IsX86}
use swe_daily_challenge.Jit.Laws.{add-mul}

-- What the next byte is: an opcode, the byte behind one, or the second byte of imul.
data Mode : Type 0 where
  opcode mov_operands add_operands imul_opcode imul_operands : Mode

unfoldable run_from : List ℕ → Mode → Regs → ℕ
run_from [] mode r = 0
run_from (x ∷ xs) opcode r = elim (x == 0x89) [
  | true ↦ run_from xs mov_operands r
  | false ↦ elim (x == 0x01) [
    | true ↦ run_from xs add_operands r
    | false ↦ elim (x == 0x0F) [ true ↦ run_from xs imul_opcode r | false ↦ r 0 ]
  ]
]
run_from (m ∷ xs) mov_operands r = run_from xs opcode (write_reg (m % 8) (r (m / 8 % 8)) r)
run_from (m ∷ xs) add_operands r =
    run_from xs opcode (write_reg (m % 8) ((r (m % 8) + r (m / 8 % 8)) % 2 ^ 32) r)
run_from (x ∷ xs) imul_opcode r = run_from xs imul_operands r
run_from (m ∷ xs) imul_operands r =
    run_from xs opcode (write_reg (m / 8 % 8) ((r (m / 8 % 8) * r (m % 8)) % 2 ^ 32) r)

unfoldable toy : List ℕ → Regs → ℕ
unfolding run_from
toy bytes r = run_from bytes opcode r

reg_of : (reg rm : ℕ) → reg < 8 → rm < 8 → mod_rm reg rm / 8 % 8 ≡ reg
reg_of reg rm h h' = omega arith

rm_of : (reg rm : ℕ) → reg < 8 → rm < 8 → mod_rm reg rm % 8 ≡ rm
rm_of reg rm h h' = omega arith

toy-IsX86 : IsX86 toy
unfolding toy
toy-IsX86 = record {
  mov = λ reg rm rest r h h'.
      ap₂ (λ (d s : ℕ). run_from rest opcode (write_reg d (r s) r)) (rm_of reg rm h h')
        (reg_of reg rm h h');
  add = λ reg rm rest r h h'.
      ap₂ (λ (d s : ℕ). run_from rest opcode (write_reg d ((r d + r s) % 2 ^ 32) r))
        (rm_of reg rm h h') (reg_of reg rm h h');
  imul = λ reg rm rest r h h'.
      ap₂ (λ (d s : ℕ). run_from rest opcode (write_reg d ((r d * r s) % 2 ^ 32) r))
        (reg_of reg rm h h') (rm_of reg rm h h');
  ret = λ rest r. refl;
}

abbrev junk : Regs
junk = λ k. 99

add-mul_example : (add toy junk 3 4 ≡ (3 + 4) % 2 ^ 32) × (mul toy junk 3 4 ≡ (3 * 4) % 2 ^ 32)
add-mul_example = add-mul toy toy-IsX86 junk 3 4
