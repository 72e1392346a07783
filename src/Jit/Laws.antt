-- ===== src/Jit/Laws.antt =====
-- The emitted functions on a processor.
use swe_daily_challenge.Base.{
  ℕ, ◌+◌, ◌*◌, ◌%◌, ◌^◌, ◌≡◌, refl, ap, ap₂, ◌∙◌, Bool, true, false, ◌&&◌, if◌then◌else◌, List,
  ◌++◌, replicate, drop, arith,
}
use swe_daily_challenge.Jit.{
  emitted, mul_off, add_off, add_bytes, mul_bytes, add, mul, status, exit_code, jit_main,
}
use swe_daily_challenge.Jit.Processor.{Regs, IsX86, at_call}

code_at_add : drop add_off emitted.code ≡ add_bytes ++ mul_bytes ++ replicate 4085 0
unfolding emitted
code_at_add = refl

code_at_mul : drop mul_off emitted.code ≡ mul_bytes ++ replicate 4085 0
unfolding emitted mul_off
code_at_mul = refl

module _ (run : List ℕ → Regs → ℕ) (x86 : IsX86 run) (others : Regs) where
  -- On a processor that runs the four instructions as documented, the code at `add_off` returns the
  -- sum of its arguments and the code at `mul_off` their product, both modulo 2 ^ 32.
  pub add-mul :
      (a b : ℕ) → (add run others a b ≡ (a + b) % 2 ^ 32) × (mul run others a b ≡ (a * b) % 2 ^ 32)
  unfolding add mul
  add-mul a b = (
    ap (λ (bytes : List ℕ). run bytes (at_call others a b)) code_at_add
        ∙ x86.mov 7 0 _ (at_call others a b) (omega arith) (omega arith)
        ∙ x86.add 6 0 _ _ (omega arith) (omega arith)
        ∙ x86.ret _ _,
    ap (λ (bytes : List ℕ). run bytes (at_call others a b)) code_at_mul
        ∙ x86.mov 7 0 _ (at_call others a b) (omega arith) (omega arith)
        ∙ x86.imul 0 6 _ _ (omega arith) (omega arith)
        ∙ x86.ret _ _,
  )

  -- There the program returns 0.
  exit_code_lem : exit_code run others ≡ 0
  unfolding exit_code status
  exit_code_lem = ap₂ status (add-mul 3 4).0 (add-mul 6 7).1

  -- main returns 0 exactly where mmap and mprotect succeed.
  jit_main_lem :
      (maps protects : Bool)
      → jit_main run others maps protects ≡ (if maps && protects then 0 else 1)
  unfolding jit_main
  jit_main_lem true true = exit_code_lem
  jit_main_lem true false = refl
  jit_main_lem false protects = refl
