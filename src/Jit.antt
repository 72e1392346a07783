-- ===== src/Jit.antt =====
-- Machine code that is emitted into a page and called: 07-JIT/main.c. A page holds bytes.
pub mod Processor
pub mod Laws
pub mod Tests
use swe_daily_challenge.Base.{
  ℕ, suc, ◌+◌, Bool, true, false, List, [], ◌∷◌, ◌&&◌, ◌==◌, if◌then◌else◌, set, drop, replicate,
}
use swe_daily_challenge.Jit.Processor.{Regs, at_call}

abbrev pub jit_size : ℕ
jit_size = 4096

-- The page and the variable `off`.
pub record Emitter : Type 0 where
  pub code : List ℕ
  pub off : ℕ

-- `code[off++] = byte`
unfoldable pub emit : ℕ → Emitter → Emitter
emit byte e = record e { code = set e.code e.off byte; off = suc e.off }

unfoldable pub emit_all : List ℕ → Emitter → Emitter
unfolding emit
emit_all [] e = e
emit_all (byte ∷ bytes) e = emit_all bytes (emit byte e)

-- mmap returns a page of zeros.
abbrev pub mapped : Emitter
mapped = record { code = replicate jit_size 0; off = 0 }

abbrev pub add_bytes : List ℕ
add_bytes = 0x89 ∷ 0xF8 ∷ 0x01 ∷ 0xF0 ∷ 0xC3 ∷ []

abbrev pub mul_bytes : List ℕ
mul_bytes = 0x89 ∷ 0xF8 ∷ 0x0F ∷ 0xAF ∷ 0xC6 ∷ 0xC3 ∷ []

-- The page with both functions.
unfoldable pub emitted : Emitter
unfolding emit_all
emitted = emit_all mul_bytes (emit_all add_bytes mapped)

abbrev pub add_off : ℕ
add_off = mapped.off

unfoldable pub mul_off : ℕ
unfolding emit_all
mul_off = (emit_all add_bytes mapped).off

unfoldable pub status : (r_add r_mul : ℕ) → ℕ
status r_add r_mul = elim (r_add == 7 && r_mul == 42) [ true ↦ 0 | false ↦ 1 ]

-- The function pointers `code + add_off` and `code + mul_off`, on a processor that runs the bytes
-- from an address on.
module _ (run : List ℕ → Regs → ℕ) (others : Regs) where
  unfoldable pub add : ℕ → ℕ → ℕ
  unfolding emitted
  add a b = run (drop add_off emitted.code) (at_call others a b)

  unfoldable pub mul : ℕ → ℕ → ℕ
  unfolding emitted mul_off
  mul a b = run (drop mul_off emitted.code) (at_call others a b)

  -- What main returns.
  unfoldable pub exit_code : ℕ
  unfolding add mul status
  exit_code = status (add 3 4) (mul 6 7)

  -- main: a failure of mmap or of mprotect ends the program with 1, before anything is called.
  unfoldable pub jit_main : (maps protects : Bool) → ℕ
  unfolding exit_code
  jit_main maps protects = if maps then (if protects then exit_code else 1) else 1
