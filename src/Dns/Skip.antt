-- ===== src/Dns/Skip.antt =====
-- `skip_name`: past a name in a packet, which ends in a root label or in a pointer.
pub mod Laws
use swe_daily_challenge.Base.{
  ℕ, zero, suc, ◌+◌, ◌-◌, bit_and, true, false, List, ltb, ◌==◌, get_elem?,
}
use swe_daily_challenge.Dns.Types.{Outcome, ok, refused, hang, ◌>>=◌, access}

-- The loop `while (*pos < len)`, with fuel. The result is the new `*pos`.
unfoldable pub skip_from : ℕ → List ℕ → (len pos : ℕ) → Outcome ℕ
skip_from zero buf len pos = hang
skip_from (suc fuel) buf len pos = elim (ltb pos len) [
  | true ↦ access (get_elem? buf pos) >>= λ label_len. elim (label_len == 0) [
    | true ↦ ok (pos + 1)
    | false ↦ elim (bit_and label_len 0xC0 == 0xC0) [
      | true ↦ ok (pos + 2)
      | false ↦ skip_from fuel buf len (pos + (1 + label_len))
    ]
  ]
  | false ↦ refused
]

-- Fuel: a round for each byte that is left, and one more.
unfoldable pub skip_name : List ℕ → (len pos : ℕ) → Outcome ℕ
unfolding skip_from
skip_name buf len pos = skip_from (suc (len - pos)) buf len pos
