-- ===== src/Bloom.antt =====
-- A Bloom filter: 11-bloom_filter/bloom.h.
pub mod Laws
pub mod Reference
pub mod Program
pub mod Tests
use Prim.Native.Nat.{bit_xor}
use swe_daily_challenge.Base.{
  ℕ, zero, suc, ◌+◌, ◌-◌, ◌*◌, ◌/◌, ◌%◌, ◌^◌, Bool, true, false, Option, none, some, List, [], ◌∷◌,
  ltb, if◌then◌else◌, get_elem?, set, replicate,
}

abbrev pub u64 : ℕ → ℕ
u64 n = n % 2 ^ 64

unfoldable pub fnv1a_from : (hash : ℕ) → List ℕ → ℕ
fnv1a_from hash [] = hash
fnv1a_from hash (c ∷ s) = fnv1a_from (u64 (bit_xor hash c * 1099511628211)) s

unfoldable pub fnv1a_64 : List ℕ → ℕ
unfolding fnv1a_from
fnv1a_64 s = fnv1a_from 14695981039346656037 s

unfoldable pub djb2_from : (hash : ℕ) → List ℕ → ℕ
djb2_from hash [] = hash
djb2_from hash (c ∷ s) = djb2_from (bit_xor (u64 (u64 (hash * 2 ^ 5) + hash)) c) s

unfoldable pub djb2_64 : List ℕ → ℕ
unfolding djb2_from
djb2_64 s = djb2_from 5381 s

-- `a ^= a >> 33; a *= factor; a ^= a >> 33;`
unfoldable pub finalize : (factor a : ℕ) → ℕ
finalize factor a = let b = u64 (bit_xor a (a / 2 ^ 33) * factor) in bit_xor b (b / 2 ^ 33)

-- The members of BloomFilter.
pub record BloomFilter : Type 0 where
  pub m : ℕ
  pub k : ℕ
  pub n_inserted : ℕ
  pub bits : List Bool

-- The constructor; `m` and `k` are what its floating-point formulas give.
unfoldable pub make : (m k : ℕ) → BloomFilter
make m k = record { m = m; k = if ltb k 1 then 1 else k; n_inserted = 0; bits = replicate m false }

unfoldable pub hash_i : (m : ℕ) → List ℕ → (i : ℕ) → ℕ
unfolding fnv1a_64 djb2_64 finalize
hash_i m key i =
    let a = finalize 0xff51afd7ed558ccd (fnv1a_64 key) in
    let b = finalize 0xc4ceb9fe1a85ec53 (djb2_64 key) in u64 (a + u64 (i * b)) % m

-- `for (i = 0; i < k_; i++) bits_[hash_i(key, i)] = true`, with `left` rounds to go.
unfoldable pub set_bits : (left i m : ℕ) → List ℕ → List Bool → List Bool
unfolding hash_i
set_bits zero i m key bits = bits
set_bits (suc left) i m key bits = set_bits left (suc i) m key (set bits (hash_i m key i) true)

unfoldable pub insert : List ℕ → BloomFilter → BloomFilter
unfolding set_bits
insert key f = record f { bits = set_bits f.k 0 f.m key f.bits; n_inserted = suc f.n_inserted }

-- A position outside `bits_` would be read past its end; it is taken for a bit that is not set.
unfoldable pub is_set : List Bool → ℕ → Bool
is_set bits g = elim (get_elem? bits g) [ some b ↦ b | none ↦ false ]

unfoldable pub all_set : (left i m : ℕ) → List ℕ → List Bool → Bool
unfolding hash_i is_set
all_set zero i m key bits = true
all_set (suc left) i m key bits =
    let rest = all_set left (suc i) m key bits in
    if is_set bits (hash_i m key i) then rest else false

unfoldable pub contains : List ℕ → BloomFilter → Bool
unfolding all_set
contains key f = all_set f.k 0 f.m key f.bits

abbrev pub insert_all : List (List ℕ) → BloomFilter → BloomFilter
insert_all [] f = f
insert_all (key ∷ keys) f = insert_all keys (insert key f)
