-- ===== src/Bloom/Laws.antt =====
-- Inserted keys are found.
use mathlib.Core.Bool.{false≢true}
use native.Mathlib.Nat.{mod-lt}
use swe_daily_challenge.Base.{
  ℕ, zero, suc, ◌<◌, ◌≡◌, refl, ◌∙◌, Bool, true, List, [], ◌∷◌, ◌++◌, length, length-set, set,
  arith, inl, inr, Bool-cases,
}
use swe_daily_challenge.Bloom.{
  BloomFilter, hash_i, set_bits, insert, is_set, all_set, contains, insert_all,
}

pub hash_i-lt : (m : ℕ) (key : List ℕ) (i : ℕ) → 0 < m → hash_i m key i < m
unfolding hash_i
hash_i-lt m key i h = mod-lt _ h

is_set-here : (bits : List Bool) (g : ℕ) → g < length bits → is_set (set bits g true) g ≡ true
unfolding is_set
is_set-here [] g h = absurd (omega arith)
is_set-here (b ∷ bits) zero h = refl
is_set-here (b ∷ bits) (suc g) h = is_set-here bits g (omega arith)

-- A write sets a bit, and clears none.
is_set-stays :
    (bits : List Bool) (g j : ℕ) → is_set bits j ≡ true → is_set (set bits g true) j ≡ true
unfolding is_set
is_set-stays [] g j h = h
is_set-stays (b ∷ bits) zero zero h = refl
is_set-stays (b ∷ bits) zero (suc j) h = h
is_set-stays (b ∷ bits) (suc g) zero h = h
is_set-stays (b ∷ bits) (suc g) (suc j) h = is_set-stays bits g j h

set_bits-stays :
    (left i m : ℕ) (key : List ℕ) (bits : List Bool) (j : ℕ)
    → is_set bits j ≡ true
    → is_set (set_bits left i m key bits) j ≡ true
unfolding set_bits
set_bits-stays zero i m key bits j h = h
set_bits-stays (suc left) i m key bits j h =
    set_bits-stays left (suc i) m key (set bits (hash_i m key i) true) j
      (is_set-stays bits (hash_i m key i) j h)

pub length-set_bits :
    (left i m : ℕ) (key : List ℕ) (bits : List Bool)
    → length (set_bits left i m key bits) ≡ length bits
unfolding set_bits
length-set_bits zero i m key bits = refl
length-set_bits (suc left) i m key bits =
    length-set_bits left (suc i) m key (set bits (hash_i m key i) true)
    ∙ length-set bits (hash_i m key i) true

all_set_none : (i m : ℕ) (key : List ℕ) (bits : List Bool) → all_set 0 i m key bits ≡ true
unfolding all_set
all_set_none i m key bits = refl

all_set_step :
    (left i m : ℕ) (key : List ℕ) (bits : List Bool)
    → is_set bits (hash_i m key i) ≡ true
    → all_set left (suc i) m key bits ≡ true
    → all_set (suc left) i m key bits ≡ true
unfolding all_set
all_set_step left i m key bits h rest = simp (all_set, h) rest

-- A key's own bits are all set behind its insertion.
all_set-set_bits :
    (left i m : ℕ) (key : List ℕ) (bits : List Bool)
    → 0 < m
    → length bits ≡ m
    → all_set left i m key (set_bits left i m key bits) ≡ true
unfolding set_bits all_set
all_set-set_bits zero i m key bits pos size = refl
all_set-set_bits (suc left) i m key bits pos size =
    all_set_step left i m key (set_bits left (suc i) m key (set bits (hash_i m key i) true))
      (set_bits-stays left (suc i) m key (set bits (hash_i m key i) true) (hash_i m key i)
        (is_set-here bits (hash_i m key i) (omega (arith, hash_i-lt m key i pos))))
      (all_set-set_bits left (suc i) m key (set bits (hash_i m key i) true) pos
        (length-set bits (hash_i m key i) true ∙ size))

all_set_split :
    (left i m : ℕ) (key : List ℕ) (bits : List Bool)
    → all_set (suc left) i m key bits ≡ true
    → (is_set bits (hash_i m key i) ≡ true) × (all_set left (suc i) m key bits ≡ true)
unfolding all_set
all_set_split left i m key bits h = elim (Bool-cases (is_set bits (hash_i m key i))) [
  | inl yes_set ↦ (yes_set, simp (all_set, yes_set) at h)
  | inr clear ↦ absurd (false≢true (simp (all_set, clear) at h))
]

-- Bits that stay set keep the answer.
all_set-stays :
    (left i m : ℕ) (key : List ℕ) (bits bits' : List Bool)
    → ((j : ℕ) → is_set bits j ≡ true → is_set bits' j ≡ true)
    → all_set left i m key bits ≡ true
    → all_set left i m key bits' ≡ true
all_set-stays zero i m key bits bits' more h = all_set_none i m key bits'
all_set-stays (suc left) i m key bits bits' more h =
    let parts = all_set_split left i m key bits h in
    all_set_step left i m key bits' (more (hash_i m key i) parts.0)
      (all_set-stays left (suc i) m key bits bits' more parts.1)

-- The vector has `m` bits, of which there is one at least.
abbrev pub IsSized : BloomFilter → Type 0
IsSized f = (0 < f.m) × (length f.bits ≡ f.m)

pub insert-IsSized : (key : List ℕ) (f : BloomFilter) → IsSized f → IsSized (insert key f)
unfolding insert
insert-IsSized key f (pos, size) = (pos, length-set_bits f.k 0 f.m key f.bits ∙ size)

pub contains-insert :
    (key : List ℕ) (f : BloomFilter) → IsSized f → contains key (insert key f) ≡ true
unfolding contains insert
contains-insert key f (pos, size) = all_set-set_bits f.k 0 f.m key f.bits pos size

pub contains-stays :
    (key other : List ℕ) (f : BloomFilter)
    → contains key f ≡ true
    → contains key (insert other f) ≡ true
unfolding contains insert
contains-stays key other f h =
    all_set-stays f.k 0 f.m key f.bits (set_bits f.k 0 f.m other f.bits)
      (λ j set_j. set_bits-stays f.k 0 f.m other f.bits j set_j) h

contains-insert_all_stays :
    (key : List ℕ) (keys : List (List ℕ)) (f : BloomFilter)
    → contains key f ≡ true
    → contains key (insert_all keys f) ≡ true
contains-insert_all_stays key [] f h = h
contains-insert_all_stays key (other ∷ keys) f h =
    contains-insert_all_stays key keys (insert other f) (contains-stays key other f h)

-- No false negatives: in a filter with a bit at least, a key that was inserted is found, whatever
-- was inserted before and behind it.
pub contains-insert_all :
    (before : List (List ℕ)) (key : List ℕ) (behind : List (List ℕ)) (f : BloomFilter)
    → (0 < f.m)
    → length f.bits ≡ f.m
    → contains key (insert_all (before ++ key ∷ behind) f) ≡ true
contains-insert_all [] key behind f pos size =
    contains-insert_all_stays key behind (insert key f) (contains-insert key f (pos, size))
contains-insert_all (other ∷ before) key behind f pos size =
    let sized = insert-IsSized other f (pos, size) in
    contains-insert_all before key behind (insert other f) sized.0 sized.1
