-- ===== src/Bloom/Reference.antt =====
-- What contains answers, without an array: a key is found where each of its positions is one of a
-- key that was inserted.
use native.Mathlib.Decide.{ℕ_discrete}
use swe_daily_challenge.Base.{
  ℕ, zero, suc, ◌<◌, ◌≡◌, ◌≢◌, refl, sym, ap, ap₂, ◌∙◌, Bool, true, false, ◌||◌, ◌==◌, List, [],
  ◌∷◌, if◌then◌else◌, length, length-replicate, length-set, set, replicate, arith, eq→==, ne→==,
}
use swe_daily_challenge.Bloom.{
  BloomFilter, make, hash_i, set_bits, insert, is_set, all_set, contains, insert_all,
}
use swe_daily_challenge.Bloom.Laws.{hash_i-lt, length-set_bits}

-- Whether the key has position `j` as one of `left` ones from the `i`-th on.
unfoldable pub has_position : (left i m : ℕ) → List ℕ → (j : ℕ) → Bool
has_position zero i m key j = false
has_position (suc left) i m key j = (hash_i m key i == j) || has_position left (suc i) m key j

unfoldable pub is_covered : (k m : ℕ) → List (List ℕ) → (j : ℕ) → Bool
unfolding has_position
is_covered k m [] j = false
is_covered k m (key ∷ keys) j = has_position k 0 m key j || is_covered k m keys j

unfoldable pub all_covered : (k m : ℕ) → List (List ℕ) → List ℕ → (left i : ℕ) → Bool
unfolding is_covered
all_covered k m keys key zero i = true
all_covered k m keys key (suc left) i =
    let rest = all_covered k m keys key left (suc i) in
    if is_covered k m keys (hash_i m key i) then rest else false

or_swap : (a b c : Bool) → (b || (a || c)) ≡ ((a || b) || c)
or_swap true true c = refl
or_swap true false c = refl
or_swap false b c = refl

same_suc : (i j : ℕ) → (i == j) ≡ (suc i == suc j)
same_suc i j = elim (ℕ_discrete i j) [
  | yes e ↦ eq→== i j e ∙ sym (eq→== (suc i) (suc j) (ap suc e))
  | no ne ↦ ne→== i j ne ∙ sym (ne→== (suc i) (suc j) (differs i j ne))
]
  where
    differs : (i j : ℕ) → i ≢ j → suc i ≢ suc j
    differs i j ne e = absurd (ne (omega arith))

is_set-set :
    (bits : List Bool) (i j : ℕ)
    → i < length bits
    → is_set (set bits i true) j ≡ ((i == j) || is_set bits j)
unfolding is_set
is_set-set [] i j h = absurd (omega arith)
is_set-set (b ∷ bits) zero zero h = refl
is_set-set (b ∷ bits) zero (suc j) h = rw (ne→== 0 (suc j) (omega arith)) refl
is_set-set (b ∷ bits) (suc i) zero h = rw (ne→== (suc i) 0 (omega arith)) refl
is_set-set (b ∷ bits) (suc i) (suc j) h =
    is_set-set bits i j (omega arith) ∙ ap (λ t. t || is_set bits j) (same_suc i j)

-- What the loop of insert sets.
is_set-set_bits :
    (left i m : ℕ) (key : List ℕ) (bits : List Bool) (j : ℕ)
    → 0 < m
    → length bits ≡ m
    → is_set (set_bits left i m key bits) j ≡ (has_position left i m key j || is_set bits j)
unfolding set_bits has_position
is_set-set_bits zero i m key bits j pos size = refl
is_set-set_bits (suc left) i m key bits j pos size =
    is_set-set_bits left (suc i) m key (set bits (hash_i m key i) true) j pos
      (length-set bits (hash_i m key i) true ∙ size)
    ∙ ap (λ t. has_position left (suc i) m key j || t)
        (is_set-set bits (hash_i m key i) j (omega (arith, hash_i-lt m key i pos)))
    ∙ or_swap (hash_i m key i == j) (has_position left (suc i) m key j) (is_set bits j)

is_set-insert_all :
    (keys : List (List ℕ)) (f : BloomFilter) (j : ℕ)
    → 0 < f.m
    → length f.bits ≡ f.m
    → is_set (insert_all keys f).bits j ≡ (is_covered f.k f.m keys j || is_set f.bits j)
unfolding is_covered insert
is_set-insert_all [] f j pos size = refl
is_set-insert_all (key ∷ keys) f j pos size =
    is_set-insert_all keys (insert key f) j pos (length-set_bits f.k 0 f.m key f.bits ∙ size)
    ∙ ap (λ t. is_covered f.k f.m keys j || t) (is_set-set_bits f.k 0 f.m key f.bits j pos size)
    ∙ or_swap (has_position f.k 0 f.m key j) (is_covered f.k f.m keys j) (is_set f.bits j)

-- Inserting changes neither the size nor the number of hashes.
insert_all_keeps :
    (keys : List (List ℕ)) (f : BloomFilter)
    → ((insert_all keys f).k ≡ f.k) × ((insert_all keys f).m ≡ f.m)
unfolding insert
insert_all_keeps [] f = (refl, refl)
insert_all_keeps (key ∷ keys) f = insert_all_keeps keys (insert key f)

is_set-clear : (m j : ℕ) → is_set (replicate m false) j ≡ false
unfolding is_set
is_set-clear zero j = refl
is_set-clear (suc m) zero = refl
is_set-clear (suc m) (suc j) = is_set-clear m j

or_false : (b : Bool) → (b || false) ≡ b
or_false true = refl
or_false false = refl

all_set-all_covered :
    (left i k m : ℕ) (key : List ℕ) (keys : List (List ℕ)) (bits : List Bool)
    → ((j : ℕ) → is_set bits j ≡ is_covered k m keys j)
    → all_set left i m key bits ≡ all_covered k m keys key left i
unfolding all_set all_covered
all_set-all_covered zero i k m key keys bits same = refl
all_set-all_covered (suc left) i k m key keys bits same =
    ap₂ (λ (b rest : Bool). if b then rest else false) (same (hash_i m key i))
      (all_set-all_covered left (suc i) k m key keys bits same)

-- From a new filter of a bit at least, and after any insertions, contains says yes exactly where each
-- position of the key is a position of an inserted key: for inserted keys, and for those others
-- alone whose positions happen to be covered.
pub contains-all_covered :
    (m k : ℕ) (keys : List (List ℕ)) (key : List ℕ)
    → 0 < m
    → contains key (insert_all keys (make m k)) ≡ all_covered (make m k).k m keys key (make m k).k 0
unfolding contains make
contains-all_covered m k keys key pos =
    ap₂ (λ k' m'. all_set k' 0 m' key (insert_all keys (make m k)).bits)
      (insert_all_keeps keys (make m k)).0 (insert_all_keeps keys (make m k)).1
    ∙ all_set-all_covered (make m k).k 0 (make m k).k m key keys (insert_all keys (make m k)).bits
        (λ j.
          is_set-insert_all keys (make m k) j pos (length-replicate m false)
          ∙ ap (λ t. is_covered (make m k).k m keys j || t) (is_set-clear m j)
          ∙ or_false (is_covered (make m k).k m keys j))
