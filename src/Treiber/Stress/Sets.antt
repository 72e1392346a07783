-- ===== src/Treiber/Stress/Sets.antt =====
-- The sets of the stress test, by how often a value counts.
use Prim.Native.Nat.{min}
use native.Mathlib.Decide.{ℕ_discrete}
use swe_daily_challenge.Base.{
  ℕ, zero, suc, ◌+◌, ◌*◌, ◌<◌, ◌≤◌, ◌≡◌, ◌≢◌, refl, sym, ap, ap₂, ◌∙◌, true, false, ◌&&◌, List, [],
  ◌∷◌, ◌++◌, ◌==◌, length, eq→==, ne→==, arith, inl, inr, ◌⊎◌, Bool-cases, ltb, ltb→lt, ltb→le,
}
use swe_daily_challenge.Treiber.Values.{count}
use swe_daily_challenge.Treiber.Stress.{values, producer, produced, has, insert, merge, all_present}

-- One value against another.
pub same_or_not : (x y : ℕ) → ((x ≡ y) × ((x == y) ≡ true)) ⊎ ((x ≢ y) × ((x == y) ≡ false))
same_or_not x y = elim (ℕ_discrete x y) [
  | yes e ↦ inl (e, eq→== x y e)
  | no ne ↦ inr (ne, ne→== x y ne)
]

count-cons_same : (x : ℕ) (ys : List ℕ) → count x (x ∷ ys) ≡ suc (count x ys)
unfolding count
count-cons_same x ys = simp (count, eq→== x x refl) (omega arith)

count-cons_other : (x y : ℕ) (ys : List ℕ) → x ≢ y → count x (y ∷ ys) ≡ count x ys
unfolding count
count-cons_other x y ys ne = simp (count, ne→== x y ne) (omega arith)

has_lem :
    (x : ℕ) (ys : List ℕ)
    → ((has x ys ≡ true) × (1 ≤ count x ys)) ⊎ ((has x ys ≡ false) × (count x ys ≡ 0))
unfolding has count
has_lem x [] = inr (refl, refl)
has_lem x (y ∷ ys) = elim (same_or_not x y) [
  | inl (e, t) ↦ inl (simp (has, t) refl, simp (count, t) (omega arith))
  | inr (ne, f) ↦ elim (has_lem x ys) [
    | inl h ↦ inl (simp (has, f) h.0, simp (count, f) (omega (arith, h.1)))
    | inr h ↦ inr (simp (has, f) h.0, simp (count, f) (omega (arith, h.1)))
  ]
]

-- The set has each value of `src` once, and no other.
abbrev pub Marks : (set src : List ℕ) → Type 0
Marks set src = (x : ℕ) → count x set ≡ min (count x src) 1

insert_new : (y : ℕ) (ys : List ℕ) → has y ys ≡ false → insert y ys ≡ y ∷ ys
unfolding insert
insert_new y ys h = simp (insert, h) refl

insert_old : (y : ℕ) (ys : List ℕ) → has y ys ≡ true → insert y ys ≡ ys
unfolding insert
insert_old y ys h = simp (insert, h) refl

pub insert-Marks : (y : ℕ) (set src : List ℕ) → Marks set src → Marks (insert y set) (y ∷ src)
insert-Marks y set src m x = elim (same_or_not x y) [
  | inl (e, _) ↦ elim (has_lem y set) [
    | inl (old, in_set) ↦ omega (
      arith,
      ap (count x) (insert_old y set old),
      m x,
      m y,
      in_set,
      ap (λ k. count k set) e,
      ap (λ k. count x (k ∷ src)) (sym e) ∙ count-cons_same x src,
    )
    | inr (fresh, absent) ↦ omega (
      arith,
      ap (count x) (insert_new y set fresh),
      m x,
      m y,
      absent,
      ap (λ k. count k set) e,
      ap (λ k. count x (k ∷ set)) (sym e) ∙ count-cons_same x set,
      ap (λ k. count x (k ∷ src)) (sym e) ∙ count-cons_same x src,
    )
  ]
  | inr (ne, _) ↦ elim (has_lem y set) [
    | inl (old, in_set) ↦
        omega (arith, ap (count x) (insert_old y set old), m x, count-cons_other x y src ne)
    | inr (fresh, absent) ↦ omega (
      arith,
      ap (count x) (insert_new y set fresh),
      m x,
      count-cons_other x y set ne,
      count-cons_other x y src ne,
    )
  ]
]

pub count-append : (x : ℕ) (xs ys : List ℕ) → count x (xs ++ ys) ≡ count x xs + count x ys
unfolding count
count-append x [] ys = omega arith
count-append x (z ∷ xs) ys = omega (arith, count-append x xs ys)

-- Sets of two sources, merged.
pub merge-Marks :
    (other set src : List ℕ)
    → Marks set src
    → (x : ℕ) → count x (merge other set) ≡ min (count x src + count x other) 1
unfolding merge count
merge-Marks [] set src m x = omega (arith, m x)
merge-Marks (y ∷ other) set src m x =
    omega (arith, merge-Marks other (insert y set) (y ∷ src) (insert-Marks y set src m) x)

values-append : (a b first : ℕ) → values (a + b) first ≡ values a first ++ values b (first + a)
unfolding values
values-append zero b first = ap₂ values {x = zero + b} {y = b} (omega arith) (omega arith)
values-append (suc a) b first =
    ap (λ k. values k first) {x = suc a + b} {y = suc (a + b)} (omega arith)
    ∙ ap (◌∷◌ first) (
        values-append a b (suc first)
        ∙ ap (λ k. values a (suc first) ++ values b k) {x = suc first + a} {y = first + suc a}
            (omega arith))

values_outside :
    (left first x : ℕ) → (x < first) ⊎ (first + left ≤ x) → count x (values left first) ≡ 0
unfolding values count
values_outside zero first x h = refl
values_outside (suc left) first x (inl h) =
    count-cons_other x first (values left (suc first)) (λ e. omega arith)
    ∙ values_outside left (suc first) x (inl (omega arith))
values_outside (suc left) first x (inr h) =
    count-cons_other x first (values left (suc first)) (λ e. omega arith)
    ∙ values_outside left (suc first) x (inr (omega arith))

values_inside : (left first x : ℕ) → first ≤ x → x < first + left → count x (values left first) ≡ 1
unfolding values
values_inside zero first x low high = absurd (omega arith)
values_inside (suc left) first x low high = elim (same_or_not x first) [
  | inl (e, _) ↦ omega (
    arith,
    ap (λ k. count x (k ∷ values left (suc first))) (sym e)
        ∙ count-cons_same x (values left (suc first)),
    values_outside left (suc first) x (inl (omega arith)),
  )
  | inr (ne, _) ↦
      count-cons_other x first (values left (suc first)) ne
      ∙ values_inside left (suc first) x (low_next ne) (omega arith)
]
  where
    low_next : x ≢ first → suc first ≤ x
    low_next ne = elim (Bool-cases (ltb first x)) [
      | inl lt ↦ ltb→lt first x lt
      | inr ge ↦ absurd (ne (let le = ltb→le first x ge in omega arith))
    ]

produced_lem : (n : ℕ) → produced n ≡ values (4 * n) 0
unfolding produced producer
produced_lem n = sym (
    ap (λ k. values k 0) {x = 4 * n} {y = n + (n + (n + n))} (omega arith)
    ∙ values-append n (n + (n + n)) 0
    ∙ ap₂ (λ a b. values n a ++ b) {x = 0} {y = 0 * n} (omega arith)
        (values-append n (n + n) (0 + n)
          ∙ ap₂ (λ a b. values n a ++ b) at_1
              (values-append n n (0 + n + n) ∙ ap₂ (λ a b. values n a ++ values n b) at_2 at_3)))
  where
    at_1 : 0 + n ≡ 1 * n
    at_1 = omega arith

    at_2 : 0 + n + n ≡ 2 * n
    at_2 = omega arith

    at_3 : 0 + n + n + n ≡ 3 * n
    at_3 = omega arith

pub produced_inside : (n x : ℕ) → x < 4 * n → count x (produced n) ≡ 1
produced_inside n x h =
    ap (count x) (produced_lem n) ∙ values_inside (4 * n) 0 x (omega arith) (omega arith)

pub produced_outside : (n x : ℕ) → 4 * n ≤ x → count x (produced n) ≡ 0
produced_outside n x h =
    ap (count x) (produced_lem n) ∙ values_outside (4 * n) 0 x (inr (omega arith))

-- A loop over values that all are there.
pub all_present_lem :
    (left i : ℕ) (set : List ℕ)
    → ((x : ℕ) → x < i + left → count x set ≡ 1)
    → all_present left i set ≡ true
unfolding all_present
all_present_lem zero i set h = refl
all_present_lem (suc left) i set h =
    ap₂ (λ a b. a && b) (found i (h i (omega arith)))
      (all_present_lem left (suc i) set (λ x lt. h x (omega arith)))
  where
    found : (x : ℕ) → count x set ≡ 1 → has x set ≡ true
    found x one = elim (has_lem x set) [
      | inl (t, _) ↦ t
      | inr (_, zero_times) ↦ absurd (omega (arith, one, zero_times))
    ]

-- The values below a bound count as many as the list is long.
below_count : ℕ → List ℕ → ℕ
below_count zero xs = 0
below_count (suc n) xs = count n xs + below_count n xs

below_count_nil : (n : ℕ) → below_count n [] ≡ 0
unfolding below_count count
below_count_nil zero = refl
below_count_nil (suc n) = omega (arith, below_count_nil n)

below_count_high : (n y : ℕ) (ys : List ℕ) → n ≤ y → below_count n (y ∷ ys) ≡ below_count n ys
unfolding below_count
below_count_high zero y ys h = refl
below_count_high (suc n) y ys h =
    omega (arith, count-cons_other n y ys (λ e. omega arith), below_count_high n y ys (omega arith))

below_count_cons : (n y : ℕ) (ys : List ℕ) → y < n → below_count n (y ∷ ys) ≡ suc (below_count n ys)
unfolding below_count
below_count_cons zero y ys h = absurd (omega arith)
below_count_cons (suc n) y ys h = elim (same_or_not n y) [
  | inl (e, _) ↦ omega (
    arith,
    ap (λ k. count n (k ∷ ys)) (sym e) ∙ count-cons_same n ys,
    below_count_high n y ys (omega arith),
  )
  | inr (ne, _) ↦ omega (arith, count-cons_other n y ys ne, below_count_cons n y ys (omega arith))
]

length-below_count :
    (n : ℕ) (xs : List ℕ) → ((x : ℕ) → n ≤ x → count x xs ≡ 0) → length xs ≡ below_count n xs
length-below_count n [] h = sym (below_count_nil n)
length-below_count n (y ∷ ys) h = elim (Bool-cases (ltb y n)) [
  | inl lt ↦
      omega (
        arith,
        below_count_cons n y ys (ltb→lt y n lt),
        length-below_count n ys (λ x ge. clear x ge),
      )
  | inr ge ↦ absurd (omega (arith, h y (ltb→le y n ge), count-cons_same y ys))
]
  where
    clear : (x : ℕ) → n ≤ x → count x ys ≡ 0
    clear x ge = elim (same_or_not x y) [
      | inl (e, _) ↦
          absurd (omega (arith, h x ge, ap (λ k. count x (k ∷ ys)) (sym e) ∙ count-cons_same x ys))
      | inr (ne, _) ↦ omega (arith, h x ge, count-cons_other x y ys ne)
    ]

below_count_ones : (n : ℕ) (xs : List ℕ) → ((x : ℕ) → x < n → count x xs ≡ 1) → below_count n xs ≡ n
unfolding below_count
below_count_ones zero xs h = refl
below_count_ones (suc n) xs h =
    omega (arith, h n (omega arith), below_count_ones n xs (λ x lt. h x (omega arith)))

pub length_ones :
    (n : ℕ) (xs : List ℕ)
    → ((x : ℕ) → n ≤ x → count x xs ≡ 0)
    → ((x : ℕ) → x < n → count x xs ≡ 1)
    → length xs ≡ n
length_ones n xs high low = length-below_count n xs high ∙ below_count_ones n xs low
