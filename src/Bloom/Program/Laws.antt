-- ===== src/Bloom/Program/Laws.antt =====
-- The test program of the filter.
use native.Mathlib.Decide.{ℕ_discrete}
use swe_daily_challenge.Base.{
  ℕ, zero, suc, ◌+◌, ◌<◌, ◌≤◌, ◌≡◌, ◌≢◌, refl, sym, ap, ◌∙◌, subst, Bool, true, false, some, List,
  [], ◌∷◌, if◌then◌else◌, length-replicate, arith,
}
use swe_daily_challenge.Lsm.Strings.{decimal}
use swe_daily_challenge.Lsm.Digits.{bound, value_from, value_from-decimal}
use swe_daily_challenge.Bloom.{BloomFilter, make, insert, contains, insert_all}
use swe_daily_challenge.Bloom.Reference.{all_covered, contains-all_covered}
use swe_daily_challenge.Bloom.Laws.{IsSized, insert-IsSized, contains-insert, contains-stays}
use swe_daily_challenge.Bloom.Program.{make_url, insert_urls, all_found, count_found, measure}

make_url_inj : (i j : ℕ) → i < bound 20 → j < bound 20 → make_url i ≡ make_url j → i ≡ j
unfolding make_url
make_url_inj i j h h' e =
    sym (value_from-decimal 20 i h) ∙ ap (value_from 0) (rest e) ∙ value_from-decimal 20 j h'
  where
    tail : List ℕ → List ℕ
    tail [] = []
    tail (x ∷ xs) = xs

    rest : make_url i ≡ make_url j → decimal 20 i ≡ decimal 20 j
    rest e = ap (λ s. tail (tail (tail (tail s)))) e

contains-insert_urls :
    (key : List ℕ) (left first : ℕ) (bf : BloomFilter)
    → contains key bf ≡ true
    → contains key (insert_urls left first bf) ≡ true
unfolding insert_urls
contains-insert_urls key zero first bf h = h
contains-insert_urls key (suc left) first bf h =
    contains-insert_urls key left (suc first) (insert (make_url first) bf)
      (contains-stays key (make_url first) bf h)

url_found :
    (left first i : ℕ) (bf : BloomFilter)
    → IsSized bf
    → first ≤ i
    → i < first + left
    → contains (make_url i) (insert_urls left first bf) ≡ true
unfolding insert_urls
url_found zero first i bf sized low high = absurd (omega arith)
url_found (suc left) first i bf sized low high = elim (ℕ_discrete first i) [
  | yes e ↦ contains-insert_urls (make_url i) left (suc first) (insert (make_url first) bf) (
      subst (λ j. contains (make_url j) (insert (make_url first) bf) ≡ true) e
        (contains-insert (make_url first) bf sized))
  | no ne ↦
      url_found left (suc first) i (insert (make_url first) bf)
        (insert-IsSized (make_url first) bf sized) (omega arith) (omega arith)
]

all_found_lem :
    (left first : ℕ) (bf : BloomFilter)
    → ((i : ℕ) → first ≤ i → i < first + left → contains (make_url i) bf ≡ true)
    → all_found left first bf ≡ true
unfolding all_found
all_found_lem zero first bf h = refl
all_found_lem (suc left) first bf h =
    simp (all_found, h first (omega arith) (omega arith))
      (all_found_lem left (suc first) bf (λ i low high. h i (omega arith) (omega arith)))

-- The URLs of a loop, and how many keys of a list satisfy a test.
abbrev pub urls : (left first : ℕ) → List (List ℕ)
urls zero first = []
urls (suc left) first = make_url first ∷ urls left (suc first)

unfoldable pub count_where : (List ℕ → Bool) → List (List ℕ) → ℕ
count_where test [] = 0
count_where test (key ∷ keys) =
    let rest = count_where test keys in if test key then suc rest else rest

insert_urls-insert_all :
    (left first : ℕ) (bf : BloomFilter)
    → insert_urls left first bf ≡ insert_all (urls left first) bf
unfolding insert_urls
insert_urls-insert_all zero first bf = refl
insert_urls-insert_all (suc left) first bf =
    insert_urls-insert_all left (suc first) (insert (make_url first) bf)

count_found-count_where :
    (test : List ℕ → Bool) (left first : ℕ) (bf : BloomFilter) (fp : ℕ)
    → ((key : List ℕ) → contains key bf ≡ test key)
    → count_found left first bf fp ≡ fp + count_where test (urls left first)
unfolding count_found count_where
count_found-count_where test zero first bf fp same = omega arith
count_found-count_where test (suc left) first bf fp same =
    ap (λ b. count_found left (suc first) bf (if b then suc fp else fp)) (same (make_url first))
    ∙ count_found-count_where test left (suc first) bf
        (if test (make_url first) then suc fp else fp) same
    ∙ counted (test (make_url first)) (count_where test (urls left (suc first)))
  where
    counted : (b : Bool) (c : ℕ) → (if b then suc fp else fp) + c ≡ fp + (if b then suc c else c)
    counted true c = omega arith
    counted false c = omega arith

-- No key of the one list is in the other.
abbrev pub IsOther : List ℕ → List (List ℕ) → Type 0
IsOther key [] = Unit
IsOther key (other ∷ others) = (key ≢ other) × IsOther key others

abbrev pub AreOther : (keys others : List (List ℕ)) → Type 0
AreOther [] others = Unit
AreOther (key ∷ keys) others = IsOther key others × AreOther keys others

url-IsOther :
    (i left first : ℕ)
    → i < bound 20
    → first + left ≤ bound 20
    → i < first
    → IsOther (make_url i) (urls left first)
url-IsOther i zero first small few before = tt
url-IsOther i (suc left) first small few before = (
  λ e. differs (make_url_inj i first small (omega arith) e),
  url-IsOther i left (suc first) small (omega arith) (omega arith),
)
  where
    differs : i ≢ first
    differs e = omega arith

urls-AreOther :
    (n i left first : ℕ)
    → first + left ≤ bound 20
    → i + n ≤ first
    → AreOther (urls n i) (urls left first)
urls-AreOther zero i left first few before = tt
urls-AreOther (suc n) i left first few before = (
  url-IsOther i left first (omega arith) few (omega arith),
  urls-AreOther n (suc i) left first few (omega arith),
)

made-IsSized : (m k : ℕ) → 0 < m → IsSized (make m k)
unfolding make
made-IsSized m k h = (h, length-replicate m false)

-- Where the constructor computes a bit at least, and whatever the numbers of URLs are: no assertion
-- on a URL that was inserted fails, the count of the last loop is that of the URLs from `n` on, each
-- of whose positions is a position of an inserted URL, and none of these URLs was inserted.
pub measure_lem :
    (m k n probe : ℕ)
    → 0 < m
    → n + probe ≤ bound 20
    → (measure m k n probe
        ≡ some (
            count_where
              (λ url. all_covered (make m k).k m (urls n 0) url (make m k).k 0)
              (urls probe n)))
      × AreOther (urls n 0) (urls probe n)
unfolding measure
measure_lem m k n probe some_bit few = (
  simp
      (
        measure,
        all_found_lem n 0 (insert_urls n 0 (make m k))
            (λ u low high. url_found n 0 u (make m k) (made-IsSized m k some_bit) low high),
      )
      (ap some counted),
  urls-AreOther n 0 probe n few (omega arith),
)
  where
    test : List ℕ → Bool
    test url = all_covered (make m k).k m (urls n 0) url (make m k).k 0

    same : (key : List ℕ) → contains key (insert_urls n 0 (make m k)) ≡ test key
    same key =
        ap (contains key) (insert_urls-insert_all n 0 (make m k))
        ∙ contains-all_covered m k (urls n 0) key some_bit

    counted : count_found probe n (insert_urls n 0 (make m k)) 0 ≡ count_where test (urls probe n)
    counted =
        omega (arith, count_found-count_where test probe n (insert_urls n 0 (make m k)) 0 same)
