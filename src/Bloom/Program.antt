-- ===== src/Bloom/Program.antt =====
-- main of 11-bloom_filter/main.cpp, up to the figures that it prints.
pub mod Laws
use swe_daily_challenge.Base.{
  ℕ, zero, suc, ◌+◌, Bool, true, false, Option, none, some, List, [], ◌∷◌, ◌++◌, if◌then◌else◌,
}
use swe_daily_challenge.Lsm.Strings.{decimal}
use swe_daily_challenge.Bloom.{BloomFilter, make, insert, contains}

-- A `size_t` has twenty digits at most.
unfoldable pub make_url : ℕ → List ℕ
unfolding decimal
make_url i = (b'u' ∷ b'r' ∷ b'l' ∷ b'-' ∷ []) ++ decimal 20 i

-- `for (i = first; i < first + left; i++) bf.insert(make_url(i))`
unfoldable pub insert_urls : (left first : ℕ) → BloomFilter → BloomFilter
unfolding insert make_url
insert_urls zero first bf = bf
insert_urls (suc left) first bf = insert_urls left (suc first) (insert (make_url first) bf)

-- Whether every assertion of the second loop holds.
unfoldable pub all_found : (left first : ℕ) → BloomFilter → Bool
unfolding contains make_url
all_found zero first bf = true
all_found (suc left) first bf =
    let rest = all_found left (suc first) bf in if contains (make_url first) bf then rest else false

-- `fp` behind the third loop.
unfoldable pub count_found : (left first : ℕ) → BloomFilter → (fp : ℕ) → ℕ
unfolding contains make_url
count_found zero first bf fp = fp
count_found (suc left) first bf fp =
    count_found left (suc first) bf (if contains (make_url first) bf then suc fp else fp)

-- `n` is N and `probe` is PROBE; `m` and `k` are what the constructor computes. A failed assertion
-- is none; otherwise the result is the number of false positives.
unfoldable pub measure : (m k n probe : ℕ) → Option ℕ
unfolding make insert_urls all_found count_found
measure m k n probe =
    let bf = insert_urls n 0 (make m k) in
    if all_found n 0 bf then some (count_found probe n bf 0) else none
