-- ===== src/Bloom/Tests.antt =====
-- A small filter, and the theorems on it.
use swe_daily_challenge.Base.{ℕ, ◌≡◌, refl, true, false, some, List, [], ◌∷◌, arith}
use swe_daily_challenge.Bloom.{BloomFilter, make, contains, insert_all, fnv1a_64}
use swe_daily_challenge.Bloom.Laws.{contains-insert_all}
use swe_daily_challenge.Bloom.Reference.{all_covered, contains-all_covered}
use swe_daily_challenge.Bloom.Program.{make_url, measure}
use swe_daily_challenge.Bloom.Program.Laws.{count_where, urls, AreOther, measure_lem}

abbrev small : BloomFilter
small = record {
  m = 8;
  k = 3;
  n_inserted = 0;
  bits = false ∷ false ∷ false ∷ false ∷ false ∷ false ∷ false ∷ false ∷ [];
}

abbrev url_7 : List ℕ
url_7 = b'u' ∷ b'r' ∷ b'l' ∷ b'-' ∷ b'7' ∷ []

made : make 8 3 ≡ small
unfolding make
made = refl

hash_of_a : fnv1a_64 (b'a' ∷ []) ≡ 0xaf63dc4c8601ec8c
unfolding fnv1a_64
hash_of_a = refl

absent : contains url_7 small ≡ false
unfolding contains
absent = refl

contains-insert_all_example :
    contains url_7 (insert_all ((b'a' ∷ []) ∷ url_7 ∷ (b'b' ∷ []) ∷ []) small) ≡ true
contains-insert_all_example =
    contains-insert_all ((b'a' ∷ []) ∷ []) url_7 ((b'b' ∷ []) ∷ []) small (omega arith) refl

url_42 : make_url 42 ≡ b'u' ∷ b'r' ∷ b'l' ∷ b'-' ∷ b'4' ∷ b'2' ∷ []
unfolding make_url
url_42 = refl

measure_lem_example :
    (measure 958506 7 100000 200000
      ≡ some
          (count_where (λ url. all_covered 7 958506 (urls 100000 0) url 7 0) (urls 200000 100000)))
    × AreOther (urls 100000 0) (urls 200000 100000)
unfolding make
measure_lem_example = measure_lem 958506 7 100000 200000 (omega arith) (omega arith)

contains-all_covered_example :
    contains url_7 (insert_all (url_7 ∷ (b'a' ∷ []) ∷ []) (make 8 3))
    ≡ all_covered 3 8 (url_7 ∷ (b'a' ∷ []) ∷ []) url_7 3 0
unfolding make
contains-all_covered_example =
    contains-all_covered 8 3 (url_7 ∷ (b'a' ∷ []) ∷ []) url_7 (omega arith)
