-- ===== src/Lsm/Paths.antt =====
-- The names of the files, and their order.
use swe_daily_challenge.Base.{
  ℕ, zero, suc, ◌<◌, ◌≤◌, ◌≡◌, refl, sym, ap, ◌∙◌, true, false, List, [], ◌∷◌, ◌++◌, arith,
}
use swe_daily_challenge.Lsm.Strings.{
  Str, str_eq, str_lt, decimal, padded, str_lt-append, str_lt-padded, str_lt-padded_back, str_lt→≢,
  str_eq_ne,
}
use swe_daily_challenge.Lsm.{insert_desc, sort_desc, path_of, extension, stem}

path-lt : (dir : Str) (m n : ℕ) → m < n → n < 10000 → str_lt (path_of dir m) (path_of dir n) ≡ true
unfolding path_of
path-lt dir m n h l =
    str_lt-append (dir ++ stem) (padded (decimal 10 m) ++ extension)
      (padded (decimal 10 n) ++ extension)
    ∙ str_lt-padded m n extension h l

path-lt_back :
    (dir : Str) (m n : ℕ) → m < n → n < 10000 → str_lt (path_of dir n) (path_of dir m) ≡ false
unfolding path_of
path-lt_back dir m n h l =
    str_lt-append (dir ++ stem) (padded (decimal 10 n) ++ extension)
      (padded (decimal 10 m) ++ extension)
    ∙ str_lt-padded_back m n extension h l

pub path-ne :
    (dir : Str) (m n : ℕ) → m < n → n < 10000 → str_eq (path_of dir n) (path_of dir m) ≡ false
path-ne dir m n h l =
    str_eq_ne (path_of dir n) (path_of dir m)
      (λ e. str_lt→≢ (path_of dir m) (path_of dir n) (path-lt dir m n h l) (sym e))

-- The paths of the first `n` tables, newest first.
abbrev pub newest_first : Str → ℕ → List Str
newest_first dir zero = []
newest_first dir (suc n) = path_of dir n ∷ newest_first dir n

-- A path on top of those.
pub insert_top :
    (dir : Str) (n k : ℕ)
    → k ≤ n
    → n < 10000
    → insert_desc (path_of dir n) (newest_first dir k) ≡ path_of dir n ∷ newest_first dir k
unfolding insert_desc
insert_top dir n zero h l = refl
insert_top dir n (suc k) h l = simp (path-lt_back dir k n (omega arith) l) refl

insert_below :
    (dir : Str) (n k : ℕ)
    → k < n
    → n < 10000
    → insert_desc (path_of dir k) (path_of dir n ∷ newest_first dir k)
      ≡ path_of dir n ∷ path_of dir k ∷ newest_first dir k
unfolding insert_desc
insert_below dir n k h l =
    simp (path-lt dir k n h l)
      (ap (λ (ps : List Str). path_of dir n ∷ ps) (insert_top dir k k (omega arith) (omega arith)))

-- The new path comes first once the paths are sorted.
pub sort-newest :
    (dir : Str) (n k : ℕ)
    → k ≤ n
    → n < 10000
    → sort_desc (newest_first dir k ++ (path_of dir n ∷ [])) ≡ path_of dir n ∷ newest_first dir k
unfolding sort_desc insert_desc
sort-newest dir n zero h l = refl
sort-newest dir n (suc k) h l =
    ap (insert_desc (path_of dir k)) (sort-newest dir n k (omega arith) l)
    ∙ insert_below dir n k (omega arith) l
