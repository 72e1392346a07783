-- ===== src/Lsm/Valid.antt =====
-- A store whose files hold the tables that it has written.
use swe_daily_challenge.Base.{◌≡◌, refl, ap, ap₂, ◌∙◌, Option, none, some, List, [], ◌∷◌, length}
use swe_daily_challenge.Lsm.Strings.{Str}
use swe_daily_challenge.Lsm.File.{encode, Fits, read_entries-encode}
use swe_daily_challenge.Lsm.{LsmTree, find, path_of, read_sstable, found_or, get_in, get}
use swe_daily_challenge.Lsm.Paths.{newest_first}

-- The tables are on disk, the first one under the highest number.
abbrev pub OnDisk : Str → (Str → Option Str) → List (List (Str × Str)) → Type 0
OnDisk dir disk [] = Unit
OnDisk dir disk (t ∷ ts) =
    (disk (path_of dir (length ts)) ≡ some (encode t)) × Fits t × OnDisk dir disk ts

-- `tables` are the files' contents, newest first.
pub record IsValid (s : LsmTree) (tables : List (List (Str × Str))) : Type 0 where
  pub paths : s.sstable_paths ≡ newest_first s.data_dir (length tables)
  pub count : s.sstable_count ≡ length tables
  pub on_disk : OnDisk s.data_dir s.disk tables
  pub fits : Fits s.memtable

-- What all entries together say of a key, the newest first.
abbrev pub newest : List (List (Str × Str)) → Str → Option Str
newest [] key = none
newest (t ∷ ts) key = found_or (find key t) (newest ts key)

read_table :
    (disk : Str → Option Str) (path : Str) (t : List (Str × Str))
    → disk path ≡ some (encode t)
    → Fits t
    → read_sstable disk path ≡ t
unfolding read_sstable
read_table disk path t at fits = simp (read_sstable, at) (read_entries-encode t fits)

get_in-newest :
    (dir : Str) (disk : Str → Option Str) (ts : List (List (Str × Str))) (key : Str)
    → OnDisk dir disk ts
    → get_in disk (newest_first dir (length ts)) key ≡ newest ts key
unfolding get_in
get_in-newest dir disk [] key h = refl
get_in-newest dir disk (t ∷ ts) key (at, fits, h) =
    ap₂ (λ (u : List (Str × Str)) (rest : Option Str). found_or (find key u) rest)
      (read_table disk (path_of dir (length ts)) t at fits) (get_in-newest dir disk ts key h)

-- get looks at the memtable and then at the files, newest first.
pub get-newest :
    (s : LsmTree) (ts : List (List (Str × Str))) (key : Str)
    → IsValid s ts
    → get s key ≡ newest (s.memtable ∷ ts) key
unfolding get
get-newest s ts key v = ap (found_or (find key s.memtable)) (
    ap (λ (ps : List Str). get_in s.disk ps key) v.paths
    ∙ get_in-newest s.data_dir s.disk ts key v.on_disk)
