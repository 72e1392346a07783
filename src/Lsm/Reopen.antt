-- ===== src/Lsm/Reopen.antt =====
-- A store that is opened again on the files of another: the order in which the directory lists them
-- does not matter.
use mathlib.Core.List.{Permᴰ}
use swe_daily_challenge.Base.{
  ℕ, zero, suc, ◌≤◌, ◌≡◌, refl, sym, ap, ◌∙◌, false, List, [], ◌∷◌, ◌++◌, map, length, arith,
}
use swe_daily_challenge.Lsm.Strings.{Str}
use swe_daily_challenge.Lsm.{LsmTree, path_of, insert_desc, sort_desc, get, open_tree}
use swe_daily_challenge.Lsm.Paths.{newest_first, insert_top}
use swe_daily_challenge.Lsm.Valid.{IsValid, get-newest}
use swe_daily_challenge.Lsm.Sort.{insert_desc_comm}

sort_desc-perm : {xs ys : List Str} → Permᴰ xs ys → sort_desc xs ≡ sort_desc ys
unfolding sort_desc
sort_desc-perm Permᴰ.nil = refl
sort_desc-perm (Permᴰ.cons {a} {b} {l₁} {l₂} e h) =
    ap (λ r. insert_desc r (sort_desc l₁)) e ∙ ap (insert_desc b) (sort_desc-perm h)
sort_desc-perm (Permᴰ.swap {a} {b} {a'} {b'} {l} e e') =
    insert_desc_comm a b (sort_desc l)
    ∙ ap (λ r. insert_desc r (insert_desc a (sort_desc l))) e'
    ∙ ap (λ r. insert_desc a' (insert_desc r (sort_desc l))) e
sort_desc-perm (Permᴰ.trans h k) = sort_desc-perm h ∙ sort_desc-perm k

length-perm : {xs ys : List Str} → Permᴰ xs ys → length xs ≡ length ys
length-perm Permᴰ.nil = refl
length-perm (Permᴰ.cons e h) = ap suc (length-perm h)
length-perm (Permᴰ.swap e e') = refl
length-perm (Permᴰ.trans h k) = length-perm h ∙ length-perm k

sort_desc-newest_first :
    (dir : Str) (n : ℕ) → n ≤ 10000 → sort_desc (newest_first dir n) ≡ newest_first dir n
unfolding sort_desc
sort_desc-newest_first dir zero h = refl
sort_desc-newest_first dir (suc n) h =
    ap (insert_desc (path_of dir n)) (sort_desc-newest_first dir n (omega arith))
    ∙ insert_top dir n n (omega arith) (omega arith)

length-newest_first : (dir : Str) (n : ℕ) → length (newest_first dir n) ≡ n
length-newest_first dir zero = refl
length-newest_first dir (suc n) = ap suc (length-newest_first dir n)

length-map_paths :
    (dir : Str) (names : List Str)
    → length (map (λ (name : Str). dir ++ (b'/' ∷ name)) names) ≡ length names
length-map_paths dir [] = refl
length-map_paths dir (name ∷ names) = ap suc (length-map_paths dir names)

-- A store that is opened on the directory of another one, of at most 10000 files, has all that was
-- flushed and nothing else, in whatever order the directory lists the files: a get returns what it
-- returned there before, the memtable aside. The new store is valid, so that it can be written on.
pub open_tree-refines :
    (s : LsmTree) (ts : List (List (Str × Str))) (names : List Str) (key : Str)
    → IsValid s ts
    → length ts ≤ 10000
    → Permᴰ (map (λ (name : Str). s.data_dir ++ (b'/' ∷ name)) names) s.sstable_paths
    → (get (open_tree false s.data_dir names s.disk) key ≡ get (record s { memtable = [] }) key)
      × IsValid (open_tree false s.data_dir names s.disk) ts
unfolding open_tree
open_tree-refines s ts names key v few listed = (
  get-newest (open_tree false s.data_dir names s.disk) ts key opened
      ∙ sym (get-newest (record s { memtable = [] }) ts key emptied),
  opened,
)
  where
    emptied : IsValid (record s { memtable = [] }) ts
    emptied = record { paths = v.paths; count = v.count; on_disk = v.on_disk; fits = tt }

    opened : IsValid (open_tree false s.data_dir names s.disk) ts
    opened = record {
      paths =
          sort_desc-perm listed
          ∙ ap sort_desc v.paths
          ∙ sort_desc-newest_first s.data_dir (length ts) few;
      count =
          sym (length-map_paths s.data_dir names)
          ∙ length-perm listed
          ∙ ap length v.paths
          ∙ length-newest_first s.data_dir (length ts);
      on_disk = v.on_disk;
      fits = tt;
    }
