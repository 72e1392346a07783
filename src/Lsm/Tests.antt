-- ===== src/Lsm/Tests.antt =====
-- Small stores, and the theorems on them.
use mathlib.Core.List.{Permᴰ}
use mathlib.Core.List.Permᴰ
use swe_daily_challenge.Base.{
  ◌≡◌, refl, subst, map, ◌++◌, true, false, some, none, List, [], ◌∷◌, if◌then◌else◌, length, suc,
  arith,
}
use swe_daily_challenge.Lsm.{LsmTree, put, del, get, set_key, visible, path_of, open_tree, lsm_main}
use swe_daily_challenge.Lsm.Strings.{Str, str_eq, str_lt}
use swe_daily_challenge.Lsm.File.{encode, read_entries, read_entries-encode}
use swe_daily_challenge.Lsm.Valid.{IsValid}
use swe_daily_challenge.Lsm.Reopen.{open_tree-refines}
use swe_daily_challenge.Lsm.Laws.{tables_after, put-refines, del-refines, put_lost}

abbrev fruits : List (Str × Str)
fruits = (b'a' ∷ [], b'1' ∷ b'2' ∷ []) ∷ (b'b' ∷ [], []) ∷ (b'c' ∷ [], b'3' ∷ []) ∷ []

read_entries-encode_example : read_entries (suc (length (encode fruits))) (encode fruits) ≡ fruits
read_entries-encode_example =
    read_entries-encode fruits
      (omega arith, omega arith, (omega arith, omega arith, (omega arith, omega arith, tt)))

-- Three keys in memory, and no file.
abbrev three_keys : LsmTree
three_keys = record {
  memtable = fruits;
  data_dir = b'd' ∷ [];
  sstable_count = 0;
  sstable_paths = [];
  disk = λ p. none;
}

three_keys-IsValid : IsValid three_keys []
three_keys-IsValid = record {
  paths = refl;
  count = refl;
  on_disk = tt;
  fits = (omega arith, omega arith, (omega arith, omega arith, (omega arith, omega arith, tt)));
}

put-refines_example :
    (get (put true (b'd' ∷ []) (b'4' ∷ []) three_keys) (b'a' ∷ []) ≡ (
      if str_eq (b'a' ∷ []) (b'd' ∷ []) then visible (b'4' ∷ []) else get three_keys (b'a' ∷ [])))
    × IsValid (put true (b'd' ∷ []) (b'4' ∷ []) three_keys) (
        tables_after
          (record three_keys { memtable = set_key (b'd' ∷ []) (b'4' ∷ []) three_keys.memtable })
          [])
put-refines_example =
    put-refines three_keys [] (b'd' ∷ []) (b'4' ∷ []) (b'a' ∷ []) three_keys-IsValid (omega arith)
      (omega arith) (omega arith)

del-refines_example :
    (get (del true (b'a' ∷ []) three_keys) (b'a' ∷ [])
      ≡ (if str_eq (b'a' ∷ []) (b'a' ∷ []) then none else get three_keys (b'a' ∷ [])))
    × (get (put true (b'a' ∷ []) [] three_keys) (b'a' ∷ [])
        ≡ (if str_eq (b'a' ∷ []) (b'a' ∷ []) then none else get three_keys (b'a' ∷ [])))
del-refines_example =
    del-refines three_keys [] (b'a' ∷ []) (b'a' ∷ []) three_keys-IsValid (omega arith) (omega arith)

put_lost_example : get (put false (b'd' ∷ []) (b'4' ∷ []) three_keys) (b'd' ∷ []) ≡ none
unfolding set_key
put_lost_example =
    put_lost three_keys [] (b'd' ∷ []) (b'4' ∷ []) (b'd' ∷ []) three_keys-IsValid (omega arith)

-- After 10000 files the order of the names is not the order of the numbers.
late_name : str_lt (path_of [] 10000) (path_of [] 9999) ≡ true
unfolding path_of
late_name = refl

-- One file, and one key in memory.
abbrev one_file : LsmTree
one_file = record {
  memtable = (b'd' ∷ [], b'4' ∷ []) ∷ [];
  data_dir = b'd' ∷ [];
  sstable_count = 1;
  sstable_paths = path_of (b'd' ∷ []) 0 ∷ [];
  disk = λ p. some (encode fruits);
}

one_file-IsValid : IsValid one_file (fruits ∷ [])
one_file-IsValid = record {
  paths = refl;
  count = refl;
  on_disk = (
    refl,
    (omega arith, omega arith, (omega arith, omega arith, (omega arith, omega arith, tt))),
    tt,
  );
  fits = (omega arith, omega arith, tt);
}

-- sstable_0000.sst
abbrev first_name : Str
first_name =
    b's' ∷ b's' ∷ b't' ∷ b'a' ∷ b'b' ∷ b'l' ∷ b'e' ∷ b'_' ∷ b'0' ∷ b'0' ∷ b'0' ∷ b'0' ∷ b'.' ∷ b's'
    ∷ b's' ∷ b't' ∷ []

listed :
    map (λ (name : Str). one_file.data_dir ++ (b'/' ∷ name)) (first_name ∷ [])
    ≡ one_file.sstable_paths
unfolding path_of
listed = refl

open_tree-refines_example :
    (get (open_tree false one_file.data_dir (first_name ∷ []) one_file.disk) (b'a' ∷ [])
      ≡ get (record one_file { memtable = [] }) (b'a' ∷ []))
    × IsValid (open_tree false one_file.data_dir (first_name ∷ []) one_file.disk) (fruits ∷ [])
open_tree-refines_example =
    open_tree-refines one_file (fruits ∷ []) (first_name ∷ []) (b'a' ∷ []) one_file-IsValid
      (omega arith)
      (subst (Permᴰ (map (λ (name : Str). one_file.data_dir ++ (b'/' ∷ name)) (first_name ∷ [])))
        listed (Permᴰ.refl _))

-- The output that main expects, from an empty directory.
main_output :
    lsm_main (open_tree true (b'd' ∷ []) [] (λ p. none))
    ≡ some (b'v' ∷ b'2' ∷ [])
      ∷ none
      ∷ some (b'r' ∷ b'e' ∷ b'd' ∷ [])
      ∷ some (b's' ∷ b'w' ∷ b'e' ∷ b'e' ∷ b't' ∷ [])
      ∷ some (b'd' ∷ b'a' ∷ b'r' ∷ b'k' ∷ [])
      ∷ none
      ∷ []
unfolding lsm_main open_tree
main_output = refl
