-- ===== src/Lsm.antt =====
-- A key-value store with a table in memory and sorted files: 08-LSM_tree/main.cpp.
pub mod Strings
pub mod Digits
pub mod File
pub mod Paths
pub mod Valid
pub mod Laws
pub mod Order
pub mod Sort
pub mod Reopen
pub mod Tests
use swe_daily_challenge.Base.{
  ℕ, suc, ◌+◌, Bool, true, false, Option, none, some, List, [], ◌∷◌, ◌++◌, map, leb, if◌then◌else◌,
  length,
}
use swe_daily_challenge.Lsm.Strings.{Str, str_eq, str_lt, decimal, padded}
use swe_daily_challenge.Lsm.File.{encode, read_entries}

abbrev pub memtable_flush_threshold : ℕ
memtable_flush_threshold = 4

-- `std::string TOMBSTONE = "\x00TOMBSTONE\x00"`: the constructor reads up to the first NUL.
abbrev pub tombstone : Str
tombstone = []

-- The members of LSMTree, with the files of the directory.
pub record LsmTree : Type 0 where
  pub memtable : List (Str × Str)
  pub data_dir : Str
  pub sstable_count : ℕ
  pub sstable_paths : List Str
  pub disk : Str → Option Str

-- `memtable_[key] = value`, with the keys in ascending order.
unfoldable pub set_key : Str → Str → List (Str × Str) → List (Str × Str)
set_key k v [] = (k, v) ∷ []
set_key k v ((k', v') ∷ m) =
    let later = set_key k v m in
    if str_eq k k'
    then (k', v) ∷ m
    else (if str_lt k k' then (k, v) ∷ (k', v') ∷ m else (k', v') ∷ later)

-- The first entry with the key.
unfoldable pub find : Str → List (Str × Str) → Option Str
find k [] = none
find k ((k', v) ∷ m) = if str_eq k k' then some v else find k m

-- `std::sort(…, std::greater<>())`
unfoldable pub insert_desc : Str → List Str → List Str
insert_desc p [] = p ∷ []
insert_desc p (q ∷ qs) = let rest = insert_desc p qs in if str_lt p q then q ∷ rest else p ∷ q ∷ qs

unfoldable pub sort_desc : List Str → List Str
unfolding insert_desc
sort_desc [] = []
sort_desc (p ∷ ps) = insert_desc p (sort_desc ps)

-- `/sstable_` and `.sst`
abbrev pub stem : Str
stem = b'/' ∷ b's' ∷ b's' ∷ b't' ∷ b'a' ∷ b'b' ∷ b'l' ∷ b'e' ∷ b'_' ∷ []

abbrev pub extension : Str
extension = b'.' ∷ b's' ∷ b's' ∷ b't' ∷ []

unfoldable pub path_of : Str → ℕ → Str
unfolding decimal padded
path_of dir n = (dir ++ stem) ++ (padded (decimal 10 n) ++ extension)

abbrev pub write_file : (Str → Option Str) → Str → Str → Str → Option Str
write_file disk path bytes p = if str_eq path p then some bytes else disk p

-- `opens` says whether the file can be opened.
unfoldable pub write_sstable : (opens : Bool) → List (Str × Str) → Str → LsmTree → LsmTree
unfolding encode sort_desc
write_sstable true entries path s = record s {
  disk = write_file s.disk path (encode entries);
  sstable_paths = sort_desc (s.sstable_paths ++ (path ∷ []));
  sstable_count = suc s.sstable_count;
}
write_sstable false entries path s = s

unfoldable pub flush : (opens : Bool) → LsmTree → LsmTree
unfolding path_of write_sstable
flush opens s = record (write_sstable opens s.memtable (path_of s.data_dir s.sstable_count) s) {
  memtable = [];
}

unfoldable pub maybe_flush : (opens : Bool) → LsmTree → LsmTree
unfolding flush
maybe_flush opens s = if leb memtable_flush_threshold (length s.memtable) then flush opens s else s

unfoldable pub put : (opens : Bool) → (key value : Str) → LsmTree → LsmTree
unfolding set_key maybe_flush
put opens key value s = maybe_flush opens (record s { memtable = set_key key value s.memtable })

unfoldable pub del : (opens : Bool) → (key : Str) → LsmTree → LsmTree
unfolding put
del opens key s = put opens key tombstone s

-- A file that cannot be opened gives no entries.
unfoldable pub read_sstable : (Str → Option Str) → Str → List (Str × Str)
unfolding read_entries
read_sstable disk path = elim (disk path) [
  | some bytes ↦ read_entries (suc (length bytes)) bytes
  | none ↦ []
]

unfoldable pub visible : Str → Option Str
visible value = if str_eq value tombstone then none else some value

-- What was found ends the search, a tombstone too.
unfoldable pub found_or : Option Str → Option Str → Option Str
unfolding visible
found_or (some value) rest = visible value
found_or none rest = rest

-- The loop of get over the files.
unfoldable pub get_in : (Str → Option Str) → List Str → Str → Option Str
unfolding read_sstable find found_or
get_in disk [] key = none
get_in disk (path ∷ paths) key =
    found_or (find key (read_sstable disk path)) (get_in disk paths key)

unfoldable pub get : LsmTree → Str → Option Str
unfolding find found_or get_in
get s key = found_or (find key s.memtable) (get_in s.disk s.sstable_paths key)

-- The constructor: `names` is what directory_iterator lists, unless the directory was created.
unfoldable pub open_tree : (created : Bool) → Str → List Str → (Str → Option Str) → LsmTree
unfolding sort_desc
open_tree true dir names disk = record {
  memtable = [];
  data_dir = dir;
  sstable_count = 0;
  sstable_paths = [];
  disk = disk;
}
open_tree false dir names disk = record {
  memtable = [];
  data_dir = dir;
  sstable_count = length names;
  sstable_paths = sort_desc (map (λ (name : Str). dir ++ (b'/' ∷ name)) names);
  disk = disk;
}

-- The puts and the del of main, on a tree whose files can be opened.
abbrev pub put_all : List (Str × Str) → LsmTree → LsmTree
put_all [] s = s
put_all ((key, value) ∷ rest) s = put_all rest (put true key value s)

abbrev pub main_puts : List (Str × Str)
main_puts =
    (b'a' ∷ b'p' ∷ b'p' ∷ b'l' ∷ b'e' ∷ [], b'f' ∷ b'r' ∷ b'u' ∷ b'i' ∷ b't' ∷ [])
    ∷ (b'b' ∷ b'a' ∷ b'n' ∷ b'a' ∷ b'n' ∷ b'a' ∷ [], b'y' ∷ b'e' ∷ b'l' ∷ b'l' ∷ b'o' ∷ b'w' ∷ [])
    ∷ (b'c' ∷ b'h' ∷ b'e' ∷ b'r' ∷ b'r' ∷ b'y' ∷ [], b'r' ∷ b'e' ∷ b'd' ∷ [])
    ∷ (b'd' ∷ b'a' ∷ b't' ∷ b'e' ∷ [], b's' ∷ b'w' ∷ b'e' ∷ b'e' ∷ b't' ∷ [])
    ∷ (
      b'e' ∷ b'l' ∷ b'd' ∷ b'e' ∷ b'r' ∷ b'b' ∷ b'e' ∷ b'r' ∷ b'r' ∷ b'y' ∷ [],
      b'd' ∷ b'a' ∷ b'r' ∷ b'k' ∷ [],
    )
    ∷ (b'f' ∷ b'i' ∷ b'g' ∷ [], b'c' ∷ b'h' ∷ b'e' ∷ b'w' ∷ b'y' ∷ [])
    ∷ (b'g' ∷ b'r' ∷ b'a' ∷ b'p' ∷ b'e' ∷ [], b'v' ∷ b'i' ∷ b'n' ∷ b'e' ∷ [])
    ∷ (b'a' ∷ b'p' ∷ b'p' ∷ b'l' ∷ b'e' ∷ [], b'v' ∷ b'2' ∷ [])
    ∷ []

-- `get(…).value_or("NOT FOUND")` for six keys; none is NOT FOUND.
unfoldable pub lsm_main : LsmTree → List (Option Str)
unfolding put get del
lsm_main tree =
    let s = del true (b'b' ∷ b'a' ∷ b'n' ∷ b'a' ∷ b'n' ∷ b'a' ∷ []) (put_all main_puts tree) in
    get s (b'a' ∷ b'p' ∷ b'p' ∷ b'l' ∷ b'e' ∷ [])
    ∷ get s (b'b' ∷ b'a' ∷ b'n' ∷ b'a' ∷ b'n' ∷ b'a' ∷ [])
    ∷ get s (b'c' ∷ b'h' ∷ b'e' ∷ b'r' ∷ b'r' ∷ b'y' ∷ [])
    ∷ get s (b'd' ∷ b'a' ∷ b't' ∷ b'e' ∷ [])
    ∷ get s (b'e' ∷ b'l' ∷ b'd' ∷ b'e' ∷ b'r' ∷ b'b' ∷ b'e' ∷ b'r' ∷ b'r' ∷ b'y' ∷ [])
    ∷ get s (b'm' ∷ b'i' ∷ b's' ∷ b's' ∷ b'i' ∷ b'n' ∷ b'g' ∷ [])
    ∷ []
