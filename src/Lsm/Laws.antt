-- ===== src/Lsm/Laws.antt =====
-- The store against a map from keys to values.
use swe_daily_challenge.Base.{
  ℕ, suc, ◌<◌, ◌≤◌, ◌^◌, ◌≡◌, refl, sym, ap, ap₂, ◌∙◌, subst, true, false, Option, none, some, List,
  [], ◌∷◌, ◌++◌, leb, if◌then◌else◌, length, arith, inl, inr, Bool-cases,
}
use swe_daily_challenge.Lsm.Strings.{Str, str_eq, str_eq_refl, str_eq→≡}
use swe_daily_challenge.Lsm.File.{encode, Fits}
use swe_daily_challenge.Lsm.{
  memtable_flush_threshold, LsmTree, set_key, find, sort_desc, path_of, write_sstable, flush,
  maybe_flush, put, del, visible, found_or, get, write_file,
}
use swe_daily_challenge.Lsm.Paths.{path-ne, sort-newest}
use swe_daily_challenge.Lsm.Valid.{OnDisk, IsValid, newest, get-newest}

str_eq_same : (j k k' : Str) → str_eq k k' ≡ true → str_eq j k ≡ str_eq j k'
str_eq_same j k k' h = ap (str_eq j) (str_eq→≡ k k' h)

str_eq_join : (j k k' : Str) → str_eq j k ≡ true → str_eq j k' ≡ true → str_eq k k' ≡ true
str_eq_join j k k' h h' = subst (λ (t : Str). str_eq t k' ≡ true) (str_eq→≡ j k h) h'

-- The memtable after an assignment.
find-set_key :
    (k v j : Str) (m : List (Str × Str))
    → find j (set_key k v m) ≡ (if str_eq j k then some v else find j m)
unfolding find set_key
find-set_key k v j [] = refl
find-set_key k v j ((k', w) ∷ m) =
    ground (arith, find-set_key k v j m, str_eq_same j k k', str_eq_join j k k')

Fits-set_key :
    (k v : Str) (m : List (Str × Str))
    → length k < 2 ^ 32
    → length v < 2 ^ 32
    → Fits m
    → Fits (set_key k v m)
unfolding set_key
Fits-set_key k v [] hk hv h = (hk, hv, tt)
Fits-set_key k v ((k', w) ∷ m) hk hv (hk', hw, h) = ground (arith, Fits-set_key k v m hk hv h)

-- A new table under a higher number leaves the others as they were.
OnDisk-write :
    (dir : Str) (disk : Str → Option Str) (n : ℕ) (bytes : Str) (ts : List (List (Str × Str)))
    → length ts ≤ n
    → n < 10000
    → OnDisk dir disk ts
    → OnDisk dir (write_file disk (path_of dir n) bytes) ts
OnDisk-write dir disk n bytes [] h l on = tt
OnDisk-write dir disk n bytes (t ∷ ts) h l (at, fits, on) = (
  simp (path-ne dir (length ts) n (omega arith) l) at,
  fits,
  OnDisk-write dir disk n bytes ts (omega arith) l on,
)

-- Flushing moves the memtable to the front of the tables.
flush-IsValid :
    (s : LsmTree) (ts : List (List (Str × Str)))
    → IsValid s ts
    → length ts < 10000
    → IsValid (flush true s) (s.memtable ∷ ts)
unfolding flush write_sstable
flush-IsValid s ts v h = record {
  paths =
      ap₂ (λ (ps : List Str) (n : ℕ). sort_desc (ps ++ (path_of s.data_dir n ∷ []))) v.paths v.count
      ∙ sort-newest s.data_dir (length ts) (length ts) (omega arith) h;
  count = ap suc v.count;
  on_disk = (
    ap
          (λ (n : ℕ).
            write_file s.disk (path_of s.data_dir n) (encode s.memtable)
              (path_of s.data_dir (length ts)))
          v.count
        ∙ simp (str_eq_refl (path_of s.data_dir (length ts))) refl,
    v.fits,
    subst
        (λ (n : ℕ).
          OnDisk s.data_dir (write_file s.disk (path_of s.data_dir n) (encode s.memtable)) ts)
        (sym v.count)
        (OnDisk-write s.data_dir s.disk (length ts) (encode s.memtable) ts (omega arith) h
          v.on_disk),
  );
  fits = tt;
}

-- What put does to the tables.
abbrev pub tables_after : LsmTree → List (List (Str × Str)) → List (List (Str × Str))
tables_after s ts = if leb memtable_flush_threshold (length s.memtable) then s.memtable ∷ ts else ts

maybe_flush-IsValid :
    (s : LsmTree) (ts : List (List (Str × Str)))
    → IsValid s ts
    → length ts < 10000
    → IsValid (maybe_flush true s) (tables_after s ts)
unfolding maybe_flush
maybe_flush-IsValid s ts v h =
    elim (Bool-cases (leb memtable_flush_threshold (length s.memtable))) [
      | inl full ↦ simp (maybe_flush, full) (flush-IsValid s ts v h)
      | inr room ↦ simp (maybe_flush, room) v
    ]

get-flush :
    (s : LsmTree) (ts : List (List (Str × Str))) (key : Str)
    → IsValid s ts
    → length ts < 10000
    → get (flush true s) key ≡ newest (s.memtable ∷ ts) key
unfolding flush write_sstable find found_or
get-flush s ts key v h = get-newest (flush true s) (s.memtable ∷ ts) key (flush-IsValid s ts v h)

get-maybe_flush :
    (s : LsmTree) (ts : List (List (Str × Str))) (key : Str)
    → IsValid s ts
    → length ts < 10000
    → get (maybe_flush true s) key ≡ newest (s.memtable ∷ ts) key
unfolding maybe_flush
get-maybe_flush s ts key v h =
    elim (Bool-cases (leb memtable_flush_threshold (length s.memtable))) [
      | inl full ↦ simp (maybe_flush, full) (get-flush s ts key v h)
      | inr room ↦ simp (maybe_flush, room) (get-newest s ts key v)
    ]

newest-set_key :
    (k v : Str) (m : List (Str × Str)) (ts : List (List (Str × Str))) (j : Str)
    → newest (set_key k v m ∷ ts) j ≡ (if str_eq j k then visible v else newest (m ∷ ts) j)
unfolding found_or
newest-set_key k v m ts j = elim (Bool-cases (str_eq j k)) [
  | inl same ↦ simp (find-set_key k v j m, same) refl
  | inr other ↦ simp (find-set_key k v j m, other) refl
]

assigned-IsValid :
    (s : LsmTree) (ts : List (List (Str × Str))) (key value : Str)
    → IsValid s ts
    → length key < 2 ^ 32
    → length value < 2 ^ 32
    → IsValid (record s { memtable = set_key key value s.memtable }) ts
assigned-IsValid s ts key value v hk hv = record {
  paths = v.paths;
  count = v.count;
  on_disk = v.on_disk;
  fits = Fits-set_key key value s.memtable hk hv v.fits;
}

-- While fewer than 10000 files are written, and each of them can be opened, `put` assigns to its key
-- and leaves every other key alone, whether or not it flushes: a get afterwards returns the value,
-- or nothing if the value is the tombstone, and for another key what it returned before. The store
-- stays valid.
pub put-refines :
    (s : LsmTree) (ts : List (List (Str × Str))) (key value j : Str)
    → IsValid s ts
    → length ts < 10000
    → length key < 2 ^ 32
    → length value < 2 ^ 32
    → (get (put true key value s) j ≡ (if str_eq j key then visible value else get s j))
      × IsValid
          (put true key value s)
          (tables_after (record s { memtable = set_key key value s.memtable }) ts)
unfolding put
put-refines s ts key value j v h hk hv = (
  get-maybe_flush (record s { memtable = set_key key value s.memtable }) ts j
        (assigned-IsValid s ts key value v hk hv) h
      ∙ newest-set_key key value s.memtable ts j
      ∙ ap (λ o. if str_eq j key then visible value else o) (sym (get-newest s ts j v)),
  maybe_flush-IsValid (record s { memtable = set_key key value s.memtable }) ts
      (assigned-IsValid s ts key value v hk hv) h,
)

-- Under the same conditions a get behind `del` returns nothing for the key, and for another key what
-- it returned before; and a put of the empty value does the same, since the tombstone is empty.
pub del-refines :
    (s : LsmTree) (ts : List (List (Str × Str))) (key j : Str)
    → IsValid s ts
    → length ts < 10000
    → length key < 2 ^ 32
    → (get (del true key s) j ≡ (if str_eq j key then none else get s j))
      × (get (put true key [] s) j ≡ (if str_eq j key then none else get s j))
unfolding del visible
del-refines s ts key j v h hk =
    let assigned = (put-refines s ts key [] j v h hk (omega arith)).0 in (assigned, assigned)

reached : (n : ℕ) → memtable_flush_threshold ≤ n → leb memtable_flush_threshold n ≡ true
reached n h = ground arith

get-dropped :
    (s : LsmTree) (ts : List (List (Str × Str))) (j : Str)
    → IsValid (record s { memtable = [] }) ts
    → get (flush false s) j ≡ newest ts j
unfolding flush write_sstable find found_or
get-dropped s ts j v = get-newest (record s { memtable = [] }) ts j v

-- When a put reaches the threshold and the file cannot be opened, the memtable is dropped all the
-- same: every key, the one just put included, is back to what the older files say.
pub put_lost :
    (s : LsmTree) (ts : List (List (Str × Str))) (key value j : Str)
    → IsValid s ts
    → memtable_flush_threshold ≤ length (set_key key value s.memtable)
    → get (put false key value s) j ≡ newest ts j
unfolding put maybe_flush
put_lost s ts key value j v full =
    simp (put, maybe_flush, reached (length (set_key key value s.memtable)) full)
      (get-dropped (record s { memtable = set_key key value s.memtable }) ts j dropped)
  where
    dropped : IsValid (record s { memtable = [] }) ts
    dropped = record { paths = v.paths; count = v.count; on_disk = v.on_disk; fits = tt }
