-- ===== src/AgentGuard/Integrity/Baseline.antt =====
-- A file against its record.
use agent_guard_fast_path.Common.{
  ◌<◌, ◌≡◌, ◌↔◌, refl, sym, ap, subst, ◌∙◌, true, false, Option, none, some, List, [], ◌∷◌, ◌++◌,
  Str, str_eq, str_eq_iff, leb, arith, if◌then◌else◌, Bool-cases, inl, inr, ◌⊎◌, length, take_all,
  append_assoc, All, int_eq_iff,
}
use agent_guard_fast_path.Text.{codes}
use agent_guard_fast_path.AgentGuard.Context.{max_path_len}
use agent_guard_fast_path.AgentGuard.Utils.{ag_strlcpy}
use agent_guard_fast_path.AgentGuard.Integrity.{
  integrity_ok, Stat, FileRecord, IntegrityDb, Files, is_dir, hash_or_error, file_record,
  ag_integrity_add_file, find_record, hash_differs, compare_file, ag_integrity_check_file, is_ok,
  check_records, ag_integrity_check_all, ag_integrity_init,
}

-- The hash is not compared, cannot be computed, or is the recorded one.
abbrev pub SameHash : Files → Str → FileRecord → Type 0
SameHash files path r =
    (r.is_directory ≡ true)
    ⊎ (r.hash ≡ codes "DIRECTORIO")
    ⊎ (files.hash_file path ≡ none)
    ⊎ (files.hash_file path ≡ some r.hash)

-- What a record says of its file still holds.
abbrev pub Unchanged : Files → Str → FileRecord → Stat → Type 0
Unchanged files path r st =
    (st.size ≡ r.size)
    × (st.mode ≡ r.mode)
    × (st.uid ≡ r.uid)
    × (st.gid ≡ r.gid)
    × SameHash files path r

some_iff : (s t : Str) → (◌≡◌ {A = Option Str} (some s) (some t)) ↔ (s ≡ t)
some_iff s t = (λ e. ap (λ (o : Option Str). elim o [ none ↦ s | some v ↦ v ]) e, ap some)

hash_differs_iff :
    (o : Option Str) (stored : Str)
    → (hash_differs o stored ≡ false) ↔ ((o ≡ none) ⊎ (o ≡ some stored))
unfolding hash_differs
hash_differs_iff none stored = (λ e. inl refl, λ h. refl)
hash_differs_iff (some current) stored =
    ground (arith, str_eq_iff current stored, some_iff current stored)

-- The comparison answers that a file is intact exactly if its size, its mode, its owner and its group are
-- the recorded ones, and the record is that of a directory, or the hash of the file cannot be computed
-- now, or it is the recorded one.
pub compare_file-Unchanged :
    (files : Files) (path : Str) (r : FileRecord) (st : Stat)
    → (compare_file files path r st ≡ integrity_ok) ↔ Unchanged files path r st
unfolding compare_file
compare_file-Unchanged files path r st = ground (
  arith,
  int_eq_iff st.size r.size,
  str_eq_iff r.hash (codes "DIRECTORIO"),
  hash_differs_iff (files.hash_file path) r.hash,
)

-- The file of a record is there and unchanged.
abbrev pub Fresh : Files → FileRecord → Type 0
Fresh files r = (st : Stat) × (files.stat r.path ≡ some st) × Unchanged files r.path r st

same_hash : (h : Option Str) → (h ≡ none) ⊎ (h ≡ some (hash_or_error h))
same_hash none = inl refl
same_hash (some h) = inr refl

strlcpy_whole :
    (path : Str) → length path < max_path_len → ag_strlcpy (some path) max_path_len ≡ path
unfolding ag_strlcpy
strlcpy_whole path h = ground (arith, take_all (length path) path)

file_record-Fresh :
    (files : Files) (path : Str) (st : Stat)
    → length path < max_path_len
    → files.stat path ≡ some st
    → Fresh files (file_record files path st)
unfolding file_record
file_record-Fresh files path st short there =
    rw (strlcpy_whole path short) (st, there, (refl, refl, refl, refl, hashed))
  where
    hashed :
        (is_dir st.mode ≡ true)
        ⊎ ((if is_dir st.mode then codes "DIRECTORIO" else hash_or_error (files.hash_file path))
            ≡ codes "DIRECTORIO")
        ⊎ (files.hash_file path ≡ none)
        ⊎ (files.hash_file path
            ≡ some (
                if is_dir st.mode
                then codes "DIRECTORIO"
                else hash_or_error (files.hash_file path)))
    hashed = elim (Bool-cases (is_dir st.mode)) [
      | inl e ↦ inl e
      | inr e ↦ inr (inr (rw e (same_hash (files.hash_file path))))
    ]

All-end :
    (files : Files) (rs : List FileRecord) (r : FileRecord)
    → All (Fresh files) rs
    → Fresh files r
    → All (Fresh files) (rs ++ r ∷ [])
All-end files [] r h fresh = (fresh, tt)
All-end files (x ∷ rs) r (first, h) fresh = (first, All-end files rs r h fresh)

stat_cases : (o : Option Stat) → (o ≡ none) ⊎ ((st : Stat) × (o ≡ some st))
stat_cases none = inl refl
stat_cases (some st) = inr (st, refl)

-- The records after a file was added, or was not.
module _ (files : Files) (path : Str) (db : IntegrityDb) where
  records_full :
      leb 256 (length db.records) ≡ true
      → (ag_integrity_add_file files path db).1.records ≡ db.records
  unfolding ag_integrity_add_file
  records_full e = ground (arith, e)

  records_gone :
      leb 256 (length db.records) ≡ false
      → files.stat path ≡ none
      → (ag_integrity_add_file files path db).1.records ≡ db.records
  unfolding ag_integrity_add_file
  records_gone e gone = ground (arith, e, gone)

  records_added :
      (st : Stat)
      → leb 256 (length db.records) ≡ false
      → files.stat path ≡ some st
      → (ag_integrity_add_file files path db).1.records
        ≡ db.records ++ file_record files path st ∷ []
  unfolding ag_integrity_add_file
  records_added st e there = ground (arith, e, there)

  add_file-Fresh :
      length path < max_path_len
      → All (Fresh files) db.records
      → All (Fresh files) (ag_integrity_add_file files path db).1.records
  add_file-Fresh short h = elim (Bool-cases (leb 256 (length db.records))) [
    | inl e ↦ subst (All (Fresh files)) (sym (records_full e)) h
    | inr e ↦ elim (stat_cases (files.stat path)) [
      | inl gone ↦ subst (All (Fresh files)) (sym (records_gone e gone)) h
      | inr (st, there) ↦ subst (All (Fresh files)) (sym (records_added st e there)) (
          All-end files db.records (file_record files path st) h
            (file_record-Fresh files path st short there))
    ]
  ]

-- The first record of a path is found, and it is fresh too.
find_record-Fresh :
    (files : Files) (before after : List FileRecord) (r : FileRecord)
    → All (Fresh files) (before ++ r ∷ after)
    → (found : FileRecord) × (find_record (before ++ r ∷ after) r.path ≡ some found)
      × (found.path ≡ r.path)
      × Fresh files found
unfolding find_record
find_record-Fresh files [] after r (fresh, h) =
    (r, rw ((str_eq_iff r.path r.path).1 refl) refl, refl, fresh)
find_record-Fresh files (x ∷ before) after r (fresh, h) = elim (Bool-cases (str_eq x.path r.path)) [
  | inl e ↦ (x, rw e refl, (str_eq_iff x.path r.path).0 e, fresh)
  | inr e ↦
      let (found, finds, same, holds) = find_record-Fresh files before after r h in
      (found, rw e finds, same, holds)
]

check_file-ok :
    (files : Files) (db : IntegrityDb) (path : Str) (r : FileRecord)
    → find_record db.records path ≡ some r
    → r.path ≡ path
    → Fresh files r
    → ag_integrity_check_file files db path ≡ integrity_ok
unfolding ag_integrity_check_file
check_file-ok files db path r found same (st, there, unchanged) = ground (
  arith,
  found,
  same,
  there,
  (compare_file-Unchanged files path r st).1
      (subst (λ (p : Str). Unchanged files p r st) same unchanged),
  sym (ap files.stat same) ∙ there,
)

check_records-Fresh :
    (files : Files) (db : IntegrityDb) (before after : List FileRecord)
    → db.records ≡ before ++ after
    → All (Fresh files) db.records
    → check_records files db after ≡ 0
unfolding check_records is_ok
check_records-Fresh files db before [] split h = refl
check_records-Fresh files db before (r ∷ after) split h =
    let (found, finds, same, fresh) =
      find_record-Fresh files before after r (subst (All (Fresh files)) split h) in
    let ok =
      check_file-ok files db r.path found
        (ap (λ (rs : List FileRecord). find_record rs r.path) split ∙ finds) same fresh in
    rw ok (
      check_records-Fresh files db (before ++ r ∷ []) after
        (split ∙ sym (append_assoc before (r ∷ []) after)) h)

-- The files are added one after the other; those that cannot be are skipped.
abbrev pub add_files : Files → List Str → IntegrityDb → IntegrityDb
add_files files [] db = db
add_files files (path ∷ paths) db = add_files files paths (ag_integrity_add_file files path db).1

add_files-Fresh :
    (files : Files) (paths : List Str) (db : IntegrityDb)
    → All (λ (path : Str). length path < max_path_len) paths
    → All (Fresh files) db.records
    → All (Fresh files) (add_files files paths db).records
add_files-Fresh files [] db short h = h
add_files-Fresh files (path ∷ paths) db (first, short) h =
    add_files-Fresh files paths (ag_integrity_add_file files path db).1 short
      (add_file-Fresh files path db first h)

-- Files that were recorded, paths below 4096 bytes and in any number, give no violation as long as the
-- file system answers the same: directories, files that cannot be hashed and files that were recorded
-- twice included.
pub ag_integrity_check_all-add_files :
    (files : Files) (paths : List Str) (db_path : Option Str)
    → All (λ (path : Str). length path < max_path_len) paths
    → ag_integrity_check_all files (add_files files paths (ag_integrity_init db_path)) ≡ 0
unfolding ag_integrity_check_all
ag_integrity_check_all-add_files files paths db_path short =
    let db = add_files files paths (ag_integrity_init db_path) in
    check_records-Fresh files db [] db.records refl (
      add_files-Fresh files paths (ag_integrity_init db_path) short
        (unfold ag_integrity_init in tt))
