-- ===== src/AgentGuard/Integrity.antt =====
-- src/integrity.c: the records of files and the comparison of a file with its record. What `stat` and
-- ag_hash_file answer for a path are parameters; the hash is written in hexadecimal.
pub mod Baseline
mod Tests
use agent_guard_fast_path.Common.{
  ℕ, suc, ◌+◌, Bool, true, false, not, ◌&&◌, ◌||◌, Option, none, some, List, [], ◌∷◌, ◌++◌, Str,
  str_eq, leb, ◌==◌, if◌then◌else◌, length, bit_and, ℤ, pos, negsuc, int_eq,
}
use agent_guard_fast_path.Text.{codes}
use agent_guard_fast_path.AgentGuard.Context.{max_path_len}
use agent_guard_fast_path.AgentGuard.Utils.{ag_strlcpy}

-- `ag_integrity_result_t`
pub data IntegrityResult : Type 0 where
  integrity_ok modified missing added permission_changed owner_changed hash_mismatch :
      IntegrityResult

-- The fields of `struct stat` that are read.
pub record Stat : Type 0 where
  pub mode : ℕ
  pub uid : ℕ
  pub gid : ℕ
  pub size : ℤ
  pub mtime : ℤ
  pub ctime : ℤ

-- `ag_integrity_record_t`
pub record FileRecord : Type 0 where
  pub path : Str
  pub hash : Str
  pub hash_algo : Str
  pub mode : ℕ
  pub uid : ℕ
  pub gid : ℕ
  pub size : ℤ
  pub mtime : ℤ
  pub ctime : ℤ
  pub is_directory : Bool
  pub is_critical : Bool

-- `ag_integrity_db_t`; `records` holds the `record_count` first entries of its array.
pub record IntegrityDb : Type 0 where
  pub records : List FileRecord
  pub db_path : Str
  pub last_check : ℤ
  pub check_interval : ℤ
  pub auto_repair : Bool

-- What the file system answers.
pub record Files : Type 0 where
  pub stat : Str → Option Stat
  pub hash_file : Str → Option Str

unfoldable pub ag_integrity_init : Option Str → IntegrityDb
ag_integrity_init db_path = record {
  records = [];
  db_path = ag_strlcpy db_path max_path_len;
  last_check = pos 0;
  check_interval = pos 300;
  auto_repair = false;
}

-- `S_ISDIR(mode)`
abbrev pub is_dir : ℕ → Bool
is_dir mode = bit_and mode 0xf000 == 0x4000

-- The text for a hash that cannot be computed.
abbrev pub hash_or_error : Option Str → Str
hash_or_error none = codes "ERROR"
hash_or_error (some h) = h

unfoldable pub file_record : Files → Str → Stat → FileRecord
file_record files path st = record {
  path = ag_strlcpy (some path) max_path_len;
  hash = if is_dir st.mode then codes "DIRECTORIO" else hash_or_error (files.hash_file path);
  hash_algo = codes "SHA256";
  mode = st.mode;
  uid = st.uid;
  gid = st.gid;
  size = st.size;
  mtime = st.mtime;
  ctime = st.ctime;
  is_directory = is_dir st.mode;
  is_critical = false;
}

-- `AG_MAX_INTEGRITY_FILES` is 256.
unfoldable pub ag_integrity_add_file : Files → Str → IntegrityDb → ℤ × IntegrityDb
ag_integrity_add_file files path db =
    if leb 256 (length db.records) then (negsuc 0, db) else elim (files.stat path) [
      | none ↦ (negsuc 0, db)
      | some st ↦ (pos 0, record db { records = db.records ++ file_record files path st ∷ [] })
    ]

unfoldable pub find_record : List FileRecord → Str → Option FileRecord
find_record [] path = none
find_record (r ∷ records) path =
    let rest = find_record records path in if str_eq r.path path then some r else rest

-- A hash that can be computed and differs.
unfoldable pub hash_differs : Option Str → Str → Bool
hash_differs none stored = false
hash_differs (some current) stored = not (str_eq current stored)

-- The four comparisons, of which a later one takes the place of an earlier one.
unfoldable pub compare_file : Files → Str → FileRecord → Stat → IntegrityResult
compare_file files path r st =
    let by_size = if not (int_eq st.size r.size) then modified else integrity_ok in
    let by_mode = if not (st.mode == r.mode) then permission_changed else by_size in
    let by_owner =
      if not (st.uid == r.uid) || not (st.gid == r.gid) then owner_changed else by_mode in
    if not r.is_directory && not (str_eq r.hash (codes "DIRECTORIO"))
    then if hash_differs (files.hash_file path) r.hash then hash_mismatch else by_owner
    else by_owner

unfoldable pub ag_integrity_check_file : Files → IntegrityDb → Str → IntegrityResult
ag_integrity_check_file files db path = elim (find_record db.records path) [
  | none ↦ missing
  | some r ↦ elim (files.stat path) [ none ↦ missing | some st ↦ compare_file files path r st ]
]

unfoldable pub is_ok : IntegrityResult → Bool
is_ok integrity_ok = true
is_ok _ = false

-- The loop over the records, and its number of violations.
unfoldable pub check_records : Files → IntegrityDb → List FileRecord → ℕ
check_records files db [] = 0
check_records files db (r ∷ records) =
    let rest = check_records files db records in
    if is_ok (ag_integrity_check_file files db r.path) then rest else suc rest

unfoldable pub ag_integrity_check_all : Files → IntegrityDb → ℕ
ag_integrity_check_all files db = check_records files db db.records
