-- ===== src/AgentGuard/Integrity/Tests.antt =====
-- A small file system.
use agent_guard_fast_path.Common.{◌≡◌, ◌↔◌, arith, none, some, [], ◌∷◌, str_eq, if◌then◌else◌, pos}
use agent_guard_fast_path.Text.{codes}
use agent_guard_fast_path.AgentGuard.Integrity.{
  Stat, Files, integrity_ok, file_record, compare_file, ag_integrity_init, ag_integrity_check_all,
}
use agent_guard_fast_path.AgentGuard.Integrity.Baseline.{
  Unchanged, add_files, compare_file-Unchanged, ag_integrity_check_all-add_files,
}

-- A file and a directory; every other path is missing.
abbrev a_file : Stat
a_file = record { mode = 0x81a4; uid = 0; gid = 0; size = pos 120; mtime = pos 5; ctime = pos 5 }

abbrev a_directory : Stat
a_directory = record a_file { mode = 0x41ed }

abbrev disk : Files
disk = record {
  stat = λ path.
      if str_eq path (codes "/etc/passwd")
      then some a_file
      else if str_eq path (codes "/etc")
      then some a_directory
      else none;
  hash_file = λ path. if str_eq path (codes "/etc/passwd") then some (codes "abc") else none;
}

compare_file-Unchanged_example :
    (compare_file disk
        (codes "/etc/passwd")
        (file_record disk (codes "/etc/passwd") a_file)
        a_directory
      ≡ integrity_ok)
    ↔ Unchanged disk
        (codes "/etc/passwd")
        (file_record disk (codes "/etc/passwd") a_file)
        a_directory
compare_file-Unchanged_example =
    compare_file-Unchanged disk (codes "/etc/passwd")
      (file_record disk (codes "/etc/passwd") a_file) a_directory

ag_integrity_check_all-add_files_example :
    ag_integrity_check_all disk (
      add_files disk
        (codes "/etc" ∷ codes "/etc/passwd" ∷ codes "/gone" ∷ [])
        (ag_integrity_init none))
    ≡ 0
ag_integrity_check_all-add_files_example =
    ag_integrity_check_all-add_files disk (codes "/etc" ∷ codes "/etc/passwd" ∷ codes "/gone" ∷ [])
      none (omega arith, (omega arith, (omega arith, tt)))
