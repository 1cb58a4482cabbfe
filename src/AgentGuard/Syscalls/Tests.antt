-- ===== src/AgentGuard/Syscalls/Tests.antt =====
-- A lookup in both directions.
use agent_guard_fast_path.Common.{◌≡◌, refl, pos, str_eq}
use agent_guard_fast_path.Text.{codes}
use agent_guard_fast_path.AgentGuard.Syscalls.{
  ag_syscall_name, ag_syscall_number, number_in, syscall_table, entries, split_words, numbered,
}
use agent_guard_fast_path.AgentGuard.Syscalls.Lookup.{ag_syscall_name-ag_syscall_number}

number_of_openat : ag_syscall_number (codes "openat") ≡ pos 257
unfolding ag_syscall_number number_in syscall_table entries split_words numbered str_eq
number_of_openat = refl

ag_syscall_name-ag_syscall_number_example : ag_syscall_name (pos 257) ≡ codes "openat"
ag_syscall_name-ag_syscall_number_example =
    ag_syscall_name-ag_syscall_number (codes "openat") 257 number_of_openat
