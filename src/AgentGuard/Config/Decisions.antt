-- ===== src/AgentGuard/Config/Decisions.antt =====
-- When a policy blocks.
use mathlib.Core.List.{Memᴰ}
use agent_guard_fast_path.Common.{ℕ, ◌≡◌, ◌↔◌, true, false, some, Str, arith, ◌⊎◌, ℤ, is_empty}
use agent_guard_fast_path.AgentGuard.Config.{block, AgPolicy}
use agent_guard_fast_path.AgentGuard.Config.Evaluate.{
  ag_policy_evaluate_syscall, ag_policy_evaluate_file, ag_policy_evaluate_exec,
  ag_policy_evaluate_network,
}
use agent_guard_fast_path.AgentGuard.Config.Lists.{
  IsPrefix, int_in_iff, str_in_iff, prefix_in_iff, protected_hit_cases, Writes, for_writing_iff,
  bin_shells,
}

-- A blocked number, or one outside a list of allowed ones.
abbrev pub SyscallBlocked : AgPolicy → ℤ → Type 0
SyscallBlocked p n =
    (p.syscall_filter_enabled ≡ true)
    × (Memᴰ n p.blocked_syscalls
        ⊎ ((is_empty p.allowed_syscalls ≡ false) × ¬ Memᴰ n p.allowed_syscalls))

-- Below a protected path for writing, or below a blocked path.
abbrev pub FileBlocked : AgPolicy → Str → ℕ → Type 0
FileBlocked p path flags =
    (p.file_filter_enabled ≡ true)
    × ((Writes flags × ((q : Str) × Memᴰ q p.protected_paths × IsPrefix q path))
        ⊎ ((q : Str) × Memᴰ q p.blocked_paths × IsPrefix q path))

-- A blocked executable, or a shell where shells are blocked.
abbrev pub ExecBlocked : AgPolicy → Str → Type 0
ExecBlocked p path =
    (p.exec_filter_enabled ≡ true)
    × (Memᴰ path p.blocked_executables ⊎ ((p.block_shell_execution ≡ true) × Memᴰ path bin_shells))

-- Every connection, or one to a port outside a list of allowed ones.
abbrev pub NetworkBlocked : AgPolicy → ℤ → Type 0
NetworkBlocked p port =
    (p.network_filter_enabled ≡ true)
    × ((p.block_all_outbound ≡ true)
        ⊎ ((is_empty p.allowed_ports ≡ false) × ¬ Memᴰ port p.allowed_ports))

syscall_lem :
    (p : AgPolicy) (n : ℤ) → (ag_policy_evaluate_syscall (some p) n ≡ block) ↔ SyscallBlocked p n
unfolding ag_policy_evaluate_syscall
syscall_lem p n = ground (arith, int_in_iff p.blocked_syscalls n, int_in_iff p.allowed_syscalls n)

file_lem :
    (p : AgPolicy) (path : Str) (flags : ℕ)
    → (ag_policy_evaluate_file (some p) path flags ≡ block) ↔ FileBlocked p path flags
unfolding ag_policy_evaluate_file
file_lem p path flags = ground (
  arith,
  protected_hit_cases p.protected_paths path flags,
  for_writing_iff flags,
  prefix_in_iff p.protected_paths path,
  prefix_in_iff p.blocked_paths path,
)

exec_lem :
    (p : AgPolicy) (path : Str)
    → (ag_policy_evaluate_exec (some p) path ≡ block) ↔ ExecBlocked p path
unfolding ag_policy_evaluate_exec
exec_lem p path = ground (arith, str_in_iff p.blocked_executables path, str_in_iff bin_shells path)

network_lem :
    (p : AgPolicy) (host : Str) (port : ℤ)
    → (ag_policy_evaluate_network (some p) host port ≡ block) ↔ NetworkBlocked p port
unfolding ag_policy_evaluate_network
network_lem p host port = ground (arith, int_in_iff p.allowed_ports port)

-- The four decisions of a policy block exactly what its rules say: a system call that is blocked or
-- missing from a list of allowed ones, a write below a protected path or any access below a blocked
-- one, a blocked executable or shell, and a connection where none is allowed or to a port that is not.
pub ag_policy_evaluate_lem :
    (p : AgPolicy) (n : ℤ) (path : Str) (flags : ℕ) (host : Str) (port : ℤ)
    → ((ag_policy_evaluate_syscall (some p) n ≡ block) ↔ SyscallBlocked p n)
      × ((ag_policy_evaluate_file (some p) path flags ≡ block) ↔ FileBlocked p path flags)
      × ((ag_policy_evaluate_exec (some p) path ≡ block) ↔ ExecBlocked p path)
      × ((ag_policy_evaluate_network (some p) host port ≡ block) ↔ NetworkBlocked p port)
ag_policy_evaluate_lem p n path flags host port =
    (syscall_lem p n, file_lem p path flags, exec_lem p path, network_lem p host port)
