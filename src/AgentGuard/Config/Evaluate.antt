-- ===== src/AgentGuard/Config/Evaluate.antt =====
-- src/config.c: the policy that a process gets, and what a policy says of a system call, a file,
-- a program and a destination.
use agent_guard_fast_path.Common.{
  ℕ, Bool, true, false, not, ◌||◌, Option, none, some, List, [], ◌∷◌, Str, str_eq, ◌==◌,
  if◌then◌else◌, is_empty, bit_and, ℤ, int_eq,
}
use agent_guard_fast_path.Text.{codes}
use agent_guard_fast_path.Json.{starts_with}
use agent_guard_fast_path.AgentGuard.Config.{
  Action, AgPolicy, Config, allow, block, nth_policy, policy_named,
}

-- What the default pointer points to.
unfoldable pub default_of : Config → Option AgPolicy
unfolding nth_policy
default_of config = elim (config.default_policy) [
  | none ↦ none
  | some i ↦ nth_policy config.policies i
]

unfoldable pub ag_config_get_policy_for_process : Config → Str → Option AgPolicy
unfolding policy_named
ag_config_get_policy_for_process config comm =
    if is_empty comm
    then default_of config
    else elim (policy_named config.policies comm) [ some p ↦ some p | none ↦ default_of config ]

unfoldable pub int_in : List ℤ → ℤ → Bool
int_in [] n = false
int_in (x ∷ xs) n = if int_eq x n then true else int_in xs n

unfoldable pub str_in : List Str → Str → Bool
str_in [] s = false
str_in (x ∷ xs) s = if str_eq s x then true else str_in xs s

-- `strncmp(path, p, strlen(p)) == 0` for one of the paths
unfoldable pub prefix_in : List Str → Str → Bool
prefix_in [] path = false
prefix_in (p ∷ paths) path = if starts_with path p then true else prefix_in paths path

-- `(flags & O_WRONLY) || (flags & O_RDWR)`
abbrev pub for_writing : ℕ → Bool
for_writing flags = not (bit_and flags 1 == 0) || not (bit_and flags 2 == 0)

-- The loop over the protected paths, with its test of the flags.
unfoldable pub protected_hit : List Str → Str → ℕ → Bool
protected_hit [] path flags = false
protected_hit (p ∷ paths) path flags =
    let rest = protected_hit paths path flags in
    if starts_with path p then (if for_writing flags then true else rest) else rest

unfoldable pub ag_policy_evaluate_syscall : Option AgPolicy → ℤ → Action
unfolding int_in
ag_policy_evaluate_syscall none syscall = allow
ag_policy_evaluate_syscall (some p) syscall =
    if not p.syscall_filter_enabled
    then allow
    else if int_in p.blocked_syscalls syscall
    then block
    else if not (is_empty p.allowed_syscalls)
    then (if int_in p.allowed_syscalls syscall then allow else block)
    else allow

unfoldable pub ag_policy_evaluate_file : Option AgPolicy → Str → ℕ → Action
unfolding protected_hit prefix_in
ag_policy_evaluate_file none path flags = allow
ag_policy_evaluate_file (some p) path flags =
    if not p.file_filter_enabled
    then allow
    else if protected_hit p.protected_paths path flags
    then block
    else if prefix_in p.blocked_paths path
    then block
    else allow

abbrev pub shells : List Str
shells =
    codes "/bin/sh"
    ∷ codes "/bin/bash"
    ∷ codes "/bin/zsh"
    ∷ codes "/bin/dash"
    ∷ codes "/bin/ksh"
    ∷ codes "/bin/csh"
    ∷ codes "/bin/tcsh"
    ∷ codes "/bin/fish"
    ∷ []

unfoldable pub ag_policy_evaluate_exec : Option AgPolicy → Str → Action
unfolding str_in
ag_policy_evaluate_exec none path = allow
ag_policy_evaluate_exec (some p) path =
    if not p.exec_filter_enabled
    then allow
    else if str_in p.blocked_executables path
    then block
    else if p.block_shell_execution
    then (if str_in shells path then block else allow)
    else allow

unfoldable pub ag_policy_evaluate_network : Option AgPolicy → Str → ℤ → Action
unfolding int_in
ag_policy_evaluate_network none host port = allow
ag_policy_evaluate_network (some p) host port =
    if not p.network_filter_enabled
    then allow
    else if p.block_all_outbound
    then block
    else if not (is_empty p.allowed_ports)
    then (if int_in p.allowed_ports port then allow else block)
    else allow
