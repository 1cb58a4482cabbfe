-- ===== src/AgentGuard/Config/Defaults.antt =====
-- What the configuration that agentguard starts with decides.
use mathlib.Core.List.{Memᴰ}
use agent_guard_fast_path.Common.{ℕ, ◌≡◌, ◌↔◌, refl, sym, some, List, [], ◌∷◌, Str, arith, ℤ, pos}
use agent_guard_fast_path.AgentGuard.Config.{
  allow, block, default_rules, ag_config_init, ag_config_validate, ag_config_set_defaults,
  nth_policy, policy_named,
}
use agent_guard_fast_path.AgentGuard.Config.Evaluate.{
  str_in, protected_hit, prefix_in, shells, ag_policy_evaluate_syscall, ag_policy_evaluate_file,
  ag_policy_evaluate_exec, ag_policy_evaluate_network, ag_config_get_policy_for_process, default_of,
}
use agent_guard_fast_path.AgentGuard.Config.Lists.{
  int_in_iff, str_in_iff, bin_shells, shells-bin_shells,
}

-- ptrace, personality, init_module, delete_module, kexec_load, kexec_file_load, bpf and
-- perf_event_open, by their numbers on x86-64.
abbrev pub dangerous : List ℤ
dangerous = pos 101 ∷ pos 135 ∷ pos 175 ∷ pos 176 ∷ pos 246 ∷ pos 320 ∷ pos 321 ∷ pos 298 ∷ []

blocked_syscalls-dangerous : default_rules.blocked_syscalls ≡ dangerous
unfolding default_rules
blocked_syscalls-dangerous = refl

pub policy_of_defaults :
    (path comm : Str)
    → ag_config_get_policy_for_process (ag_config_init path).1 comm ≡ some default_rules
unfolding ag_config_get_policy_for_process ag_config_init ag_config_validate ag_config_set_defaults
    default_of nth_policy policy_named
policy_of_defaults path comm = ground arith

default_policy :
    (comm : Str) → ag_config_get_policy_for_process ag_config_set_defaults comm ≡ some default_rules
unfolding ag_config_get_policy_for_process ag_config_set_defaults default_of nth_policy policy_named
default_policy comm = ground arith

default_syscall :
    (n : ℤ) → (ag_policy_evaluate_syscall (some default_rules) n ≡ block) ↔ Memᴰ n dangerous
unfolding ag_policy_evaluate_syscall
default_syscall n =
    rw (sym blocked_syscalls-dangerous)
      (unfold default_rules in ground (arith, int_in_iff default_rules.blocked_syscalls n))

default_exec :
    (file : Str)
    → (ag_policy_evaluate_exec (some default_rules) file ≡ block) ↔ Memᴰ file bin_shells
unfolding ag_policy_evaluate_exec default_rules str_in
default_exec file = rw (sym shells-bin_shells) (ground (arith, str_in_iff shells file))

defaults_valid : ag_config_validate ag_config_set_defaults ≡ (pos 0, ag_config_set_defaults)
unfolding ag_config_validate ag_config_set_defaults
defaults_valid = refl

default_file :
    (file : Str) (flags : ℕ) → ag_policy_evaluate_file (some default_rules) file flags ≡ allow
unfolding ag_policy_evaluate_file default_rules protected_hit prefix_in
default_file file flags = refl

default_network :
    (host : Str) (port : ℤ) → ag_policy_evaluate_network (some default_rules) host port ≡ allow
unfolding ag_policy_evaluate_network default_rules
default_network host port = refl

-- The default configuration, with which agentguard starts when it is given no file, is valid as it is,
-- and it decides the same for every process: exactly the system calls ptrace, personality, init_module, delete_module,
-- kexec_load, kexec_file_load, bpf and perf_event_open are blocked, exactly the shells sh, bash, zsh,
-- dash, ksh, csh, tcsh and fish of /bin cannot be executed, and no file and no connection is blocked.
pub ag_config_set_defaults_lem :
    (comm : Str) (n : ℤ) (file : Str) (flags : ℕ) (host : Str) (port : ℤ)
    → (ag_config_validate ag_config_set_defaults ≡ (pos 0, ag_config_set_defaults))
      × ((ag_policy_evaluate_syscall
              (ag_config_get_policy_for_process ag_config_set_defaults comm)
              n
            ≡ block)
          ↔ Memᴰ n dangerous)
      × ((ag_policy_evaluate_exec
              (ag_config_get_policy_for_process ag_config_set_defaults comm)
              file
            ≡ block)
          ↔ Memᴰ file bin_shells)
      × (ag_policy_evaluate_file
            (ag_config_get_policy_for_process ag_config_set_defaults comm)
            file
            flags
          ≡ allow)
      × (ag_policy_evaluate_network
            (ag_config_get_policy_for_process ag_config_set_defaults comm)
            host
            port
          ≡ allow)
ag_config_set_defaults_lem comm n file flags host port = rw (default_policy comm) (
  defaults_valid,
  default_syscall n,
  default_exec file,
  default_file file flags,
  default_network host port,
)
