-- ===== src/AgentGuard/Config/Tests.antt =====
-- Concrete decisions.
use mathlib.Core.List.{Memᴰ}
use agent_guard_fast_path.Common.{◌≡◌, ◌↔◌, [], ◌∷◌, pos}
use agent_guard_fast_path.Text.{codes}
use agent_guard_fast_path.AgentGuard.Config.{
  AgPolicy, default_rules, allow, block, ag_config_validate, ag_config_set_defaults,
}
use agent_guard_fast_path.AgentGuard.Config.Evaluate.{
  ag_policy_evaluate_syscall, ag_policy_evaluate_file, ag_policy_evaluate_exec,
  ag_policy_evaluate_network, ag_config_get_policy_for_process,
}
use agent_guard_fast_path.Common.{some}
use agent_guard_fast_path.AgentGuard.Config.Decisions.{
  SyscallBlocked, FileBlocked, ExecBlocked, NetworkBlocked, ag_policy_evaluate_lem,
}
use agent_guard_fast_path.AgentGuard.Config.Lists.{bin_shells}
use agent_guard_fast_path.AgentGuard.Config.Defaults.{dangerous, ag_config_set_defaults_lem}

-- A policy with every kind of list.
abbrev strict : AgPolicy
strict = record default_rules {
  allowed_syscalls = pos 0 ∷ pos 1 ∷ pos 2 ∷ [];
  protected_paths = codes "/etc" ∷ [];
  blocked_paths = codes "/root" ∷ [];
  blocked_executables = codes "/usr/bin/nc" ∷ [];
  allowed_ports = pos 443 ∷ [];
}

ag_policy_evaluate_lem_example :
    ((ag_policy_evaluate_syscall (some strict) (pos 41) ≡ block) ↔ SyscallBlocked strict (pos 41))
    × ((ag_policy_evaluate_file (some strict) (codes "/etc/passwd") 1 ≡ block)
        ↔ FileBlocked strict (codes "/etc/passwd") 1)
    × ((ag_policy_evaluate_exec (some strict) (codes "/etc/passwd") ≡ block)
        ↔ ExecBlocked strict (codes "/etc/passwd"))
    × ((ag_policy_evaluate_network (some strict) (codes "10.0.0.1") (pos 80) ≡ block)
        ↔ NetworkBlocked strict (pos 80))
ag_policy_evaluate_lem_example =
    ag_policy_evaluate_lem strict (pos 41) (codes "/etc/passwd") 1 (codes "10.0.0.1") (pos 80)

ag_config_set_defaults_lem_example :
    (ag_config_validate ag_config_set_defaults ≡ (pos 0, ag_config_set_defaults))
    × ((ag_policy_evaluate_syscall
            (ag_config_get_policy_for_process ag_config_set_defaults (codes "node"))
            (pos 101)
          ≡ block)
        ↔ Memᴰ (pos 101) dangerous)
    × ((ag_policy_evaluate_exec
            (ag_config_get_policy_for_process ag_config_set_defaults (codes "node"))
            (codes "/bin/zsh")
          ≡ block)
        ↔ Memᴰ (codes "/bin/zsh") bin_shells)
    × (ag_policy_evaluate_file
          (ag_config_get_policy_for_process ag_config_set_defaults (codes "node"))
          (codes "/bin/zsh")
          1
        ≡ allow)
    × (ag_policy_evaluate_network
          (ag_config_get_policy_for_process ag_config_set_defaults (codes "node"))
          (codes "10.0.0.1")
          (pos 22)
        ≡ allow)
ag_config_set_defaults_lem_example =
    ag_config_set_defaults_lem (codes "node") (pos 101) (codes "/bin/zsh") 1 (codes "10.0.0.1")
      (pos 22)
