-- ===== src/AgentGuard/Config.antt =====
-- src/config.c: the configuration of agentguard and the decisions of its policies. An `int` is a ℤ,
-- an array with its count a list. `flags` are the bits of an `int` as a natural number. A pointer
-- into `policies` is an index, `none` for NULL.
pub mod Evaluate
pub mod Lists
pub mod Decisions
pub mod Defaults
mod Tests
use mathlib.Core.Option
use agent_guard_fast_path.Common.{
  ℕ, zero, suc, Bool, true, false, not, ◌&&◌, ◌||◌, Option, none, some, List, [], ◌∷◌, ◌++◌, Str,
  str_eq, ◌==◌, if◌then◌else◌, is_empty, length, bit_and, ℤ, pos, negsuc, int_eq,
}
use agent_guard_fast_path.Text.{codes}
use agent_guard_fast_path.Json.{starts_with}

-- `ag_action_t` and `ag_scope_t`
pub data Action : Type 0 where
  allow block alert log kill : Action

pub data Scope : Type 0 where
  global process user cgroup : Scope

-- `ag_log_level_t`
pub data LogLevel : Type 0 where
  debug info warn error fatal audit : LogLevel

-- `ag_policy_t`
pub record AgPolicy : Type 0 where
  pub name : Str
  pub action : Action
  pub scope : Scope
  pub syscall_filter_enabled : Bool
  pub allowed_syscalls : List ℤ
  pub blocked_syscalls : List ℤ
  pub file_filter_enabled : Bool
  pub allowed_paths : List Str
  pub blocked_paths : List Str
  pub protected_paths : List Str
  pub network_filter_enabled : Bool
  pub allowed_hosts : List Str
  pub allowed_ports : List ℤ
  pub block_all_outbound : Bool
  pub exec_filter_enabled : Bool
  pub allowed_executables : List Str
  pub blocked_executables : List Str
  pub block_shell_execution : Bool
  pub block_script_execution : Bool
  pub integrity_enabled : Bool
  pub integrity_files : List Str
  pub integrity_hashes : List Str
  pub resource_limits_enabled : Bool
  pub max_memory_mb : ℕ
  pub max_cpu_percent : ℕ
  pub max_file_size_mb : ℕ
  pub max_open_fds : ℤ
  pub max_processes : ℤ
  pub rate_limit_enabled : Bool
  pub max_syscalls_per_sec : ℤ
  pub max_file_ops_per_sec : ℤ
  pub max_net_conns_per_min : ℤ

-- `ag_config_t`
pub record Config : Type 0 where
  pub agent_name : Str
  pub agent_version : Str
  pub description : Str
  pub log_level : LogLevel
  pub log_file : Str
  pub audit_file : Str
  pub report_file : Str
  pub daemon_mode : Bool
  pub color_output : Bool
  pub json_output : Bool
  pub monitor_syscalls : Bool
  pub monitor_files : Bool
  pub monitor_network : Bool
  pub monitor_processes : Bool
  pub monitor_integrity : Bool
  pub heartbeat_interval_sec : ℤ
  pub snapshot_interval_sec : ℤ
  pub enforce_policies : Bool
  pub kill_on_violation : Bool
  pub alert_on_anomaly : Bool
  pub alert_threshold : ℤ
  pub auto_block_repeat_offenders : Bool
  pub block_duration_sec : ℤ
  pub policies : List AgPolicy
  pub default_policy : Option ℕ
  pub whitelisted_users : List Str
  pub blacklisted_users : List Str

-- The policy that `ag_config_set_defaults` makes; what it does not set is cleared.
unfoldable pub default_rules : AgPolicy
default_rules = record {
  name = codes "default";
  action = allow;
  scope = global;
  syscall_filter_enabled = true;
  allowed_syscalls = [];
  blocked_syscalls =
      pos 101 ∷ pos 135 ∷ pos 175 ∷ pos 176 ∷ pos 246 ∷ pos 320 ∷ pos 321 ∷ pos 298 ∷ [];
  file_filter_enabled = true;
  allowed_paths = [];
  blocked_paths = [];
  protected_paths = [];
  network_filter_enabled = true;
  allowed_hosts = [];
  allowed_ports = [];
  block_all_outbound = false;
  exec_filter_enabled = true;
  allowed_executables = [];
  blocked_executables = [];
  block_shell_execution = true;
  block_script_execution = false;
  integrity_enabled = false;
  integrity_files = [];
  integrity_hashes = [];
  resource_limits_enabled = false;
  max_memory_mb = 0;
  max_cpu_percent = 0;
  max_file_size_mb = 0;
  max_open_fds = pos 0;
  max_processes = pos 0;
  rate_limit_enabled = false;
  max_syscalls_per_sec = pos 0;
  max_file_ops_per_sec = pos 0;
  max_net_conns_per_min = pos 0;
}

-- "Política" of the description is spelled in UTF-8.
unfoldable pub ag_config_set_defaults : Config
ag_config_set_defaults = record {
  agent_name = codes "agentguard-default";
  agent_version = codes "1.0.0";
  description =
      codes "Pol" ++ (0xc3 ∷ 0xad ∷ codes "tica de seguridad predeterminada para agentes de IA");
  log_level = info;
  log_file = codes "/var/log/agentguard.log";
  audit_file = codes "/var/log/agentguard-audit.log";
  report_file = codes "/var/log/agentguard-report.json";
  daemon_mode = false;
  color_output = false;
  json_output = false;
  monitor_syscalls = true;
  monitor_files = true;
  monitor_network = true;
  monitor_processes = true;
  monitor_integrity = false;
  heartbeat_interval_sec = pos 60;
  snapshot_interval_sec = pos 300;
  enforce_policies = true;
  kill_on_violation = false;
  alert_on_anomaly = true;
  alert_threshold = pos 10;
  auto_block_repeat_offenders = true;
  block_duration_sec = pos 300;
  policies = default_rules ∷ [];
  default_policy = some 0;
  whitelisted_users = [];
  blacklisted_users = [];
}

-- The result, -1 or 0, and the configuration.
unfoldable pub ag_config_validate : Config → ℤ × Config
ag_config_validate config =
    if is_empty config.policies then (negsuc 0, config) else elim (config.default_policy) [
      | none ↦ (pos 0, record config { default_policy = some 0 })
      | some i ↦ (pos 0, config)
    ]

-- The configuration file is not read: a path only makes a line in the log.
unfoldable pub ag_config_init : Str → ℤ × Config
ag_config_init path = ag_config_validate ag_config_set_defaults

-- The policies are thrown away before they are made again.
unfoldable pub ag_config_reload : Str → ℤ × Config
ag_config_reload path = ag_config_init path

nth_policy : List AgPolicy → ℕ → Option AgPolicy
nth_policy [] i = none
nth_policy (p ∷ policies) zero = some p
nth_policy (p ∷ policies) (suc i) = nth_policy policies i

policy_named : List AgPolicy → Str → Option AgPolicy
policy_named [] comm = none
policy_named (p ∷ policies) comm = if str_eq p.name comm then some p else policy_named policies comm
