-- ===== src/AgentGuard/Context.antt =====
-- src/include/agentguard.h: the global context of agentguard, `g_ctx`, and the limits.
use agent_guard_fast_path.Common.{ℕ, Bool, Str, ℤ}

pub record AgContext : Type 0 where
  pub target_pid : ℤ
  pub target_comm : Str
  pub interactive_mode : Bool
  pub audit_mode : Bool
  pub integrity_mode : Bool
  pub network_mode : Bool
  pub config_path : Str
  pub log_path : Str
  pub report_path : Str
  pub log_fd : ℤ
  pub running : Bool
  pub event_count : ℕ
  pub block_count : ℕ
  pub alert_count : ℕ
  pub start_time : ℤ

abbrev pub max_path_len : ℕ
max_path_len = 4096

abbrev pub max_comm_len : ℕ
max_comm_len = 256

abbrev pub max_log_entries : ℕ
max_log_entries = 10000

abbrev pub max_report_size : ℕ
max_report_size = 65536
