-- ===== src/AgentGuard/Monitor.antt =====
-- src/monitor.c: the tracer. This file has its state; Tracee reads the memory of the traced process,
-- Handle decides a system call, Loop is the loop over the stops.
pub mod Tracee
pub mod Handle
pub mod Loop
mod Tests
use agent_guard_fast_path.Common.{
  ℕ, ◌+◌, Bool, true, false, List, [], ◌∷◌, ℤ, pos, int_lt, if◌then◌else◌,
}

-- `ag_mon_state_t`
pub data MonState : Type 0 where
  mon_init mon_attaching mon_running mon_paused mon_detaching mon_stopped mon_error : MonState

-- `ag_monitor_t`
pub record Monitor : Type 0 where
  pub state : MonState
  pub target_pid : ℤ
  pub ptrace_options : ℕ
  pub follow_forks : Bool
  pub follow_vforks : Bool
  pub follow_clones : Bool
  pub total_syscalls : ℕ
  pub blocked_syscalls : ℕ
  pub alerted_syscalls : ℕ
  pub total_files : ℕ
  pub blocked_files : ℕ
  pub total_net_ops : ℕ
  pub blocked_net_ops : ℕ
  pub total_execs : ℕ
  pub blocked_execs : ℕ
  pub syscall_count_last_sec : ℕ
  pub file_op_count_last_sec : ℕ
  pub net_conn_count_last_min : ℕ
  pub last_rate_reset : ℤ

-- What the tracer asks of the kernel: PTRACE_SETREGS with this number in `orig_rax`, PTRACE_SYSCALL
-- with a signal, PTRACE_DETACH, PTRACE_ATTACH and PTRACE_SETOPTIONS, each for a process.
pub data Command : Type 0 where
  set_call : ℤ → ℕ → Command
  resume : ℤ → ℕ → Command
  detach : ℤ → Command
  attach : ℤ → Command
  set_options : ℤ → ℕ → Command

-- The options are PTRACE_O_TRACESYSGOOD, TRACEFORK, TRACEVFORK, TRACECLONE and TRACEEXIT.
unfoldable pub ag_monitor_init : ℤ → ℤ → Monitor
ag_monitor_init target_pid now = record {
  state = mon_init;
  target_pid = target_pid;
  ptrace_options = 0x01 + 0x08 + 0x02 + 0x04 + 0x40;
  follow_forks = true;
  follow_vforks = true;
  follow_clones = true;
  total_syscalls = 0;
  blocked_syscalls = 0;
  alerted_syscalls = 0;
  total_files = 0;
  blocked_files = 0;
  total_net_ops = 0;
  blocked_net_ops = 0;
  total_execs = 0;
  blocked_execs = 0;
  syscall_count_last_sec = 0;
  file_op_count_last_sec = 0;
  net_conn_count_last_min = 0;
  last_rate_reset = now;
}

abbrev pub is_running : MonState → Bool
is_running mon_running = true
is_running _ = false

unfoldable pub ag_monitor_shutdown : Monitor → List Command × Monitor
ag_monitor_shutdown m = (
  if is_running m.state
      then (if int_lt (pos 0) m.target_pid then detach m.target_pid ∷ [] else [])
      else [],
  record m { state = mon_stopped },
)
