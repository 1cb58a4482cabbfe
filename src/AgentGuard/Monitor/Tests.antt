-- ===== src/AgentGuard/Monitor/Tests.antt =====
-- Concrete stops of a traced process.
use agent_guard_fast_path.Common.{
  ℕ, ◌-◌, ◌≡◌, ◌≢◌, refl, true, false, none, some, List, [], ◌∷◌, arith, inl, inr, get_or, take,
  ltb, if◌then◌else◌, pos, negsuc, replicate,
}
use agent_guard_fast_path.Text.{codes}
use agent_guard_fast_path.AgentGuard.Config.{Config, default_rules, ag_config_init}
use agent_guard_fast_path.AgentGuard.Config.Defaults.{policy_of_defaults}
use agent_guard_fast_path.AgentGuard.Audit.{ag_audit_init}
use agent_guard_fast_path.AgentGuard.Monitor.{ag_monitor_init}
use agent_guard_fast_path.AgentGuard.Monitor.Tracee.{
  Peeked, peek_failed, ag_monitor_read_string, ag_monitor_join_path,
}
use agent_guard_fast_path.AgentGuard.Monitor.Tracee.Strings.{
  bytes_at, string_at, Answers, ag_monitor_read_string-string_at,
}
use agent_guard_fast_path.AgentGuard.Monitor.Tracee.Paths.{joined, ag_monitor_join_path_lem}
use agent_guard_fast_path.AgentGuard.Monitor.Handle.{Regs, Stop, State}
use agent_guard_fast_path.AgentGuard.Monitor.Handle.Decide.{ag_monitor_handle_syscall}
use agent_guard_fast_path.AgentGuard.Monitor.Handle.Mediation.{
  Settles, ag_monitor_handle_syscall-Settles,
}
use agent_guard_fast_path.AgentGuard.Monitor.Loop.{exited, stopped_by, Round, monitor_loop}
use agent_guard_fast_path.AgentGuard.Monitor.Loop.Progress.{
  Ending, some_ends, ends, monitor_loop-Ending,
}
use agent_guard_fast_path.AgentGuard.Monitor.Loop.Resumes.{resumed, stops, monitor_loop-resumed}

-- A memory that holds a path at the address 4096.
abbrev memory : ℕ → ℕ
memory addr = if ltb addr 4096 then 0 else get_or (codes "/bin/bash") (addr - 4096) 0

abbrev peek : ℕ → Peeked
peek addr = record { bytes = bytes_at memory addr 8; errno = false }

peek-Answers : Answers memory peek
unfolding peek_failed
peek-Answers addr = (refl, ground arith)

ag_monitor_read_string-string_at_example :
    ag_monitor_read_string peek 4096 64 ≡ (pos 0, string_at memory 4096 (64 - 1))
ag_monitor_read_string-string_at_example =
    ag_monitor_read_string-string_at memory peek 4096 64 peek-Answers

ag_monitor_join_path_lem_example :
    ag_monitor_join_path [] 4096 (codes "/etc") (codes "shadow")
    ≡ take (4096 - 1) (joined (codes "/etc") (codes "shadow"))
ag_monitor_join_path_lem_example =
    ag_monitor_join_path_lem [] (codes "/etc") (codes "shadow") 4096 (omega arith)

-- An execve of /bin/bash.
abbrev execve : Regs
execve = record { orig_rax = 59; rdi = 4096; rsi = 0; rdx = 0; r10 = 0; r8 = 0; r9 = 0 }

abbrev at_execve : Stop
at_execve = record {
  pid = pos 77;
  regs = some execve;
  comm = codes "agent";
  fd_path = λ fd. [];
  peek = peek;
  stack = replicate 128 0;
  inet_ntop = λ family bytes. codes "10.0.0.1";
  self = pos 42;
  now = pos 1000;
  sys = record {
    timestamp = codes "2026-05-23 10:00:00";
    pid = pos 42;
    uid = 0;
    gid = 0;
    pw_name = some (codes "root");
    sha256 = λ s. replicate 32 0;
  };
}

abbrev at_start : State
at_start = record {
  monitor = ag_monitor_init (pos 77) (pos 999);
  trail = record {
    log = (ag_audit_init none (pos 0)).1;
    correlation = [];
    ctx = record {
      target_pid = pos 77;
      target_comm = codes "agent";
      interactive_mode = false;
      audit_mode = false;
      integrity_mode = false;
      network_mode = false;
      config_path = [];
      log_path = [];
      report_path = [];
      log_fd = negsuc 0;
      running = true;
      event_count = 0;
      block_count = 0;
      alert_count = 0;
      start_time = pos 0;
    };
    lines = [];
  };
}

abbrev started : Config
started = (ag_config_init []).1

ag_monitor_handle_syscall-Settles_example :
    Settles default_rules at_execve at_start execve
      (ag_monitor_handle_syscall started at_execve at_start)
ag_monitor_handle_syscall-Settles_example =
    ag_monitor_handle_syscall-Settles started at_execve at_start execve default_rules refl
      (policy_of_defaults [] (codes "agent"))

-- The system call, a signal, and the end of another process.
abbrev rounds : List Round
rounds =
    record { running = true; wait = stopped_by 133 at_execve }
    ∷ record { running = true; wait = stopped_by 10 at_execve }
    ∷ record { running = true; wait = exited (pos 78) }
    ∷ []

monitor_loop-Ending_example :
    Ending at_start.monitor.target_pid rounds (monitor_loop started at_start rounds)
monitor_loop-Ending_example = monitor_loop-Ending started at_start rounds

no_round_ends : some_ends at_start.monitor.target_pid rounds ≡ false
unfolding some_ends ends ag_monitor_init
no_round_ends = refl

ten_is_no_call : (sig : ℕ) → sig ≡ 10 → sig ≢ 133
ten_is_no_call sig ten e = omega arith

monitor_loop-resumed_example :
    resumed (monitor_loop started at_start rounds).commands ≡ stops rounds
monitor_loop-resumed_example =
    monitor_loop-resumed started at_start rounds
      (inr (execve, refl), (inl (ten_is_no_call 10 refl), (tt, tt))) no_round_ends
