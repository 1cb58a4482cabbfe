-- ===== src/AgentGuard/Monitor/Handle.antt =====
-- src/monitor.c: what the tracer does at the stop of a system call. The registers, the memory and the
-- process table are answers of the kernel; the text of an address is made by `inet_ntop`.
pub mod Decide
pub mod Verdict
pub mod Mediation
use agent_guard_fast_path.Common.{
  ℕ, zero, suc, ◌+◌, ◌-◌, ◌*◌, ◌%◌, ◌^◌, Bool, true, false, not, ◌&&◌, ◌||◌, Option, none, some,
  List, [], ◌∷◌, ◌++◌, Str, ltb, leb, ◌==◌, if◌then◌else◌, length, get_or, take, drop, ℤ, pos,
  negsuc, int_eq, int_lt, u64,
}
use agent_guard_fast_path.Text.{codes}
use agent_guard_fast_path.AgentGuard.Syscalls.{ag_syscall_name}
use agent_guard_fast_path.AgentGuard.Context.{AgContext, max_path_len, max_comm_len}
use agent_guard_fast_path.AgentGuard.Config.{Action, block, AgPolicy, Config}
use agent_guard_fast_path.AgentGuard.Config.Evaluate.{
  ag_config_get_policy_for_process, ag_policy_evaluate_syscall, ag_policy_evaluate_file,
  ag_policy_evaluate_exec, ag_policy_evaluate_network,
}
use agent_guard_fast_path.AgentGuard.Utils.{ag_strlcpy}
use agent_guard_fast_path.AgentGuard.Audit.{
  System, Trail, of_syscall, of_process, sev_high, sev_critical,
}
use agent_guard_fast_path.AgentGuard.Audit.Requests.{
  is_block, ag_audit_add, ag_audit_add_syscall, ag_audit_add_file_op, ag_audit_add_net_op,
}
use agent_guard_fast_path.AgentGuard.Monitor.{Monitor, Command, set_call, resume}
use agent_guard_fast_path.AgentGuard.Monitor.Tracee.{
  Peeked, ag_monitor_read_string, ag_monitor_read_buffer, ag_monitor_join_path,
}

-- The registers of x86_64 that are read.
pub record Regs : Type 0 where
  pub orig_rax : ℕ
  pub rdi : ℕ
  pub rsi : ℕ
  pub rdx : ℕ
  pub r10 : ℕ
  pub r8 : ℕ
  pub r9 : ℕ

-- The answers of the system at one stop of the process `pid`: `regs` is `none` where PTRACE_GETREGS
-- fails, `comm` is empty where it cannot be read, `fd_path` is what the buffer for the directory of a
-- descriptor holds after the call, `stack` what the buffer of the address holds before it.
pub record Stop : Type 0 where
  pub pid : ℤ
  pub regs : Option Regs
  pub comm : Str
  pub fd_path : ℤ → Str
  pub peek : ℕ → Peeked
  pub stack : List ℕ
  pub inet_ntop : ℕ → List ℕ → Str
  pub self : ℤ
  pub now : ℤ
  pub sys : System

-- The globals that the handler changes.
pub record State : Type 0 where
  pub monitor : Monitor
  pub trail : Trail

pub record Handled : Type 0 where
  pub code : ℤ
  pub state : State
  pub commands : List Command

-- `(int)n` of a `uint64_t`
unfoldable pub int_of : ℕ → ℤ
int_of n = let m = n % 2 ^ 32 in if ltb m (2 ^ 31) then pos m else negsuc (2 ^ 32 - 1 - m)

-- The counters of the event and of the rate.
unfoldable pub counted : ℤ → State → State
counted now st =
    let m = st.monitor in
    let t = st.trail in
    let fresh = int_lt m.last_rate_reset now in
    record {
      monitor = record m {
        total_syscalls = u64 (m.total_syscalls + 1);
        last_rate_reset = if fresh then now else m.last_rate_reset;
        syscall_count_last_sec = u64 ((if fresh then 0 else m.syscall_count_last_sec) + 1);
      };
      trail = record t { ctx = record t.ctx { event_count = u64 (t.ctx.event_count + 1) } };
    }

-- What every branch that blocks does: a count, SYS_getpid (39) for the call, the counter of the branch,
-- the entry of the audit, and the process goes on.
unfoldable pub blocked : ℤ → (Monitor → Monitor) → (Trail → ℤ × Trail) → State → Handled
blocked pid bump audit st =
    let t = st.trail in
    let counted = record t { ctx = record t.ctx { block_count = u64 (t.ctx.block_count + 1) } } in
    record {
      code = pos 0;
      state = record { monitor = bump st.monitor; trail = (audit counted).1 };
      commands = set_call pid 39 ∷ resume pid 0 ∷ [];
    }

-- The path of a call that takes a directory. AT_FDCWD is -100.
unfoldable pub path_at : Stop → ℕ → ℕ → Str
path_at stop dirfd addr =
    let (code, path) = ag_monitor_read_string stop.peek addr max_path_len in
    if int_eq (int_of dirfd) (negsuc 99)
    then path
    else if not (get_or path 0 0 == b'/')
    then ag_strlcpy (some (ag_monitor_join_path [] max_path_len (stop.fd_path (int_of dirfd)) path))
        max_path_len
    else path

abbrev pub is_open : ℤ → Bool
is_open n = int_eq n (pos 2) || int_eq n (pos 257) || int_eq n (pos 85)

abbrev pub is_exec : ℤ → Bool
is_exec n = int_eq n (pos 59) || int_eq n (pos 322)

abbrev pub is_kill : ℤ → Bool
is_kill n = int_eq n (pos 62) || int_eq n (pos 234) || int_eq n (pos 200)

-- SYS_openat is 257; SYS_open and SYS_creat have the path first.
unfoldable pub open_path : Stop → Regs → Str
open_path stop r =
    if int_eq (int_of r.orig_rax) (pos 257)
    then path_at stop r.rdi r.rsi
    else (ag_monitor_read_string stop.peek r.rdi max_path_len).1

unfoldable pub open_flags : Regs → ℕ
open_flags r = if int_eq (int_of r.orig_rax) (pos 257) then r.rdx else r.rsi

-- SYS_execveat is 322.
unfoldable pub exec_path : Stop → Regs → Str
exec_path stop r =
    if int_eq (int_of r.orig_rax) (pos 322)
    then path_at stop r.rdi r.rsi
    else (ag_monitor_read_string stop.peek r.rdi max_path_len).1

-- The 128 bytes of the `sockaddr_storage`.
unfoldable pub address : Stop → Regs → List ℕ
address stop r = (ag_monitor_read_buffer stop.peek r.rsi stop.stack).1

unfoldable pub family : List ℕ → ℕ
family ss = get_or ss 0 0 + 256 * get_or ss 1 0

-- AF_INET is 2 and AF_INET6 is 10; the address stands at the offset 4, or at 8.
unfoldable pub host_of : Stop → List ℕ → Str
host_of stop ss =
    if family ss == 2
    then stop.inet_ntop 2 (take 4 (drop 4 ss))
    else if family ss == 10
    then stop.inet_ntop 10 (take 16 (drop 8 ss))
    else codes "desconocido"

-- The port is in network order.
unfoldable pub port_of : List ℕ → ℤ
port_of ss =
    if family ss == 2 || family ss == 10 then pos (256 * get_or ss 2 0 + get_or ss 3 0) else pos 0
