-- ===== src/AgentGuard/Monitor/Handle/Decide.antt =====
-- src/monitor.c: the handlers of the calls that the tracer looks into, the general case, and
-- `ag_monitor_handle_syscall`, which reads the registers and takes the first that answers.
use agent_guard_fast_path.Common.{
  ◌+◌, ◌%◌, ◌^◌, ◌||◌, Option, none, some, [], ◌∷◌, ◌++◌, if◌then◌else◌, pos, negsuc, int_eq, u64,
}
use agent_guard_fast_path.Text.{codes}
use agent_guard_fast_path.AgentGuard.Syscalls.{ag_syscall_name}
use agent_guard_fast_path.AgentGuard.Config.{block, AgPolicy, Config}
use agent_guard_fast_path.AgentGuard.Config.Evaluate.{
  ag_config_get_policy_for_process, ag_policy_evaluate_syscall, ag_policy_evaluate_file,
  ag_policy_evaluate_exec, ag_policy_evaluate_network,
}
use agent_guard_fast_path.AgentGuard.Utils.{ag_strlcpy}
use agent_guard_fast_path.AgentGuard.Audit.{of_syscall, of_process, sev_high, sev_critical}
use agent_guard_fast_path.AgentGuard.Audit.Requests.{
  is_block, ag_audit_add, ag_audit_add_syscall, ag_audit_add_file_op, ag_audit_add_net_op,
}
use agent_guard_fast_path.AgentGuard.Monitor.{resume}
use agent_guard_fast_path.AgentGuard.Monitor.Handle.{
  Handled, Regs, State, Stop, address, blocked, counted, exec_path, host_of, int_of, is_exec,
  is_kill, is_open, open_flags, open_path, port_of,
}

unfoldable pub handle_open : Option AgPolicy → Stop → Regs → State → Option Handled
handle_open policy stop r st =
    let path = open_path stop r in
    if is_block (ag_policy_evaluate_file policy path (open_flags r % 2 ^ 32))
    then some (
        blocked stop.pid (λ m. record m { blocked_files = u64 (m.blocked_files + 1) })
          (ag_audit_add_file_op stop.sys path (int_of (open_flags r)) block) st)
    else none

unfoldable pub handle_exec : Option AgPolicy → Stop → Regs → State → Option Handled
handle_exec policy stop r st =
    let path = exec_path stop r in
    if is_block (ag_policy_evaluate_exec policy path)
    then some (
        blocked stop.pid (λ m. record m { blocked_execs = u64 (m.blocked_execs + 1) })
          (ag_audit_add stop.sys of_process sev_high (some (codes "execve")) (some path)
            (some (codes "BLOQUEAR")) (some (codes "violacion_politica"))
            (some (
              codes "Ejecuci"
              ++ (0xc3 ∷ 0xb3 ∷ codes "n bloqueada por pol")
              ++ (0xc3 ∷ 0xad ∷ codes "tica"))))
          st)
    else none

unfoldable pub handle_connect : Option AgPolicy → Stop → Regs → State → Option Handled
handle_connect policy stop r st =
    let ss = address stop r in
    let host = host_of stop ss in
    if is_block (ag_policy_evaluate_network policy host (port_of ss))
    then some (
        blocked stop.pid (λ m. record m { blocked_net_ops = u64 (m.blocked_net_ops + 1) })
          (ag_audit_add_net_op stop.sys (ag_strlcpy (some host) 64) (port_of ss) block) st)
    else none

unfoldable pub handle_ptrace : Stop → State → Handled
handle_ptrace stop st =
    blocked stop.pid (λ m. m)
      (ag_audit_add stop.sys of_syscall sev_critical (some (codes "ptrace"))
        (some (codes "process")) (some (codes "BLOQUEAR")) (some (codes "violacion_seguridad"))
        (some (
          codes "syscall ptrace bloqueada: posible intento de depuraci"
          ++ (0xc3 ∷ 0xb3 ∷ codes "n"))))
      st

-- A signal to init or to the tracer leaves no entry in the audit.
unfoldable pub handle_kill : Stop → Regs → State → Option Handled
handle_kill stop r st =
    if int_eq (int_of r.rdi) (pos 1) || int_eq (int_of r.rdi) stop.self
    then some (blocked stop.pid (λ m. m) (λ t. (pos 0, t)) st)
    else none

-- The `switch`; `none` where a case breaks out of it. SYS_connect is 42 and SYS_ptrace is 101.
unfoldable pub specific : Option AgPolicy → Stop → Regs → State → Option Handled
specific policy stop r st =
    let n = int_of r.orig_rax in
    if is_open n
    then handle_open policy stop r st
    else if is_exec n
    then handle_exec policy stop r st
    else if int_eq n (pos 42)
    then handle_connect policy stop r st
    else if int_eq n (pos 101)
    then some (handle_ptrace stop st)
    else if is_kill n
    then handle_kill stop r st
    else none

-- The general policy of system calls.
unfoldable pub general : Option AgPolicy → Stop → Regs → State → Handled
general policy stop r st =
    let n = int_of r.orig_rax in
    if is_block (ag_policy_evaluate_syscall policy n)
    then blocked stop.pid (λ m. record m { blocked_syscalls = u64 (m.blocked_syscalls + 1) })
        (ag_audit_add_syscall stop.sys stop.comm (ag_strlcpy (some (ag_syscall_name n)) 64) r.rdi
          r.rsi r.rdx block)
        st
    else record { code = pos 0; state = st; commands = resume stop.pid 0 ∷ [] }

-- What a case answered, or else the general policy.
unfoldable pub or_else : Option Handled → Handled → Handled
or_else (some h) other = h
or_else none other = other

unfoldable pub decide : Option AgPolicy → Stop → Regs → State → Handled
decide policy stop r st = or_else (specific policy stop r st) (general policy stop r st)

-- The handler with the answer of PTRACE_GETREGS.
unfoldable pub with_regs : Config → Stop → State → Option Regs → Handled
with_regs config stop st none = record { code = negsuc 0; state = st; commands = [] }
with_regs config stop st (some r) =
    decide (ag_config_get_policy_for_process config stop.comm) stop r (counted stop.now st)

unfoldable pub ag_monitor_handle_syscall : Config → Stop → State → Handled
ag_monitor_handle_syscall config stop st = with_regs config stop st stop.regs
