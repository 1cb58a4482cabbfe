-- ===== src/AgentGuard/Audit/Requests.antt =====
-- src/audit.c: what a request does to the log: the ring that takes the new entry, the severity that
-- is counted, and the requests for a system call, a file and a connection.
use agent_guard_fast_path.Common.{
  ℕ, ◌+◌, ◌%◌, Bool, true, false, not, ◌&&◌, Option, some, ◌++◌, Str, ltb, leb, if◌then◌else◌, set,
  take, ℤ, pos, negsuc, u64,
}
use agent_guard_fast_path.Text.{codes}
use agent_guard_fast_path.AgentGuard.Config.{Action, block}
use agent_guard_fast_path.AgentGuard.Context.{max_log_entries}
use agent_guard_fast_path.AgentGuard.Utils.{show_lu, show_ld}
use agent_guard_fast_path.AgentGuard.Audit.{
  AuditLog, AuditType, Entry, Severity, System, Trail, new_entry, of_file, of_network, of_syscall,
  sev_high, sev_info, severity_number, write_line,
}

-- The entry is put at the head, and the head and the tail move.
unfoldable pub push_entry : Entry → AuditLog → AuditLog
push_entry e log =
    let stored = record log {
      entries = set log.entries log.head e;
      total_entries = u64 (log.total_entries + 1);
      head = (log.head + 1) % max_log_entries;
    } in
    if ltb log.entry_count max_log_entries
    then record stored { entry_count = log.entry_count + 1 }
    else record stored { tail = (log.tail + 1) % max_log_entries }

-- The trail after the entry.
unfoldable pub recorded : Severity → Entry → Trail → Trail
unfolding write_line push_entry severity_number
recorded severity e t = record t {
  log = push_entry e t.log;
  lines = write_line t.log.log_fd e t.lines;
  ctx =
      if leb 3 (severity_number severity)
      then record t.ctx { alert_count = u64 (t.ctx.alert_count + 1) }
      else t.ctx;
}

unfoldable pub ag_audit_add :
    System
    → AuditType
    → Severity
    → (source target action result details : Option Str) → Trail
    → ℤ × Trail
unfolding new_entry recorded
ag_audit_add sys type severity source target action result details t =
    if leb max_log_entries t.log.entry_count && not t.log.circular then (negsuc 0, t) else (
      pos 0,
      recorded severity
          (new_entry sys t.correlation t.log.total_entries type severity source target action result
            details)
          t,
    )

-- `action == AG_ACTION_BLOCK`
unfoldable pub is_block : Action → Bool
is_block block = true
is_block _ = false

-- What the three wrappers pass for an action.
abbrev pub severity_of : Action → Severity
severity_of a = if is_block a then sev_high else sev_info

abbrev pub verb_of : Action → Option Str
verb_of a = some (if is_block a then codes "BLOQUEAR" else codes "PERMITIR")

abbrev pub outcome_of : Action → Option Str
outcome_of a = some (if is_block a then codes "bloqueado" else codes "permitido")

-- `details` has `AG_MAX_COMM_LEN` bytes; the arguments are the first three.
unfoldable pub ag_audit_add_syscall :
    System → (comm syscall_name : Str) → (arg0 arg1 arg2 : ℕ) → Action → Trail → ℤ × Trail
unfolding ag_audit_add is_block
ag_audit_add_syscall sys comm syscall_name arg0 arg1 arg2 action t =
    let details = take 255 (
      codes "syscall="
      ++ syscall_name
      ++ codes " argumentos=["
      ++ show_lu arg0
      ++ codes ","
      ++ show_lu arg1
      ++ codes ","
      ++ show_lu arg2
      ++ codes "]") in
    ag_audit_add sys of_syscall (severity_of action) (some comm) (some syscall_name)
      (verb_of action) (outcome_of action) (some details) t

unfoldable pub ag_audit_add_file_op : System → Str → ℤ → Action → Trail → ℤ × Trail
unfolding ag_audit_add is_block
ag_audit_add_file_op sys path flags action t =
    let details = take 255 (codes "ruta=" ++ path ++ codes " banderas=" ++ show_ld flags) in
    ag_audit_add sys of_file (severity_of action) (some (codes "acceso_archivo")) (some path)
      (verb_of action) (outcome_of action) (some details) t

-- The fields of the operation that are used: `remote_addr` and `remote_port`.
unfoldable pub ag_audit_add_net_op : System → Str → ℤ → Action → Trail → ℤ × Trail
unfolding ag_audit_add is_block
ag_audit_add_net_op sys remote_addr remote_port action t =
    let details =
      take 255 (codes "host=" ++ remote_addr ++ codes " puerto=" ++ show_ld remote_port) in
    ag_audit_add sys of_network (severity_of action) (some (codes "conexion_red"))
      (some remote_addr) (verb_of action) (outcome_of action) (some details) t
