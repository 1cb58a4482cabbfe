-- ===== src/AgentGuard/Audit.antt =====
-- src/audit.c: the audit log of agentguard, a ring of `AG_MAX_LOG_ENTRIES` entries of which each is
-- written as a line of JSON too. An entry's fields that no operation sets are left out. The clock,
-- the identity of the process, the user's name and SHA-256 come from the system.
pub mod Requests
pub mod Ring
pub mod History
pub mod Fits
pub mod Record
mod Tests
use agent_guard_fast_path.Common.{
  ℕ, suc, ◌+◌, ◌-◌, ◌%◌, ◌^◌, Bool, true, false, not, ◌&&◌, Option, none, some, List, [], ◌∷◌, ◌++◌,
  Str, ltb, leb, if◌then◌else◌, is_empty, length, set, take, replicate, ℤ, pos, negsuc, u64,
}
use agent_guard_fast_path.Text.{codes}
use agent_guard_fast_path.AgentGuard.Config.{Action, block}
use agent_guard_fast_path.AgentGuard.Context.{
  AgContext, max_path_len, max_comm_len, max_log_entries, max_report_size,
}
use agent_guard_fast_path.AgentGuard.Utils.{ag_strlcpy, ag_hash_to_hex, show_lu, show_ld}
use agent_guard_fast_path.AgentGuard.Utils.Formatter.{
  Out, Field, text_field, int_field, json_object,
}

pub data AuditType : Type 0 where
  of_syscall of_file of_network of_process of_policy of_config of_alert of_heartbeat : AuditType

pub data Severity : Type 0 where
  sev_info sev_low sev_medium sev_high sev_critical : Severity

unfoldable pub type_number : AuditType → ℕ
type_number of_syscall = 0
type_number of_file = 1
type_number of_network = 2
type_number of_process = 3
type_number of_policy = 4
type_number of_config = 5
type_number of_alert = 6
type_number of_heartbeat = 7

unfoldable pub severity_number : Severity → ℕ
severity_number sev_info = 0
severity_number sev_low = 1
severity_number sev_medium = 2
severity_number sev_high = 3
severity_number sev_critical = 4

-- `ag_audit_entry_t`
pub record Entry : Type 0 where
  pub id : ℕ
  pub correlation_id : Str
  pub type : AuditType
  pub severity : Severity
  pub timestamp : Str
  pub source : Str
  pub target : Str
  pub action : Str
  pub result : Str
  pub details : Str
  pub user : Str
  pub pid : ℤ
  pub uid : ℕ
  pub gid : ℕ
  pub hash : Str

-- `ag_audit_log_t`
pub record AuditLog : Type 0 where
  pub entries : List Entry
  pub entry_count : ℕ
  pub head : ℕ
  pub tail : ℕ
  pub circular : Bool
  pub log_path : Str
  pub log_fd : ℤ
  pub json_format : Bool
  pub tamper_protected : Bool
  pub total_entries : ℕ

-- What the system answers while an entry is added: `pw_name` is `none` for an unknown user.
pub record System : Type 0 where
  pub timestamp : Str
  pub pid : ℤ
  pub uid : ℕ
  pub gid : ℕ
  pub pw_name : Option Str
  pub sha256 : Str → List ℕ

-- The globals that the audit uses, and the lines that went to a file, the newest first; a line is
-- `none` where its buffer was overrun.
pub record Trail : Type 0 where
  pub log : AuditLog
  pub correlation : Str
  pub ctx : AgContext
  pub lines : List (ℤ × Option Str)

-- An entry after `memset`.
unfoldable pub cleared : Entry
cleared = record {
  id = 0;
  correlation_id = [];
  type = of_syscall;
  severity = sev_info;
  timestamp = [];
  source = [];
  target = [];
  action = [];
  result = [];
  details = [];
  user = [];
  pid = pos 0;
  uid = 0;
  gid = 0;
  hash = [];
}

-- The log after `memset`, with its path and file.
unfoldable pub empty_log : Str → ℤ → AuditLog
unfolding cleared
empty_log path fd = record {
  entries = replicate max_log_entries cleared;
  entry_count = 0;
  head = 0;
  tail = 0;
  circular = false;
  log_path = path;
  log_fd = fd;
  json_format = false;
  tamper_protected = false;
  total_entries = 0;
}

unfoldable pub ready : AuditLog → ℤ × AuditLog
ready log = (pos 0, record log { json_format = true; circular = true })

-- `opened` is what `open` answers for the path; without a path the descriptor stays 0.
unfoldable pub ag_audit_init : Option Str → ℤ → ℤ × AuditLog
unfolding empty_log ready
ag_audit_init none opened = ready (empty_log [] (pos 0))
ag_audit_init (some path) opened =
    if is_empty path
    then ready (empty_log [] (pos 0))
    else (let log = empty_log (ag_strlcpy (some path) max_path_len) opened in
        elim opened [ pos fd ↦ ready log | negsuc e ↦ (negsuc 0, log) ])

unfoldable pub ag_audit_free : AuditLog → AuditLog
ag_audit_free log = elim (log.log_fd) [ pos fd ↦ record log { log_fd = negsuc 0 } | negsuc e ↦ log ]

unfoldable pub ag_audit_set_correlation : Option Str → Trail → Trail
ag_audit_set_correlation none t = t
ag_audit_set_correlation (some id) t = record t { correlation = ag_strlcpy (some id) 64 }

-- `s ? s : "desconocido"`
abbrev pub or_unknown : Option Str → Option Str
or_unknown none = some (codes "desconocido")
or_unknown (some s) = some s

-- The text that is hashed, in `AG_MAX_COMM_LEN * 4` bytes.
unfoldable pub entry_str : Entry → Str
entry_str e =
    take 1023 (show_lu e.id ++ e.timestamp ++ e.source ++ e.target ++ e.action ++ e.result)

-- The entry as it is filled.
unfoldable pub new_entry :
    System
    → Str
    → ℕ
    → AuditType
    → Severity
    → (source target action result details : Option Str) → Entry
unfolding entry_str
new_entry sys correlation id type severity source target action result details =
    let e : Entry = record {
      id = id;
      correlation_id = ag_strlcpy (some correlation) 64;
      type = type;
      severity = severity;
      timestamp = take 31 sys.timestamp;
      source = ag_strlcpy (or_unknown source) max_comm_len;
      target = ag_strlcpy (or_unknown target) max_path_len;
      action = ag_strlcpy (or_unknown action) 32;
      result = ag_strlcpy (or_unknown result) 32;
      details = ag_strlcpy details max_comm_len;
      user = ag_strlcpy sys.pw_name 64;
      pid = sys.pid;
      uid = sys.uid;
      gid = sys.gid;
      hash = [];
    } in
    record e { hash = ag_hash_to_hex (sys.sha256 (entry_str e)) }

-- A `uint64_t` as an `int64_t`
unfoldable pub int64_of : ℕ → ℤ
int64_of n = if ltb n (2 ^ 63) then pos n else negsuc (2 ^ 64 - 1 - n)

-- The fields of the line for an entry.
unfoldable pub entry_fields : Entry → List Field
unfolding int64_of type_number severity_number
entry_fields e =
    int_field (codes "id") (int64_of e.id)
    ∷ text_field (codes "timestamp") e.timestamp
    ∷ text_field (codes "correlation_id") e.correlation_id
    ∷ int_field (codes "type") (pos (type_number e.type))
    ∷ int_field (codes "severity") (pos (severity_number e.severity))
    ∷ text_field (codes "source") e.source
    ∷ text_field (codes "target") e.target
    ∷ text_field (codes "action") e.action
    ∷ text_field (codes "result") e.result
    ∷ text_field (codes "details") e.details
    ∷ text_field (codes "user") e.user
    ∷ int_field (codes "pid") e.pid
    ∷ text_field (codes "hash") e.hash
    ∷ []

unfoldable pub line_of : List Field → Option Str
line_of fs = elim (json_object max_report_size fs) [
  | none ↦ none
  | some out ↦ some (out.text ++ b'\n' ∷ [])
]

unfoldable pub entry_line : Entry → Option Str
entry_line e = line_of (entry_fields e)

-- The line goes to the file when there is one.
unfoldable pub write_line : ℤ → Entry → List (ℤ × Option Str) → List (ℤ × Option Str)
unfolding entry_line
write_line (pos fd) e lines = (pos fd, entry_line e) ∷ lines
write_line (negsuc n) e lines = lines
