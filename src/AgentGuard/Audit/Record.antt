-- ===== src/AgentGuard/Audit/Record.antt =====
-- src/audit.c: the line of JSON for an entry, member by member.
use agent_guard_fast_path.Common.{
  ℕ, ◌^◌, ltb, subst, sym, take, take_all, ◌-◌, ◌<◌, ◌≡◌, refl, Option, none, some, List, [], ◌∷◌,
  ◌++◌, Str, arith, if◌then◌else◌, length, pos, negsuc,
}
use agent_guard_fast_path.Text.{codes}
use agent_guard_fast_path.AgentGuard.Context.{max_report_size}
use agent_guard_fast_path.AgentGuard.Utils.{ag_strlcpy, ag_hash_to_hex, show_lu, show_ld}
use agent_guard_fast_path.AgentGuard.Utils.Formatter.{piece}
use agent_guard_fast_path.AgentGuard.Utils.Formatter.Layout.{commas}
use agent_guard_fast_path.AgentGuard.Audit.{
  System, AuditType, Severity, type_number, severity_number, entry_str, int64_of, of_syscall,
  of_file, of_network, of_process, of_policy, of_config, of_alert, of_heartbeat, sev_info, sev_low,
  sev_medium, sev_high, sev_critical, new_entry, or_unknown, entry_fields, entry_line,
}
use agent_guard_fast_path.AgentGuard.Audit.Fits.{entry_fits, new_entry-Bounded}

-- The place of a type and of a severity in their enumerations.
abbrev pub place_of_type : AuditType → ℕ
place_of_type of_syscall = 0
place_of_type of_file = 1
place_of_type of_network = 2
place_of_type of_process = 3
place_of_type of_policy = 4
place_of_type of_config = 5
place_of_type of_alert = 6
place_of_type of_heartbeat = 7

abbrev pub place_of_severity : Severity → ℕ
place_of_severity sev_info = 0
place_of_severity sev_low = 1
place_of_severity sev_medium = 2
place_of_severity sev_high = 3
place_of_severity sev_critical = 4

abbrev pub in_quotes : Str → Str
in_quotes s = b'"' ∷ s ++ codes "\""

-- The members of an object, each a key and a value in JSON.
abbrev pub joined : List (Str × Str) → Str
joined [] = []
joined ((key, val) ∷ []) = in_quotes key ++ b':' ∷ val
joined ((key, val) ∷ m ∷ members) = in_quotes key ++ b':' ∷ val ++ b',' ∷ joined (m ∷ members)

-- A text that may be missing.
abbrev pub text_or : Str → Option Str → Str
text_or missing none = missing
text_or missing (some s) = s

-- The members of the line for a request, from the request and the answers of the system.
abbrev pub members_of :
    System
    → Str
    → ℕ
    → AuditType
    → Severity
    → (source target action result details : Option Str) → List (Str × Str)
members_of sys correlation id type severity source target action result details =
    let time = take 31 sys.timestamp in
    let from = take 255 (text_or (codes "desconocido") source) in
    let to = take 4095 (text_or (codes "desconocido") target) in
    let did = take 31 (text_or (codes "desconocido") action) in
    let got = take 31 (text_or (codes "desconocido") result) in
    let hashed = take 1023 (show_lu id ++ time ++ from ++ to ++ did ++ got) in
    (codes "id", show_ld (if ltb id (2 ^ 63) then pos id else negsuc (2 ^ 64 - 1 - id)))
    ∷ (codes "timestamp", in_quotes time)
    ∷ (codes "correlation_id", in_quotes (take 63 correlation))
    ∷ (codes "type", show_ld (pos (place_of_type type)))
    ∷ (codes "severity", show_ld (pos (place_of_severity severity)))
    ∷ (codes "source", in_quotes from)
    ∷ (codes "target", in_quotes to)
    ∷ (codes "action", in_quotes did)
    ∷ (codes "result", in_quotes got)
    ∷ (codes "details", in_quotes (take 255 (text_or [] details)))
    ∷ (codes "user", in_quotes (take 63 (text_or [] sys.pw_name)))
    ∷ (codes "pid", show_ld sys.pid)
    ∷ (codes "hash", in_quotes (ag_hash_to_hex (sys.sha256 hashed)))
    ∷ []

strlcpy-text_or :
    (o : Option Str) (size : ℕ) → 0 < size → ag_strlcpy o size ≡ take (size - 1) (text_or [] o)
unfolding ag_strlcpy
strlcpy-text_or none size h = sym (take_all (size - 1) [] (omega arith))
strlcpy-text_or (some s) size h = ground (arith, take_all (length s) s, take_all (size - 1) s)

strlcpy-unknown :
    (o : Option Str) (size : ℕ)
    → 0 < size
    → ag_strlcpy (or_unknown o) size ≡ take (size - 1) (text_or (codes "desconocido") o)
strlcpy-unknown none size h = strlcpy-text_or (some (codes "desconocido")) size h
strlcpy-unknown (some s) size h = strlcpy-text_or (some s) size h

type_number-place : (t : AuditType) → type_number t ≡ place_of_type t
unfolding type_number
type_number-place of_syscall = refl
type_number-place of_file = refl
type_number-place of_network = refl
type_number-place of_process = refl
type_number-place of_policy = refl
type_number-place of_config = refl
type_number-place of_alert = refl
type_number-place of_heartbeat = refl

severity_number-place : (s : Severity) → severity_number s ≡ place_of_severity s
unfolding severity_number
severity_number-place sev_info = refl
severity_number-place sev_low = refl
severity_number-place sev_medium = refl
severity_number-place sev_high = refl
severity_number-place sev_critical = refl

commas-members_of :
    (sys : System) (correlation : Str) (id : ℕ) (type : AuditType) (severity : Severity)
    (source target action result details : Option Str)
    → commas (
        entry_fields
          (new_entry sys correlation id type severity source target action result details))
      ≡ joined (members_of sys correlation id type severity source target action result details)
unfolding new_entry entry_fields entry_str commas piece int64_of
commas-members_of sys correlation id type severity source target action result details =
    rw
      (
        strlcpy-unknown source 256 (omega arith),
        strlcpy-unknown target 4096 (omega arith),
        strlcpy-unknown action 32 (omega arith),
        strlcpy-unknown result 32 (omega arith),
        strlcpy-text_or details 256 (omega arith),
        strlcpy-text_or (some correlation) 64 (omega arith),
        strlcpy-text_or sys.pw_name 64 (omega arith),
        type_number-place type,
        severity_number-place severity,
      )
      refl

-- The line of a new entry is complete, whatever is audited: an object with thirteen members and a
-- newline, within the 65,536 bytes of the buffer. The members are the number of the entry as an
-- `int64_t`, the time, the correlation, the places of its type and its severity in their enumerations,
-- the source, the target, the action and the result of the request ("desconocido" for one that is
-- missing), its details, the name of the user, the process, and the SHA-256, in hexadecimal, of the
-- number, the time, the source, the target, the action and the result; each text is cut to its buffer.
-- SHA-256 is assumed to answer 32 bytes.
pub entry_line-new_entry :
    (sys : System) (correlation : Str) (id : ℕ) (type : AuditType) (severity : Severity)
    (source target action result details : Option Str)
    → ((s : Str) → length (sys.sha256 s) ≡ 32)
    → let e = new_entry sys correlation id type severity source target action result details in
      let members =
        members_of sys correlation id type severity source target action result details in
      let object = b'{' ∷ joined members ++ codes "}" in
      (entry_line e ≡ some (object ++ b'\n' ∷ [])) × (length object < 65536)
entry_line-new_entry sys correlation id type severity source target action result details digest =
    let e = new_entry sys correlation id type severity source target action result details in
    subst
      (λ (text : Str).
        (entry_line e ≡ some ((b'{' ∷ text ++ codes "}") ++ b'\n' ∷ []))
        × (length (b'{' ∷ text ++ codes "}") < max_report_size))
      (commas-members_of sys correlation id type severity source target action result details)
      (entry_fits e (
        new_entry-Bounded sys correlation id type severity source target action result details
          digest))
