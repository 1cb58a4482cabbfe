-- ===== src/AgentGuard/Audit/Tests.antt =====
-- Concrete runs of the audit log.
use agent_guard_fast_path.Common.{
  ℕ, suc, ◌≡◌, ◌<◌, refl, ap, ◌%◌, false, none, some, List, [], ◌∷◌, ◌++◌, Str, length, replicate,
  length-replicate, pos, negsuc, u64,
}
use agent_guard_fast_path.Text.{codes}
use agent_guard_fast_path.AgentGuard.Context.{AgContext}
use agent_guard_fast_path.AgentGuard.Audit.{
  System, of_file, of_network, sev_high, sev_info, ag_audit_init, new_entry, entry_line, ready,
  empty_log,
}
use agent_guard_fast_path.AgentGuard.Audit.Ring.{contents}
use agent_guard_fast_path.AgentGuard.Audit.History.{
  Request, submit_all, entries_of, newest, trail_of, ag_audit_add-contents,
}
use agent_guard_fast_path.AgentGuard.Audit.Record.{members_of, joined, entry_line-new_entry}

-- A digest of 32 bytes that holds the length of its text.
abbrev toy_digest : Str → List ℕ
toy_digest s = (length s % 256) ∷ replicate 31 7

length-toy_digest : (s : Str) → length (toy_digest s) ≡ 32
length-toy_digest s = ap suc (length-replicate 31 7)

abbrev host : System
host = record {
  timestamp = codes "2026-05-23 10:00:00";
  pid = pos 4242;
  uid = 1000;
  gid = 1000;
  pw_name = some (codes "agent");
  sha256 = toy_digest;
}

abbrev context : AgContext
context = record {
  target_pid = pos 77;
  target_comm = codes "agent";
  interactive_mode = false;
  audit_mode = false;
  integrity_mode = false;
  network_mode = false;
  config_path = [];
  log_path = [];
  report_path = [];
  log_fd = negsuc 0;
  running = false;
  event_count = 0;
  block_count = 0;
  alert_count = 0;
  start_time = pos 0;
}

abbrev requests : List Request
requests =
    record {
      sys = host;
      type = of_file;
      severity = sev_high;
      source = some (codes "acceso_archivo");
      target = some (codes "/etc/passwd");
      action = some (codes "BLOQUEAR");
      result = some (codes "bloqueado");
      details = none;
    }
    ∷ record {
      sys = host;
      type = of_network;
      severity = sev_info;
      source = none;
      target = some (codes "10.0.0.1");
      action = none;
      result = none;
      details = none;
    }
    ∷ []

opened_well : (ag_audit_init (some (codes "/var/log/audit")) (pos 5)).0 ≡ pos 0
unfolding ag_audit_init ready empty_log
opened_well = refl

ag_audit_add-contents_example :
    let t = trail_of (ag_audit_init (some (codes "/var/log/audit")) (pos 5)).1 [] context [] in
    (contents (submit_all requests t).log ≡ newest (entries_of requests t))
    × ((submit_all requests t).log.total_entries ≡ u64 (length (entries_of requests t)))
ag_audit_add-contents_example =
    ag_audit_add-contents (some (codes "/var/log/audit")) (pos 5) [] context [] requests opened_well

entry_line-new_entry_example :
    let e =
      new_entry host [] 12 of_file sev_high none (some (codes "/etc/passwd")) none none none in
    let members =
      members_of host [] 12 of_file sev_high none (some (codes "/etc/passwd")) none none none in
    let object = b'{' ∷ joined members ++ codes "}" in
    (entry_line e ≡ some (object ++ b'\n' ∷ [])) × (length object < 65536)
entry_line-new_entry_example =
    entry_line-new_entry host [] 12 of_file sev_high none (some (codes "/etc/passwd")) none none
      none length-toy_digest
