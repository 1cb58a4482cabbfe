-- ===== src/AgentGuard/Audit/Fits.antt =====
-- src/audit.c: the lengths of an entry and of its line.
use agent_guard_fast_path.Common.{
  ℕ, zero, suc, ◌+◌, ◌-◌, ◌*◌, ◌/◌, ◌%◌, ◌≤◌, ◌<◌, ◌≡◌, refl, ◌∙◌, Option, none, some, List, [],
  ◌∷◌, ◌++◌, Str, leb, arith, if◌then◌else◌, length, length-take, length-append, ℤ, pos, negsuc,
}
use agent_guard_fast_path.Text.{codes}
use agent_guard_fast_path.AgentGuard.Context.{max_report_size}
use agent_guard_fast_path.AgentGuard.Utils.{ag_strlcpy, ag_hash_to_hex, show_lu, show_ld, digits}
use agent_guard_fast_path.AgentGuard.Utils.Formatter.{Field, text_field, int_field, piece}
use agent_guard_fast_path.AgentGuard.Utils.Formatter.Layout.{commas, json_object_lem}
use agent_guard_fast_path.AgentGuard.Audit.{
  Entry, System, AuditType, Severity, new_entry, or_unknown, entry_fields, entry_line, line_of,
}

length-strlcpy : (src : Option Str) (size : ℕ) → 0 < size → length (ag_strlcpy src size) < size
unfolding ag_strlcpy
length-strlcpy none size h = omega arith
length-strlcpy (some src) size h =
    ground (arith, length-take (if leb size (length src) then size - 1 else length src) src)

length-digits : (fuel n : ℕ) (out : Str) → length (digits fuel n out) ≤ fuel + length out
unfolding digits
length-digits zero n out = omega arith
length-digits (suc fuel) n out = ground (arith, length-digits fuel (n / 10) ((b'0' + n % 10) ∷ out))

length-show_ld : (n : ℤ) → length (show_ld n) ≤ 21
unfolding show_ld show_lu
length-show_ld (pos n) = omega (arith, length-digits 20 n [])
length-show_ld (negsuc n) = omega (arith, length-digits 20 (suc n) [])

length-hash_to_hex : (hash : List ℕ) → length (ag_hash_to_hex hash) ≡ 2 * length hash
unfolding ag_hash_to_hex
length-hash_to_hex [] = refl
length-hash_to_hex (b ∷ hash) = omega (arith, length-hash_to_hex hash)

length-text_field :
    (key val : Str) → length (piece (text_field key val)) ≡ length key + length val + 5
unfolding piece
length-text_field key val = omega (
  arith,
  length-append key (codes "\":\""),
  length-append (key ++ codes "\":\"") val,
  length-append (key ++ codes "\":\"" ++ val) (codes "\""),
)

length-int_field : (key : Str) (n : ℤ) → length (piece (int_field key n)) ≤ length key + 24
unfolding piece
length-int_field key n = omega (
  arith,
  length-append key (codes "\":"),
  length-append (key ++ codes "\":") (show_ld n),
  length-show_ld n,
)

total : List Field → ℕ
total [] = 0
total (f ∷ fs) = length (piece f) + 1 + total fs

length-commas : (fs : List Field) → length (commas fs) ≤ total fs
unfolding commas total
length-commas [] = omega arith
length-commas (f ∷ []) = omega arith
length-commas (f ∷ g ∷ fs) =
    omega (arith, length-append (piece f) (b',' ∷ commas (g ∷ fs)), length-commas (g ∷ fs))

-- The fields of an entry are in their buffers.
pub record Bounded (e : Entry) : Type 0 where
  timestamp_lt : length e.timestamp < 32
  correlation_lt : length e.correlation_id < 64
  source_lt : length e.source < 256
  target_lt : length e.target < 4096
  action_lt : length e.action < 32
  result_lt : length e.result < 32
  details_lt : length e.details < 256
  user_lt : length e.user < 64
  hash_eq : length e.hash ≡ 64

total-entry_fields : (e : Entry) → Bounded e → total (entry_fields e) < 60000
unfolding total entry_fields
total-entry_fields e h = omega (
  arith, length-text_field, length-int_field, h.timestamp_lt, h.correlation_lt, h.source_lt,
  h.target_lt, h.action_lt, h.result_lt, h.details_lt, h.user_lt, h.hash_eq,
)

pub new_entry-Bounded :
    (sys : System) (correlation : Str) (id : ℕ) (type : AuditType) (severity : Severity)
    (source target action result details : Option Str)
    → ((s : Str) → length (sys.sha256 s) ≡ 32)
    → Bounded (new_entry sys correlation id type severity source target action result details)
unfolding new_entry
new_entry-Bounded sys correlation id type severity source target action result details digest =
    record {
      timestamp_lt = omega (arith, length-take 31 sys.timestamp);
      correlation_lt = length-strlcpy (some correlation) 64 (omega arith);
      source_lt = length-strlcpy (or_unknown source) 256 (omega arith);
      target_lt = length-strlcpy (or_unknown target) 4096 (omega arith);
      action_lt = length-strlcpy (or_unknown action) 32 (omega arith);
      result_lt = length-strlcpy (or_unknown result) 32 (omega arith);
      details_lt = length-strlcpy details 256 (omega arith);
      user_lt = length-strlcpy sys.pw_name 64 (omega arith);
      hash_eq = length-hash_to_hex (sys.sha256 _) ∙ omega (arith, digest);
    }

fields_fit :
    (f : Field) (fs : List Field)
    → length (commas (f ∷ fs)) + 2 < max_report_size
    → line_of (f ∷ fs) ≡ some (b'{' ∷ commas (f ∷ fs) ++ codes "}" ++ b'\n' ∷ [])
unfolding line_of commas
fields_fit f fs h = rw (line_of, json_object_lem max_report_size f fs h) refl

pub entry_fits :
    (e : Entry)
    → Bounded e
    → (entry_line e ≡ some ((b'{' ∷ commas (entry_fields e) ++ codes "}") ++ b'\n' ∷ []))
      × (length (b'{' ∷ commas (entry_fields e) ++ codes "}") < max_report_size)
entry_fits e h =
    let short : length (commas (entry_fields e)) < 60000 =
      omega (arith, length-commas (entry_fields e), total-entry_fields e h) in
    (
      unfold entry_line entry_fields in fields_fit _ _ (omega (arith, short)),
      omega (arith, short, length-append (commas (entry_fields e)) (codes "}")),
    )
