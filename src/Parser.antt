-- ===== src/Parser.antt =====
-- src/agfast_parts/parser.c: a line of the input, JSON or CSV, as an event. A text ends at its first
-- NUL. A buffer of an event holds what stands in it before the NUL; each is cleared first.
pub mod Csv
pub mod RoundTrip
pub mod Buffers
pub mod Events
mod Tests
use agent_guard_fast_path.Common.{
  ℕ, zero, suc, ◌+◌, ◌-◌, Bool, true, false, not, ◌&&◌, ◌||◌, Option, none, some, List, [], ◌∷◌,
  ◌++◌, Str, ltb, ◌==◌, if◌then◌else◌, is_empty, length, get_or, ℤ, pos, negsuc,
}
use agent_guard_fast_path.Text.{codes, copy_trunc, str_ieq, skip_ws}
use agent_guard_fast_path.Json.{needle, after_key, unescape, json_get_long}
use agent_guard_fast_path.Graph.{Event}
use agent_guard_fast_path.Parser.Csv.{csv_fields}

-- The bytes that the reader of a token stores, `n` before them, whether it finds the closing quote or
-- not.
unfoldable pub stored_bytes : ℕ → ℕ → Bool → Str → Str
stored_bytes out_size n escaped [] = if escaped && ltb (n + 1) out_size then b'\\' ∷ [] else []
stored_bytes out_size n escaped (c ∷ p) =
    let opens = not escaped && c == b'\\' in
    let stored = not opens && ltb (n + 1) out_size in
    let rest = stored_bytes out_size (if stored then n + 1 else n) opens p in
    let byte = if escaped then unescape c else c in
    if not escaped && c == b'"' then [] else if stored then byte ∷ rest else rest

-- The buffer of a key after `json_get_string`, whose answer is ignored.
unfoldable pub token_buffer : ℕ → Str → Str
token_buffer out_size [] = []
token_buffer out_size (c ∷ p) = if c == b'"' then stored_bytes out_size 0 false p else []

unfoldable pub json_buffer : Str → Str → ℕ → Str
json_buffer json key out_size = elim (after_key json (needle 96 key) b':') [
  | none ↦ []
  | some p ↦ token_buffer out_size (skip_ws p)
]

-- A missing destination is the address, or else the domain.
unfoldable pub with_dst : Event → Event
with_dst ev =
    if is_empty ev.dst
    then if not (is_empty ev.ip)
      then record ev { dst = copy_trunc ev.dst 512 ev.ip }
      else if not (is_empty ev.domain)
      then record ev { dst = copy_trunc ev.dst 512 ev.domain }
      else ev
    else ev

abbrev pub is_negative : ℤ → Bool
is_negative (pos n) = false
is_negative (negsuc n) = true

-- `ev->pid >= 0 || ev->process[0] || ev->event[0]`
unfoldable pub says_something : Event → Bool
says_something ev = not (is_negative ev.pid) || not (is_empty ev.process) || not (is_empty ev.event)

-- What a parser answers, and what it leaves in `*ev` and `*is_header`.
pub record Parsed : Type 0 where
  pub accepted : Bool
  pub header : Bool
  pub ev : Event

unfoldable pub is_csv_header_fields : List Str → Bool
is_csv_header_fields fields =
    if ltb (length fields) 3
    then false
    else str_ieq (get_or fields 0 []) (codes "time")
      && str_ieq (get_or fields 1 []) (codes "pid")
      && str_ieq (get_or fields 2 []) (codes "process")

-- `n` or, where there is none, -1.
abbrev pub pid_or : Option ℤ → ℤ
pid_or none = negsuc 0
pid_or (some n) = n

-- `strtol p` is the library's number at the start of `p`, or `none` where it converts nothing or
-- sets `errno`.
module _ (strtol : Str → Option ℤ) where
  unfoldable pub parse_json_event_line : Str → Parsed
  parse_json_event_line line =
      let ev = with_dst (record {
        time = json_buffer line (codes "time") 96;
        pid = pid_or (json_get_long strtol line (codes "pid"));
        process = json_buffer line (codes "process") 128;
        event = json_buffer line (codes "event") 64;
        file = json_buffer line (codes "file") 512;
        dst = json_buffer line (codes "dst") 512;
        domain = json_buffer line (codes "domain") 512;
        ip = json_buffer line (codes "ip") 512;
      }) in
      record { accepted = says_something ev; header = false; ev = ev }

  -- The event of the fields; a field that is not there is empty, as its buffer is.
  unfoldable pub event_of_fields : List Str → Event
  event_of_fields fields =
      let field = get_or fields in
      record {
        time = copy_trunc [] 96 (field 0 []);
        pid = if is_empty (field 1 []) then negsuc 0 else pid_or (strtol (field 1 []));
        process = copy_trunc [] 128 (field 2 []);
        event = copy_trunc [] 64 (field 3 []);
        file = copy_trunc [] 512 (field 4 []);
        dst = copy_trunc [] 512 (field 5 []);
        domain = copy_trunc [] 512 (field 6 []);
        ip = copy_trunc [] 512 (field 7 []);
      }

  -- `ev` is what `*ev` holds before.
  unfoldable pub parse_csv_event_line : Str → Event → Parsed
  parse_csv_event_line line ev =
      let fields = csv_fields 8 line in
      if is_empty fields
      then record { accepted = false; header = false; ev = ev }
      else if is_csv_header_fields fields
      then record { accepted = false; header = true; ev = ev }
      else (let new = with_dst (event_of_fields fields) in
          record { accepted = says_something new; header = false; ev = new })

  unfoldable pub parse_event_line : Str → Event → Parsed
  parse_event_line line ev =
      let p = skip_ws line in
      if get_or p 0 0 == b'{' then parse_json_event_line p else parse_csv_event_line p ev
