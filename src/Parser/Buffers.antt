-- ===== src/Parser/Buffers.antt =====
-- What an event that is read looks like, and events that are written as CSV.
use agent_guard_fast_path.Common.{
  ℕ, ◌+◌, ◌<◌, ◌≡◌, ◌↔◌, refl, Bool, true, false, not, ◌&&◌, Option, none, some, List, [], ◌∷◌, Str,
  ltb, ◌==◌, arith, is_empty, Bool-cases, inl, inr, ◌⊎◌, length, get_or, ℤ, pos, negsuc,
}
use agent_guard_fast_path.Text.{codes, copy_trunc, skip_ws, str_ieq}
use agent_guard_fast_path.Text.Laws.{copy_trunc_lem, copy_trunc_whole}
use agent_guard_fast_path.Json.{after_key, needle}
use agent_guard_fast_path.Graph.{Event}
use agent_guard_fast_path.Parser.Csv.{csv_fields}
use agent_guard_fast_path.Parser.{
  Parsed, stored_bytes, token_buffer, json_buffer, with_dst, is_negative, says_something,
  is_csv_header_fields, event_of_fields, parse_json_event_line, parse_csv_event_line,
  parse_event_line,
}

-- Every field is in its buffer.
pub record InBuffers (ev : Event) : Type 0 where
  pub time_lt : length ev.time < 96
  pub process_lt : length ev.process < 128
  pub event_lt : length ev.event < 64
  pub file_lt : length ev.file < 512
  pub dst_lt : length ev.dst < 512
  pub domain_lt : length ev.domain < 512
  pub ip_lt : length ev.ip < 512

-- There is a destination where there is an address or a domain.
abbrev pub HasDst : Event → Type 0
HasDst ev = (is_empty ev.dst ≡ false) ⊎ ((is_empty ev.ip ≡ true) × (is_empty ev.domain ≡ true))

-- The process has a number that is not negative, or a name, or the event has one.
abbrev pub Says : Event → Type 0
Says ev = ((n : ℕ) × (ev.pid ≡ pos n)) ⊎ (is_empty ev.process ≡ false) ⊎ (is_empty ev.event ≡ false)

-- The fields of a header line, in any case of letters.
abbrev pub IsHeader : List Str → Type 0
IsHeader fields =
    (str_ieq (get_or fields 0 []) (codes "time") ≡ true)
    × (str_ieq (get_or fields 1 []) (codes "pid") ≡ true)
    × (str_ieq (get_or fields 2 []) (codes "process") ≡ true)

pid_cases : (p : ℤ) → (is_negative p ≡ true) ⊎ ((n : ℕ) × (p ≡ pos n))
pid_cases (pos n) = inr (n, refl)
pid_cases (negsuc n) = inl refl

says_something_iff : (ev : Event) → (says_something ev ≡ true) ↔ Says ev
unfolding says_something
says_something_iff ev = elim (pid_cases ev.pid) [
  | inl e ↦ ground (arith, e)
  | inr (n, e) ↦ (λ h. inl (n, e), λ h. rw e refl)
]

is_csv_header_fields-IsHeader :
    (fields : List Str) → is_csv_header_fields fields ≡ true → IsHeader fields
unfolding is_csv_header_fields
is_csv_header_fields-IsHeader fields h = ground (arith, h)

no_fields : (line : Str) → is_empty (csv_fields 8 line) ≡ true → line ≡ []
unfolding csv_fields
no_fields [] h = refl
no_fields (c ∷ line) h = cc

with_dst-HasDst : (ev : Event) → InBuffers ev → HasDst (with_dst ev)
unfolding with_dst
with_dst-HasDst ev h = ground (
  arith,
  copy_trunc_whole ev.dst 512 ev.ip h.ip_lt,
  copy_trunc_whole ev.dst 512 ev.domain h.domain_lt,
)

with_dst-InBuffers : (ev : Event) → InBuffers ev → InBuffers (with_dst ev)
unfolding with_dst
with_dst-InBuffers ev h = ground (
  arith,
  h,
  copy_trunc_whole ev.dst 512 ev.ip h.ip_lt,
  copy_trunc_whole ev.dst 512 ev.domain h.domain_lt,
)

pub with_dst_whole : (ev : Event) → HasDst ev → with_dst ev ≡ ev
unfolding with_dst
with_dst_whole ev h = ground (arith, h)

length-copy_trunc : (n : ℕ) (s : Str) → 0 < n → length (copy_trunc [] n s) < n
length-copy_trunc n s h = (copy_trunc_lem [] n s h).1

length-stored_bytes :
    (size n : ℕ) (escaped : Bool) (p : Str)
    → n < size
    → n + length (stored_bytes size n escaped p) < size
unfolding stored_bytes
length-stored_bytes size n escaped [] h = ground arith
length-stored_bytes size n escaped (c ∷ p) h =
    let stored = not (not escaped && c == b'\\') && ltb (n + 1) size in
    elim (Bool-cases stored) [
      | inl e ↦ ground (
        arith,
        e,
        length-stored_bytes size (n + 1) (not escaped && c == b'\\') p (ground (arith, e)),
      )
      | inr e ↦ ground (arith, e, length-stored_bytes size n (not escaped && c == b'\\') p h)
    ]

length-token_buffer : (size : ℕ) (p : Str) → 0 < size → length (token_buffer size p) < size
unfolding token_buffer
length-token_buffer size [] h = h
length-token_buffer size (c ∷ p) h = ground (arith, length-stored_bytes size 0 false p h)

length-json_buffer :
    (json key : Str) (size : ℕ) → 0 < size → length (json_buffer json key size) < size
unfolding json_buffer
length-json_buffer json key size h = from (after_key json (needle 96 key) b':')
  where
    from :
        (o : Option Str)
        → length (elim o as (λ x. Str) [ none ↦ [] | some p ↦ token_buffer size (skip_ws p) ])
          < size
    from none = h
    from (some p) = length-token_buffer size (skip_ws p) h

module _ (strtol : Str → Option ℤ) where
  event_of_fields-InBuffers : (fields : List Str) → InBuffers (event_of_fields strtol fields)
  unfolding event_of_fields
  event_of_fields-InBuffers fields = record {
    time_lt = length-copy_trunc 96 _ (omega arith);
    process_lt = length-copy_trunc 128 _ (omega arith);
    event_lt = length-copy_trunc 64 _ (omega arith);
    file_lt = length-copy_trunc 512 _ (omega arith);
    dst_lt = length-copy_trunc 512 _ (omega arith);
    domain_lt = length-copy_trunc 512 _ (omega arith);
    ip_lt = length-copy_trunc 512 _ (omega arith);
  }

  -- What a line leaves: the event that was there, where the line is empty or the header, or one that
  -- is in its buffers, with a destination.
  abbrev IsSound : Str → Event → Parsed → Type 0
  IsSound line before r =
      ((r.accepted ≡ false) × (r.ev ≡ before) × ((line ≡ []) ⊎ IsHeader (csv_fields 8 line)))
      ⊎ (((r.accepted ≡ true) ↔ Says r.ev) × InBuffers r.ev × HasDst r.ev)

  new-IsSound :
      (line : Str) (before ev : Event)
      → InBuffers ev
      → IsSound line before
          (record { accepted = says_something (with_dst ev); header = false; ev = with_dst ev })
  new-IsSound line before ev h =
      inr (says_something_iff (with_dst ev), with_dst-InBuffers ev h, with_dst-HasDst ev h)

  json-IsSound :
      (line : Str) (before : Event) → IsSound line before (parse_json_event_line strtol line)
  unfolding parse_json_event_line
  json-IsSound line before = new-IsSound line before _ (record {
    time_lt = length-json_buffer line _ 96 (omega arith);
    process_lt = length-json_buffer line _ 128 (omega arith);
    event_lt = length-json_buffer line _ 64 (omega arith);
    file_lt = length-json_buffer line _ 512 (omega arith);
    dst_lt = length-json_buffer line _ 512 (omega arith);
    domain_lt = length-json_buffer line _ 512 (omega arith);
    ip_lt = length-json_buffer line _ 512 (omega arith);
  })

  csv-IsSound :
      (line : Str) (before : Event) → IsSound line before (parse_csv_event_line strtol line before)
  unfolding parse_csv_event_line
  csv-IsSound line before =
      let fields = csv_fields 8 line in
      elim (Bool-cases (is_empty fields)) [
        | inl e ↦ rw e (inl (refl, refl, inl (no_fields line e)))
        | inr e ↦ elim (Bool-cases (is_csv_header_fields fields)) [
          | inl k ↦ rw (e, k) (inl (refl, refl, inr (is_csv_header_fields-IsHeader fields k)))
          | inr k ↦ rw (e, k) (new-IsSound line before _ (event_of_fields-InBuffers fields))
        ]
      ]

  -- Whatever the line, JSON or CSV, complete or cut off, the parser fills the event: every field fits
  -- its buffer with its NUL, there is a destination where there is an address or a domain, and the
  -- line is accepted exactly if the number of the process is not negative, or the process or the event
  -- has a name. Only where the line is blank, or its first fields are those of the CSV header, may it
  -- refuse the line and leave the event as it was.
  pub parse_event_line-IsSound :
      (line : Str) (before : Event)
      → let r = parse_event_line strtol line before in
        ((r.accepted ≡ false)
          × (r.ev ≡ before)
          × ((skip_ws line ≡ []) ⊎ IsHeader (csv_fields 8 (skip_ws line))))
        ⊎ (((r.accepted ≡ true) ↔ Says r.ev) × InBuffers r.ev × HasDst r.ev)
  unfolding parse_event_line
  parse_event_line-IsSound line before = elim (Bool-cases (get_or (skip_ws line) 0 0 == b'{')) [
    | inl e ↦ rw e (json-IsSound (skip_ws line) before)
    | inr e ↦ rw e (csv-IsSound (skip_ws line) before)
  ]
