-- ===== src/Json/RoundTrip.antt =====
-- What `json_write_string` writes, `parse_json_string_token` reads back.
use mathlib.Core.Option
use agent_guard_fast_path.Common.{
  append_assoc, ℕ, zero, suc, ◌+◌, ◌-◌, ◌≤◌, ◌<◌, ◌≡◌, refl, ap, ◌∙◌, Bool, false, Option, none,
  some, [], ◌∷◌, ◌++◌, Str, arith, inl, inr, ◌⊎◌, ltb, ◌==◌, if◌then◌else◌, Bool-cases, take,
}
use agent_guard_fast_path.Text.{json_escape, json_write_body, json_write_string, skip_ws}
use agent_guard_fast_path.Json.{unescape, token_from, open_token, parse_json_string_token}

-- A byte that the writer does not spell as `\u00XX`.
abbrev pub IsPlain : ℕ → Type 0
IsPlain c = (32 ≤ c) ⊎ (c ≡ b'\n') ⊎ (c ≡ b'\r') ⊎ (c ≡ b'\t')

abbrev pub All : (ℕ → Type 0) → Str → Type 0
All P [] = Unit
All P (c ∷ s) = P c × All P s

-- Reading one more byte.
abbrev push : Bool → ℕ → Str × Str → Str × Str
push stored c r = (if stored then c ∷ r.0 else r.0, r.1)

map_step : (o : Option (Str × Str)) → Option.map (λ (r : Str × Str). (r.0, r.1)) o ≡ o
map_step none = refl
map_step (some r) = refl

-- One byte that is neither a quote nor a backslash, and one escape.
token_from-plain :
    (size n c : ℕ) (more : Str)
    → (c == b'"') ≡ false
    → (c == b'\\') ≡ false
    → token_from size n false (c ∷ more)
      ≡ Option.map
          (push (ltb (n + 1) size) c)
          (token_from size (if ltb (n + 1) size then n + 1 else n) false more)
unfolding token_from
token_from-plain size n c more nq nb = rw (nq, nb) refl

token_from-escaped :
    (size n e : ℕ) (more : Str)
    → token_from size n false (b'\\' ∷ e ∷ more)
      ≡ Option.map
          (push (ltb (n + 1) size) (unescape e))
          (token_from size (if ltb (n + 1) size then n + 1 else n) false more)
unfolding token_from
token_from-escaped size n e more = map_step _

-- A plain byte is written as itself or as an escape that is read back as it.
json_escape-IsPlain :
    (c : ℕ)
    → IsPlain c
    → ((json_escape c ≡ c ∷ []) × ((c == b'"') ≡ false) × ((c == b'\\') ≡ false))
      ⊎ ((e : ℕ) × (json_escape c ≡ b'\\' ∷ e ∷ []) × (unescape e ≡ c))
unfolding json_escape unescape
json_escape-IsPlain c h = elim (Bool-cases (c == b'"')) [
  | inl a ↦ inr (b'"', ground arith, ground arith)
  | inr a ↦ elim (Bool-cases (c == b'\\')) [
    | inl b ↦ inr (b'\\', ground arith, ground arith)
    | inr b ↦ elim (Bool-cases (c == b'\n')) [
      | inl d ↦ inr (b'n', ground arith, ground arith)
      | inr d ↦ elim (Bool-cases (c == b'\r')) [
        | inl f ↦ inr (b'r', ground arith, ground arith)
        | inr f ↦ elim (Bool-cases (c == b'\t')) [
          | inl g ↦ inr (b't', ground arith, ground arith)
          | inr g ↦ inl (ground arith)
        ]
      ]
    ]
  ]
]

token_from-escape :
    (size n c : ℕ) (more : Str)
    → IsPlain c
    → token_from size n false (json_escape c ++ more)
      ≡ Option.map
          (push (ltb (n + 1) size) c)
          (token_from size (if ltb (n + 1) size then n + 1 else n) false more)
token_from-escape size n c more h = elim (json_escape-IsPlain c h) [
  | inl (e, nq, nb) ↦ rw e (token_from-plain size n c more nq nb)
  | inr (x, e, u) ↦ rw (e, ← u) (token_from-escaped size n x more)
]

take_cons : (k c : ℕ) (s : Str) → 0 < k → take k (c ∷ s) ≡ c ∷ take (k - 1) s
take_cons zero c s h = absurd (omega arith)
take_cons (suc k) c s h = ap (λ (t : ℕ). c ∷ take t s) (omega arith)

take_nil : (k : ℕ) → take {A = ℕ} k [] ≡ []
take_nil zero = refl
take_nil (suc k) = refl

token_from-body :
    (size n : ℕ) (s rest : Str)
    → All IsPlain s
    → token_from size n false (json_write_body s ++ b'"' ∷ rest)
      ≡ some (take (size - 1 - n) s, rest)
unfolding json_write_body token_from
token_from-body size n [] rest h = rw take_nil refl
token_from-body size n (c ∷ s) rest (p, ps) =
    ap (token_from size n false) (append_assoc (json_escape c) (json_write_body s) (b'"' ∷ rest))
    ∙ token_from-escape size n c (json_write_body s ++ b'"' ∷ rest) p
    ∙ elim (Bool-cases (ltb (n + 1) size)) [
      | inl room ↦
          rw
            (
              room,
              token_from-body size (n + 1) s rest ps,
              take_cons (size - 1 - n) c s (ground arith),
            )
            (ap (λ (k : ℕ). some (c ∷ take k s, rest)) (omega arith))
      | inr full ↦
          let none_left : size - 1 - n ≡ 0 = ground arith in
          rw (full, token_from-body size n s rest ps, none_left) refl
    ]

-- A string of plain bytes, written by `json_write_string` and read into a buffer of `size` bytes, is
-- the string cut to `size - 1` bytes, and the cursor is left behind the closing quote.
pub parse_json_string_token-json_write_string :
    (s rest : Str) (size : ℕ)
    → All IsPlain s
    → parse_json_string_token (json_write_string s ++ rest) size ≡ some (take (size - 1) s, rest)
unfolding parse_json_string_token json_write_string open_token skip_ws
parse_json_string_token-json_write_string s rest size h =
    ap (token_from size 0 false) (append_assoc (json_write_body s) (b'"' ∷ []) rest)
    ∙ token_from-body size 0 s rest h
    ∙ ap (λ (k : ℕ). some (take k s, rest)) (omega arith)
