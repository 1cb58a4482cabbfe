-- ===== src/Policy/Fuel.antt =====
-- The loop over a JSON array comes to its own end.
use mathlib.Core.Option
use agent_guard_fast_path.Common.{
  ℕ, zero, suc, ◌≤◌, ◌≡◌, ◌≢◌, refl, ap, subst, ◌∙◌, Bool, true, Option, none, some, [], ◌∷◌, Str,
  arith, inl, inr, ◌⊎◌, ◌==◌, Bool-cases, Option-cases, length,
}
use agent_guard_fast_path.Text.{skip_ws}
use agent_guard_fast_path.Json.{parse_json_string_token, after_key, needle}
use agent_guard_fast_path.Policy.{
  Entries, max_str, add_entry, round_at, array_rounds, parse_policy_array,
}
use agent_guard_fast_path.Policy.Lists.{Moves, round-Moves}

-- One way through the body of the loop, from a cursor and entries to the next: a comma is passed, or
-- a text is read and added.
pub data Round (hp : Bool) : Str → Entries → Str → Entries → Type 0 where
  comma : {p q : Str} {es : Entries} → skip_ws p ≡ b',' ∷ q → Round hp p es q es
  value :
      {p q v : Str} {es : Entries}
      → parse_json_string_token (skip_ws p) max_str ≡ some (v, q)
      → Round hp p es q (add_entry hp v es)

-- A number of rounds.
pub data Rounds (hp : Bool) : ℕ → Str → Entries → Str → Entries → Type 0 where
  done : {p : Str} {es : Entries} → Rounds hp 0 p es p es
  again :
      {n : ℕ} {p q end : Str} {es next out : Entries}
      → Round hp p es q next
      → Rounds hp n q next end out
      → Rounds hp (suc n) p es end out

-- The text is used up, or the array is closed, or what follows is neither a comma nor a text.
abbrev pub Ended : Str → Type 0
Ended p =
    (p ≡ [])
    ⊎ ((q : Str) × (p ≡ b']' ∷ q))
    ⊎ ((c : ℕ) × (q : Str) × (p ≡ c ∷ q) × (c ≢ b',') × (parse_json_string_token p max_str ≡ none))

-- After at most `bound` rounds from `p` and `es` the loop ends, with `out`.
abbrev pub Ends : Bool → ℕ → Str → Entries → Entries → Type 0
Ends hp bound p es out =
    (n : ℕ) × (end : Str) × (n ≤ bound) × Rounds hp n p es end out × Ended (skip_ws end)

-- What the body of the loop does.
abbrev Stepped : Bool → Str → Entries → Option (Str × Entries) → Type 0
Stepped hp p es none = Ended (skip_ws p)
Stepped hp p es (some r) = Round hp p es r.0 r.1

token-Stepped :
    (hp : Bool) (p q : Str) (c : ℕ) (es : Entries) (o : Option (Str × Str))
    → skip_ws p ≡ c ∷ q
    → c ≢ b','
    → parse_json_string_token (skip_ws p) max_str ≡ o
    → Stepped hp p es (Option.map (λ (r : Str × Str). (r.1, add_entry hp r.0 es)) o)
token-Stepped hp p q c es none here ne e = inr (inr (c, q, here, ne, e))
token-Stepped hp p q c es (some r) here ne e = value e

same : (c d : ℕ) → (c == d) ≡ true → c ≡ d
same c d h = ground (arith, h)

at_text :
    (hp : Bool) (p text : Str) (es : Entries)
    → skip_ws p ≡ text
    → Stepped hp p es (round_at hp text es)
unfolding round_at
at_text hp p [] es here = inl here
at_text hp p (c ∷ q) es here = elim (Bool-cases (c == b']')) [
  | inl close ↦ rw close (inr (inl (q, here ∙ ap (λ (x : ℕ). x ∷ q) (same c b']' close))))
  | inr more ↦ rw more elim (Bool-cases (c == b',')) [
    | inl sep ↦ rw sep (comma (here ∙ ap (λ (x : ℕ). x ∷ q) (same c b',' sep)))
    | inr token ↦ rw token (
        subst
          (λ (t : Str). Stepped hp p es (
            Option.map (λ (r : Str × Str). (r.1, add_entry hp r.0 es))
              (parse_json_string_token t max_str)))
          here
          (token-Stepped hp p q c es (parse_json_string_token (skip_ws p) max_str) here
            (λ e. ground (arith, token, e)) refl))
  ]
]

array_rounds-Ends :
    (fuel : ℕ) (hp : Bool) (p : Str) (es : Entries)
    → length p ≤ fuel
    → Ends hp (length p) p es (array_rounds fuel hp p es)
unfolding array_rounds skip_ws
array_rounds-Ends zero hp [] es h = (0, [], omega arith, done, inl refl)
array_rounds-Ends zero hp (c ∷ p) es h = absurd (omega arith)
array_rounds-Ends (suc fuel) hp p es h =
    let step : Stepped hp p es (round_at hp (skip_ws p) es) = at_text hp p (skip_ws p) es refl in
    elim (Option-cases (round_at hp (skip_ws p) es)) [
      | inl e ↦ rw (array_rounds, e) (0, p, omega arith, done, rw e at step)
      | inr (r, e) ↦
          let moved : Moves hp p es (some r) = rw e at (round-Moves hp p es) in
          let first : Stepped hp p es (some r) = rw e at step in
          let (n, end, few, rounds, ended) =
            array_rounds-Ends fuel hp r.0 r.1 (omega (arith, h, moved.0)) in
          rw (array_rounds, e) (suc n, end, omega (arith, few, moved.0), again first rounds, ended)
    ]

-- Whatever the text, the parser of an array leaves the entries as they were where the key is not
-- followed by a bracket. Otherwise its loop comes to its own end after at most as many rounds as bytes
-- follow the bracket, each of which passes a comma or adds the text that it reads: it ends at the end
-- of the text, at a closing bracket, or where neither a comma nor a text follows.
pub parse_policy_array-Ends :
    (json key : Str) (hp : Bool) (es : Entries)
    → let start = after_key json (needle 128 key) b'[' in
      let out = parse_policy_array json key hp es in
      ((start ≡ none) × (out ≡ es)) ⊎ ((p : Str) × (start ≡ some p) × Ends hp (length p) p es out)
unfolding parse_policy_array
parse_policy_array-Ends json key hp es =
    elim (Option-cases (after_key json (needle 128 key) b'[')) [
      | inl e ↦ inl (e, rw (parse_policy_array, e) refl)
      | inr (p, e) ↦
          inr
            (p, e, rw (parse_policy_array, e) (array_rounds-Ends (length p) hp p es (omega arith)))
    ]
