-- ===== src/Policy/Lists.antt =====
-- The loop over a JSON array adds the entries one after the other, and the Bloom filter of a list
-- covers it.
use mathlib.Core.Option
use agent_guard_fast_path.Common.{
  ℕ, zero, suc, ◌≤◌, ◌<◌, ◌≡◌, refl, Bool, true, false, ◌&&◌, Option, none, some, [], ◌∷◌, Str,
  arith, inl, inr, ◌⊎◌, ◌==◌, Bool-cases, Option-cases, is_empty, length, str_eq, str_eq_iff,
}
use agent_guard_fast_path.Text.{contains_glob, skip_ws}
use agent_guard_fast_path.StringList.{StringList, list_add, list_contains_exact}
use agent_guard_fast_path.StringList.Laws.{list_contains_exact-list_add}
use agent_guard_fast_path.Sketch.Bloom.{Bloom, bloom_add, bloom_might_contain}
use agent_guard_fast_path.Sketch.Bloom.Membership.{
  IsValid, bloom_add-IsValid, bloom_might_contain-bloom_add, bloom_might_contain-bloom_add_self,
}
use agent_guard_fast_path.Json.{parse_json_string_token, after_key, needle}
use agent_guard_fast_path.Json.Cursor.{Fits, parse_json_string_token-Fits, length-skip_ws}
use agent_guard_fast_path.Policy.{
  Entries, max_str, add_entry, round_at, array_rounds, parse_policy_array,
}

-- A round moves the cursor forward and adds at most one value.
abbrev pub Moves : Bool → Str → Entries → Option (Str × Entries) → Type 0
Moves hp p es none = Unit
Moves hp p es (some r) =
    (length r.0 < length p) × ((r.1 ≡ es) ⊎ ((v : Str) × (r.1 ≡ add_entry hp v es)))

Moves-token :
    (hp : Bool) (p : Str) (es : Entries) (o : Option (Str × Str))
    → Fits max_str 0 p o
    → Moves hp p es (Option.map (λ (r : Str × Str). (r.1, add_entry hp r.0 es)) o)
Moves-token hp p es none h = tt
Moves-token hp p es (some r) h = (h.1, inr (r.0, refl))

round_at-Moves : (hp : Bool) (p : Str) (es : Entries) → Moves hp p es (round_at hp p es)
unfolding round_at
round_at-Moves hp [] es = tt
round_at-Moves hp (c ∷ p) es = elim (Bool-cases (c == b']')) [
  | inl close ↦ rw close tt
  | inr more ↦ rw more elim (Bool-cases (c == b',')) [
    | inl comma ↦ rw comma (omega arith, inl refl)
    | inr token ↦ rw token (
        Moves-token hp (c ∷ p) es (parse_json_string_token (c ∷ p) max_str)
          (parse_json_string_token-Fits (c ∷ p) max_str (omega arith)))
  ]
]

Moves-behind :
    (hp : Bool) (p q : Str) (es : Entries) (o : Option (Str × Entries))
    → length p ≤ length q
    → Moves hp p es o
    → Moves hp q es o
Moves-behind hp p q es none h m = tt
Moves-behind hp p q es (some r) h m = (omega (arith, h, m.0), m.1)

pub round-Moves : (hp : Bool) (p : Str) (es : Entries) → Moves hp p es (round_at hp (skip_ws p) es)
round-Moves hp p es =
    Moves-behind hp (skip_ws p) p es (round_at hp (skip_ws p) es) (length-skip_ws p)
      (round_at-Moves hp (skip_ws p) es)

-- What every added value keeps, a parsed array keeps.
module _ (hp : Bool) (P : Entries → Type 0)
    (keep : (v : Str) (es : Entries) → P es → P (add_entry hp v es)) where
  array_rounds-keep : (fuel : ℕ) (p : Str) (es : Entries) → P es → P (array_rounds fuel hp p es)
  unfolding array_rounds
  array_rounds-keep zero p es h = h
  array_rounds-keep (suc fuel) p es h = elim (Option-cases (round_at hp (skip_ws p) es)) [
    | inl e ↦ rw (array_rounds, e) h
    | inr (r, e) ↦
        let m : Moves hp p es (some r) = rw e at (round-Moves hp p es) in
        rw (array_rounds, e)
          (array_rounds-keep fuel r.0 r.1
            (elim (m.1) [ inl same ↦ rw same h | inr (v, added) ↦ rw added (keep v es h) ]))
  ]

  pub parse_policy_array-keep :
      (json key : Str) (es : Entries) → P es → P (parse_policy_array json key hp es)
  unfolding parse_policy_array
  parse_policy_array-keep json key es h =
      elim (Option-cases (after_key json (needle 128 key) b'[')) [
        | inl e ↦ rw (parse_policy_array, e) h
        | inr (p, e) ↦ rw (parse_policy_array, e) (array_rounds-keep (length p) p es h)
      ]

-- The Bloom filter of a list reports every entry of the list.
pub record Covers (bloom : Bloom) (list : StringList) : Type 0 where
  pub room : IsValid bloom
  pub reports : (w : Str) → list_contains_exact list w ≡ true → bloom_might_contain bloom w ≡ true

Covers-add :
    (bloom : Bloom) (list : StringList) (v : Str)
    → Covers bloom list
    → Covers (bloom_add bloom v) (list_add list v)
Covers-add bloom list v h = record {
  room = bloom_add-IsValid bloom v h.room;
  reports = λ w found. elim (Bool-cases (list_contains_exact list w)) [
    | inl before ↦ bloom_might_contain-bloom_add bloom v w h.room (h.reports w before)
    | inr new ↦
        let (ne, same) : (is_empty v ≡ false) × (str_eq v w ≡ true) =
          ground (arith, list_contains_exact-list_add list v w) in
        rw (← (str_eq_iff v w).0 same) (bloom_might_contain-bloom_add_self bloom v h.room ne)
  ];
}

add_entry-Covers :
    (hp : Bool) (v : Str) (es : Entries)
    → Covers es.bloom es.exact
    → Covers (add_entry hp v es).bloom (add_entry hp v es).exact
unfolding add_entry
add_entry-Covers hp v es h = elim (Bool-cases (contains_glob v && hp)) [
  | inl glob ↦ rw glob h
  | inr plain ↦ rw plain (Covers-add es.bloom es.exact v h)
]

pub parse_policy_array-Covers :
    (json key : Str) (hp : Bool) (es : Entries)
    → Covers es.bloom es.exact
    → let after = parse_policy_array json key hp es in Covers after.bloom after.exact
parse_policy_array-Covers json key hp es =
    parse_policy_array-keep hp (λ es. Covers es.bloom es.exact) (add_entry-Covers hp) json key es
