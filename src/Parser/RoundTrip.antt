-- ===== src/Parser/RoundTrip.antt =====
-- Fields that are written as CSV are read back.
use agent_guard_fast_path.Common.{
  ℕ, zero, suc, ◌-◌, ◌≤◌, ◌<◌, ◌≡◌, refl, sym, ap, ◌∙◌, false, List, [], ◌∷◌, ◌++◌, Str, ◌==◌,
  ==_iff, arith, Bool-cases, inl, inr, length, All,
}
use agent_guard_fast_path.Parser.Csv.{
  put, quoted_field, one_field, behind_comma, csv_fields, doubled, csv_line,
}

-- What stands behind a closing quote: no quote.
abbrev OpensNoQuote : Str → Type 0
OpensNoQuote [] = Unit
OpensNoQuote (c ∷ p) = (c == b'"') ≡ false

quoted_field-plain_byte :
    (left c : ℕ) (u : Str)
    → (c == b'"') ≡ false
    → quoted_field left (c ∷ u) ≡ put left c (quoted_field (left - 1) u)
unfolding quoted_field
quoted_field-plain_byte left c [] e = rw e refl
quoted_field-plain_byte left c (d ∷ u) e = rw e refl

quoted_field-pair :
    (left : ℕ) (u : Str)
    → quoted_field left (b'"' ∷ b'"' ∷ u) ≡ put left b'"' (quoted_field (left - 1) u)
unfolding quoted_field
quoted_field-pair left u = refl

quoted_field-end : (left : ℕ) (t : Str) → OpensNoQuote t → quoted_field left (b'"' ∷ t) ≡ ([], t)
unfolding quoted_field
quoted_field-end left [] h = refl
quoted_field-end left (d ∷ p) h = rw h refl

put_room : (left c : ℕ) (s t : Str) → 0 < left → put left c (s, t) ≡ (c ∷ s, t)
put_room left c s t h = ground arith

quoted_field-doubled :
    (s t : Str) (left : ℕ)
    → length s ≤ left
    → OpensNoQuote t
    → quoted_field left (doubled s ++ b'"' ∷ t) ≡ (s, t)
unfolding doubled
quoted_field-doubled [] t left h e = quoted_field-end left t e
quoted_field-doubled (c ∷ s) t left h e =
    let rest = quoted_field-doubled s t (left - 1) (omega arith) e in
    elim (Bool-cases (c == b'"')) [
      | inl q ↦ rw q (
          quoted_field-pair left (doubled s ++ b'"' ∷ t)
          ∙ ap (put left b'"') rest
          ∙ put_room left b'"' s t (omega arith)
          ∙ ap (λ (k : ℕ). (k ∷ s, t)) (sym ((==_iff c b'"').0 q)))
      | inr n ↦ rw n (
          quoted_field-plain_byte left c (doubled s ++ b'"' ∷ t) n
          ∙ ap (put left c) rest
          ∙ put_room left c s t (omega arith))
    ]

csv_fields-nil : (n : ℕ) → csv_fields n [] ≡ []
unfolding csv_fields
csv_fields-nil zero = refl
csv_fields-nil (suc n) = refl

-- A quoted field at the start of a text with no quote behind it.
first_field :
    (n : ℕ) (s t : Str)
    → length s ≤ 511
    → OpensNoQuote t
    → csv_fields (suc n) (b'"' ∷ (doubled s ++ b'"' ∷ t)) ≡ s ∷ csv_fields n (behind_comma t)
unfolding csv_fields one_field
first_field n s t h e =
    ap (λ (r : Str × Str). r.0 ∷ csv_fields n (behind_comma r.1)) (quoted_field-doubled s t 511 h e)

-- Fields of at most 511 bytes that are written between quotes, with their quotes doubled and a comma
-- between two, are read back as they are, up to the greatest number of fields.
pub csv_fields-csv_line :
    (n : ℕ) (fields : List Str)
    → length fields ≤ n
    → All (λ (s : Str). length s ≤ 511) fields
    → csv_fields n (csv_line fields) ≡ fields
unfolding csv_line behind_comma
csv_fields-csv_line n [] h fit = csv_fields-nil n
csv_fields-csv_line zero (s ∷ fields) h fit = absurd (omega arith)
csv_fields-csv_line (suc n) (s ∷ []) h (here, fit) =
    first_field n s [] here tt ∙ ap (λ (t : List Str). s ∷ t) (csv_fields-nil n)
csv_fields-csv_line (suc n) (s ∷ t ∷ fields) h (here, fit) =
    first_field n s (b',' ∷ csv_line (t ∷ fields)) here refl
    ∙ ap (λ (u : List Str). s ∷ u) (csv_fields-csv_line n (t ∷ fields) (omega arith) fit)
