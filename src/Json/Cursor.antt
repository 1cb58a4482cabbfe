-- ===== src/Json/Cursor.antt =====
-- The JSON reader stays in its buffer and always moves its cursor forward.
use mathlib.Core.Option
use agent_guard_fast_path.Common.{
  ℕ, ◌+◌, ◌≤◌, ◌<◌, Bool, true, false, not, ◌&&◌, Option, none, some, [], ◌∷◌, Str, arith, inl, inr,
  ltb, ◌==◌, if◌then◌else◌, Bool-cases, length,
}
use agent_guard_fast_path.Text.{skip_ws}
use agent_guard_fast_path.Json.{unescape, token_from, open_token, parse_json_string_token}

-- A token of fewer than `size - n` bytes and a cursor behind the start of `s`.
abbrev pub Fits : ℕ → ℕ → Str → Option (Str × Str) → Type 0
Fits size n s none = Unit
Fits size n s (some r) = (n + length r.0 < size) × (length r.1 < length s)

Fits-map :
    (size n : ℕ) (stored : Bool) (byte c : ℕ) (p : Str) (o : Option (Str × Str))
    → Fits size (if stored then n + 1 else n) p o
    → Fits size n
        (c ∷ p)
        (Option.map (λ (r : Str × Str). (if stored then byte ∷ r.0 else r.0, r.1)) o)
Fits-map size n stored byte c p none h = tt
Fits-map size n true byte c p (some r) h = omega (arith, h)
Fits-map size n false byte c p (some r) h = omega (arith, h)

token_from-Fits :
    (size n : ℕ) (escaped : Bool) (s : Str) → n < size → Fits size n s (token_from size n escaped s)
unfolding token_from
token_from-Fits size n escaped [] h = tt
token_from-Fits size n escaped (c ∷ p) h =
    let opens = not escaped && c == b'\\' in
    let stored = not opens && ltb (n + 1) size in
    let n' = if stored then n + 1 else n in
    let step =
      Fits-map size n stored (if escaped then unescape c else c) c p (token_from size n' opens p)
        (token_from-Fits size n' opens p (ground arith)) in
    elim (Bool-cases (not escaped && c == b'"')) [
      | inl ends ↦ rw ends (omega (arith, h))
      | inr more ↦ rw more step
    ]

pub length-skip_ws : (s : Str) → length (skip_ws s) ≤ length s
unfolding skip_ws
length-skip_ws [] = omega arith
length-skip_ws (c ∷ s) = ground (arith, length-skip_ws s)

open_token-Fits : (s : Str) (size : ℕ) → 0 < size → Fits size 0 s (open_token s size)
unfolding open_token
open_token-Fits [] size h = tt
open_token-Fits (c ∷ p) size h = elim (Bool-cases (c == b'"')) [
  | inl q ↦ rw q (weaken (token_from size 0 false p) (token_from-Fits size 0 false p h))
  | inr nq ↦ rw nq tt
]
  where
    weaken : (o : Option (Str × Str)) → Fits size 0 p o → Fits size 0 (c ∷ p) o
    weaken none k = tt
    weaken (some r) k = omega (arith, k)

Fits-behind :
    (size : ℕ) (s t : Str) (o : Option (Str × Str))
    → length s ≤ length t
    → Fits size 0 s o
    → Fits size 0 t o
Fits-behind size s t none h k = tt
Fits-behind size s t (some r) h k = omega (arith, h, k)

-- A token that is read into a buffer of `size` bytes, `size` not zero, leaves room for its NUL, and
-- the cursor is left nearer to the end of the text.
pub parse_json_string_token-Fits :
    (s : Str) (size : ℕ) → 0 < size → Fits size 0 s (parse_json_string_token s size)
unfolding parse_json_string_token
parse_json_string_token-Fits s size h =
    Fits-behind size (skip_ws s) s (open_token (skip_ws s) size) (length-skip_ws s)
      (open_token-Fits (skip_ws s) size h)
