-- ===== src/Text/Laws.antt =====
-- What the string helpers of src/common.c promise to their callers.
use agent_guard_fast_path.Common.{
  ℕ, zero, suc, ◌-◌, ◌≤◌, ◌<◌, ◌≡◌, ◌≢◌, refl, ◌∙◌, true, false, List, [], ◌∷◌, ◌++◌, map, Str,
  str_eq, arith, length, get_or, take, take_all, All, ◌==◌, if◌then◌else◌, Bool-cases, inl, inr,
  leb, length-take,
}
use agent_guard_fast_path.Text.{
  copy_trunc, is_eol, trim_newline_from, trim_newline, tolower, str_ieq, html_escape,
  html_write_escaped,
}

-- A copy into a buffer of `size` bytes, `size` not zero, is the first `size - 1` bytes of the
-- source, and with the terminating NUL it fits.
pub copy_trunc_lem :
    (dst : Str) (size : ℕ) (src : Str)
    → 0 < size
    → (copy_trunc dst size src ≡ take (size - 1) src) × (length (copy_trunc dst size src) < size)
unfolding copy_trunc
copy_trunc_lem dst size src h = elim (Bool-cases (leb size (length src))) [
  | inl long ↦ rw long (ground (arith, length-take (size - 1) src))
  | inr short ↦ rw short (
      ground
        (arith, length-take (length src) src, take_all (size - 1) src, take_all (length src) src))
]

pub copy_trunc_whole :
    (dst : Str) (size : ℕ) (src : Str) → length src < size → copy_trunc dst size src ≡ src
copy_trunc_whole dst size src h =
    (copy_trunc_lem dst size src (omega arith)).0 ∙ take_all (size - 1) src (omega arith)

trimmed : ℕ → Str → ℕ
trimmed zero s = 0
trimmed (suc n) s = let rest = trimmed n s in if is_eol (get_or s n 0) then rest else suc n

trim_from_lem :
    (n : ℕ) (s : Str) → (trim_newline_from n s ≡ take (trimmed n s) s) × (trimmed n s ≤ n)
unfolding trim_newline_from trimmed
trim_from_lem zero s = (refl, omega arith)
trim_from_lem (suc n) s = ground (arith, trim_from_lem n s)

trimmed_eol : (n : ℕ) (s : Str) (i : ℕ) → trimmed n s ≤ i → i < n → is_eol (get_or s i 0) ≡ true
unfolding trimmed
trimmed_eol zero s i p q = absurd (omega arith)
trimmed_eol (suc n) s i p q = elim (Bool-cases (i == n)) [
  | inl e ↦ ground arith
  | inr ne ↦ ground (arith, trimmed_eol n s i)
]

trimmed_last : (n : ℕ) (s : Str) (k : ℕ) → trimmed n s ≡ suc k → is_eol (get_or s k 0) ≡ false
unfolding trimmed
trimmed_last zero s k e = absurd (omega arith)
trimmed_last (suc n) s k e = ground (arith, trimmed_last n s k)

-- `trim_newline` keeps a prefix of the string: every byte that it drops is a CR or LF, and the last
-- byte that it keeps, if any, is not.
pub trim_newline_lem :
    (s : Str)
    → (m : ℕ) × (m ≤ length s)
      × (trim_newline s ≡ take m s)
      × ((i : ℕ) → m ≤ i → i < length s → is_eol (get_or s i 0) ≡ true)
      × ((k : ℕ) → m ≡ suc k → is_eol (get_or s k 0) ≡ false)
unfolding trim_newline
trim_newline_lem s =
    let (e, b) = trim_from_lem (length s) s in
    (trimmed (length s) s, b, e, trimmed_eol (length s) s, trimmed_last (length s) s)

-- `str_ieq` decides the equality of the two strings in lower case.
pub str_ieq-eq-str_eq : (a b : Str) → str_ieq a b ≡ str_eq (map tolower a) (map tolower b)
unfolding str_ieq str_eq
str_ieq-eq-str_eq [] [] = refl
str_ieq-eq-str_eq [] (y ∷ b) = refl
str_ieq-eq-str_eq (x ∷ a) [] = refl
str_ieq-eq-str_eq (x ∷ a) (y ∷ b) = rw (str_ieq-eq-str_eq a b)

-- A byte that cannot open or close a tag or a quoted attribute.
abbrev pub IsHtmlText : ℕ → Type 0
IsHtmlText c = (c ≢ b'<') × (c ≢ b'>') × (c ≢ b'"')

All-append {ℓ κ} :
    {A : Type ℓ} (P : A → Type κ) (xs ys : List A) → All P xs → All P ys → All P (xs ++ ys)
All-append P [] ys h k = k
All-append P (x ∷ xs) ys h k = (h.0, All-append P xs ys h.1 k)

html_escape-IsHtmlText : (c : ℕ) → All IsHtmlText (html_escape c)
unfolding html_escape
html_escape-IsHtmlText c = ground arith

-- Whatever the text, what is written into the HTML report holds no `<`, `>` or `"`.
pub html_write_escaped-IsHtmlText : (s : Str) → All IsHtmlText (html_write_escaped s)
unfolding html_write_escaped
html_write_escaped-IsHtmlText [] = tt
html_write_escaped-IsHtmlText (c ∷ s) =
    All-append IsHtmlText (html_escape c) (html_write_escaped s) (html_escape-IsHtmlText c)
      (html_write_escaped-IsHtmlText s)
