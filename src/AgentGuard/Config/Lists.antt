-- ===== src/AgentGuard/Config/Lists.antt =====
-- The loops of a policy over its lists, as membership.
use mathlib.Core.List.{Memᴰ}
use agent_guard_fast_path.Common.{
  ℕ, ◌%◌, ◌/◌, ◌≢◌, ◌≡◌, ◌↔◌, refl, sym, ap₂, subst, true, false≢true, ◌&&◌, List, [], ◌∷◌, ◌++◌,
  Str, str_eq, str_eq_iff, ==_iff, arith, Bool-cases, inl, inr, ℤ, int_eq, int_eq_iff,
}
use agent_guard_fast_path.Common.{bit_and_step, bit_and-le}
use agent_guard_fast_path.Text.{codes}
use agent_guard_fast_path.Json.{starts_with}
use agent_guard_fast_path.AgentGuard.Config.Evaluate.{
  int_in, str_in, prefix_in, for_writing, protected_hit, shells,
}

pub int_in_iff : (xs : List ℤ) (n : ℤ) → (int_in xs n ≡ true) ↔ Memᴰ n xs
unfolding int_in
int_in_iff xs n = (found xs, holds xs)
  where
    found : (xs : List ℤ) → int_in xs n ≡ true → Memᴰ n xs
    found [] h = absurd (false≢true h)
    found (x ∷ xs) h = elim (Bool-cases (int_eq x n)) [
      | inl e ↦ Memᴰ.head (sym ((int_eq_iff x n).0 e))
      | inr e ↦ Memᴰ.tail (found xs (rw e at h))
    ]

    holds : (xs : List ℤ) → Memᴰ n xs → int_in xs n ≡ true
    holds [] m = elim m [ ]
    holds (x ∷ xs) (Memᴰ.head e) = rw ((int_eq_iff x n).1 (sym e)) refl
    holds (x ∷ xs) (Memᴰ.tail m) = elim (Bool-cases (int_eq x n)) [
      | inl e ↦ rw e refl
      | inr e ↦ rw e (holds xs m)
    ]

pub str_in_iff : (xs : List Str) (s : Str) → (str_in xs s ≡ true) ↔ Memᴰ s xs
unfolding str_in
str_in_iff xs s = (found xs, holds xs)
  where
    found : (xs : List Str) → str_in xs s ≡ true → Memᴰ s xs
    found [] h = absurd (false≢true h)
    found (x ∷ xs) h = elim (Bool-cases (str_eq s x)) [
      | inl e ↦ Memᴰ.head ((str_eq_iff s x).0 e)
      | inr e ↦ Memᴰ.tail (found xs (rw e at h))
    ]

    holds : (xs : List Str) → Memᴰ s xs → str_in xs s ≡ true
    holds [] m = elim m [ ]
    holds (x ∷ xs) (Memᴰ.head e) = rw ((str_eq_iff s x).1 e) refl
    holds (x ∷ xs) (Memᴰ.tail m) = elim (Bool-cases (str_eq s x)) [
      | inl e ↦ rw e refl
      | inr e ↦ rw e (holds xs m)
    ]

-- `path` begins with `p`.
abbrev pub IsPrefix : Str → Str → Type 0
IsPrefix p path = (rest : Str) × (path ≡ p ++ rest)

pub starts_with_iff : (path p : Str) → (starts_with path p ≡ true) ↔ IsPrefix p path
unfolding starts_with
starts_with_iff path p = (rest_of path p, holds path p)
  where
    rest_of : (path p : Str) → starts_with path p ≡ true → IsPrefix p path
    rest_of path [] h = (path, refl)
    rest_of [] (y ∷ p) h = absurd (false≢true h)
    rest_of (x ∷ path) (y ∷ p) h =
        let (rest, e) = rest_of path p (ground arith) in
        (rest, ap₂ ◌∷◌ ((==_iff x y).0 (ground arith)) e)

    holds : (path p : Str) → IsPrefix p path → starts_with path p ≡ true
    holds path p (rest, e) = rw e (self p rest)
      where
        self : (p rest : Str) → starts_with (p ++ rest) p ≡ true
        self [] rest = refl
        self (y ∷ p) rest = ground (arith, self p rest)

pub prefix_in_iff :
    (ps : List Str) (path : Str)
    → (prefix_in ps path ≡ true) ↔ ((p : Str) × Memᴰ p ps × IsPrefix p path)
unfolding prefix_in
prefix_in_iff ps path = (found ps, λ (p, m, e). holds ps p m e)
  where
    found : (ps : List Str) → prefix_in ps path ≡ true → (p : Str) × Memᴰ p ps × IsPrefix p path
    found [] h = absurd (false≢true h)
    found (x ∷ ps) h = elim (Bool-cases (starts_with path x)) [
      | inl e ↦ (x, Memᴰ.head refl, (starts_with_iff path x).0 e)
      | inr e ↦ let (p, m, q) = found ps (rw e at h) in (p, Memᴰ.tail m, q)
    ]

    holds : (ps : List Str) (p : Str) → Memᴰ p ps → IsPrefix p path → prefix_in ps path ≡ true
    holds [] p m e = elim m [ ]
    holds (x ∷ ps) p (Memᴰ.head same) e =
        rw ((starts_with_iff path x).1 (subst (λ q. IsPrefix q path) same e)) refl
    holds (x ∷ ps) p (Memᴰ.tail m) e = elim (Bool-cases (starts_with path x)) [
      | inl h ↦ rw h refl
      | inr h ↦ rw h (holds ps p m e)
    ]

pub protected_hit_cases :
    (ps : List Str) (path : Str) (flags : ℕ)
    → protected_hit ps path flags ≡ (for_writing flags && prefix_in ps path)
unfolding protected_hit prefix_in
protected_hit_cases [] path flags = ground arith
protected_hit_cases (p ∷ ps) path flags = ground (arith, protected_hit_cases ps path flags)

-- `O_WRONLY` is 1 and `O_RDWR` is 2: one of the two lowest bits is set.
abbrev pub Writes : ℕ → Type 0
Writes flags = flags % 4 ≢ 0

pub for_writing_iff : (flags : ℕ) → (for_writing flags ≡ true) ↔ Writes flags
for_writing_iff flags = ground (
  arith,
  bit_and_step flags 1,
  bit_and_step flags 2,
  bit_and_step (flags / 2) 1,
  bit_and-le flags (flags / 2) 0 (omega arith),
  bit_and-le flags (flags / 2 / 2) 0 (omega arith),
)

-- The shells under /bin.
abbrev pub bin_shells : List Str
bin_shells =
    codes "/bin/sh"
    ∷ codes "/bin/bash"
    ∷ codes "/bin/zsh"
    ∷ codes "/bin/dash"
    ∷ codes "/bin/ksh"
    ∷ codes "/bin/csh"
    ∷ codes "/bin/tcsh"
    ∷ codes "/bin/fish"
    ∷ []

pub shells-bin_shells : shells ≡ bin_shells
shells-bin_shells = refl
