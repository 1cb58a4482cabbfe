-- ===== src/Common/Int.antt =====
-- Signed integers over the native numbers; `negsuc n` is `-(n + 1)`.
use Prim.Native.Nat.{ℕ, ◌+◌, ◌-◌, ◌%◌, ◌^◌}
use mathlib.Core.Bool.{Bool, true, false, false≢true}
use mathlib.Core.Path.{◌≡◌, refl, ap, subst}
use mathlib.Core.Logic.{◌↔◌}
use native.Mathlib.Omega.{arith}
use agent_guard_fast_path.Common.Tests.{ltb, ◌==◌, ==_iff, if◌then◌else◌}

pub data ℤ : Type 0 where
  pos : ℕ → ℤ
  negsuc : ℕ → ℤ

abbrev pub int_eq : ℤ → ℤ → Bool
int_eq (pos a) (pos b) = a == b
int_eq (negsuc a) (negsuc b) = a == b
int_eq (pos a) (negsuc b) = false
int_eq (negsuc a) (pos b) = false

abbrev pub int_lt : ℤ → ℤ → Bool
int_lt (pos a) (pos b) = ltb a b
int_lt (negsuc a) (negsuc b) = ltb b a
int_lt (pos a) (negsuc b) = false
int_lt (negsuc a) (pos b) = true

-- `(uint32_t)z`
abbrev pub to_u32 : ℤ → ℕ
to_u32 (pos a) = a % 2 ^ 32
to_u32 (negsuc a) = 2 ^ 32 - 1 - a % 2 ^ 32

-- The sum of two integers, without the wrap of `int`.
unfoldable pub int_add : ℤ → ℤ → ℤ
int_add (pos a) (pos b) = pos (a + b)
int_add (negsuc a) (negsuc b) = negsuc (a + b + 1)
int_add (pos a) (negsuc b) = if ltb b a then pos (a - b - 1) else negsuc (b - a)
int_add (negsuc a) (pos b) = if ltb a b then pos (b - a - 1) else negsuc (a - b)

-- `(uint64_t)z`
abbrev pub to_u64 : ℤ → ℕ
to_u64 (pos a) = a % 2 ^ 64
to_u64 (negsuc a) = 2 ^ 64 - 1 - a % 2 ^ 64

pub int_eq_self : (a : ℤ) → int_eq a a ≡ true
int_eq_self a = grind arith

pub int_eq_sym : (a b : ℤ) → int_eq a b ≡ int_eq b a
int_eq_sym (pos a) (pos b) = ground arith
int_eq_sym (pos a) (negsuc b) = refl
int_eq_sym (negsuc a) (pos b) = refl
int_eq_sym (negsuc a) (negsuc b) = ground arith

eq_of_int_eq : (a b : ℤ) → int_eq a b ≡ true → a ≡ b
eq_of_int_eq (pos a) (pos b) h = ap pos ((==_iff a b).0 h)
eq_of_int_eq (pos a) (negsuc b) h = absurd (false≢true h)
eq_of_int_eq (negsuc a) (pos b) h = absurd (false≢true h)
eq_of_int_eq (negsuc a) (negsuc b) h = ap negsuc ((==_iff a b).0 h)

pub int_eq_iff : (a b : ℤ) → (int_eq a b ≡ true) ↔ (a ≡ b)
int_eq_iff a b = (eq_of_int_eq a b, λ e. subst (λ z. int_eq a z ≡ true) e (int_eq_self a))
