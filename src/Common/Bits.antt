-- ===== src/Common/Bits.antt =====
-- Single bits of a number, and what `|`, `&`, `^` and `1 << k` do to them.
use Prim.Native.Nat.{ℕ, zero, suc, ◌+◌, ◌-◌, ◌*◌, ◌/◌, ◌%◌, ◌^◌, ◌≤◌, ◌<◌, min, max}
use Prim.Native.Nat.{bit_and, bit_or, bit_xor, digits, bitwise, differ}
use Prim.Native.Nat.{bit_and-bitwise, bit_or-bitwise, bit_xor-bitwise}
use mathlib.Core.Path.{◌≡◌, ◌∙◌, refl, ap}
use native.Mathlib.Nat.{pow-suc, one-le-pow}
use native.Mathlib.Omega.{arith}
use agent_guard_fast_path.Common.Tests.{◌==◌, ltb, if◌then◌else◌}

-- The native operations recurse on fuel, of which they take as much as the first number; a round of
-- fuel more than that changes nothing.
module _ (alone : ℕ → ℕ) (op : ℕ → ℕ → ℕ) where
  one_more : (fuel x y : ℕ) → x ≤ fuel → digits alone op (suc fuel) x y ≡ digits alone op fuel x y
  one_more zero zero y h = refl
  one_more zero (suc x) y h = absurd (omega arith)
  one_more (suc fuel) zero y h = refl
  one_more (suc fuel) (suc x) y h = rw (one_more fuel (suc x / 2) (y / 2) (omega arith))

  spare : (k x y : ℕ) → digits alone op (k + x) x y ≡ bitwise alone op x y
  spare zero x y = ap (λ (n : ℕ). digits alone op n x y) (omega arith)
  spare (suc k) x y =
      let shift : suc k + x ≡ suc (k + x) = omega arith in
      ap (λ (n : ℕ). digits alone op n x y) shift ∙ one_more (k + x) x y (omega arith) ∙ spare k x y

  lowest :
      (x y : ℕ)
      → bitwise alone op (suc x) y
        ≡ op (suc x % 2) (y % 2) + 2 * bitwise alone op (suc x / 2) (y / 2)
  lowest x y =
      let rest : x - suc x / 2 + suc x / 2 ≡ x = omega arith in
      omega (
        arith,
        spare (x - suc x / 2) (suc x / 2) (y / 2),
        ap (λ (n : ℕ). digits alone op n (suc x / 2) (y / 2)) rest,
      )

pub bit_or_step : (x y : ℕ) → bit_or x y ≡ max (x % 2) (y % 2) + 2 * bit_or (x / 2) (y / 2)
bit_or_step zero y = omega (arith, bit_or-bitwise 0 y, bit_or-bitwise 0 (y / 2))
bit_or_step (suc x) y =
    omega
      (arith, lowest (λ t. t) max x y, bit_or-bitwise (suc x) y, bit_or-bitwise (suc x / 2) (y / 2))

pub bit_and_step : (x y : ℕ) → bit_and x y ≡ min (x % 2) (y % 2) + 2 * bit_and (x / 2) (y / 2)
bit_and_step zero y = omega (arith, bit_and-bitwise 0 y, bit_and-bitwise 0 (y / 2))
bit_and_step (suc x) y =
    omega (
      arith,
      lowest (λ t. 0) min x y,
      bit_and-bitwise (suc x) y,
      bit_and-bitwise (suc x / 2) (y / 2),
    )

differ_digits : (x y : ℕ) → x < 2 → y < 2 → differ x y ≡ (x + y) % 2
differ_digits zero y p q = omega arith
differ_digits (suc zero) zero p q = refl
differ_digits (suc zero) (suc zero) p q = refl
differ_digits (suc zero) (suc (suc y)) p q = absurd (omega arith)
differ_digits (suc (suc x)) y p q = absurd (omega arith)

pub bit_xor_step : (a b : ℕ) → bit_xor a b ≡ (a + b) % 2 + 2 * bit_xor (a / 2) (b / 2)
bit_xor_step zero b = omega (arith, bit_xor-bitwise 0 b, bit_xor-bitwise 0 (b / 2))
bit_xor_step (suc a) b = omega (
  arith,
  lowest (λ t. t) differ a b,
  differ_digits (suc a % 2) (b % 2) (omega arith) (omega arith),
  bit_xor-bitwise (suc a) b,
  bit_xor-bitwise (suc a / 2) (b / 2),
)

-- Bit `k` of `n`.
unfoldable pub bit : ℕ → ℕ → ℕ
bit n zero = n % 2
bit n (suc k) = bit (n / 2) k

pub bit-le-one : (n k : ℕ) → bit n k ≤ 1
unfolding bit
bit-le-one n zero = omega arith
bit-le-one n (suc k) = bit-le-one (n / 2) k

pub bit-or : (k a b : ℕ) → bit (bit_or a b) k ≡ max (bit a k) (bit b k)
unfolding bit
bit-or zero a b = omega (arith, bit_or_step a b)
bit-or (suc k) a b =
    let half : bit_or a b / 2 ≡ bit_or (a / 2) (b / 2) = omega (arith, bit_or_step a b) in
    rw half (bit-or k (a / 2) (b / 2))

pub bit-xor : (k a b : ℕ) → bit (bit_xor a b) k ≡ (bit a k + bit b k) % 2
unfolding bit
bit-xor zero a b = omega (arith, bit_xor_step a b)
bit-xor (suc k) a b =
    let half : bit_xor a b / 2 ≡ bit_xor (a / 2) (b / 2) = omega (arith, bit_xor_step a b) in
    rw half (bit-xor k (a / 2) (b / 2))

pub bit-zero : (k : ℕ) → bit 0 k ≡ 0
unfolding bit
bit-zero zero = refl
bit-zero (suc k) = bit-zero k

half_pow : (k : ℕ) → (2 ^ suc k / 2 ≡ 2 ^ k) × (2 ^ suc k % 2 ≡ 0)
half_pow k = (omega (arith, pow-suc 2 k), omega (arith, pow-suc 2 k))

pub bit-pow : (j k : ℕ) → bit (2 ^ j) k ≡ (if j == k then 1 else 0)
unfolding bit
bit-pow zero zero = refl
bit-pow zero (suc k) = ground (arith, bit-zero k)
bit-pow (suc j) zero = ground (arith, (half_pow j).1)
bit-pow (suc j) (suc k) = rw ((half_pow j).0) (ground (arith, bit-pow j k))

pub bit_and-le : (n a b : ℕ) → a ≤ n → bit_and a b ≤ b
bit_and-le n zero b h = omega (arith, bit_and-bitwise 0 b)
bit_and-le zero (suc a) b h = absurd (omega arith)
bit_and-le (suc n) (suc a) b h =
    omega (arith, bit_and_step (suc a) b, bit_and-le n (suc a / 2) (b / 2) (omega arith))

-- `a & (1 << k)` is bit `k` of `a`, at its place.
pub bit_and-pow : (k a : ℕ) → bit_and a (2 ^ k) ≡ bit a k * 2 ^ k
unfolding bit
bit_and-pow zero a = omega (arith, bit_and_step a 1, bit_and-le (a / 2) (a / 2) 0 (omega arith))
bit_and-pow (suc k) a =
    let (h, z) = half_pow k in
    omega (
      arith,
      bit_and_step a (2 ^ suc k),
      ap (bit_and (a / 2)) h,
      z,
      bit_and-pow k (a / 2),
      ap (λ (t : ℕ). bit (a / 2) k * t) (pow-suc 2 k),
    )

-- The test `(a & (1 << k)) == 0`.
pub bit_test : (k a : ℕ) → (bit_and a (2 ^ k) == 0) ≡ (bit a k == 0)
bit_test k a = grind (arith, bit_and-pow k a, one-le-pow k 2, bit-le-one a k)

-- Storing into a byte keeps the eight lowest bits.
pub bit-byte : (k n : ℕ) → k < 8 → bit (n % 2 ^ 8) k ≡ bit n k
unfolding bit
bit-byte zero n h = omega arith
bit-byte (suc zero) n h = omega arith
bit-byte (suc (suc zero)) n h = omega arith
bit-byte (suc (suc (suc zero))) n h = omega arith
bit-byte (suc (suc (suc (suc zero)))) n h = omega arith
bit-byte (suc (suc (suc (suc (suc zero))))) n h = omega arith
bit-byte (suc (suc (suc (suc (suc (suc zero)))))) n h = omega arith
bit-byte (suc (suc (suc (suc (suc (suc (suc zero))))))) n h = omega arith
bit-byte (suc (suc (suc (suc (suc (suc (suc (suc k)))))))) n h = absurd (omega arith)

-- `^` by the same number twice gives the number back.
pub xor_cancel_fuel : (n a m : ℕ) → a ≤ n → m ≤ n → bit_xor (bit_xor a m) m ≡ a
xor_cancel_fuel zero zero zero p q = refl
xor_cancel_fuel zero zero (suc m) p q = absurd (omega arith)
xor_cancel_fuel zero (suc a) m p q = absurd (omega arith)
xor_cancel_fuel (suc n) a m p q =
    let half : bit_xor a m / 2 ≡ bit_xor (a / 2) (m / 2) = omega (arith, bit_xor_step a m) in
    omega (
      arith,
      bit_xor_step a m,
      bit_xor_step (bit_xor a m) m,
      ap (λ (t : ℕ). bit_xor t (m / 2)) half,
      xor_cancel_fuel n (a / 2) (m / 2) (omega arith) (omega arith),
    )

pub xor_cancel : (a m : ℕ) → bit_xor (bit_xor a m) m ≡ a
xor_cancel a m = xor_cancel_fuel (a + m) a m (omega arith) (omega arith)

-- `^` stays below a power of two that bounds both numbers.
pub xor-lt-pow : (k a b : ℕ) → a < 2 ^ k → b < 2 ^ k → bit_xor a b < 2 ^ k
xor-lt-pow zero zero zero p q = omega arith
xor-lt-pow zero zero (suc b) p q = absurd (omega arith)
xor-lt-pow zero (suc a) b p q = absurd (omega arith)
xor-lt-pow (suc k) a b p q = omega (
  arith,
  bit_xor_step a b,
  pow-suc 2 k,
  xor-lt-pow k (a / 2) (b / 2) (omega (arith, pow-suc 2 k)) (omega (arith, pow-suc 2 k)),
)

-- The bit above which a number has none tells it from those below.
pub bit_top : (k w : ℕ) → w < 2 ^ suc k → bit w k ≡ (if ltb w (2 ^ k) then 0 else 1)
unfolding bit
bit_top zero w h = ground arith
bit_top (suc k) w h = ground (arith, bit_top k (w / 2), pow-suc 2 (suc k), pow-suc 2 k)
