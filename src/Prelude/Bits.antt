-- ===== src/Prelude/Bits.antt =====
-- Shifts, masks and disjoint unions of bits, as arithmetic.
use Prim.Native.Nat.{digits, differ, bit_and-bitwise, bit_or-bitwise, bit_xor-bitwise, bit_xor}
use Prim.Native.Nat.{
  ℕ, zero, suc, ◌+◌, ◌-◌, ◌*◌, ◌/◌, ◌%◌, ◌^◌, ◌≤◌, ◌<◌, min, max, bit_and, bit_or,
}
use mathlib.Core.Path.{◌≡◌, refl, ap, ◌∙◌}
use native.Mathlib.Omega.{arith}
use native.Mathlib.Nat.{two-pow-succ, div-add-mod', mod-lt, mod-eq_of_lt, add-mul-mod_self_right}

-- `x << k` of an unbounded number, and `x >> k`.
abbrev pub shl : ℕ → ℕ → ℕ
shl x k = x * 2 ^ k

abbrev pub shr : ℕ → ℕ → ℕ
shr x k = x / 2 ^ k

-- The native operations stand for `digits z f`: binary digits, `f` on each pair of them, `z` once the
-- first number is used up, with a count of digits to go.
module _ (z : ℕ → ℕ) (f : ℕ → ℕ → ℕ) where
  -- Two counts that reach the first number give the same.
  count_enough : (a b n m : ℕ) → a ≤ min n m → digits z f n a b ≡ digits z f m a b
  count_enough zero b zero zero h = refl
  count_enough zero b zero (suc m) h = refl
  count_enough zero b (suc n) zero h = refl
  count_enough zero b (suc n) (suc m) h = refl
  count_enough (suc a) b zero m h = absurd (omega arith)
  count_enough (suc a) b (suc n) zero h = absurd (omega arith)
  count_enough (suc a) b (suc n) (suc m) h =
      ap (λ t. t * 2 + f (suc a % 2) (b % 2)) (count_enough (suc a / 2) (b / 2) n m (omega arith))

  lowest_digit :
      (a b : ℕ)
      → digits z f (suc a) (suc a) b
        ≡ digits z f (suc a / 2) (suc a / 2) (b / 2) * 2 + f (suc a % 2) (b % 2)
  lowest_digit a b =
      ap (λ t. t * 2 + f (suc a % 2) (b % 2))
        (count_enough (suc a / 2) (b / 2) a (suc a / 2) (omega arith))

-- The lowest digit, split off.
pub bit_or_step : (x y : ℕ) → bit_or x y ≡ max (x % 2) (y % 2) + 2 * bit_or (x / 2) (y / 2)
bit_or_step zero y = omega (arith, bit_or-bitwise zero y, bit_or-bitwise zero (y / 2))
bit_or_step (suc x) y =
    let first = bit_or-bitwise (suc x) y in
    let later = bit_or-bitwise (suc x / 2) (y / 2) in
    omega (arith, first, later, lowest_digit (λ t. t) max x y)

pub bit_and_step : (x y : ℕ) → bit_and x y ≡ min (x % 2) (y % 2) + 2 * bit_and (x / 2) (y / 2)
bit_and_step zero y = omega (arith, bit_and-bitwise zero y, bit_and-bitwise zero (y / 2))
bit_and_step (suc x) y =
    let first = bit_and-bitwise (suc x) y in
    let later = bit_and-bitwise (suc x / 2) (y / 2) in
    omega (arith, first, later, lowest_digit (λ t. zero) min x y)

with_zero : (n a : ℕ) → a ≤ n → (bit_or a 0 ≡ a) × (bit_and a 0 ≡ 0)
with_zero n zero h = (refl, refl)
with_zero zero (suc a) h = absurd (omega arith)
with_zero (suc n) (suc a) h =
    let (same, nothing) = with_zero n (suc a / 2) (omega arith) in
    (omega (arith, bit_or_step (suc a) 0, same), omega (arith, bit_and_step (suc a) 0, nothing))

pub bit_or-zero : (a : ℕ) → bit_or a 0 ≡ a
bit_or-zero a = (with_zero a a (omega arith)).0

pub bit_and-zero : (a : ℕ) → bit_and a 0 ≡ 0
bit_and-zero a = (with_zero a a (omega arith)).1

pub two-pow-pos : (k : ℕ) → 0 < 2 ^ k
two-pow-pos zero = omega arith
two-pow-pos (suc k) = omega (arith, two-pow-succ k, two-pow-pos k)

half-shl : (k a : ℕ) → (shl a (suc k) / 2 ≡ shl a k) × (shl a (suc k) % 2 ≡ 0)
half-shl k a =
    let double = ap (λ (t : ℕ). a * t) (two-pow-succ k) in
    (omega (arith, double), omega (arith, double))

-- Bits that start at `k`, and bits below `k`: their union is their sum.
pub bit_or-shl : (k a b : ℕ) → b < 2 ^ k → bit_or (shl a k) b ≡ shl a k + b
bit_or-shl zero a b h =
    let none_below : b ≡ 0 = omega arith in rw none_below (omega (arith, bit_or-zero (shl a 0)))
bit_or-shl (suc k) a b h =
    let (half, even) = half-shl k a in
    let fits : b / 2 < 2 ^ k = omega (arith, two-pow-succ k) in
    let rest : bit_or (shl a (suc k) / 2) (b / 2) ≡ shl a k + b / 2 =
      rw half (bit_or-shl k a (b / 2) fits) in
    omega (arith, bit_or_step (shl a (suc k)) b, half, even, rest)

-- The remainder by `2 ^ suc k`, from the remainder of the half.
pub mod-double : (k a : ℕ) → a % 2 ^ suc k ≡ (a / 2) % 2 ^ k * 2 + a % 2
mod-double k a =
    let d = a / 2 / 2 ^ k in
    let r = (a / 2) % 2 ^ k * 2 + a % 2 in
    let power = two-pow-succ k in
    let split : a ≡ r + d * 2 ^ suc k =
      omega (arith, div-add-mod' (a / 2) (2 ^ k), ap (λ (t : ℕ). d * t) power) in
    let small : r < 2 ^ suc k = omega (arith, power, mod-lt (a / 2) (two-pow-pos k)) in
    ap (λ (t : ℕ). t % 2 ^ suc k) split
    ∙ add-mul-mod_self_right r d (2 ^ suc k)
    ∙ mod-eq_of_lt small

-- `x & (2 ^ k - 1)`.
pub bit_and_mask : (k a : ℕ) → bit_and a (2 ^ k - 1) ≡ a % 2 ^ k
bit_and_mask zero a = omega (arith, bit_and-zero a)
bit_and_mask (suc k) a =
    let power = two-pow-succ k in
    let positive = two-pow-pos k in
    let half : (2 ^ suc k - 1) / 2 ≡ 2 ^ k - 1 = omega (arith, power, positive) in
    let odd : (2 ^ suc k - 1) % 2 ≡ 1 = omega (arith, power, positive) in
    let rest : bit_and (a / 2) ((2 ^ suc k - 1) / 2) ≡ (a / 2) % 2 ^ k =
      rw half (bit_and_mask k (a / 2)) in
    omega (arith, bit_and_step a (2 ^ suc k - 1), odd, rest, mod-double k a)

pub zero-bit_xor : (b : ℕ) → bit_xor 0 b ≡ b
zero-bit_xor b = bit_xor-bitwise 0 b

pub bit_xor_step : (x y : ℕ) → bit_xor x y ≡ differ (x % 2) (y % 2) + 2 * bit_xor (x / 2) (y / 2)
bit_xor_step zero y = omega (arith, bit_xor-bitwise zero y, bit_xor-bitwise zero (y / 2))
bit_xor_step (suc x) y =
    let first = bit_xor-bitwise (suc x) y in
    let later = bit_xor-bitwise (suc x / 2) (y / 2) in
    omega (arith, first, later, lowest_digit (λ t. t) differ x y)

differ-le-one : (x y : ℕ) → x ≤ 1 → y ≤ 1 → differ x y ≤ 1
differ-le-one zero y p q = q
differ-le-one (suc x) zero p q = p
differ-le-one (suc zero) (suc zero) p q = omega arith
differ-le-one (suc zero) (suc (suc y)) p q = absurd (omega arith)
differ-le-one (suc (suc x)) (suc y) p q = absurd (omega arith)

-- Numbers of `k` bits have an exclusive or of `k` bits.
pub bit_xor-lt : (k a b : ℕ) → a < 2 ^ k → b < 2 ^ k → bit_xor a b < 2 ^ k
bit_xor-lt zero a b p q =
    let a_zero : a ≡ 0 = omega arith in
    let b_zero : b ≡ 0 = omega arith in rw (a_zero, b_zero) (omega (arith, zero-bit_xor 0))
bit_xor-lt (suc k) a b p q = omega (
  arith,
  two-pow-succ k,
  bit_xor_step a b,
  differ-le-one (a % 2) (b % 2) (omega arith) (omega arith),
  bit_xor-lt k (a / 2) (b / 2) (omega (arith, two-pow-succ k)) (omega (arith, two-pow-succ k)),
)

differ-differ : (x y : ℕ) → x ≤ 1 → y ≤ 1 → differ y (differ x y) ≡ x
differ-differ zero zero p q = refl
differ-differ zero (suc zero) p q = refl
differ-differ (suc zero) zero p q = refl
differ-differ (suc zero) (suc zero) p q = refl
differ-differ (suc (suc x)) y p q = absurd (omega arith)
differ-differ zero (suc (suc y)) p q = absurd (omega arith)
differ-differ (suc zero) (suc (suc y)) p q = absurd (omega arith)

-- A xor is taken back by the same number.
pub bit_xor-bit_xor : (k x y : ℕ) → x < 2 ^ k → y < 2 ^ k → bit_xor y (bit_xor x y) ≡ x
bit_xor-bit_xor zero x y p q =
    let x_zero : x ≡ 0 = omega arith in let y_zero : y ≡ 0 = omega arith in rw (x_zero, y_zero) refl
bit_xor-bit_xor (suc k) x y p q =
    let z = bit_xor x y in
    let split = bit_xor_step x y in
    let bit = differ-le-one (x % 2) (y % 2) (omega arith) (omega arith) in
    let half : z / 2 ≡ bit_xor (x / 2) (y / 2) = omega (arith, split, bit) in
    let last : z % 2 ≡ differ (x % 2) (y % 2) = omega (arith, split, bit) in
    let rest =
      bit_xor-bit_xor k (x / 2) (y / 2) (omega (arith, two-pow-succ k))
        (omega (arith, two-pow-succ k)) in
    let halves : bit_xor (y / 2) (z / 2) ≡ x / 2 = rw half rest in
    let bits : differ (y % 2) (z % 2) ≡ x % 2 =
      rw last (differ-differ (x % 2) (y % 2) (omega arith) (omega arith)) in
    omega (arith, bit_xor_step y z, halves, bits)

pub bit_xor-zero : (k x : ℕ) → x < 2 ^ k → bit_xor x 0 ≡ x
bit_xor-zero k x h =
    omega (arith, bit_xor-bit_xor k x 0 h (two-pow-pos k), zero-bit_xor (bit_xor x 0))
