-- ===== src/Ts/Gorilla/Zeros.antt =====
-- What the zeros of a number say of its size and its divisors, for senko-ts/src/gorilla.rs.
use senko.Prelude.{
  ℕ, zero, suc, ◌+◌, ◌-◌, ◌*◌, ◌/◌, ◌%◌, ◌^◌, ◌<◌, ◌≤◌, ◌≡◌, ◌≢◌, ◌⊎◌, refl, sym, ap, ◌∙◌, ltb,
  ◌==◌, arith, Bool-cases, inl, inr,
}
use native.Mathlib.Nat.{
  two-pow-succ, div-div-eq-div-mul, add-mul, pow-le-pow_right, mul-le-mul_right, mul-add,
}
use senko.Ts.Gorilla.{leading_zeros, trailing_zeros}

pub leading_fits :
    (n x : ℕ) → x < 2 ^ n → (leading_zeros n x ≤ n) × (x < 2 ^ (n - leading_zeros n x))
unfolding leading_zeros
leading_fits zero x h = (omega arith, omega arith)
leading_fits (suc n) x h = elim (Bool-cases (ltb x (2 ^ n))) [
  | inl small ↦
      let (bound, fits) = leading_fits n x (ground arith) in
      let same : suc n - suc (leading_zeros n x) ≡ n - leading_zeros n x = omega arith in
      rw small (omega (arith, bound), rw same fits)
  | inr big ↦ let same : suc n - 0 ≡ suc n = omega arith in rw big (omega arith, rw same h)
]

pub pow_add : (a b : ℕ) → 2 ^ (a + b) ≡ 2 ^ a * 2 ^ b
pow_add zero b = let same : zero + b ≡ b = omega arith in rw same (omega arith)
pow_add (suc a) b =
    let same : suc a + b ≡ suc (a + b) = omega arith in
    rw same (
      omega (
        arith,
        pow_add a b,
        two-pow-succ (a + b),
        two-pow-succ a,
        add-mul (2 ^ a) (2 ^ a) (2 ^ b),
        ap (λ t. t * 2 ^ b) (two-pow-succ a),
      ))

div-power_suc : (x t : ℕ) → x / 2 ^ suc t ≡ x / 2 / 2 ^ t
div-power_suc x t =
    let twice : 2 ^ suc t ≡ 2 * 2 ^ t = omega (arith, two-pow-succ t) in
    ap (λ p. x / p) twice ∙ sym (div-div-eq-div-mul x 2 (2 ^ t))

times-power_suc : (q t : ℕ) → q * 2 ^ suc t ≡ q * 2 ^ t + q * 2 ^ t
times-power_suc q t = ap (λ p. q * p) (two-pow-succ t) ∙ mul-add q (2 ^ t) (2 ^ t)

-- A power of two up to the trailing zeros divides the number.
pub trailing_divides : (n t x : ℕ) → t ≤ trailing_zeros n x → x / 2 ^ t * 2 ^ t ≡ x
unfolding trailing_zeros
trailing_divides n zero x h = omega arith
trailing_divides zero (suc t) x h = absurd (omega arith)
trailing_divides (suc n) (suc t) x h = elim (Bool-cases (x % 2 == 0)) [
  | inl even ↦
      let below : suc t ≤ suc (trailing_zeros n (x / 2)) = rw even at h in
      let half = trailing_divides n t (x / 2) (omega (arith, below)) in
      let halves : x / 2 + x / 2 ≡ x = ground arith in
      ap (λ q. q * 2 ^ suc t) (div-power_suc x t)
      ∙ times-power_suc (x / 2 / 2 ^ t) t
      ∙ ap (λ y. y + y) half
      ∙ halves
  | inr odd ↦ let below : suc t ≤ 0 = rw odd at h in absurd (omega (arith, below))
]

pub trailing_lt : (n x : ℕ) → x ≢ 0 → x < 2 ^ n → trailing_zeros n x < n
unfolding trailing_zeros
trailing_lt zero x h k = absurd (h (omega arith))
trailing_lt (suc n) x h k = elim (Bool-cases (x % 2 == 0)) [
  | inl even ↦ rw even (
      let fits : x / 2 < 2 ^ n = omega (arith, two-pow-succ n) in
      omega (arith, trailing_lt n (x / 2) (λ e. h (ground arith)) fits))
  | inr odd ↦ rw odd (omega arith)
]

-- A number below `2 ^ k` loses `t` bits when it is shifted down by `t`.
pub shifted_fits : (k t x : ℕ) → t ≤ k → x < 2 ^ k → x / 2 ^ t < 2 ^ (k - t)
shifted_fits k zero x h small = let same : k - 0 ≡ k = omega arith in rw same (omega arith)
shifted_fits zero (suc t) x h small = absurd (omega arith)
shifted_fits (suc k) (suc t) x h small =
    let fits : x / 2 < 2 ^ k = omega (arith, two-pow-succ k) in
    let same : suc k - suc t ≡ k - t = omega arith in
    rw (same, div-power_suc x t) (shifted_fits k t (x / 2) (omega arith) fits)

Nat-cases : (n : ℕ) → (n ≡ 0) ⊎ ((m : ℕ) × (n ≡ suc m))
Nat-cases zero = inl refl
Nat-cases (suc m) = inr (m, refl)

one_le : (q : ℕ) → 1 ≤ suc q
one_le q = omega arith

-- A number that is not 0 is at least its divisor.
pub divisor_le : (t x : ℕ) → x ≢ 0 → x / 2 ^ t * 2 ^ t ≡ x → 2 ^ t ≤ x
divisor_le t x h e = elim (Nat-cases (x / 2 ^ t)) [
  | inl none_left ↦ absurd (h (sym e ∙ ap (λ q. q * 2 ^ t) none_left ∙ omega arith))
  | inr (q, more) ↦
      let split : suc q * 2 ^ t ≡ x = ap (λ q. q * 2 ^ t) (sym more) ∙ e in
      omega (arith, split, mul-le-mul_right (2 ^ t) (one_le q))
]

pub power_below : (t k x : ℕ) → 2 ^ t ≤ x → x < 2 ^ k → t < k
power_below t k x p q = elim (Bool-cases (ltb t k)) [
  | inl below ↦ ground arith
  | inr above ↦
      let larger : 2 ^ k ≤ 2 ^ t = pow-le-pow_right (omega arith) (ground arith) in
      absurd (omega (arith, larger))
]
