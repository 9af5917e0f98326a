-- ===== src/Ts/Gorilla/Windows.antt =====
-- The windows of senko-ts/src/gorilla.rs: what the bits kept in one give back.
use senko.Prelude.{
  ℕ, ◌+◌, ◌-◌, ◌*◌, ◌/◌, ◌%◌, ◌^◌, ◌<◌, ◌≤◌, ◌≡◌, ◌≢◌, sym, ap, ◌∙◌, true, arith, u64_mod, bit_xor,
}
use senko.Prelude.Bits.{shl, shr}
use native.Mathlib.Nat.{mod-eq_of_lt, pow-le-pow_right, mul_assoc}
use senko.Ts.Gorilla.{
  Window, meaningful, reuses, leading_zeros, trailing_zeros, encode_sig_len, decode_sig_len,
}
use senko.Ts.Gorilla.Zeros.{
  leading_fits, trailing_divides, shifted_fits, divisor_le, power_below, pow_add,
}
use senko.Ts.Gorilla.Writing.{IsWindow, window}

-- What the decoder needs to know of a xor and of the window that it is written in.
pub record Fits (xor l t : ℕ) : Type 0 where
  pub bound : xor < 2 ^ 64
  pub room : l + t < 64
  pub below : xor < 2 ^ (64 - l)
  pub divides : xor / 2 ^ t * 2 ^ t ≡ xor

pub meaningful_lem : (l t : ℕ) → l + t < 64 → meaningful l t ≡ 64 - l - t
meaningful_lem l t h = omega arith

-- The bits that a window keeps, shifted back, are the whole xor.
pub window_whole :
    (xor l t : ℕ) → Fits xor l t → shl (shr xor t % 2 ^ meaningful l t) t % u64_mod ≡ xor
window_whole xor l t fits =
    let size = meaningful_lem l t fits.room in
    let small : xor / 2 ^ t < 2 ^ meaningful l t =
      rw size (shifted_fits (64 - l) t xor (omega (arith, fits.room)) fits.below) in
    ap (λ q. q * 2 ^ t % u64_mod) (mod-eq_of_lt small)
    ∙ ap (λ q. q % u64_mod) fits.divides
    ∙ mod-eq_of_lt fits.bound

pub sig_len_back : (m : ℕ) → 0 < m → m ≤ 64 → decode_sig_len (encode_sig_len m) ≡ m
unfolding encode_sig_len decode_sig_len
sig_len_back m p q = ground arith

pub sig_len_lt : (m : ℕ) → 0 < m → m ≤ 64 → encode_sig_len m < 64
unfolding encode_sig_len
sig_len_lt m p q = ground arith

trailing_back : (l t : ℕ) → l + t < 64 → meaningful l (meaningful l t) ≡ t
trailing_back l t h = omega (arith, meaningful_lem l t h)

-- A xor's own zeros give a window that fits it.
pub own_window :
    (xor : ℕ) → xor ≢ 0 → xor < 2 ^ 64 → Fits xor (leading_zeros 64 xor) (trailing_zeros 64 xor)
own_window xor filled bound =
    let l = leading_zeros 64 xor in
    let t = trailing_zeros 64 xor in
    let (l_le, below) = leading_fits 64 xor bound in
    let divides = trailing_divides 64 t xor (omega arith) in
    let t_lt = power_below t (64 - l) xor (divisor_le t xor filled divides) below in
    record { bound = bound; room = omega (arith, t_lt); below = below; divides = divides }

reuses_parts :
    (old : Window) (l t : ℕ)
    → IsWindow old
    → reuses old l t ≡ true
    → (old.leading ≤ l) × (old.trailing ≤ t) × (old.leading + old.trailing < 64)
reuses_parts old l t valid kept = (ground arith, ground arith, ground arith)

-- So does an older window that is reused.
pub kept_window :
    (xor : ℕ) (old : Window)
    → xor < 2 ^ 64
    → IsWindow old
    → reuses old (leading_zeros 64 xor) (trailing_zeros 64 xor) ≡ true
    → Fits xor old.leading old.trailing
kept_window xor old bound valid kept =
    let l = leading_zeros 64 xor in
    let (l_le, below) = leading_fits 64 xor bound in
    let (fewer, less, room) = reuses_parts old l (trailing_zeros 64 xor) valid kept in
    let wider : 2 ^ (64 - l) ≤ 2 ^ (64 - old.leading) =
      pow-le-pow_right (omega arith) (omega (arith, fewer)) in
    record {
      bound = bound;
      room = room;
      below = omega (arith, wider, below);
      divides = trailing_divides 64 old.trailing xor less;
    }

-- The xor and the window that `m` bits at the place `t` give after a header that says `l`.
abbrev pub decoded_window : ℕ → ℕ → ℕ → ℕ → ℕ → ℕ × Window
decoded_window prev xor l t m =
    let t' = meaningful l m in (bit_xor prev (shl (shr xor t % 2 ^ m) t' % u64_mod), window l t')

pub decoded_new :
    (prev xor l t : ℕ)
    → Fits xor l t
    → l < 32
    → decoded_window prev xor (l % 32) t (meaningful l t) ≡ (bit_xor prev xor, window l t)
decoded_new prev xor l t fits few =
    let v = shr xor t % 2 ^ meaningful l t in
    ap (λ n. decoded_window prev xor n t (meaningful l t)) (mod-eq_of_lt few)
    ∙ ap (λ q. (bit_xor prev (shl v q % u64_mod), window l q)) (trailing_back l t fits.room)
    ∙ ap (λ x. (bit_xor prev x, window l t)) (window_whole xor l t fits)

-- With 32 leading zeros or more, the header says 32 fewer, and the xor moves up by 32 places.
pub decoded_wide :
    (prev xor l t : ℕ)
    → Fits xor l t
    → 32 ≤ l
    → decoded_window prev xor (l % 32) t (meaningful l t)
      ≡ (bit_xor prev (xor * 2 ^ 32), window (l - 32) (t + 32))
decoded_wide prev xor l t fits many =
    let m = meaningful l t in
    let size = meaningful_lem l t fits.room in
    let lead : l % 32 ≡ l - 32 = omega (arith, fits.room) in
    let trail : meaningful (l - 32) m ≡ t + 32 = omega (arith, size, fits.room) in
    let small : xor / 2 ^ t < 2 ^ m =
      rw size (shifted_fits (64 - l) t xor (omega (arith, fits.room)) fits.below) in
    let shorter : 64 - l ≤ 32 = omega (arith, many) in
    let narrow : 2 ^ (64 - l) ≤ 2 ^ 32 = pow-le-pow_right (omega arith) shorter in
    let moved : xor / 2 ^ t * 2 ^ (t + 32) ≡ xor * 2 ^ 32 =
      ap (λ p. xor / 2 ^ t * p) (pow_add t 32)
      ∙ sym (mul_assoc (xor / 2 ^ t) (2 ^ t) (2 ^ 32))
      ∙ ap (λ x. x * 2 ^ 32) fits.divides in
    ap (λ n. decoded_window prev xor n t m) lead
    ∙ ap (λ q. (bit_xor prev (shl (shr xor t % 2 ^ m) q % u64_mod), window (l - 32) q)) trail
    ∙ ap (λ q. (bit_xor prev (q * 2 ^ (t + 32) % u64_mod), window (l - 32) (t + 32)))
        (mod-eq_of_lt small)
    ∙ ap (λ q. (bit_xor prev (q % u64_mod), window (l - 32) (t + 32))) moved
    ∙ ap (λ q. (bit_xor prev q, window (l - 32) (t + 32)))
        (mod-eq_of_lt (omega (arith, narrow, fits.below)))
