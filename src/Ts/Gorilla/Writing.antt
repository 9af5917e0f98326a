-- ===== src/Ts/Gorilla/Writing.antt =====
-- The bits that the encoder of senko-ts/src/gorilla.rs writes for a value.
use senko.Prelude.{
  ℕ, ◌+◌, ◌≡◌, refl, List, [], ◌∷◌, ◌++◌, Bool, true, false, ◌||◌, ltb, ◌==◌, if◌then◌else◌,
  Bool-cases, inl, inr, bit_xor,
}
use senko.Prelude.Bits.{shr}
use senko.Ts.BitStream.{BitWriter, write_bit, write_bits}
use senko.Ts.BitStream.Stream.{
  bits, IsWriter, Writes, Writes-trans, Writes-write_bit, Writes-write_bits,
}
use senko.Ts.Gorilla.{
  Window, no_window, meaningful, reuses, leading_zeros, trailing_zeros, encode_sig_len,
  encode_value_xor,
}

-- No window, or one that leaves some bits.
abbrev pub IsWindow : Window → Type 0
IsWindow old = (old.leading == no_window || ltb (old.leading + old.trailing) 64) ≡ true

abbrev pub window : ℕ → ℕ → Window
window l t = record { leading = l; trailing = t }

-- The bits of a xor with `l` leading and `t` trailing zeros.
abbrev pub kept_bits : Window → ℕ → List Bool
kept_bits old xor = true ∷ false ∷ bits (meaningful old.leading old.trailing) (shr xor old.trailing)

abbrev pub new_bits : ℕ → ℕ → ℕ → List Bool
new_bits xor l t =
    true
    ∷ true
    ∷ (bits 5 l ++ (bits 6 (encode_sig_len (meaningful l t)) ++ bits (meaningful l t) (shr xor t)))

abbrev pub xor_bits : Window → ℕ → ℕ → ℕ → List Bool
xor_bits old xor l t =
    if xor == 0 then false ∷ [] else if reuses old l t then kept_bits old xor else new_bits xor l t

abbrev pub xor_window : Window → ℕ → ℕ → ℕ → Window
xor_window old xor l t =
    if xor == 0 then old else if reuses old l t then old else record { leading = l; trailing = t }

abbrev pub value_bits : Window → ℕ → ℕ → List Bool
value_bits old value prev =
    let xor = bit_xor value prev in xor_bits old xor (leading_zeros 64 xor) (trailing_zeros 64 xor)

abbrev pub value_window : Window → ℕ → ℕ → Window
value_window old value prev =
    let xor = bit_xor value prev in
    xor_window old xor (leading_zeros 64 xor) (trailing_zeros 64 xor)

-- A new window's leading zeros fit five bits.
abbrev pub fits_window : Window → ℕ → ℕ → Bool
fits_window old value prev =
    let xor = bit_xor value prev in
    xor == 0
    || reuses old (leading_zeros 64 xor) (trailing_zeros 64 xor)
    || ltb (leading_zeros 64 xor) 32

-- What a zero test and a test for reuse choose is written.
abbrev Wrote : BitWriter → List Bool → Window → BitWriter × Window → Type 0
Wrote w bs window (w', window') = Writes w bs w' × (window' ≡ window)

Wrote-kept :
    (w : BitWriter) (xor : ℕ) (old : Window)
    → IsWriter w
    → Writes w (kept_bits old xor) (
        write_bits
          (write_bit (write_bit w true) false)
          (shr xor old.trailing)
          (meaningful old.leading old.trailing))
Wrote-kept w xor old valid =
    let first = Writes-write_bit w true valid in
    let second = Writes-write_bit (write_bit w true) false first.still in
    let third =
      Writes-write_bits (write_bit (write_bit w true) false) (shr xor old.trailing)
        (meaningful old.leading old.trailing) second.still in
    Writes-trans w _ _ (true ∷ []) _ first
      (Writes-trans (write_bit w true) _ _ (false ∷ []) _ second third)

Wrote-new :
    (w : BitWriter) (xor l t : ℕ)
    → IsWriter w
    → Writes w (new_bits xor l t) (
        write_bits
          (write_bits
            (write_bits (write_bit (write_bit w true) true) l 5)
            (encode_sig_len (meaningful l t))
            6)
          (shr xor t)
          (meaningful l t))
Wrote-new w xor l t valid =
    let first = Writes-write_bit w true valid in
    let w1 = write_bit w true in
    let second = Writes-write_bit w1 true first.still in
    let w2 = write_bit w1 true in
    let third = Writes-write_bits w2 l 5 second.still in
    let w3 = write_bits w2 l 5 in
    let fourth = Writes-write_bits w3 (encode_sig_len (meaningful l t)) 6 third.still in
    let w4 = write_bits w3 (encode_sig_len (meaningful l t)) 6 in
    let fifth = Writes-write_bits w4 (shr xor t) (meaningful l t) fourth.still in
    Writes-trans w _ _ (true ∷ []) _ first (
      Writes-trans w1 _ _ (true ∷ []) _ second (
        Writes-trans w2 _ _ (bits 5 l) _ third
          (Writes-trans w3 _ _ (bits 6 (encode_sig_len (meaningful l t))) _ fourth fifth)))

pub Writes-encode_value_xor :
    (w : BitWriter) (value prev : ℕ) (old : Window)
    → IsWriter w
    → Writes w (value_bits old value prev) (encode_value_xor w value prev old).0
      × ((encode_value_xor w value prev old).1 ≡ value_window old value prev)
unfolding encode_value_xor
Writes-encode_value_xor w value prev old valid =
    let xor = bit_xor value prev in
    let l = leading_zeros 64 xor in
    let t = trailing_zeros 64 xor in
    elim (Bool-cases (xor == 0)) [
      | inl same ↦ rw same (Writes-write_bit w false valid, refl)
      | inr differs ↦ elim (Bool-cases (reuses old l t)) [
        | inl kept ↦ rw (differs, kept) (Wrote-kept w xor old valid, refl)
        | inr other ↦ rw (differs, other) (Wrote-new w xor l t valid, refl)
      ]
    ]
