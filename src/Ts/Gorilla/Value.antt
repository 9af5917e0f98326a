-- ===== src/Ts/Gorilla/Value.antt =====
-- The xored values of senko-ts/src/gorilla.rs come back, as long as a new window has fewer than 32
-- leading zeros.
use senko.Prelude.{
  ℕ, ◌+◌, ◌-◌, ◌*◌, ◌%◌, ◌^◌, ◌<◌, ◌≤◌, ◌≡◌, ◌≢◌, sym, ap, ◌∙◌, List, [], ◌∷◌, ◌++◌, Bool, true,
  false, ◌||◌, some, ltb, ◌==◌, arith, Bool-cases, inl, inr, u64_mod, bit_xor, ltb→lt,
}
use senko.Prelude.Bits.{shl, shr, bit_xor-lt, bit_xor-bit_xor, bit_xor-zero}
use mathlib.Core.List.{append_assoc}
use senko.Ts.BitStream.{BitReader, Read, read_bits}
use senko.Ts.BitStream.Stream.{bits}
use senko.Ts.BitStream.Reading.{Ahead, Reads, Reads-and_then, Reads-read_bits, Reads-exact}
use senko.Ts.Gorilla.{
  Window, meaningful, reuses, leading_zeros, trailing_zeros, encode_sig_len, decode_sig_len,
  decode_value_xor,
}
use senko.Ts.Gorilla.Delta.{Reads-if_set}
use senko.Ts.Gorilla.Writing.{
  IsWindow, window, kept_bits, new_bits, value_bits, value_window, fits_window,
}
use senko.Ts.Gorilla.Windows.{
  Fits, meaningful_lem, window_whole, sig_len_back, sig_len_lt, own_window, kept_window,
  decoded_window, decoded_new, decoded_wide,
}

-- The decoder on the bits of a value, with the xor and its zeros as variables.
module _ (value prev xor : ℕ) (old : Window) (rest : List Bool)
    (back : bit_xor prev xor ≡ value) where
  read_kept :
      (r : BitReader)
      → Fits xor old.leading old.trailing
      → Ahead r (kept_bits old xor ++ rest)
      → Reads (decode_value_xor r prev old) (value, old) rest
  unfolding decode_value_xor
  read_kept r fits ahead =
      let m = meaningful old.leading old.trailing in
      let size = meaningful_lem old.leading old.trailing fits.room in
      Reads-if_set r _ _ true _ _ rest ahead λ r1 a1. Reads-if_set r1 _ _ false _ _ rest a1 λ r2 a2.
        Reads-and_then (read_bits m r2) _ (shr xor old.trailing % 2 ^ m) _ rest rest
          (Reads-read_bits m (shr xor old.trailing) r2 rest (omega (arith, size)) a2)
          λ r3 a3. (
            r3,
            ap (λ x. some ((bit_xor prev x, old), r3))
                  (window_whole xor old.leading old.trailing fits)
                ∙ ap (λ v. some ((v, old), r3)) back,
            a3,
          )

  -- What the header of a new window makes of a xor: only five bits of `l` come back.
  read_window :
      (r : BitReader) (l t : ℕ)
      → 0 < meaningful l t
      → meaningful l t ≤ 64
      → Ahead r (new_bits xor l t ++ rest)
      → Reads
          (decode_value_xor r prev old)
          (decoded_window prev xor (l % 32) t (meaningful l t))
          rest
  unfolding decode_value_xor
  read_window r l t some_kept at_most ahead =
      let m = meaningful l t in
      let sig = encode_sig_len m in
      let v = shr xor t in
      Reads-if_set r _ _ true _ _ rest ahead λ r1 a1. Reads-if_set r1 _ _ true _ _ rest a1 λ r2 a2.
        Reads-and_then (read_bits 5 r2) _ (l % 32) _ ((bits 6 sig ++ bits m v) ++ rest) rest
          (Reads-read_bits 5 l r2 ((bits 6 sig ++ bits m v) ++ rest) (omega arith)
            (a2 ∙ append_assoc (bits 5 l) (bits 6 sig ++ bits m v) rest))
          λ r3 a3.
            Reads-and_then (read_bits 6 r3) _ sig _ (bits m v ++ rest) rest
              (Reads-exact 6 sig r3 (bits m v ++ rest) (omega arith)
                (sig_len_lt m some_kept at_most) (a3 ∙ append_assoc (bits 6 sig) (bits m v) rest))
              λ r4 a4.
                let back_m = sig_len_back m some_kept at_most in
                Reads-and_then (read_bits (decode_sig_len sig) r4) _ (v % 2 ^ m) _ rest rest
                  (rw back_m (Reads-read_bits m v r4 rest at_most a4))
                  λ r5 a5. (
                    r5,
                    ap
                        (λ n.
                          let t' = meaningful (l % 32) n in
                          some
                            ((bit_xor prev (shl (v % 2 ^ m) t' % u64_mod), window (l % 32) t'), r5))
                        back_m,
                    a5,
                  )

  read_same :
      (r : BitReader)
      → prev < 2 ^ 64
      → xor ≡ 0
      → Ahead r ((false ∷ []) ++ rest)
      → Reads (decode_value_xor r prev old) (value, old) rest
  unfolding decode_value_xor
  read_same r small none_set ahead = Reads-if_set r _ _ false _ _ rest ahead λ r1 a1.
      let same : prev ≡ value =
        sym (bit_xor-zero 64 prev small) ∙ ap (bit_xor prev) (sym none_set) ∙ back in
      (r1, ap (λ v. some ((v, old), r1)) same, a1)

Reads-eq :
    {A : Type 0} (m : Read A) (a b : A) (rest : List Bool) → a ≡ b → Reads m a rest → Reads m b rest
Reads-eq m a b rest same (r, e, end) = (r, e ∙ ap (λ x. some (x, r)) same, end)

meaningful_range : (l t : ℕ) → l + t < 64 → (0 < meaningful l t) × (meaningful l t ≤ 64)
meaningful_range l t h = (omega (arith, meaningful_lem l t h), omega (arith, meaningful_lem l t h))

module _ (value prev xor : ℕ) (old : Window) (rest : List Bool)
    (back : bit_xor prev xor ≡ value) where
  read_own :
      (r : BitReader)
      → Fits xor (leading_zeros 64 xor) (trailing_zeros 64 xor)
      → leading_zeros 64 xor < 32
      → Ahead r (new_bits xor (leading_zeros 64 xor) (trailing_zeros 64 xor) ++ rest)
      → Reads
          (decode_value_xor r prev old)
          (value, window (leading_zeros 64 xor) (trailing_zeros 64 xor))
          rest
  read_own r fits few ahead =
      let l = leading_zeros 64 xor in
      let t = trailing_zeros 64 xor in
      let (some_kept, at_most) = meaningful_range l t fits.room in
      Reads-eq (decode_value_xor r prev old) _ (value, window l t) rest
        (decoded_new prev xor l t fits few ∙ ap (λ y. (y, window l t)) back)
        (read_window value prev xor old rest back r l t some_kept at_most ahead)

-- A value that starts a new window with 32 leading zeros or more does not come back: the bits of its
-- xor are taken for ones that stand 32 places higher.
pub decode_value_xor-wide :
    (r : BitReader) (value prev : ℕ) (old : Window) (rest : List Bool)
    → value < 2 ^ 64
    → prev < 2 ^ 64
    → bit_xor value prev ≢ 0
    → reuses old (leading_zeros 64 (bit_xor value prev)) (trailing_zeros 64 (bit_xor value prev))
      ≡ false
    → 32 ≤ leading_zeros 64 (bit_xor value prev)
    → Ahead r (value_bits old value prev ++ rest)
    → Reads
        (decode_value_xor r prev old)
        (
          bit_xor prev (bit_xor value prev * 2 ^ 32),
          window
              (leading_zeros 64 (bit_xor value prev) - 32)
              (trailing_zeros 64 (bit_xor value prev) + 32),
        )
        rest
decode_value_xor-wide r value prev old rest p q differs other many ahead =
    let xor = bit_xor value prev in
    let l = leading_zeros 64 xor in
    let t = trailing_zeros 64 xor in
    let fits = own_window xor differs (bit_xor-lt 64 value prev p q) in
    let (some_kept, at_most) = meaningful_range l t fits.room in
    let moved : (xor == 0) ≡ false = ground arith in
    let back = bit_xor-bit_xor 64 value prev p q in
    Reads-eq (decode_value_xor r prev old) _ _ rest (decoded_wide prev xor l t fits many) (
      read_window value prev xor old rest back r l t some_kept at_most (rw (moved, other) at ahead))

third : (a b c : Bool) → (a || b || c) ≡ true → a ≡ false → b ≡ false → c ≡ true
third a b c h p q = ground arith

-- A value is read back with the window that the encoder goes on with, if a new window's leading
-- zeros fit five bits.
pub Reads-decode_value_xor :
    (r : BitReader) (value prev : ℕ) (old : Window) (rest : List Bool)
    → value < 2 ^ 64
    → prev < 2 ^ 64
    → IsWindow old
    → fits_window old value prev ≡ true
    → Ahead r (value_bits old value prev ++ rest)
    → Reads (decode_value_xor r prev old) (value, value_window old value prev) rest
Reads-decode_value_xor r value prev old rest p q valid few ahead =
    let xor = bit_xor value prev in
    let l = leading_zeros 64 xor in
    let t = trailing_zeros 64 xor in
    let bound = bit_xor-lt 64 value prev p q in
    let back = bit_xor-bit_xor 64 value prev p q in
    elim (Bool-cases (xor == 0)) [
      | inl same ↦
          rw same (read_same value prev xor old rest back r q (ground arith) (rw same at ahead))
      | inr differs ↦ elim (Bool-cases (reuses old l t)) [
        | inl kept ↦
            rw (differs, kept)
              (read_kept value prev xor old rest back r (kept_window xor old bound valid kept)
                (rw (differs, kept) at ahead))
        | inr other ↦
            rw (differs, other)
              (read_own value prev xor old rest back r (own_window xor (λ e. ground arith) bound)
                (ltb→lt l 32 (third (xor == 0) (reuses old l t) (ltb l 32) few differs other))
                (rw (differs, other) at ahead))
      ]
    ]

IsWindow-of_lt : (l t : ℕ) → l + t < 64 → IsWindow (window l t)
IsWindow-of_lt l t h = ground arith

-- The window stays a window.
pub value_window-IsWindow :
    (value prev : ℕ) (old : Window)
    → value < 2 ^ 64
    → prev < 2 ^ 64
    → IsWindow old
    → IsWindow (value_window old value prev)
value_window-IsWindow value prev old p q valid =
    let xor = bit_xor value prev in
    let l = leading_zeros 64 xor in
    let t = trailing_zeros 64 xor in
    elim (Bool-cases (xor == 0)) [
      | inl same ↦ rw same valid
      | inr differs ↦ elim (Bool-cases (reuses old l t)) [
        | inl kept ↦ rw (differs, kept) valid
        | inr other ↦
            let fits = own_window xor (λ e. ground arith) (bit_xor-lt 64 value prev p q) in
            rw (differs, other) (IsWindow-of_lt l t fits.room)
      ]
    ]
