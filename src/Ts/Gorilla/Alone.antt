-- ===== src/Ts/Gorilla/Alone.antt =====
-- What one number gives back that senko-ts/src/gorilla.rs encodes into an empty writer.
use senko.Prelude.{ℕ, ◌*◌, ◌^◌, ◌<◌, ◌≤◌, ◌≡◌, ◌≢◌, refl, ap, ◌∙◌, some, u64_mod, bit_xor, sym}
use senko.Prelude.Bits.{bit_xor-bit_xor, bit_xor-zero}
use senko.Ts.BitStream.{BitReader, new_writer, new_reader, finish}
use senko.Ts.Gorilla.{
  Window, no_window, encode_delta_of_delta, decode_delta_of_delta, encode_value_xor,
  decode_value_xor, leading_zeros,
}
use senko.Ts.Gorilla.Delta.{
  delta_bits, restored_lem, sign_lost, Writes-encode_delta_of_delta, Reads-decode_delta_of_delta,
}
use senko.Ts.Gorilla.Writing.{value_bits, Writes-encode_value_xor, window}
use senko.Ts.Gorilla.Value.{decode_value_xor-wide}
use senko.Ts.Gorilla.Roundtrip.{new_writer-IsWriter, read_start}

-- A delta of deltas that is written alone comes back, but for 64, 256 and 2048: these come back
-- negative.
pub decode_delta_of_delta-encode_delta_of_delta :
    (dod : ℕ)
    → dod < u64_mod
    → (r : BitReader) × (decode_delta_of_delta
          (new_reader (finish (encode_delta_of_delta new_writer dod)))
        ≡ some (sign_lost dod, r))
decode_delta_of_delta-encode_delta_of_delta dod small =
    let w = encode_delta_of_delta new_writer dod in
    let (pad, ahead) =
      read_start w (delta_bits dod)
        (Writes-encode_delta_of_delta new_writer dod new_writer-IsWriter) in
    let (r, e, end) = Reads-decode_delta_of_delta dod pad (new_reader (finish w)) ahead in
    (r, e ∙ ap (λ d. some (d, r)) (restored_lem dod small))

differs-bit_xor : (a b : ℕ) → a < 2 ^ 64 → b < 2 ^ 64 → a ≢ b → bit_xor a b ≢ 0
differs-bit_xor a b p q differs same =
    differs (sym (bit_xor-bit_xor 64 a b p q) ∙ ap (bit_xor b) same ∙ bit_xor-zero 64 b q)

-- The first value after one that differs from it, when their xor has 32 leading zeros or more, does
-- not come back: what comes back differs from the older value by that xor times 2^32.
pub decode_value_xor-encode_value_xor :
    (value prev : ℕ)
    → value < 2 ^ 64
    → prev < 2 ^ 64
    → value ≢ prev
    → 32 ≤ leading_zeros 64 (bit_xor value prev)
    → (back : Window) × (r : BitReader) × (decode_value_xor
          (new_reader (finish (encode_value_xor new_writer value prev (window no_window 0)).0))
          prev
          (window no_window 0)
        ≡ some ((bit_xor prev (bit_xor value prev * 2 ^ 32), back), r))
decode_value_xor-encode_value_xor value prev p q differs wide =
    let (done, same) =
      Writes-encode_value_xor new_writer value prev (window no_window 0) new_writer-IsWriter in
    let w = (encode_value_xor new_writer value prev (window no_window 0)).0 in
    let (pad, ahead) = read_start w (value_bits (window no_window 0) value prev) done in
    let (r, e, end) =
      decode_value_xor-wide (new_reader (finish w)) value prev (window no_window 0) pad p q
        (differs-bit_xor value prev p q differs) refl wide ahead in
    (_, r, e)
