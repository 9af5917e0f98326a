-- ===== src/Ts/Gorilla.antt =====
-- `CompressedChunk` of senko-ts/src/gorilla.rs. A time stamp is the 64 bits of an `i64`, and its sums
-- and differences wrap as in a release build; a sample is its `f64::to_bits`.
pub mod Zeros
pub mod Delta
pub mod Writing
pub mod Windows
pub mod Value
pub mod Later
pub mod Roundtrip
pub mod Alone
use senko.Prelude.{
  ℕ, zero, suc, ◌+◌, ◌-◌, ◌*◌, ◌/◌, ◌%◌, ◌^◌, List, [], ◌∷◌, Bool, true, false, not, ◌&&◌, ◌||◌,
  Option, none, some, ltb, leb, ◌==◌, if◌then◌else◌, bit_xor, u64_mod, saturating_add, min,
}
use senko.Prelude.Bits.{shl, shr}
use senko.Ts.BitStream
use senko.Ts.BitStream.{
  BitWriter, BitReader, Read, new_writer, new_reader, write_bit, write_bits, write_i64_bits, finish,
  read_bit, read_bits, read_i64_bits, and_then,
}

-- `u64::leading_zeros` and `u64::trailing_zeros`, over the `n` low bits.
unfoldable pub leading_zeros : ℕ → ℕ → ℕ
leading_zeros zero x = 0
leading_zeros (suc n) x = if ltb x (2 ^ n) then suc (leading_zeros n x) else 0

unfoldable pub trailing_zeros : ℕ → ℕ → ℕ
trailing_zeros zero x = 0
trailing_zeros (suc n) x = if x % 2 == 0 then suc (trailing_zeros n (x / 2)) else 0

-- `prev_leading` and `prev_trailing`; no window is kept while `leading` is `u8::MAX`.
pub record Window : Type 0 where
  pub leading : ℕ
  pub trailing : ℕ

abbrev pub no_window : ℕ
no_window = 255

abbrev pub sub_i64 : ℕ → ℕ → ℕ
sub_i64 a b = (a + u64_mod - b) % u64_mod

abbrev pub add_i64 : ℕ → ℕ → ℕ
add_i64 a b = (a + b) % u64_mod

-- `(-below..=above).contains(&value)`, on the 64 bits.
abbrev pub between_i64 : ℕ → ℕ → ℕ → Bool
between_i64 below above value = leb value above || leb (u64_mod - below) value

unfoldable pub encode_delta_of_delta : BitWriter → ℕ → BitWriter
encode_delta_of_delta w dod =
    if dod == 0
    then write_bit w false
    else if between_i64 63 64 dod
    then write_i64_bits (write_bits w 2 2) dod 7
    else if between_i64 255 256 dod
    then write_i64_bits (write_bits w 6 3) dod 9
    else if between_i64 2047 2048 dod
    then write_i64_bits (write_bits w 14 4) dod 12
    else write_i64_bits (write_bits w 15 4) dod 64

-- `if !reader.read_bit()? { … }`, with what follows.
abbrev pub if_set : {A : Type 0} → BitReader → (BitReader → Read A) → (BitReader → Read A) → Read A
if_set r set unset = and_then (read_bit r) λ bit r'. if bit then set r' else unset r'

unfoldable pub decode_delta_of_delta : BitReader → Read ℕ
decode_delta_of_delta r =
    if_set r
      (λ r1.
        if_set r1
          (λ r2.
            if_set r2 (λ r3. if_set r3 (read_i64_bits 64) (read_i64_bits 12)) (read_i64_bits 9))
          (read_i64_bits 7))
      (λ r1. some (0, r1))

unfoldable pub encode_sig_len : ℕ → ℕ
encode_sig_len len = if len == 64 then 0 else len

unfoldable pub decode_sig_len : ℕ → ℕ
decode_sig_len len = if len == 0 then 64 else len

-- The bits that a window leaves.
abbrev pub meaningful : ℕ → ℕ → ℕ
meaningful leading trailing = 64 - (leading + trailing) % 256

-- The test for keeping the window.
abbrev pub reuses : Window → ℕ → ℕ → Bool
reuses old leading trailing =
    not (old.leading == no_window)
    && leb old.leading leading
    && leb old.trailing trailing
    && leb (meaningful leading trailing) (meaningful old.leading old.trailing)

-- A xor that is not 0, with its zeros.
abbrev pub encode_xor : BitWriter → ℕ → ℕ → ℕ → Window → BitWriter × Window
encode_xor w xor leading trailing old =
    if reuses old leading trailing
    then (
      write_bits (write_bit w false) (shr xor old.trailing) (meaningful old.leading old.trailing),
      old,
    )
    else (
      write_bits
          (write_bits (write_bits (write_bit w true) leading 5)
            (encode_sig_len (meaningful leading trailing)) 6)
          (shr xor trailing) (meaningful leading trailing),
      record { leading = leading; trailing = trailing },
    )

unfoldable pub encode_value_xor : BitWriter → ℕ → ℕ → Window → BitWriter × Window
encode_value_xor w value_bits prev_bits old =
    let xor = bit_xor value_bits prev_bits in
    if xor == 0
    then (write_bit w false, old)
    else encode_xor (write_bit w true) xor (leading_zeros 64 xor) (trailing_zeros 64 xor) old

-- The bits after a window's header.
abbrev pub decode_window : BitReader → ℕ → Read (ℕ × Window)
decode_window r prev_bits = and_then (read_bits 5 r) λ leading r1.
    and_then (read_bits 6 r1) λ sig_len r2.
      and_then (read_bits (decode_sig_len sig_len) r2) λ value r3.
        let trailing = meaningful leading (decode_sig_len sig_len) in
        some (
          (
            bit_xor prev_bits (shl value trailing % u64_mod),
            record { leading = leading; trailing = trailing },
          ),
          r3,
        )

unfoldable pub decode_value_xor : BitReader → ℕ → Window → Read (ℕ × Window)
decode_value_xor r prev_bits old =
    if_set r
      (λ r1.
        if_set r1 (λ r2. decode_window r2 prev_bits)
          λ r2.
            and_then (read_bits (meaningful old.leading old.trailing) r2)
              λ value r3. some ((bit_xor prev_bits (shl value old.trailing % u64_mod), old), r3))
      (λ r1. some ((prev_bits, old), r1))

pub record CompressedChunk : Type 0 where
  pub writer : BitWriter
  pub prev_ts : ℕ
  pub prev_delta : ℕ
  pub prev_val_bits : ℕ
  pub window : Window
  pub sample_count : ℕ

-- A time stamp and the bits of a value.
abbrev pub Sample : Type 0
Sample = ℕ × ℕ

abbrev pub new_chunk : CompressedChunk
new_chunk = record {
  writer = new_writer;
  prev_ts = 0;
  prev_delta = 0;
  prev_val_bits = 0;
  window = record { leading = no_window; trailing = 0 };
  sample_count = 0;
}

-- `sample_count.saturating_add(1)`, in a `u16`.
abbrev pub count_sample : ℕ → ℕ
count_sample n = min (n + 1) 65535

-- A later sample: the delta has been written to `w`.
abbrev pub store_value : CompressedChunk → BitWriter → ℕ → ℕ → ℕ → CompressedChunk
store_value c w ts val_bits delta =
    let (w', window') = encode_value_xor w val_bits c.prev_val_bits c.window in
    record {
      writer = w';
      prev_ts = ts;
      prev_delta = delta;
      prev_val_bits = val_bits;
      window = window';
      sample_count = count_sample c.sample_count;
    }

unfoldable pub compress_sample : CompressedChunk → ℕ → ℕ → CompressedChunk
compress_sample c ts val_bits =
    let delta = sub_i64 ts c.prev_ts in
    if c.sample_count == 0
    then record c {
      writer = write_bits (write_i64_bits c.writer ts 64) val_bits 64;
      prev_ts = ts;
      prev_val_bits = val_bits;
      sample_count = count_sample c.sample_count;
    }
    else if c.sample_count == 1
    then store_value c (write_i64_bits c.writer delta 14) ts val_bits delta
    else store_value c (encode_delta_of_delta c.writer (sub_i64 delta c.prev_delta)) ts val_bits
        delta

unfoldable pub compress_from : CompressedChunk → List Sample → CompressedChunk
compress_from c [] = c
compress_from c ((ts, val_bits) ∷ samples) = compress_from (compress_sample c ts val_bits) samples

unfoldable pub from_samples : List Sample → CompressedChunk
from_samples samples = compress_from new_chunk samples

-- `read().expect(…)`; `none` is the panic.
abbrev pub expect : {A B : Type 0} → Read A → (A → BitReader → Option B) → Option B
expect none f = none
expect (some (a, r)) f = f a r

abbrev pub cons_sample : Sample → Option (List Sample) → Option (List Sample)
cons_sample sample none = none
cons_sample sample (some samples) = some (sample ∷ samples)

-- The loop of `decompress_all` for `count` more samples.
unfoldable pub decode_rest : ℕ → BitReader → ℕ → ℕ → ℕ → Window → Option (List Sample)
decode_rest zero r prev_ts prev_delta prev_val_bits window = some []
decode_rest (suc count) r prev_ts prev_delta prev_val_bits window =
    expect (decode_delta_of_delta r) λ dod r1.
      expect (decode_value_xor r1 prev_val_bits window) λ value r2.
        cons_sample (add_i64 prev_ts (add_i64 prev_delta dod), value.0)
          (decode_rest count r2 (add_i64 prev_ts (add_i64 prev_delta dod)) (add_i64 prev_delta dod)
            value.0 value.1)

-- The second sample, and the loop.
abbrev pub decode_second : ℕ → BitReader → ℕ → ℕ → Option (List Sample)
decode_second count r first_ts first_val = expect (read_i64_bits 14 r) λ delta r1.
    expect (decode_value_xor r1 first_val (record { leading = no_window; trailing = 0 }))
      λ value r2.
        cons_sample (add_i64 first_ts delta, value.0)
          (decode_rest (count - 2) r2 (add_i64 first_ts delta) delta value.0 value.1)

unfoldable pub decompress_all : CompressedChunk → Option (List Sample)
decompress_all c =
    if c.sample_count == 0
    then some []
    else expect (read_i64_bits 64 (new_reader (finish c.writer))) λ ts r1.
      expect (read_bits 64 r1) λ val_bits r2.
        cons_sample (ts, val_bits)
          (if c.sample_count == 1 then some [] else decode_second c.sample_count r2 ts val_bits)
