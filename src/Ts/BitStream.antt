-- ===== src/Ts/BitStream.antt =====
-- `BitWriter` and `BitReader` of senko-ts/src/gorilla.rs. An `i64` is its 64 bits, as a number below
-- 2^64.
pub mod Stream
pub mod Reading
use senko.Prelude.{
  ℕ, zero, suc, ◌+◌, ◌-◌, ◌*◌, ◌/◌, ◌%◌, ◌^◌, List, [], ◌∷◌, ◌++◌, Bool, true, false, not, Option,
  none, some, ltb, ◌==◌, if◌then◌else◌, length, get_elem?, bit_and, bit_or, u64_mod,
}
use senko.Prelude.Bits.{shl, shr}

pub record BitWriter : Type 0 where
  pub buf : List ℕ
  pub current : ℕ
  pub used_bits : ℕ
  pub total_bits : ℕ

abbrev pub new_writer : BitWriter
new_writer = record { buf = []; current = 0; used_bits = 0; total_bits = 0 }

-- `current <<= 1; if bit { current |= 1 }`.
abbrev pub push_bit : ℕ → Bool → ℕ
push_bit current bit = if bit then bit_or (shl current 1 % 256) 1 else shl current 1 % 256

unfoldable pub write_bit : BitWriter → Bool → BitWriter
write_bit w bit =
    if w.used_bits + 1 == 8
    then record w {
      buf = w.buf ++ (push_bit w.current bit ∷ []);
      current = 0;
      used_bits = 0;
      total_bits = w.total_bits + 1;
    }
    else record w {
      current = push_bit w.current bit;
      used_bits = w.used_bits + 1;
      total_bits = w.total_bits + 1;
    }

-- `((value >> shift) & 1) != 0`.
abbrev pub bit_at : ℕ → ℕ → Bool
bit_at value shift = not (bit_and (shr value shift) 1 == 0)

-- The loop over `(0..bits).rev()`.
unfoldable pub write_bits : BitWriter → ℕ → ℕ → BitWriter
write_bits w value zero = w
write_bits w value (suc shift) = write_bits (write_bit w (bit_at value shift)) value shift

unfoldable pub write_i64_bits : BitWriter → ℕ → ℕ → BitWriter
write_i64_bits w value bits =
    if bits == 64 then write_bits w value 64 else write_bits w (bit_and value (2 ^ bits - 1)) bits

unfoldable pub byte_len : BitWriter → ℕ
byte_len w = length w.buf + (if ltb 0 w.used_bits then 1 else 0)

unfoldable pub finish : BitWriter → List ℕ
finish w =
    if ltb 0 w.used_bits then w.buf ++ (shl w.current (8 - w.used_bits) % 256 ∷ []) else w.buf

pub record BitReader : Type 0 where
  pub buf : List ℕ
  pub bit_pos : ℕ

abbrev pub new_reader : List ℕ → BitReader
new_reader buf = record { buf = buf; bit_pos = 0 }

-- What a reading method returns, with the reader after it.
abbrev pub Read : Type 0 → Type 0
Read A = Option (A × BitReader)

abbrev pub bit_of : Option ℕ → BitReader → Read Bool
bit_of none r = none
bit_of (some byte) r = some (bit_at byte (7 - r.bit_pos % 8), record r { bit_pos = r.bit_pos + 1 })

unfoldable pub read_bit : BitReader → Read Bool
read_bit r =
    if ltb r.bit_pos (length r.buf * 8) then bit_of (get_elem? r.buf (r.bit_pos / 8)) r else none

-- `u64::from(bit)`.
abbrev pub from_bool : Bool → ℕ
from_bool true = 1
from_bool false = 0

abbrev pub and_then : {A B : Type 0} → Read A → (A → BitReader → Read B) → Read B
and_then none f = none
and_then (some (a, r)) f = f a r

-- `value = (value << 1) | bit`, once for each bit.
unfoldable pub read_from : ℕ → ℕ → BitReader → Read ℕ
read_from zero value r = some (value, r)
read_from (suc bits) value r =
    and_then (read_bit r)
      λ bit r'. read_from bits (bit_or (shl value 1 % u64_mod) (from_bool bit)) r'

unfoldable pub read_bits : ℕ → BitReader → Read ℕ
read_bits bits r = read_from bits 0 r

-- `(v as i64) >> shift`, on the 64 bits.
abbrev pub sar : ℕ → ℕ → ℕ
sar v shift = if ltb v (2 ^ 63) then shr v shift else 2 ^ 64 - 2 ^ (64 - shift) + shr v shift

unfoldable pub sign_extend : ℕ → ℕ → ℕ
sign_extend value bits = sar (shl value (64 - bits) % u64_mod) (64 - bits)

unfoldable pub read_i64_bits : ℕ → BitReader → Read ℕ
read_i64_bits bits r =
    if bits == 64
    then read_bits 64 r
    else and_then (read_bits bits r) λ raw r'. some (sign_extend raw bits, r')
