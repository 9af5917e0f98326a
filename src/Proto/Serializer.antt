-- ===== src/Proto/Serializer.antt =====
-- senko-proto/src/serializer.rs. A `write_*` function appends to `out`; here it returns what it
-- appends.
pub mod Wire
pub mod Length
pub mod Roundtrip
use senko.Prelude.{
  ℕ, zero, suc, ◌+◌, ◌-◌, ◌/◌, List, [], ◌∷◌, ◌++◌, Bool, true, false, ltb, ◌==◌, if◌then◌else◌,
  length,
}
use senko.Prelude.Int.{ℤ, pos, negsuc}
use senko.Proto.Frame.{
  AggregateKind, array, map, set, push, AggregateEncoding, resp, inline, Aggregate, Frame,
  simple_string, simple_error, integer, bulk_string, array_frame, null, boolean, double, big_number,
  blob_error, verbatim_string, map_frame, set_frame, push_frame,
}
use senko.Proto.Reading.{crlf}

-- `b"+OK\r\n"` and its kin.
abbrev pub ok_reply : List ℕ
ok_reply = b'+' ∷ b'O' ∷ b'K' ∷ crlf

abbrev pub pong_reply : List ℕ
pong_reply = b'+' ∷ b'P' ∷ b'O' ∷ b'N' ∷ b'G' ∷ crlf

abbrev pub nil_bulk : List ℕ
nil_bulk = b'$' ∷ b'-' ∷ b'1' ∷ crlf

unfoldable pub write_simple_string : List ℕ → List ℕ
write_simple_string value = b'+' ∷ value ++ crlf

unfoldable pub write_error : List ℕ → List ℕ
write_error value = b'-' ∷ value ++ crlf

unfoldable pub write_null : List ℕ
write_null = b'_' ∷ crlf

unfoldable pub prefix_of : AggregateKind → ℕ
prefix_of array = b'*'
prefix_of map = b'%'
prefix_of set = b'~'
prefix_of push = b'>'

-- The crate `itoa` is a parameter; `usize` values go to it as non-negative integers.
module _ (itoa : ℤ → List ℕ) where
  unfoldable pub write_integer : ℤ → List ℕ
  write_integer value = b':' ∷ itoa value ++ crlf

  -- A prefix, a length and the line's end.
  abbrev pub header : ℕ → ℕ → List ℕ
  header prefix len = prefix ∷ itoa (pos len) ++ crlf

  unfoldable pub write_bulk_string : List ℕ → List ℕ
  write_bulk_string value = header b'$' (length value) ++ (value ++ crlf)

  unfoldable pub write_array_header : ℕ → List ℕ
  write_array_header len = header b'*' len

  unfoldable pub write_raw_map_header : ℕ → List ℕ
  write_raw_map_header len = header b'%' len

  unfoldable pub write_blob_error : List ℕ → List ℕ
  write_blob_error value = header b'!' (length value) ++ (value ++ crlf)

  unfoldable pub write_verbatim_string : List ℕ → List ℕ → List ℕ
  write_verbatim_string encoding text =
      header b'=' (length encoding + 1 + length text) ++ ((encoding ++ (b':' ∷ text)) ++ crlf)

  abbrev pub aggregate_bytes : AggregateEncoding → Aggregate → List ℕ
  aggregate_bytes resp a = header (prefix_of a.kind) a.len ++ a.bytes
  aggregate_bytes inline a = a.bytes ++ crlf

  unfoldable pub write_aggregate : Aggregate → List ℕ
  write_aggregate a = aggregate_bytes a.encoding a

  -- The crate `ryu` writes a double.
  module _ {F : Type 0} (ryu : F → List ℕ) where
    unfoldable pub write_frame : Frame F → List ℕ
    write_frame (simple_string value) = write_simple_string value
    write_frame (simple_error value) = write_error value
    write_frame (integer value) = write_integer value
    write_frame (bulk_string value) = write_bulk_string value
    write_frame (array_frame a) = write_aggregate a
    write_frame null = write_null
    write_frame (boolean value) = b'#' ∷ (if value then b't' else b'f') ∷ crlf
    write_frame (double value) = b',' ∷ ryu value ++ crlf
    write_frame (big_number value) = b'(' ∷ value ++ crlf
    write_frame (blob_error value) = write_blob_error value
    write_frame (verbatim_string encoding text) = write_verbatim_string encoding text
    write_frame (map_frame a) = write_aggregate a
    write_frame (set_frame a) = write_aggregate a
    write_frame (push_frame a) = write_aggregate a

-- The loop of `decimal_len`; `fuel` bounds the digits.
unfoldable pub decimal_len_from : ℕ → ℕ → ℕ → ℕ
decimal_len_from zero value digits = digits
decimal_len_from (suc fuel) value digits =
    let rest = decimal_len_from fuel (value / 10) (digits + 1) in
    if ltb value 10 then digits else rest

unfoldable pub decimal_len : ℕ → ℕ
unfolding decimal_len_from
decimal_len value = decimal_len_from (suc value) value 1

-- `value == -1`, `value < 0`, and the rest.
unfoldable pub integer_wire_len : ℤ → ℕ
integer_wire_len (negsuc n) = 1 + (if n == 0 then 2 else 1 + decimal_len (suc n)) + 2
integer_wire_len (pos n) = 1 + decimal_len n + 2

abbrev pub aggregate_len : AggregateEncoding → Aggregate → ℕ
aggregate_len resp a = 1 + decimal_len a.len + 2 + length a.bytes
aggregate_len inline a = length a.bytes + 2

unfoldable pub aggregate_wire_len : Aggregate → ℕ
aggregate_wire_len a = aggregate_len a.encoding a

module _ {F : Type 0} (ryu : F → List ℕ) where
  -- `double_len`.
  abbrev pub double_len : F → ℕ
  double_len value = length (ryu value)

  unfoldable pub encoded_len : Frame F → ℕ
  encoded_len (simple_string value) = 1 + length value + 2
  encoded_len (simple_error value) = 1 + length value + 2
  encoded_len (big_number value) = 1 + length value + 2
  encoded_len (integer value) = integer_wire_len value
  encoded_len (bulk_string value) = 1 + decimal_len (length value) + 2 + length value + 2
  encoded_len (blob_error value) = 1 + decimal_len (length value) + 2 + length value + 2
  encoded_len (array_frame a) = aggregate_wire_len a
  encoded_len (map_frame a) = aggregate_wire_len a
  encoded_len (set_frame a) = aggregate_wire_len a
  encoded_len (push_frame a) = aggregate_wire_len a
  encoded_len null = 3
  encoded_len (boolean value) = 4
  encoded_len (double value) = 1 + double_len value + 2
  encoded_len (verbatim_string encoding text) =
      1
      + decimal_len (length encoding + 1 + length text)
      + 2
      + (length encoding + 1 + length text)
      + 2
