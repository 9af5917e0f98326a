-- ===== src/Proto/Serializer/Length.antt =====
-- The capacity that `serialize` reserves (`encoded_len` of senko-proto/src/serializer.rs).
use senko.Prelude.{
  ℕ, zero, suc, ◌+◌, ◌/◌, ◌%◌, ◌<◌, ◌≡◌, refl, List, [], ◌∷◌, ◌++◌, ltb, length, length-append,
  arith, Bool-cases, inl, inr,
}
use senko.Prelude.Int.{ℤ, pos, negsuc}
use senko.Proto.Number.Decimal.{decimal_from, decimal, decimal_signed}
use senko.Proto.Frame.{
  AggregateEncoding, resp, inline, Aggregate, Frame, simple_string, simple_error, integer,
  bulk_string, array_frame, null, boolean, double, big_number, blob_error, verbatim_string,
  map_frame, set_frame, push_frame,
}
use senko.Proto.Reading.{crlf}
use senko.Proto.Serializer.{
  write_simple_string, write_error, write_null, write_integer, write_bulk_string, write_blob_error,
  write_verbatim_string, write_aggregate, write_frame, prefix_of, aggregate_bytes, aggregate_len,
  decimal_len_from, decimal_len, integer_wire_len, aggregate_wire_len, encoded_len,
}

-- The documented result of `itoa`: the decimal text.
abbrev pub WritesDecimal : (ℤ → List ℕ) → Type 0
WritesDecimal itoa = (v : ℤ) → itoa v ≡ decimal_signed v

decimal_len_from-length :
    (fuel n d : ℕ) → n < fuel → decimal_len_from fuel n (d + 1) ≡ d + length (decimal_from fuel n)
unfolding decimal_len_from decimal_from
decimal_len_from-length zero n d h = absurd (omega arith)
decimal_len_from-length (suc fuel) n d h = elim (Bool-cases (ltb n 10)) [
  | inl small ↦ rw (decimal_len_from, decimal_from, small) (omega arith)
  | inr large ↦
      rw (decimal_len_from, decimal_from, large)
        (omega (
          arith,
          decimal_len_from-length fuel (n / 10) (d + 1) (ground arith),
          length-append (decimal_from fuel (n / 10)) ((48 + n % 10) ∷ []),
        ))
]

decimal_len-length : (n : ℕ) → decimal_len n ≡ length (decimal n)
unfolding decimal_len decimal
decimal_len-length n = omega (arith, decimal_len_from-length (suc n) n 0 (omega arith))

decimal_one : length (decimal 1) ≡ 1
unfolding decimal decimal_from
decimal_one = refl

module _ {F : Type 0} (itoa : ℤ → List ℕ) (ryu : F → List ℕ) (writes : WritesDecimal itoa) where
  length-itoa_pos : (n : ℕ) → length (itoa (pos n)) ≡ decimal_len n
  unfolding decimal_signed
  length-itoa_pos n = rw (writes (pos n)) (omega (arith, decimal_len-length n))

  length-itoa_neg : (n : ℕ) → length (itoa (negsuc n)) ≡ 1 + decimal_len (suc n)
  unfolding decimal_signed
  length-itoa_neg n = rw (writes (negsuc n)) (omega (arith, decimal_len-length (suc n)))

  length-integer : (v : ℤ) → length (write_integer itoa v) ≡ integer_wire_len v
  unfolding write_integer integer_wire_len
  length-integer (pos n) = omega (arith, length-append (itoa (pos n)) crlf, length-itoa_pos n)
  length-integer (negsuc zero) = omega (
    arith,
    length-append (itoa (negsuc zero)) crlf,
    length-itoa_neg zero,
    decimal_len-length 1,
    decimal_one,
  )
  length-integer (negsuc (suc n)) =
      ground (arith, length-append (itoa (negsuc (suc n))) crlf, length-itoa_neg (suc n))

  length-text :
      (prefix : ℕ) (value : List ℕ) → length (prefix ∷ value ++ crlf) ≡ 1 + length value + 2
  length-text prefix value = omega (arith, length-append value crlf)

  length-counted :
      (prefix n : ℕ) (value : List ℕ)
      → length ((prefix ∷ itoa (pos n) ++ crlf) ++ value) ≡ 1 + decimal_len n + 2 + length value
  length-counted prefix n value = omega (
    arith,
    length-append (prefix ∷ itoa (pos n) ++ crlf) value,
    length-append (itoa (pos n)) crlf,
    length-itoa_pos n,
  )

  length-write_aggregate : (a : Aggregate) → length (write_aggregate itoa a) ≡ aggregate_wire_len a
  unfolding write_aggregate aggregate_wire_len
  length-write_aggregate a = by_encoding a.encoding
    where
      by_encoding : (e : AggregateEncoding) → length (aggregate_bytes itoa e a) ≡ aggregate_len e a
      by_encoding resp = length-counted (prefix_of a.kind) a.len a.bytes
      by_encoding inline = length-append a.bytes crlf

  -- If `itoa` writes decimal numbers, the capacity that is reserved for a frame is exactly the
  -- number of bytes that it takes on the wire.
  pub length-write_frame : (f : Frame F) → length (write_frame itoa ryu f) ≡ encoded_len ryu f
  unfolding write_frame encoded_len write_simple_string write_error write_null write_bulk_string
      write_blob_error write_verbatim_string
  length-write_frame (simple_string value) = length-text b'+' value
  length-write_frame (simple_error value) = length-text b'-' value
  length-write_frame (integer value) = length-integer value
  length-write_frame (bulk_string value) =
      omega (arith, length-counted b'$' (length value) (value ++ crlf), length-append value crlf)
  length-write_frame (array_frame a) = length-write_aggregate a
  length-write_frame null = refl
  length-write_frame (boolean value) = refl
  length-write_frame (double value) = length-text b',' (ryu value)
  length-write_frame (big_number value) = length-text b'(' value
  length-write_frame (blob_error value) =
      omega (arith, length-counted b'!' (length value) (value ++ crlf), length-append value crlf)
  length-write_frame (verbatim_string encoding text) = omega (
    arith,
    length-counted b'=' (length encoding + 1 + length text) ((encoding ++ (b':' ∷ text)) ++ crlf),
    length-append (encoding ++ (b':' ∷ text)) crlf,
    length-append encoding (b':' ∷ text),
  )
  length-write_frame (map_frame a) = length-write_aggregate a
  length-write_frame (set_frame a) = length-write_aggregate a
  length-write_frame (push_frame a) = length-write_aggregate a
