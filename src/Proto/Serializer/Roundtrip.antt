-- ===== src/Proto/Serializer/Roundtrip.antt =====
-- A frame that is written is read back, whatever bytes follow (senko-proto/src/serializer.rs and
-- senko-proto/src/parser.rs).
use senko.Prelude.{
  ℕ, suc, ◌+◌, ◌/◌, ◌^◌, ◌<◌, ◌≤◌, ◌≡◌, refl, ap, ◌∙◌, List, [], ◌∷◌, ◌++◌, Bool, true, false,
  Option, some, ltb, if◌then◌else◌, length, length-append, arith,
}
use senko.Prelude.Int.{ℤ, pos, pos_part, neg_part}
use senko.Prelude.Search.{FindsFirst}
use senko.Prelude.Equality.{nat_eq}
use senko.Prelude.Maps
use mathlib.Core.List.{append_assoc}
use senko.Proto.Number.{is_utf8}
use senko.Proto.Number.Decimal.{
  decimal_signed, decimal_signed-no_cr, is_utf8-decimal_signed, parse_signed-decimal,
  parse_unsigned-decimal, decimal_short,
}
use senko.Proto.Frame.{
  Frame, simple_string, simple_error, integer, bulk_string, array_frame, null, boolean, double,
  big_number, blob_error, verbatim_string, map_frame, set_frame, push_frame, protocol, utf8,
}
use senko.Proto.Reading.{
  Outcome, complete, err, cr, lf, crlf, add64, parse_i64, parse_isize, parse_usize, with_line,
  bind_parsed, ok,
}
use senko.Proto.Scalars.{
  parse_line_prefixed, parse_integer, parse_null, parse_boolean, parse_double, parse_bulk_string,
  parse_blob_error, parse_verbatim_string, with_body, with_total, bulk_body, blob_body,
  verbatim_body, bulk_of, blob_of, verbatim_len, verbatim_of, double_of,
}
use senko.Proto.Parser.{parse_frame, dispatch}
use senko.Proto.Serializer.{
  write_simple_string, write_error, write_null, write_integer, write_bulk_string, write_blob_error,
  write_verbatim_string, write_frame, header,
}
use senko.Proto.Serializer.Length.{WritesDecimal}
use senko.Proto.Serializer.Wire.{find_crlf-line, with_body-read}

-- What a scalar frame must meet to be read back: a line holds no CR, an integer is an `i64`, a body
-- is no longer than a slice can be, and a verbatim string's format has three bytes.
abbrev pub IsWritable : {F : Type 0} → (List ℕ → Option F) → (F → List ℕ) → Frame F → Type 0
IsWritable parse_f64 ryu (simple_string value) = Maps.contains value cr ≡ false
IsWritable parse_f64 ryu (simple_error value) = Maps.contains value cr ≡ false
IsWritable parse_f64 ryu (big_number value) = Maps.contains value cr ≡ false
IsWritable parse_f64 ryu (integer v) = (pos_part v < 2 ^ 63) × (neg_part v ≤ 2 ^ 63)
IsWritable parse_f64 ryu (bulk_string value) = length value < 2 ^ 63
IsWritable parse_f64 ryu (blob_error value) = length value < 2 ^ 63
IsWritable parse_f64 ryu (verbatim_string encoding text) =
    (length encoding ≡ 3) × (length text + 4 < 2 ^ 63)
IsWritable parse_f64 ryu null = Unit
IsWritable parse_f64 ryu (boolean b) = Unit
IsWritable parse_f64 ryu (double v) =
    (Maps.contains (ryu v) cr ≡ false) × (is_utf8 (ryu v) ≡ true) × (parse_f64 (ryu v) ≡ some v)
IsWritable parse_f64 ryu _ = ⊥

module _ {F : Type 0} (memchr : ℕ → List ℕ → Option ℕ) (parse_f64 : List ℕ → Option F)
    (itoa : ℤ → List ℕ) (first : FindsFirst memchr) (writes : WritesDecimal itoa) where
  -- A text line as it stands on the wire.
  on_wire :
      (prefix : ℕ) (value rest : List ℕ)
      → (prefix ∷ value ++ crlf) ++ rest ≡ prefix ∷ value ++ (cr ∷ lf ∷ rest)
  on_wire prefix value rest = append_assoc (prefix ∷ value) crlf rest

  line_read :
      (prefix : ℕ) (value rest : List ℕ) (k : List ℕ → ℕ → Outcome F)
      → Maps.contains value cr ≡ false
      → with_line memchr ((prefix ∷ value ++ crlf) ++ rest) 1 k ≡ k value (length value + 3)
  line_read prefix value rest k no_cr =
      rw (on_wire prefix value rest, find_crlf-line memchr prefix value rest first no_cr)

  itoa_no_cr : (v : ℤ) → Maps.contains (itoa v) cr ≡ false
  itoa_no_cr v = rw (writes v) (decimal_signed-no_cr v)

  -- A header, then what follows.
  header_read :
      (prefix n : ℕ) (rest : List ℕ) (k : List ℕ → ℕ → Outcome F)
      → with_line memchr (header itoa prefix n ++ rest) 1 k
        ≡ k (itoa (pos n)) (length (itoa (pos n)) + 3)
  header_read prefix n rest k = line_read prefix (itoa (pos n)) rest k (itoa_no_cr (pos n))

  parse_i64-itoa : (v : ℤ) → pos_part v < 2 ^ 63 → neg_part v ≤ 2 ^ 63 → parse_i64 (itoa v) ≡ ok v
  unfolding parse_i64
  parse_i64-itoa v p q = rw (writes v) (rw (is_utf8-decimal_signed v, parse_signed-decimal v p q))

  parse_isize-itoa : (n : ℕ) → n < 2 ^ 63 → parse_isize (itoa (pos n)) ≡ ok (pos n)
  unfolding parse_isize
  parse_isize-itoa n h =
      rw (writes (pos n))
        (rw (is_utf8-decimal_signed (pos n), parse_signed-decimal (pos n) h (omega arith)))

  parse_usize-itoa : (n : ℕ) → n < 2 ^ 64 → parse_usize (itoa (pos n)) ≡ ok n
  unfolding parse_usize decimal_signed
  parse_usize-itoa n h =
      rw (writes (pos n)) (rw (is_utf8-decimal_signed (pos n), parse_unsigned-decimal n h))

  -- The bytes of a length-led frame: header, body, CRLF, and what follows.
  abbrev counted : ℕ → List ℕ → List ℕ → List ℕ
  counted prefix body rest = (header itoa prefix (length body) ++ (body ++ crlf)) ++ rest

  counted_shape :
      (prefix : ℕ) (body rest : List ℕ)
      → counted prefix body rest ≡ header itoa prefix (length body) ++ (body ++ (cr ∷ lf ∷ rest))
  counted_shape prefix body rest = simp append_assoc

  length-header : (prefix n : ℕ) → length (header itoa prefix n) ≡ length (itoa (pos n)) + 3
  length-header prefix n = omega (arith, length-append (itoa (pos n)) crlf)

  itoa_short : (n : ℕ) → length (itoa (pos n)) ≤ 1 + n / 10
  unfolding decimal_signed
  itoa_short n = rw (writes (pos n)) (decimal_short n)

  with_total-read :
      (prefix : ℕ) (body rest : List ℕ) (k : ℕ → Outcome F)
      → length body < 2 ^ 63
      → with_total memchr parse_f64
          (counted prefix body rest)
          (length (itoa (pos (length body))) + 3)
          (length body)
          k
        ≡ k (length (itoa (pos (length body))) + 3 + length body + 2)
  with_total-read prefix body rest k fits =
      let at_body = length (itoa (pos (length body))) + 3 in
      let short = itoa_short (length body) in
      let total : add64 (add64 at_body (length body)) 2 ≡ at_body + length body + 2 = omega arith in
      let there : ltb (length (counted prefix body rest)) (at_body + length body + 2) ≡ false =
        ground (
          arith,
          length-append (header itoa prefix (length body) ++ (body ++ crlf)) rest,
          length-append (header itoa prefix (length body)) (body ++ crlf),
          length-append body crlf,
          length-header prefix (length body),
        ) in
      rw (total, there)

  -- The body that the header announces.
  body_read :
      (prefix : ℕ) (body rest : List ℕ) (missing : Outcome F) (k : List ℕ → Outcome F)
      → length body < 2 ^ 63
      → with_body memchr parse_f64
          (counted prefix body rest)
          (length (itoa (pos (length body))) + 3)
          (length body)
          (length (itoa (pos (length body))) + 3 + length body + 2)
          missing
          k
        ≡ k body
  body_read prefix body rest missing k fits =
      let short = itoa_short (length body) in
      rw (counted_shape prefix body rest) (
        with_body-read memchr parse_f64 (header itoa prefix (length body)) body rest
          (length (itoa (pos (length body))) + 3) missing k
          (omega (arith, length-header prefix (length body))) (omega arith))

  header_counted :
      (prefix : ℕ) (body rest : List ℕ) (k : List ℕ → ℕ → Outcome F)
      → with_line memchr (counted prefix body rest) 1 k
        ≡ k (itoa (pos (length body))) (length (itoa (pos (length body))) + 3)
  header_counted prefix body rest k =
      ap (λ input. with_line memchr input 1 k) (counted_shape prefix body rest)
      ∙ header_read prefix (length body) (body ++ (cr ∷ lf ∷ rest)) k

  bulk_read :
      (value rest : List ℕ)
      → length value < 2 ^ 63
      → parse_bulk_string memchr parse_f64 (counted b'$' value rest)
        ≡ complete (bulk_string value) (length (itoa (pos (length value))) + 3 + length value + 2)
  unfolding parse_bulk_string
  bulk_read value rest fits =
      let input = counted b'$' value rest in
      let at_body = length (itoa (pos (length value))) + 3 in
      header_counted b'$' value rest
        (λ line consumed. bind_parsed (parse_isize line) (bulk_of memchr parse_f64 input consumed))
      ∙ ap (λ r. bind_parsed r (bulk_of memchr parse_f64 input at_body))
          (parse_isize-itoa (length value) fits)
      ∙ with_total-read b'$' value rest (bulk_body memchr parse_f64 input at_body (length value))
          fits
      ∙ body_read b'$' value rest (err (protocol "bulk string missing trailing CRLF"))
          (λ body. complete (bulk_string body) (at_body + length value + 2)) fits

  blob_read :
      (value rest : List ℕ)
      → length value < 2 ^ 63
      → parse_blob_error memchr parse_f64 (counted b'!' value rest)
        ≡ complete (blob_error value) (length (itoa (pos (length value))) + 3 + length value + 2)
  unfolding parse_blob_error
  blob_read value rest fits =
      let input = counted b'!' value rest in
      let at_body = length (itoa (pos (length value))) + 3 in
      header_counted b'!' value rest
        (λ line consumed. bind_parsed (parse_usize line) (blob_of memchr parse_f64 input consumed))
      ∙ ap (λ r. bind_parsed r (blob_of memchr parse_f64 input at_body))
          (parse_usize-itoa (length value) (omega arith))
      ∙ with_total-read b'!' value rest (blob_body memchr parse_f64 input at_body (length value))
          fits
      ∙ body_read b'!' value rest (err (protocol "blob error missing trailing CRLF"))
          (λ body. complete (blob_error body) (at_body + length value + 2)) fits

  separated :
      (encoding text : List ℕ) (total : ℕ)
      → length encoding ≡ 3
      → verbatim_of memchr parse_f64 total (encoding ++ (b':' ∷ text))
        ≡ complete (verbatim_string encoding text) total
  separated [] text total h = absurd (omega arith)
  separated (a ∷ []) text total h = absurd (omega arith)
  separated (a ∷ b ∷ []) text total h = absurd (omega arith)
  separated (a ∷ b ∷ c ∷ []) text total h = refl
  separated (a ∷ b ∷ c ∷ d ∷ e) text total h = absurd (omega arith)

  verbatim_read :
      (encoding text rest : List ℕ)
      → length encoding ≡ 3
      → length text + 4 < 2 ^ 63
      → parse_verbatim_string memchr parse_f64 (counted b'=' (encoding ++ (b':' ∷ text)) rest)
        ≡ complete (verbatim_string encoding text) (
            length (itoa (pos (length (encoding ++ (b':' ∷ text)))))
            + 3
            + length (encoding ++ (b':' ∷ text))
            + 2)
  unfolding parse_verbatim_string
  verbatim_read encoding text rest three short =
      let value = encoding ++ (b':' ∷ text) in
      let size : length value ≡ length text + 4 =
        omega (arith, length-append encoding (b':' ∷ text)) in
      let fits : length value < 2 ^ 63 = omega arith in
      let input = counted b'=' value rest in
      let at_body = length (itoa (pos (length value))) + 3 in
      let total = at_body + length value + 2 in
      let four : ltb (length value) 4 ≡ false = ground arith in
      let missing = err (protocol "verbatim string missing trailing CRLF") in
      header_counted b'=' value rest (λ line consumed.
        bind_parsed (parse_usize line) (verbatim_len memchr parse_f64 input consumed))
      ∙ ap (λ r. bind_parsed r (verbatim_len memchr parse_f64 input at_body))
          (parse_usize-itoa (length value) (omega arith))
      ∙ with_total-read b'=' value rest
          (verbatim_body memchr parse_f64 input at_body (length value)) fits
      ∙ ap
          (λ b.
            if b
            then err (protocol "verbatim string too short")
            else with_body memchr parse_f64 input at_body (length value) total missing
                (verbatim_of memchr parse_f64 total))
          four
      ∙ body_read b'=' value rest missing (verbatim_of memchr parse_f64 total) fits
      ∙ separated encoding text total three

  length-counted :
      (prefix : ℕ) (body : List ℕ)
      → length (itoa (pos (length body))) + 3 + length body + 2
        ≡ length (header itoa prefix (length body) ++ (body ++ crlf))
  length-counted prefix body = omega (
    arith,
    length-append (header itoa prefix (length body)) (body ++ crlf),
    length-append body crlf,
    length-header prefix (length body),
  )

  length-line : (prefix : ℕ) (value : List ℕ) → length value + 3 ≡ length (prefix ∷ value ++ crlf)
  length-line prefix value = omega (arith, length-append value crlf)

  module _ (ryu : F → List ℕ) where
    -- A scalar frame that meets `IsWritable` is read back from its bytes, which are all that is
    -- used, at any nesting depth and whatever follows, if `memchr` finds the first occurrence and
    -- `itoa` writes decimal numbers.
    pub parse_frame-write_frame :
        (fuel : ℕ) (is_inline : Bool) (f : Frame F) (rest : List ℕ)
        → IsWritable parse_f64 ryu f
        → parse_frame memchr parse_f64 (suc fuel) (write_frame itoa ryu f ++ rest) is_inline
          ≡ complete f (length (write_frame itoa ryu f))
    unfolding parse_frame dispatch write_frame write_simple_string write_error write_null
        write_integer write_bulk_string write_blob_error write_verbatim_string parse_line_prefixed
        parse_integer parse_null parse_boolean parse_double
    parse_frame-write_frame fuel is_inline (simple_string value) rest h =
        line_read b'+' value rest _ h ∙ ap (complete (simple_string value)) (length-line b'+' value)
    parse_frame-write_frame fuel is_inline (simple_error value) rest h =
        line_read b'-' value rest _ h ∙ ap (complete (simple_error value)) (length-line b'-' value)
    parse_frame-write_frame fuel is_inline (big_number value) rest h =
        line_read b'(' value rest _ h ∙ ap (complete (big_number value)) (length-line b'(' value)
    parse_frame-write_frame fuel is_inline (integer v) rest h =
        line_read b':' (itoa v) rest _ (itoa_no_cr v)
        ∙ ap (λ r. bind_parsed r (λ i. complete (integer i) (length (itoa v) + 3)))
            (parse_i64-itoa v h.0 h.1)
        ∙ ap (complete (integer v)) (length-line b':' (itoa v))
    parse_frame-write_frame fuel is_inline (bulk_string value) rest h =
        bulk_read value rest h ∙ ap (complete (bulk_string value)) (length-counted b'$' value)
    parse_frame-write_frame fuel is_inline (blob_error value) rest h =
        blob_read value rest h ∙ ap (complete (blob_error value)) (length-counted b'!' value)
    parse_frame-write_frame fuel is_inline (verbatim_string encoding text) rest h =
        let size : length encoding + 1 + length text ≡ length (encoding ++ (b':' ∷ text)) =
          omega (arith, length-append encoding (b':' ∷ text)) in
        rw size (
          verbatim_read encoding text rest h.0 h.1
          ∙ ap (complete (verbatim_string encoding text))
              (length-counted b'=' (encoding ++ (b':' ∷ text))))
    parse_frame-write_frame fuel is_inline null rest h = ground arith
    parse_frame-write_frame fuel is_inline (boolean true) rest h = ground arith
    parse_frame-write_frame fuel is_inline (boolean false) rest h = ground arith
    parse_frame-write_frame fuel is_inline (double v) rest h =
        line_read b',' (ryu v) rest _ h.0
        ∙ ap
            (λ b.
              if b
              then double_of memchr parse_f64 (parse_f64 (ryu v)) (length (ryu v) + 3)
              else err utf8)
            h.1
        ∙ ap (λ o. double_of memchr parse_f64 o (length (ryu v) + 3)) h.2
        ∙ ap (complete (double v)) (length-line b',' (ryu v))
    parse_frame-write_frame fuel is_inline (array_frame a) rest h = absurd h
    parse_frame-write_frame fuel is_inline (map_frame a) rest h = absurd h
    parse_frame-write_frame fuel is_inline (set_frame a) rest h = absurd h
    parse_frame-write_frame fuel is_inline (push_frame a) rest h = absurd h
