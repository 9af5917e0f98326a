-- ===== src/Proto/Scalars.antt =====
-- senko-proto/src/parser.rs: the frames that hold no other frame.
use senko.Prelude.{
  ℕ, List, ◌∷◌, true, false, Option, none, some, ltb, ◌==◌, if◌then◌else◌, length, get_elem?, take,
  drop,
}
use senko.Prelude.Int.{ℤ, pos, negsuc}
use senko.Prelude.Equality.{bytes_beq}
use senko.Proto.Number.{is_utf8}
use senko.Proto.Frame.{
  utf8, parse_float, protocol, array, inline, Frame, integer, bulk_string, array_frame, null,
  boolean, double, blob_error, verbatim_string,
}
use senko.Proto.Reading.{
  Outcome, complete, incomplete, err, add64, slice, crlf, parse_i64, parse_isize, parse_usize,
  trim_ascii_whitespace, count_inline_args, with_line, bind_parsed, or_panic,
}

-- The crate `memchr` and the standard library's `parse::<f64>` are parameters.
module _ {F : Type 0} (memchr : ℕ → List ℕ → Option ℕ) (parse_f64 : List ℕ → Option F) where
  unfoldable pub parse_line_prefixed : List ℕ → (List ℕ → Frame F) → Outcome F
  parse_line_prefixed input build =
      with_line memchr input 1 (λ line consumed. complete (build line) consumed)

  unfoldable pub parse_integer : List ℕ → Outcome F
  parse_integer input =
      with_line memchr input 1
        (λ line consumed. bind_parsed (parse_i64 line) (λ v. complete (integer v) consumed))

  unfoldable pub parse_null : List ℕ → Outcome F
  parse_null input =
      if ltb (length input) 3
      then incomplete 3
      else if bytes_beq (take 3 input) (b'_' ∷ crlf)
      then complete null 3
      else err (protocol "invalid null frame")

  unfoldable pub parse_boolean : List ℕ → Outcome F
  parse_boolean input =
      if ltb (length input) 4
      then incomplete 4
      else if bytes_beq (take 4 input) (b'#' ∷ b't' ∷ crlf)
      then complete (boolean true) 4
      else if bytes_beq (take 4 input) (b'#' ∷ b'f' ∷ crlf)
      then complete (boolean false) 4
      else err (protocol "invalid boolean frame")

  abbrev pub double_of : Option F → ℕ → Outcome F
  double_of none consumed = err parse_float
  double_of (some v) consumed = complete (double v) consumed

  unfoldable pub parse_double : List ℕ → Outcome F
  parse_double input =
      with_line memchr input 1
        (λ line consumed. if is_utf8 line then double_of (parse_f64 line) consumed else err utf8)

  -- `&input[body_end..total] != b"\r\n"` and then `&input[header_consumed..body_end]`.
  unfoldable pub with_body : List ℕ → ℕ → ℕ → ℕ → Outcome F → (List ℕ → Outcome F) → Outcome F
  with_body input header_consumed len total missing k =
      let body_end = add64 header_consumed len in
      or_panic (slice input body_end total) (λ tail.
        if bytes_beq tail crlf then or_panic (slice input header_consumed body_end) k else missing)

  -- `header_consumed + len + 2`, and the wait for that many bytes.
  abbrev pub with_total : List ℕ → ℕ → ℕ → (ℕ → Outcome F) → Outcome F
  with_total input header_consumed len k =
      let total = add64 (add64 header_consumed len) 2 in
      if ltb (length input) total then incomplete total else k total

  abbrev pub bulk_body : List ℕ → ℕ → ℕ → ℕ → Outcome F
  bulk_body input header_consumed len total =
      with_body input header_consumed len total (err (protocol "bulk string missing trailing CRLF"))
        (λ body. complete (bulk_string body) total)

  abbrev pub bulk_of : List ℕ → ℕ → ℤ → Outcome F
  bulk_of input header_consumed (negsuc n) = complete null header_consumed
  bulk_of input header_consumed (pos len) =
      with_total input header_consumed len (bulk_body input header_consumed len)

  unfoldable pub parse_bulk_string : List ℕ → Outcome F
  parse_bulk_string input =
      with_line memchr input 1
        (λ line header_consumed. bind_parsed (parse_isize line) (bulk_of input header_consumed))

  abbrev pub blob_body : List ℕ → ℕ → ℕ → ℕ → Outcome F
  blob_body input header_consumed len total =
      with_body input header_consumed len total (err (protocol "blob error missing trailing CRLF"))
        (λ body. complete (blob_error body) total)

  abbrev pub blob_of : List ℕ → ℕ → ℕ → Outcome F
  blob_of input header_consumed len =
      with_total input header_consumed len (blob_body input header_consumed len)

  unfoldable pub parse_blob_error : List ℕ → Outcome F
  parse_blob_error input =
      with_line memchr input 1
        (λ line header_consumed. bind_parsed (parse_usize line) (blob_of input header_consumed))

  -- `payload.get(3).copied() != Some(b':')`, with what stands there.
  abbrev pub with_separator : ℕ → List ℕ → Option ℕ → Outcome F
  with_separator total payload none = err (protocol "verbatim string missing format separator")
  with_separator total payload (some b) =
      if b == b':'
      then complete (verbatim_string (take 3 payload) (drop 4 payload)) total
      else err (protocol "verbatim string missing format separator")

  abbrev pub verbatim_of : ℕ → List ℕ → Outcome F
  verbatim_of total payload = with_separator total payload (get_elem? payload 3)

  abbrev pub verbatim_body : List ℕ → ℕ → ℕ → ℕ → Outcome F
  verbatim_body input header_consumed len total =
      if ltb len 4
      then err (protocol "verbatim string too short")
      else with_body input header_consumed len total
          (err (protocol "verbatim string missing trailing CRLF")) (verbatim_of total)

  abbrev pub verbatim_len : List ℕ → ℕ → ℕ → Outcome F
  verbatim_len input header_consumed len =
      with_total input header_consumed len (verbatim_body input header_consumed len)

  unfoldable pub parse_verbatim_string : List ℕ → Outcome F
  parse_verbatim_string input =
      with_line memchr input 1 (λ line header_consumed.
        bind_parsed (parse_usize line) (verbatim_len input header_consumed))

  unfoldable pub parse_inline : List ℕ → Outcome F
  parse_inline input = with_line memchr input 0 (λ line consumed.
      let trimmed = trim_ascii_whitespace line in
      if length trimmed == 0
      then err (protocol "empty inline command")
      else complete
          (array_frame (record {
            kind = array;
            len = count_inline_args trimmed;
            bytes = trimmed;
            encoding = inline;
          }))
          consumed)
