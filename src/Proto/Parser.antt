-- ===== src/Proto/Parser.antt =====
-- senko-proto/src/parser.rs: aggregates, and the choice by the prefix byte. The proofs are in the
-- modules below.
pub mod Fine
pub mod Progress
pub mod Faults
use senko.Prelude.{
  ℕ, zero, suc, ◌+◌, ◌-◌, ◌*◌, ◌%◌, ◌^◌, ◌<◌, ◌≤◌, List, [], ◌∷◌, ◌++◌, Bool, true, false, ◌&&◌,
  ◌||◌, not, Option, none, some, leb, ltb, ◌==◌, if◌then◌else◌, length, get_elem?, take, drop,
  u64_mod, u64_max,
}
use senko.Prelude.Int.{ℤ, pos, negsuc}
use senko.Prelude.Equality.{bytes_beq}
use Prim.Native.String.{String}
use senko.Proto.Number.{is_utf8, parse_signed, parse_unsigned}
use senko.Proto.Frame.{
  SenkoError, utf8, parse_int, parse_float, protocol, AggregateKind, array, map, set, push,
  AggregateEncoding, resp, inline, Aggregate, Frame, simple_string, simple_error, integer,
  bulk_string, array_frame, null, boolean, double, big_number, blob_error, verbatim_string,
  map_frame, set_frame, push_frame,
}
use senko.Proto.Reading.{
  Outcome, complete, incomplete, err, panic, exhausted, Parsed, ok, bad, add64, cr, lf, parse_isize,
  with_line, bind_parsed,
}
use senko.Proto.Scalars.{
  parse_line_prefixed, parse_integer, parse_null, parse_boolean, parse_double, parse_bulk_string,
  parse_blob_error, parse_verbatim_string, parse_inline,
}

-- The crate `memchr` and the standard library's `parse::<f64>` are parameters.
module _ {F : Type 0} (memchr : ℕ → List ℕ → Option ℕ) (parse_f64 : List ℕ → Option F) where
  unfoldable pub frame_of : AggregateKind → Aggregate → Frame F
  frame_of array a = array_frame a
  frame_of map a = map_frame a
  frame_of set a = set_frame a
  frame_of push a = push_frame a

  -- `len.saturating_mul(2)` for a map.
  abbrev pub expected_of : AggregateKind → ℕ → ℕ
  expected_of map len = if ltb u64_max (len * 2) then u64_max else len * 2
  expected_of _ len = len

  -- `while parsed < expected`, with `expected - parsed` turns left; `done` is what follows it.
  -- `item` is `parse_frame(_, false)`.
  abbrev pub after_item : ℕ → (ℕ → Outcome F) → Outcome F → Outcome F
  after_item consumed go (complete frame used) = go used
  after_item consumed go (incomplete needed) = incomplete (add64 consumed needed)
  after_item consumed go (err e) = err e
  after_item consumed go panic = panic
  after_item consumed go exhausted = exhausted

  unfoldable pub elements : (List ℕ → Outcome F) → List ℕ → (ℕ → Outcome F) → ℕ → ℕ → Outcome F
  elements item input done zero consumed = done consumed
  elements item input done (suc left) consumed =
      after_item consumed (λ used. elements item input done left (consumed + used))
        (item (drop consumed input))

  abbrev pub aggregate_of : (List ℕ → Outcome F) → List ℕ → AggregateKind → ℕ → ℤ → Outcome F
  aggregate_of item input kind header_consumed (negsuc n) = complete null header_consumed
  aggregate_of item input kind header_consumed (pos len) =
      elements item input
        (λ consumed.
          complete
            (frame_of kind (record {
              kind = kind;
              len = len;
              bytes = take (consumed - header_consumed) (drop header_consumed input);
              encoding = resp;
            }))
            consumed)
        (expected_of kind len) header_consumed

  unfoldable pub parse_aggregate : (List ℕ → Outcome F) → List ℕ → AggregateKind → Outcome F
  parse_aggregate item input kind = with_line memchr input 1 (λ line header_consumed.
      bind_parsed (parse_isize line) (aggregate_of item input kind header_consumed))

  -- The `match prefix` of `parse_frame`; `item` parses an element of an aggregate.
  unfoldable pub dispatch : (List ℕ → Outcome F) → List ℕ → ℕ → Bool → Outcome F
  dispatch item input prefix is_inline =
      if prefix == b'+'
      then parse_line_prefixed memchr parse_f64 input simple_string
      else if prefix == b'-'
      then parse_line_prefixed memchr parse_f64 input simple_error
      else if prefix == b':'
      then parse_integer memchr parse_f64 input
      else if prefix == b'$'
      then parse_bulk_string memchr parse_f64 input
      else if prefix == b'*'
      then parse_aggregate item input array
      else if prefix == b'_'
      then parse_null memchr parse_f64 input
      else if prefix == b'#'
      then parse_boolean memchr parse_f64 input
      else if prefix == b','
      then parse_double memchr parse_f64 input
      else if prefix == b'('
      then parse_line_prefixed memchr parse_f64 input big_number
      else if prefix == b'!'
      then parse_blob_error memchr parse_f64 input
      else if prefix == b'='
      then parse_verbatim_string memchr parse_f64 input
      else if prefix == b'%'
      then parse_aggregate item input map
      else if prefix == b'~'
      then parse_aggregate item input set
      else if prefix == b'>'
      then parse_aggregate item input push
      else if prefix == cr || prefix == lf
      then err (protocol "unexpected line break")
      else if is_inline
      then parse_inline memchr parse_f64 input
      else err (protocol "unsupported RESP type prefix")

  -- The fuel bounds the nesting of aggregates.
  unfoldable pub parse_frame : ℕ → List ℕ → Bool → Outcome F
  parse_frame zero input is_inline = exhausted
  parse_frame (suc fuel) [] is_inline = incomplete 1
  parse_frame (suc fuel) (prefix ∷ rest) is_inline =
      let item = λ (xs : List ℕ). parse_frame fuel xs false in
      dispatch item (prefix ∷ rest) prefix is_inline

  -- `RespParser::parse`: an input of n bytes nests fewer than n aggregates.
  unfoldable pub parse : List ℕ → Outcome F
  parse input = parse_frame (suc (length input)) input true
