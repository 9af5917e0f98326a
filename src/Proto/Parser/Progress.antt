-- ===== src/Proto/Parser/Progress.antt =====
-- The parser makes progress inside its input, and its fuel is enough (senko-proto/src/parser.rs).
use senko.Prelude.{
  ℕ, zero, suc, ◌+◌, ◌<◌, ◌≤◌, List, [], ◌∷◌, ◌||◌, Bool, true, false, Option, none, some, ltb,
  ◌==◌, length, get_elem?, drop, arith, length-drop,
}
use senko.Prelude.Int.{ℤ, pos, negsuc}
use senko.Prelude.Equality.{bytes_beq}
use senko.Proto.Frame.{
  Frame, SenkoError, protocol, simple_string, simple_error, big_number, bulk_string, blob_error,
  AggregateKind, array, map, set, push,
}
use senko.Proto.Number.{is_utf8}
use senko.Proto.Reading.{
  Outcome, complete, incomplete, err, panic, exhausted, slice, crlf, parse_i64, parse_isize,
  parse_usize, trim_ascii_whitespace, find_crlf, with_line, add64, cr, lf,
}
use senko.Proto.Scalars.{
  parse_line_prefixed, parse_integer, parse_null, parse_boolean, parse_double, double_of,
  parse_bulk_string, parse_blob_error, parse_verbatim_string, verbatim_of, bulk_of, with_body,
  bulk_body, blob_body, blob_of, verbatim_body, verbatim_len, with_total, with_separator,
  parse_inline,
}
use senko.Proto.Parser.{
  after_item, elements, aggregate_of, parse_aggregate, dispatch, parse_frame, parse, expected_of,
}
use senko.Proto.Parser.Fine.{
  Fine, Fine-if, Fine-bind_parsed, Fine-or_panic, Fine-after_line, find_crlf_bounds, slice_end_pos,
}

module _ {F : Type 0} (memchr : ℕ → List ℕ → Option ℕ) (parse_f64 : List ℕ → Option F) where
  Fine-with_line :
      (input : List ℕ) (start_at : ℕ) (k : List ℕ → ℕ → Outcome F)
      → ((line : List ℕ) (consumed : ℕ)
          → start_at < consumed
          → consumed ≤ length input
          → Fine input (k line consumed))
      → Fine input (with_line memchr input start_at k)
  Fine-with_line input start_at k h =
      Fine-after_line input (find_crlf memchr input start_at) k λ line consumed e.
        let (after, inside) = find_crlf_bounds memchr input start_at line consumed e in
        h line consumed after inside

  Fine-line_prefixed :
      (input : List ℕ) (build : List ℕ → Frame F)
      → Fine input (parse_line_prefixed memchr parse_f64 input build)
  unfolding parse_line_prefixed
  Fine-line_prefixed input build =
      Fine-with_line input 1 _ (λ line consumed after inside. (omega arith, inside))

  Fine-integer : (input : List ℕ) → Fine input (parse_integer memchr parse_f64 input)
  unfolding parse_integer
  Fine-integer input = Fine-with_line input 1 _ λ line consumed after inside.
      Fine-bind_parsed input (parse_i64 line) _ (λ v. (omega arith, inside))

  Fine-null : (input : List ℕ) → Fine input (parse_null memchr parse_f64 input)
  unfolding parse_null
  Fine-null input = ground arith

  Fine-boolean : (input : List ℕ) → Fine input (parse_boolean memchr parse_f64 input)
  unfolding parse_boolean
  Fine-boolean input = ground arith

  Fine-double_of :
      (input : List ℕ) (o : Option F) (consumed : ℕ)
      → 0 < consumed
      → consumed ≤ length input
      → Fine input (double_of memchr parse_f64 o consumed)
  Fine-double_of input none consumed after inside = tt
  Fine-double_of input (some v) consumed after inside = (after, inside)

  Fine-double : (input : List ℕ) → Fine input (parse_double memchr parse_f64 input)
  unfolding parse_double
  Fine-double input = Fine-with_line input 1 _ λ line consumed after inside.
      Fine-if input (is_utf8 line) _ _
        (λ _. Fine-double_of input (parse_f64 line) consumed (omega arith) inside) (λ _. tt)

  Fine-with_body :
      (input : List ℕ) (header_consumed len total : ℕ) (e : SenkoError) (k : List ℕ → Outcome F)
      → ((body : List ℕ) → 0 < total → Fine input (k body))
      → Fine input (with_body memchr parse_f64 input header_consumed len total (err e) k)
  unfolding with_body
  Fine-with_body input header_consumed len total e k h =
      let body_end = add64 header_consumed len in
      Fine-or_panic input (slice input body_end total) _ λ tail cut.
        Fine-if input (bytes_beq tail crlf) _ _
          (λ is_crlf.
            Fine-or_panic input (slice input header_consumed body_end) k
              (λ body _. h body (slice_end_pos input body_end total tail cut is_crlf)))
          (λ _. tt)

  Fine-with_total :
      (input : List ℕ) (header_consumed len : ℕ) (k : ℕ → Outcome F)
      → ((total : ℕ) → total ≤ length input → Fine input (k total))
      → Fine input (with_total memchr parse_f64 input header_consumed len k)
  Fine-with_total input header_consumed len k h =
      let total = add64 (add64 header_consumed len) 2 in
      Fine-if input (ltb (length input) total) _ _ (λ _. tt) (λ enough. h total (ground arith))

  Fine-bulk_of :
      (input : List ℕ) (header_consumed : ℕ) (len : ℤ)
      → 0 < header_consumed
      → header_consumed ≤ length input
      → Fine input (bulk_of memchr parse_f64 input header_consumed len)
  Fine-bulk_of input header_consumed (negsuc n) after inside = (after, inside)
  Fine-bulk_of input header_consumed (pos len) after inside =
      Fine-with_total input header_consumed len
        (bulk_body memchr parse_f64 input header_consumed len)
        λ total enough.
          Fine-with_body input header_consumed len total
            (protocol "bulk string missing trailing CRLF")
            (λ body. complete (bulk_string body) total) (λ body some_bytes. (some_bytes, enough))

  Fine-bulk_string : (input : List ℕ) → Fine input (parse_bulk_string memchr parse_f64 input)
  unfolding parse_bulk_string
  Fine-bulk_string input = Fine-with_line input 1 _ λ line consumed after inside.
      Fine-bind_parsed input (parse_isize line) _
        (λ len. Fine-bulk_of input consumed len (omega arith) inside)

  Fine-blob_of :
      (input : List ℕ) (header_consumed len : ℕ)
      → Fine input (blob_of memchr parse_f64 input header_consumed len)
  Fine-blob_of input header_consumed len =
      Fine-with_total input header_consumed len
        (blob_body memchr parse_f64 input header_consumed len)
        λ total enough.
          Fine-with_body input header_consumed len total
            (protocol "blob error missing trailing CRLF") (λ body. complete (blob_error body) total)
            (λ body some_bytes. (some_bytes, enough))

  Fine-blob_error : (input : List ℕ) → Fine input (parse_blob_error memchr parse_f64 input)
  unfolding parse_blob_error
  Fine-blob_error input = Fine-with_line input 1 _ λ line consumed after inside.
      Fine-bind_parsed input (parse_usize line) _ (Fine-blob_of input consumed)

  Fine-with_separator :
      (input : List ℕ) (total : ℕ) (payload : List ℕ) (o : Option ℕ)
      → 0 < total
      → total ≤ length input
      → Fine input (with_separator memchr parse_f64 total payload o)
  Fine-with_separator input total payload none p q = tt
  Fine-with_separator input total payload (some b) p q =
      Fine-if input (b == b':') _ _ (λ _. (p, q)) (λ _. tt)

  Fine-verbatim_len :
      (input : List ℕ) (header_consumed len : ℕ)
      → Fine input (verbatim_len memchr parse_f64 input header_consumed len)
  Fine-verbatim_len input header_consumed len =
      Fine-with_total input header_consumed len
        (verbatim_body memchr parse_f64 input header_consumed len)
        λ total enough.
          Fine-if input (ltb len 4) (err (protocol "verbatim string too short"))
            (with_body memchr parse_f64 input header_consumed len total
              (err (protocol "verbatim string missing trailing CRLF"))
              (verbatim_of memchr parse_f64 total))
            (λ _. tt)
            λ _.
              Fine-with_body input header_consumed len total
                (protocol "verbatim string missing trailing CRLF")
                (verbatim_of memchr parse_f64 total)
                (λ payload some_bytes.
                  Fine-with_separator input total payload (get_elem? payload 3) some_bytes enough)

  Fine-verbatim_string :
      (input : List ℕ) → Fine input (parse_verbatim_string memchr parse_f64 input)
  unfolding parse_verbatim_string
  Fine-verbatim_string input = Fine-with_line input 1 _ λ line consumed after inside.
      Fine-bind_parsed input (parse_usize line) _ (Fine-verbatim_len input consumed)

  Fine-inline : (input : List ℕ) → Fine input (parse_inline memchr parse_f64 input)
  unfolding parse_inline
  Fine-inline input = Fine-with_line input 0 _ λ line consumed after inside.
      Fine-if input (length (trim_ascii_whitespace line) == 0) _ _ (λ _. tt)
        (λ _. (omega arith, inside))

  -- `item` is fine on every input that is shorter than `n`.
  module _ (n : ℕ) (item : List ℕ → Outcome F)
      (item_fine : (xs : List ℕ) → length xs < n → Fine xs (item xs)) where
    Fine-after_item :
        (input : List ℕ) (consumed : ℕ) (go : ℕ → Outcome F) (o : Outcome F)
        → consumed ≤ length input
        → Fine (drop consumed input) o
        → ((used : ℕ) → consumed + used ≤ length input → Fine input (go used))
        → Fine input (after_item memchr parse_f64 consumed go o)
    Fine-after_item input consumed go (complete f used) inside fine h =
        h used (omega (arith, length-drop consumed input))
    Fine-after_item input consumed go (incomplete needed) inside fine h = tt
    Fine-after_item input consumed go (err e) inside fine h = tt
    Fine-after_item input consumed go panic inside fine h = tt
    Fine-after_item input consumed go exhausted inside fine h = fine

    Fine-elements :
        (input : List ℕ) (done : ℕ → Outcome F) (left consumed : ℕ)
        → length input ≤ n
        → 0 < consumed
        → consumed ≤ length input
        → ((c : ℕ) → 0 < c → c ≤ length input → Fine input (done c))
        → Fine input (elements memchr parse_f64 item input done left consumed)
    unfolding elements
    Fine-elements input done zero consumed short after inside h = h consumed after inside
    Fine-elements input done (suc left) consumed short after inside h =
        Fine-after_item input consumed _ (item (drop consumed input)) inside
          (item_fine (drop consumed input) (omega (arith, length-drop consumed input)))
          (λ used bound.
            Fine-elements input done left (consumed + used) short (omega arith) bound h)

    Fine-aggregate_of :
        (input : List ℕ) (kind : AggregateKind) (header_consumed : ℕ) (len : ℤ)
        → length input ≤ n
        → 0 < header_consumed
        → header_consumed ≤ length input
        → Fine input (aggregate_of memchr parse_f64 item input kind header_consumed len)
    Fine-aggregate_of input kind header_consumed (negsuc m) short after inside = (after, inside)
    Fine-aggregate_of input kind header_consumed (pos len) short after inside =
        Fine-elements input _ (expected_of memchr parse_f64 kind len) header_consumed short after
          inside (λ c p q. (p, q))

    Fine-aggregate :
        (input : List ℕ) (kind : AggregateKind)
        → length input ≤ n
        → Fine input (parse_aggregate memchr parse_f64 item input kind)
    unfolding parse_aggregate
    Fine-aggregate input kind short = Fine-with_line input 1 _ λ line consumed after inside.
        Fine-bind_parsed input (parse_isize line) _
          (λ len. Fine-aggregate_of input kind consumed len short (omega arith) inside)

    Fine-dispatch :
        (input : List ℕ) (prefix : ℕ) (is_inline : Bool)
        → length input ≤ n
        → Fine input (dispatch memchr parse_f64 item input prefix is_inline)
    unfolding dispatch
    Fine-dispatch input prefix is_inline short =
        Fine-if input (prefix == b'+') _ _ (λ _. Fine-line_prefixed input simple_string)
          λ _.
            Fine-if input (prefix == b'-') _ _ (λ _. Fine-line_prefixed input simple_error)
              λ _.
                Fine-if input (prefix == b':') _ _ (λ _. Fine-integer input)
                  λ _.
                    Fine-if input (prefix == b'$') _ _ (λ _. Fine-bulk_string input)
                      λ _.
                        Fine-if input (prefix == b'*') _ _ (λ _. Fine-aggregate input array short)
                          λ _.
                            Fine-if input (prefix == b'_') _ _ (λ _. Fine-null input)
                              λ _.
                                Fine-if input (prefix == b'#') _ _ (λ _. Fine-boolean input)
                                  λ _.
                                    Fine-if input (prefix == b',') _ _ (λ _. Fine-double input)
                                      λ _.
                                        Fine-if input (prefix == b'(') _ _
                                          (λ _. Fine-line_prefixed input big_number)
                                          λ _.
                                            Fine-if input (prefix == b'!') _ _
                                              (λ _. Fine-blob_error input)
                                              λ _.
                                                Fine-if input (prefix == b'=') _ _
                                                  (λ _. Fine-verbatim_string input)
                                                  λ _.
                                                    Fine-if input (prefix == b'%') _ _
                                                      (λ _. Fine-aggregate input map short)
                                                      λ _.
                                                        Fine-if input (prefix == b'~') _ _
                                                          (λ _. Fine-aggregate input set short)
                                                          λ _.
                                                            Fine-if input (prefix == b'>') _ _
                                                            (λ _. Fine-aggregate input push short)
                                                            λ _.
                                                            Fine-if input
                                                            (prefix == cr || prefix == lf) _ _
                                                            (λ _. tt)
                                                            λ _.
                                                            Fine-if input is_inline _ _
                                                            (λ _. Fine-inline input) (λ _. tt)

  -- With more fuel than bytes, a frame that parses is fine.
  parse_frame-Fine :
      (fuel : ℕ) (input : List ℕ) (is_inline : Bool)
      → length input < fuel
      → Fine input (parse_frame memchr parse_f64 fuel input is_inline)
  unfolding parse_frame
  parse_frame-Fine zero input is_inline h = absurd (omega arith)
  parse_frame-Fine (suc fuel) [] is_inline h = tt
  parse_frame-Fine (suc fuel) (prefix ∷ rest) is_inline h =
      Fine-dispatch fuel (λ xs. parse_frame memchr parse_f64 fuel xs false)
        (λ xs short. parse_frame-Fine fuel xs false short) (prefix ∷ rest) prefix is_inline
        (omega arith)

  -- Whatever the bytes, the parser comes to an end, and a frame that it completes has used at least
  -- one byte and none past the end of the input.
  pub parse-Fine : (input : List ℕ) → Fine input (parse memchr parse_f64 input)
  unfolding parse
  parse-Fine input = parse_frame-Fine (suc (length input)) input true (omega arith)
