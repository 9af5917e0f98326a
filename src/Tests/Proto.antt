-- ===== src/Tests/Proto.antt =====
-- Runs of the RESP parser.
use senko.Prelude.{ℕ, ◌≡◌, refl, List, [], ◌∷◌, some, ◌++◌, false, position, length, arith}
use senko.Proto.Number.Decimal.{decimal_signed}
use senko.Proto.Number.{is_utf8, parse_signed, parse_unsigned}
use senko.Proto.Frame.{Frame, verbatim_string, bulk_string, array_frame, array, map, resp, inline}
use senko.Proto.Reading.{Outcome, complete, panic, parse_i64, parse_isize, parse_usize, find_crlf}
use senko.Proto.Scalars.{parse_bulk_string, parse_integer, parse_blob_error, with_body}
use senko.Proto.Parser.Fine.{Fine}
use senko.Proto.Parser.Progress.{parse-Fine}
use senko.Proto.Parser.Faults.{parse-wrapping_length_panics}
use senko.Proto.Serializer.{write_frame, encoded_len}
use senko.Proto.Serializer.Length.{length-write_frame}
use senko.Proto.Serializer.Roundtrip.{parse_frame-write_frame}
use senko.Proto.Iter.{iter, next, collect, token_len, blanks_len}
use senko.Proto.Iter.Frames.{write_all, collect-write_all}
use senko.Tests.Data.{codes, no_f64, no_ryu}
use senko.Proto.Parser.{parse, parse_frame, parse_aggregate, elements, frame_of, dispatch}

abbrev run : List ℕ → Outcome ℕ
run input = parse position no_f64 input

parse_array :
    run (codes "*2\r\n$3\r\nfoo\r\n:12\r\n+x")
    ≡ complete
        (array_frame
          (record { kind = array; len = 2; bytes = codes "$3\r\nfoo\r\n:12\r\n"; encoding = resp }))
        18
unfolding parse parse_frame dispatch parse_aggregate elements frame_of parse_bulk_string
    parse_integer with_body find_crlf parse_i64 parse_isize is_utf8 parse_signed position
parse_array = refl

parse_panics : run (codes "!18446744073709551614\r\n") ≡ panic
unfolding parse parse_frame dispatch parse_blob_error with_body find_crlf parse_usize is_utf8
    parse_unsigned position
parse_panics = refl

parse-Fine_example : Fine (codes "*1\r\n+x") (parse position no_f64 (codes "*1\r\n+x"))
parse-Fine_example = parse-Fine position no_f64 (codes "*1\r\n+x")

parse-wrapping_length_panics_example : run (codes "!18446744073709551614\r\nabc") ≡ panic
parse-wrapping_length_panics_example =
    parse-wrapping_length_panics position no_f64 (λ c xs. refl) (codes "abc")

abbrev a_verbatim : Frame ℕ
a_verbatim = verbatim_string (codes "txt") (codes "some text")

length-write_frame_example :
    length (write_frame decimal_signed no_ryu a_verbatim) ≡ encoded_len no_ryu a_verbatim
length-write_frame_example = length-write_frame decimal_signed no_ryu (λ v. refl) a_verbatim

parse_frame-write_frame_example :
    parse_frame position no_f64 1 (write_frame decimal_signed no_ryu a_verbatim ++ codes "+x") false
    ≡ complete a_verbatim (length (write_frame decimal_signed no_ryu a_verbatim))
parse_frame-write_frame_example =
    parse_frame-write_frame position no_f64 decimal_signed (λ c xs. refl) (λ v. refl) no_ryu 0 false
      a_verbatim (codes "+x") (refl, omega arith)

-- A map of one pair yields its key only.
collect-write_all_example :
    collect position no_f64 1 (
      iter (record {
        kind = map;
        len = 1;
        bytes =
            write_all position no_f64 decimal_signed no_ryu (a_verbatim ∷ [])
            ++ write_frame decimal_signed no_ryu a_verbatim;
        encoding = resp;
      }))
    ≡ some (a_verbatim ∷ [])
collect-write_all_example =
    collect-write_all position no_f64 decimal_signed no_ryu (λ c xs. refl) (λ v. refl) map
      (a_verbatim ∷ []) (write_frame decimal_signed no_ryu a_verbatim) ((refl, omega arith), tt)

-- The tokens of an inline command.
inline_tokens :
    collect position no_f64 2
      (iter (record { kind = array; len = 2; bytes = codes "get  k"; encoding = inline }))
    ≡ some (bulk_string (codes "get") ∷ bulk_string (codes "k") ∷ [])
unfolding collect next token_len blanks_len
inline_tokens = refl
