-- ===== src/Proto/Reading.antt =====
-- senko-proto/src/parser.rs: results, slices, lines, numbers and blanks. Slices are lists; `usize`
-- sums wrap as in a release build, and a slice with bad bounds is a panic.
use senko.Prelude.{
  ℕ, ◌+◌, ◌-◌, ◌%◌, List, [], ◌∷◌, Bool, false, ◌&&◌, ◌||◌, not, Option, none, some, leb, ltb, ◌==◌,
  if◌then◌else◌, length, get_elem?, take, drop, u64_mod,
}
use senko.Prelude.Int.{ℤ}
use senko.Proto.Number.{is_utf8, parse_signed, parse_unsigned}
use senko.Proto.Frame.{SenkoError, utf8, parse_int, Frame}

-- `SenkoResult<ParseStatus>`, with the panics, and with the end of the model's own fuel.
pub data Outcome (F : Type 0) : Type 0 where
  complete : Frame F → ℕ → Outcome F
  incomplete : ℕ → Outcome F
  err : SenkoError → Outcome F
  panic : Outcome F
  exhausted : Outcome F

-- What a fallible number parser returns.
pub data Parsed (A : Type 0) : Type 0 where
  ok : A → Parsed A
  bad : SenkoError → Parsed A

abbrev pub add64 : ℕ → ℕ → ℕ
add64 a b = (a + b) % u64_mod

-- `&input[from..to]`; `none` is the panic.
abbrev pub slice : List ℕ → ℕ → ℕ → Option (List ℕ)
slice input from to =
    if leb from to && leb to (length input) then some (take (to - from) (drop from input)) else none

abbrev pub cr : ℕ
cr = 13

abbrev pub lf : ℕ
lf = 10

abbrev pub crlf : List ℕ
crlf = cr ∷ lf ∷ []

-- An answer of the standard library's parser, as the parser's own result.
abbrev pub or_parse_int : {A : Type 0} → Option A → Parsed A
or_parse_int none = bad parse_int
or_parse_int (some v) = ok v

unfoldable pub parse_i64 : List ℕ → Parsed ℤ
parse_i64 line = if is_utf8 line then or_parse_int (parse_signed line) else bad utf8

-- `isize` is 64 bits wide.
unfoldable pub parse_isize : List ℕ → Parsed ℤ
parse_isize line = if is_utf8 line then or_parse_int (parse_signed line) else bad utf8

unfoldable pub parse_usize : List ℕ → Parsed ℕ
parse_usize line = if is_utf8 line then or_parse_int (parse_unsigned line) else bad utf8

abbrev pub is_blank : ℕ → Bool
is_blank b = b == b' ' || b == 9

unfoldable pub trim_start : List ℕ → List ℕ
trim_start [] = []
trim_start (b ∷ bs) = if is_blank b then trim_start bs else b ∷ bs

-- Drops the blanks at the end.
unfoldable pub trim_end : List ℕ → List ℕ
trim_end [] = []
trim_end (b ∷ bs) =
    let rest = trim_end bs in if is_blank b && length rest == 0 then [] else b ∷ rest

unfoldable pub trim_ascii_whitespace : List ℕ → List ℕ
trim_ascii_whitespace input = trim_end (trim_start input)

unfoldable pub count_args_from : Bool → ℕ → List ℕ → ℕ
count_args_from in_token count [] = count
count_args_from in_token count (b ∷ bs) =
    count_args_from (not (is_blank b)) (if is_blank b || in_token then count else count + 1) bs

unfoldable pub count_inline_args : List ℕ → ℕ
count_inline_args = count_args_from false 0

-- `input.get(pos + 1).copied() != Some(b'\n')`, with what stands there.
abbrev pub line_end : List ℕ → ℕ → ℕ → Option ℕ → Option (List ℕ × ℕ)
line_end input start_at place none = none
line_end input start_at place (some b) =
    if b == lf then some (take (place - start_at) (drop start_at input), place + 2) else none

-- `pos = start + rel`.
abbrev pub line_from : List ℕ → ℕ → Option ℕ → Option (List ℕ × ℕ)
line_from input start_at none = none
line_from input start_at (some rel) =
    line_end input start_at (start_at + rel) (get_elem? input (start_at + rel + 1))

-- The crate `memchr` is a parameter.
module _ (memchr : ℕ → List ℕ → Option ℕ) where
  unfoldable pub find_crlf : List ℕ → ℕ → Option (List ℕ × ℕ)
  find_crlf input start_at =
      if ltb (length input) start_at
      then none
      else line_from input start_at (memchr cr (drop start_at input))

module _ {F : Type 0} where
  -- `?` on a number.
  abbrev pub bind_parsed : {A : Type 0} → Parsed A → (A → Outcome F) → Outcome F
  bind_parsed (ok v) k = k v
  bind_parsed (bad e) k = err e

  -- `let Some(..) = find_crlf(..) else`: without a line, two more bytes are asked for.
  abbrev pub after_line : ℕ → Option (List ℕ × ℕ) → (List ℕ → ℕ → Outcome F) → Outcome F
  after_line len none k = incomplete (len + 2)
  after_line len (some (line, consumed)) k = k line consumed

  abbrev pub or_panic : Option (List ℕ) → (List ℕ → Outcome F) → Outcome F
  or_panic none k = panic
  or_panic (some part) k = k part

module _ {F : Type 0} (memchr : ℕ → List ℕ → Option ℕ) where
  abbrev pub with_line : List ℕ → ℕ → (List ℕ → ℕ → Outcome F) → Outcome F
  with_line input start_at k = after_line (length input) (find_crlf memchr input start_at) k
