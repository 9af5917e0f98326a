-- ===== src/Proto/Number.antt =====
-- What senko-proto uses of the standard library to read and write numbers: `from_utf8`,
-- `str::parse` for integers, and the decimal digits that `itoa` documents to write.
pub mod Decimal
use senko.Prelude.{
  ℕ, zero, suc, ◌+◌, ◌-◌, ◌*◌, ◌/◌, ◌%◌, ◌^◌, ◌<◌, List, [], ◌∷◌, ◌++◌, Bool, true, false, ◌&&◌,
  Option, none, some, leb, ltb, ◌==◌, if◌then◌else◌,
}
use senko.Prelude.Int.{ℤ, pos, negsuc, sub_ℕ}

-- `str::from_utf8`: the states of its automaton are what a sequence still lacks.
pub data Utf8 : Type 0 where
  start cont1 cont2 cont3 after_e0 after_ed after_f0 after_f4 : Utf8

abbrev between : ℕ → ℕ → ℕ → Bool
between lo b hi = leb lo b && leb b hi

abbrev first_byte : ℕ → Option Utf8
first_byte b =
    if ltb b 0x80
    then some start
    else if between 0xc2 b 0xdf
    then some cont1
    else if b == 0xe0
    then some after_e0
    else if b == 0xed
    then some after_ed
    else if between 0xe1 b 0xef
    then some cont2
    else if b == 0xf0
    then some after_f0
    else if between 0xf1 b 0xf3
    then some cont3
    else if b == 0xf4
    then some after_f4
    else none

abbrev then_if : Bool → Utf8 → Option Utf8
then_if test s = if test then some s else none

pub utf8_step : Utf8 → ℕ → Option Utf8
utf8_step start b = first_byte b
utf8_step cont1 b = then_if (between 0x80 b 0xbf) start
utf8_step cont2 b = then_if (between 0x80 b 0xbf) cont1
utf8_step cont3 b = then_if (between 0x80 b 0xbf) cont2
utf8_step after_e0 b = then_if (between 0xa0 b 0xbf) cont1
utf8_step after_ed b = then_if (between 0x80 b 0x9f) cont1
utf8_step after_f0 b = then_if (between 0x90 b 0xbf) cont2
utf8_step after_f4 b = then_if (between 0x80 b 0x8f) cont2

abbrev at_start : Utf8 → Bool
at_start start = true
at_start _ = false

pub utf8_from : Utf8 → List ℕ → Bool
unfolding utf8_step
utf8_from s [] = at_start s
utf8_from s (b ∷ bs) = elim (utf8_step s b) [ none ↦ false | some s' ↦ utf8_from s' bs ]

unfoldable pub is_utf8 : List ℕ → Bool
unfolding utf8_from
is_utf8 = utf8_from start

abbrev pub is_digit : ℕ → Bool
is_digit b = leb b'0' b && leb b b'9'

-- The value of a text of digits, read after `acc`.
unfoldable pub digits_from : ℕ → List ℕ → Option ℕ
digits_from acc [] = some acc
digits_from acc (b ∷ bs) =
    let rest = digits_from (acc * 10 + (b - b'0')) bs in if is_digit b then rest else none

-- At least one digit, and nothing else.
unfoldable pub digits : List ℕ → Option ℕ
unfolding digits_from
digits [] = none
digits (b ∷ bs) = digits_from 0 (b ∷ bs)

abbrev at_most : ℕ → Option ℕ → Option ℕ
at_most max none = none
at_most max (some n) = if leb n max then some n else none

-- `str::parse::<usize>()`, on 64 bits: one leading `+` is accepted.
unfoldable pub parse_unsigned : List ℕ → Option ℕ
unfolding digits
parse_unsigned [] = none
parse_unsigned (b ∷ bs) = at_most (2 ^ 64 - 1) (if b == b'+' then digits bs else digits (b ∷ bs))

abbrev as_pos : Option ℕ → Option ℤ
as_pos none = none
as_pos (some n) = some (pos n)

abbrev as_neg : Option ℕ → Option ℤ
as_neg none = none
as_neg (some n) = some (sub_ℕ 0 n)

-- `str::parse::<i64>()`, and `isize` on 64 bits: one leading sign is accepted.
unfoldable pub parse_signed : List ℕ → Option ℤ
unfolding digits
parse_signed [] = none
parse_signed (b ∷ bs) =
    if b == b'-'
    then as_neg (at_most (2 ^ 63) (digits bs))
    else as_pos (at_most (2 ^ 63 - 1) (if b == b'+' then digits bs else digits (b ∷ bs)))
