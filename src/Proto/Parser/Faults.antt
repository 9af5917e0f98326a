-- ===== src/Proto/Parser/Faults.antt =====
-- Inputs on which senko-proto/src/parser.rs fails its client: a carriage return inside a line, and
-- lengths for which the sum of offsets wraps.
use senko.Prelude.{
  ℕ, suc, ◌+◌, ◌-◌, ◌^◌, ◌≡◌, refl, ap, ◌∙◌, List, [], ◌∷◌, ◌++◌, false, Option, none, some, ltb,
  ◌==◌, length, get_elem?, arith,
}
use senko.Prelude.Search.{FindsFirst, position-append}
use senko.Prelude.Equality.{nat_eq}
use senko.Prelude.Maps
use senko.Proto.Number.{is_utf8, parse_unsigned}
use senko.Proto.Reading.{
  incomplete, panic, ok, cr, lf, find_crlf, after_line, bind_parsed, parse_usize,
}
use senko.Proto.Scalars.{parse_line_prefixed, parse_blob_error, with_body, blob_of}
use senko.Proto.Parser.{parse, parse_frame, dispatch}
use senko.Proto.Serializer.Wire.{find_crlf-line}

get_elem?-second :
    (text rest : List ℕ) (a b : ℕ) → get_elem? (text ++ (a ∷ b ∷ rest)) (suc (length text)) ≡ some b
get_elem?-second [] rest a b = refl
get_elem?-second (x ∷ text) rest a b = get_elem?-second text rest a b

module _ {F : Type 0} (memchr : ℕ → List ℕ → Option ℕ) (parse_f64 : List ℕ → Option F)
    (first : FindsFirst memchr) where
  lone_cr :
      (prefix : ℕ) (text : List ℕ) (b : ℕ) (more : List ℕ)
      → Maps.contains text cr ≡ false
      → (b == lf) ≡ false
      → find_crlf memchr (prefix ∷ text ++ (cr ∷ b ∷ more)) 1 ≡ none
  unfolding find_crlf
  lone_cr prefix text b more no_cr other =
      let long_enough : ltb (length (prefix ∷ text ++ (cr ∷ b ∷ more))) 1 ≡ false = ground arith in
      let next : 1 + length text + 1 ≡ suc (suc (length text)) = omega arith in
      rw (
        find_crlf,
        long_enough,
        first cr (text ++ (cr ∷ b ∷ more)),
        position-append cr text (b ∷ more) no_cr,
        next,
        get_elem?-second text more cr b,
        other,
      )

  -- If `memchr` finds the first occurrence, a simple string whose first CR is not followed by LF
  -- is never answered: whatever and however much stands after it, even a proper CRLF, the parser
  -- asks for two more bytes.
  pub parse-lone_cr :
      (text : List ℕ) (b : ℕ) (more : List ℕ)
      → Maps.contains text cr ≡ false
      → (b == lf) ≡ false
      → parse memchr parse_f64 (b'+' ∷ text ++ (cr ∷ b ∷ more))
        ≡ incomplete (length (b'+' ∷ text ++ (cr ∷ b ∷ more)) + 2)
  unfolding parse parse_frame dispatch parse_line_prefixed
  parse-lone_cr text b more no_cr other = rw (lone_cr b'+' text b more no_cr other)

  -- The text of 2^64 - 2.
  abbrev wrapping_len : List ℕ
  wrapping_len =
      b'1' ∷ b'8' ∷ b'4' ∷ b'4' ∷ b'6' ∷ b'7' ∷ b'4' ∷ b'4' ∷ b'0' ∷ b'7' ∷ b'3' ∷ b'7' ∷ b'0'
      ∷ b'9' ∷ b'5' ∷ b'5' ∷ b'1' ∷ b'6' ∷ b'1' ∷ b'4' ∷ []

  wrapping_number : parse_usize wrapping_len ≡ ok (2 ^ 64 - 2)
  unfolding parse_usize is_utf8 parse_unsigned
  wrapping_number = refl

  -- A blob error that announces 2^64 - 2 bytes makes the offsets wrap onto the header's own CRLF,
  -- and the slice of the body panics, whatever follows the header.
  pub parse-wrapping_length_panics :
      (more : List ℕ) → parse memchr parse_f64 (b'!' ∷ wrapping_len ++ (cr ∷ lf ∷ more)) ≡ panic
  unfolding parse parse_frame dispatch parse_blob_error with_body
  parse-wrapping_length_panics more =
      ap
        (λ o. after_line (length (b'!' ∷ wrapping_len ++ (cr ∷ lf ∷ more))) o (λ line consumed.
          bind_parsed (parse_usize line)
            (blob_of memchr parse_f64 (b'!' ∷ wrapping_len ++ (cr ∷ lf ∷ more)) consumed)))
        (find_crlf-line memchr b'!' wrapping_len more first refl)
      ∙ ap
          (λ r.
            bind_parsed r (blob_of memchr parse_f64 (b'!' ∷ wrapping_len ++ (cr ∷ lf ∷ more)) 23))
          wrapping_number
      ∙ ground arith
