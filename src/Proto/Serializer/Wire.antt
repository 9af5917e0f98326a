-- ===== src/Proto/Serializer/Wire.antt =====
-- Reading back what stands on the wire: a line up to its CRLF, and a body of known length
-- (senko-proto/src/parser.rs on the output of senko-proto/src/serializer.rs).
use senko.Prelude.{
  ℕ, suc, ◌+◌, ◌-◌, ◌^◌, ◌<◌, ◌≡◌, refl, List, [], ◌∷◌, ◌++◌, true, false, Option, some, ltb, leb,
  length, length-append, get_elem?, take-length, drop-length, arith,
}
use senko.Prelude.Search.{FindsFirst, position-append}
use senko.Prelude.Equality.{nat_eq}
use senko.Prelude.Maps
use mathlib.Core.List.{append_assoc}
use senko.Proto.Reading.{Outcome, cr, lf, crlf, slice, add64, find_crlf}
use senko.Proto.Scalars.{with_body}

get_elem?-past :
    (value rest : List ℕ) (b : ℕ) → get_elem? (value ++ (b ∷ rest)) (length value) ≡ some b
get_elem?-past [] rest b = refl
get_elem?-past (x ∷ value) rest b = get_elem?-past value rest b

get_elem?-two_past :
    (value rest : List ℕ) (a b : ℕ)
    → get_elem? (value ++ (a ∷ b ∷ rest)) (suc (length value)) ≡ some b
get_elem?-two_past [] rest a b = refl
get_elem?-two_past (x ∷ value) rest a b = get_elem?-two_past value rest a b

-- The line after a prefix byte, if it holds no CR, and the bytes that it takes.
pub find_crlf-line :
    (memchr : ℕ → List ℕ → Option ℕ) (prefix : ℕ) (value rest : List ℕ)
    → FindsFirst memchr
    → Maps.contains value cr ≡ false
    → find_crlf memchr (prefix ∷ value ++ (cr ∷ lf ∷ rest)) 1 ≡ some (value, length value + 3)
unfolding find_crlf
find_crlf-line memchr prefix value rest first no_cr =
    let input = prefix ∷ value ++ (cr ∷ lf ∷ rest) in
    let long_enough : ltb (length input) 1 ≡ false = ground arith in
    let next : 1 + length value + 1 ≡ suc (suc (length value)) = omega arith in
    let whole : 1 + length value - 1 ≡ length value = omega arith in
    let used : 1 + length value + 2 ≡ length value + 3 = omega arith in
    rw (
      find_crlf,
      long_enough,
      first cr (value ++ (cr ∷ lf ∷ rest)),
      position-append cr value (lf ∷ rest) no_cr,
      next,
      get_elem?-two_past value rest cr lf,
      whole,
      take-length value (cr ∷ lf ∷ rest),
      used,
    )

pub slice-middle :
    (xs ys zs : List ℕ) (from to : ℕ)
    → from ≡ length xs
    → to ≡ length xs + length ys
    → slice (xs ++ (ys ++ zs)) from to ≡ some ys
slice-middle xs ys zs from to p q =
    let ordered : leb from to ≡ true = ground arith in
    let inside : leb to (length (xs ++ (ys ++ zs))) ≡ true =
      ground (arith, length-append xs (ys ++ zs), length-append ys zs) in
    let span : to - from ≡ length ys = omega arith in
    rw (ordered, inside, span, p, drop-length xs (ys ++ zs), take-length ys zs)

-- A body of the announced length, and its CRLF.
pub with_body-read :
    {F : Type 0} (memchr : ℕ → List ℕ → Option ℕ) (parse_f64 : List ℕ → Option F)
    (head body rest : List ℕ) (header_consumed : ℕ) (missing : Outcome F) (k : List ℕ → Outcome F)
    → header_consumed ≡ length head
    → header_consumed + length body + 2 < 2 ^ 64
    → with_body memchr parse_f64
        (head ++ (body ++ (cr ∷ lf ∷ rest)))
        header_consumed
        (length body)
        (header_consumed + length body + 2)
        missing
        k
      ≡ k body
unfolding with_body
with_body-read memchr parse_f64 head body rest header_consumed missing k at_head fits =
    let body_end : add64 header_consumed (length body) ≡ header_consumed + length body =
      omega arith in
    let tail : slice ((head ++ body) ++ (crlf ++ rest)) (header_consumed + length body)
          (header_consumed + length body + 2)
        ≡ some crlf =
      slice-middle (head ++ body) crlf rest (header_consumed + length body)
        (header_consumed + length body + 2) (omega (arith, length-append head body))
        (omega (arith, length-append head body)) in
    let same : (head ++ body) ++ (crlf ++ rest) ≡ head ++ (body ++ (cr ∷ lf ∷ rest)) =
      append_assoc head body (crlf ++ rest) in
    let found : slice (head ++ (body ++ (cr ∷ lf ∷ rest))) (header_consumed + length body)
          (header_consumed + length body + 2)
        ≡ some crlf =
      rw same at tail in
    let middle =
      slice-middle head body (cr ∷ lf ∷ rest) header_consumed (header_consumed + length body)
        at_head (omega arith) in
    rw (with_body, body_end, found, middle)
