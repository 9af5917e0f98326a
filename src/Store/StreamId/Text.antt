-- ===== src/Store/StreamId/Text.antt =====
-- The text of a stream id is read back (senko-store/src/stream/id.rs).
use senko.Prelude.{
  ℕ, suc, ◌^◌, ◌<◌, ◌≡◌, refl, ap, ◌∙◌, List, [], ◌∷◌, ◌++◌, true, false, some, ◌==◌, if◌then◌else◌,
  length, all, take, drop, position, take-length, u64_max, arith,
}
use mathlib.Core.Path.{subst}
use mathlib.Core.List.{append-nil}
use senko.Prelude.Equality.{nat_eq, bytes_beq}
use senko.Prelude.Search.{position-append}
use senko.Proto.Number.{is_digit, is_utf8}
use senko.Proto.Number.Decimal.{
  decimal, AreDigits, decimal-AreDigits, decimal-cons, parse_unsigned-decimal, contains-digits,
  is_utf8-two_decimals,
}
use senko.Store.StreamId.{
  StreamId, parse, parse_u64, parse_with_default_seq, parse_range_start, parse_range_end, to_string,
  after_ms, with_seq, split_at, partial_auto_seq,
}

all-digits : (xs : List ℕ) → AreDigits xs → all is_digit xs ≡ true
all-digits [] h = refl
all-digits (x ∷ xs) h = ground (arith, all-digits xs h.1, h.0)

parse_u64-decimal : (n : ℕ) → n < 2 ^ 64 → parse_u64 (decimal n) ≡ some n
unfolding parse_u64
parse_u64-decimal n small =
    let (b, bs, e, digit) = decimal-cons n in
    let digits = all-digits (decimal n) (decimal-AreDigits n) in
    let full : (length (decimal n) == 0) ≡ false = rw e (ground arith) in
    rw (full, digits, parse_unsigned-decimal n small) refl

-- A number is no single sign.
decimal-no_sign :
    (n b : ℕ) (rest : List ℕ) → is_digit b ≡ false → bytes_beq (decimal n ++ rest) (b ∷ []) ≡ false
decimal-no_sign n b rest sign =
    let (d, ds, e, digit) = decimal-cons n in rw e (ground (arith, sign, digit))

drop_past : (xs : List ℕ) (b : ℕ) (ys : List ℕ) → drop (suc (length xs)) (xs ++ (b ∷ ys)) ≡ ys
drop_past [] b ys = refl
drop_past (x ∷ xs) b ys = drop_past xs b ys

parse_with_default_seq-to_string :
    (id : StreamId) (default_seq : ℕ)
    → id.ms < 2 ^ 64
    → id.seq < 2 ^ 64
    → parse_with_default_seq (to_string id) default_seq ≡ some id
unfolding parse_with_default_seq to_string is_utf8
parse_with_default_seq-to_string id default_seq p q =
    let seq = decimal id.seq in
    let text = decimal id.ms ++ (b'-' ∷ seq) in
    let star : bytes_beq text (b'*' ∷ []) ≡ false = decimal-no_sign id.ms b'*' (b'-' ∷ seq) refl in
    let utf8 : is_utf8 text ≡ true = is_utf8-two_decimals id.ms id.seq in
    let (d, ds, e, digit) = decimal-cons id.ms in
    let full : (length text == 0) ≡ false = rw e (ground arith) in
    let dash : position b'-' text ≡ some (length (decimal id.ms)) =
      position-append b'-' (decimal id.ms) seq
        (contains-digits (decimal id.ms) b'-' refl (decimal-AreDigits id.ms)) in
    let star_seq : bytes_beq seq (b'*' ∷ []) ≡ false =
      subst (λ xs. bytes_beq xs (b'*' ∷ []) ≡ false) (append-nil seq)
        (decimal-no_sign id.seq b'*' [] refl) in
    let front : take (length (decimal id.ms)) text ≡ decimal id.ms =
      take-length (decimal id.ms) (b'-' ∷ seq) in
    let back : drop (suc (length (decimal id.ms))) text ≡ seq =
      drop_past (decimal id.ms) b'-' seq in
    let halves : split_at (some (length (decimal id.ms))) text default_seq ≡ some id =
      ap (λ xs. after_ms (parse_u64 xs) (drop (suc (length (decimal id.ms))) text)) front
      ∙ ap (after_ms (parse_u64 (decimal id.ms))) back
      ∙ ap (λ o. after_ms o seq) (parse_u64-decimal id.ms p)
      ∙ ap
          (λ t.
            if t
            then some (record { ms = id.ms; seq = partial_auto_seq })
            else with_seq (parse_u64 seq) id.ms)
          star_seq
      ∙ ap (λ o. with_seq o id.ms) (parse_u64-decimal id.seq q) in
    rw (star, utf8, full) (ap (λ i. split_at i text default_seq) dash ∙ halves)

-- The text of an id with a time and a number of 64 bits is parsed back, as an id and as either end of
-- a range.
pub parse-to_string :
    (id : StreamId)
    → id.ms < 2 ^ 64
    → id.seq < 2 ^ 64
    → (parse (to_string id) ≡ some id)
      × (parse_range_start (to_string id) ≡ some id)
      × (parse_range_end (to_string id) ≡ some id)
unfolding parse parse_range_start parse_range_end to_string
parse-to_string id p q =
    let seq = decimal id.seq in
    let minus : bytes_beq (to_string id) (b'-' ∷ []) ≡ false =
      decimal-no_sign id.ms b'-' (b'-' ∷ seq) refl in
    let plus : bytes_beq (to_string id) (b'+' ∷ []) ≡ false =
      decimal-no_sign id.ms b'+' (b'-' ∷ seq) refl in
    (
      parse_with_default_seq-to_string id 0 p q,
      rw minus (parse_with_default_seq-to_string id 0 p q),
      rw plus (parse_with_default_seq-to_string id u64_max p q),
    )
