-- ===== src/Store/StreamId/Order.antt =====
-- The order of stream ids (senko-store/src/stream/id.rs): generated ids grow, and the keys of the
-- radix tree keep the order.
use senko.Prelude.{
  ℕ, zero, suc, ◌*◌, ◌/◌, ◌%◌, ◌^◌, ◌<◌, ◌≤◌, ◌≡◌, ap, ◌∙◌, sym, List, [], ◌∷◌, ◌++◌, Bool, ◌&&◌,
  ◌||◌, ltb, leb, ◌==◌, arith, u64_max,
}
use mathlib.Core.List.{append-nil}
use senko.Prelude.Sort.{lex_leb}
use native.Mathlib.Nat.{div-add-mod', mod-lt, pow-suc, mul-le-mul_right}
use senko.Store.StreamId.{StreamId, auto_generate, be_bytes, as_be_bytes, lt, le}

-- A generated id comes after the last one, except that the last sequence number of a millisecond
-- that the clock has not left has no successor: then the last id comes again.
pub auto_generate-lt :
    (last : StreamId) (now_ms : ℕ)
    → last.seq ≤ u64_max
    → lt last (auto_generate last now_ms) ≡ (ltb last.ms now_ms || ltb last.seq u64_max)
unfolding lt auto_generate
auto_generate-lt last now_ms bound = ground arith

-- A bigger quotient makes a bigger number.
quotient_lt : (p x y : ℕ) → 0 < p → x / p < y / p → x < y
quotient_lt p x y positive less =
    let step : suc (x / p) * p ≤ y / p * p = mul-le-mul_right p (omega (arith, less)) in
    grind (arith, step, mod-lt x positive, div-add-mod' x p, div-add-mod' y p)

-- One more byte in front: numbers compare as their bytes do, and what follows decides a tie.
lex_step :
    (p x y : ℕ) (xs ys : List ℕ) (tie : Bool)
    → 0 < p
    → lex_leb xs ys ≡ (ltb (x % p) (y % p) || (x % p == y % p && tie))
    → lex_leb (x / p ∷ xs) (y / p ∷ ys) ≡ (ltb x y || (x == y && tie))
lex_step p x y xs ys tie positive rest =
    let below = quotient_lt p x y positive in
    let above = quotient_lt p y x positive in
    let same = λ (e : x / p ≡ y / p). ap (λ q. q * p) e in
    let equal = λ (e : x ≡ y). ap (λ q. q / p) e in
    let rests = λ (e : x ≡ y). ap (λ q. q % p) e in
    ground (arith, rest, below, above, same, equal, rests, div-add-mod' x p, div-add-mod' y p)

pow-pos : (count : ℕ) → 0 < 256 ^ count
pow-pos zero = omega arith
pow-pos (suc count) = omega (arith, pow-suc 256 count, pow-pos count)

lex-be_bytes :
    (count x y : ℕ) (xs ys : List ℕ)
    → x < 256 ^ count
    → y < 256 ^ count
    → lex_leb (be_bytes count x ++ xs) (be_bytes count y ++ ys)
      ≡ (ltb x y || (x == y && lex_leb xs ys))
unfolding be_bytes
lex-be_bytes zero x y xs ys p q = ground arith
lex-be_bytes (suc count) x y xs ys p q =
    let positive = pow-pos count in
    lex_step (256 ^ count) x y (be_bytes count (x % 256 ^ count) ++ xs)
      (be_bytes count (y % 256 ^ count) ++ ys) (lex_leb xs ys) positive
      (lex-be_bytes count (x % 256 ^ count) (y % 256 ^ count) xs ys (mod-lt x positive)
        (mod-lt y positive))

fits : (x : ℕ) → x ≤ u64_max → x < 256 ^ 8
fits x bound = omega (arith, bound)

cong_both : {a b c d : List ℕ} → a ≡ b → c ≡ d → lex_leb a c ≡ lex_leb b d
cong_both e f = cc

lex-be_bytes_last :
    (x y : ℕ) → x ≤ u64_max → y ≤ u64_max → lex_leb (be_bytes 8 x) (be_bytes 8 y) ≡ leb x y
lex-be_bytes_last x y p q =
    let whole = lex-be_bytes 8 x y [] [] (fits x p) (fits y q) in
    let sides = cong_both (append-nil (be_bytes 8 x)) (append-nil (be_bytes 8 y)) in
    sym sides ∙ whole ∙ ground arith

-- The sixteen-byte keys of the radix tree, compared byte by byte, keep the order of the ids whose
-- two numbers fit 64 bits.
pub lex-as_be_bytes :
    (a b : StreamId)
    → a.ms ≤ u64_max
    → a.seq ≤ u64_max
    → b.ms ≤ u64_max
    → b.seq ≤ u64_max
    → lex_leb (as_be_bytes a) (as_be_bytes b) ≡ le a b
unfolding as_be_bytes le lt
lex-as_be_bytes a b p q r s =
    let high =
      lex-be_bytes 8 a.ms b.ms (be_bytes 8 a.seq) (be_bytes 8 b.seq) (fits a.ms p) (fits b.ms r) in
    let low = lex-be_bytes_last a.seq b.seq q s in high ∙ ground (arith, low)
