-- ===== src/Proto/Number/Decimal.antt =====
-- Decimal text: what `itoa` documents to write, and that the parsers read it back.
use senko.Prelude.{
  ℕ, zero, suc, ◌+◌, ◌-◌, ◌*◌, ◌/◌, ◌%◌, ◌^◌, ◌<◌, ◌≤◌, ◌≡◌, refl, ap, ◌∙◌, List, [], ◌∷◌, ◌++◌,
  true, false, some, ltb, if◌then◌else◌, length, arith, length-append, Bool-cases, inl, inr,
}
use senko.Prelude.Int.{ℤ, pos, negsuc, pos_part, neg_part}
use senko.Prelude.Equality.{nat_eq}
use senko.Prelude.Maps
use senko.Proto.Number.{
  is_digit, digits_from, digits, parse_signed, parse_unsigned, is_utf8, utf8_from, start,
}

-- The digits of a number of at most `fuel` digits, the highest first.
unfoldable pub decimal_from : ℕ → ℕ → List ℕ
decimal_from zero n = []
decimal_from (suc fuel) n =
    let higher = decimal_from fuel (n / 10) in
    if ltb n 10 then (48 + n) ∷ [] else higher ++ ((48 + n % 10) ∷ [])

unfoldable pub decimal : ℕ → List ℕ
unfolding decimal_from
decimal n = decimal_from (suc n) n

-- With the sign.
unfoldable pub decimal_signed : ℤ → List ℕ
unfolding decimal
decimal_signed (pos n) = decimal n
decimal_signed (negsuc n) = b'-' ∷ decimal (suc n)

abbrev pub AreDigits : List ℕ → Type 0
AreDigits [] = Unit
AreDigits (b ∷ bs) = (is_digit b ≡ true) × AreDigits bs

AreDigits-append : (xs ys : List ℕ) → AreDigits xs → AreDigits ys → AreDigits (xs ++ ys)
AreDigits-append [] ys p q = q
AreDigits-append (x ∷ xs) ys p q = (p.0, AreDigits-append xs ys p.1 q)

decimal_from-AreDigits : (fuel n : ℕ) → AreDigits (decimal_from fuel n)
unfolding decimal_from
decimal_from-AreDigits zero n = tt
decimal_from-AreDigits (suc fuel) n = elim (Bool-cases (ltb n 10)) [
  | inl small ↦ rw (decimal_from, small) (ground arith, tt)
  | inr large ↦
      rw (decimal_from, large)
        (AreDigits-append (decimal_from fuel (n / 10)) _ (decimal_from-AreDigits fuel (n / 10))
          (ground arith, tt))
]

-- One more digit after a text of digits.
digits_from-snoc :
    (xs : List ℕ) (acc v d : ℕ)
    → d < 10
    → digits_from acc xs ≡ some v
    → digits_from acc (xs ++ ((48 + d) ∷ [])) ≡ some (v * 10 + d)
unfolding digits_from
digits_from-snoc [] acc v d small h = ground arith
digits_from-snoc (x ∷ xs) acc v d small h =
    ground (arith, digits_from-snoc xs (acc * 10 + (x - b'0')) v d small)

digits_from-decimal : (fuel n : ℕ) → n < fuel → digits_from 0 (decimal_from fuel n) ≡ some n
unfolding digits_from decimal_from
digits_from-decimal zero n h = absurd (omega arith)
digits_from-decimal (suc fuel) n h = elim (Bool-cases (ltb n 10)) [
  | inl small ↦ rw (decimal_from, small) (ground arith)
  | inr large ↦
      let whole : n / 10 * 10 + n % 10 ≡ n = omega arith in
      rw (decimal_from, large)
        (digits_from-snoc (decimal_from fuel (n / 10)) 0 (n / 10) (n % 10) (omega arith)
            (digits_from-decimal fuel (n / 10) (ground arith))
          ∙ ap some whole)
]

-- A first digit is no sign.
first_digit : (fuel n : ℕ) → n < fuel → (b : ℕ) × (bs : List ℕ) × (decimal_from fuel n ≡ b ∷ bs)
unfolding decimal_from
first_digit zero n h = absurd (omega arith)
first_digit (suc fuel) n h = elim (Bool-cases (ltb n 10)) [
  | inl small ↦ (48 + n, [], rw (decimal_from, small))
  | inr large ↦
      let (b, bs, e) = first_digit fuel (n / 10) (ground arith) in
      (b, bs ++ ((48 + n % 10) ∷ []), rw (decimal_from, large, e))
]

digits-of :
    (xs : List ℕ) (n b : ℕ) (bs : List ℕ)
    → xs ≡ b ∷ bs
    → digits_from 0 xs ≡ some n
    → digits xs ≡ some n
unfolding digits
digits-of xs n b bs e h = rw e (rw e at h)

-- The text of a number has its value.
pub digits-decimal : (n : ℕ) → digits (decimal n) ≡ some n
unfolding decimal
digits-decimal n =
    let (b, bs, e) = first_digit (suc n) n (omega arith) in
    digits-of (decimal_from (suc n) n) n b bs e (digits_from-decimal (suc n) n (omega arith))

pub decimal-AreDigits : (n : ℕ) → AreDigits (decimal n)
unfolding decimal
decimal-AreDigits n = decimal_from-AreDigits (suc n) n

pub decimal-cons : (n : ℕ) → (b : ℕ) × (bs : List ℕ) × (decimal n ≡ b ∷ bs) × (is_digit b ≡ true)
unfolding decimal
decimal-cons n =
    let (b, bs, e) = first_digit (suc n) n (omega arith) in
    let all_digits : AreDigits (b ∷ bs) = rw e at (decimal_from-AreDigits (suc n) n) in
    (b, bs, e, all_digits.0)

-- `str::parse` reads the text of a `usize` back.
pub parse_unsigned-decimal : (n : ℕ) → n < 2 ^ 64 → parse_unsigned (decimal n) ≡ some n
unfolding parse_unsigned
parse_unsigned-decimal n h =
    let (b, bs, e, digit) = decimal-cons n in
    let value : digits (b ∷ bs) ≡ some n = rw e at (digits-decimal n) in
    rw e (ground (arith, digit, value))

-- `str::parse` reads the text of an `i64` back.
pub parse_signed-decimal :
    (v : ℤ) → pos_part v < 2 ^ 63 → neg_part v ≤ 2 ^ 63 → parse_signed (decimal_signed v) ≡ some v
unfolding parse_signed decimal_signed
parse_signed-decimal (pos n) p q =
    let (b, bs, e, digit) = decimal-cons n in
    let value : digits (b ∷ bs) ≡ some n = rw e at (digits-decimal n) in
    rw e (ground (arith, digit, value))
parse_signed-decimal (negsuc n) p q = let value = digits-decimal (suc n) in ground (arith, value)

-- Digits are ASCII, so their text is valid UTF-8, and no carriage return is among them.
utf8_from-digits : (xs : List ℕ) → AreDigits xs → utf8_from start xs ≡ true
unfolding utf8_from
utf8_from-digits [] h = refl
utf8_from-digits (x ∷ xs) h = ground (arith, utf8_from-digits xs h.1, h.0)

pub contains-digits :
    (xs : List ℕ) (c : ℕ) → ltb c 48 ≡ true → AreDigits xs → Maps.contains xs c ≡ false
contains-digits [] c small h = refl
contains-digits (x ∷ xs) c small h = ground (arith, contains-digits xs c small h.1, h.0)

utf8_from-dash :
    (xs ys : List ℕ) → AreDigits xs → AreDigits ys → utf8_from start (xs ++ (b'-' ∷ ys)) ≡ true
unfolding utf8_from
utf8_from-dash [] ys p q = utf8_from-digits ys q
utf8_from-dash (x ∷ xs) ys p q = ground (arith, utf8_from-dash xs ys p.1 q, p.0)

pub is_utf8-two_decimals : (m n : ℕ) → is_utf8 (decimal m ++ (b'-' ∷ decimal n)) ≡ true
unfolding is_utf8 utf8_from
is_utf8-two_decimals m n =
    utf8_from-dash (decimal m) (decimal n) (decimal-AreDigits m) (decimal-AreDigits n)

pub is_utf8-decimal_signed : (v : ℤ) → is_utf8 (decimal_signed v) ≡ true
unfolding is_utf8 decimal_signed utf8_from
is_utf8-decimal_signed (pos n) = utf8_from-digits (decimal n) (decimal-AreDigits n)
is_utf8-decimal_signed (negsuc n) = utf8_from-digits (decimal (suc n)) (decimal-AreDigits (suc n))

pub decimal_signed-no_cr : (v : ℤ) → Maps.contains (decimal_signed v) 13 ≡ false
unfolding decimal_signed
decimal_signed-no_cr (pos n) = contains-digits (decimal n) 13 refl (decimal-AreDigits n)
decimal_signed-no_cr (negsuc n) =
    contains-digits (decimal (suc n)) 13 refl (decimal-AreDigits (suc n))

decimal_from_short : (fuel n : ℕ) → length (decimal_from fuel n) ≤ 1 + n / 10
unfolding decimal_from
decimal_from_short zero n = omega arith
decimal_from_short (suc fuel) n = elim (Bool-cases (ltb n 10)) [
  | inl small ↦ rw (decimal_from, small) (omega arith)
  | inr large ↦
      let higher = decimal_from_short fuel (n / 10) in
      let at_least_ten : 10 ≤ n = ground arith in
      rw (decimal_from, large)
        (omega (arith, higher, length-append (decimal_from fuel (n / 10)) ((48 + n % 10) ∷ [])))
]

pub decimal_short : (n : ℕ) → length (decimal n) ≤ 1 + n / 10
unfolding decimal
decimal_short n = decimal_from_short (suc n) n
