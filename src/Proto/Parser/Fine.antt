-- ===== src/Proto/Parser/Fine.antt =====
-- What a complete frame and a complete line have used of the input, and how that passes through the
-- parts of a parser (senko-proto/src/parser.rs).
use senko.Prelude.{
  ℕ, zero, suc, ◌+◌, ◌-◌, ◌<◌, ◌≤◌, ◌≡◌, refl, List, Bool, true, false, Option, none, some,
  if◌then◌else◌, length, get_elem?, drop, arith, lt_of_get_elem?,
}
use senko.Prelude.Equality.{bytes_beq}
use senko.Proto.Reading.{
  Outcome, complete, exhausted, Parsed, ok, bad, slice, crlf, find_crlf, line_end, line_from,
  after_line, bind_parsed, or_panic, cr,
}

-- A complete frame uses at least one byte and none past the end; the fuel has not run out.
abbrev pub Fine : {F : Type 0} → List ℕ → Outcome F → Type 0
Fine input (complete f n) = (0 < n) × (n ≤ length input)
Fine input exhausted = ⊥
Fine input _ = Unit

pub Fine-if :
    {F : Type 0} (input : List ℕ) (b : Bool) (x y : Outcome F)
    → (b ≡ true → Fine input x)
    → (b ≡ false → Fine input y)
    → Fine input (if b then x else y)
Fine-if input true x y p q = p refl
Fine-if input false x y p q = q refl

pub Fine-bind_parsed :
    {F A : Type 0} (input : List ℕ) (r : Parsed A) (k : A → Outcome F)
    → ((v : A) → Fine input (k v))
    → Fine input (bind_parsed r k)
Fine-bind_parsed input (ok v) k h = h v
Fine-bind_parsed input (bad e) k h = tt

pub Fine-or_panic :
    {F : Type 0} (input : List ℕ) (o : Option (List ℕ)) (k : List ℕ → Outcome F)
    → ((part : List ℕ) → o ≡ some part → Fine input (k part))
    → Fine input (or_panic o k)
Fine-or_panic input none k h = tt
Fine-or_panic input (some part) k h = h part refl

-- A slice that holds the terminator does not end at 0.
pub slice_end_pos :
    (input : List ℕ) (from to : ℕ) (tail : List ℕ)
    → slice input from to ≡ some tail
    → bytes_beq tail crlf ≡ true
    → 0 < to
slice_end_pos input from zero tail h is_crlf =
    let no_bytes : 0 - from ≡ 0 = omega arith in ground (arith, no_bytes)
slice_end_pos input from (suc to) tail h is_crlf = omega arith

line_end_bounds :
    (input : List ℕ) (start_at place : ℕ) (o : Option ℕ) (line : List ℕ) (consumed : ℕ)
    → start_at ≤ place
    → get_elem? input (place + 1) ≡ o
    → line_end input start_at place o ≡ some (line, consumed)
    → (start_at < consumed) × (consumed ≤ length input)
line_end_bounds input start_at place none line consumed later e h = ground arith
line_end_bounds input start_at place (some b) line consumed later e h =
    let inside = lt_of_get_elem? input (place + 1) b e in
    let two : consumed ≡ place + 2 = ground arith in (omega arith, omega arith)

line_from_bounds :
    (input : List ℕ) (start_at : ℕ) (o : Option ℕ) (line : List ℕ) (consumed : ℕ)
    → line_from input start_at o ≡ some (line, consumed)
    → (start_at < consumed) × (consumed ≤ length input)
line_from_bounds input start_at none line consumed h = ground arith
line_from_bounds input start_at (some rel) line consumed h =
    line_end_bounds input start_at (start_at + rel) (get_elem? input (start_at + rel + 1)) line
      consumed (omega arith) refl h

pub find_crlf_bounds :
    (memchr : ℕ → List ℕ → Option ℕ) (input : List ℕ) (start_at : ℕ) (line : List ℕ) (consumed : ℕ)
    → find_crlf memchr input start_at ≡ some (line, consumed)
    → (start_at < consumed) × (consumed ≤ length input)
unfolding find_crlf
find_crlf_bounds memchr input start_at line consumed h =
    line_from_bounds input start_at (memchr cr (drop start_at input)) line consumed (ground arith)

pub Fine-after_line :
    {F : Type 0} (input : List ℕ) (o : Option (List ℕ × ℕ)) (k : List ℕ → ℕ → Outcome F)
    → ((line : List ℕ) (consumed : ℕ) → o ≡ some (line, consumed) → Fine input (k line consumed))
    → Fine input (after_line (length input) o k)
Fine-after_line input none k h = tt
Fine-after_line input (some (line, consumed)) k h = h line consumed refl
