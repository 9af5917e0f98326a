-- ===== src/Pubsub/Glob.antt =====
-- The glob patterns of senko-pubsub/src/pattern.rs, on the rests of the pattern and the text where the
-- source keeps indices.
pub mod Tokens
pub mod Search
pub mod Fast
pub mod Shortcuts
pub mod Prune
pub mod Whole
use senko.Prelude.{
  ℕ, zero, suc, ◌+◌, ◌-◌, ◌*◌, List, [], ◌∷◌, ◌++◌, Bool, true, false, not, ◌&&◌, ◌||◌, Option,
  none, some, leb, ◌==◌, if◌then◌else◌, length, take, drop,
}
use senko.Prelude.Equality.{bytes_beq}

abbrev pub is_star : ℕ → Bool
is_star b = b == b'*'

-- `match_char_class` from `index` on: whether the byte is in the class, and the class's length.
unfoldable pub class_from : Bool → ℕ → Bool → ℕ → List ℕ → Bool × ℕ
class_from negated byte matched index [] = (false, index)
class_from negated byte matched index (b ∷ []) =
    if b == b']' then (if negated then not matched else matched, index + 1) else (false, index + 1)
class_from negated byte matched index (b ∷ c ∷ []) =
    let literal = class_from negated byte (matched || b == byte) (index + 1) (c ∷ []) in
    if b == b']'
    then (if negated then not matched else matched, index + 1)
    else if b == b'\\'
    then (false, index + 2)
    else literal
class_from negated byte matched index (b ∷ c ∷ d ∷ rest) =
    let escaped = class_from negated byte (matched || c == byte) (index + 2) (d ∷ rest) in
    let range = class_from negated byte (matched || (leb b byte && leb byte d)) (index + 3) rest in
    let literal = class_from negated byte (matched || b == byte) (index + 1) (c ∷ d ∷ rest) in
    if b == b']'
    then (if negated then not matched else matched, index + 1)
    else if b == b'\\'
    then escaped
    else if c == b'-' && not (d == b']')
    then range
    else literal

-- The rest of a class after its `[`.
unfoldable pub match_char_class : List ℕ → ℕ → Bool × ℕ
match_char_class [] byte = (false, 1)
match_char_class (b ∷ rest) byte =
    if b == b'^' || b == b'!'
    then class_from true byte false 2 rest
    else class_from false byte false 1 (b ∷ rest)

abbrev pub escaped_token : List ℕ → ℕ → Bool × ℕ
escaped_token [] byte = (b'\\' == byte, 1)
escaped_token (c ∷ rest) byte = (c == byte, 2)

-- Whether the byte matches the token `b`, with the pattern after it, and the token's length.
unfoldable pub match_single_token : ℕ → List ℕ → ℕ → Bool × ℕ
match_single_token b rest byte =
    if b == b'?'
    then (true, 1)
    else if b == b'['
    then match_char_class rest byte
    else if b == b'\\'
    then escaped_token rest byte
    else (b == byte, 1)

-- `star_pattern` and `star_text`.
abbrev pub Back : Type 0
Back = Option (List ℕ × List ℕ)

abbrev pub State : Type 0
State = List ℕ × List ℕ × Back

unfoldable pub skip_stars : List ℕ → List ℕ
skip_stars [] = []
skip_stars (b ∷ p) = if is_star b then skip_stars p else b ∷ p

-- What a turn of the loop comes to.
pub data Turn : Type 0 where
  answered : Bool → Turn
  again : State → Turn

-- A star takes one more byte.
abbrev pub retry : Back → Turn
retry none = answered false
retry (some (bp, [])) = answered false
retry (some (bp, c ∷ bs)) = again (bp, bs, some (bp, bs))

abbrev pub at_star : List ℕ → List ℕ → Turn
at_star [] s = answered true
at_star (b ∷ p) s = again (b ∷ p, s, some (b ∷ p, s))

abbrev pub at_token : ℕ → List ℕ → List ℕ → Back → Turn
at_token b p [] back = retry back
at_token b p (c ∷ s) back =
    let (matched, len) = match_single_token b p c in
    if matched then again (drop len (b ∷ p), s, back) else retry back

unfoldable pub turn : State → Turn
turn ([], [], back) = answered true
turn ([], c ∷ s, back) = retry back
turn (b ∷ p, s, back) = if is_star b then at_star (skip_stars p) s else at_token b p s back

-- The `loop`, on fuel.
abbrev pub after_turn : (State → Option Bool) → Turn → Option Bool
after_turn go (answered b) = some b
after_turn go (again state) = go state

unfoldable pub match_from : ℕ → State → Option Bool
match_from zero state = none
match_from (suc fuel) state = after_turn (match_from fuel) (turn state)

unfoldable pub glob_match_scalar : List ℕ → List ℕ → Option Bool
glob_match_scalar p s = match_from ((length s + 1) * (length p + 1)) (p, s, none)
