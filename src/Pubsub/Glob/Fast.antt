-- ===== src/Pubsub/Glob/Fast.antt =====
-- The shortcuts that senko-pubsub/src/pattern.rs takes before the search of a glob pattern.
-- `memmem::find` is a parameter.
use senko.Prelude.{
  ℕ, zero, suc, ◌+◌, ◌-◌, List, [], ◌∷◌, ◌++◌, Bool, true, false, not, ◌&&◌, ◌||◌, Option, none,
  some, ◌==◌, if◌then◌else◌, length, take, drop,
}
use senko.Prelude.Equality.{bytes_beq, nat_eq}
use senko.Prelude.Maps
use senko.Pubsub.Glob.{glob_match_scalar}

-- The fold of `scan_pattern`.
pub record Scan : Type 0 where
  pub has_wildcards : Bool
  pub wildcard_count : ℕ
  pub star_at_end : Bool
  pub prefix_len : ℕ

abbrev pub is_none_left : List ℕ → Bool
is_none_left [] = true
is_none_left (b ∷ rest) = false

-- `char_class_token_len`, with `len` bytes of the class before.
unfoldable pub class_len : ℕ → List ℕ → ℕ
class_len len [] = len
class_len len (b ∷ []) = len + 1
class_len len (b ∷ c ∷ rest) =
    let escaped = class_len (len + 2) rest in
    let next = class_len (len + 1) (c ∷ rest) in
    if b == b'\\' then escaped else if b == b']' then len + 1 else next

abbrev pub escape_len : List ℕ → ℕ
escape_len [] = 1
escape_len (c ∷ rest) = 2

-- What one byte makes of the scan, and the bytes to go on by.
abbrev pub scan_byte : ℕ → List ℕ → ℕ → Scan → Scan × ℕ
scan_byte b rest index f =
    if b == b'\\'
    then (f, escape_len rest)
    else if b == b'*'
    then (
      record {
        has_wildcards = true;
        wildcard_count = f.wildcard_count + 1;
        star_at_end = is_none_left rest;
        prefix_len = index;
      },
      1,
    )
    else if b == b'?' || b == b'['
    then (
      record f { has_wildcards = true; wildcard_count = f.wildcard_count + 1 },
      if b == b'[' then class_len 1 rest else 1,
    )
    else (f, 1)

-- `skip` bytes belong to the token before.
unfoldable pub scan_from : ℕ → ℕ → Scan → List ℕ → Scan
scan_from skip index f [] = f
scan_from (suc skip) index f (b ∷ rest) = scan_from skip (index + 1) f rest
scan_from zero index f (b ∷ rest) =
    let (f', len) = scan_byte b rest index f in scan_from (len - 1) (index + 1) f' rest

unfoldable pub scan_pattern : List ℕ → Scan
scan_pattern p =
    scan_from 0 0
      (record {
        has_wildcards = false;
        wildcard_count = 0;
        star_at_end = false;
        prefix_len = length p;
      })
      p

abbrev pub trailing_star_prefix_len : Scan → Option ℕ
trailing_star_prefix_len f =
    if f.wildcard_count == 1 && f.star_at_end then some f.prefix_len else none

-- `unescape_segment`, and the loop of `pattern_eq_literal`.
unfoldable pub unescape : List ℕ → List ℕ
unescape [] = []
unescape (b ∷ []) = b ∷ []
unescape (b ∷ c ∷ rest) =
    let escaped = unescape rest in
    let next = unescape (c ∷ rest) in if b == b'\\' then c ∷ escaped else b ∷ next

unfoldable pub pattern_eq_literal : List ℕ → List ℕ → Bool
pattern_eq_literal p text =
    if Maps.contains p b'\\' then bytes_beq (unescape p) text else bytes_beq p text

abbrev pub push_segment : List ℕ → List (List ℕ) → List (List ℕ)
push_segment [] segments = segments
push_segment (b ∷ segment) segments = (b ∷ segment) ∷ segments

abbrev pub escaped_bytes : ℕ → List ℕ → List ℕ
escaped_bytes b [] = b ∷ []
escaped_bytes b (c ∷ rest) = b ∷ c ∷ []

-- The segments from here on; `segment` is the one that has begun, and `skip` bytes are behind.
unfoldable pub segments_from : ℕ → List ℕ → List ℕ → List (List ℕ)
segments_from skip segment [] = push_segment segment []
segments_from (suc skip) segment (b ∷ rest) = segments_from skip segment rest
segments_from zero segment (b ∷ rest) =
    let escaped = segments_from (escape_len rest - 1) (segment ++ escaped_bytes b rest) rest in
    let wild = segments_from ((if b == b'[' then class_len 1 rest else 1) - 1) [] rest in
    let literal = segments_from 0 (segment ++ (b ∷ [])) rest in
    if b == b'\\'
    then escaped
    else if b == b'*' || (b == b'?' || b == b'[')
    then push_segment segment wild
    else literal

abbrev pub starts_with : List ℕ → List ℕ → Bool
starts_with text prefix = bytes_beq (take (length prefix) text) prefix

module _ (find : List ℕ → List ℕ → Option ℕ) where
  unfoldable pub segments_match_in_order : List (List ℕ) → List ℕ → Bool
  segments_match_in_order [] text = true
  segments_match_in_order (segment ∷ segments) text = elim (find text (unescape segment)) [
    | none ↦ false
    | some place ↦ segments_match_in_order segments (drop (place + length (unescape segment)) text)
  ]

  abbrev pub unless_pruned : List (List ℕ) → List ℕ → List ℕ → Option Bool
  unless_pruned [] p text = glob_match_scalar p text
  unless_pruned (segment ∷ segments) p text =
      if segments_match_in_order (segment ∷ segments) text
      then glob_match_scalar p text
      else some false

  abbrev pub by_prefix : Option ℕ → List ℕ → List ℕ → Option Bool
  by_prefix (some prefix_len) p text = some (starts_with text (take prefix_len p))
  by_prefix none p text = unless_pruned (segments_from 0 [] p) p text

  unfoldable pub glob_match_simd : List ℕ → List ℕ → Option Bool
  glob_match_simd p text =
      let features = scan_pattern p in
      if bytes_beq p (b'*' ∷ [])
      then some true
      else if not features.has_wildcards
      then some (pattern_eq_literal p text)
      else by_prefix (trailing_star_prefix_len features) p text
