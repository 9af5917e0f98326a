-- ===== src/Store/StreamId.antt =====
-- senko-store/src/stream/id.rs: the ids of stream entries. The one error, `Protocol("invalid stream
-- id")`, is `none`.
pub mod Order
pub mod Text
use senko.Prelude.{
  ℕ, zero, suc, ◌+◌, ◌-◌, ◌/◌, ◌%◌, ◌^◌, List, [], ◌∷◌, ◌++◌, Bool, true, false, ◌&&◌, ◌||◌, not,
  Option, none, some, ltb, ◌==◌, if◌then◌else◌, length, all, take, drop, position, max,
  saturating_add, u64_max,
}
use senko.Prelude.Equality.{bytes_beq}
use senko.Proto.Number.{is_digit, is_utf8, parse_unsigned}
use senko.Proto.Number.Decimal.{decimal}

pub record StreamId : Type 0 where
  pub ms : ℕ
  pub seq : ℕ

abbrev pub zero_id : StreamId
zero_id = record { ms = 0; seq = 0 }

abbrev pub max_id : StreamId
max_id = record { ms = u64_max; seq = u64_max }

-- The sentinel for `*`.
abbrev pub auto_id : StreamId
auto_id = record { ms = u64_max; seq = u64_max }

abbrev pub partial_auto_seq : ℕ
partial_auto_seq = u64_max

unfoldable pub auto_generate : StreamId → ℕ → StreamId
auto_generate last_id now_ms =
    if ltb last_id.ms now_ms
    then record { ms = now_ms; seq = 0 }
    else record { ms = max last_id.ms now_ms; seq = saturating_add last_id.seq 1 }

-- `parse_u64`: digits alone, where `str::parse` would take a sign too.
unfoldable pub parse_u64 : List ℕ → Option ℕ
parse_u64 s = if length s == 0 || not (all is_digit s) then none else parse_unsigned s

-- `ms-seq`, `ms-*`, once the text is split at the first dash.
abbrev pub with_seq : Option ℕ → ℕ → Option StreamId
with_seq none ms = none
with_seq (some seq) ms = some (record { ms = ms; seq = seq })

abbrev pub after_ms : Option ℕ → List ℕ → Option StreamId
after_ms none seq_text = none
after_ms (some ms) seq_text =
    if bytes_beq seq_text (b'*' ∷ [])
    then some (record { ms = ms; seq = partial_auto_seq })
    else with_seq (parse_u64 seq_text) ms

-- `text.split_once('-')`, by the place of the dash.
abbrev pub split_at : Option ℕ → List ℕ → ℕ → Option StreamId
split_at (some i) text default_seq = after_ms (parse_u64 (take i text)) (drop (suc i) text)
split_at none text default_seq = elim (parse_u64 text) [
  | none ↦ none
  | some ms ↦ some (record { ms = ms; seq = default_seq })
]

unfoldable pub parse_with_default_seq : List ℕ → ℕ → Option StreamId
parse_with_default_seq s default_seq =
    if bytes_beq s (b'*' ∷ [])
    then some auto_id
    else if not (is_utf8 s) || length s == 0
    then none
    else split_at (position b'-' s) s default_seq

unfoldable pub parse : List ℕ → Option StreamId
parse s = parse_with_default_seq s 0

unfoldable pub parse_range_start : List ℕ → Option StreamId
parse_range_start s = if bytes_beq s (b'-' ∷ []) then some zero_id else parse_with_default_seq s 0

unfoldable pub parse_range_end : List ℕ → Option StreamId
parse_range_end s =
    if bytes_beq s (b'+' ∷ []) then some max_id else parse_with_default_seq s u64_max

-- `format!("{}-{}", self.ms, self.seq)`.
unfoldable pub to_string : StreamId → List ℕ
to_string id = decimal id.ms ++ (b'-' ∷ decimal id.seq)

-- `u64::to_be_bytes`, and the same for `count` bytes.
unfoldable pub be_bytes : ℕ → ℕ → List ℕ
be_bytes zero x = []
be_bytes (suc count) x = x / 256 ^ count ∷ be_bytes count (x % 256 ^ count)

unfoldable pub as_be_bytes : StreamId → List ℕ
as_be_bytes id = be_bytes 8 id.ms ++ be_bytes 8 id.seq

-- `Ord`, as tests for `<` and `≤`.
unfoldable pub lt : StreamId → StreamId → Bool
lt a b = ltb a.ms b.ms || (a.ms == b.ms && ltb a.seq b.seq)

unfoldable pub le : StreamId → StreamId → Bool
le a b = not (lt b a)
