-- ===== src/Proto/Iter.antt =====
-- `FrameIter` of senko-proto/src/frame.rs: the frames of an aggregate, parsed one at a time.
pub mod Frames
use senko.Prelude.{
  ℕ, zero, suc, ◌+◌, ◌-◌, List, [], ◌∷◌, Bool, ◌||◌, Option, none, some, ◌==◌, if◌then◌else◌,
  length, drop, take,
}
use senko.Proto.Frame.{
  SenkoError, protocol, Aggregate, AggregateEncoding, resp, inline, Frame, bulk_string,
}
use senko.Proto.Reading.{Outcome, complete, incomplete, err, panic, exhausted}
use senko.Proto.Parser.{parse}

pub record FrameIter : Type 0 where
  pub aggregate : Aggregate
  pub consumed : ℕ
  pub emitted : ℕ

abbrev pub iter : Aggregate → FrameIter
iter a = record { aggregate = a; consumed = 0; emitted = 0 }

-- What `next` returns, with the iterator after it; `stuck` is a panic of the parser, or its fuel.
pub data Next (F : Type 0) : Type 0 where
  finished : Next F
  item : Frame F → FrameIter → Next F
  failed : SenkoError → Next F
  stuck : Next F

abbrev is_blank : ℕ → Bool
is_blank b = b == b' ' || b == b'\t'

-- The bytes before the first blank, and the blanks from a place on.
unfoldable pub token_len : List ℕ → ℕ
token_len [] = 0
token_len (b ∷ bytes) = if is_blank b then 0 else suc (token_len bytes)

unfoldable pub blanks_len : List ℕ → ℕ
blanks_len [] = 0
blanks_len (b ∷ bytes) = if is_blank b then suc (blanks_len bytes) else 0

abbrev pub next_inline : {F : Type 0} → FrameIter → List ℕ → ℕ → Next F
next_inline it remaining next = item (bulk_string (take next remaining)) (record it {
  consumed = it.consumed + next + blanks_len (drop next remaining);
  emitted = it.emitted + 1;
})

abbrev pub next_parsed : {F : Type 0} → FrameIter → Outcome F → Next F
next_parsed it (complete frame used) =
    item frame (record it { consumed = it.consumed + used; emitted = it.emitted + 1 })
next_parsed it (incomplete needed) = failed (protocol "aggregate data ended mid-frame")
next_parsed it (err error) = failed error
next_parsed it panic = stuck
next_parsed it exhausted = stuck

-- How many frames are left, as `size_hint` says.
unfoldable pub size_hint : FrameIter → ℕ
size_hint it = it.aggregate.len - it.emitted

abbrev pub prepend_frame :
    {F : Type 0} → Frame F → Option (List (Frame F)) → Option (List (Frame F))
prepend_frame frame none = none
prepend_frame frame (some frames) = some (frame ∷ frames)

module _ {F : Type 0} (memchr : ℕ → List ℕ → Option ℕ) (parse_f64 : List ℕ → Option F) where
  abbrev pub next_in : AggregateEncoding → FrameIter → List ℕ → Next F
  next_in resp it remaining = next_parsed it (parse memchr parse_f64 remaining)
  next_in inline it remaining = next_inline it remaining (token_len remaining)

  unfoldable pub next : FrameIter → Next F
  next it =
      if it.emitted == it.aggregate.len
      then finished
      else next_in it.aggregate.encoding it (drop it.consumed it.aggregate.bytes)

  -- The frames until the iterator is finished, after at most `turns` of them.
  abbrev pub cons_item : (FrameIter → Option (List (Frame F))) → Next F → Option (List (Frame F))
  cons_item go finished = some []
  cons_item go (item frame it) = prepend_frame frame (go it)
  cons_item go (failed error) = none
  cons_item go stuck = none

  unfoldable pub collect : ℕ → FrameIter → Option (List (Frame F))
  collect zero it = cons_item (λ it'. none) (next it)
  collect (suc turns) it = cons_item (collect turns) (next it)
