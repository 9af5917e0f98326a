-- ===== src/Tests/Store.antt =====
-- The timer wheel and stream ids.
use senko.Prelude.{◌≡◌, ◌-◌, refl, [], ◌∷◌, true, some, replicate, arith, length-replicate}
use senko.Prelude.Equality.{bytes_eq}
use senko.Prelude.Maps
use senko.Prelude.Sort.{lex_leb}
use senko.Store.Expiry.{TimerWheel, schedule_key, advance, wheel_slots, slot_at}
use senko.Store.Expiry.Due.{IsWheel, schedule_key-advance}
use senko.Store.FieldExpiry.{FieldExpiryWheel, tombstone_key, advance_fields}
use senko.Store.FieldExpiry.Tombstone.{none_of, none_of-tombstone_key}
use senko.Store.StreamId.{
  StreamId, as_be_bytes, le, parse, parse_range_start, parse_range_end, to_string,
}
use senko.Store.StreamId.Text.{parse-to_string}
use senko.Store.StreamId.Order.{lex-as_be_bytes}
use senko.Tests.Data.{codes}

abbrev wheel : TimerWheel
wheel = record {
  slots = replicate wheel_slots [];
  overflow = [];
  last_tick_ms = 1000;
  rotations = 0;
}

wheel-IsWheel : IsWheel wheel
wheel-IsWheel = record { aligned = refl; full = length-replicate wheel_slots [] }

schedule_key-advance_example :
    Maps.contains (advance (schedule_key wheel (codes "foo") 1250) 1300).1 (codes "foo") ≡ true
schedule_key-advance_example =
    schedule_key-advance wheel (codes "foo") 1250 1300 wheel-IsWheel (omega arith) (omega arith)
      (omega arith) (omega arith)

-- One tick before the last slot, with the key still in the overflow map.
abbrev late : TimerWheel
late = record {
  slots = replicate wheel_slots [];
  overflow = (51100, some (codes "foo") ∷ []) ∷ [];
  last_tick_ms = 51000;
  rotations = 0;
}

late-IsWheel : IsWheel late
late-IsWheel = record { aligned = refl; full = length-replicate wheel_slots [] }

late_slot : slot_at late.slots (wheel_slots - 1) ≡ []
unfolding replicate
late_slot = refl

abbrev an_id : StreamId
an_id = record { ms = 1700000000000; seq = 3 }

lex-as_be_bytes_example :
    lex_leb (as_be_bytes an_id) (as_be_bytes (record { ms = 1700000000000; seq = 256 }))
    ≡ le an_id (record { ms = 1700000000000; seq = 256 })
lex-as_be_bytes_example =
    lex-as_be_bytes an_id (record { ms = 1700000000000; seq = 256 }) (omega arith) (omega arith)
      (omega arith) (omega arith)

abbrev fields : FieldExpiryWheel
fields = record {
  slots = replicate wheel_slots [];
  overflow = (90000, some (codes "h", codes "f") ∷ []) ∷ [];
  last_tick_ms = 1000;
  rotations = 0;
}

none_of-tombstone_key_example :
    none_of (codes "h") (advance_fields (tombstone_key fields (codes "h")) 90000).1 ≡ true
none_of-tombstone_key_example = none_of-tombstone_key fields (codes "h") 90000

abbrev a_stream_id : StreamId
a_stream_id = record { ms = 15; seq = 3 }

parse-to_string_example :
    (parse (to_string a_stream_id) ≡ some a_stream_id)
    × (parse_range_start (to_string a_stream_id) ≡ some a_stream_id)
    × (parse_range_end (to_string a_stream_id) ≡ some a_stream_id)
parse-to_string_example = parse-to_string a_stream_id (omega arith) (omega arith)
