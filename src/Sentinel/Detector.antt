-- ===== src/Sentinel/Detector.antt =====
-- senko-sentinel/src/detector.rs: subjective and objective failure of a master.
use senko.Prelude.{
  ℕ, ◌+◌, ◌-◌, ◌≡◌, List, Bool, true, false, ◌&&◌, ◌||◌, not, Option, none, some, leb, ltb,
  if◌then◌else◌, arith, is_some, filter, length,
}
use senko.Prelude.Maps
use senko.Sentinel.State.{MasterState, SentinelPeer}

pub record DetectionChanges : Type 0 where
  pub sdown_changed : Option Bool
  pub odown_changed : Option Bool

unfoldable pub detect_sdown : ℕ → ℕ → ℕ → Bool → Bool
detect_sdown now last_ok_ping down_after_ms tilt_mode =
    not tilt_mode && ltb down_after_ms (now - last_ok_ping)

unfoldable pub detect_odown : Bool → ℕ → ℕ → Bool
detect_odown self_sdown agreeing_sentinels quorum =
    self_sdown && leb quorum (agreeing_sentinels + 1)

-- `!=` on Booleans.
abbrev pub differs : Bool → Bool → Bool
differs a b = if a then not b else b

-- The answer for a flag that was one value and is another.
abbrev pub changed : Bool → Bool → Option Bool
changed is was = if differs is was then some is else none

-- The first half of `sweep_master`.
unfoldable pub sweep_sdown : MasterState → ℕ → Bool → MasterState
sweep_sdown m now sdown =
    if differs sdown m.flags.s_down
    then (if sdown
        then record m { flags = record m.flags { s_down = true }; down_since = some now }
        else record m { flags = record m.flags { s_down = false }; down_since = none })
    else m

-- `.filter(|peer| peer.flags.contains(S_DOWN)).count()`.
unfoldable pub agreeing : List SentinelPeer → ℕ
agreeing peers = length (filter (λ peer. peer.flags.s_down) peers)

unfoldable pub sweep_odown : MasterState → Bool → MasterState
sweep_odown m odown =
    if differs odown m.flags.o_down
    then (if odown
        then record m { flags = record m.flags { o_down = true } }
        else record m { flags = record m.flags { o_down = false } })
    else m

unfoldable pub sweep_master : MasterState → ℕ → ℕ → Bool → MasterState × DetectionChanges
sweep_master m now down_after_ms tilt_mode =
    let sdown = detect_sdown now m.last_ok_ping down_after_ms tilt_mode in
    let swept = sweep_sdown m now sdown in
    let odown = detect_odown sdown (agreeing (Maps.values m.sentinels)) m.quorum in
    (
      sweep_odown swept odown,
      record {
        sdown_changed = changed sdown m.flags.s_down;
        odown_changed = changed odown swept.flags.o_down;
      },
    )

-- After a sweep the two flags are what the detection says, and the changes that it reports are those
-- of the flags.
pub sweep_master-flags :
    (m : MasterState) (now down_after_ms : ℕ) (tilt_mode : Bool)
    → ((sweep_master m now down_after_ms tilt_mode).0.flags.s_down
        ≡ detect_sdown now m.last_ok_ping down_after_ms tilt_mode)
      × ((sweep_master m now down_after_ms tilt_mode).0.flags.o_down
          ≡ detect_odown
              (detect_sdown now m.last_ok_ping down_after_ms tilt_mode)
              (agreeing (Maps.values m.sentinels))
              m.quorum)
      × ((sweep_master m now down_after_ms tilt_mode).1.sdown_changed
          ≡ changed (sweep_master m now down_after_ms tilt_mode).0.flags.s_down m.flags.s_down)
      × ((sweep_master m now down_after_ms tilt_mode).1.odown_changed
          ≡ changed (sweep_master m now down_after_ms tilt_mode).0.flags.o_down m.flags.o_down)
unfolding sweep_master sweep_sdown sweep_odown
sweep_master-flags m now down_after_ms tilt_mode =
    (ground arith, ground arith, ground arith, ground arith)

-- A sweep keeps it that the time of a failure is known exactly while the master is taken for
-- subjectively down, and after it a master that is objectively down is subjectively down.
pub sweep_master-IsConsistent :
    (m : MasterState) (now down_after_ms : ℕ) (tilt_mode : Bool)
    → is_some m.down_since ≡ m.flags.s_down
    → (is_some (sweep_master m now down_after_ms tilt_mode).0.down_since
        ≡ (sweep_master m now down_after_ms tilt_mode).0.flags.s_down)
      × ((not (sweep_master m now down_after_ms tilt_mode).0.flags.o_down
            || (sweep_master m now down_after_ms tilt_mode).0.flags.s_down)
          ≡ true)
unfolding sweep_master sweep_sdown sweep_odown detect_odown
sweep_master-IsConsistent m now down_after_ms tilt_mode consistent = (ground arith, ground arith)
