-- ===== src/Sentinel/Tilt.antt =====
-- `TiltState` of senko-sentinel/src/state.rs: a clock that jumps suspends the detection.
use senko.Prelude.{
  ℕ, ◌-◌, ◌≡◌, Bool, true, false, ◌&&◌, not, Option, none, some, leb, ltb, ◌==◌, if◌then◌else◌,
  arith,
}

pub record TiltState : Type 0 where
  pub tilt_start_time : ℕ
  pub tilt_mode : Bool
  pub previous_time : ℕ

-- The clock went back, or on by more than two seconds.
abbrev pub jumped : ℕ → ℕ → Bool
jumped previous now = not (leb previous now && leb (now - previous) 2000)

-- `&mut self`: the state after the call, and the answer.
unfoldable pub observe : TiltState → ℕ → TiltState × Option Bool
observe s now =
    let seen = record s { previous_time = now } in
    if s.previous_time == 0
    then (seen, none)
    else if jumped s.previous_time now
    then (if not s.tilt_mode
        then (record seen { tilt_mode = true; tilt_start_time = now }, some true)
        else (seen, none))
    else if s.tilt_mode && leb 30000 (now - s.tilt_start_time)
    then (record seen { tilt_mode = false; tilt_start_time = 0 }, some false)
    else (seen, none)

-- What the answer must be when the mode goes from one value to another.
abbrev pub change : Bool → Bool → Option Bool
change true true = none
change false false = none
change was is = some is

-- The mode after an observation: a jump turns it on, and without a jump it stays on for less than 30
-- seconds after it was turned on; the first observation leaves it. The answer reports exactly the
-- changes of the mode.
pub observe-tilt_mode :
    (s : TiltState) (now : ℕ)
    → ((observe s now).0.tilt_mode ≡ (
        if s.previous_time == 0
        then s.tilt_mode
        else if jumped s.previous_time now
        then true
        else s.tilt_mode && ltb (now - s.tilt_start_time) 30000))
      × ((observe s now).1 ≡ change s.tilt_mode (observe s now).0.tilt_mode)
unfolding observe
observe-tilt_mode s now = (ground arith, ground arith)
