-- ===== src/Tests/Sentinel.antt =====
-- Failure detection and elections.
use senko.Prelude.{◌≡◌, refl, sym, [], ◌∷◌, true, false, ◌||◌, not, none, some, is_some, arith}
use senko.Prelude.Equality.{bytes_eq}
use senko.Prelude.Maps
use senko.Sentinel.State.{InstanceFlags, MasterState, WorldSnapshot, SentinelId, unknown}
use senko.Sentinel.State
use senko.Sentinel.Tilt.{TiltState}
use senko.Sentinel.Detector.{
  sweep_master, detect_sdown, detect_odown, agreeing, changed, sweep_master-flags,
  sweep_master-IsConsistent,
}
use senko.Sentinel.Election.{Book, state_of, process_vote_request, requests, requests-one_vote}
use senko.Tests.Data.{codes, addr_of}

abbrev tilted : TiltState
tilted = record { tilt_start_time = 500; tilt_mode = true; previous_time = 30000 }

abbrev no_flags : InstanceFlags
no_flags = record {
  master = true;
  slave = false;
  sentinel = false;
  s_down = false;
  o_down = false;
  master_down = false;
  failover_in_progress = false;
  promoted = false;
  reconf_sent = false;
  reconf_inprog = false;
  reconf_done = false;
  force_failover = false;
  disconnected = false;
  no_failover = false;
}

abbrev silent : MasterState
silent = record {
  name = codes "m";
  addr = addr_of 6379;
  quorum = 1;
  flags = no_flags;
  config_epoch = 0;
  leader = none;
  leader_epoch = 0;
  replicas = [];
  sentinels = [];
  last_ping_sent = 0;
  last_ok_ping = 1000;
  down_since = none;
  failover_state = State.none;
  failover_epoch = 0;
  selected_replica = none;
  role_reported = unknown;
  info_refresh = 0;
  link_pending_commands = 0;
  link_refcount = 0;
  cached_info = [];
}

sweep_master-flags_example :
    ((sweep_master silent 31100 30000 false).0.flags.s_down ≡ detect_sdown 31100 1000 30000 false)
    × ((sweep_master silent 31100 30000 false).0.flags.o_down
        ≡ detect_odown (detect_sdown 31100 1000 30000 false) (agreeing []) 1)
    × ((sweep_master silent 31100 30000 false).1.sdown_changed
        ≡ changed (sweep_master silent 31100 30000 false).0.flags.s_down false)
    × ((sweep_master silent 31100 30000 false).1.odown_changed
        ≡ changed (sweep_master silent 31100 30000 false).0.flags.o_down false)
sweep_master-flags_example = sweep_master-flags silent 31100 30000 false

sweep_master-IsConsistent_example :
    (is_some (sweep_master silent 31100 30000 false).0.down_since
      ≡ (sweep_master silent 31100 30000 false).0.flags.s_down)
    × ((not (sweep_master silent 31100 30000 false).0.flags.o_down
          || (sweep_master silent 31100 30000 false).0.flags.s_down)
        ≡ true)
sweep_master-IsConsistent_example = sweep_master-IsConsistent silent 31100 30000 false refl

abbrev voted : Book
voted =
    (
      codes "m",
      record {
        epoch = 5;
        votes_received = [];
        vote_granted_to = some (codes "a", 5);
        election_start = 0;
      },
    )
    ∷ []

voted_for_a : (state_of voted (codes "m")).vote_granted_to ≡ some (codes "a", 5)
unfolding state_of Maps.get
voted_for_a = refl

voted_old : 5 ≡ (state_of voted (codes "m")).epoch
unfolding state_of Maps.get
voted_old = refl

requests-one_vote_example :
    (process_vote_request
      (requests voted (codes "m") ((codes "b", 5) ∷ []))
      (codes "m")
      (codes "c")
      4).1
    ≡ (some (codes "a"), 5)
requests-one_vote_example =
    requests-one_vote voted (codes "m") (codes "a") 5 ((codes "b", 5) ∷ []) (codes "c") 4
      voted_for_a (rw (sym voted_old) refl) (rw (sym voted_old) (omega arith))

abbrev world : WorldSnapshot
world = record { epoch = 0; my_id = codes "self"; masters = []; timestamp = 0 }
