-- ===== src/Sentinel/Failover.antt =====
-- senko-sentinel/src/failover.rs: the steps of a failover. The replicas are taken in the order in
-- which the hash map gives them.
pub mod Steps
pub mod Finish
pub mod Choice
use senko.Prelude.{
  ℕ, ◌+◌, ◌-◌, ◌*◌, ◌≡◌, List, [], ◌∷◌, ◌++◌, Bool, true, false, not, ◌&&◌, ◌||◌, Option, ltb, leb,
  ◌==◌, if◌then◌else◌, is_some, filter, length, ◌%◌, u64_mod,
}
use senko.Prelude.Int.{ℤ, pos, ltb_ℤ}
use senko.Prelude.Equality.{Eq, nat_eq, bytes_beq, bytes_eq}
use senko.Prelude.Maps
use senko.Prelude.Maps.{Map}
use senko.Prelude.Sort.{lex_leb}
use senko.Cluster.Node.{SocketAddr}
use senko.Sentinel.State.{
  InstanceFlags, FailoverState, wait_start, select_slave, send_slave_of, wait_promotion,
  reconf_slaves, update_config, Role, LinkStatus, ReplicaState, MasterState,
}
use Prim.Native.String.{String}

abbrev pub addr_beq : SocketAddr → SocketAddr → Bool
addr_beq a b = bytes_beq a.ip b.ip && a.port == b.port

pub record FailoverTransition : Type 0 where
  pub emitted : List String
  pub switched_master : Option (SocketAddr × SocketAddr)
  pub aborted : Bool

unfoldable pub begin_failover : MasterState → ℕ → MasterState
begin_failover m epoch = record m {
  failover_state = wait_start;
  failover_epoch = epoch;
  flags = record m.flags { failover_in_progress = true };
}

-- The filters of `select_best_replica`. Products and sums wrap as in a release build.
unfoldable pub is_candidate : ReplicaState → ℕ → ℕ → ℕ → Bool
is_candidate r now down_after_ms odown_time =
    not (r.flags.s_down || (r.flags.o_down || r.flags.disconnected))
    && (ltb_ℤ (pos 0) r.slave_priority
        && (leb (now - r.last_ok_ping) (5 * down_after_ms % u64_mod)
            && leb r.master_link_down_time
                ((now - odown_time + 10 * down_after_ms % u64_mod) % u64_mod)))

-- `compare_replicas(left, right) != Greater`.
unfoldable pub replica_leb : ReplicaState → ReplicaState → Bool
replica_leb left right =
    if ltb_ℤ left.slave_priority right.slave_priority
    then true
    else if ltb_ℤ right.slave_priority left.slave_priority
    then false
    else if ltb right.slave_repl_offset left.slave_repl_offset
    then true
    else if ltb left.slave_repl_offset right.slave_repl_offset
    then false
    else lex_leb left.name right.name

abbrev pub better_of : ReplicaState → Option ReplicaState → Option ReplicaState
better_of r Option.none = Option.some r
better_of r (Option.some best) = if replica_leb r best then Option.some r else Option.some best

-- The first of the stable `sort_by`: of equal replicas, the earlier one.
unfoldable pub first_sorted : List ReplicaState → Option ReplicaState
first_sorted [] = Option.none
first_sorted (r ∷ rs) = better_of r (first_sorted rs)

abbrev pub addr_of : Option ReplicaState → Option SocketAddr
addr_of Option.none = Option.none
addr_of (Option.some r) = Option.some r.addr

unfoldable pub candidates : MasterState → ℕ → ℕ → ℕ → List ReplicaState
candidates m now down_after_ms odown_time =
    filter (λ r. is_candidate r now down_after_ms odown_time) (Maps.values m.replicas)

unfoldable pub select_best_replica : MasterState → ℕ → ℕ → ℕ → Option SocketAddr
select_best_replica m now down_after_ms odown_time =
    addr_of (first_sorted (candidates m now down_after_ms odown_time))

abbrev emit : List String → FailoverTransition
emit events = record { emitted = events; switched_master = Option.none; aborted = false }

abbrev pub set_state : MasterState → FailoverState → MasterState
set_state m state = record m { failover_state = state }

-- `FailoverState::None`, with the flag off.
abbrev end_failover : MasterState → MasterState
end_failover m = record m {
  failover_state = FailoverState.none;
  flags = record m.flags { failover_in_progress = false };
}

abbrev aborting : MasterState → MasterState × FailoverTransition
aborting m = (
  end_failover m,
  record { emitted = "-failover-abort" ∷ []; switched_master = Option.none; aborted = true },
)

abbrev pub select_step : Option SocketAddr → MasterState → MasterState × FailoverTransition
select_step Option.none m = aborting m
select_step (Option.some addr) m = (
  record m { selected_replica = Option.some addr; failover_state = send_slave_of },
  emit ("+selected-slave" ∷ "+failover-state-send-slaveof-noone" ∷ []),
)

abbrev pub or_now : Option ℕ → ℕ → ℕ
or_now Option.none now = now
or_now (Option.some t) now = t

abbrev is_master : Role → Bool
is_master Role.master = true
is_master role = false

-- `replicas.get(&addr)`, on the map's keys.
unfoldable pub find_replica : Map SocketAddr ReplicaState → SocketAddr → Option ReplicaState
find_replica [] addr = Option.none
find_replica ((key, r) ∷ replicas) addr =
    if addr_beq key addr then Option.some r else find_replica replicas addr

abbrev role_is_master : Option ReplicaState → Bool
role_is_master Option.none = false
role_is_master (Option.some r) = is_master r.role_reported

unfoldable pub is_promoted : Option SocketAddr → Map SocketAddr ReplicaState → Bool
is_promoted Option.none replicas = false
is_promoted (Option.some addr) replicas = role_is_master (find_replica replicas addr)

abbrev pub is_link_ok : LinkStatus → Bool
is_link_ok LinkStatus.ok = true
is_link_ok LinkStatus.err = false

-- What the loop of ReconfSlaves makes of one replica: the replica, the event, and whether it counts as
-- in flight and as done.
pub data Reconf : Type 0 where
  done_before left_alone : Reconf
  done_now in_progress sent : Reconf

abbrev pub reconf_of : ReplicaState → ℕ → ℕ → Reconf
reconf_of r in_flight parallel_syncs =
    if r.flags.reconf_done
    then done_before
    else if is_link_ok r.master_link_status
    then done_now
    else if r.flags.reconf_sent
    then in_progress
    else if ltb in_flight parallel_syncs
    then sent
    else left_alone

abbrev pub reconf_flags : Reconf → InstanceFlags → InstanceFlags
reconf_flags done_now f = record f {
  reconf_sent = false;
  reconf_inprog = false;
  reconf_done = true;
}
reconf_flags in_progress f = record f { reconf_sent = false; reconf_inprog = true }
reconf_flags sent f = record f { reconf_sent = true }
reconf_flags r f = f

abbrev pub reconf_events : Reconf → List String
reconf_events done_now = "+slave-reconf-done" ∷ []
reconf_events in_progress = "+slave-reconf-inprog" ∷ []
reconf_events sent = "+slave-reconf-sent" ∷ []
reconf_events r = []

abbrev pub counts_in_flight : Reconf → ℕ
counts_in_flight in_progress = 1
counts_in_flight sent = 1
counts_in_flight r = 0

abbrev pub counts_done : Reconf → ℕ
counts_done done_before = 1
counts_done done_now = 1
counts_done r = 0

abbrev pub is_selected : Option SocketAddr → ReplicaState → Bool
is_selected Option.none r = false
is_selected (Option.some addr) r = addr_beq r.addr addr

-- The replicas after the loop, the events, and `done`.
abbrev pub Reconfigured : Type 0
Reconfigured = Map SocketAddr ReplicaState × List String × ℕ

abbrev pub cons_replica : SocketAddr → ReplicaState → Reconf → Reconfigured → Reconfigured
cons_replica key r what (replicas, events, done) = (
  (key, record r { flags = reconf_flags what r.flags }) ∷ replicas,
  reconf_events what ++ events,
  counts_done what + done,
)

unfoldable pub reconf_from : Option SocketAddr → ℕ → ℕ → Map SocketAddr ReplicaState → Reconfigured
reconf_from selected parallel_syncs in_flight [] = ([], [], 0)
reconf_from selected parallel_syncs in_flight ((key, r) ∷ replicas) =
    let what = reconf_of r in_flight parallel_syncs in
    let skipped = reconf_from selected parallel_syncs in_flight replicas in
    let rest = reconf_from selected parallel_syncs (in_flight + counts_in_flight what) replicas in
    if is_selected selected r
    then ((key, r) ∷ skipped.0, skipped.1, skipped.2)
    else cons_replica key r what rest

-- `total`.
unfoldable pub others : Option SocketAddr → Map SocketAddr ReplicaState → ℕ
others selected replicas =
    length (filter (λ r. not (is_selected selected r)) (Maps.values replicas))

abbrev pub reconf_step : MasterState → ℕ → MasterState × FailoverTransition
reconf_step m parallel_syncs =
    let (replicas, events, done) = reconf_from m.selected_replica parallel_syncs 0 m.replicas in
    (
      record m {
        replicas = replicas;
        failover_state =
            if leb (others m.selected_replica m.replicas) done
            then update_config
            else m.failover_state;
      },
      emit events,
    )

abbrev pub update_step : Option SocketAddr → MasterState → MasterState × FailoverTransition
update_step Option.none m = (m, emit [])
update_step (Option.some addr) m = (
  record m {
    addr = addr;
    config_epoch = (m.config_epoch + 1) % u64_mod;
    failover_state = FailoverState.none;
    flags = record m.flags { failover_in_progress = false; o_down = false; s_down = false };
  },
  record {
    emitted = "+switch-master" ∷ "+failover-end" ∷ [];
    switched_master = Option.some (m.addr, addr);
    aborted = false;
  },
)

-- The `match` on the state.
unfoldable pub failover_step :
    FailoverState → MasterState → ℕ → ℕ → ℕ → Bool → MasterState × FailoverTransition
failover_step FailoverState.none m now down_after_ms parallel_syncs elected = (m, emit [])
failover_step wait_start m now down_after_ms parallel_syncs elected =
    if elected
    then (set_state m select_slave, emit ("+failover-state-select-slave" ∷ []))
    else (m, emit [])
failover_step select_slave m now down_after_ms parallel_syncs elected =
    select_step (select_best_replica m now down_after_ms (or_now m.down_since now)) m
failover_step send_slave_of m now down_after_ms parallel_syncs elected =
    (set_state m wait_promotion, emit ("+failover-state-wait-promotion" ∷ []))
failover_step wait_promotion m now down_after_ms parallel_syncs elected =
    if is_promoted m.selected_replica m.replicas
    then (
      set_state m reconf_slaves,
      emit ("+promoted-slave" ∷ "+failover-state-reconf-slaves" ∷ []),
    )
    else (m, emit [])
failover_step reconf_slaves m now down_after_ms parallel_syncs elected =
    reconf_step m parallel_syncs
failover_step update_config m now down_after_ms parallel_syncs elected =
    update_step m.selected_replica m

unfoldable pub advance_failover :
    MasterState → ℕ → ℕ → ℕ → ℕ → Bool → MasterState × FailoverTransition
advance_failover m now down_after_ms failover_timeout parallel_syncs elected =
    if ltb failover_timeout (now - m.failover_epoch)
    then aborting m
    else failover_step m.failover_state m now down_after_ms parallel_syncs elected
