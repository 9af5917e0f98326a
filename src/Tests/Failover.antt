-- ===== src/Tests/Failover.antt =====
-- A failover of a master with two replicas.
use senko.Prelude.{◌≡◌, ◌≤◌, refl, [], ◌∷◌, true, false, none, some, if◌then◌else◌, all, arith}
use senko.Prelude.Maps
use senko.Prelude.Int.{pos}
use senko.Sentinel.State.{
  InstanceFlags, MasterState, ReplicaState, Role, LinkStatus, unknown, reconf_slaves, update_config,
}
use senko.Sentinel.State
use senko.Sentinel.Failover.{
  advance_failover, begin_failover, select_best_replica, candidates, is_candidate, replica_leb,
  first_sorted, find_replica, is_promoted, addr_of as chosen_addr,
}
use senko.Sentinel.Failover.Choice.{IsChoice, select_best_replica-IsChoice}
use senko.Sentinel.Failover.Steps.{IsStep, advance_failover-IsStep}
use senko.Sentinel.Failover.Finish.{
  in_turn, waiting, is_settled, Sight, leader_step, run, advance_failover-reconf,
  leader_step-switch,
}
use senko.Tests.Data.{codes, addr_of}

abbrev no_flags : InstanceFlags
no_flags = record {
  master = true;
  slave = false;
  sentinel = false;
  s_down = false;
  o_down = false;
  master_down = false;
  failover_in_progress = false;
  promoted = false;
  reconf_sent = false;
  reconf_inprog = false;
  reconf_done = false;
  force_failover = false;
  disconnected = false;
  no_failover = false;
}

abbrev first_replica : ReplicaState
first_replica = record {
  addr = addr_of 6381;
  flags = no_flags;
  last_ok_ping = 10000;
  last_ping_sent = 0;
  down_since = none;
  info_refresh = 0;
  master_link_down_time = 0;
  master_link_status = LinkStatus.ok;
  slave_priority = pos 100;
  slave_repl_offset = 120;
  replica_announced = true;
  role_reported = Role.master;
  name = codes "a";
}

abbrev second_replica : ReplicaState
second_replica = record first_replica {
  addr = addr_of 6382;
  master_link_status = LinkStatus.err;
  slave_repl_offset = 100;
  role_reported = Role.slave;
  name = codes "b";
}

abbrev failing : MasterState
failing = record {
  name = codes "m";
  addr = addr_of 6379;
  quorum = 2;
  flags = no_flags;
  config_epoch = 3;
  leader = none;
  leader_epoch = 0;
  replicas = (addr_of 6381, first_replica) ∷ (addr_of 6382, second_replica) ∷ [];
  sentinels = [];
  last_ping_sent = 0;
  last_ok_ping = 0;
  down_since = some 1;
  failover_state = State.none;
  failover_epoch = 0;
  selected_replica = none;
  role_reported = Role.master;
  info_refresh = 0;
  link_pending_commands = 0;
  link_refcount = 0;
  cached_info = [];
}

abbrev reconfiguring : MasterState
reconfiguring = record failing {
  failover_state = reconf_slaves;
  selected_replica = some (addr_of 6381);
}

select_best_replica-IsChoice_example :
    (best : _) × (select_best_replica failing 12000 1000 1 ≡ chosen_addr best)
    × IsChoice 12000 1000 1 (Maps.values failing.replicas) best
select_best_replica-IsChoice_example = select_best_replica-IsChoice failing 12000 1000 1

advance_failover-IsStep_example :
    IsStep failing.failover_state (advance_failover failing 10 1000 10000 1 true)
advance_failover-IsStep_example = advance_failover-IsStep failing 10 1000 10000 1 true (refl, refl)

advance_failover-reconf_example :
    (in_turn (some (addr_of 6381)) (advance_failover reconfiguring 10 1000 10000 1 true).0.replicas
      ≡ true)
    × (waiting
          (some (addr_of 6381))
          (advance_failover reconfiguring 10 1000 10000 1 true).0.replicas
        ≤ 1)
    × ((advance_failover reconfiguring 10 1000 10000 1 true).0.failover_state ≡ (
        if all (is_settled (some (addr_of 6381))) (Maps.values reconfiguring.replicas)
        then update_config
        else reconf_slaves))
advance_failover-reconf_example =
    advance_failover-reconf reconfiguring 10 1000 10000 1 true refl (omega arith) refl (omega arith)

chosen : select_best_replica failing 10 1000 1 ≡ some (addr_of 6381)
unfolding select_best_replica candidates is_candidate first_sorted replica_leb
chosen = refl

promoted : is_promoted (some (addr_of 6381)) failing.replicas ≡ true
unfolding is_promoted find_replica
promoted = refl

abbrev sight : Sight
sight = (10, failing.replicas)

-- The second replica reports its link after the promotion.
abbrev later_sight : Sight
later_sight = (
  20,
  (addr_of 6381, first_replica)
      ∷ (addr_of 6382, record second_replica { master_link_status = LinkStatus.ok })
      ∷ [],
)

leader_step-switch_example :
    ((leader_step 1000 10000 1 later_sight (
        run 1000 10000 1
          (sight ∷ sight ∷ sight ∷ sight ∷ later_sight ∷ [])
          (begin_failover failing 1))).1.switched_master
      ≡ some (addr_of 6379, addr_of 6381))
    × (run 1000 10000 1
          (sight ∷ sight ∷ sight ∷ sight ∷ later_sight ∷ later_sight ∷ [])
          (begin_failover failing 1)
        ≡ record failing {
          addr = addr_of 6381;
          config_epoch = 4;
          failover_state = State.none;
          failover_epoch = 1;
          selected_replica = some (addr_of 6381);
          replicas = later_sight.1;
          flags = record no_flags { failover_in_progress = false; o_down = false; s_down = false };
        })
leader_step-switch_example =
    leader_step-switch 1000 10000 1 failing 1 (addr_of 6381) sight sight sight sight later_sight
      later_sight refl chosen promoted refl
