-- ===== src/Sentinel/Failover/Steps.antt =====
-- senko-sentinel/src/failover.rs's `begin_failover` and `advance_failover`: what one step keeps, and
-- how a failover goes from its start to the switch.
use senko.Prelude.{
  ℕ, ◌+◌, ◌-◌, ◌≡◌, refl, ap, ◌∙◌, [], Bool, true, false, not, ◌&&◌, ◌||◌, Option, none, some, ◌==◌,
  ltb, leb, is_some, arith, Bool-cases, inl, inr,
}
use senko.Cluster.Node.{SocketAddr}
use senko.Sentinel.State.{
  FailoverState, wait_start, select_slave, send_slave_of, wait_promotion, reconf_slaves,
  update_config, MasterState,
}
use senko.Sentinel.Failover.{
  FailoverTransition, begin_failover, select_best_replica, select_step, or_now, is_promoted,
  reconf_step, update_step, failover_step, advance_failover, reconf_from, others,
}

abbrev pub is_running : FailoverState → Bool
is_running FailoverState.none = false
is_running state = true

-- The states in which a replica has been chosen.
abbrev pub is_past_choice : FailoverState → Bool
is_past_choice send_slave_of = true
is_past_choice wait_promotion = true
is_past_choice reconf_slaves = true
is_past_choice update_config = true
is_past_choice state = false

-- The flag is up exactly while a failover runs, and a replica is selected once the choice is made.
abbrev pub IsConsistent : MasterState → Type 0
IsConsistent m =
    (m.flags.failover_in_progress ≡ is_running m.failover_state)
    × ((not (is_past_choice m.failover_state) || is_some m.selected_replica) ≡ true)

abbrev rank : FailoverState → ℕ
rank FailoverState.none = 0
rank wait_start = 1
rank select_slave = 2
rank send_slave_of = 3
rank wait_promotion = 4
rank reconf_slaves = 5
rank update_config = 6

-- The step of the state: it stays, it goes to the next state, or the failover ends.
abbrev pub follows : FailoverState → FailoverState → Bool
follows state next =
    rank next == 0
    || (rank next == rank state || rank next == rank state + 1 && not (rank state == 0))

-- From `state`: a step tells of a switch only when it takes a failover out of its last state, and of
-- an abort only when it ends the failover; it tells of the two never at once.
abbrev pub IsStep : FailoverState → MasterState × FailoverTransition → Type 0
IsStep state (next, outcome) =
    IsConsistent next
    × (follows state next.failover_state ≡ true)
    × ((not (is_some outcome.switched_master) || (rank state == 6 && not outcome.aborted)) ≡ true)
    × ((not (is_some outcome.switched_master || outcome.aborted) || rank next.failover_state == 0)
        ≡ true)

follows_refl : (state : FailoverState) → follows state state ≡ true
follows_refl state = ground arith

module _ (m : MasterState) (kept : IsConsistent m) where
  stay :
      (state : FailoverState)
      → m.failover_state ≡ state
      → IsStep state (m, record { emitted = []; switched_master = none; aborted = false })
  stay state at = (kept, rw at (follows_refl state), refl, refl)

  -- A running failover has its flag up.
  flag_up :
      (state : FailoverState)
      → m.failover_state ≡ state
      → m.flags.failover_in_progress ≡ is_running state
  flag_up state at = kept.0 ∙ ap is_running at

  chosen :
      (state : FailoverState)
      → m.failover_state ≡ state
      → is_past_choice state ≡ true
      → is_some m.selected_replica ≡ true
  chosen state at past = ground (arith, kept.1, ap is_past_choice at, past)

  select_step-IsStep :
      (best : Option SocketAddr)
      → m.failover_state ≡ select_slave
      → IsStep select_slave (select_step best m)
  select_step-IsStep none at = ((refl, refl), refl, refl, refl)
  select_step-IsStep (some addr) at = ((flag_up select_slave at, refl), refl, refl, refl)

  update_step-IsStep :
      (selected : Option SocketAddr)
      → m.failover_state ≡ update_config
      → IsStep update_config (update_step selected m)
  update_step-IsStep none at = stay update_config at
  update_step-IsStep (some addr) at = ((refl, refl), refl, refl, refl)

  reconf_step-IsStep :
      (parallel_syncs : ℕ)
      → m.failover_state ≡ reconf_slaves
      → IsStep reconf_slaves (reconf_step m parallel_syncs)
  reconf_step-IsStep parallel_syncs at =
      let after = reconf_from m.selected_replica parallel_syncs 0 m.replicas in
      elim (Bool-cases (leb (others m.selected_replica m.replicas) after.2)) [
        | inl all_done ↦
            rw all_done ((flag_up reconf_slaves at, chosen reconf_slaves at refl), refl, refl, refl)
        | inr waiting ↦
            rw (waiting, at)
              ((flag_up reconf_slaves at, chosen reconf_slaves at refl), refl, refl, refl)
      ]

  failover_step-IsStep :
      (state : FailoverState) (now down_after_ms parallel_syncs : ℕ) (elected : Bool)
      → m.failover_state ≡ state
      → IsStep state (failover_step state m now down_after_ms parallel_syncs elected)
  unfolding failover_step
  failover_step-IsStep FailoverState.none now down parallel_syncs elected at =
      stay FailoverState.none at
  failover_step-IsStep wait_start now down parallel_syncs true at =
      ((flag_up wait_start at, refl), refl, refl, refl)
  failover_step-IsStep wait_start now down parallel_syncs false at = stay wait_start at
  failover_step-IsStep select_slave now down parallel_syncs elected at =
      select_step-IsStep (select_best_replica m now down (or_now m.down_since now)) at
  failover_step-IsStep send_slave_of now down parallel_syncs elected at =
      ((flag_up send_slave_of at, chosen send_slave_of at refl), refl, refl, refl)
  failover_step-IsStep wait_promotion now down parallel_syncs elected at =
      elim (Bool-cases (is_promoted m.selected_replica m.replicas)) [
        | inl promoted ↦
            rw promoted
              ((flag_up wait_promotion at, chosen wait_promotion at refl), refl, refl, refl)
        | inr waiting ↦ rw waiting (stay wait_promotion at)
      ]
  failover_step-IsStep reconf_slaves now down parallel_syncs elected at =
      reconf_step-IsStep parallel_syncs at
  failover_step-IsStep update_config now down parallel_syncs elected at =
      update_step-IsStep m.selected_replica at

-- A step of a failover keeps the flag of a running failover in accord with its state, and keeps a replica
-- selected from the choice on. It goes to the next state, stays, or ends the failover; it reports a switch
-- only from the last state, ends the failover then and does not report an abort too; and an abort ends it.
pub advance_failover-IsStep :
    (m : MasterState) (now down_after_ms failover_timeout parallel_syncs : ℕ) (elected : Bool)
    → IsConsistent m
    → IsStep m.failover_state
        (advance_failover m now down_after_ms failover_timeout parallel_syncs elected)
unfolding advance_failover
advance_failover-IsStep m now down failover_timeout parallel_syncs elected kept =
    elim (Bool-cases (ltb failover_timeout (now - m.failover_epoch))) [
      | inl late ↦ rw late ((refl, refl), refl, refl, refl)
      | inr in_time ↦
          rw in_time
            (failover_step-IsStep m kept m.failover_state now down parallel_syncs elected refl)
    ]

-- `begin_failover` puts any master into a consistent state.
pub begin_failover-IsConsistent :
    (m : MasterState) (epoch : ℕ) → IsConsistent (begin_failover m epoch)
unfolding begin_failover
begin_failover-IsConsistent m epoch = (refl, refl)
