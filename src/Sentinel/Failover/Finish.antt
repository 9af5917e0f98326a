-- ===== src/Sentinel/Failover/Finish.antt =====
-- senko-sentinel/src/failover.rs: the loop of `ReconfSlaves`, and a failover that runs to its end.
use senko.Prelude.{
  ℕ, ◌+◌, ◌-◌, ◌≤◌, ◌≡◌, refl, ap, ◌∙◌, List, [], ◌∷◌, Bool, true, false, not, ◌&&◌, ◌||◌, Option,
  some, ltb, leb, ◌==◌, ◌%◌, u64_mod, if◌then◌else◌, all, filter, length, arith, Bool-cases, inl,
  inr,
}
use senko.Prelude.Maps
use senko.Prelude.Maps.{Map}
use senko.Cluster.Node.{SocketAddr}
use senko.Sentinel.State.{
  FailoverState, wait_start, select_slave, send_slave_of, wait_promotion, reconf_slaves,
  update_config, ReplicaState, MasterState,
}
use senko.Sentinel.Failover.{
  reconf_of, reconf_flags, counts_in_flight, is_link_ok, reconf_from, others, is_selected,
  is_promoted, failover_step, advance_failover, select_best_replica, candidates, or_now,
  begin_failover, FailoverTransition, select_step, update_step,
}

module _ (selected : Option SocketAddr) where
  -- A replica, other than the selected one and not done, that was told to follow the new master; and
  -- one that was not yet told.
  abbrev pub is_waiting : ReplicaState → Bool
  is_waiting r =
      not (is_selected selected r)
      && (not r.flags.reconf_done && (r.flags.reconf_sent || r.flags.reconf_inprog))

  abbrev pub is_untold : ReplicaState → Bool
  is_untold r =
      not (is_selected selected r)
      && (not r.flags.reconf_done && not (r.flags.reconf_sent || r.flags.reconf_inprog))

  abbrev pub waiting : Map SocketAddr ReplicaState → ℕ
  waiting replicas = length (filter is_waiting (Maps.values replicas))

  -- Those that wait come before those that were not told, in the order of the map.
  abbrev pub in_turn : Map SocketAddr ReplicaState → Bool
  in_turn [] = true
  in_turn ((key, r) ∷ replicas) =
      if is_untold r then waiting replicas == 0 && in_turn replicas else in_turn replicas

  -- A replica that needs no more work.
  abbrev pub is_settled : ReplicaState → Bool
  is_settled r = is_selected selected r || (r.flags.reconf_done || is_link_ok r.master_link_status)

  -- One replica, with what holds of the rest before and after.
  reconf_of-waiting :
      (key : SocketAddr) (r : ReplicaState) (p n : ℕ) (before after : Map SocketAddr ReplicaState)
      → is_selected selected r ≡ false
      → in_turn ((key, r) ∷ before) ≡ true
      → waiting ((key, r) ∷ before) ≤ p - n
      → (in_turn before ≡ true
          → waiting before ≤ p - (n + counts_in_flight (reconf_of r n p))
          → (in_turn after ≡ true) × (waiting after ≤ p - (n + counts_in_flight (reconf_of r n p))))
      → (in_turn ((key, record r { flags = reconf_flags (reconf_of r n p) r.flags }) ∷ after)
          ≡ true)
        × (waiting ((key, record r { flags = reconf_flags (reconf_of r n p) r.flags }) ∷ after)
            ≤ p - n)
  reconf_of-waiting key r p n before after other turn bound rest =
      ground (arith, other, turn, bound, rest)

  reconf_from-waiting :
      (p n : ℕ) (replicas : Map SocketAddr ReplicaState)
      → in_turn replicas ≡ true
      → waiting replicas ≤ p - n
      → (in_turn (reconf_from selected p n replicas).0 ≡ true)
        × (waiting (reconf_from selected p n replicas).0 ≤ p - n)
  unfolding reconf_from
  reconf_from-waiting p n [] turn bound = (refl, bound)
  reconf_from-waiting p n ((key, r) ∷ replicas) turn bound =
      elim (Bool-cases (is_selected selected r)) [
        | inl is_it ↦
            rw (is_it, is_it)
              (reconf_from-waiting p n replicas (ground (arith, turn, is_it))
                (ground (arith, bound, is_it)))
        | inr other ↦ rw other (
            reconf_of-waiting key r p n replicas
              (reconf_from selected p (n + counts_in_flight (reconf_of r n p)) replicas).0 other
              turn bound (reconf_from-waiting p (n + counts_in_flight (reconf_of r n p)) replicas))
      ]

  -- `done` reaches `total` when every replica but the selected one is settled.
  reconf_from-done :
      (p n : ℕ) (replicas : Map SocketAddr ReplicaState)
      → (leb (others selected replicas) (reconf_from selected p n replicas).2
          ≡ all is_settled (Maps.values replicas))
        × ((reconf_from selected p n replicas).2 ≤ others selected replicas)
  unfolding reconf_from others
  reconf_from-done p n [] = (refl, omega arith)
  reconf_from-done p n ((key, r) ∷ replicas) =
      let rest = reconf_from-done p (n + counts_in_flight (reconf_of r n p)) replicas in
      elim (Bool-cases (is_selected selected r)) [
        | inl is_it ↦ rw is_it (reconf_from-done p n replicas)
        | inr other ↦ rw other (ground (arith, rest.0, rest.1))
      ]

-- A step in the state `ReconfSlaves` and in time: when at most `parallel_syncs` of the replicas wait (they
-- were told to follow the new master and are not done, those in progress included) and in the map's order
-- they come before those that were not told, then the same holds after the step. It goes on to
-- `UpdateConfig` exactly when every replica but the selected one is done or reports its link to the master
-- as up.
pub advance_failover-reconf :
    (m : MasterState) (now down_after_ms failover_timeout parallel_syncs : ℕ) (elected : Bool)
    → m.failover_state ≡ reconf_slaves
    → now - m.failover_epoch ≤ failover_timeout
    → in_turn m.selected_replica m.replicas ≡ true
    → waiting m.selected_replica m.replicas ≤ parallel_syncs
    → (in_turn m.selected_replica
          (advance_failover m now down_after_ms failover_timeout parallel_syncs elected).0.replicas
        ≡ true)
      × (waiting m.selected_replica
            (advance_failover m now down_after_ms failover_timeout parallel_syncs
              elected).0.replicas
          ≤ parallel_syncs)
      × ((advance_failover m now down_after_ms failover_timeout parallel_syncs
            elected).0.failover_state
          ≡ (if all (is_settled m.selected_replica) (Maps.values m.replicas)
              then update_config
              else reconf_slaves))
unfolding advance_failover failover_step
advance_failover-reconf m now down failover_timeout p elected at soon turn bound =
    let in_time : ltb failover_timeout (now - m.failover_epoch) ≡ false = ground (arith, soon) in
    let done = reconf_from-done m.selected_replica p 0 m.replicas in
    let after = reconf_from-waiting m.selected_replica p 0 m.replicas turn (omega (arith, bound)) in
    rw (in_time, at) (after.0, omega (arith, after.1), rw done.0 refl)

-- What the leader knows at a step: the time, and the replicas as they have last reported.
abbrev pub Sight : Type 0
Sight = ℕ × Map SocketAddr ReplicaState

abbrev pub see : Sight → MasterState → MasterState
see (now, replicas) m = record m { replicas = replicas }

module _ (down_after_ms failover_timeout parallel_syncs : ℕ) where
  -- One step of the elected leader.
  abbrev pub leader_step : Sight → MasterState → MasterState × FailoverTransition
  leader_step t m =
      advance_failover (see t m) t.0 down_after_ms failover_timeout parallel_syncs true

  abbrev pub run : List Sight → MasterState → MasterState
  run [] m = m
  run (t ∷ ts) m = run ts (leader_step t m).0

  abbrev pub is_soon : ℕ → Sight → Bool
  is_soon epoch t = leb (t.0 - epoch) failover_timeout

  step_in :
      (state : FailoverState) (t : Sight) (m : MasterState)
      → is_soon m.failover_epoch t ≡ true
      → m.failover_state ≡ state
      → leader_step t m ≡ failover_step state (see t m) t.0 down_after_ms parallel_syncs true
  unfolding advance_failover
  step_in state t m soon at =
      let in_time : ltb failover_timeout (t.0 - m.failover_epoch) ≡ false = ground (arith, soon) in
      rw (in_time, at) refl

  module _ (m : MasterState) (addr : SocketAddr) where
    abbrev before : Map SocketAddr ReplicaState → FailoverState → MasterState
    before replicas state = record m { replicas = replicas; failover_state = state }

    abbrev chosen : Map SocketAddr ReplicaState → FailoverState → MasterState
    chosen replicas state = record m {
      replicas = replicas;
      selected_replica = some addr;
      failover_state = state;
    }

    module _ (t : Sight) (soon : is_soon m.failover_epoch t ≡ true)
        (old : Map SocketAddr ReplicaState) where
      to_choice : (leader_step t (before old wait_start)).0 ≡ before t.1 select_slave
      unfolding failover_step
      to_choice = ap (λ r. r.0) (step_in wait_start t (before old wait_start) soon refl)

      to_send :
          select_best_replica (see t m) t.0 down_after_ms (or_now m.down_since t.0) ≡ some addr
          → (leader_step t (before old select_slave)).0 ≡ chosen t.1 send_slave_of
      unfolding failover_step select_best_replica candidates
      to_send best =
          ap (λ r. r.0) (step_in select_slave t (before old select_slave) soon refl)
          ∙ ap (λ found. (select_step found (before t.1 select_slave)).0) best

      to_wait : (leader_step t (chosen old send_slave_of)).0 ≡ chosen t.1 wait_promotion
      unfolding failover_step
      to_wait = ap (λ r. r.0) (step_in send_slave_of t (chosen old send_slave_of) soon refl)

      to_reconf :
          is_promoted (some addr) t.1 ≡ true
          → (leader_step t (chosen old wait_promotion)).0 ≡ chosen t.1 reconf_slaves
      unfolding failover_step
      to_reconf promoted =
          ap (λ r. r.0) (step_in wait_promotion t (chosen old wait_promotion) soon refl)
          ∙ rw promoted refl

      to_update :
          all (is_settled (some addr)) (Maps.values t.1) ≡ true
          → (leader_step t (chosen old reconf_slaves)).0
            ≡ chosen (reconf_from (some addr) parallel_syncs 0 t.1).0 update_config
      unfolding failover_step
      to_update settled =
          let done = reconf_from-done (some addr) parallel_syncs 0 t.1 in
          ap (λ r. r.0) (step_in reconf_slaves t (chosen old reconf_slaves) soon refl)
          ∙ rw (done.0 ∙ settled) refl

      to_end :
          leader_step t (chosen old update_config)
          ≡ update_step (some addr) (chosen t.1 update_config)
      unfolding failover_step
      to_end = step_in update_config t (chosen old update_config) soon refl

  -- Six steps of the elected leader after `begin_failover`, none of them later than the timeout allows; the
  -- time and the replicas may change before each. When the second step's replicas give `addr` as the
  -- best one, the fourth's have it as a master, and the fifth's are all done or have their link up but
  -- for it, the sixth step tells of the switch to `addr`: that is the master's address, the
  -- configuration epoch is one more (in 64 bits), no failover runs, and of the flags exactly those of a
  -- running failover and of a master that is down are cleared.
  pub leader_step-switch :
      (m : MasterState) (epoch : ℕ) (addr : SocketAddr) (a b c d e f : Sight)
      → all (is_soon epoch) (a ∷ b ∷ c ∷ d ∷ e ∷ f ∷ []) ≡ true
      → select_best_replica (see b m) b.0 down_after_ms (or_now m.down_since b.0) ≡ some addr
      → is_promoted (some addr) d.1 ≡ true
      → all (is_settled (some addr)) (Maps.values e.1) ≡ true
      → ((leader_step f (run (a ∷ b ∷ c ∷ d ∷ e ∷ []) (begin_failover m epoch))).1.switched_master
          ≡ some (m.addr, addr))
        × (run (a ∷ b ∷ c ∷ d ∷ e ∷ f ∷ []) (begin_failover m epoch) ≡ record m {
          addr = addr;
          config_epoch = (m.config_epoch + 1) % u64_mod;
          failover_state = FailoverState.none;
          failover_epoch = epoch;
          selected_replica = some addr;
          replicas = f.1;
          flags = record m.flags { failover_in_progress = false; o_down = false; s_down = false };
        })
  unfolding begin_failover select_best_replica candidates
  leader_step-switch m epoch addr a b c d e f soon best promoted settled =
      let m' = begin_failover m epoch in
      let last : run (a ∷ b ∷ c ∷ d ∷ e ∷ []) m'
          ≡ chosen m' addr (reconf_from (some addr) parallel_syncs 0 e.1).0 update_config =
        ap (run (b ∷ c ∷ d ∷ e ∷ [])) (to_choice m' addr a (ground (arith, soon)) m.replicas)
        ∙ ap (run (c ∷ d ∷ e ∷ [])) (to_send m' addr b (ground (arith, soon)) a.1 best)
        ∙ ap (run (d ∷ e ∷ [])) (to_wait m' addr c (ground (arith, soon)) b.1)
        ∙ ap (run (e ∷ [])) (to_reconf m' addr d (ground (arith, soon)) c.1 promoted)
        ∙ to_update m' addr e (ground (arith, soon)) d.1 settled in
      let end =
        ap (leader_step f) last
        ∙ to_end m' addr f (ground (arith, soon))
            (reconf_from (some addr) parallel_syncs 0 e.1).0 in
      (ap (λ r. r.1.switched_master) end, ap (λ r. r.0) end)
