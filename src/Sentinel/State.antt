-- ===== src/Sentinel/State.antt =====
-- senko-sentinel/src/state.rs: what a sentinel knows of its masters.
use senko.Prelude.{ℕ, List, Bool, Option, max}
use senko.Prelude.Int.{ℤ}
use senko.Prelude.Maps.{Map}
use senko.Cluster.Node.{SocketAddr}

-- The bytes of a `CompactString`.
abbrev pub SentinelId : Type 0
SentinelId = List ℕ

-- `bitflags`: a set of named bits, one field for each.
pub record InstanceFlags : Type 0 where
  pub master : Bool
  pub slave : Bool
  pub sentinel : Bool
  pub s_down : Bool
  pub o_down : Bool
  pub master_down : Bool
  pub failover_in_progress : Bool
  pub promoted : Bool
  pub reconf_sent : Bool
  pub reconf_inprog : Bool
  pub reconf_done : Bool
  pub force_failover : Bool
  pub disconnected : Bool
  pub no_failover : Bool

pub data FailoverState : Type 0 where
  none wait_start select_slave send_slave_of wait_promotion : FailoverState
  reconf_slaves update_config : FailoverState

pub data Role : Type 0 where
  master slave unknown : Role

pub data LinkStatus : Type 0 where
  ok err : LinkStatus

pub record ReplicaState : Type 0 where
  pub addr : SocketAddr
  pub flags : InstanceFlags
  pub last_ok_ping : ℕ
  pub last_ping_sent : ℕ
  pub down_since : Option ℕ
  pub info_refresh : ℕ
  pub master_link_down_time : ℕ
  pub master_link_status : LinkStatus
  pub slave_priority : ℤ
  pub slave_repl_offset : ℕ
  pub replica_announced : Bool
  pub role_reported : Role
  pub name : List ℕ

pub record SentinelPeer : Type 0 where
  pub id : SentinelId
  pub addr : SocketAddr
  pub flags : InstanceFlags
  pub last_hello : ℕ
  pub last_ok_ping : ℕ
  pub down_since : Option ℕ
  pub voted_leader : Option SentinelId
  pub voted_epoch : ℕ
  pub runid : List ℕ

pub record MasterState : Type 0 where
  pub name : List ℕ
  pub addr : SocketAddr
  pub quorum : ℕ
  pub flags : InstanceFlags
  pub config_epoch : ℕ
  pub leader : Option SentinelId
  pub leader_epoch : ℕ
  pub replicas : Map SocketAddr ReplicaState
  pub sentinels : Map SentinelId SentinelPeer
  pub last_ping_sent : ℕ
  pub last_ok_ping : ℕ
  pub down_since : Option ℕ
  pub failover_state : FailoverState
  pub failover_epoch : ℕ
  pub selected_replica : Option SocketAddr
  pub role_reported : Role
  pub info_refresh : ℕ
  pub link_pending_commands : ℕ
  pub link_refcount : ℕ
  pub cached_info : List ℕ

pub record WorldSnapshot : Type 0 where
  pub epoch : ℕ
  pub my_id : SentinelId
  pub masters : Map (List ℕ) MasterState
  pub timestamp : ℕ

-- A load, a change of the copy and a store; `clock` is what `current_unix_ms` reads.
abbrev pub update_world : ℕ → WorldSnapshot → (WorldSnapshot → WorldSnapshot) → WorldSnapshot
update_world clock world update =
    let next = update world in record next { timestamp = max next.timestamp clock }
