-- ===== src/Net/Server.antt =====
-- The connections of one shard with the registry that they share, and the steps that change them
-- (senko-net/src/commands/transaction.rs and senko-net/src/transaction.rs).
use senko.Prelude.{ℕ, ◌≡◌, ◌≢◌, List, [], false, Option, none, some}
use senko.Prelude.Equality.{nat_eq, bytes_eq}
use senko.Prelude.Maps
use senko.Prelude.Maps.{get-insert, get-remove}
use senko.Proto.Frame.{Frame}
use senko.Net.Watch.{
  Key, TxState, QueuedCommand, WatchState, WatchRegistry, ConnectionMap, notify_write, cleanup_conn,
  mark_all_dirty,
}
use senko.Net.Transaction.{Session, handle_transaction_command, queued_command_response}

pub record Server : Type 0 where
  pub registry : WatchRegistry
  pub connections : ConnectionMap

abbrev pub start_server : Server
start_server = record { registry = record { watchers = [] }; connections = [] }

abbrev pub session : Server → TxState → WatchState → Session
session s tx state = record { tx_state = tx; registry = s.registry; watch_state = state }

-- The server with what a session of the connection has made of it.
abbrev pub after : Server → ℕ → Session → Server
after s conn_id t = record {
  registry = t.registry;
  connections = Maps.insert s.connections conn_id t.watch_state;
}

abbrev pub after_write : Server → Key → ℕ → Server
after_write s key version = record s {
  connections = notify_write s.registry key version s.connections;
}

-- A step of the server, with the connection that makes it: a command outside the queue, a command of
-- the queue as EXEC runs it, a new connection and the end of one; or a write, and a flush.
pub data ServerStep : Option ℕ → Server → Server → Type 1 where
  commands :
      {s : Server} {F : Type 0} (conn_id : ℕ) (command : List ℕ) (name : Frame F)
      (args : List (Frame F)) (key_version : Key → ℕ) (tx : TxState) (state : WatchState)
      → Maps.get s.connections conn_id ≡ some state
      → ServerStep (some conn_id) s (
          after s conn_id
            (handle_transaction_command conn_id command name args key_version
              (session s tx state)).0)
  runs :
      {s : Server} (conn_id : ℕ) (queued : QueuedCommand) (tx : TxState) (state : WatchState)
      → Maps.get s.connections conn_id ≡ some state
      → ServerStep
          (some conn_id)
          s
          (after s conn_id (queued_command_response conn_id queued (session s tx state)).0)
  connects :
      {s : Server} (conn_id : ℕ)
      → ServerStep (some conn_id) s (record s {
        connections =
            Maps.insert s.connections conn_id (record { watched_keys = []; dirty = false });
      })
  leaves :
      {s : Server} (conn_id : ℕ)
      → ServerStep (some conn_id) s (record {
        registry = cleanup_conn s.registry conn_id;
        connections = Maps.remove s.connections conn_id;
      })
  written : {s : Server} (key : Key) (version : ℕ) → ServerStep none s (after_write s key version)
  flushed :
      {s : Server} → ServerStep none s (record s { connections = mark_all_dirty s.connections })

pub data ServerReach : Server → Type 1 where
  start : ServerReach start_server
  later : {s t : Server} {actor : Option ℕ} → ServerReach s → ServerStep actor s t → ServerReach t

-- Steps of everything but one connection.
pub data Elsewhere (conn_id : ℕ) (s : Server) : Server → Type 1 where
  here : Elsewhere conn_id s s
  on :
      {t u : Server} {actor : Option ℕ}
      → Elsewhere conn_id s t
      → ServerStep actor t u
      → actor ≢ some conn_id
      → Elsewhere conn_id s u
