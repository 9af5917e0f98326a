-- ===== src/Net/Watch.antt =====
-- senko-net/src/transaction.rs. Keys are the bytes of their text. The watch states are shared with
-- their connections: the entry of a `ConnectionMap` is the state itself.
pub mod Marks
pub mod Registry
use senko.Prelude.{
  ℕ, ◌≡◌, List, [], ◌∷◌, ◌++◌, Bool, true, false, not, ◌&&◌, ◌||◌, Option, none, some, ◌==◌,
  if◌then◌else◌, any, filter,
}
use senko.Prelude.Equality.{nat_eq, bytes_beq, bytes_eq}
use senko.Prelude.Maps
use senko.Prelude.Maps.{Map}

abbrev pub Key : Type 0
Key = List ℕ

pub record QueuedCommand : Type 0 where
  pub name : List ℕ
  pub frames : List (List ℕ)
  pub response_override : Option (List ℕ)

pub data TxState : Type 0 where
  no_tx : TxState
  multi : List QueuedCommand → Bool → TxState

pub record WatchState : Type 0 where
  pub watched_keys : List (Key × ℕ)
  pub dirty : Bool

abbrev pub ConnectionMap : Type 0
ConnectionMap = Map ℕ WatchState

pub record WatchRegistry : Type 0 where
  pub watchers : Map Key (List ℕ)

abbrev pub or_default : Option (List ℕ) → List ℕ
or_default none = []
or_default (some ids) = ids

-- The version is not read.
unfoldable pub watch : WatchRegistry → ℕ → Key → ℕ → WatchRegistry
watch r conn_id key version =
    let waiters = or_default (Maps.get r.watchers key) in
    record {
      watchers =
          Maps.insert r.watchers key
            (if Maps.contains waiters conn_id then waiters else waiters ++ (conn_id ∷ []));
    }

abbrev pub none_left : List ℕ → Bool
none_left [] = true
none_left (conn_id ∷ conn_ids) = false

-- The two `retain`s.
unfoldable pub retain_watchers : ℕ → Map Key (List ℕ) → Map Key (List ℕ)
retain_watchers conn_id [] = []
retain_watchers conn_id ((key, ids) ∷ watchers) =
    let kept = filter (λ candidate. not (candidate == conn_id)) ids in
    let rest = retain_watchers conn_id watchers in
    if none_left kept then rest else (key, kept) ∷ rest

unfoldable pub unwatch : WatchRegistry → ℕ → WatchRegistry
unwatch r conn_id = record { watchers = retain_watchers conn_id r.watchers }

-- A watched key with another version.
abbrev pub any_stale : Key → ℕ → List (Key × ℕ) → Bool
any_stale key new_version =
    any (λ watched. bytes_beq watched.0 key && not (watched.1 == new_version))

abbrev pub mark_at : Option WatchState → Key → ℕ → ℕ → ConnectionMap → ConnectionMap
mark_at none key new_version conn_id connections = connections
mark_at (some state) key new_version conn_id connections =
    if state.dirty
    then connections
    else if any_stale key new_version state.watched_keys
    then Maps.insert connections conn_id (record state { dirty = true })
    else connections

-- The loop of `notify_write`.
unfoldable pub notify_all : Key → ℕ → List ℕ → ConnectionMap → ConnectionMap
notify_all key new_version [] connections = connections
notify_all key new_version (conn_id ∷ conn_ids) connections =
    notify_all key new_version conn_ids
      (mark_at (Maps.get connections conn_id) key new_version conn_id connections)

abbrev pub notify_found : Option (List ℕ) → Key → ℕ → ConnectionMap → ConnectionMap
notify_found none key new_version connections = connections
notify_found (some conn_ids) key new_version connections =
    notify_all key new_version conn_ids connections

unfoldable pub notify_write : WatchRegistry → Key → ℕ → ConnectionMap → ConnectionMap
notify_write r key new_version connections =
    notify_found (Maps.get r.watchers key) key new_version connections

unfoldable pub cleanup_conn : WatchRegistry → ℕ → WatchRegistry
cleanup_conn r conn_id = unwatch r conn_id

unfoldable pub mark_all_dirty : ConnectionMap → ConnectionMap
mark_all_dirty [] = []
mark_all_dirty ((conn_id, state) ∷ connections) =
    (conn_id, record state { dirty = true }) ∷ mark_all_dirty connections
