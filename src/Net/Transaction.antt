-- ===== src/Net/Transaction.antt =====
-- senko-net/src/commands/transaction.rs: MULTI, EXEC, DISCARD, WATCH and UNWATCH. A result is `ok` or
-- the `err` of a reply in bytes. The store is read for the versions of its keys only, which are an
-- argument; the check of a queued command is one too.
pub mod Registered
pub mod Guard
pub mod Dispatch
pub mod Queue
use senko.Prelude.{
  ℕ, ◌+◌, List, [], ◌∷◌, ◌++◌, Bool, true, false, ◌&&◌, ◌||◌, Option, none, some, leb,
  if◌then◌else◌, map,
}
use senko.Prelude.Equality.{bytes_beq}
use senko.Proto.Frame.{Frame, simple_string, bulk_string, blob_error, verbatim_string}
use senko.Proto.Number.{is_utf8}
use senko.Proto.Serializer.{write_simple_string, write_error}
use senko.Net.Watch.{
  Key, QueuedCommand, TxState, no_tx, multi, WatchState, WatchRegistry, watch, unwatch,
}
use Prim.Native.Char.{code}
use Prim.Native.String.{String}

abbrev pub bytes : String → List ℕ
bytes String.[] = []
bytes (String.◌∷◌ c s) = code c ∷ bytes s

pub data Result (A : Type 0) : Type 0 where
  ok : A → Result A
  err : List ℕ → Result A

pub data TransactionCommandResult : Type 0 where
  not_handled : TransactionCommandResult
  respond : List ℕ → TransactionCommandResult
  exec : List QueuedCommand → TransactionCommandResult

-- What a command of a connection reads and changes.
pub record Session : Type 0 where
  pub tx_state : TxState
  pub registry : WatchRegistry
  pub watch_state : WatchState

-- `eq_ignore_ascii_case`.
abbrev ascii_lower : ℕ → ℕ
ascii_lower b = if leb b'A' b && leb b b'Z' then b + 32 else b

unfoldable pub eq_ascii : List ℕ → List ℕ → Bool
eq_ascii left right = bytes_beq (map ascii_lower left) (map ascii_lower right)

unfoldable pub error_message : List ℕ → List ℕ
error_message message = write_error message

abbrev pub simple : String → Result TransactionCommandResult
simple text = ok (respond (write_simple_string (bytes text)))

abbrev pub refuse : {A : Type 0} → String → Result A
refuse text = err (error_message (bytes text))

abbrev pub null_array : List ℕ
null_array = bytes "*-1\r\n"

unfoldable pub clear_watch_state : ℕ → Session → Session
clear_watch_state conn_id s = record s {
  registry = unwatch s.registry conn_id;
  watch_state = record { watched_keys = []; dirty = false };
}

abbrev key_of : Option (List ℕ) → Result Key
key_of none = refuse "ERR command arguments must be strings"
key_of (some value) = if is_utf8 value then ok value else refuse "ERR invalid UTF-8 key"

abbrev cons_frame : Option (List ℕ) → Result (List (List ℕ)) → Result (List (List ℕ))
cons_frame none rest = refuse "ERR command arguments must be strings"
cons_frame (some value) (ok values) = ok (value ∷ values)
cons_frame (some value) (err reply) = err reply

module _ {F : Type 0} where
  unfoldable pub frame_bytes : Frame F → Option (List ℕ)
  frame_bytes (bulk_string value) = some value
  frame_bytes (simple_string value) = some value
  frame_bytes (blob_error value) = some value
  frame_bytes (verbatim_string format value) = some value
  frame_bytes _ = none

  unfoldable pub parse_compact_key : Frame F → Result Key
  parse_compact_key frame = key_of (frame_bytes frame)

  unfoldable pub owned_command_frames : List (Frame F) → Result (List (List ℕ))
  owned_command_frames [] = ok []
  owned_command_frames (frame ∷ frames) =
      cons_frame (frame_bytes frame) (owned_command_frames frames)

  abbrev pub no_args : List (Frame F) → Bool
  no_args [] = true
  no_args (arg ∷ args) = false

abbrev pub Step : Type 0
Step = Session × Result TransactionCommandResult

abbrev pub begin_multi : TxState → Session → Step
begin_multi no_tx s = (record s { tx_state = multi [] false }, simple "OK")
begin_multi (multi queue error) s = (s, refuse "ERR MULTI calls can not be nested")

abbrev pub discard_tx : TxState → ℕ → Session → Step
discard_tx no_tx conn_id s = (s, refuse "ERR DISCARD without MULTI")
discard_tx (multi queue error) conn_id s =
    (clear_watch_state conn_id (record s { tx_state = no_tx }), simple "OK")

-- `queue_local_response`.
abbrev pub queue_local : QueuedCommand → TxState → TxState
queue_local queued no_tx = no_tx
queue_local queued (multi queue error) = multi (queue ++ (queued ∷ [])) error

abbrev queue_unwatch : Result (List (List ℕ)) → Session → Step
queue_unwatch (err reply) s = (s, err reply)
queue_unwatch (ok frames) s = (
  record s {
    tx_state =
        queue_local (record { name = bytes "UNWATCH"; frames = frames; response_override = none })
          s.tx_state;
  },
  simple "QUEUED",
)

abbrev pub unwatch_in : TxState → ℕ → Result (List (List ℕ)) → Session → Step
unwatch_in no_tx conn_id frames s = (clear_watch_state conn_id s, simple "OK")
unwatch_in (multi queue error) conn_id frames s = queue_unwatch frames s

-- `existing.1 = version`, or a new key.
unfoldable pub set_version : List (Key × ℕ) → Key → ℕ → List (Key × ℕ)
set_version [] key version = (key, version) ∷ []
set_version ((k, v) ∷ watched) key version =
    if bytes_beq k key then (k, version) ∷ watched else (k, v) ∷ set_version watched key version

abbrev pub watch_key : ℕ → Key → ℕ → Session → Session
watch_key conn_id key version s = record s {
  registry = watch s.registry conn_id key version;
  watch_state = record {
    watched_keys = set_version s.watch_state.watched_keys key version;
    dirty = s.watch_state.dirty;
  };
}

-- The loop of WATCH, on the keys that its arguments hold.
unfoldable pub watch_keys : ℕ → (Key → ℕ) → List (Result Key) → Session → Step
watch_keys conn_id key_version [] s = (s, simple "OK")
watch_keys conn_id key_version (err reply ∷ keys) s = (s, err reply)
watch_keys conn_id key_version (ok key ∷ keys) s =
    watch_keys conn_id key_version keys (watch_key conn_id key (key_version key) s)

abbrev pub watch_in : TxState → ℕ → (Key → ℕ) → List (Result Key) → Session → Step
watch_in no_tx conn_id key_version keys s = watch_keys conn_id key_version keys s
watch_in (multi queue error) conn_id key_version keys s = (
  record s {
    tx_state =
        queue_local
          (record {
            name = bytes "WATCH";
            frames = [];
            response_override =
                some (error_message (bytes "ERR WATCH inside MULTI is not allowed"));
          })
          s.tx_state;
  },
  simple "QUEUED",
)

-- EXEC takes the transaction off first.
unfoldable pub exec_tx : TxState → ℕ → Session → Step
exec_tx no_tx conn_id s = (record s { tx_state = no_tx }, refuse "ERR EXEC without MULTI")
exec_tx (multi queue error) conn_id s =
    if s.watch_state.dirty
    then (clear_watch_state conn_id (record s { tx_state = no_tx }), ok (respond null_array))
    else if error
    then (
      clear_watch_state conn_id (record s { tx_state = no_tx }),
      refuse "EXECABORT Transaction discarded because of previous errors.",
    )
    else (record s { tx_state = no_tx }, ok (exec queue))

module _ {F : Type 0} where
  -- The frames are the command's name and its arguments.
  unfoldable pub handle_transaction_command :
      ℕ → List ℕ → Frame F → List (Frame F) → (Key → ℕ) → Session → Step
  handle_transaction_command conn_id command name args key_version s =
      if eq_ascii command (bytes "MULTI")
      then (if no_args args
          then begin_multi s.tx_state s
          else (s, refuse "ERR wrong number of arguments for 'multi' command"))
      else if eq_ascii command (bytes "DISCARD")
      then (if no_args args
          then discard_tx s.tx_state conn_id s
          else (s, refuse "ERR wrong number of arguments for 'discard' command"))
      else if eq_ascii command (bytes "UNWATCH")
      then (if no_args args
          then unwatch_in s.tx_state conn_id (owned_command_frames (name ∷ args)) s
          else (s, refuse "ERR wrong number of arguments for 'unwatch' command"))
      else if eq_ascii command (bytes "WATCH")
      then (if no_args args
          then (s, refuse "ERR wrong number of arguments for 'watch' command")
          else watch_in s.tx_state conn_id key_version (map parse_compact_key args) s)
      else if eq_ascii command (bytes "EXEC")
      then (if no_args args
          then exec_tx s.tx_state conn_id s
          else (s, refuse "ERR wrong number of arguments for 'exec' command"))
      else (s, ok not_handled)

-- The name of a queued command is empty when it is no UTF-8.
abbrev queued_name : List ℕ → List ℕ
queued_name command = if is_utf8 command then command else []

-- The queue takes the command also when it is refused, and the transaction is then in error.
abbrev pub push_command : TxState → QueuedCommand → Option (List ℕ) → TxState × Result (List ℕ)
push_command no_tx queued refusal = (no_tx, refuse "ERR EXEC without MULTI")
push_command (multi queue error) queued none =
    (multi (queue ++ (queued ∷ [])) error, ok (write_simple_string (bytes "QUEUED")))
push_command (multi queue error) queued (some reply) =
    (multi (queue ++ (queued ∷ [])) true, err reply)

abbrev pub queued_command : List ℕ → List (List ℕ) → Option (List ℕ) → QueuedCommand
queued_command command frames refusal = record {
  name = queued_name command;
  frames = frames;
  response_override = refusal;
}

abbrev queue_owned :
    List ℕ → Result (List (List ℕ)) → Option (List ℕ) → TxState → TxState × Result (List ℕ)
queue_owned command (err reply) refusal tx = (tx, err reply)
queue_owned command (ok frames) refusal tx =
    push_command tx (queued_command command frames refusal) refusal

module _ {F : Type 0} (validate_queued_command : List ℕ → List (Frame F) → Option (List ℕ)) where
  unfoldable pub queue_transaction_command :
      List ℕ → List (Frame F) → TxState → TxState × Result (List ℕ)
  queue_transaction_command command frames tx =
      queue_owned command (owned_command_frames frames) (validate_queued_command command frames) tx

unfoldable pub should_execute_immediately_in_multi : List ℕ → Bool
should_execute_immediately_in_multi command =
    eq_ascii command (bytes "EXEC")
    || eq_ascii command (bytes "DISCARD")
    || eq_ascii command (bytes "MULTI")
    || eq_ascii command (bytes "QUIT")
    || eq_ascii command (bytes "RESET")
    || eq_ascii command (bytes "HELLO")
    || eq_ascii command (bytes "AUTH")
    || eq_ascii command (bytes "CLIENT")
    || eq_ascii command (bytes "ACL")
    || eq_ascii command (bytes "CLUSTER")
    || eq_ascii command (bytes "WATCH")
    || eq_ascii command (bytes "UNWATCH")

abbrev pub queued_response : Option (List ℕ) → ℕ → List ℕ → Session → Session × Option (List ℕ)
queued_response (some response) conn_id name s = (s, some response)
queued_response none conn_id name s =
    if eq_ascii name (bytes "UNWATCH")
    then (clear_watch_state conn_id s, some (write_simple_string (bytes "OK")))
    else (s, none)

unfoldable pub queued_command_response : ℕ → QueuedCommand → Session → Session × Option (List ℕ)
queued_command_response conn_id queued s =
    queued_response queued.response_override conn_id queued.name s
