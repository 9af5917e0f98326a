-- ===== src/Net/Transaction/Queue.antt =====
-- What EXEC makes of the commands that senko-net/src/commands/transaction.rs has queued since MULTI.
use senko.Prelude.{ℕ, List, [], ◌∷◌, Bool, Option, not, map}
use senko.Proto.Frame.{Frame, bulk_string}
use senko.Net.Watch.{Key, QueuedCommand}
use senko.Net.Transaction.{Session, should_execute_immediately_in_multi, Step, queued_command}
use senko.Net.Transaction.Dispatch.{dispatch_frame}

-- A command as a client sends it, in bulk strings: its name and its arguments.
abbrev pub Command : Type 0
Command = List ℕ × List (List ℕ)

abbrev pub is_queued : Command → Bool
is_queued c = not (should_execute_immediately_in_multi c.0)

module _ {F : Type 0} (validate : List ℕ → List (Frame F) → Option (List ℕ)) where
  abbrev pub refusal : Command → Option (List ℕ)
  refusal (name, args) = validate name (bulk_string name ∷ map bulk_string args)

  abbrev pub as_queued : Command → QueuedCommand
  as_queued (name, args) = queued_command name (name ∷ args) (refusal (name, args))

module _ {F : Type 0} (validate : List ℕ → List (Frame F) → Option (List ℕ))
    (execute : List ℕ → List (Frame F) → Session → Step) (conn_id : ℕ) (key_version : Key → ℕ) where
  abbrev pub send : Command → Session → Step
  send (name, args) s =
      dispatch_frame validate execute conn_id name (bulk_string name) (map bulk_string args)
        key_version s

  -- The commands of a client, one after the other.
  abbrev pub send_all : List Command → Session → Session
  send_all [] s = s
  send_all (c ∷ commands) s = send_all commands (send c s).0
