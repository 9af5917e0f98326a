-- ===== src/Net/Transaction/Dispatch.antt =====
-- senko-net/src/connection.rs: which commands of a connection the transaction takes. The checks of the
-- permissions before it are left out, the other commands run by an argument, and EXEC answers with
-- the queue that is then run.
use senko.Prelude.{ℕ, List, ◌∷◌, Option, if◌then◌else◌}
use senko.Proto.Frame.{Frame}
use senko.Net.Watch.{Key, TxState, no_tx, multi}
use senko.Net.Transaction.{
  Session, Step, Result, ok, err, TransactionCommandResult, not_handled, respond,
  handle_transaction_command, queue_transaction_command, should_execute_immediately_in_multi,
}

abbrev pub as_response : Result (List ℕ) → Result TransactionCommandResult
as_response (ok response) = ok (respond response)
as_response (err reply) = err reply

module _ {F : Type 0} (validate_queued_command : List ℕ → List (Frame F) → Option (List ℕ))
    (execute_immediate_command : List ℕ → List (Frame F) → Session → Step) where
  -- The queue takes what does not run at once.
  abbrev pub queue_or_execute : List ℕ → Frame F → List (Frame F) → TxState → Session → Step
  queue_or_execute command name args no_tx s = execute_immediate_command command args s
  queue_or_execute command name args (multi queue error) s =
      if should_execute_immediately_in_multi command
      then execute_immediate_command command args s
      else let (tx, response) =
          queue_transaction_command validate_queued_command command (name ∷ args) s.tx_state in
        (record s { tx_state = tx }, as_response response)

  abbrev pub unless_handled : List ℕ → Frame F → List (Frame F) → Step → Step
  unless_handled command name args (s, ok not_handled) =
      queue_or_execute command name args s.tx_state s
  unless_handled command name args step = step

  unfoldable pub dispatch_frame : ℕ → List ℕ → Frame F → List (Frame F) → (Key → ℕ) → Session → Step
  dispatch_frame conn_id command name args key_version s =
      unless_handled command name args
        (handle_transaction_command conn_id command name args key_version s)
