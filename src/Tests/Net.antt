-- ===== src/Tests/Net.antt =====
-- Watched keys and transactions.
use senko.Prelude.{
  ℕ, ◌≡◌, ◌∙◌, ap, if◌then◌else◌, refl, List, [], ◌∷◌, true, false, Option, none, some,
}
use senko.Prelude.Equality.{nat_eq, bytes_eq}
use senko.Prelude.Maps
use senko.Prelude.Maps.{insert}
use senko.Proto.Frame.{Frame, bulk_string}
use senko.Proto.Number.{is_utf8}
use senko.Net.Watch.{Key, no_tx, multi, WatchState, notify_write}
use senko.Net.Watch.Marks.{marked, get-notify_write, IsRegistered}
use senko.Net.Transaction.{
  Session, bytes, ok, respond, null_array, handle_transaction_command, eq_ascii, watch_keys,
  parse_compact_key, frame_bytes, set_version, Step,
}
use senko.Net.Server.{
  Server, ServerReach, start_server, session, after, after_write, connects, commands, start, later,
  here,
}
use senko.Net.Transaction.Guard.{Reach-IsRegistered, exec-after_write}
use senko.Net.Transaction.Queue.{Command}

abbrev word : List ℕ → Frame ℕ
word text = bulk_string text

abbrev versions : Key → ℕ
versions key = 7

abbrev nothing_watched : WatchState
nothing_watched = record { watched_keys = []; dirty = false }

-- Connection 1, and after its WATCH.
abbrev connected : Server
connected = record start_server {
  connections = Maps.insert start_server.connections 1 nothing_watched;
}

abbrev watching : Server
watching =
    after connected 1
      (handle_transaction_command 1 (bytes "watch") (word (bytes "watch")) (word (bytes "k") ∷ [])
        versions (session connected no_tx nothing_watched)).0

watching-Reach : ServerReach watching
unfolding Maps.get Maps.insert
watching-Reach = later (later start (connects 1)) (
    commands 1 (bytes "watch") (word (bytes "watch")) (word (bytes "k") ∷ []) versions no_tx
      nothing_watched refl)

abbrev watched_k : WatchState
watched_k = record { watched_keys = (bytes "k", 7) ∷ []; dirty = false }

watching_at : Maps.get watching.connections 1 ≡ some watched_k
unfolding Maps.get Maps.insert handle_transaction_command eq_ascii watch_keys parse_compact_key
    frame_bytes set_version is_utf8
watching_at = refl

Reach-IsRegistered_example : IsRegistered watching.registry watching.connections
Reach-IsRegistered_example = Reach-IsRegistered {s = watching} watching-Reach

get-notify_write_example :
    Maps.get (notify_write watching.registry (bytes "k") 8 watching.connections) 1
    ≡ marked (bytes "k") 8 (Maps.get watching.connections 1)
get-notify_write_example =
    get-notify_write watching.registry (bytes "k") 8 watching.connections 1
      (Reach-IsRegistered {s = watching} watching-Reach)

-- The value that the connection has after the write.
abbrev dirty_k : WatchState
dirty_k = record watched_k { dirty = true }

after_write_at : Maps.get (after_write watching (bytes "k") 8).connections 1 ≡ some dirty_k
after_write_at =
    get-notify_write watching.registry (bytes "k") 8 watching.connections 1
      (Reach-IsRegistered {s = watching} watching-Reach)
    ∙ ap (marked (bytes "k") 8) watching_at

exec-after_write_example :
    (handle_transaction_command 1
      (bytes "EXEC")
      (word (bytes "EXEC"))
      []
      versions
      (session (after_write watching (bytes "k") 8) (multi [] false) dirty_k)).1
    ≡ ok (respond null_array)
exec-after_write_example =
    exec-after_write watching (after_write watching (bytes "k") 8) 1 (bytes "k") 8 watched_k dirty_k
      [] false (word (bytes "EXEC")) versions watching-Reach watching_at refl here after_write_at

-- A check that refuses the command `bad`.
abbrev refuses_bad : List ℕ → List (Frame ℕ) → Option (List ℕ)
refuses_bad command frames =
    if eq_ascii command (bytes "bad") then some (bytes "-ERR unknown command") else none

abbrev idle_session : Session
idle_session = session start_server no_tx nothing_watched

abbrev two_commands : List Command
two_commands = (bytes "get", bytes "k" ∷ []) ∷ (bytes "ping", []) ∷ []

-- The commands outside a transaction, which the run does not come to.
abbrev answers_ok : List ℕ → List (Frame ℕ) → Session → Step
answers_ok command args s = (s, ok (respond (bytes "+OK")))
