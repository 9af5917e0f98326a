-- ===== src/Net/Transaction/Guard.antt =====
-- The connections of one shard, with the registry that they share: what a watched key guards in
-- senko-net/src/commands/transaction.rs.
use senko.Prelude.{
  ℕ, ◌≡◌, ◌≢◌, refl, sym, ap, ◌∙◌, List, [], ◌∷◌, Bool, true, false, Option, none, some, ◌==◌,
  arith, Bool-cases, inl, inr,
}
use mathlib.Core.Path.{subst}
use senko.Prelude.Equality.{nat_eq, bytes_eq}
use senko.Prelude.Maps
use senko.Prelude.Maps.{get-insert, get-remove}
use senko.Proto.Frame.{Frame}
use senko.Net.Watch.{
  Key, TxState, multi, QueuedCommand, WatchState, ConnectionMap, mark_all_dirty, any_stale,
}
use senko.Net.Watch.Marks.{
  is_watching, watches, marked, marked_state, IsRegistered, get-notify_write,
}
use senko.Net.Transaction.{
  Session, ok, respond, null_array, handle_transaction_command, queued_command_response, bytes,
  eq_ascii, exec_tx,
}
use senko.Net.Transaction.Registered.{
  Keeps, Keeps-handle_transaction_command, Keeps-queued_command_response,
}
use senko.Net.Watch.Registry.{is_watching-cleanup_conn}
use senko.Net.Server.{
  Server, ServerStep, ServerReach, Elsewhere, session, after_write, commands, runs, connects,
  leaves, written, flushed, start, later, here, on,
}

get-mark_all_dirty :
    (connections : ConnectionMap) (i : ℕ) (state : WatchState)
    → Maps.get (mark_all_dirty connections) i ≡ some state
    → (old : WatchState) × (Maps.get connections i ≡ some old)
      × (state ≡ record old { dirty = true })
unfolding mark_all_dirty Maps.get
get-mark_all_dirty [] i state h = absurd cc
get-mark_all_dirty ((j, old) ∷ connections) i state h = elim (Bool-cases (j == i)) [
  | inl same ↦
      let found : some (record old { dirty = true }) ≡ some state = rw same at h in
      rw same (old, refl, cc)
  | inr other ↦ rw other (get-mark_all_dirty connections i state (rw other at h))
]

-- A session that keeps the registrations, put back into the server.
after-IsRegistered :
    (s : Server) (conn_id : ℕ) (state : WatchState) (t : Session) (tx : TxState)
    → Maps.get s.connections conn_id ≡ some state
    → Keeps conn_id (session s tx state) t
    → IsRegistered s.registry s.connections
    → IsRegistered t.registry (Maps.insert s.connections conn_id t.watch_state)
after-IsRegistered s conn_id state t tx at (own, others) registered i found key e w =
    let got = sym (get-insert s.connections conn_id i t.watch_state) ∙ e in
    elim (Bool-cases (conn_id == i)) [
      | inl same ↦
          let ci : conn_id ≡ i = ground arith in
          let mine : some t.watch_state ≡ some found = rw same at got in
          let mine' : t.watch_state ≡ found = cc in
          subst (λ j. is_watching t.registry key j ≡ true) ci
            (own (λ k w'. registered conn_id state k at w') key (rw mine' w))
      | inr other ↦ others i key (ground arith) (registered i found key (rw other at got) w)
    ]

marked-some :
    (key : Key) (version : ℕ) (o : Option WatchState) (state : WatchState)
    → marked key version o ≡ some state
    → (old : WatchState) × (o ≡ some old) × (state ≡ marked_state key version old)
marked-some key version none state h = absurd cc
marked-some key version (some old) state h = (old, refl, cc)

-- In every step, each key that a connection watches stays registered.
Step-IsRegistered :
    {s t : Server} {actor : Option ℕ}
    → ServerStep actor s t
    → IsRegistered s.registry s.connections
    → IsRegistered t.registry t.connections
Step-IsRegistered {s} (commands conn_id command name args key_version tx state at) registered i
      found key e w =
    after-IsRegistered s conn_id state
      (handle_transaction_command conn_id command name args key_version (session s tx state)).0 tx
      at
      (Keeps-handle_transaction_command conn_id command name args key_version
        (session s tx state)).kept
      registered i found key e w
Step-IsRegistered {s} (runs conn_id queued tx state at) registered i found key e w =
    after-IsRegistered s conn_id state
      (queued_command_response conn_id queued (session s tx state)).0 tx at
      (Keeps-queued_command_response conn_id queued (session s tx state)) registered i found key e w
Step-IsRegistered {s} (connects conn_id) registered i found key e w =
    let empty : WatchState = record { watched_keys = []; dirty = false } in
    let got = sym (get-insert s.connections conn_id i empty) ∙ e in
    elim (Bool-cases (conn_id == i)) [
      | inl same ↦
          let mine : some empty ≡ some found = rw same at got in
          let mine' : empty ≡ found = cc in
          let none_watched : false ≡ true = ap (λ x. watches x.watched_keys key) mine' ∙ w in
          absurd cc
      | inr other ↦ registered i found key (rw other at got) w
    ]
Step-IsRegistered {s} (leaves conn_id) registered i found key e w =
    let got = sym (get-remove s.connections conn_id i) ∙ e in
    elim (Bool-cases (conn_id == i)) [
      | inl same ↦ let gone : none ≡ some found = rw same at got in absurd cc
      | inr other ↦
          is_watching-cleanup_conn s.registry conn_id i key (ground arith)
            (registered i found key (rw other at got) w)
    ]
Step-IsRegistered {s} (written k version) registered i found key e w =
    let got = sym (get-notify_write s.registry k version s.connections i registered) ∙ e in
    let (old, at, same) = marked-some k version (Maps.get s.connections i) found got in
    registered i old key at (ap (λ x. watches x.watched_keys key) (sym same) ∙ w)
Step-IsRegistered {s} flushed registered i found key e w =
    let (old, at, same) = get-mark_all_dirty s.connections i found e in
    registered i old key at (ap (λ x. watches x.watched_keys key) (sym same) ∙ w)

-- Every key that a connection watches is registered for it, in every state that the server reaches.
pub Reach-IsRegistered : {s : Server} → ServerReach s → IsRegistered s.registry s.connections
unfolding Maps.get
Reach-IsRegistered start = λ i found key e w. absurd cc
Reach-IsRegistered (later reach step) = Step-IsRegistered step (Reach-IsRegistered reach)

abbrev pub IsDirtyAt : ℕ → ConnectionMap → Type 0
IsDirtyAt conn_id connections =
    (state : WatchState) × (Maps.get connections conn_id ≡ some state) × (state.dirty ≡ true)

-- What another connection's step leaves of a connection's state.
insert-IsDirtyAt :
    (connections : ConnectionMap) (conn_id i : ℕ) (state : WatchState)
    → some i ≢ some conn_id
    → IsDirtyAt conn_id connections
    → IsDirtyAt conn_id (Maps.insert connections i state)
insert-IsDirtyAt connections conn_id i state away (old, at, dirty) =
    let other : (i == conn_id) ≡ false = elim (Bool-cases (i == conn_id)) [
      | inl same ↦ let equal : i ≡ conn_id = ground arith in absurd (away (ap some equal))
      | inr other ↦ other
    ] in
    (old, get-insert connections i conn_id state ∙ rw other at, dirty)

abbrev dirtied : WatchState → WatchState
dirtied state = record state { dirty = true }

mark_all_dirty-get :
    (connections : ConnectionMap) (i : ℕ) (old : WatchState)
    → Maps.get connections i ≡ some old
    → Maps.get (mark_all_dirty connections) i ≡ some (record old { dirty = true })
unfolding mark_all_dirty Maps.get
mark_all_dirty-get [] i old h = absurd cc
mark_all_dirty-get ((j, state) ∷ connections) i old h = elim (Bool-cases (j == i)) [
  | inl same ↦
      let found : some state ≡ some old = rw same at h in
      let equal : state ≡ old = cc in rw same (ap (λ w. some (dirtied w)) equal)
  | inr other ↦ rw other (mark_all_dirty-get connections i old (rw other at h))
]

Step-IsDirtyAt :
    {s t : Server} {actor : Option ℕ} (conn_id : ℕ)
    → ServerStep actor s t
    → actor ≢ some conn_id
    → IsRegistered s.registry s.connections
    → IsDirtyAt conn_id s.connections
    → IsDirtyAt conn_id t.connections
Step-IsDirtyAt {s} c (commands i command name args key_version tx state at) away registered dirty =
    insert-IsDirtyAt s.connections c i _ away dirty
Step-IsDirtyAt {s} c (runs i queued tx state at) away registered dirty =
    insert-IsDirtyAt s.connections c i _ away dirty
Step-IsDirtyAt {s} c (connects i) away registered dirty =
    insert-IsDirtyAt s.connections c i _ away dirty
Step-IsDirtyAt {s} c (leaves i) away registered (old, at, dirty) =
    let other : (i == c) ≡ false = elim (Bool-cases (i == c)) [
      | inl same ↦ let equal : i ≡ c = ground arith in absurd (away (ap some equal))
      | inr other ↦ other
    ] in
    (old, get-remove s.connections i c ∙ rw other at, dirty)
Step-IsDirtyAt {s} c (written key version) away registered (old, at, dirty) = (
  marked_state key version old,
  get-notify_write s.registry key version s.connections c registered ∙ ap (marked key version) at,
  rw dirty refl,
)
Step-IsDirtyAt {s} c flushed away registered (old, at, dirty) =
    (record old { dirty = true }, mark_all_dirty-get s.connections c old at, refl)

-- The registrations and the mark, over the others' steps.
Elsewhere-kept :
    (conn_id : ℕ) {s t : Server}
    → Elsewhere conn_id s t
    → IsRegistered s.registry s.connections
    → IsDirtyAt conn_id s.connections
    → IsRegistered t.registry t.connections × IsDirtyAt conn_id t.connections
Elsewhere-kept c here registered dirty = (registered, dirty)
Elsewhere-kept c (on steps step away) registered dirty =
    let (registered', dirty') = Elsewhere-kept c steps registered dirty in
    (Step-IsRegistered step registered', Step-IsDirtyAt c step away registered' dirty')

Elsewhere-IsDirtyAt :
    (conn_id : ℕ) {s t : Server}
    → Elsewhere conn_id s t
    → IsRegistered s.registry s.connections
    → IsDirtyAt conn_id s.connections
    → IsDirtyAt conn_id t.connections
Elsewhere-IsDirtyAt c steps registered dirty = (Elsewhere-kept c steps registered dirty).1

-- A connection watches a key with another version than a write gives it. After that write, and
-- whatever else happens on the other connections, its EXEC runs nothing and answers with the null
-- array.
pub exec-after_write :
    {F : Type 0} (s t : Server) (conn_id : ℕ) (key : Key) (version : ℕ) (state state' : WatchState)
    (queue : List QueuedCommand) (error : Bool) (name : Frame F) (key_version : Key → ℕ)
    → ServerReach s
    → Maps.get s.connections conn_id ≡ some state
    → any_stale key version state.watched_keys ≡ true
    → Elsewhere conn_id (after_write s key version) t
    → Maps.get t.connections conn_id ≡ some state'
    → (handle_transaction_command conn_id
        (bytes "EXEC")
        name
        []
        key_version
        (session t (multi queue error) state')).1
      ≡ ok (respond null_array)
unfolding handle_transaction_command exec_tx eq_ascii
exec-after_write s t conn_id key version state state' queue error name key_version reach at stale
      steps at' =
    let registered = Reach-IsRegistered reach in
    let first : IsDirtyAt conn_id (after_write s key version).connections = (
      marked_state key version state,
      get-notify_write s.registry key version s.connections conn_id registered
          ∙ ap (marked key version) at,
      rw stale (ground arith),
    ) in
    let (last, found, dirty) =
      Elsewhere-IsDirtyAt conn_id steps (Step-IsRegistered (written key version) registered)
        first in
    let same : some last ≡ some state' = sym found ∙ at' in
    let same' : last ≡ state' = cc in
    let now : state'.dirty ≡ true = ap (λ x. x.dirty) (sym same') ∙ dirty in rw now refl
