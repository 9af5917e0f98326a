-- ===== src/Net/Watch/Marks.antt =====
-- Which watch states the writes of senko-net/src/transaction.rs mark.
use senko.Prelude.{
  ℕ, ◌≡◌, refl, sym, ap, ◌∙◌, List, [], ◌∷◌, Bool, true, false, ◌||◌, Option, none, some, ◌==◌,
  if◌then◌else◌, any, arith, Bool-cases, inl, inr,
}
use mathlib.Core.Path.{subst}
use senko.Prelude.Equality.{nat_eq, bytes_beq, bytes_eq}
use senko.Prelude.Maps
use senko.Prelude.Maps.{Map, get-insert, contains}
use senko.Net.Watch.{
  Key, WatchState, WatchRegistry, ConnectionMap, or_default, any_stale, mark_at, notify_all,
  notify_found, notify_write,
}

-- Whether the registry knows that the connection watches the key.
abbrev pub is_watching : WatchRegistry → Key → ℕ → Bool
is_watching r key conn_id = Maps.contains (or_default (Maps.get r.watchers key)) conn_id

-- Whether the connection's own state has the key.
abbrev pub watches : List (Key × ℕ) → Key → Bool
watches watched key = any (λ w. bytes_beq w.0 key) watched

abbrev pub marked_state : Key → ℕ → WatchState → WatchState
marked_state key version state = record state {
  dirty = state.dirty || any_stale key version state.watched_keys;
}

-- A state after a write, whoever is registered.
abbrev pub marked : Key → ℕ → Option WatchState → Option WatchState
marked key version none = none
marked key version (some state) = some (marked_state key version state)

-- Every key that a connection watches is registered.
abbrev pub IsRegistered : WatchRegistry → ConnectionMap → Type 0
IsRegistered r connections =
    (conn_id : ℕ) (state : WatchState) (key : Key)
    → Maps.get connections conn_id ≡ some state
    → watches state.watched_keys key ≡ true
    → is_watching r key conn_id ≡ true

unmarked :
    (key : Key) (version : ℕ) (state : WatchState)
    → (state.dirty || any_stale key version state.watched_keys) ≡ state.dirty
    → state ≡ marked_state key version state
unmarked key version state same =
    ap (λ d. record { watched_keys = state.watched_keys; dirty = d }) (sym same)

at_same :
    (i j : ℕ) (connections : ConnectionMap) (o : Option WatchState)
    → (i == j) ≡ true
    → Maps.get connections i ≡ o
    → Maps.get connections j ≡ o
at_same i j connections o same e = subst (λ k. Maps.get connections k ≡ o) (ground arith) e

module _ (key : Key) (version i : ℕ) (connections : ConnectionMap) (state : WatchState)
    (here : Maps.get connections i ≡ some state) where
  -- A state that the write does not change.
  kept_at :
      (j : ℕ)
      → (state.dirty || any_stale key version state.watched_keys) ≡ state.dirty
      → Maps.get connections j
        ≡ (if i == j then marked key version (Maps.get connections j) else Maps.get connections j)
  kept_at j same = elim (Bool-cases (i == j)) [
    | inl e ↦
        let at = at_same i j connections (some state) e here in
        rw e (at ∙ ap some (unmarked key version state same) ∙ ap (marked key version) (sym at))
    | inr e ↦ rw e refl
  ]

  -- A state that becomes dirty.
  changed_at :
      (j : ℕ)
      → (state.dirty || any_stale key version state.watched_keys) ≡ true
      → Maps.get (Maps.insert connections i (record state { dirty = true })) j
        ≡ (if i == j then marked key version (Maps.get connections j) else Maps.get connections j)
  changed_at j hit = elim (Bool-cases (i == j)) [
    | inl e ↦
        let at = at_same i j connections (some state) e here in
        rw (get-insert connections i j (record state { dirty = true }), e)
          (ap (λ d. some (record state { dirty = d })) (sym hit) ∙ ap (marked key version) (sym at))
    | inr e ↦ rw (get-insert connections i j (record state { dirty = true }), e) refl
  ]

get-mark_at :
    (key : Key) (version i j : ℕ) (connections : ConnectionMap) (o : Option WatchState)
    → Maps.get connections i ≡ o
    → Maps.get (mark_at o key version i connections) j
      ≡ (if i == j then marked key version (Maps.get connections j) else Maps.get connections j)
get-mark_at key version i j connections none e = elim (Bool-cases (i == j)) [
  | inl same ↦
      let ij : i ≡ j = ground arith in
      let at : Maps.get connections j ≡ none = subst (λ k. Maps.get connections k ≡ none) ij e in
      rw same (at ∙ ap (marked key version) (sym at))
  | inr other ↦ rw other refl
]
get-mark_at key version i j connections (some state) e =
    let stale = any_stale key version state.watched_keys in
    elim (Bool-cases state.dirty) [
      | inl dirty ↦ rw dirty (kept_at key version i connections state e j (rw dirty refl))
      | inr clean ↦ elim (Bool-cases stale) [
        | inl hit ↦
            rw (clean, hit) (changed_at key version i connections state e j (rw (clean, hit) refl))
        | inr miss ↦
            rw (clean, miss) (kept_at key version i connections state e j (rw (clean, miss) refl))
      ]
    ]

marked-marked :
    (key : Key) (version : ℕ) (o : Option WatchState)
    → marked key version (marked key version o) ≡ marked key version o
marked-marked key version none = refl
marked-marked key version (some state) =
    let stale = any_stale key version state.watched_keys in
    let twice : (state.dirty || stale || stale) ≡ (state.dirty || stale) = ground arith in
    ap (λ d. some (record { watched_keys = state.watched_keys; dirty = d })) twice

marked_once :
    (key : Key) (version : ℕ) (b c : Bool) (o : Option WatchState)
    → (if c
        then marked key version (if b then marked key version o else o)
        else if b
        then marked key version o
        else o)
      ≡ (if b || c then marked key version o else o)
marked_once key version true true o = marked-marked key version o
marked_once key version true false o = refl
marked_once key version false c o = refl

get-notify_all :
    (key : Key) (version : ℕ) (ids : List ℕ) (connections : ConnectionMap) (j : ℕ)
    → Maps.get (notify_all key version ids connections) j ≡ (
        if Maps.contains ids j
        then marked key version (Maps.get connections j)
        else Maps.get connections j)
unfolding notify_all
get-notify_all key version [] connections j = refl
get-notify_all key version (i ∷ ids) connections j =
    let o = Maps.get connections i in
    let next = mark_at o key version i connections in
    let first = get-mark_at key version i j connections o refl in
    get-notify_all key version ids next j
    ∙ ap (λ v. if Maps.contains ids j then marked key version v else v) first
    ∙ marked_once key version (i == j) (Maps.contains ids j) (Maps.get connections j)

no_watch-any_stale :
    (key : Key) (version : ℕ) (watched : List (Key × ℕ))
    → watches watched key ≡ false
    → any_stale key version watched ≡ false
no_watch-any_stale key version [] h = refl
no_watch-any_stale key version ((k, v) ∷ watched) h =
    ground (arith, no_watch-any_stale key version watched)

get-notify_found :
    (key : Key) (version : ℕ) (found : Option (List ℕ)) (connections : ConnectionMap) (j : ℕ)
    → Maps.get (notify_found found key version connections) j ≡ (
        if Maps.contains (or_default found) j
        then marked key version (Maps.get connections j)
        else Maps.get connections j)
get-notify_found key version none connections j = refl
get-notify_found key version (some ids) connections j = get-notify_all key version ids connections j

-- A connection that is not registered keeps its state.
marked-unregistered :
    (r : WatchRegistry) (key : Key) (version : ℕ) (connections : ConnectionMap) (conn_id : ℕ)
    (o : Option WatchState)
    → IsRegistered r connections
    → is_watching r key conn_id ≡ false
    → Maps.get connections conn_id ≡ o
    → o ≡ marked key version o
marked-unregistered r key version connections conn_id none registered away e = refl
marked-unregistered r key version connections conn_id (some state) registered away e =
    let absent : watches state.watched_keys key ≡ false =
      elim (Bool-cases (watches state.watched_keys key)) [
        | inl present ↦
            let both : true ≡ false = sym (registered conn_id state key e present) ∙ away in
            absurd cc
        | inr absent ↦ absent
      ] in
    let fresh = no_watch-any_stale key version state.watched_keys absent in
    ap some (unmarked key version state (rw fresh (ground arith)))

-- A write through the registry marks the states that a search of all connections would mark: those
-- that watch the key with another version become dirty, and no other state changes. Every key that a
-- connection watches is registered.
pub get-notify_write :
    (r : WatchRegistry) (key : Key) (version : ℕ) (connections : ConnectionMap) (conn_id : ℕ)
    → IsRegistered r connections
    → Maps.get (notify_write r key version connections) conn_id
      ≡ marked key version (Maps.get connections conn_id)
unfolding notify_write
get-notify_write r key version connections conn_id registered =
    get-notify_found key version (Maps.get r.watchers key) connections conn_id
    ∙ elim (Bool-cases (is_watching r key conn_id)) [
      | inl here ↦ rw here refl
      | inr away ↦ rw away (
          marked-unregistered r key version connections conn_id (Maps.get connections conn_id)
            registered away refl)
    ]
