-- ===== src/Net/Transaction/Registered.antt =====
-- Every key that a connection watches stays registered, whatever the commands of
-- senko-net/src/commands/transaction.rs and the writes of senko-net/src/transaction.rs do.
use senko.Prelude.{
  ℕ, ◌≡◌, sym, ap, ◌∙◌, List, [], ◌∷◌, Bool, true, false, ◌||◌, Option, none, some, ◌==◌,
  if◌then◌else◌, arith, Bool-cases, inl, inr, map,
}
use mathlib.Core.Path.{subst}
use Prim.Native.String.{String}
use senko.Prelude.Equality.{nat_eq, bytes_beq, bytes_eq, bytes_beq_iff}
use senko.Proto.Frame.{Frame}
use senko.Net.Watch.{Key, TxState, no_tx, multi, QueuedCommand, watch, unwatch}
use senko.Net.Watch.Marks.{is_watching, watches}
use senko.Net.Transaction.{
  Session, Step, TransactionCommandResult, Result, ok, err, handle_transaction_command,
  queued_response, queued_command_response, clear_watch_state, watch_key, watch_keys, set_version,
  bytes, exec_tx, begin_multi, discard_tx, unwatch_in, watch_in, no_args, owned_command_frames,
  parse_compact_key, eq_ascii,
}
use senko.Net.Watch.Registry.{is_watching-retain, is_watching-watch, is_watching-watch_self}

-- The connection's own keys are registered, in a session.
abbrev pub IsTracked : ℕ → Session → Type 0
IsTracked conn_id s =
    (key : Key)
    → watches s.watch_state.watched_keys key ≡ true
    → is_watching s.registry key conn_id ≡ true

-- A command keeps the connection's own keys registered, and every registration of another.
abbrev pub Keeps : ℕ → Session → Session → Type 0
Keeps conn_id s t =
    (IsTracked conn_id s → IsTracked conn_id t)
    × ((i : ℕ) (key : Key)
        → (i == conn_id) ≡ false
        → is_watching s.registry key i ≡ true
        → is_watching t.registry key i ≡ true)

Keeps-refl : (conn_id : ℕ) (s : Session) → Keeps conn_id s s
Keeps-refl conn_id s = (λ h. h, λ i key away h. h)

Keeps-trans :
    (conn_id : ℕ) (s t u : Session) → Keeps conn_id s t → Keeps conn_id t u → Keeps conn_id s u
Keeps-trans conn_id s t u (own, others) (own', others') =
    (λ h. own' (own h), λ i key away h. others' i key away (others i key away h))

Keeps-clear_watch_state :
    (conn_id : ℕ) (s : Session) → Keeps conn_id s (clear_watch_state conn_id s)
unfolding clear_watch_state unwatch
Keeps-clear_watch_state conn_id s = (
  λ h key w. absurd cc,
  λ i key away h. is_watching-retain s.registry.watchers conn_id i key away h,
)

watches-set_version :
    (watched : List (Key × ℕ)) (k key : Key) (version : ℕ)
    → watches (set_version watched k version) key ≡ (bytes_beq k key || watches watched key)
unfolding set_version
watches-set_version [] k key version = ground arith
watches-set_version ((j, v) ∷ watched) k key version = elim (Bool-cases (bytes_beq j k)) [
  | inl same ↦
      let equal : j ≡ k = (bytes_beq_iff j k).0 same in
      let at : bytes_beq j key ≡ bytes_beq k key = ap (λ x. bytes_beq x key) equal in
      rw (same, at) (ground arith)
  | inr other ↦ rw (other, watches-set_version watched k key version) (ground arith)
]

Keeps-watch_key :
    (conn_id : ℕ) (key : Key) (version : ℕ) (s : Session)
    → Keeps conn_id s (watch_key conn_id key version s)
Keeps-watch_key conn_id k version s = (
  λ h key w. elim (Bool-cases (bytes_beq k key)) [
    | inl same ↦
        let equal : k ≡ key = (bytes_beq_iff k key).0 same in
        subst (λ x. is_watching (watch s.registry conn_id k version) x conn_id ≡ true) equal
          (is_watching-watch_self s.registry conn_id version k)
    | inr other ↦
        let before : watches s.watch_state.watched_keys key ≡ true =
          ap (λ b. b || watches s.watch_state.watched_keys key) (sym other)
          ∙ sym (watches-set_version s.watch_state.watched_keys k key version)
          ∙ w in
        is_watching-watch s.registry conn_id version conn_id k key (h key before)
  ],
  λ i key away h. is_watching-watch s.registry conn_id version i k key h,
)

Keeps-watch_keys :
    (conn_id : ℕ) (key_version : Key → ℕ) (keys : List (Result Key)) (s : Session)
    → Keeps conn_id s (watch_keys conn_id key_version keys s).0
unfolding watch_keys
Keeps-watch_keys conn_id key_version [] s = Keeps-refl conn_id s
Keeps-watch_keys conn_id key_version (err reply ∷ keys) s = Keeps-refl conn_id s
Keeps-watch_keys conn_id key_version (ok key ∷ keys) s =
    let next = watch_key conn_id key (key_version key) s in
    Keeps-trans conn_id s next (watch_keys conn_id key_version keys next).0
      (Keeps-watch_key conn_id key (key_version key) s)
      (Keeps-watch_keys conn_id key_version keys next)

-- The same of a command's step.
pub record StepKeeps (conn_id : ℕ) (s : Session) (step : Step) : Type 0 where
  pub kept : Keeps conn_id s step.0

kept_as :
    (conn_id : ℕ) (s : Session) (step : Step) → Keeps conn_id s step.0 → StepKeeps conn_id s step
kept_as conn_id s step h = record { kept = h }

Keeps-if :
    (conn_id : ℕ) (s : Session) (b : Bool) (x y : Step)
    → StepKeeps conn_id s x
    → StepKeeps conn_id s y
    → StepKeeps conn_id s (if b then x else y)
Keeps-if conn_id s true x y p q = p
Keeps-if conn_id s false x y p q = q

Keeps-begin_multi :
    (conn_id : ℕ) (tx : TxState) (s : Session) → StepKeeps conn_id s (begin_multi tx s)
Keeps-begin_multi conn_id no_tx s = kept_as conn_id s _ (Keeps-refl conn_id s)
Keeps-begin_multi conn_id (multi queue error) s = kept_as conn_id s _ (Keeps-refl conn_id s)

Keeps-discard_tx :
    (conn_id : ℕ) (tx : TxState) (s : Session) → StepKeeps conn_id s (discard_tx tx conn_id s)
Keeps-discard_tx conn_id no_tx s = kept_as conn_id s _ (Keeps-refl conn_id s)
Keeps-discard_tx conn_id (multi queue error) s =
    kept_as conn_id s _ (Keeps-clear_watch_state conn_id (record s { tx_state = no_tx }))

Keeps-unwatch_in :
    (conn_id : ℕ) (tx : TxState) (frames : Result (List (List ℕ))) (s : Session)
    → StepKeeps conn_id s (unwatch_in tx conn_id frames s)
Keeps-unwatch_in conn_id no_tx frames s = kept_as conn_id s _ (Keeps-clear_watch_state conn_id s)
Keeps-unwatch_in conn_id (multi queue error) (ok frames) s =
    kept_as conn_id s _ (Keeps-refl conn_id s)
Keeps-unwatch_in conn_id (multi queue error) (err reply) s =
    kept_as conn_id s _ (Keeps-refl conn_id s)

Keeps-watch_in :
    (conn_id : ℕ) (tx : TxState) (key_version : Key → ℕ) (keys : List (Result Key)) (s : Session)
    → StepKeeps conn_id s (watch_in tx conn_id key_version keys s)
Keeps-watch_in conn_id no_tx key_version keys s =
    kept_as conn_id s _ (Keeps-watch_keys conn_id key_version keys s)
Keeps-watch_in conn_id (multi queue error) key_version keys s =
    kept_as conn_id s _ (Keeps-refl conn_id s)

Keeps-exec_tx :
    (conn_id : ℕ) (tx : TxState) (s : Session) → StepKeeps conn_id s (exec_tx tx conn_id s)
unfolding exec_tx
Keeps-exec_tx conn_id no_tx s = kept_as conn_id s _ (Keeps-refl conn_id s)
Keeps-exec_tx conn_id (multi queue error) s =
    let cleared = Keeps-clear_watch_state conn_id (record s { tx_state = no_tx }) in
    Keeps-if conn_id s s.watch_state.dirty _ _ (kept_as conn_id s _ cleared) (
      Keeps-if conn_id s error _ _ (kept_as conn_id s _ cleared)
        (kept_as conn_id s _ (Keeps-refl conn_id s)))

module _ {F : Type 0} where
  -- A command keeps what its connection watches registered, and the other connections' keys.
  pub Keeps-handle_transaction_command :
      (conn_id : ℕ) (command : List ℕ) (name : Frame F) (args : List (Frame F))
      (key_version : Key → ℕ) (s : Session)
      → StepKeeps conn_id s (handle_transaction_command conn_id command name args key_version s)
  unfolding handle_transaction_command
  Keeps-handle_transaction_command conn_id command name args key_version s =
      let is : String → Bool = λ text. eq_ascii command (bytes text) in
      let same : (result : Result TransactionCommandResult) → StepKeeps conn_id s (s, result) =
        λ result. kept_as conn_id s (s, result) (Keeps-refl conn_id s) in
      Keeps-if conn_id s (is "MULTI") _ _
        (Keeps-if conn_id s (no_args args) _ _ (Keeps-begin_multi conn_id s.tx_state s) (same _))
        (Keeps-if conn_id s (is "DISCARD") _ _
          (Keeps-if conn_id s (no_args args) _ _ (Keeps-discard_tx conn_id s.tx_state s) (same _))
          (Keeps-if conn_id s (is "UNWATCH") _ _
            (Keeps-if conn_id s (no_args args) _ _
              (Keeps-unwatch_in conn_id s.tx_state (owned_command_frames (name ∷ args)) s) (same _))
            (Keeps-if conn_id s (is "WATCH") _ _
              (Keeps-if conn_id s (no_args args) _ _ (same _)
                (Keeps-watch_in conn_id s.tx_state key_version (map parse_compact_key args) s))
              (Keeps-if conn_id s (is "EXEC") _ _
                (Keeps-if conn_id s (no_args args) _ _ (Keeps-exec_tx conn_id s.tx_state s)
                  (same _))
                (same _)))))

Keeps-queued_response :
    (conn_id : ℕ) (override : Option (List ℕ)) (name : List ℕ) (s : Session)
    → Keeps conn_id s (queued_response override conn_id name s).0
Keeps-queued_response conn_id (some response) name s = Keeps-refl conn_id s
Keeps-queued_response conn_id none name s = elim (Bool-cases (eq_ascii name (bytes "UNWATCH"))) [
  | inl is_unwatch ↦ rw is_unwatch (Keeps-clear_watch_state conn_id s)
  | inr other ↦ rw other (Keeps-refl conn_id s)
]

-- A command of the queue does so too.
pub Keeps-queued_command_response :
    (conn_id : ℕ) (queued : QueuedCommand) (s : Session)
    → Keeps conn_id s (queued_command_response conn_id queued s).0
unfolding queued_command_response
Keeps-queued_command_response conn_id queued s =
    Keeps-queued_response conn_id queued.response_override queued.name s
