-- ===== src/Net/Watch/Registry.antt =====
-- What the registry of senko-net/src/transaction.rs knows after each of its operations.
use senko.Prelude.{
  ℕ, ◌≡◌, refl, sym, ◌∙◌, List, [], ◌∷◌, ◌++◌, true, false, not, ◌||◌, ◌==◌, if◌then◌else◌, filter,
  arith, Bool-cases, inl, inr,
}
use mathlib.Core.Path.{subst}
use senko.Prelude.Equality.{nat_eq, bytes_beq, bytes_eq, bytes_beq_iff}
use senko.Prelude.Maps
use senko.Prelude.Maps.{Map, get-insert, get-remove, contains}
use senko.Net.Watch.{
  none_left, Key, WatchRegistry, or_default, watch, unwatch, retain_watchers, cleanup_conn,
}
use senko.Net.Watch.Marks.{is_watching}

contains-append :
    (ids more : List ℕ) (i : ℕ)
    → Maps.contains (ids ++ more) i ≡ (Maps.contains ids i || Maps.contains more i)
contains-append [] more i = refl
contains-append (j ∷ ids) more i = ground (arith, contains-append ids more i)

contains-filter :
    (ids : List ℕ) (c i : ℕ)
    → (i == c) ≡ false
    → Maps.contains ids i ≡ true
    → Maps.contains (filter (λ j. not (j == c)) ids) i ≡ true
contains-filter [] c i away h = h
contains-filter (j ∷ ids) c i away h = ground (arith, contains-filter ids c i away)

contains-kept : (ids : List ℕ) (i : ℕ) → Maps.contains ids i ≡ true → none_left ids ≡ false
contains-kept [] i h = absurd cc
contains-kept (j ∷ ids) i h = refl

-- A registration of another connection survives `unwatch`.
pub is_watching-retain :
    (watchers : Map Key (List ℕ)) (c i : ℕ) (key : Key)
    → (i == c) ≡ false
    → Maps.contains (or_default (Maps.get watchers key)) i ≡ true
    → Maps.contains (or_default (Maps.get (retain_watchers c watchers) key)) i ≡ true
unfolding retain_watchers Maps.get
is_watching-retain [] c i key away h = h
is_watching-retain ((k, ids) ∷ watchers) c i key away h =
    let kept = filter (λ j. not (j == c)) ids in
    let rest = is_watching-retain watchers c i key away in
    elim (Bool-cases (bytes_beq k key)) [
      | inl same ↦
          let still : Maps.contains kept i ≡ true = contains-filter ids c i away (rw same at h) in
          let left = contains-kept kept i still in rw (left, same) still
      | inr other ↦ elim (Bool-cases (none_left kept)) [
        | inl gone ↦ rw gone (rest (rw other at h))
        | inr left ↦ rw (left, other) (rest (rw other at h))
      ]
    ]

abbrev added : List ℕ → ℕ → List ℕ
added ids c = if Maps.contains ids c then ids else ids ++ (c ∷ [])

contains-added :
    (ids : List ℕ) (c i : ℕ) → Maps.contains (added ids c) i ≡ (Maps.contains ids i || c == i)
contains-added ids c i = elim (Bool-cases (Maps.contains ids c)) [
  | inl here ↦ elim (Bool-cases (c == i)) [
    | inl same ↦
        let ci : c ≡ i = ground arith in
        let at : Maps.contains ids i ≡ true = subst (λ j. Maps.contains ids j ≡ true) ci here in
        rw (here, same, at) refl
    | inr other ↦ rw (here, other) (ground arith)
  ]
  | inr new ↦ rw new (contains-append ids (c ∷ []) i ∙ ground arith)
]

pub is_watching-watch :
    (r : WatchRegistry) (c version i : ℕ) (k key : Key)
    → is_watching r key i ≡ true
    → is_watching (watch r c k version) key i ≡ true
unfolding watch
is_watching-watch r c version i k key h =
    let ids = or_default (Maps.get r.watchers k) in
    elim (Bool-cases (bytes_beq k key)) [
      | inl same ↦
          let equal : k ≡ key = (bytes_beq_iff k key).0 same in
          let at : Maps.contains ids i ≡ true =
            subst (λ x. is_watching r x i ≡ true) (sym equal) h in
          rw (get-insert r.watchers k key (added ids c), same) (contains-added ids c i ∙ rw at refl)
      | inr other ↦ rw (get-insert r.watchers k key (added ids c), other) h
    ]

pub is_watching-watch_self :
    (r : WatchRegistry) (c version : ℕ) (k : Key) → is_watching (watch r c k version) k c ≡ true
unfolding watch
is_watching-watch_self r c version k =
    let ids = or_default (Maps.get r.watchers k) in
    let same : bytes_beq k k ≡ true = (bytes_beq_iff k k).1 refl in
    rw (get-insert r.watchers k k (added ids c), same) (contains-added ids c c ∙ ground arith)

pub is_watching-cleanup_conn :
    (r : WatchRegistry) (c i : ℕ) (key : Key)
    → (i == c) ≡ false
    → is_watching r key i ≡ true
    → is_watching (cleanup_conn r c) key i ≡ true
unfolding cleanup_conn unwatch
is_watching-cleanup_conn r c i key away h = is_watching-retain r.watchers c i key away h
