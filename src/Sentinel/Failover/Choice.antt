-- ===== src/Sentinel/Failover/Choice.antt =====
-- senko-sentinel/src/failover.rs's `select_best_replica` and `compare_replicas`.
use senko.Prelude.{
  ℕ, ◌≡◌, refl, inl, inr, List, [], ◌∷◌, Bool, true, false, not, ◌||◌, Option, none, some, all, any,
  filter, arith, Bool-cases, ap, ◌∙◌, ◌+◌, ◌-◌, ◌*◌, ◌%◌, ◌≤◌, ◌<◌, ◌↔◌, u64_mod,
}
use senko.Prelude.Int.{pos, ◌≤ℤ◌, pos_part, neg_part}
use mathlib.Core.List.{Memᴰ}
use mathlib.Core.List.Memᴰ
use senko.Prelude.Maps
use senko.Prelude.Sort.{lex_leb, lex_leb_total, lex_leb_trans}
use senko.Sentinel.State.{ReplicaState, MasterState}
use senko.Sentinel.Failover.{
  is_candidate, replica_leb, better_of, first_sorted, addr_of, candidates, select_best_replica,
}

replica_leb_total : (a b : ReplicaState) → replica_leb a b ≡ false → replica_leb b a ≡ true
unfolding replica_leb
replica_leb_total a b h = ground (arith, lex_leb_total a.name b.name)

replica_leb_trans :
    (a b c : ReplicaState)
    → replica_leb a b ≡ true
    → replica_leb b c ≡ true
    → replica_leb a c ≡ true
unfolding replica_leb
replica_leb_trans a b c p q = ground (arith, lex_leb_trans a.name b.name c.name)

-- `r` is one of the replicas, it is eligible, and no eligible one comes before it.
abbrev pub IsLeastOf : (ReplicaState → Bool) → List ReplicaState → ReplicaState → Type 0
IsLeastOf eligible rs r =
    Memᴰ r rs
    × (eligible r ≡ true)
    × (all (λ other. not (eligible other) || replica_leb r other) rs ≡ true)

-- What a choice among `rs` may be.
abbrev pub IsLeast : (ReplicaState → Bool) → List ReplicaState → Option ReplicaState → Type 0
IsLeast eligible rs none = any eligible rs ≡ false
IsLeast eligible rs (some r) = IsLeastOf eligible rs r

beats_all :
    (eligible : ReplicaState → Bool) (a b : ReplicaState) (rs : List ReplicaState)
    → replica_leb a b ≡ true
    → all (λ other. not (eligible other) || replica_leb b other) rs ≡ true
    → all (λ other. not (eligible other) || replica_leb a other) rs ≡ true
beats_all eligible a b [] p h = refl
beats_all eligible a b (r ∷ rs) p h =
    ground (arith, beats_all eligible a b rs p, replica_leb_trans a b r p)

alone :
    (eligible : ReplicaState → Bool) (a : ReplicaState) (rs : List ReplicaState)
    → any eligible rs ≡ false
    → all (λ other. not (eligible other) || replica_leb a other) rs ≡ true
alone eligible a [] h = refl
alone eligible a (r ∷ rs) h = ground (arith, alone eligible a rs)

replica_leb_refl : (a : ReplicaState) → replica_leb a a ≡ true
replica_leb_refl a = elim (Bool-cases (replica_leb a a)) [
  | inl le ↦ le
  | inr gt ↦ replica_leb_total a a gt
]

better_of-IsLeast :
    (eligible : ReplicaState → Bool) (r : ReplicaState) (rs : List ReplicaState)
    (best : Option ReplicaState)
    → eligible r ≡ true
    → IsLeast eligible rs best
    → IsLeast eligible (r ∷ rs) (better_of r best)
better_of-IsLeast eligible r rs none fits rest =
    (Memᴰ.head refl, fits, rw (fits, replica_leb_refl r) (alone eligible r rs rest))
better_of-IsLeast eligible r rs (some best) fits (is_one, is_fit, beats) =
    elim (Bool-cases (replica_leb r best)) [
      | inl le ↦ rw le (
        Memᴰ.head refl,
        fits,
        rw (fits, replica_leb_refl r) (beats_all eligible r best rs le beats),
      )
      | inr gt ↦ rw gt (Memᴰ.tail is_one, is_fit, rw (fits, replica_leb_total r best gt) beats)
    ]

skip-IsLeast :
    (eligible : ReplicaState → Bool) (r : ReplicaState) (rs : List ReplicaState)
    (best : Option ReplicaState)
    → eligible r ≡ false
    → IsLeast eligible rs best
    → IsLeast eligible (r ∷ rs) best
skip-IsLeast eligible r rs none unfit rest = rw unfit rest
skip-IsLeast eligible r rs (some best) unfit (is_one, is_fit, beats) =
    (Memᴰ.tail is_one, is_fit, rw unfit beats)

first_sorted-IsLeast :
    (eligible : ReplicaState → Bool) (rs : List ReplicaState)
    → IsLeast eligible rs (first_sorted (filter eligible rs))
unfolding first_sorted
first_sorted-IsLeast eligible [] = refl
first_sorted-IsLeast eligible (r ∷ rs) = elim (Bool-cases (eligible r)) [
  | inl fits ↦ rw fits (
      better_of-IsLeast eligible r rs (first_sorted (filter eligible rs)) fits
        (first_sorted-IsLeast eligible rs))
  | inr unfit ↦ rw unfit (
      skip-IsLeast eligible r rs (first_sorted (filter eligible rs)) unfit
        (first_sorted-IsLeast eligible rs))
]

-- A replica that may be promoted: reachable, with a priority above 0, heard of within five times the time
-- after which a replica counts as down, and not cut off from the master for longer than the master has
-- been down and ten times that time. The products and the sum are 64 bits wide and wrap.
pub record IsEligible (now down_after_ms odown_time : ℕ) (r : ReplicaState) : Type 0 where
  pub not_s_down : r.flags.s_down ≡ false
  pub not_o_down : r.flags.o_down ≡ false
  pub connected : r.flags.disconnected ≡ false
  pub priority : pos 1 ≤ℤ r.slave_priority
  pub heard : now - r.last_ok_ping ≤ 5 * down_after_ms % u64_mod
  pub linked : r.master_link_down_time ≤ (now - odown_time + 10 * down_after_ms % u64_mod) % u64_mod

-- `a` is to be preferred to `b`: its priority number is smaller; or it is the same and `a` has more of the
-- master's data; or that is the same too and `a` has the smaller name.
pub data Beats (a b : ReplicaState) : Type 0 where
  by_priority :
      pos_part a.slave_priority + neg_part b.slave_priority
        < pos_part b.slave_priority + neg_part a.slave_priority
      → Beats a b
  by_offset :
      a.slave_priority ≡ b.slave_priority → b.slave_repl_offset < a.slave_repl_offset → Beats a b
  by_name :
      a.slave_priority ≡ b.slave_priority
      → a.slave_repl_offset ≡ b.slave_repl_offset
      → lex_leb b.name a.name ≡ false
      → Beats a b

replica_leb-Beats : (a b : ReplicaState) → replica_leb b a ≡ true → ¬ Beats a b
unfolding replica_leb
replica_leb-Beats a b le (by_priority less) = ground (arith, le, less)
replica_leb-Beats a b le (by_offset same more) =
    ground (arith, le, ap pos_part same, ap neg_part same, more)
replica_leb-Beats a b le (by_name same level less) =
    ground (arith, le, ap pos_part same, ap neg_part same, level, less)

is_candidate-IsEligible :
    (now down_after_ms odown_time : ℕ) (r : ReplicaState)
    → (is_candidate r now down_after_ms odown_time ≡ true)
      ↔ IsEligible now down_after_ms odown_time r
unfolding is_candidate
is_candidate-IsEligible now down_after_ms odown_time r =
    (λ fits. ground (arith, fits), λ e. ground (arith, e))

all_mem :
    (p : ReplicaState → Bool) (rs : List ReplicaState) (r : ReplicaState)
    → all p rs ≡ true
    → Memᴰ r rs
    → p r ≡ true
all_mem p [] r h m = absurd (Memᴰ.not-nil m)
all_mem p (x ∷ rs) r h (Memᴰ.head e) = ap p e ∙ ground (arith, h)
all_mem p (x ∷ rs) r h (Memᴰ.tail m) = all_mem p rs r (ground (arith, h)) m

any_mem :
    (p : ReplicaState → Bool) (rs : List ReplicaState) (r : ReplicaState)
    → any p rs ≡ false
    → Memᴰ r rs
    → p r ≡ false
any_mem p [] r h m = absurd (Memᴰ.not-nil m)
any_mem p (x ∷ rs) r h (Memᴰ.head e) = ap p e ∙ ground (arith, h)
any_mem p (x ∷ rs) r h (Memᴰ.tail m) = any_mem p rs r (ground (arith, h)) m

-- What a choice among `rs` is to be: an eligible replica that no eligible one beats, and none only where
-- none is eligible.
abbrev pub IsChoice : ℕ → ℕ → ℕ → List ReplicaState → Option ReplicaState → Type 0
IsChoice now down_after_ms odown_time rs none =
    (r : ReplicaState) → Memᴰ r rs → ¬ IsEligible now down_after_ms odown_time r
IsChoice now down_after_ms odown_time rs (some best) =
    Memᴰ best rs
    × IsEligible now down_after_ms odown_time best
    × ((r : ReplicaState) → Memᴰ r rs → IsEligible now down_after_ms odown_time r → ¬ Beats r best)

least-IsChoice :
    (now down_after_ms odown_time : ℕ) (rs : List ReplicaState) (best : Option ReplicaState)
    → IsLeast (λ r. is_candidate r now down_after_ms odown_time) rs best
    → IsChoice now down_after_ms odown_time rs best
least-IsChoice now down odown rs none least = λ r m e.
    let fits = (is_candidate-IsEligible now down odown r).1 e in
    let unfit = any_mem (λ r. is_candidate r now down odown) rs r least m in
    ground (arith, fits, unfit)
least-IsChoice now down odown rs (some best) (is_one, fits, least) = (
  is_one,
  (is_candidate-IsEligible now down odown best).0 fits,
  λ r m e.
      let fit = (is_candidate-IsEligible now down odown r).1 e in
      let kept =
        all_mem (λ other. not (is_candidate other now down odown) || replica_leb best other) rs r
          least m in
      replica_leb-Beats r best (ground (arith, fit, kept)),
)

-- `select_best_replica` answers the address of an eligible replica that no eligible one beats: reachable
-- replicas with a priority above 0, heard of and linked recently enough, by the smallest priority, then
-- the largest offset, then the smallest name. It answers nothing exactly when no replica is eligible.
pub select_best_replica-IsChoice :
    (m : MasterState) (now down_after_ms odown_time : ℕ)
    → (best : Option ReplicaState) × (select_best_replica m now down_after_ms odown_time
        ≡ addr_of best)
      × IsChoice now down_after_ms odown_time (Maps.values m.replicas) best
unfolding select_best_replica candidates
select_best_replica-IsChoice m now down_after_ms odown_time = (
  first_sorted (candidates m now down_after_ms odown_time),
  refl,
  least-IsChoice now down_after_ms odown_time (Maps.values m.replicas)
      (first_sorted (candidates m now down_after_ms odown_time))
      (first_sorted-IsLeast (λ r. is_candidate r now down_after_ms odown_time)
        (Maps.values m.replicas)),
)
