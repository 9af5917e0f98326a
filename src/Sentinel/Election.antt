-- ===== src/Sentinel/Election.antt =====
-- senko-sentinel/src/election.rs: votes for the leader of a failover, per master and epoch.
use senko.Prelude.{
  ℕ, ◌+◌, ◌-◌, ◌≤◌, ◌≡◌, refl, ap, ◌∙◌, List, [], ◌∷◌, Bool, true, false, ◌&&◌, ◌||◌, not, Option,
  none, some, leb, ltb, ◌==◌, if◌then◌else◌, arith, is_some, filter, length, all, ◌%◌, u64_mod,
}
use senko.Prelude.Equality.{bytes_beq, bytes_eq, =?_refl}
use senko.Prelude.Maps
use senko.Prelude.Maps.{Map}
use senko.Sentinel.State.{SentinelId, MasterState, WorldSnapshot, update_world}

pub record ElectionState : Type 0 where
  pub epoch : ℕ
  pub votes_received : Map SentinelId ℕ
  pub vote_granted_to : Option (SentinelId × ℕ)
  pub election_start : ℕ

abbrev pub default_state : ElectionState
default_state = record {
  epoch = 0;
  votes_received = [];
  vote_granted_to = none;
  election_start = 0;
}

-- `ElectionBook`: the states by the name of the master.
abbrev pub Book : Type 0
Book = Map (List ℕ) ElectionState

-- `entry(name).or_default()`.
abbrev pub or_default : Option ElectionState → ElectionState
or_default none = default_state
or_default (some s) = s

unfoldable pub state_of : Book → List ℕ → ElectionState
state_of book master_name = or_default (Maps.get book master_name)

-- The master's part in `start_election`.
abbrev pub lead : Option MasterState → WorldSnapshot → List ℕ → SentinelId → ℕ → WorldSnapshot
lead none w master_name my_id epoch = w
lead (some m) w master_name my_id epoch = record w {
  masters =
      Maps.insert w.masters master_name
        (record m { leader = some my_id; leader_epoch = epoch; failover_epoch = epoch });
}

abbrev pub next_epoch : WorldSnapshot → List ℕ → SentinelId → ℕ → WorldSnapshot
next_epoch w master_name my_id now =
    let epoch = (w.epoch + 1) % u64_mod in
    let led =
      lead (Maps.get w.masters master_name) (record w { epoch = epoch }) master_name my_id epoch in
    record led { timestamp = now }

-- The book, the world and the new epoch.
unfoldable pub start_election :
    Book → ℕ → WorldSnapshot → List ℕ → SentinelId → ℕ → Book × WorldSnapshot × ℕ
start_election book clock world master_name my_id now =
    let next = update_world clock world (λ w. next_epoch w master_name my_id now) in
    let epoch = next.epoch in
    let state : ElectionState = record {
      epoch = epoch;
      votes_received = (my_id, epoch) ∷ [];
      vote_granted_to = some (my_id, epoch);
      election_start = now;
    } in
    (Maps.insert book master_name state, next, epoch)

-- A newer epoch takes the vote back.
abbrev pub enter_epoch : ElectionState → ℕ → ElectionState
enter_epoch s epoch =
    if ltb s.epoch epoch then record s { epoch = epoch; vote_granted_to = none } else s

abbrev pub grant : ElectionState → SentinelId → ℕ → ElectionState
grant s candidate epoch =
    if not (is_some s.vote_granted_to) && leb s.epoch epoch
    then record s { vote_granted_to = some (candidate, epoch) }
    else s

abbrev pub answer : Option (SentinelId × ℕ) → ℕ → Option SentinelId × ℕ
answer none epoch = (none, epoch)
answer (some (leader, voted)) epoch = (some leader, voted)

-- One state's part of `process_vote_request`.
unfoldable pub vote : ElectionState → SentinelId → ℕ → ElectionState
vote s candidate epoch = grant (enter_epoch s epoch) candidate epoch

unfoldable pub process_vote_request :
    Book → List ℕ → SentinelId → ℕ → Book × (Option SentinelId × ℕ)
process_vote_request book master_name candidate epoch =
    let s = vote (state_of book master_name) candidate epoch in
    (Maps.insert book master_name s, answer s.vote_granted_to epoch)

abbrev pub raise_epoch : ElectionState → ℕ → ElectionState
raise_epoch s epoch = if ltb s.epoch epoch then record s { epoch = epoch } else s

abbrev pub add_vote : ElectionState → SentinelId → ℕ → ElectionState
add_vote s voter epoch = record s { votes_received = Maps.insert s.votes_received voter epoch }

-- The last two branches have one condition, as in the source.
unfoldable pub process_vote_reply : Book → List ℕ → SentinelId → SentinelId → ℕ → Book
process_vote_reply book master_name from leader epoch =
    let s = raise_epoch (state_of book master_name) epoch in
    Maps.insert book master_name (
      if bytes_beq leader from || length leader == 0
      then add_vote s from epoch
      else if bytes_beq leader from
      then add_vote s leader epoch
      else s)

unfoldable pub grant_vote : Book → List ℕ → SentinelId → ℕ → Book
grant_vote book master_name voter epoch =
    Maps.insert book master_name (add_vote (state_of book master_name) voter epoch)

abbrev pub leader_of : Option (SentinelId × ℕ) → Option SentinelId
leader_of none = none
leader_of (some (leader, voted)) = some leader

abbrev pub votes_of : ElectionState → ℕ
votes_of s = length (filter (λ epoch. epoch == s.epoch) (Maps.values s.votes_received))

abbrev pub elected : Option ElectionState → ℕ → Option SentinelId
elected none quorum = none
elected (some s) quorum = if leb quorum (votes_of s) then leader_of s.vote_granted_to else none

unfoldable pub count_votes : Book → List ℕ → ℕ → Option SentinelId
count_votes book master_name quorum = elected (Maps.get book master_name) quorum

abbrev pub leads : Option MasterState → SentinelId → Bool
leads none my_id = false
leads (some m) my_id = elim m.leader [ none ↦ false | some id ↦ bytes_beq id my_id ]

unfoldable pub is_leader : WorldSnapshot → List ℕ → SentinelId → Bool
is_leader world master_name my_id = leads (Maps.get world.masters master_name) my_id

unfoldable pub election_timed_out : Book → List ℕ → ℕ → ℕ → Bool
election_timed_out book master_name now timeout_ms = elim (Maps.get book master_name) [
  | none ↦ false
  | some s ↦ ltb timeout_ms (now - s.election_start)
]

-- A sequence of requests for one master, from any candidates.
unfoldable pub requests : Book → List ℕ → List (SentinelId × ℕ) → Book
requests book master_name [] = book
requests book master_name ((candidate, epoch) ∷ rest) =
    requests (process_vote_request book master_name candidate epoch).0 master_name rest

state_of-insert :
    (book : Book) (name : List ℕ) (s : ElectionState) → state_of (Maps.insert book name s) name ≡ s
unfolding state_of
state_of-insert book name s = ap or_default (Maps.get-insert_self book name s)

vote_kept :
    (s : ElectionState) (leader : SentinelId) (voted : ℕ) (candidate : SentinelId) (epoch : ℕ)
    → s.vote_granted_to ≡ some (leader, voted)
    → epoch ≤ s.epoch
    → vote s candidate epoch ≡ s
unfolding vote
vote_kept s leader voted candidate epoch granted old =
    let known : is_some s.vote_granted_to ≡ true = rw granted refl in ground (arith, known)

-- Once a vote is given, the answer stays the first leader and its epoch, whatever requests of the
-- state's epoch or of older ones come in, in whatever order and from whomever.
pub requests-one_vote :
    (book : Book) (name : List ℕ) (leader : SentinelId) (voted : ℕ) (asked : List (SentinelId × ℕ))
    (candidate : SentinelId) (epoch : ℕ)
    → (state_of book name).vote_granted_to ≡ some (leader, voted)
    → all (λ r. leb r.1 (state_of book name).epoch) asked ≡ true
    → epoch ≤ (state_of book name).epoch
    → (process_vote_request (requests book name asked) name candidate epoch).1
      ≡ (some leader, voted)
unfolding process_vote_request requests
requests-one_vote book name leader voted [] candidate epoch granted old now =
    rw (vote_kept (state_of book name) leader voted candidate epoch granted now, granted) refl
requests-one_vote book name leader voted ((c, e) ∷ asked) candidate epoch granted old now =
    let same = vote_kept (state_of book name) leader voted c e granted (ground arith) in
    let kept = state_of-insert book name (vote (state_of book name) c e) ∙ same in
    requests-one_vote (Maps.insert book name (vote (state_of book name) c e)) name leader voted
      asked candidate epoch (ap (λ s. s.vote_granted_to) kept ∙ granted) (rw kept (ground arith))
      (rw kept now)

lead-epoch :
    (o : Option MasterState) (w : WorldSnapshot) (name : List ℕ) (my_id : SentinelId) (epoch : ℕ)
    → (lead o w name my_id epoch).epoch ≡ w.epoch
lead-epoch none w name my_id epoch = refl
lead-epoch (some m) w name my_id epoch = refl

leads-lead :
    (o : Option MasterState) (w : WorldSnapshot) (name : List ℕ) (my_id : SentinelId) (epoch : ℕ)
    → Maps.get w.masters name ≡ o
    → leads (Maps.get (lead o w name my_id epoch).masters name) my_id ≡ is_some o
leads-lead none w name my_id epoch known = ap (λ o. leads o my_id) known
leads-lead (some m) w name my_id epoch known =
    let mine = record m { leader = some my_id; leader_epoch = epoch; failover_epoch = epoch } in
    ap (λ o. leads o my_id) (Maps.get-insert_self w.masters name mine) ∙ =?_refl my_id

own_vote :
    (epoch quorum now : ℕ) (my_id : SentinelId)
    → elected
        (some (record {
          epoch = epoch;
          votes_received = (my_id, epoch) ∷ [];
          vote_granted_to = some (my_id, epoch);
          election_start = now;
        }))
        quorum
      ≡ (if leb quorum 1 then some my_id else none)
own_vote epoch quorum now my_id =
    let counts : (epoch == epoch) ≡ true = ground arith in ground (arith, counts)

-- A sentinel that starts an election moves the epoch on by one (in 64 bits), is alone among the voters, so that it
-- is elected at once only by a quorum of at most one, and leads the master if it is a known one.
pub start_election-count_votes :
    (book : Book) (clock : ℕ) (world : WorldSnapshot) (name : List ℕ) (my_id : SentinelId)
    (now quorum : ℕ)
    → (count_votes (start_election book clock world name my_id now).0 name quorum
        ≡ (if leb quorum 1 then some my_id else none))
      × ((start_election book clock world name my_id now).1.epoch ≡ (world.epoch + 1) % u64_mod)
      × (is_leader (start_election book clock world name my_id now).1 name my_id
          ≡ is_some (Maps.get world.masters name))
unfolding count_votes start_election is_leader
start_election-count_votes book clock world name my_id now quorum =
    let known = Maps.get world.masters name in
    let raised = record world { epoch = (world.epoch + 1) % u64_mod } in
    (
      ap (λ o. elected o quorum) (Maps.get-insert_self book name _)
          ∙ own_vote (lead known raised name my_id ((world.epoch + 1) % u64_mod)).epoch quorum now
              my_id,
      lead-epoch known raised name my_id ((world.epoch + 1) % u64_mod),
      leads-lead known raised name my_id ((world.epoch + 1) % u64_mod) refl,
    )

-- A reply adds no vote when the leader that it names is neither empty nor the sender itself.
pub process_vote_reply-other_leader :
    (book : Book) (name : List ℕ) (from leader : SentinelId) (epoch : ℕ)
    → bytes_beq leader from ≡ false
    → (length leader == 0) ≡ false
    → (state_of (process_vote_reply book name from leader epoch) name).votes_received
      ≡ (state_of book name).votes_received
unfolding process_vote_reply
process_vote_reply-other_leader book name from leader epoch other named =
    let s = raise_epoch (state_of book name) epoch in
    rw
      (
        state_of-insert book name (
            if bytes_beq leader from || length leader == 0
            then add_vote s from epoch
            else if bytes_beq leader from
            then add_vote s leader epoch
            else s),
        other,
        named,
      )
      (ground arith)
