-- ===== src/Pubsub/Glob/Search.antt =====
-- The search of senko-pubsub/src/pattern.rs's `glob_match_scalar` ends, with the right answer.
use senko.Prelude.{
  ℕ, zero, suc, ◌+◌, ◌*◌, ◌≤◌, ◌<◌, ◌≡◌, ◌↔◌, refl, List, [], ◌∷◌, Bool, true, false, Option, none,
  some, length, arith, Bool-cases, inl, inr,
}
use senko.Pubsub.Glob.{
  is_star, match_single_token, skip_stars, Back, State, Turn, answered, again, retry, at_star,
  at_token, turn, after_turn, match_from, glob_match_scalar,
}
use senko.Pubsub.Glob.Tokens.{
  Matches, Later, ends, byte, now, skip, byte_inv, no_text, Later-star, Later-end, Later-next,
  Later-after_token, Later-all, Later-Later, Later-skip_stars, length-skip_stars, after_token,
  after_token-drop, length-after_token,
}

-- The answer is there, and is right about `G`.
abbrev pub Decides : Type 0 → Option Bool → Type 0
Decides G (some true) = G
Decides G (some false) = ¬ G
Decides G none = ⊥

-- `G` is the question, and every pattern that is searched for is shorter than `k`.
module _ (G : Type 0) (k : ℕ) where
  -- The question, in terms of the last star: its rest of the pattern matches some rest of the text.
  abbrev IsBack : ℕ → List ℕ → List ℕ → Back → Type 0
  IsBack m p s none = G → Matches p s
  IsBack m p s (some (bp, bs)) =
      (G ↔ Later bp bs) × (Matches bp bs → Matches p s) × (length bs ≤ m) × (length bp < k)

  -- `m` bounds the text that is left; `fuel` is enough.
  record Inv (fuel m : ℕ) (state : State) : Type 0 where
    sound : Matches state.0 state.1 → G
    complete : G → Later state.0 state.1
    back : IsBack m state.0 state.1 state.2
    text : length state.1 ≤ m
    pattern : length state.0 < k
    enough : m * k + length state.0 < fuel

  -- A turn that does not answer leaves less to do.
  abbrev IsTurn : ℕ → Turn → Type 0
  IsTurn fuel (answered b) = Decides G (some b)
  IsTurn fuel (again state) = (m : ℕ) × Inv fuel m state

  retry-IsTurn :
      (fuel m : ℕ) (p s : List ℕ) (back : Back)
      → Inv (suc fuel) m (p, s, back)
      → ¬ Matches p s
      → IsTurn fuel (retry back)
  retry-IsTurn fuel m p s none inv differs = λ g. differs (inv.back g)
  retry-IsTurn fuel m p s (some (bp, [])) inv differs =
      λ g. differs (inv.back.1 (Later-end (inv.back.0.0 g)))
  retry-IsTurn fuel zero p s (some (bp, c ∷ bs)) inv differs = absurd (omega (arith, inv.back.2))
  retry-IsTurn fuel (suc m) p s (some (bp, c ∷ bs)) inv differs =
      let (asks, down, shorter, small) = inv.back in
      let next : G → Later bp bs = λ g. Later-next (asks.0 g) (λ d. differs (down d)) in
      let prev : Later bp bs → G = λ d. asks.1 (skip d) in
      let rest : length bs ≤ m = omega (arith, shorter) in
      (
        m,
        record {
          sound = λ d. prev (now d);
          complete = next;
          back = ((next, prev), λ d. d, rest, small);
          text = rest;
          pattern = small;
          enough = omega (arith, small, inv.enough);
        },
      )

  IsBack-token :
      (m b c : ℕ) (p s : List ℕ) (back : Back)
      → is_star b ≡ false
      → IsBack m (b ∷ p) (c ∷ s) back
      → IsBack m (after_token b p) s back
  IsBack-token m b c p s none plain h = λ g. (byte_inv plain (h g)).1
  IsBack-token m b c p s (some (bp, bs)) plain (asks, down, shorter, small) =
      (asks, λ d. (byte_inv plain (down d)).1, shorter, small)

  -- After a token that matches its byte.
  took_Inv :
      (fuel m b c : ℕ) (p s : List ℕ) (back : Back)
      → Inv (suc fuel) m (b ∷ p, c ∷ s, back)
      → is_star b ≡ false
      → (match_single_token b p c).0 ≡ true
      → Inv fuel m (after_token b p, s, back)
  took_Inv fuel m b c p s back inv plain hit = record {
    sound = λ d. inv.sound (byte plain hit d);
    complete = λ g. Later-after_token s plain (inv.complete g);
    back = IsBack-token m b c p s back plain inv.back;
    text = omega (arith, inv.text);
    pattern = omega (arith, inv.pattern, length-after_token b p);
    enough = omega (arith, inv.enough, length-after_token b p);
  }

  at_token-IsTurn :
      (fuel m b : ℕ) (p s : List ℕ) (back : Back)
      → Inv (suc fuel) m (b ∷ p, s, back)
      → is_star b ≡ false
      → IsTurn fuel (at_token b p s back)
  at_token-IsTurn fuel m b p [] back inv plain =
      retry-IsTurn fuel m (b ∷ p) [] back inv (no_text plain)
  at_token-IsTurn fuel m b p (c ∷ s) back inv plain =
      elim (Bool-cases (match_single_token b p c).0) [
        | inl hit ↦ rw (hit, after_token-drop b p c) (m, took_Inv fuel m b c p s back inv plain hit)
        | inr miss ↦ rw miss (
            retry-IsTurn fuel m (b ∷ p) (c ∷ s) back inv
              (λ d. let hit = (byte_inv plain d).0 in cc))
      ]

  -- From a star on, the question is whether the rest of the pattern begins somewhere.
  restart_Inv :
      (fuel m b : ℕ) (p rest s : List ℕ) (back : Back)
      → Inv (suc fuel) m (b ∷ p, s, back)
      → length rest ≤ length p
      → G ↔ Later rest s
      → Inv fuel m (rest, s, some (rest, s))
  restart_Inv fuel m b p rest s back inv shorter asks = record {
    sound = λ d. asks.1 (now d);
    complete = asks.0;
    back = (asks, λ d. d, inv.text, omega (arith, inv.pattern, shorter));
    text = inv.text;
    pattern = omega (arith, inv.pattern, shorter);
    enough = omega (arith, inv.enough, shorter);
  }

  at_star_lem :
      (fuel m b : ℕ) (p rest s : List ℕ) (back : Back)
      → Inv (suc fuel) m (b ∷ p, s, back)
      → length rest ≤ length p
      → G ↔ Later rest s
      → IsTurn fuel (at_star rest s)
  at_star_lem fuel m b p [] s back inv shorter asks = asks.1 (Later-all s)
  at_star_lem fuel m b p (r ∷ rest) s back inv shorter asks =
      (m, restart_Inv fuel m b p (r ∷ rest) s back inv shorter asks)

  at_star-IsTurn :
      (fuel m b : ℕ) (p s : List ℕ) (back : Back)
      → Inv (suc fuel) m (b ∷ p, s, back)
      → is_star b ≡ true
      → IsTurn fuel (at_star (skip_stars p) s)
  at_star-IsTurn fuel m b p s back inv star =
      let (to, from) = Later-skip_stars p s in
      at_star_lem fuel m b p (skip_stars p) s back inv (length-skip_stars p)
        (λ g. to (Later-Later star (inv.complete g)), λ d. inv.sound (Later-star star (from d)))

  turn-IsTurn : (fuel m : ℕ) (state : State) → Inv (suc fuel) m state → IsTurn fuel (turn state)
  unfolding turn
  turn-IsTurn fuel m ([], [], back) inv = inv.sound ends
  turn-IsTurn fuel m ([], c ∷ s, back) inv =
      retry-IsTurn fuel m [] (c ∷ s) back inv (λ d. elim d [ ])
  turn-IsTurn fuel m (b ∷ p, s, back) inv = elim (Bool-cases (is_star b)) [
    | inl star ↦ rw star (at_star-IsTurn fuel m b p s back inv star)
    | inr plain ↦ rw plain (at_token-IsTurn fuel m b p s back inv plain)
  ]

  after_turn-Decides :
      (fuel : ℕ) (t : Turn) (go : State → Option Bool)
      → IsTurn fuel t
      → ((m : ℕ) (state : State) → Inv fuel m state → Decides G (go state))
      → Decides G (after_turn go t)
  after_turn-Decides fuel (answered b) go h later = h
  after_turn-Decides fuel (again state) go (m, inv) later = later m state inv

  match_from-Decides :
      (fuel m : ℕ) (state : State) → Inv fuel m state → Decides G (match_from fuel state)
  unfolding match_from
  match_from-Decides zero m state inv = omega (arith, inv.enough)
  match_from-Decides (suc fuel) m state inv =
      after_turn-Decides fuel (turn state) (match_from fuel) (turn-IsTurn fuel m state inv)
        (match_from-Decides fuel)

Decides-iff :
    (G : Type 0) (r : Option Bool) → Decides G r → (b : Bool) × (r ≡ some b) × ((b ≡ true) ↔ G)
Decides-iff G (some true) h = (true, refl, (λ e. h, λ g. refl))
Decides-iff G (some false) h = (false, refl, ((λ e. absurd (cc)), λ g. absurd (h g)))
Decides-iff G none h = absurd h

-- For every pattern and text, the search ends with an answer, which is yes exactly when the pattern
-- matches the text: token by token, with any bytes for a star.
pub glob_match_scalar-Matches :
    (p s : List ℕ) → (b : Bool) × (glob_match_scalar p s ≡ some b) × ((b ≡ true) ↔ Matches p s)
unfolding glob_match_scalar
glob_match_scalar-Matches p s =
    Decides-iff (Matches p s) (match_from ((length s + 1) * (length p + 1)) (p, s, none)) (
      match_from-Decides (Matches p s) (length p + 1) ((length s + 1) * (length p + 1)) (length s)
        (p, s, none)
        (record {
          sound = λ d. d;
          complete = now;
          back = λ d. d;
          text = omega arith;
          pattern = omega arith;
          enough = omega arith;
        }))
