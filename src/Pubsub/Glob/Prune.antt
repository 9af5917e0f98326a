-- ===== src/Pubsub/Glob/Prune.antt =====
-- The pruning of senko-pubsub/src/pattern.rs loses no match, for patterns without classes and
-- escapes.
use senko.Prelude.{
  ℕ, zero, suc, ◌+◌, ◌≤◌, ◌≡◌, refl, sym, ap, ◌∙◌, List, [], ◌∷◌, ◌++◌, true, false, Option, none,
  some, ◌==◌, if◌then◌else◌, all, length, take, drop, take-length, length-append, arith, Bool-cases,
  inl, inr,
}
use mathlib.Core.Path.{subst}
use mathlib.Core.List.{append_assoc}
use senko.Prelude.Equality.{bytes_beq_iff}
use senko.Pubsub.Glob.{is_star}
use senko.Pubsub.Glob.Tokens.{Matches, Later, now, skip, byte_inv, no_text, star-Later}
use senko.Pubsub.Glob.Fast.{
  unescape, push_segment, segments_from, starts_with, segments_match_in_order,
}
use senko.Pubsub.Glob.Shortcuts.{is_plain, both, no_class, no_escape, plain_token, plain_after}

-- `memmem::find`: where the needle begins first.
abbrev pub find_first : List ℕ → List ℕ → Option ℕ
find_first [] needle = if starts_with [] needle then some 0 else none
find_first (c ∷ text) needle =
    if starts_with (c ∷ text) needle
    then some 0
    else elim (find_first text needle) [ none ↦ none | some i ↦ some (suc i) ]

abbrev pub FindsSubsequence : (List ℕ → List ℕ → Option ℕ) → Type 0
FindsSubsequence find = (text needle : List ℕ) → find text needle ≡ find_first text needle

-- The segments, which have no escapes, stand in the text in their order.
abbrev Embeds : List (List ℕ) → List ℕ → Type 0
Embeds [] text = Unit
Embeds (segment ∷ segments) text =
    (before : List ℕ) × (after : List ℕ) × (unescape segment ≡ segment)
    × (text ≡ before ++ (segment ++ after))
    × Embeds segments after

Embeds-before :
    (segments : List (List ℕ)) (before text : List ℕ)
    → Embeds segments text
    → Embeds segments (before ++ text)
Embeds-before [] before text h = tt
Embeds-before (segment ∷ segments) before text (start, after, plain, e, h) = (
  before ++ start,
  after,
  plain,
  ap (λ t. before ++ t) e ∙ sym (append_assoc before start (segment ++ after)),
  h,
)

Embeds-push :
    (segment text : List ℕ) (segments : List (List ℕ))
    → unescape segment ≡ segment
    → Embeds segments text
    → Embeds (push_segment segment segments) (segment ++ text)
Embeds-push [] text segments plain h = h
Embeds-push (b ∷ segment) text segments plain h = ([], text, plain, refl, h)

unescape-plain : (p : List ℕ) → all is_plain p ≡ true → unescape p ≡ p
unfolding unescape
unescape-plain [] plain = refl
unescape-plain (b ∷ []) plain = refl
unescape-plain (b ∷ c ∷ rest) plain =
    let (here, more) = both b (c ∷ rest) plain in
    rw (no_escape b here) (ap (λ q. b ∷ q) (unescape-plain (c ∷ rest) more))

all-append :
    (p : List ℕ) (b : ℕ)
    → all is_plain p ≡ true
    → is_plain b ≡ true
    → all is_plain (p ++ (b ∷ [])) ≡ true
all-append [] b h plain = ground (arith, plain)
all-append (x ∷ p) b h plain = ground (arith, all-append p b, plain)

Later-Embeds :
    (p text : List ℕ) (segments : List (List ℕ))
    → ((s : List ℕ) → Matches p s → Embeds segments s)
    → Later p text
    → Embeds segments text
Later-Embeds p text segments all_matches (now d) = all_matches text d
Later-Embeds p (c ∷ text) segments all_matches (skip d) =
    Embeds-before segments (c ∷ []) text (Later-Embeds p text segments all_matches d)

-- A question mark ends a segment, and another byte goes on with it.
token-Embeds :
    (b : ℕ) (p segment s : List ℕ)
    → is_plain b ≡ true
    → is_star b ≡ false
    → all is_plain segment ≡ true
    → ((begun t : List ℕ)
        → all is_plain begun ≡ true
        → Matches p t
        → Embeds (segments_from 0 begun p) (begun ++ t))
    → Matches (b ∷ p) s
    → Embeds (segments_from 0 segment (b ∷ p)) (segment ++ s)
unfolding segments_from
token-Embeds b p segment [] here no_star begun go d = absurd (no_text no_star d)
token-Embeds b p segment (c ∷ s) here no_star begun go d =
    let (hit, d') = byte_inv no_star d in
    let rest : Matches p s = subst (λ q. Matches q s) (plain_after b p here) d' in
    elim (Bool-cases (b == b'?')) [
      | inl mark ↦
          rw (no_escape b here, no_star, mark, no_class b here)
            (Embeds-push segment (c ∷ s) (segments_from 0 [] p) (unescape-plain segment begun)
              (Embeds-before (segments_from 0 [] p) (c ∷ []) s (go [] s refl rest)))
      | inr no_mark ↦
          let equal : b ≡ c =
            ground (arith, sym (ap (λ t. t.0) (plain_token b p c here)) ∙ hit, no_mark) in
          let text : (segment ++ (b ∷ [])) ++ s ≡ segment ++ (c ∷ s) =
            append_assoc segment (b ∷ []) s ∙ ap (λ x. segment ++ (x ∷ s)) equal in
          rw (no_escape b here, no_star, no_mark, no_class b here)
            (subst (Embeds (segments_from 0 (segment ++ (b ∷ [])) p)) text
              (go (segment ++ (b ∷ [])) s (all-append segment b begun here) rest))
    ]

-- A text that matches has the pattern's segments, in their order.
Matches-Embeds :
    (p segment s : List ℕ)
    → all is_plain p ≡ true
    → all is_plain segment ≡ true
    → Matches p s
    → Embeds (segments_from 0 segment p) (segment ++ s)
unfolding segments_from
Matches-Embeds [] segment s plain begun d =
    Embeds-push segment s [] (unescape-plain segment begun) tt
Matches-Embeds (b ∷ p) segment s plain begun d =
    let (here, rest) = both b p plain in
    let whole = unescape-plain segment begun in
    elim (Bool-cases (is_star b)) [
      | inl star ↦
          rw (no_escape b here, star, no_class b here)
            (Embeds-push segment s (segments_from 0 [] p) whole (
              Later-Embeds p s (segments_from 0 [] p) (λ t. Matches-Embeds p [] t rest refl)
                (star-Later star d)))
      | inr no_star ↦
          token-Embeds b p segment s here no_star begun (λ next t. Matches-Embeds p next t rest) d
    ]

drop-append_le : (n : ℕ) (p q : List ℕ) → n ≤ length p → drop n (p ++ q) ≡ drop n p ++ q
drop-append_le zero p q h = refl
drop-append_le (suc n) [] q h = absurd (omega arith)
drop-append_le (suc n) (b ∷ p) q h = drop-append_le n p q (omega arith)

starts_with-append : (p q : List ℕ) → starts_with (p ++ q) p ≡ true
starts_with-append p q = (bytes_beq_iff (take (length p) (p ++ q)) p).1 (take-length p q)

-- What stands in the text is found there or earlier.
find_first-append :
    (before needle after : List ℕ)
    → (i : ℕ) × (find_first (before ++ (needle ++ after)) needle ≡ some i) × (i ≤ length before)
find_first-append [] [] [] = (0, refl, omega arith)
find_first-append [] [] (c ∷ after) = (0, refl, omega arith)
find_first-append [] (b ∷ needle) after =
    let here = starts_with-append (b ∷ needle) after in (0, rw here refl, omega arith)
find_first-append (c ∷ before) needle after =
    elim (Bool-cases (starts_with (c ∷ before ++ (needle ++ after)) needle)) [
      | inl here ↦ (0, rw here refl, omega arith)
      | inr later ↦
          let (i, found, le) = find_first-append before needle after in
          (suc i, rw (later, found) refl, omega arith)
    ]

module _ (find : List ℕ → List ℕ → Option ℕ) (finds : FindsSubsequence find) where
  -- The search from the left finds every segment.
  segments_match_in_order-Embeds :
      (segments : List (List ℕ)) (text : List ℕ)
      → Embeds segments text
      → segments_match_in_order find segments text ≡ true
  unfolding segments_match_in_order
  segments_match_in_order-Embeds [] text h = refl
  segments_match_in_order-Embeds (segment ∷ segments) text (before, after, plain, e, h) =
      let (i, found, le) = find_first-append before segment after in
      let at : find text (unescape segment) ≡ some i =
        ap (find text) plain ∙ finds text segment ∙ ap (λ t. find_first t segment) e ∙ found in
      let n = i + length (unescape segment) in
      let short : n ≤ length (before ++ segment) =
        omega (arith, le, length-append before segment, ap length plain) in
      let left : drop n text ≡ drop n (before ++ segment) ++ after =
        ap (drop n) (e ∙ sym (append_assoc before segment after))
        ∙ drop-append_le n (before ++ segment) after short in
      rw (segments_match_in_order, at)
        (segments_match_in_order-Embeds segments (drop n text) (
          subst (Embeds segments) (sym left)
            (Embeds-before segments (drop n (before ++ segment)) after h)))

  -- A text that is pruned does not match.
  pub pruned-Matches :
      (p text : List ℕ)
      → all is_plain p ≡ true
      → Matches p text
      → segments_match_in_order find (segments_from 0 [] p) text ≡ true
  pruned-Matches p text plain d =
      segments_match_in_order-Embeds (segments_from 0 [] p) text
        (Matches-Embeds p [] text plain refl d)
