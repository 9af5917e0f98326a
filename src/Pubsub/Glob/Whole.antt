-- ===== src/Pubsub/Glob/Whole.antt =====
-- senko-pubsub/src/pattern.rs's `glob_match_simd` as a whole, and where its shortcuts go wrong.
use senko.Prelude.{
  ℕ, suc, ◌+◌, ◌≡◌, ◌↔◌, refl, sym, ap, ◌∙◌, List, [], ◌∷◌, ◌++◌, Bool, true, false, Option, none,
  some, ◌==◌, any, all, length, take, take-length, arith, Bool-cases, inl, inr,
}
use mathlib.Core.Path.{subst}
use senko.Prelude.Equality.{bytes_beq, bytes_beq_iff, nat_eq}
use senko.Prelude.Maps
use senko.Pubsub.Glob.{is_star, match_single_token}
use senko.Pubsub.Glob.Tokens.{Matches, byte, Later-star, Later-all}
use senko.Pubsub.Glob.Search.{glob_match_scalar-Matches}
use senko.Pubsub.Glob.Fast.{
  Scan, scan_from, scan_pattern, trailing_star_prefix_len, pattern_eq_literal, segments_from,
  starts_with, segments_match_in_order, unless_pruned, by_prefix, glob_match_simd,
}
use senko.Pubsub.Glob.Shortcuts.{
  is_plain, is_wild, both, scan_literal, starred, plain_token, plain_after, scan_count,
  scan_trailing, literal-Matches, prefix-Matches,
}
use senko.Pubsub.Glob.Prune.{FindsSubsequence, pruned-Matches}

no_escapes : (p : List ℕ) → all is_plain p ≡ true → Maps.contains p b'\\' ≡ false
no_escapes [] plain = refl
no_escapes (b ∷ p) plain = ground (arith, no_escapes p, plain)

all_prefix : (p q : List ℕ) → all is_plain (p ++ q) ≡ true → all is_plain p ≡ true
all_prefix [] q h = refl
all_prefix (b ∷ p) q h = ground (arith, all_prefix p q)

-- An answer that is right about whether the pattern matches.
abbrev pub IsAnswer : List ℕ → List ℕ → Option Bool → Type 0
IsAnswer p s r = (b : Bool) × (r ≡ some b) × ((b ≡ true) ↔ Matches p s)

module _ (find : List ℕ → List ℕ → Option ℕ) (finds : FindsSubsequence find) where
  unless_pruned-IsAnswer :
      (segments : List (List ℕ)) (p s : List ℕ)
      → (Matches p s → segments_match_in_order find segments s ≡ true)
      → IsAnswer p s (unless_pruned find segments p s)
  unless_pruned-IsAnswer [] p s kept = glob_match_scalar-Matches p s
  unless_pruned-IsAnswer (segment ∷ segments) p s kept =
      elim (Bool-cases (segments_match_in_order find (segment ∷ segments) s)) [
        | inl found ↦ rw found (glob_match_scalar-Matches p s)
        | inr pruned ↦ rw pruned (
          false,
          refl,
          (
            (λ e. absurd (cc)),
            λ d. let both_ways : true ≡ false = sym (kept d) ∙ pruned in absurd (cc),
          ),
        )
      ]

  by_prefix-IsAnswer :
      (o : Option ℕ) (p s : List ℕ)
      → all is_plain p ≡ true
      → trailing_star_prefix_len (scan_pattern p) ≡ o
      → IsAnswer p s (by_prefix find o p s)
  unfolding scan_pattern
  by_prefix-IsAnswer none p s plain e =
      unless_pruned-IsAnswer (segments_from 0 [] p) p s (pruned-Matches find finds p s plain)
  by_prefix-IsAnswer (some n) p s plain e =
      let (literals, shape, literal, at) = scan_trailing 0 n _ p plain refl refl e in
      let plain' =
        all_prefix literals (b'*' ∷ []) (subst (λ q. all is_plain q ≡ true) shape plain) in
      let at' : n ≡ length literals = omega (arith, at) in
      let front : take n p ≡ literals =
        ap (λ m. take m p) at'
        ∙ ap (take (length literals)) shape
        ∙ take-length literals (b'*' ∷ []) in
      (starts_with s (take n p), refl, rw (front, shape) (prefix-Matches literals s plain' literal))

  -- The fast matcher answers every pattern without classes and escapes, on every text, and its answer
  -- is yes exactly when the pattern matches the text; `memmem::find` finds the first place.
  pub glob_match_simd-Matches :
      (p s : List ℕ)
      → all is_plain p ≡ true
      → (b : Bool) × (glob_match_simd find p s ≡ some b) × ((b ≡ true) ↔ Matches p s)
  unfolding glob_match_simd pattern_eq_literal scan_pattern
  glob_match_simd-Matches p s plain = elim (Bool-cases (bytes_beq p (b'*' ∷ []))) [
    | inl star ↦
        let shape : p ≡ b'*' ∷ [] = (bytes_beq_iff p (b'*' ∷ [])).0 star in
        rw star (
          true,
          refl,
          ((λ e. subst (λ q. Matches q s) (sym shape) (Later-star refl (Later-all s))), λ d. refl),
        )
    | inr other ↦
        let has = (scan_count 0 _ p plain).1 in
        elim (Bool-cases (scan_pattern p).has_wildcards) [
          | inl wild ↦
              rw (other, wild)
                (by_prefix-IsAnswer (trailing_star_prefix_len (scan_pattern p)) p s plain refl)
          | inr literal ↦
              rw (other, literal, no_escapes p plain)
                (bytes_beq p s, refl, literal-Matches p s plain (sym has ∙ literal))
        ]
  ]

-- Plain bytes, an escaped byte, and a star.
abbrev pub escaped_pattern : List ℕ → ℕ → List ℕ
escaped_pattern literals c = literals ++ (b'\\' ∷ c ∷ b'*' ∷ [])

scan_escaped :
    (literals : List ℕ) (c index : ℕ) (f : Scan)
    → all is_plain literals ≡ true
    → any is_wild literals ≡ false
    → scan_from 0 index f (escaped_pattern literals c) ≡ starred (index + length literals + 2) [] f
unfolding scan_from
scan_escaped [] c index f plain literal = ap (λ n. starred n [] f) (omega arith)
scan_escaped (b ∷ literals) c index f plain literal =
    let (here, rest) = both b literals plain in
    let no_star : is_star b ≡ false = ground arith in
    let no_mark : (b == b'?') ≡ false = ground arith in
    let none_later : any is_wild literals ≡ false = ground arith in
    scan_literal index f b (escaped_pattern literals c) here no_star no_mark
    ∙ scan_escaped literals c (index + 1) f rest none_later
    ∙ ap (λ n. starred n [] f) (omega arith)

take_escaped :
    (literals : List ℕ) (c : ℕ)
    → take (suc (suc (length literals))) (escaped_pattern literals c) ≡ literals ++ (b'\\' ∷ c ∷ [])
take_escaped [] c = refl
take_escaped (b ∷ literals) c = ap (λ q. b ∷ q) (take_escaped literals c)

-- The text against the pattern's bytes before the star.
prefix_differs :
    (literals : List ℕ) (c : ℕ) (rest : List ℕ)
    → (c == b'\\') ≡ false
    → starts_with (literals ++ (c ∷ rest)) (literals ++ (b'\\' ∷ c ∷ [])) ≡ false
prefix_differs [] c rest h = ground (arith, h)
prefix_differs (b ∷ literals) c rest h = ground (arith, prefix_differs literals c rest h)

escaped-Matches :
    (literals : List ℕ) (c : ℕ) (rest : List ℕ)
    → all is_plain literals ≡ true
    → any is_wild literals ≡ false
    → Matches (escaped_pattern literals c) (literals ++ (c ∷ rest))
unfolding match_single_token
escaped-Matches [] c rest plain literal =
    byte refl (ground arith) (Later-star refl (Later-all rest))
escaped-Matches (b ∷ literals) c rest plain literal =
    let (here, more) = both b literals plain in
    let no_star : is_star b ≡ false = ground arith in
    let none_later : any is_wild literals ≡ false = ground arith in
    byte no_star (ap (λ t. t.0) (plain_token b (escaped_pattern literals c) b here) ∙ ground arith)
      (subst (λ q. Matches q (literals ++ (c ∷ rest)))
        (sym (plain_after b (escaped_pattern literals c) here))
        (escaped-Matches literals c rest more none_later))

no_star : (literals : List ℕ) (c : ℕ) → bytes_beq (escaped_pattern literals c) (b'*' ∷ []) ≡ false
no_star [] c = refl
no_star (b ∷ []) c = ground arith
no_star (b ∷ d ∷ literals) c = ground arith

-- A pattern of bytes that are no wildcards, an escaped byte and a star matches the text that begins
-- with those bytes, but the fast matcher compares the text with the backslash too, and answers no.
-- The escaped byte is no backslash.
pub glob_match_simd-escaped :
    (find : List ℕ → List ℕ → Option ℕ) (literals : List ℕ) (c : ℕ) (rest : List ℕ)
    → all is_plain literals ≡ true
    → any is_wild literals ≡ false
    → (c == b'\\') ≡ false
    → (glob_match_simd find (escaped_pattern literals c) (literals ++ (c ∷ rest)) ≡ some false)
      × Matches (escaped_pattern literals c) (literals ++ (c ∷ rest))
unfolding glob_match_simd scan_pattern
glob_match_simd-escaped find literals c rest plain literal h =
    let p = escaped_pattern literals c in
    let s = literals ++ (c ∷ rest) in
    let begun : Scan = record {
      has_wildcards = false;
      wildcard_count = 0;
      star_at_end = false;
      prefix_len = length p;
    } in
    let scan : scan_pattern p ≡ starred (0 + length literals + 2) [] begun =
      scan_escaped literals c 0 begun plain literal in
    let two_more : 0 + length literals + 2 ≡ suc (suc (length literals)) = omega arith in
    let front : take (0 + length literals + 2) p ≡ literals ++ (b'\\' ∷ c ∷ []) =
      ap (λ n. take n p) two_more ∙ take_escaped literals c in
    (
      rw (no_star literals c, scan)
          (ap (λ q. some (starts_with s q)) front ∙ ap some (prefix_differs literals c rest h)),
      escaped-Matches literals c rest plain literal,
    )
