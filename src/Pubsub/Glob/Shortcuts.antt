-- ===== src/Pubsub/Glob/Shortcuts.antt =====
-- The shortcuts of senko-pubsub/src/pattern.rs give the answer of the search, for patterns without
-- classes and escapes.
use senko.Prelude.{
  ℕ, ◌+◌, ◌≤◌, ◌≡◌, ◌↔◌, refl, sym, ap, ◌∙◌, List, [], ◌∷◌, ◌++◌, Bool, true, false, not, ◌&&◌,
  ◌||◌, none, some, ◌==◌, any, all, length, drop, arith, Bool-cases, inl, inr,
}
use mathlib.Core.Path.{subst}
use senko.Prelude.Equality.{bytes_beq, nat_eq}
use senko.Pubsub.Glob.{is_star, match_single_token}
use senko.Pubsub.Glob.Tokens.{
  Matches, ends, byte, byte_inv, no_text, Later-star, Later-all, after_token,
}
use senko.Pubsub.Glob.Fast.{Scan, scan_from, trailing_star_prefix_len, starts_with, is_none_left}

-- No class and no escape.
abbrev pub is_plain : ℕ → Bool
is_plain b = not (b == b'[') && not (b == b'\\')

abbrev pub is_wild : ℕ → Bool
is_wild b = b == b'*' || b == b'?'

pub no_class : (b : ℕ) → is_plain b ≡ true → (b == b'[') ≡ false
no_class b h = ground arith

pub no_escape : (b : ℕ) → is_plain b ≡ true → (b == b'\\') ≡ false
no_escape b h = ground arith

pub both :
    (b : ℕ) (p : List ℕ)
    → all is_plain (b ∷ p) ≡ true
    → (is_plain b ≡ true) × (all is_plain p ≡ true)
both b p h = (ground arith, ground arith)

pub plain_token :
    (b : ℕ) (p : List ℕ) (c : ℕ)
    → is_plain b ≡ true
    → match_single_token b p c ≡ (b == b'?' || b == c, 1)
unfolding match_single_token
plain_token b p c h = elim (Bool-cases (b == b'?')) [
  | inl mark ↦ rw mark refl
  | inr other ↦ rw (other, no_class b h, no_escape b h) refl
]

pub plain_after : (b : ℕ) (p : List ℕ) → is_plain b ≡ true → after_token b p ≡ p
plain_after b p h = ap (λ t. drop t.1 (b ∷ p)) (plain_token b p 0 h)

-- The scan after a star, a question mark and another byte.
abbrev pub starred : ℕ → List ℕ → Scan → Scan
starred index p f = record {
  has_wildcards = true;
  wildcard_count = f.wildcard_count + 1;
  star_at_end = is_none_left p;
  prefix_len = index;
}

abbrev marked : Scan → Scan
marked f = record f { has_wildcards = true; wildcard_count = f.wildcard_count + 1 }

module _ (index : ℕ) (f : Scan) (b : ℕ) (p : List ℕ) (plain : is_plain b ≡ true) where
  scan_star :
      is_star b ≡ true → scan_from 0 index f (b ∷ p) ≡ scan_from 0 (index + 1) (starred index p f) p
  unfolding scan_from
  scan_star star = rw (no_escape b plain, star) refl

  scan_mark :
      is_star b ≡ false
      → (b == b'?') ≡ true
      → scan_from 0 index f (b ∷ p) ≡ scan_from 0 (index + 1) (marked f) p
  unfolding scan_from
  scan_mark no_star mark = rw (no_escape b plain, no_star, mark, no_class b plain) refl

  pub scan_literal :
      is_star b ≡ false
      → (b == b'?') ≡ false
      → scan_from 0 index f (b ∷ p) ≡ scan_from 0 (index + 1) f p
  unfolding scan_from
  scan_literal no_star no_mark = rw (no_escape b plain, no_star, no_mark, no_class b plain) refl

-- The scan only adds wildcards; with none in the pattern it stays as it is.
pub scan_count :
    (index : ℕ) (f : Scan) (p : List ℕ)
    → all is_plain p ≡ true
    → (f.wildcard_count ≤ (scan_from 0 index f p).wildcard_count)
      × ((scan_from 0 index f p).has_wildcards ≡ (f.has_wildcards || any is_wild p))
unfolding scan_from
scan_count index f [] plain = (omega arith, ground arith)
scan_count index f (b ∷ p) plain =
    let (here, rest) = both b p plain in
    elim (Bool-cases (is_star b)) [
      | inl star ↦
          let (count, has) = scan_count (index + 1) (starred index p f) p rest in
          rw (scan_star index f b p here star) (omega (arith, count), has ∙ ground (arith, star))
      | inr no_star ↦ elim (Bool-cases (b == b'?')) [
        | inl mark ↦
            let (count, has) = scan_count (index + 1) (marked f) p rest in
            rw (scan_mark index f b p here no_star mark)
              (omega (arith, count), has ∙ ground (arith, mark))
        | inr no_mark ↦
            let (count, has) = scan_count (index + 1) f p rest in
            rw (scan_literal index f b p here no_star no_mark)
              (count, has ∙ ground (arith, no_star, no_mark))
      ]
    ]

-- A scan that has seen its one wildcard goes on over other bytes.
scan_after :
    (index : ℕ) (f : Scan) (p : List ℕ)
    → all is_plain p ≡ true
    → 1 ≤ f.wildcard_count
    → (scan_from 0 index f p).wildcard_count ≡ 1
    → scan_from 0 index f p ≡ f
unfolding scan_from
scan_after index f [] plain more one = refl
scan_after index f (b ∷ p) plain more one =
    let (here, rest) = both b p plain in
    elim (Bool-cases (is_star b)) [
      | inl star ↦
          let (count, has) = scan_count (index + 1) (starred index p f) p rest in
          let same = ap (λ g. g.wildcard_count) (scan_star index f b p here star) in
          absurd (omega (arith, same, count, one, more))
      | inr no_star ↦ elim (Bool-cases (b == b'?')) [
        | inl mark ↦
            let (count, has) = scan_count (index + 1) (marked f) p rest in
            let same = ap (λ g. g.wildcard_count) (scan_mark index f b p here no_star mark) in
            absurd (omega (arith, same, count, one, more))
        | inr no_mark ↦
            let same = scan_literal index f b p here no_star no_mark in
            same
            ∙ scan_after (index + 1) f p rest more (sym (ap (λ g. g.wildcard_count) same) ∙ one)
      ]
    ]

trailing_inv :
    (g : Scan) (n : ℕ)
    → trailing_star_prefix_len g ≡ some n
    → (g.wildcard_count ≡ 1) × (g.star_at_end ≡ true) × (g.prefix_len ≡ n)
trailing_inv g n h = elim (Bool-cases (g.wildcard_count == 1 && g.star_at_end)) [
  | inl yes_both ↦
      let found : some g.prefix_len ≡ some n = rw yes_both at h in
      (ground (arith, yes_both), ground (arith, yes_both), cc)
  | inr other ↦ let missing : none ≡ some n = rw other at h in absurd (cc)
]

no_bytes_left : (p : List ℕ) → is_none_left p ≡ true → p ≡ []
no_bytes_left [] h = refl
no_bytes_left (b ∷ p) h = absurd (cc)

-- One wildcard, a star at the end: the bytes before it are the prefix.
pub scan_trailing :
    (index n : ℕ) (f : Scan) (p : List ℕ)
    → all is_plain p ≡ true
    → f.wildcard_count ≡ 0
    → f.star_at_end ≡ false
    → trailing_star_prefix_len (scan_from 0 index f p) ≡ some n
    → (literals : List ℕ) × (p ≡ literals ++ (b'*' ∷ []))
      × (any is_wild literals ≡ false)
      × (n ≡ index + length literals)
unfolding scan_from
scan_trailing index n f [] plain zero_yet no_end h =
    let (one, end, at) = trailing_inv f n h in absurd (omega (arith, one, zero_yet))
scan_trailing index n f (b ∷ p) plain zero_yet no_end h =
    let (here, rest) = both b p plain in
    elim (Bool-cases (is_star b)) [
      | inl star ↦
          let same = scan_star index f b p here star in
          let (one, end, at) = trailing_inv (scan_from 0 index f (b ∷ p)) n h in
          let kept =
            scan_after (index + 1) (starred index p f) p rest (omega (arith, zero_yet))
              (sym (ap (λ g. g.wildcard_count) same) ∙ one) in
          let whole = same ∙ kept in
          let empty_rest = no_bytes_left p (sym (ap (λ g. g.star_at_end) whole) ∙ end) in
          let is_42 : b ≡ b'*' = ground arith in
          (
            [],
            ap (λ c. c ∷ p) is_42 ∙ ap (λ q. b'*' ∷ q) empty_rest,
            refl,
            omega (arith, at, ap (λ g. g.prefix_len) whole),
          )
      | inr no_star ↦ elim (Bool-cases (b == b'?')) [
        | inl mark ↦
            let same = scan_mark index f b p here no_star mark in
            let (one, end, at) = trailing_inv (scan_from 0 index f (b ∷ p)) n h in
            let kept =
              scan_after (index + 1) (marked f) p rest (omega (arith, zero_yet))
                (sym (ap (λ g. g.wildcard_count) same) ∙ one) in
            let not_end : true ≡ false = sym end ∙ ap (λ g. g.star_at_end) (same ∙ kept) ∙ no_end in
            absurd (cc)
        | inr no_mark ↦
            let same = scan_literal index f b p here no_star no_mark in
            let (literals, e, none_wild, at) =
              scan_trailing (index + 1) n f p rest zero_yet no_end
                (subst (λ g. trailing_star_prefix_len g ≡ some n) same h) in
            (b ∷ literals, ap (λ q. b ∷ q) e, ground (arith, none_wild), omega (arith, at))
      ]
    ]

-- A pattern without wildcards matches its own bytes.
pub literal-Matches :
    (p s : List ℕ)
    → all is_plain p ≡ true
    → any is_wild p ≡ false
    → (bytes_beq p s ≡ true) ↔ Matches p s
literal-Matches [] [] plain literal = (λ e. ends, λ d. refl)
literal-Matches [] (c ∷ s) plain literal = (λ e. absurd (cc), λ d. elim d [ ])
literal-Matches (b ∷ p) [] plain literal =
    (λ e. absurd (cc), λ d. absurd (no_text (ground arith) d))
literal-Matches (b ∷ p) (c ∷ s) plain literal =
    let (here, rest) = both b p plain in
    let none_later : any is_wild p ≡ false = ground arith in
    let no_star : is_star b ≡ false = ground arith in
    let no_mark : (b == b'?') ≡ false = ground arith in
    let (to, from) = literal-Matches p s rest none_later in
    let same = ap (λ t. t.0) (plain_token b p c here) in
    (
      λ e.
          byte no_star (same ∙ ground arith)
            (subst (λ q. Matches q s) (sym (plain_after b p here)) (to (ground arith))),
      λ d.
          let (hit, d') = byte_inv no_star d in
          let equal : (b == c) ≡ true = ground (arith, sym same ∙ hit) in
          let later = from (subst (λ q. Matches q s) (plain_after b p here) d') in
          ground (arith, equal, later),
    )

-- A prefix and a star match what starts with the prefix.
pub prefix-Matches :
    (p s : List ℕ)
    → all is_plain p ≡ true
    → any is_wild p ≡ false
    → (starts_with s p ≡ true) ↔ Matches (p ++ (b'*' ∷ [])) s
prefix-Matches [] s plain literal = (λ e. Later-star refl (Later-all s), λ d. refl)
prefix-Matches (b ∷ p) [] plain literal = (λ e. absurd (cc), λ d. absurd (no_text (ground arith) d))
prefix-Matches (b ∷ p) (c ∷ s) plain literal =
    let (here, rest) = both b p plain in
    let none_later : any is_wild p ≡ false = ground arith in
    let no_star : is_star b ≡ false = ground arith in
    let no_mark : (b == b'?') ≡ false = ground arith in
    let (to, from) = prefix-Matches p s rest none_later in
    let q = p ++ (b'*' ∷ []) in
    let same = ap (λ t. t.0) (plain_token b q c here) in
    (
      λ e.
          byte no_star (same ∙ ground arith)
            (subst (λ q. Matches q s) (sym (plain_after b q here)) (to (ground arith))),
      λ d.
          let (hit, d') = byte_inv no_star d in
          let equal : (b == c) ≡ true = ground (arith, sym same ∙ hit) in
          let later = from (subst (λ q. Matches q s) (plain_after b q here) d') in
          ground (arith, equal, later),
    )
