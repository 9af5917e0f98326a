-- ===== src/Pubsub/Glob/Tokens.antt =====
-- The tokens of a glob pattern (senko-pubsub/src/pattern.rs), and the texts that a pattern matches.
use senko.Prelude.{
  ℕ, ◌+◌, ◌≤◌, ◌≡◌, refl, ap, List, [], ◌∷◌, Bool, true, false, ◌&&◌, ◌||◌, leb, ◌==◌, length, drop,
  length-drop, arith, Bool-cases, inl, inr,
}
use senko.Pubsub.Glob.{is_star, class_from, match_char_class, match_single_token, skip_stars}

-- A class is as long for every byte, and takes one byte of the pattern at least.
class_from-length :
    (negated : Bool) (byte byte' : ℕ) (m m' : Bool) (index : ℕ) (p : List ℕ)
    → ((class_from negated byte m index p).1 ≡ (class_from negated byte' m' index p).1)
      × (index ≤ (class_from negated byte m index p).1)
unfolding class_from
class_from-length negated byte byte' m m' index [] = (refl, omega arith)
class_from-length negated byte byte' m m' index (b ∷ []) = (ground arith, ground arith)
class_from-length negated byte byte' m m' index (b ∷ c ∷ []) =
    let (same, more) =
      class_from-length negated byte byte' (m || b == byte) (m' || b == byte') (index + 1)
        (c ∷ []) in
    (ground (arith, same), ground (arith, more))
class_from-length negated byte byte' m m' index (b ∷ c ∷ d ∷ rest) =
    let (same1, more1) =
      class_from-length negated byte byte' (m || c == byte) (m' || c == byte') (index + 2)
        (d ∷ rest) in
    let (same2, more2) =
      class_from-length negated byte byte' (m || (leb b byte && leb byte d))
        (m' || (leb b byte' && leb byte' d)) (index + 3) rest in
    let (same3, more3) =
      class_from-length negated byte byte' (m || b == byte) (m' || b == byte') (index + 1)
        (c ∷ d ∷ rest) in
    (ground (arith, same1, same2, same3), ground (arith, more1, more2, more3))

match_char_class-length :
    (p : List ℕ) (byte byte' : ℕ)
    → ((match_char_class p byte).1 ≡ (match_char_class p byte').1)
      × (1 ≤ (match_char_class p byte).1)
unfolding match_char_class
match_char_class-length [] byte byte' = (refl, omega arith)
match_char_class-length (b ∷ p) byte byte' =
    let (same, more) = class_from-length true byte byte' false false 2 p in
    let (same', more') = class_from-length false byte byte' false false 1 (b ∷ p) in
    (ground (arith, same, same'), ground (arith, more, more'))

pub token-length :
    (b : ℕ) (p : List ℕ) (byte byte' : ℕ)
    → ((match_single_token b p byte).1 ≡ (match_single_token b p byte').1)
      × (1 ≤ (match_single_token b p byte).1)
unfolding match_single_token
token-length b [] byte byte' =
    let (same, more) = match_char_class-length [] byte byte' in
    (ground (arith, same), ground (arith, more))
token-length b (c ∷ p) byte byte' =
    let (same, more) = match_char_class-length (c ∷ p) byte byte' in
    (ground (arith, same), ground (arith, more))

-- The pattern after its first token.
abbrev pub after_token : ℕ → List ℕ → List ℕ
after_token b p = drop (match_single_token b p 0).1 (b ∷ p)

pub after_token-drop :
    (b : ℕ) (p : List ℕ) (c : ℕ) → drop (match_single_token b p c).1 (b ∷ p) ≡ after_token b p
after_token-drop b p c = ap (λ n. drop n (b ∷ p)) (token-length b p c 0).0

pub length-after_token : (b : ℕ) (p : List ℕ) → length (after_token b p) ≤ length p
length-after_token b p =
    omega (arith, length-drop (match_single_token b p 0).1 (b ∷ p), (token-length b p 0 0).1)

-- The texts that a pattern matches: a token matches one byte, and a star any bytes.
pub data Matches : List ℕ → List ℕ → Type 0 where
  ends : Matches [] []
  byte :
      {b c : ℕ} {p s : List ℕ}
      → is_star b ≡ false
      → (match_single_token b p c).0 ≡ true
      → Matches (after_token b p) s
      → Matches (b ∷ p) (c ∷ s)
  leave : {b : ℕ} {p s : List ℕ} → is_star b ≡ true → Matches p s → Matches (b ∷ p) s
  swallow :
      {b c : ℕ} {p s : List ℕ} → is_star b ≡ true → Matches (b ∷ p) s → Matches (b ∷ p) (c ∷ s)

-- A text some rest of which matches.
pub data Later (p : List ℕ) : List ℕ → Type 0 where
  now : {s : List ℕ} → Matches p s → Later p s
  skip : {c : ℕ} {s : List ℕ} → Later p s → Later p (c ∷ s)

pub byte_inv :
    {b c : ℕ} {p s : List ℕ}
    → is_star b ≡ false
    → Matches (b ∷ p) (c ∷ s)
    → ((match_single_token b p c).0 ≡ true) × Matches (after_token b p) s
byte_inv plain (byte h t d) = (t, d)
byte_inv plain (leave h d) = absurd cc
byte_inv plain (swallow h d) = absurd cc

pub no_text : {b : ℕ} {p : List ℕ} → is_star b ≡ false → Matches (b ∷ p) [] → ⊥
no_text plain (leave h d) = cc

pub star-Later : {b : ℕ} {p s : List ℕ} → is_star b ≡ true → Matches (b ∷ p) s → Later p s
star-Later star (byte h t d) = absurd cc
star-Later star (leave h d) = now d
star-Later star (swallow h d) = skip (star-Later star d)

pub Later-star : {b : ℕ} {p s : List ℕ} → is_star b ≡ true → Later p s → Matches (b ∷ p) s
Later-star star (now d) = leave star d
Later-star star (skip d) = swallow star (Later-star star d)

pub Later-end : {p : List ℕ} → Later p [] → Matches p []
Later-end (now d) = d

pub Later-next : {c : ℕ} {p s : List ℕ} → Later p (c ∷ s) → ¬ Matches p (c ∷ s) → Later p s
Later-next (now d) n = absurd (n d)
Later-next (skip d) n = d

-- Two stars are one.
pub Later-Later : {b : ℕ} {p s : List ℕ} → is_star b ≡ true → Later (b ∷ p) s → Later p s
Later-Later star (now d) = star-Later star d
Later-Later star (skip d) = skip (Later-Later star d)

-- Wherever the first token matches, the pattern after it begins one byte later.
pub Later-after_token :
    {b : ℕ} {p : List ℕ} {c : ℕ} (s : List ℕ)
    → is_star b ≡ false
    → Later (b ∷ p) (c ∷ s)
    → Later (after_token b p) s
Later-after_token s plain (now d) = now (byte_inv plain d).1
Later-after_token [] plain (skip (now d)) = absurd (no_text plain d)
Later-after_token (c ∷ s) plain (skip d) = skip (Later-after_token s plain d)

-- Everything ends.
pub Later-all : (s : List ℕ) → Later [] s
Later-all [] = now ends
Later-all (c ∷ s) = skip (Later-all s)

pub Later-skip_stars :
    (p s : List ℕ) → (Later p s → Later (skip_stars p) s) × (Later (skip_stars p) s → Later p s)
unfolding skip_stars
Later-skip_stars [] s = (λ d. d, λ d. d)
Later-skip_stars (b ∷ p) s = elim (Bool-cases (is_star b)) [
  | inl star ↦
      let (to, from) = Later-skip_stars p s in
      rw star (λ d. to (Later-Later star d), λ d. now (Later-star star (from d)))
  | inr plain ↦ rw plain (λ d. d, λ d. d)
]

pub length-skip_stars : (p : List ℕ) → length (skip_stars p) ≤ length p
unfolding skip_stars
length-skip_stars [] = omega arith
length-skip_stars (b ∷ p) = ground (arith, length-skip_stars p)
