-- ===== src/Prelude/Sort.antt =====
-- The order of byte strings, and sorting by it. `sort_unstable` of a total order has one result,
-- so insertion stands for it.
use senko.Prelude.Tests.{ltb, ◌==◌, if◌then◌else◌, Bool-cases}
use senko.Prelude.Lists.{length}
use senko.Prelude.Equality.{bytes_eq, bytes_beq_iff}
use senko.Prelude.Maps
use Prim.Native.Nat.{ℕ, suc}
use mathlib.Core.Path.{◌≡◌, refl, ap, ap₂, ◌∙◌}
use mathlib.Core.Bool.{Bool, true, false}
use mathlib.Core.List.{List, [], ◌∷◌, Perm, Permᴰ}
use mathlib.Core.Logic.{∥∥₁_elim, inl, inr}
use native.Mathlib.Omega.{arith}
use native.Mathlib.Nat.{ℕ_set}

-- `Ord` for `[u8]`, as a test for `≤`.
abbrev pub lex_leb : List ℕ → List ℕ → Bool
lex_leb [] b = true
lex_leb (x ∷ xs) [] = false
lex_leb (x ∷ xs) (y ∷ ys) = if ltb x y then true else if x == y then lex_leb xs ys else false

pub lex_leb_total : (a b : List ℕ) → lex_leb a b ≡ false → lex_leb b a ≡ true
lex_leb_total [] b h = ground arith
lex_leb_total (x ∷ xs) [] h = refl
lex_leb_total (x ∷ xs) (y ∷ ys) h = ground (arith, lex_leb_total xs ys)

pub lex_leb_antisymm : (a b : List ℕ) → lex_leb a b ≡ true → lex_leb b a ≡ true → a ≡ b
lex_leb_antisymm [] [] p q = refl
lex_leb_antisymm [] (y ∷ ys) p q = ground arith
lex_leb_antisymm (x ∷ xs) [] p q = ground arith
lex_leb_antisymm (x ∷ xs) (y ∷ ys) p q = ground (arith, lex_leb_antisymm xs ys)

pub lex_leb_trans : (a b c : List ℕ) → lex_leb a b ≡ true → lex_leb b c ≡ true → lex_leb a c ≡ true
lex_leb_trans [] b c p q = refl
lex_leb_trans (x ∷ xs) [] c p q = ground arith
lex_leb_trans (x ∷ xs) (y ∷ ys) [] p q = ground arith
lex_leb_trans (x ∷ xs) (y ∷ ys) (z ∷ zs) p q = ground (arith, lex_leb_trans xs ys zs)

pub insert_sorted : List ℕ → List (List ℕ) → List (List ℕ)
insert_sorted a [] = a ∷ []
insert_sorted a (b ∷ l) = if lex_leb a b then a ∷ b ∷ l else b ∷ insert_sorted a l

unfoldable pub sort : List (List ℕ) → List (List ℕ)
unfolding insert_sorted
sort [] = []
sort (a ∷ l) = insert_sorted a (sort l)

insert_sorted_comm :
    (a b : List ℕ) (l : List (List ℕ))
    → insert_sorted a (insert_sorted b l) ≡ insert_sorted b (insert_sorted a l)
unfolding insert_sorted
insert_sorted_comm a b [] =
    ground (arith, lex_leb_total a b, lex_leb_total b a, lex_leb_antisymm a b)
insert_sorted_comm a b (c ∷ l) = ground (
  arith,
  lex_leb_total a b,
  lex_leb_total b a,
  lex_leb_antisymm a b,
  lex_leb_trans a b c,
  lex_leb_trans b a c,
  insert_sorted_comm a b l,
)

pub length-sort : (l : List (List ℕ)) → length (sort l) ≡ length l
unfolding sort
length-sort [] = refl
length-sort (a ∷ l) = insertion a (sort l) ∙ ap suc (length-sort l)
  where
    insertion : (a : List ℕ) (l : List (List ℕ)) → length (insert_sorted a l) ≡ suc (length l)
    insertion a [] = refl
    insertion a (b ∷ l) = ground (arith, insertion a l)

contains-insert_sorted :
    (a : List ℕ) (l : List (List ℕ)) (k : List ℕ)
    → Maps.contains (insert_sorted a l) k ≡ Maps.contains (a ∷ l) k
unfolding insert_sorted
contains-insert_sorted a [] k = refl
contains-insert_sorted a (b ∷ l) k = ground (arith, contains-insert_sorted a l k)

-- Sorting keeps the members.
pub contains-sort : (l : List (List ℕ)) (k : List ℕ) → Maps.contains (sort l) k ≡ Maps.contains l k
unfolding sort
contains-sort [] k = refl
contains-sort (a ∷ l) k = ground (arith, contains-insert_sorted a (sort l) k, contains-sort l k)

sort-permᴰ : {l l' : List (List ℕ)} → Permᴰ l l' → sort l ≡ sort l'
unfolding sort
sort-permᴰ Permᴰ.nil = refl
sort-permᴰ (Permᴰ.cons e p) = ap₂ insert_sorted e (sort-permᴰ p)
sort-permᴰ (Permᴰ.swap {a} {b} {l = l} e f) =
    insert_sorted_comm a b (sort l) ∙ ap₂ (λ x y. insert_sorted x (insert_sorted y (sort l))) f e
sort-permᴰ (Permᴰ.trans p q) = sort-permᴰ p ∙ sort-permᴰ q

keys_set : IsSet (List (List ℕ))
keys_set = hlevel ℕ_set

-- The result does not depend on the order in which the elements come.
pub sort-perm : {l l' : List (List ℕ)} → Perm l l' → sort l ≡ sort l'
sort-perm p = ∥∥₁_elim p (keys_set _ _) sort-permᴰ

AreDistinct-insert_sorted :
    (a : List ℕ) (l : List (List ℕ))
    → Maps.AreDistinct (a ∷ l)
    → Maps.AreDistinct (insert_sorted a l)
unfolding insert_sorted
AreDistinct-insert_sorted a [] h = h
AreDistinct-insert_sorted a (b ∷ l) (fresh, (other, rest)) = elim (Bool-cases (lex_leb a b)) [
  | inl before ↦ rw (insert_sorted, before) (fresh, (other, rest))
  | inr after ↦
      rw (insert_sorted, after)
        (
          ground (arith, contains-insert_sorted a l b, bytes_beq_iff a b, bytes_beq_iff b a),
          AreDistinct-insert_sorted a l (ground arith, rest),
        )
]

-- Sorting keeps the elements distinct.
pub AreDistinct-sort : (l : List (List ℕ)) → Maps.AreDistinct l → Maps.AreDistinct (sort l)
unfolding sort
AreDistinct-sort [] h = h
AreDistinct-sort (a ∷ l) (fresh, rest) =
    AreDistinct-insert_sorted a (sort l) (rw (contains-sort l a) fresh, AreDistinct-sort l rest)
