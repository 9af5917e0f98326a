-- ===== src/Prelude/Search.antt =====
-- The first occurrence of a byte: what the crate `memchr` documents, and where a text has a mark.
use senko.Prelude.Tests.{==_refl}
use senko.Prelude.Lists.{length, position}
use senko.Prelude.Equality.{nat_eq}
use senko.Prelude.Maps
use Prim.Native.Nat.{ℕ}
use mathlib.Core.Path.{◌≡◌}
use mathlib.Core.Bool.{false}
use mathlib.Core.Option.{Option, some}
use mathlib.Core.List.{List, [], ◌∷◌, ◌++◌}
use native.Mathlib.Omega.{arith}

-- The documented result of `memchr`: the index of the first occurrence.
abbrev pub FindsFirst : (ℕ → List ℕ → Option ℕ) → Type 0
FindsFirst memchr = (c : ℕ) (xs : List ℕ) → memchr c xs ≡ position c xs

pub position-append :
    (c : ℕ) (xs ys : List ℕ)
    → Maps.contains xs c ≡ false
    → position c (xs ++ (c ∷ ys)) ≡ some (length xs)
unfolding position
position-append c [] ys h = rw (==_refl c)
position-append c (x ∷ xs) ys h = ground (arith, position-append c xs ys)
