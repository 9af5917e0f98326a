-- ===== src/Prelude/Maps.antt =====
-- `HashMap` as an association list with distinct keys: `get`, `insert`, `remove`, `keys`, `values`.
-- A new key goes to the end; the program relies on no order of iteration.
use senko.Prelude.Tests.{if◌then◌else◌, is_some}
use senko.Prelude.Equality.{Eq, ◌=?◌, =?_refl}
use mathlib.Core.Path.{◌≡◌, refl}
use mathlib.Core.Bool.{Bool, false, ◌||◌}
use mathlib.Core.Option.{Option, none, some}
use mathlib.Core.List.{List, [], ◌∷◌}
use native.Mathlib.Omega.{arith}

abbrev pub Map {ℓ κ} : Type ℓ → Type κ → Type (ℓ ⊔ κ)
Map K V = List (K × V)

module _ {ℓ κ} {K : Type ℓ} {V : Type κ} where
  abbrev pub keys : Map K V → List K
  keys [] = []
  keys ((k, v) ∷ m) = k ∷ keys m

  abbrev pub values : Map K V → List V
  values [] = []
  values ((k, v) ∷ m) = v ∷ values m

module _ {ℓ} {K : Type ℓ} ⦃e : Eq K⦄ where
  abbrev pub contains : List K → K → Bool
  contains [] a = false
  contains (x ∷ xs) a = (x =? a) || contains xs a

  -- Distinct keys, as a test.
  abbrev pub AreDistinct : List K → Type 0
  AreDistinct [] = Unit
  AreDistinct (x ∷ xs) = (contains xs x ≡ false) × AreDistinct xs

module _ {ℓ κ} {K : Type ℓ} {V : Type κ} ⦃e : Eq K⦄ where
  unfoldable pub get : Map K V → K → Option V
  get [] k = none
  get ((j, v) ∷ m) k = if j =? k then some v else get m k

  unfoldable pub insert : Map K V → K → V → Map K V
  insert [] k v = (k, v) ∷ []
  insert ((j, w) ∷ m) k v = if j =? k then (k, v) ∷ m else (j, w) ∷ insert m k v

  unfoldable pub remove : Map K V → K → Map K V
  remove [] k = []
  remove ((j, w) ∷ m) k = if j =? k then remove m k else (j, w) ∷ remove m k

  pub get-insert :
      (m : Map K V) (k j : K) (v : V) → get (insert m k v) j ≡ (if k =? j then some v else get m j)
  unfolding get insert
  get-insert [] k j v = refl
  get-insert ((i, w) ∷ m) k j v =
      ground (arith, e.beq_iff k j, e.beq_iff i k, e.beq_iff i j, get-insert m k j v)

  pub get-remove : (m : Map K V) (k j : K) → get (remove m k) j ≡ (if k =? j then none else get m j)
  unfolding get remove
  get-remove [] k j = ground arith
  get-remove ((i, w) ∷ m) k j =
      ground (arith, e.beq_iff k j, e.beq_iff i k, e.beq_iff i j, get-remove m k j)

  pub get-insert_self : (m : Map K V) (k : K) (v : V) → get (insert m k v) k ≡ some v
  get-insert_self m k v = rw (get-insert, =?_refl k)

  pub get-keys : (m : Map K V) (k : K) → is_some (get m k) ≡ contains (keys m) k
  unfolding get
  get-keys [] k = refl
  get-keys ((i, w) ∷ m) k = ground (arith, get-keys m k)
