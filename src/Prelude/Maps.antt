-- ===== src/Prelude/Maps.antt =====
-- `BTreeMap` and `BTreeSet` as association lists in key order. The laws need no order: a lookup
-- reads the first entry of its key, and a removal drops every entry of it.
use Prim.Native.Nat.Ordering.{lt, eq, gt}
use mathlib.Core.Path.{◌≡◌, refl}
use mathlib.Core.Bool.{Bool, false, ◌||◌}
use mathlib.Core.Option.{Option, none, some}
use mathlib.Core.List.{List, [], ◌∷◌}
use native.Mathlib.Omega.{arith}
use mariadb_mysql_cdc.Prelude.Tests.{if◌then◌else◌}
use mariadb_mysql_cdc.Prelude.Keys.{Ord, ◌=?◌, =?_iff, cmp_of_eq}

abbrev pub Map {ℓ κ} : Type ℓ → Type κ → Type (ℓ ⊔ κ)
Map K V = List (K × V)

module _ {ℓ κ} {K : Type ℓ} {V : Type κ} ⦃o : Ord K⦄ where
  unfoldable pub lookup : K → Map K V → Option V
  lookup k [] = none
  lookup k ((j, v) ∷ m) = if j =? k then some v else lookup k m

  unfoldable pub insert : K → V → Map K V → Map K V
  insert k v [] = (k, v) ∷ []
  insert k v ((j, w) ∷ m) = elim (o.cmp k j) [
    | lt ↦ (k, v) ∷ (j, w) ∷ m
    | eq ↦ (k, v) ∷ m
    | gt ↦ (j, w) ∷ insert k v m
  ]

  unfoldable pub remove : K → Map K V → Map K V
  remove k [] = []
  remove k ((j, w) ∷ m) = let rest = remove k m in if j =? k then rest else (j, w) ∷ rest

  pub lookup-insert :
      (k j : K) (v : V) (m : Map K V)
      → lookup j (insert k v m) ≡ (if k =? j then some v else lookup j m)
  unfolding lookup insert
  lookup-insert k j v [] = refl
  lookup-insert k j v ((i, w) ∷ m) = ground (
    arith,
    =?_iff k j,
    =?_iff i k,
    =?_iff i j,
    cmp_of_eq k i,
    o.eq_of_cmp k i,
    lookup-insert k j v m,
  )

  pub lookup-remove :
      (k j : K) (m : Map K V) → lookup j (remove k m) ≡ (if k =? j then none else lookup j m)
  unfolding lookup remove
  lookup-remove k j [] = ground arith
  lookup-remove k j ((i, w) ∷ m) =
      ground (arith, =?_iff k j, =?_iff i k, =?_iff i j, lookup-remove k j m)

-- Sets.
module _ {ℓ} {K : Type ℓ} ⦃o : Ord K⦄ where
  unfoldable pub contains : K → List K → Bool
  contains k [] = false
  contains k (j ∷ s) = (j =? k) || contains k s

  unfoldable pub insert_set : K → List K → List K
  insert_set k [] = k ∷ []
  insert_set k (j ∷ s) = elim (o.cmp k j) [ lt ↦ k ∷ j ∷ s | eq ↦ j ∷ s | gt ↦ j ∷ insert_set k s ]

  unfoldable pub remove_set : K → List K → List K
  remove_set k [] = []
  remove_set k (j ∷ s) = let rest = remove_set k s in if j =? k then rest else j ∷ rest

  pub contains-insert_set :
      (k j : K) (s : List K) → contains j (insert_set k s) ≡ ((k =? j) || contains j s)
  unfolding contains insert_set
  contains-insert_set k j [] = refl
  contains-insert_set k j (i ∷ s) =
      ground
        (arith, =?_iff k j, =?_iff i j, cmp_of_eq k i, o.eq_of_cmp k i, contains-insert_set k j s)

  pub contains-remove_set :
      (k j : K) (s : List K)
      → contains j (remove_set k s) ≡ (if k =? j then false else contains j s)
  unfolding contains remove_set
  contains-remove_set k j [] = ground arith
  contains-remove_set k j (i ∷ s) =
      ground (arith, =?_iff k j, =?_iff i k, =?_iff i j, contains-remove_set k j s)
