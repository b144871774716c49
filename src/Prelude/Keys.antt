-- ===== src/Prelude/Keys.antt =====
-- The bound `Ord` on the keys of the program's `BTreeMap`s and `BTreeSet`s, and Rust's `str` as
-- its bytes, which compares lexicographically.
use Prim.Native.Nat.{ℕ, compare, Ordering}
use Prim.Native.Nat.Ordering.{lt, eq, gt}
use Prim.Native.Char.{code}
use Prim.Native.String.{String}
use mathlib.Core.Path.{◌≡◌, refl}
use mathlib.Core.Logic.{◌↔◌}
use mathlib.Core.Bool.{Bool, true, false}
use mathlib.Core.List.{List, [], ◌∷◌}
use native.Mathlib.Omega.{arith}

pub record Ord {ℓ} (K : Type ℓ) : Type ℓ where
  pub cmp : K → K → Ordering
  pub cmp_refl : (a : K) → cmp a a ≡ eq
  pub eq_of_cmp : (a b : K) → cmp a b ≡ eq → a ≡ b

module _ {ℓ} {K : Type ℓ} ⦃o : Ord K⦄ where
  pub cmp_of_eq : (a b : K) → a ≡ b → o.cmp a b ≡ eq
  cmp_of_eq a b h = rw h (o.cmp_refl b)

  infix 50 ◌=?◌
  unfoldable pub ◌=?◌ : K → K → Bool
  a =? b = elim (o.cmp a b) [ eq ↦ true | _ ↦ false ]

  pub =?_iff : (a b : K) → ((a =? b) ≡ true) ↔ (a ≡ b)
  unfolding ◌=?◌
  =?_iff a b = (λ h. ground (arith, o.eq_of_cmp a b), λ h. rw h (rw (o.cmp_refl b, ◌=?◌)))

-- A text as its bytes.
abbrev pub Name : Type 0
Name = List ℕ

abbrev pub codes : String → Name
codes String.[] = []
codes (String.◌∷◌ c s) = code c ∷ codes s

abbrev pub cmp_name : Name → Name → Ordering
cmp_name [] [] = eq
cmp_name [] (_ ∷ _) = lt
cmp_name (_ ∷ _) [] = gt
cmp_name (x ∷ xs) (y ∷ ys) =
    let rest = cmp_name xs ys in elim (compare x y) [ eq ↦ rest | lt ↦ lt | gt ↦ gt ]

pub cmp_name_refl : (a : Name) → cmp_name a a ≡ eq
cmp_name_refl [] = refl
cmp_name_refl (x ∷ xs) = ground (arith, cmp_name_refl xs)

pub eq_of_cmp_name : (a b : Name) → cmp_name a b ≡ eq → a ≡ b
eq_of_cmp_name [] [] h = refl
eq_of_cmp_name [] (_ ∷ _) h = ground arith
eq_of_cmp_name (_ ∷ _) [] h = ground arith
eq_of_cmp_name (x ∷ xs) (y ∷ ys) h = ground (arith, eq_of_cmp_name xs ys)

instance abbrev pub name_ord : Ord Name
name_ord = record { cmp = cmp_name; cmp_refl = cmp_name_refl; eq_of_cmp = eq_of_cmp_name }

pub compare_refl : (a : ℕ) → compare a a ≡ eq
compare_refl a = ground arith

pub eq_of_compare : (a b : ℕ) → compare a b ≡ eq → a ≡ b
eq_of_compare a b h = ground arith

instance abbrev pub nat_ord : Ord ℕ
nat_ord = record { cmp = compare; cmp_refl = compare_refl; eq_of_cmp = eq_of_compare }

-- A key of several columns.
abbrev pub Key : Type 0
Key = List Name

abbrev pub cmp_key : Key → Key → Ordering
cmp_key [] [] = eq
cmp_key [] (_ ∷ _) = lt
cmp_key (_ ∷ _) [] = gt
cmp_key (x ∷ xs) (y ∷ ys) =
    let rest = cmp_key xs ys in elim (cmp_name x y) [ eq ↦ rest | lt ↦ lt | gt ↦ gt ]

pub cmp_key_refl : (a : Key) → cmp_key a a ≡ eq
cmp_key_refl [] = refl
cmp_key_refl (x ∷ xs) = ground (arith, cmp_name_refl x, cmp_key_refl xs)

pub eq_of_cmp_key : (a b : Key) → cmp_key a b ≡ eq → a ≡ b
eq_of_cmp_key [] [] h = refl
eq_of_cmp_key [] (_ ∷ _) h = ground arith
eq_of_cmp_key (_ ∷ _) [] h = ground arith
eq_of_cmp_key (x ∷ xs) (y ∷ ys) h = ground (arith, eq_of_cmp_name x y, eq_of_cmp_key xs ys)

instance abbrev pub key_ord : Ord Key
key_ord = record { cmp = cmp_key; cmp_refl = cmp_key_refl; eq_of_cmp = eq_of_cmp_key }

module _ {ℓ κ} {A : Type ℓ} {B : Type κ} ⦃o : Ord A⦄ ⦃p : Ord B⦄ where
  abbrev pub cmp_pair : A × B → A × B → Ordering
  cmp_pair x y = let rest = p.cmp x.1 y.1 in elim (o.cmp x.0 y.0) [ eq ↦ rest | lt ↦ lt | gt ↦ gt ]

  pub cmp_pair_refl : (x : A × B) → cmp_pair x x ≡ eq
  cmp_pair_refl x = ground (arith, o.cmp_refl x.0, p.cmp_refl x.1)

  pub eq_of_cmp_pair : (x y : A × B) → cmp_pair x y ≡ eq → x ≡ y
  eq_of_cmp_pair (a, b) (c, d) h = ground (arith, o.eq_of_cmp a c, p.eq_of_cmp b d)

  instance abbrev pub pair_ord : Ord (A × B)
  pair_ord = record { cmp = cmp_pair; cmp_refl = cmp_pair_refl; eq_of_cmp = eq_of_cmp_pair }
