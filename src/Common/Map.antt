-- ===== src/Common/Map.antt =====
-- A Go map as an association list, in the order in which `range` visits it.
use mathlib.Core.Path.{◌≡◌, refl}
use mathlib.Core.List.{List, [], ◌∷◌}
use mathlib.Core.Option.{Option, none, some}
use native.Mathlib.Omega.{arith}
use go.Common.Equality.{Eq, ◌==◌, contains}
use go.Common.Tests.{if◌then◌else◌, is_some, Bool-cases}
use mathlib.Core.Logic.{inl, inr}

abbrev pub Map {ℓ κ} : Type ℓ → Type κ → Type (ℓ ⊔ κ)
Map K V = List (K × V)

abbrev pub keys {ℓ κ} : {K : Type ℓ} {V : Type κ} → Map K V → List K
keys [] = []
keys ((k, v) ∷ m) = k ∷ keys m

module _ {ℓ κ} {K : Type ℓ} {V : Type κ} ⦃e : Eq K⦄ where
  -- `v, ok := m[k]`
  unfoldable pub lookup : K → Map K V → Option V
  lookup key [] = none
  lookup key ((name, val) ∷ rest) = if name == key then some val else lookup key rest

  -- `m[k] = v`
  unfoldable pub insert : K → V → Map K V → Map K V
  insert key val [] = (key, val) ∷ []
  insert key val ((j, old) ∷ m) = if j == key then (key, val) ∷ m else (j, old) ∷ insert key val m

  -- `delete(m, k)`
  unfoldable pub delete : K → Map K V → Map K V
  delete k [] = []
  delete k ((j, v) ∷ m) = if j == k then delete k m else (j, v) ∷ delete k m

  pub lookup-insert :
      (key other : K) (val : V) (entries : Map K V)
      → lookup other (insert key val entries)
        ≡ (if key == other then some val else lookup other entries)
  unfolding lookup insert
  lookup-insert key other val [] = refl
  lookup-insert key other val ((name, old) ∷ rest) =
      let below = lookup-insert key other val rest in
      ground (arith, below, e.same_iff key other, e.same_iff name key, e.same_iff name other)

  pub lookup-delete :
      (k j : K) (m : Map K V) → lookup j (delete k m) ≡ (if k == j then none else lookup j m)
  unfolding lookup delete
  lookup-delete k j [] = ground arith
  lookup-delete k j ((i, w) ∷ m) =
      ground (arith, e.same_iff k j, e.same_iff i k, e.same_iff i j, lookup-delete k j m)

  pub lookup-eq-contains : (k : K) (m : Map K V) → is_some (lookup k m) ≡ contains (keys m) k
  unfolding lookup contains
  lookup-eq-contains k [] = refl
  lookup-eq-contains k ((j, v) ∷ m) = ground (arith, lookup-eq-contains k m)

  -- A key stands at most once, as in every Go map.
  unfoldable pub Once : Map K V → Type κ
  Once [] = Unit
  Once ((k, v) ∷ m) = (lookup k m ≡ none) × Once m

  pub delete-Once : (k : K) (m : Map K V) → Once m → Once (delete k m)
  unfolding Once delete
  delete-Once k [] o = tt
  delete-Once k ((j, v) ∷ m) o = elim (Bool-cases (j == k)) [
    | inl here ↦ rw here (delete-Once k m o.1)
    | inr apart ↦ rw apart (ground (arith, lookup-delete k j m), delete-Once k m o.1)
  ]

  pub insert-Once : (k : K) (v : V) (m : Map K V) → Once m → Once (insert k v m)
  unfolding Once insert lookup
  insert-Once k v [] o = (refl, tt)
  insert-Once k v ((j, w) ∷ m) o = elim (Bool-cases (j == k)) [
    | inl here ↦ rw here (ground (arith, e.same_iff j k), o.1)
    | inr apart ↦ rw apart (
      ground (arith, lookup-insert k j v m, e.same_iff j k, e.same_iff k j),
      insert-Once k v m o.1,
    )
  ]
