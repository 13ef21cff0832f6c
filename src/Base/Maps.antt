-- ===== src/Base/Maps.antt =====
-- A map keyed by texts, as the list of its entries. Inserting replaces the entry of that key or adds
-- one at the end; a program that iterates over a hash map sees the entries in an order of its own.
use mathlib.Core.Path.{◌≡◌, refl, ap}
use mathlib.Core.Bool.{false}
use mathlib.Core.Option.{Option, none, some}
use mathlib.Core.List.{List, [], ◌∷◌}
use native.Mathlib.Omega.{arith}
use opencdc.Base.Tests.{if◌then◌else◌, Bool-cases}
use mathlib.Core.Logic.{inl, inr}
use opencdc.Base.Texts.{Text, same, same_iff}

abbrev pub Map {ℓ} : Type ℓ → Type ℓ
Map V = List (Text × V)

module _ {ℓ} {V : Type ℓ} where
  unfoldable pub lookup : Text → Map V → Option V
  lookup k [] = none
  lookup k ((j, v) ∷ m) = if same j k then some v else lookup k m

  unfoldable pub insert : Text → V → Map V → Map V
  insert k v [] = (k, v) ∷ []
  insert k v ((j, w) ∷ m) = if same j k then (j, v) ∷ m else (j, w) ∷ insert k v m

  unfoldable pub update : Text → (V → V) → Map V → Map V
  update k f [] = []
  update k f ((j, w) ∷ m) = if same j k then (j, f w) ∷ m else (j, w) ∷ update k f m

  pub lookup-insert :
      (k j : Text) (v : V) (m : Map V)
      → lookup j (insert k v m) ≡ (if same k j then some v else lookup j m)
  unfolding lookup insert
  lookup-insert k j v [] = refl
  lookup-insert k j v ((i, w) ∷ m) =
      ground (arith, same_iff k j, same_iff i k, same_iff i j, lookup-insert k j v m)

  some_injective : (a b : V) → some a ≡ some b → a ≡ b
  some_injective a b h = cc

  -- What is found under a key that is updated.
  pub lookup-update :
      (k : Text) (f : V → V) (m : Map V) (a : V)
      → lookup k m ≡ some a
      → lookup k (update k f m) ≡ some (f a)
  unfolding lookup update
  lookup-update k f [] a h = cc
  lookup-update k f ((j, w) ∷ m) a h = elim (Bool-cases (same j k)) [
    | inl here ↦ rw here rw here (ap (λ b. some (f b)) (some_injective w a (rw here at h)))
    | inr there ↦ rw there rw there (lookup-update k f m a (rw there at h))
  ]

  -- An update leaves what is found under another key.
  pub lookup-update_other :
      (j k : Text) (f : V → V) (m : Map V) → same k j ≡ false → lookup j (update k f m) ≡ lookup j m
  unfolding lookup update
  lookup-update_other j k f [] other = refl
  lookup-update_other j k f ((i, w) ∷ m) other =
      ground (arith, same_iff k j, same_iff i k, same_iff i j, lookup-update_other j k f m other)
