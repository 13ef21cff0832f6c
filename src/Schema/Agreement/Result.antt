-- ===== src/Schema/Agreement/Result.antt =====
-- evolution.rs: what `evolve` comes to under the policy `fail`, by the changes found.
use opencdc.Base.{
  ◌≡◌, refl, Bool, true, false, Bool-cases, inl, inr, Option-cases, List, [], ◌∷◌, ◌++◌, Text, Map,
  lookup,
}
use opencdc.Base.{if◌then◌else◌, done, failed, ◌||◌}
use opencdc.Core.Json.{SerdeJson}
use opencdc.Schema.Types.{DebeziumField, DebeziumSchema, body, type_eq, resolve_type}
use opencdc.Schema.Evolution.{
  SchemaChange, fail, field_map, type_change, nullability_change, field_change, field_changes, diff,
  apply_policy, is_empty, evolve, optional_eq,
}

module _ (j : SerdeJson)
    (order order_target : Map (DebeziumField j.Value) → Map (DebeziumField j.Value)) where
  abbrev Field : Type 0
  Field = DebeziumField j.Value

  abbrev Change : Type 0
  Change = SchemaChange j.Value

  abbrev Found : Type 0
  Found = List Change × Bool

  abbrev none_found : List Change → Bool
  none_found = is_empty j order order_target

  -- What is breaking is among the changes.
  abbrev Told : Found → Type 0
  Told x = x.1 ≡ true → none_found x.0 ≡ false

  append-Told : (x y : Found) → Told x → Told y → Told (x.0 ++ y.0, x.1 || y.1)
  append-Told ([], true) y hx hy h = cc (hx refl)
  append-Told ([], false) y hx hy h = hy h
  append-Told (c ∷ cs, b) y hx hy h = refl

  type_change-Told : (name : Text) (f g : Field) → Told (type_change j order order_target name f g)
  unfolding type_change
  type_change-Told name f g = elim (Bool-cases (type_eq (resolve_type j f) (resolve_type j g))) [
    | inl equal ↦ rw equal (λ h. cc)
    | inr other ↦ rw other (λ h. refl)
  ]

  nullability_change-Told :
      (name : Text) (f g : Field) → Told (nullability_change j order order_target name f g)
  unfolding nullability_change
  nullability_change-Told name f g =
      elim (Bool-cases (optional_eq (body f).optional (body g).optional)) [
        | inl equal ↦ rw equal (λ h. cc)
        | inr other ↦ rw other (λ h. refl)
      ]

  field_change-Told :
      (target : Map Field) (name : Text) (f : Field)
      → Told (field_change j order order_target target (name, f))
  unfolding field_change
  field_change-Told target name f = elim (Option-cases (lookup name target)) [
    | inl removed ↦ rw (removed, field_change) (λ h. refl)
    | inr (g, kept) ↦
        rw (kept, field_change)
          (append-Told (type_change j order order_target name f g)
            (nullability_change j order order_target name f g) (type_change-Told name f g)
            (nullability_change-Told name f g))
  ]

  field_changes-Told :
      (target entries : Map Field) → Told (field_changes j order order_target target entries)
  unfolding field_changes
  field_changes-Told target [] h = cc
  field_changes-Told target ((name, f) ∷ rest) h =
      append-Told (field_change j order order_target target (name, f))
        (field_changes j order order_target target rest) (field_change-Told target name f)
        (field_changes-Told target rest) h

  nonempty_behind : (a b : List Change) → none_found b ≡ false → none_found (a ++ b) ≡ false
  nonempty_behind [] b h = h
  nonempty_behind (c ∷ a) b h = refl

  breaking_told :
      (current source : DebeziumSchema j.Value)
      → (diff j order order_target current source).is_breaking ≡ true
      → none_found (diff j order order_target current source).changes ≡ false
  unfolding diff
  breaking_told current source h = nonempty_behind _ _ (
      field_changes-Told (field_map j order order_target source)
        (order (field_map j order order_target current)) h)

  -- Under `fail` the result is the current schema or the list of the changes.
  pub evolve_fail_lem :
      (current source : DebeziumSchema j.Value)
      → evolve j order order_target fail current source ≡ (
          if is_empty j order order_target (diff j order order_target current source).changes
          then done current
          else failed (diff j order order_target current source).changes)
  unfolding evolve apply_policy
  evolve_fail_lem current source =
      elim (Bool-cases (diff j order order_target current source).is_breaking) [
        | inl breaking ↦ rw (breaking, breaking_told current source breaking) refl
        | inr calm ↦ rw calm refl
      ]
