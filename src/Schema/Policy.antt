-- ===== src/Schema/Policy.antt =====
-- evolution.rs: `evolve` under each policy.
use opencdc.Base.{
  ◌≡◌, refl, ap, sym, ◌∙◌, Bool, true, false, Bool-cases, inl, inr, Option, none, some,
  Option-cases, List, [], ◌∷◌, ◌++◌, Text, Map, lookup,
}
use opencdc.Base.{done, ◌&&◌}
use opencdc.Core.Json.{SerdeJson}
use opencdc.Schema.Types.{DebeziumField, DebeziumSchema, body, type_eq, resolve_type}
use opencdc.Schema.Evolution.{
  SchemaChange, field_added, EvolutionPolicy, auto_add, warn, fail, is_fail, fields_or_nil,
  field_map, added_fields, type_change, nullability_change, field_change, field_changes, diff,
  push_added, apply_policy, is_empty, evolve, optional_eq,
}
use mathlib.Core.List.{append_assoc, append-nil}

module _ (j : SerdeJson)
    (order order_target : Map (DebeziumField j.Value) → Map (DebeziumField j.Value)) where
  abbrev Field : Type 0
  Field = DebeziumField j.Value

  abbrev Change : Type 0
  Change = SchemaChange j.Value

  abbrev push : List Change → List Field → List Field
  push = push_added j order order_target

  abbrev in_front : Option Field → Field → List Field → List Field
  in_front none f fs = f ∷ fs
  in_front (some known) f fs = fs

  -- The fields of the entries that a map has no entry for.
  abbrev pub absent : Map Field → Map Field → List Field
  absent known [] = []
  absent known ((name, f) ∷ rest) = in_front (lookup name known) f (absent known rest)

  push-append : (a b : List Change) (fs : List Field) → push (a ++ b) fs ≡ push b (push a fs)
  unfolding push_added
  push-append [] b fs = refl
  push-append (field_added f ∷ a) b fs = push-append a b (fs ++ (f ∷ []))
  push-append (SchemaChange.field_removed f ∷ a) b fs = push-append a b fs
  push-append (SchemaChange.field_type_changed n o w ∷ a) b fs = push-append a b fs
  push-append (SchemaChange.field_nullability_changed n o w ∷ a) b fs = push-append a b fs

  push-type_change :
      (name : Text) (f g : Field) (fs : List Field)
      → push (type_change j order order_target name f g).0 fs ≡ fs
  unfolding type_change push_added
  push-type_change name f g fs = elim (Bool-cases (type_eq (resolve_type j f) (resolve_type j g))) [
    | inl equal ↦ rw equal refl
    | inr other ↦ rw other refl
  ]

  push-nullability_change :
      (name : Text) (f g : Field) (fs : List Field)
      → push (nullability_change j order order_target name f g).0 fs ≡ fs
  unfolding nullability_change push_added
  push-nullability_change name f g fs =
      elim (Bool-cases (optional_eq (body f).optional (body g).optional)) [
        | inl equal ↦ rw equal refl
        | inr other ↦ rw other refl
      ]

  push-field_change :
      (target : Map Field) (name : Text) (f : Field) (fs : List Field)
      → push (field_change j order order_target target (name, f)).0 fs ≡ fs
  unfolding field_change
  push-field_change target name f fs = elim (Option-cases (lookup name target)) [
    | inl removed ↦ rw (removed, field_change) (unfold push_added in refl)
    | inr (g, kept) ↦
        rw (kept, field_change)
          (push-append (type_change j order order_target name f g).0 _ fs
            ∙ ap (push (nullability_change j order order_target name f g).0)
                (push-type_change name f g fs)
            ∙ push-nullability_change name f g fs)
  ]

  push-field_changes :
      (target entries : Map Field) (fs : List Field)
      → push (field_changes j order order_target target entries).0 fs ≡ fs
  unfolding field_changes
  push-field_changes target [] fs = unfold push_added in refl
  push-field_changes target ((name, f) ∷ rest) fs =
      push-append (field_change j order order_target target (name, f)).0 _ fs
      ∙ ap (push (field_changes j order order_target target rest).0)
          (push-field_change target name f fs)
      ∙ push-field_changes target rest fs

  push-added_fields :
      (known entries : Map Field) (fs : List Field)
      → push (added_fields j order order_target known entries) fs ≡ fs ++ absent known entries
  unfolding added_fields push_added
  push-added_fields known [] fs = sym (append-nil fs)
  push-added_fields known ((name, f) ∷ rest) fs = elim (Option-cases (lookup name known)) [
    | inl new_name ↦
        rw (new_name, added_fields)
          (push-added_fields known rest (fs ++ (f ∷ []))
            ∙ append_assoc fs (f ∷ []) (absent known rest))
    | inr (g, old) ↦ rw (old, added_fields) (push-added_fields known rest fs)
  ]

  push-diff :
      (current source : DebeziumSchema j.Value) (fs : List Field)
      → push (diff j order order_target current source).changes fs
        ≡ fs
          ++ absent
              (field_map j order order_target current)
              (order_target (field_map j order order_target source))
  unfolding diff
  push-diff current source fs =
      push-append (added_fields j order order_target known new) changed fs
      ∙ ap (push changed) (push-added_fields known new fs)
      ∙ push-field_changes (field_map j order order_target source) (order known)
          (fs ++ absent known new)
    where
      known : Map Field
      known = field_map j order order_target current

      new : Map Field
      new = order_target (field_map j order order_target source)

      changed : List Change
      changed =
          (field_changes j order order_target (field_map j order order_target source)
            (order known)).0

  and_false : (b : Bool) → (b && false) ≡ false
  and_false true = refl
  and_false false = refl

  -- Under the policies other than `fail`, where the schemas differ: the evolved schema is the current one
  -- with its fields kept, in their order, and behind them the fields of the source whose names the current
  -- schema does not have, in the order in which the source's map is visited. Nothing is removed or retyped.
  pub evolve_adds :
      (policy : EvolutionPolicy) (current source : DebeziumSchema j.Value)
      → is_fail policy ≡ false
      → is_empty j order order_target (diff j order order_target current source).changes ≡ false
      → evolve j order order_target policy current source
        ≡ done (record current {
          fields = some (
              fields_or_nil current.fields
              ++ absent
                  (field_map j order order_target current)
                  (order_target (field_map j order order_target source)));
        })
  unfolding evolve apply_policy
  evolve_adds auto_add current source lenient differs =
      rw (and_false (diff j order order_target current source).is_breaking, differs)
        (ap (λ fs. done (record current { fields = some fs }))
          (push-diff current source (fields_or_nil current.fields)))
  evolve_adds warn current source lenient differs =
      rw (and_false (diff j order order_target current source).is_breaking, differs)
        (ap (λ fs. done (record current { fields = some fs }))
          (push-diff current source (fields_or_nil current.fields)))
  evolve_adds fail current source lenient differs = cc
