-- ===== src/Schema/Agreement.antt =====
-- evolution.rs: when two schemas agree for `evolve` under the policy `fail`.
pub mod Fields
pub mod Result
use opencdc.Base.{
  ◌≡◌, refl, ap, sym, ◌∙◌, ◌↔◌, true, false, Bool-cases, inl, inr, none, some, Option-cases, List,
  [], ◌∷◌, All, Text, Map, lookup, same, done, failed, if◌then◌else◌,
}
use opencdc.Core.Json.{SerdeJson}
use opencdc.Schema.Types.{DebeziumField, DebeziumSchema}
use opencdc.Schema.Evolution.{SchemaChange, fail, field_map, added_fields, diff, evolve}
use opencdc.Schema.Agreement.Result.{evolve_fail_lem}
use opencdc.Schema.Agreement.Fields.{
  Agree, no_changes, no_changes-append, append-no_changes, added_none, none_added, all_unchanged,
  none_changed,
}

module _ (j : SerdeJson)
    (order order_target : Map (DebeziumField j.Value) → Map (DebeziumField j.Value)) where
  abbrev Field : Type 0
  Field = DebeziumField j.Value

  abbrev Change : Type 0
  Change = SchemaChange j.Value

  -- The entries of `visited` are those of the map `m`.
  pub record Visits (visited m : Map Field) : Type 0 where
    pub only : All (λ (k, f). lookup k m ≡ some f) visited
    pub every : (k : Text) (f : Field) → lookup k m ≡ some f → lookup k visited ≡ some f

  abbrev map_of : DebeziumSchema j.Value → Map Field
  map_of = field_map j order order_target

  abbrev changes_of : DebeziumSchema j.Value → DebeziumSchema j.Value → List Change
  changes_of current source = (diff j order order_target current source).changes

  no_changes→Agree :
      (current source : DebeziumSchema j.Value)
      → Visits (order (map_of current)) (map_of current)
      → Visits (order_target (map_of source)) (map_of source)
      → no_changes j order order_target (changes_of current source) ≡ true
      → (name : Text)
      → Agree j order order_target (lookup name (map_of current)) (lookup name (map_of source))
  unfolding diff
  no_changes→Agree current source v w h name =
      let parts =
        no_changes-append j order order_target
          (added_fields j order order_target (map_of current) _) _ h in
      elim (Option-cases (lookup name (map_of current))) [
        | inr (f, known) ↦ rw known (
            all_unchanged j order order_target (map_of source) _ name f parts.1
              (v.every name f known))
        | inl absent ↦ elim (Option-cases (lookup name (map_of source))) [
          | inl none_there ↦ rw absent rw none_there tt
          | inr (g, found) ↦ absurd (
              added_none j order order_target (map_of current) _ name g parts.0
                (w.every name g found) absent)
        ]
      ]

  Agree→no_changes :
      (current source : DebeziumSchema j.Value)
      → Visits (order (map_of current)) (map_of current)
      → Visits (order_target (map_of source)) (map_of source)
      → ((name : Text)
          → Agree j order order_target (lookup name (map_of current)) (lookup name (map_of source)))
      → no_changes j order order_target (changes_of current source) ≡ true
  unfolding diff
  Agree→no_changes current source v w h =
      append-no_changes j order order_target (added_fields j order order_target (map_of current) _)
        _ (none_added j order order_target (map_of current) _ (all_known _ w.only))
        (none_changed j order order_target (map_of source) _ (all_agree _ v.only))
    where
      one_known :
          (k : Text) (g : Field)
          → lookup k (map_of source) ≡ some g
          → Agree j order order_target (lookup k (map_of current)) (lookup k (map_of source))
          → lookup k (map_of current) ≡ none
          → ⊥
      one_known k g found agreed absent = let without = rw absent at agreed in rw found at without

      all_known :
          (entries : Map Field)
          → All (λ (k, g). lookup k (map_of source) ≡ some g) entries
          → All (λ (k, g). lookup k (map_of current) ≡ none → ⊥) entries
      all_known [] l = tt
      all_known ((k, g) ∷ rest) l = (one_known k g l.0 (h k), all_known rest l.1)

      all_agree :
          (entries : Map Field)
          → All (λ (k, f). lookup k (map_of current) ≡ some f) entries
          → All (λ (k, f). Agree j order order_target (some f) (lookup k (map_of source))) entries
      all_agree [] l = tt
      all_agree ((k, f) ∷ rest) l = let agreed = h k in (rw l.0 at agreed, all_agree rest l.1)

  -- Where the orders visit the entries of the two maps: under the policy `fail` a schema is accepted,
  -- unchanged, exactly when for every name either both schemas have a field of that name, of the same
  -- resolved type and the same `optional`, or neither has one. Nested fields and parameters are not
  -- compared, and an added field is enough for a refusal.
  pub evolve-fail :
      (current source : DebeziumSchema j.Value)
      → Visits
          (order (field_map j order order_target current))
          (field_map j order order_target current)
      → Visits
          (order_target (field_map j order order_target source))
          (field_map j order order_target source)
      → (evolve j order order_target fail current source ≡ done current) ↔ (
          (name : Text)
          → Agree j order order_target
              (lookup name (field_map j order order_target current))
              (lookup name (field_map j order order_target source)))
  evolve-fail current source v w = (
    λ accepted. elim (Bool-cases (no_changes j order order_target (changes_of current source))) [
      | inl same_fields ↦ no_changes→Agree current source v w same_fields
      | inr differ ↦ absurd (
          not_accepted
            (sym (evolve_fail_lem j order order_target current source ∙ chosen differ) ∙ accepted))
    ],
    λ agree.
        evolve_fail_lem j order order_target current source
        ∙ ap (λ b. if b then done current else failed (changes_of current source))
            (Agree→no_changes current source v w agree),
  )
    where
      chosen :
          no_changes j order order_target (changes_of current source) ≡ false
          → (if no_changes j order order_target (changes_of current source)
              then done current
              else failed (changes_of current source))
            ≡ failed (changes_of current source)
      chosen differ = rw differ refl

      not_accepted : failed (changes_of current source) ≡ done current → ⊥
      not_accepted e = cc
