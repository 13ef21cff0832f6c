-- ===== src/Schema/Evolution.antt =====
-- crates/opencdc-schema/src/evolution.rs: the differences of two schemas, and the evolved schema.
-- `order` and `order_target` are the orders in which the two hash maps' entries are visited; the maps are made by inserting
-- the fields one by one, a later field of a name replacing an earlier one.
use opencdc.Base.{
  Bool, true, false, ◌&&◌, ◌||◌, Option, none, some, List, [], ◌∷◌, ◌++◌, Text, Map, lookup, insert,
}
use opencdc.Base.{if◌then◌else◌, Outcome, done, failed}
use opencdc.Core.Json.{SerdeJson}
use opencdc.Schema.Types.{
  DebeziumSchemaType, DebeziumField, DebeziumSchema, body, resolve_type, type_eq,
}

pub data SchemaChange (V : Type 0) : Type 0 where
  field_added field_removed : DebeziumField V → SchemaChange V
  field_type_changed : Text → DebeziumSchemaType → DebeziumSchemaType → SchemaChange V
  field_nullability_changed : Text → Bool → Bool → SchemaChange V

pub record SchemaDiff (V : Type 0) : Type 0 where
  pub changes : List (SchemaChange V)
  pub is_breaking : Bool

pub data EvolutionPolicy : Type 0 where
  auto_add warn fail : EvolutionPolicy

abbrev pub is_fail : EvolutionPolicy → Bool
is_fail fail = true
is_fail _ = false

abbrev pub optional_eq : Option Bool → Option Bool → Bool
optional_eq none none = true
optional_eq (some true) (some true) = true
optional_eq (some false) (some false) = true
optional_eq _ _ = false

abbrev unwrap_or_false : Option Bool → Bool
unwrap_or_false none = false
unwrap_or_false (some b) = b

abbrev pub fields_or_nil : {V : Type 0} → Option (List (DebeziumField V)) → List (DebeziumField V)
fields_or_nil none = []
fields_or_nil (some fs) = fs

module _ (j : SerdeJson)
    (order order_target : Map (DebeziumField j.Value) → Map (DebeziumField j.Value)) where
  abbrev Field : Type 0
  Field = DebeziumField j.Value

  abbrev Change : Type 0
  Change = SchemaChange j.Value

  unfoldable pub collect : List Field → Map Field → Map Field
  collect [] m = m
  collect (f ∷ fs) m = collect fs (insert (body f).field_name f m)

  unfoldable pub field_map : DebeziumSchema j.Value → Map Field
  field_map schema = collect (fields_or_nil schema.fields) []

  -- The first loop: fields that only the target has.
  unfoldable pub added_fields : Map Field → Map Field → List Change
  added_fields source_fields [] = []
  added_fields source_fields ((name, f) ∷ rest) = elim (lookup name source_fields) [
    | none ↦ field_added f ∷ added_fields source_fields rest
    | some g ↦ added_fields source_fields rest
  ]

  unfoldable pub type_change : Text → Field → Field → List Change × Bool
  type_change name f target =
      if type_eq (resolve_type j f) (resolve_type j target)
      then ([], false)
      else (field_type_changed name (resolve_type j f) (resolve_type j target) ∷ [], true)

  unfoldable pub nullability_change : Text → Field → Field → List Change × Bool
  nullability_change name f target =
      let was = (body f).optional in
      let now = (body target).optional in
      if optional_eq was now then ([], false) else (
        field_nullability_changed name (unwrap_or_false was) (unwrap_or_false now) ∷ [],
        optional_eq was (some false) && optional_eq now (some true),
      )

  -- One round of the second loop.
  unfoldable pub field_change : Map Field → Text × Field → List Change × Bool
  field_change target_fields (name, f) = elim (lookup name target_fields) [
    | none ↦ (field_removed f ∷ [], true)
    | some target ↦
        let types = type_change name f target in
        let nullability = nullability_change name f target in
        (types.0 ++ nullability.0, types.1 || nullability.1)
  ]

  -- The second loop, over the source's fields.
  unfoldable pub field_changes : Map Field → Map Field → List Change × Bool
  field_changes target_fields [] = ([], false)
  field_changes target_fields (entry ∷ rest) =
      let here = field_change target_fields entry in
      let later = field_changes target_fields rest in (here.0 ++ later.0, here.1 || later.1)

  unfoldable pub diff : DebeziumSchema j.Value → DebeziumSchema j.Value → SchemaDiff j.Value
  diff source target =
      let source_fields = field_map source in
      let target_fields = field_map target in
      let changed = field_changes target_fields (order source_fields) in
      record {
        changes = added_fields source_fields (order_target target_fields) ++ changed.0;
        is_breaking = changed.1;
      }

  -- The loop that pushes the added fields.
  unfoldable pub push_added : List Change → List Field → List Field
  push_added [] fields = fields
  push_added (field_added f ∷ changes) fields = push_added changes (fields ++ (f ∷ []))
  push_added (_ ∷ changes) fields = push_added changes fields

  -- `evolve` behind its first two tests; a warning is only logged.
  unfoldable pub apply_policy :
      EvolutionPolicy
      → List Change
      → DebeziumSchema j.Value
      → Outcome (List Change) (DebeziumSchema j.Value)
  apply_policy fail changes current = failed changes
  apply_policy _ changes current =
      done (record current { fields = some (push_added changes (fields_or_nil current.fields)) })

  abbrev pub is_empty : List Change → Bool
  is_empty [] = true
  is_empty (c ∷ cs) = false

  unfoldable pub evolve :
      EvolutionPolicy
      → DebeziumSchema j.Value
      → DebeziumSchema j.Value
      → Outcome (List Change) (DebeziumSchema j.Value)
  evolve policy current source =
      let found = diff current source in
      if found.is_breaking && is_fail policy
      then failed found.changes
      else if is_empty found.changes
      then done current
      else apply_policy policy found.changes current
