-- ===== src/Schema/Agreement/Fields.antt =====
-- evolution.rs: fields that agree, and the changes that are found between them.
use opencdc.Base.{
  ◌≡◌, refl, ap, sym, ◌∙◌, Bool, true, false, Bool-cases, inl, inr, Option, none, some,
  Option-cases, List, [], ◌∷◌, ◌++◌, All, Text, Map, lookup, same, same→eq,
}
use opencdc.Core.Json.{SerdeJson}
use opencdc.Schema.Types.{DebeziumField, body, type_eq, resolve_type}
use opencdc.Schema.Evolution.{
  SchemaChange, added_fields, type_change, nullability_change, field_change, field_changes,
  is_empty, optional_eq,
}

module _ (j : SerdeJson)
    (order order_target : Map (DebeziumField j.Value) → Map (DebeziumField j.Value)) where
  abbrev Field : Type 0
  Field = DebeziumField j.Value

  abbrev Change : Type 0
  Change = SchemaChange j.Value

  -- Both schemas have a field of the name, of the same resolved type and with the same `optional`, or
  -- neither has one.
  abbrev pub Agree : Option Field → Option Field → Type 0
  Agree none none = Unit
  Agree none (some g) = ⊥
  Agree (some f) none = ⊥
  Agree (some f) (some g) =
      (type_eq (resolve_type j f) (resolve_type j g) ≡ true)
      × ((body f).optional ≡ (body g).optional)

  abbrev pub no_changes : List Change → Bool
  no_changes = is_empty j order order_target

  pub no_changes-append :
      (a b : List Change)
      → no_changes (a ++ b) ≡ true
      → (no_changes a ≡ true) × (no_changes b ≡ true)
  no_changes-append [] b h = (refl, h)
  no_changes-append (c ∷ a) b h = cc

  pub append-no_changes :
      (a b : List Change) → no_changes a ≡ true → no_changes b ≡ true → no_changes (a ++ b) ≡ true
  append-no_changes [] b h k = k
  append-no_changes (c ∷ a) b h k = cc

  abbrev change : Map Field → Text → Field → List Change × Bool
  change target name f = field_change j order order_target target (name, f)

  not_both : false ≡ true → ⊥
  not_both h = cc

  type_unchanged :
      (name : Text) (f g : Field)
      → no_changes (type_change j order order_target name f g).0 ≡ true
      → type_eq (resolve_type j f) (resolve_type j g) ≡ true
  unfolding type_change
  type_unchanged name f g h = elim (Bool-cases (type_eq (resolve_type j f) (resolve_type j g))) [
    | inl equal ↦ equal
    | inr other ↦ absurd (not_both (rw (type_change, other) at h))
  ]

  optional_equal : (a b : Option Bool) → optional_eq a b ≡ true → a ≡ b
  optional_equal none none h = refl
  optional_equal none (some b) h = cc
  optional_equal (some true) none h = cc
  optional_equal (some false) none h = cc
  optional_equal (some true) (some true) h = refl
  optional_equal (some true) (some false) h = cc
  optional_equal (some false) (some true) h = cc
  optional_equal (some false) (some false) h = refl

  optional_eq_refl : (a : Option Bool) → optional_eq a a ≡ true
  optional_eq_refl none = refl
  optional_eq_refl (some true) = refl
  optional_eq_refl (some false) = refl

  equal_optional : (a b : Option Bool) → a ≡ b → optional_eq a b ≡ true
  equal_optional a b h = rw h (optional_eq_refl b)

  nullability_unchanged :
      (name : Text) (f g : Field)
      → no_changes (nullability_change j order order_target name f g).0 ≡ true
      → (body f).optional ≡ (body g).optional
  unfolding nullability_change
  nullability_unchanged name f g h =
      elim (Bool-cases (optional_eq (body f).optional (body g).optional)) [
        | inl equal ↦ optional_equal _ _ equal
        | inr other ↦ absurd (not_both (rw (nullability_change, other) at h))
      ]

  -- One field: no change exactly if the other schema's field agrees with it.
  unchanged :
      (target : Map Field) (name : Text) (f : Field)
      → no_changes (change target name f).0 ≡ true
      → Agree (some f) (lookup name target)
  unfolding field_change
  unchanged target name f h = elim (Option-cases (lookup name target)) [
    | inl removed ↦ absurd (not_both (rw (field_change, removed) at h))
    | inr (g, kept) ↦
        let parts =
          no_changes-append (type_change j order order_target name f g).0
            (nullability_change j order order_target name f g).0 (rw (field_change, kept) at h) in
        rw kept (type_unchanged name f g parts.0, nullability_unchanged name f g parts.1)
  ]

  same_parts :
      (name : Text) (f g : Field)
      → Agree (some f) (some g)
      → no_changes (
          (type_change j order order_target name f g).0
          ++ (nullability_change j order order_target name f g).0)
        ≡ true
  unfolding type_change nullability_change
  same_parts name f g h = rw (h.0, equal_optional _ _ h.1) refl

  agrees :
      (target : Map Field) (name : Text) (f : Field)
      → Agree (some f) (lookup name target)
      → no_changes (change target name f).0 ≡ true
  unfolding field_change
  agrees target name f h = elim (Option-cases (lookup name target)) [
    | inl removed ↦ absurd (rw removed at h)
    | inr (g, kept) ↦ rw (field_change, kept) (same_parts name f g (rw kept at h))
  ]

  pub added_none :
      (known entries : Map Field) (k : Text) (g : Field)
      → no_changes (added_fields j order order_target known entries) ≡ true
      → lookup k entries ≡ some g
      → lookup k known ≡ none
      → ⊥
  unfolding added_fields lookup
  added_none known [] k g h found absent = cc
  added_none known ((i, f) ∷ rest) k g h found absent = elim (Option-cases (lookup i known)) [
    | inl new ↦ not_both (rw (added_fields, new) at h)
    | inr (e, old) ↦ elim (Bool-cases (same i k)) [
      | inl here ↦ no_some e (sym absent ∙ ap (λ n. lookup n known) (sym (same→eq i k here)) ∙ old)
      | inr there ↦
          added_none known rest k g (rw (added_fields, old) at h) (rw there at found) absent
    ]
  ]
    where
      no_some : (e : Field) → none ≡ some e → ⊥
      no_some e h = cc

  pub none_added :
      (known entries : Map Field)
      → All (λ (k, g). lookup k known ≡ none → ⊥) entries
      → no_changes (added_fields j order order_target known entries) ≡ true
  unfolding added_fields
  none_added known [] h = refl
  none_added known ((i, f) ∷ rest) h = elim (Option-cases (lookup i known)) [
    | inl new ↦ absurd (h.0 new)
    | inr (g, old) ↦ rw (old, added_fields) (none_added known rest h.1)
  ]

  some_injective : (e f : Field) → some e ≡ some f → e ≡ f
  some_injective e f h = cc

  pub all_unchanged :
      (target entries : Map Field) (k : Text) (f : Field)
      → no_changes (field_changes j order order_target target entries).0 ≡ true
      → lookup k entries ≡ some f
      → Agree (some f) (lookup k target)
  unfolding field_changes lookup
  all_unchanged target [] k f h found = cc
  all_unchanged target ((i, e) ∷ rest) k f h found =
      let parts = no_changes-append (change target i e).0 _ h in
      elim (Bool-cases (same i k)) [
        | inl here ↦
            let agreed = unchanged target i e parts.0 in
            rw (sym (same→eq i k here)) (rw (some_injective e f (rw here at found)) at agreed)
        | inr there ↦ all_unchanged target rest k f parts.1 (rw there at found)
      ]

  pub none_changed :
      (target entries : Map Field)
      → All (λ (k, f). Agree (some f) (lookup k target)) entries
      → no_changes (field_changes j order order_target target entries).0 ≡ true
  unfolding field_changes
  none_changed target [] h = refl
  none_changed target ((i, e) ∷ rest) h =
      append-no_changes (change target i e).0 _ (agrees target i e h.0)
        (none_changed target rest h.1)
