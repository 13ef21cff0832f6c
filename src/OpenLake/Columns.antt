-- ===== src/OpenLake/Columns.antt =====
-- The columns that the sink makes of events, against the schema that it gives to Arrow.
use opencdc.Base.{
  ℕ, ◌≡◌, refl, Bool, true, false, Option, none, some, List, [], ◌∷◌, map, All, Text, length,
  length-map,
}
use opencdc.Base.Int.{ℤ}
use opencdc.Core.Json.{SerdeJson}
use opencdc.Core.ChangeEvent.{ChangeEvent}
use opencdc.Core.Operation
use opencdc.Core.SourceInfo
use opencdc.OpenLake.{
  DataType, utf8, int64, Field, Column, string_array, int64_array, make_schema, columns, json_text,
}

abbrev pub Present : {A : Type 0} → Option A → Type 0
Present none = ⊥
Present (some x) = Unit

-- The values of a field that may not be null are all present.
abbrev pub Allowed : {A : Type 0} → Bool → List (Option A) → Type 0
Allowed true values = Unit
Allowed false values = All Present values

-- A column of `n` values of a field's type, without a null where the field does not allow one.
abbrev pub FitsField : ℕ → Field → Column → Type 0
FitsField n f (string_array values) =
    (f.data_type ≡ utf8) × (length values ≡ n) × Allowed f.nullable values
FitsField n f (int64_array values) =
    (f.data_type ≡ int64) × (length values ≡ n) × Allowed f.nullable values

abbrev pub FitsSchema : ℕ → List Field → List Column → Type 0
FitsSchema n [] [] = Unit
FitsSchema n [] (c ∷ cs) = ⊥
FitsSchema n (f ∷ fs) [] = ⊥
FitsSchema n (f ∷ fs) (c ∷ cs) = FitsField n f c × FitsSchema n fs cs

all-Present : {A B : Type 0} (f : A → B) (xs : List A) → All Present (map (λ x. some (f x)) xs)
all-Present f [] = tt
all-Present f (x ∷ xs) = (tt, all-Present f xs)

-- Whatever the events, the columns that are made of them fit the schema, one for each of its fields:
-- each of its field's type, with one value for each event, and without a null where the field does not
-- allow nulls.
pub columns-FitsSchema :
    (j : SerdeJson) (Schema : Type 0) (events : List (ChangeEvent j.Value Schema))
    → FitsSchema (length events) make_schema (columns j Schema events)
unfolding make_schema columns
columns-FitsSchema j Schema events = (
  filled (λ e. Operation.as_str e.payload.op),
  (
    longs (λ e. e.payload.ts_ms),
    (
      filled (λ e. e.payload.source.db),
      (
        texts (λ e. e.payload.source.schema),
        (
          filled (λ e. e.payload.source.table),
          (
            filled (λ e. e.payload.source.connector),
            (
              longs (λ e. e.payload.source.lsn),
              (
                longs (λ e. e.payload.source.tx_id),
                (
                  filled (λ e. SourceInfo.phase_str e.payload.source.snapshot),
                  (
                    texts (λ e. json_text j Schema e.payload.before),
                    (texts (λ e. json_text j Schema e.payload.after), tt),
                  ),
                ),
              ),
            ),
          ),
        ),
      ),
    ),
  ),
)
  where
    Event : Type 0
    Event = ChangeEvent j.Value Schema

    field_of : DataType → Bool → Field
    field_of t nullable = record { name = []; data_type = t; nullable = nullable }

    filled :
        (f : Event → Text)
        → FitsField
            (length events)
            (field_of utf8 false)
            (string_array (map (λ e. some (f e)) events))
    filled f = (refl, length-map (λ e. some (f e)) events, all-Present f events)

    texts :
        (f : Event → Option Text)
        → FitsField (length events) (field_of utf8 true) (string_array (map f events))
    texts f = (refl, length-map f events, tt)

    longs :
        (f : Event → Option ℤ)
        → FitsField (length events) (field_of int64 true) (int64_array (map f events))
    longs f = (refl, length-map f events, tt)
