-- ===== src/Core/Json.antt =====
-- What the program uses of serde_json, and of the floating-point numbers, which are not modelled:
-- the value type, its constructors and the readers that look inside a value. An object is made from
-- the entries that were inserted, in that order, later ones of a key replacing earlier ones.
use opencdc.Base.{ℕ, ◌≡◌, Bool, Option, none, some, List, Bytes, Text, Map, lookup}
use opencdc.Base.Int.{ℤ, pos}

pub record SerdeJson : Type 1 where
  pub Value : Type 0
  pub null : Value
  pub bool : Bool → Value
  pub string : Text → Value
  pub integer : ℤ → Value
  pub object : Map Value → Value
  pub array : List Value → Value
  -- `serde_json::from_str`, and the values of the texts that are read as `f32` and `f64`
  pub from_str : Text → Option Value
  pub parse_f32 : Text → Option Value
  pub parse_f64 : Text → Option Value
  pub from_str_f64 : Text → Option Value
  -- `json!(f32::from_le_bytes(..))` and `json!(f64::from_le_bytes(..))`
  pub f32_of : Bytes → Value
  pub f64_of : Bytes → Value
  -- the readers
  pub as_str : Value → Option Text
  pub as_array : Value → Option (List Value)
  pub as_u64 : Value → Option ℕ
  pub as_bool : Value → Option Bool
  -- `value[key]`, which is null where there is no such entry
  pub get : Text → Value → Value
  -- `to_string` and `to_string_pretty`
  pub to_string : Value → Text
  pub to_string_pretty : Value → Text

abbrev pub or_null : (j : SerdeJson) → Option j.Value → j.Value
or_null j none = j.null
or_null j (some v) = v

-- What the readers make of the constructors' values.
pub record Reads (j : SerdeJson) : Type 0 where
  pub get_object : (k : Text) (m : Map j.Value) → j.get k (j.object m) ≡ or_null j (lookup k m)
  pub as_str_string : (s : Text) → j.as_str (j.string s) ≡ some s
  pub as_str_null : j.as_str j.null ≡ none
  pub as_u64_null : j.as_u64 j.null ≡ none
  pub as_u64_integer : (n : ℕ) → j.as_u64 (j.integer (pos n)) ≡ some n
