-- ===== src/Examples/Json.antt =====
-- A value type for the runs: a value is its own text.
use opencdc.Base.{true, false, none, some, List, [], ◌∷◌, ◌++◌, Bytes, Text, text, Map}
use opencdc.Core.Format.{shown}
use opencdc.Core.Json.{SerdeJson}

abbrev entries_text : Map Text → Text
entries_text [] = []
entries_text ((k, v) ∷ m) = k ++ (text ":" ++ (v ++ (text "," ++ entries_text m)))

abbrev texts : List Text → Text
texts [] = []
texts (v ∷ vs) = v ++ (text "," ++ texts vs)

abbrev pub json : SerdeJson
json = record {
  Value = Text;
  null = text "null";
  bool = λ b. elim b [ true ↦ text "true" | false ↦ text "false" ];
  string = λ s. s;
  integer = shown;
  object = entries_text;
  array = texts;
  from_str = λ s. some s;
  parse_f32 = λ s. some s;
  parse_f64 = λ s. some s;
  from_str_f64 = λ s. some s;
  f32_of = λ b. b;
  f64_of = λ b. b;
  as_str = λ s. some s;
  as_array = λ s. none;
  as_u64 = λ s. none;
  as_bool = λ s. none;
  get = λ k s. s;
  to_string = λ s. s;
  to_string_pretty = λ s. s;
}

-- A rendering of bytes for `hex::encode`.
abbrev pub hex : Bytes → Text
hex b = b
