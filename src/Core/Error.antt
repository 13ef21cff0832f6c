-- ===== src/Core/Error.antt =====
-- crates/opencdc-core/src/error.rs: the error enum. Of a foreign error (Arrow, serde_json) only the
-- text is kept.
use opencdc.Base.{Text, text, ◌++◌}

pub data Error : Type 0 where
  serialization deserialization schema arrow json : Text → Error
  unsupported_operation invalid_offset invalid_message_format conversion : Text → Error
  transaction other : Text → Error

-- `Display`, as `thiserror` writes it from the attributes.
unfoldable pub display : Error → Text
display (serialization m) = text "Serialization error: " ++ m
display (deserialization m) = text "Deserialization error: " ++ m
display (schema m) = text "Schema error: " ++ m
display (arrow m) = text "Arrow error: " ++ m
display (json m) = text "JSON error: " ++ m
display (unsupported_operation m) = text "Unsupported operation: " ++ m
display (invalid_offset m) = text "Invalid offset state: " ++ m
display (invalid_message_format m) = text "Invalid message format: " ++ m
display (conversion m) = text "Conversion error: " ++ m
display (transaction m) = text "Transaction error: " ++ m
display (other m) = m
