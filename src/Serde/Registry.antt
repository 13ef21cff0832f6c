-- ===== src/Serde/Registry.antt =====
-- crates/opencdc-serde/src/registry.rs: the frame around a payload, a zero byte and the schema's id.
use opencdc.Base.{
  ℕ, ◌/◌, ◌%◌, ◌^◌, ◌<◌, ◌≡◌, refl, ap, sym, ◌∙◌, [], ◌∷◌, ◌++◌, true, false, Bool-cases, inl, inr,
}
use opencdc.Base.{
  ltb, leb, suc, ◌==◌, not, if◌then◌else◌, length, All, Bytes, Text, text, arith, Outcome, done,
  failed, ◌>>=◌,
}
use opencdc.Base.{NoPanic, NoPanic-if, NoPanic-failed, NoPanic-done}
use opencdc.Core.Error.{Error, deserialization}
use opencdc.Core.Format.{decimal, hex_digit}
use opencdc.Wire.{index, slice_from, be4}

-- `u32::to_be_bytes`
abbrev pub to_be_bytes : ℕ → Bytes
to_be_bytes v = v / 2 ^ 24 % 2 ^ 8 ∷ v / 2 ^ 16 % 2 ^ 8 ∷ v / 2 ^ 8 % 2 ^ 8 ∷ v % 2 ^ 8 ∷ []

-- `{:#x}` of a byte
unfoldable pub hex : ℕ → Text
unfolding hex_digit
hex b =
    text "0x"
    ++ (if ltb b 16 then hex_digit b ∷ [] else hex_digit (b / 16) ∷ hex_digit (b % 16) ∷ [])

abbrev pub magic_byte : ℕ
magic_byte = 0

unfoldable pub encode : ℕ → Bytes → Bytes
encode schema_id payload = magic_byte ∷ to_be_bytes schema_id ++ payload

unfoldable pub decode : Bytes → Outcome Error (ℕ × Bytes)
decode bytes =
    if ltb (length bytes) 5
    then failed (
        deserialization
          (text "schema registry data too short: " ++ (decimal (length bytes) ++ text " bytes")))
    else do
      magic ← index bytes 0
      if not (magic == magic_byte)
          then failed (deserialization (text "invalid magic byte: " ++ hex magic))
          else do
            a ← index bytes 1
            b ← index bytes 2
            c ← index bytes 3
            d ← index bytes 4
            payload ← slice_from bytes 5
            done (be4 a b c d, payload)

long : (n : ℕ) → ltb (suc (suc (suc (suc (suc n))))) 5 ≡ false
long n = ground arith

reaches : (n : ℕ) → leb 5 (suc (suc (suc (suc (suc n))))) ≡ true
reaches n = ground arith

abbrev frame : ℕ → ℕ → ℕ → ℕ → ℕ → Bytes → Bytes
frame m a b c d payload = m ∷ a ∷ b ∷ c ∷ d ∷ payload

decode-frame :
    (a b c d : ℕ) (payload : Bytes)
    → decode (frame magic_byte a b c d payload) ≡ done (be4 a b c d, payload)
unfolding decode index slice_from
decode-frame a b c d payload = rw (long (length payload)) (rw (reaches (length payload)) refl)

decode-other :
    (m a b c d : ℕ) (payload : Bytes)
    → (m == magic_byte) ≡ false
    → decode (frame m a b c d payload)
      ≡ failed (deserialization (text "invalid magic byte: " ++ hex m))
unfolding decode index slice_from
decode-other m a b c d payload e = rw (long (length payload)) (rw e refl)

encode-be4 :
    (a b c d : ℕ) (payload : Bytes)
    → a < 2 ^ 8
    → b < 2 ^ 8
    → c < 2 ^ 8
    → d < 2 ^ 8
    → encode (be4 a b c d) payload ≡ frame magic_byte a b c d payload
unfolding encode
encode-be4 a b c d payload ha hb hc hd = rw (top, second, third, low) refl
  where
    top : be4 a b c d / 2 ^ 24 % 2 ^ 8 ≡ a
    top = omega arith

    second : be4 a b c d / 2 ^ 16 % 2 ^ 8 ≡ b
    second = omega arith

    third : be4 a b c d / 2 ^ 8 % 2 ^ 8 ≡ c
    third = omega arith

    low : be4 a b c d % 2 ^ 8 ≡ d
    low = omega arith

-- A frame is decoded to the id and the payload that it was made from, for an id of 32 bits.
pub decode-encode_frame :
    (schema_id : ℕ) (payload : Bytes)
    → schema_id < 2 ^ 32
    → decode (encode schema_id payload) ≡ done (schema_id, payload)
unfolding encode
decode-encode_frame schema_id payload h =
    rw (decode-frame _ _ _ _ payload) (ap (λ v. done (v, payload)) (omega arith))

failed≢done : {A : Type 0} (e : Error) (a : A) → failed e ≡ done a → ⊥
failed≢done e a h = cc

-- Data that is decoded is the frame of what it is decoded to: no other bytes are read as this id
-- and payload.
pub encode-decode :
    (bytes : Bytes) (schema_id : ℕ) (payload : Bytes)
    → All (λ b. b < 2 ^ 8) bytes
    → decode bytes ≡ done (schema_id, payload)
    → encode schema_id payload ≡ bytes
unfolding decode encode
encode-decode [] i p small h = cc
encode-decode (a ∷ []) i p small h = cc
encode-decode (a ∷ b ∷ []) i p small h = cc
encode-decode (a ∷ b ∷ c ∷ []) i p small h = cc
encode-decode (a ∷ b ∷ c ∷ d ∷ []) i p small h = cc
encode-decode (m ∷ a ∷ b ∷ c ∷ d ∷ rest) i p small h = elim (Bool-cases (m == magic_byte)) [
  | inr other ↦ absurd (failed≢done _ (i, p) (sym (decode-other m a b c d rest other) ∙ h))
  | inl magic ↦ same_frame (ground arith) (sym (decode-frame a b c d rest))
]
  where
    same_frame :
        m ≡ magic_byte
        → done (be4 a b c d, rest) ≡ decode (frame magic_byte a b c d rest)
        → encode i p ≡ m ∷ a ∷ b ∷ c ∷ d ∷ rest
    same_frame e g =
        cc (encode-be4 a b c d rest small.1.0 small.1.1.0 small.1.1.1.0 small.1.1.1.1.0, e, g, h)

-- Decoding returns or fails with an error, on any data: it does not panic.
decode-NoPanic : (bytes : Bytes) → NoPanic (decode bytes)
unfolding decode index slice_from
decode-NoPanic [] = NoPanic-failed _
decode-NoPanic (a ∷ []) = NoPanic-failed _
decode-NoPanic (a ∷ b ∷ []) = NoPanic-failed _
decode-NoPanic (a ∷ b ∷ c ∷ []) = NoPanic-failed _
decode-NoPanic (a ∷ b ∷ c ∷ d ∷ []) = NoPanic-failed _
decode-NoPanic (m ∷ a ∷ b ∷ c ∷ d ∷ rest) = rw (long (length rest)) (
    NoPanic-if (not (m == magic_byte)) _ _ (λ e. NoPanic-failed _)
      λ e. rw (reaches (length rest)) (NoPanic-done _))
