-- ===== src/Examples/Codes.antt =====
-- The codes of the core types, and the registry's frame.
use opencdc.Base.{◌≡◌, refl, [], ◌∷◌, Bytes, arith, done}
use opencdc.Wire.{index, slice_from}
use opencdc.Serde.Registry.{encode, decode, decode-encode_frame, encode-decode}

decode-encode_frame_example : decode (encode 70000 (1 ∷ 2 ∷ [])) ≡ done (70000, 1 ∷ 2 ∷ [])
decode-encode_frame_example = decode-encode_frame 70000 (1 ∷ 2 ∷ []) (omega arith)

abbrev framed : Bytes
framed = 0 ∷ 0 ∷ 0 ∷ 1 ∷ 2 ∷ 9 ∷ []

encode-decode_example : encode 258 (9 ∷ []) ≡ framed
encode-decode_example =
    encode-decode framed 258 (9 ∷ [])
      (omega arith, (omega arith, (omega arith, (omega arith, (omega arith, (omega arith, tt))))))
      framed_decoded
  where
    framed_decoded : decode framed ≡ done (258, 9 ∷ [])
    framed_decoded = unfold decode index slice_from in refl
