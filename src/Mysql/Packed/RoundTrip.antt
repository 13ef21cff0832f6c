-- ===== src/Mysql/Packed/RoundTrip.antt =====
-- The length-encoded integers of the protocol, as an encoder, and `read_packed_int` against it.
use opencdc.Base.{ℕ, ◌/◌, ◌%◌, ◌^◌, ◌<◌, ◌≡◌, [], ◌∷◌, ◌++◌, length, ap}
use opencdc.Base.{ltb, if◌then◌else◌, Bytes, done, arith, Bool-cases, inl, inr}
use opencdc.Wire.{index}
use opencdc.Mysql.Packed.{le_u16, le_u32, le_u64, read_packed_int, read_packed_u48}

abbrev pub le_bytes2 : ℕ → Bytes
le_bytes2 v = v % 2 ^ 8 ∷ v / 2 ^ 8 ∷ []

abbrev pub le_bytes3 : ℕ → Bytes
le_bytes3 v = v % 2 ^ 8 ∷ v / 2 ^ 8 % 2 ^ 8 ∷ v / 2 ^ 16 ∷ []

abbrev pub le_bytes4 : ℕ → Bytes
le_bytes4 v = v % 2 ^ 8 ∷ v / 2 ^ 8 % 2 ^ 8 ∷ v / 2 ^ 16 % 2 ^ 8 ∷ v / 2 ^ 24 ∷ []

abbrev pub le_bytes8 : ℕ → Bytes
le_bytes8 v = le_bytes4 (v % 2 ^ 32) ++ le_bytes4 (v / 2 ^ 32)

-- The shortest form.
abbrev pub packed_int : ℕ → Bytes
packed_int v =
    if ltb v 251
    then v ∷ []
    else if ltb v (2 ^ 16)
    then 252 ∷ le_bytes2 v
    else if ltb v (2 ^ 24)
    then 253 ∷ le_bytes3 v
    else 254 ∷ le_bytes8 v

read_two : (v : ℕ) (rest : Bytes) → read_packed_int (252 ∷ le_bytes2 v ++ rest) ≡ done (v, 3)
unfolding read_packed_int le_u16 index
read_two v rest = ap (λ (w : ℕ). done (w, 3)) (omega arith)

read_three : (v : ℕ) (rest : Bytes) → read_packed_int (253 ∷ le_bytes3 v ++ rest) ≡ done (v, 4)
unfolding read_packed_int le_u16 index
read_three v rest = ap (λ (w : ℕ). done (w, 4)) (omega arith)

read_eight : (v : ℕ) (rest : Bytes) → read_packed_int (254 ∷ le_bytes8 v ++ rest) ≡ done (v, 9)
unfolding read_packed_int le_u64 le_u32 index
read_eight v rest = ap (λ (w : ℕ). done (w, 9)) (omega arith)

-- Each number below 2 ^ 64 in its shortest form is read back, whatever follows it, and the bytes taken
-- are those of the form.
pub read_packed_int-packed_int :
    (v : ℕ) (rest : Bytes)
    → v < 2 ^ 64
    → read_packed_int (packed_int v ++ rest) ≡ done (v, length (packed_int v))
read_packed_int-packed_int v rest h = elim (Bool-cases (ltb v 251)) [
  | inl small ↦ rw small (unfold read_packed_int in rw small)
  | inr large ↦ rw large (elim (Bool-cases (ltb v (2 ^ 16))) [
    | inl two ↦ rw two (read_two v rest)
    | inr more ↦ rw more (elim (Bool-cases (ltb v (2 ^ 24))) [
      | inl three ↦ rw three (read_three v rest)
      | inr eight ↦ rw eight (read_eight v rest)
    ])
  ])
]

-- A table's identifier of six bytes, the lowest first, is read back, whatever follows it.
read_packed_u48-bytes :
    (v : ℕ) (rest : Bytes)
    → v < 2 ^ 48
    → read_packed_u48 (le_bytes4 (v % 2 ^ 32) ++ (le_bytes2 (v / 2 ^ 32) ++ rest)) ≡ (v, 6)
unfolding read_packed_u48
read_packed_u48-bytes v rest h = ap (λ (w : ℕ). (w, 6)) (omega arith)
