-- ===== src/Mysql/Column/Safety.antt =====
-- mysql/column.rs: the decoders and the column widths that binlog.rs computes for them.
use opencdc.Base.{
  ℕ, ◌+◌, ◌<◌, ◌≤◌, ◌≡◌, length, Bytes, Text, arith, true, ◌==◌, ◌||◌, ◌&&◌, ◌/◌, leb, ltb,
}
use opencdc.Base.{NoPanic, NoPanic-done, NoPanic-bind, NoPanic-if}
use opencdc.Core.Json.{SerdeJson}
use opencdc.Wire.Bounds.{index-NoPanic}
use opencdc.Mysql.Packed.{le_u16, le_u32, le_u64}
use opencdc.Mysql.Column.{
  column_data_length, decode_integer, decode_temporal, decode_timestamp2, decode_binlog_value,
  decode_datetime, decode_datetime2,
}

pub le_u16-NoPanic : (bytes : Bytes) (i : ℕ) → i + 2 ≤ length bytes → NoPanic (le_u16 bytes i)
unfolding le_u16
le_u16-NoPanic bytes i h =
    NoPanic-bind _ _ (index-NoPanic bytes i (omega arith))
      λ a. NoPanic-bind _ _ (index-NoPanic bytes (i + 1) (omega arith)) λ b. NoPanic-done _

pub le_u32-NoPanic : (bytes : Bytes) (i : ℕ) → i + 4 ≤ length bytes → NoPanic (le_u32 bytes i)
unfolding le_u32
le_u32-NoPanic bytes i h = NoPanic-bind _ _ (index-NoPanic bytes i (omega arith)) λ a.
    NoPanic-bind _ _ (index-NoPanic bytes (i + 1) (omega arith)) λ b.
      NoPanic-bind _ _ (index-NoPanic bytes (i + 2) (omega arith))
        λ c. NoPanic-bind _ _ (index-NoPanic bytes (i + 3) (omega arith)) λ d. NoPanic-done _

pub le_u64-NoPanic : (bytes : Bytes) (i : ℕ) → i + 8 ≤ length bytes → NoPanic (le_u64 bytes i)
unfolding le_u64
le_u64-NoPanic bytes i h =
    NoPanic-bind _ _ (le_u32-NoPanic bytes i (omega arith))
      λ low. NoPanic-bind _ _ (le_u32-NoPanic bytes (i + 4) (omega arith)) λ high. NoPanic-done _

decode_datetime-NoPanic : (bytes : Bytes) → NoPanic (decode_datetime bytes)
unfolding decode_datetime
decode_datetime-NoPanic bytes =
    NoPanic-if (ltb (length bytes) 8) _ _ (λ e. NoPanic-done _)
      λ e. NoPanic-bind _ _ (le_u64-NoPanic bytes 0 (ground arith)) λ v. NoPanic-done _

decode_datetime2-NoPanic : (bytes : Bytes) (frac : ℕ) → NoPanic (decode_datetime2 bytes frac)
unfolding decode_datetime2
decode_datetime2-NoPanic bytes frac =
    NoPanic-if (ltb (length bytes) 5) _ _ (λ e. NoPanic-done _)
      λ e.
        NoPanic-if (ltb 0 frac && leb (5 + (frac + 1) / 2) (length bytes)) _ _ (λ f. NoPanic-done _)
          (λ f. NoPanic-done _)

module _ (j : SerdeJson) (hex_encode : Bytes → Text) where
  timestamp2-NoPanic : (bytes : Bytes) → NoPanic (decode_timestamp2 j hex_encode bytes)
  unfolding decode_timestamp2
  timestamp2-NoPanic bytes =
      NoPanic-if (ltb (length bytes) 4) _ _ (λ e. NoPanic-done _)
        λ e. NoPanic-bind _ _ (le_u32-NoPanic bytes 0 (ground arith)) λ v. NoPanic-done _

  module _ (bytes : Bytes) (t m : ℕ) (width : length bytes ≡ column_data_length t m) where
    one_byte : (t == 1) ≡ true → 0 < length bytes
    unfolding column_data_length
    one_byte h = ground arith

    two_bytes : (t == 2) ≡ true → 0 + 2 ≤ length bytes
    unfolding column_data_length
    two_bytes h = ground arith

    year_byte : (t == 13) ≡ true → 0 < length bytes
    unfolding column_data_length
    year_byte h = ground arith

    four_bytes :
        (t == 3 || t == 9 || t == 4 || t == 10 || t == 11 || t == 7) ≡ true → 0 + 4 ≤ length bytes
    unfolding column_data_length
    four_bytes h = ground arith

    eight_bytes : (t == 8 || t == 5 || t == 12) ≡ true → 0 + 8 ≤ length bytes
    unfolding column_data_length
    eight_bytes h = ground arith

    no_enum : 0 < length bytes → (t == 247 || t == 248) ≡ true → ⊥
    unfolding column_data_length
    no_enum l h = ground arith

    integer-NoPanic :
        (t == 1 || t == 2 || t == 3 || t == 9 || t == 8) ≡ true
        → NoPanic (decode_integer j hex_encode bytes t m)
    unfolding decode_integer
    integer-NoPanic h =
        NoPanic-if (t == 1) _ _
          (λ e. NoPanic-bind _ _ (index-NoPanic bytes 0 (one_byte e)) λ v. NoPanic-done _)
          λ e1.
            NoPanic-if (t == 2) _ _
              (λ e. NoPanic-bind _ _ (le_u16-NoPanic bytes 0 (two_bytes e)) λ v. NoPanic-done _)
              λ e2.
                NoPanic-if (t == 3 || t == 9) _ _
                  (λ e.
                    NoPanic-bind _ _ (le_u32-NoPanic bytes 0 (four_bytes (ground arith)))
                      λ v. NoPanic-done _)
                  λ e3.
                    NoPanic-bind _ _ (le_u64-NoPanic bytes 0 (eight_bytes (ground arith)))
                      λ v. NoPanic-done _

    temporal-NoPanic : NoPanic (decode_temporal j hex_encode bytes t m)
    unfolding decode_temporal
    temporal-NoPanic =
        NoPanic-if (t == 10) _ _
          (λ e.
            NoPanic-bind _ _ (le_u32-NoPanic bytes 0 (four_bytes (ground arith)))
              λ v. NoPanic-done _)
          λ e1.
            NoPanic-if (t == 12) _ _
              (λ e. NoPanic-bind _ _ (decode_datetime-NoPanic bytes) λ v. NoPanic-done _)
              λ e2.
                NoPanic-if (t == 18) _ _
                  (λ e. NoPanic-bind _ _ (decode_datetime2-NoPanic bytes _) λ v. NoPanic-done _)
                  λ e3.
                    NoPanic-if (t == 7) _ _
                      (λ e.
                        NoPanic-bind _ _ (le_u32-NoPanic bytes 0 (four_bytes (ground arith)))
                          λ v. NoPanic-done _)
                      λ e4. timestamp2-NoPanic bytes

    -- On as many bytes as the column's width, not 0, no arm panics.
    pub decode_binlog_value-NoPanic :
        0 < length bytes → NoPanic (decode_binlog_value j hex_encode bytes t m)
    unfolding decode_binlog_value
    decode_binlog_value-NoPanic l =
        NoPanic-if (t == 1 || t == 2 || t == 3 || t == 9 || t == 8) _ _ integer-NoPanic λ e1.
          NoPanic-if (t == 4) _ _
            (λ e.
              NoPanic-bind _ _ (le_u32-NoPanic bytes 0 (four_bytes (ground arith)))
                λ v. NoPanic-done _)
            λ e2.
              NoPanic-if (t == 5) _ _
                (λ e.
                  NoPanic-bind _ _ (le_u64-NoPanic bytes 0 (eight_bytes (ground arith)))
                    λ v. NoPanic-done _)
                λ e3.
                  NoPanic-if (t == 10 || t == 12 || t == 18 || t == 7 || t == 17) _ _
                    (λ e. temporal-NoPanic)
                    λ e4.
                      NoPanic-if (t == 254 || t == 15 || t == 253) _ _ (λ e. NoPanic-done _)
                        λ e5.
                          NoPanic-if (leb 249 t && leb t 252) _ _ (λ e. NoPanic-done _)
                            λ e6.
                              NoPanic-if (t == 16) _ _ (λ e. NoPanic-done _)
                                λ e7.
                                  NoPanic-if (t == 245) _ _ (λ e. NoPanic-done _)
                                    λ e8.
                                      NoPanic-if (t == 247 || t == 248) _ _
                                        (λ e. absurd (no_enum l e))
                                        λ e9.
                                          NoPanic-if (t == 246) _ _ (λ e. NoPanic-done _)
                                            λ e10.
                                              NoPanic-if (t == 13) _ _
                                                (λ e.
                                                  NoPanic-bind _ _
                                                    (index-NoPanic bytes 0 (year_byte e))
                                                    λ v. NoPanic-done _)
                                                λ e11. NoPanic-done _
