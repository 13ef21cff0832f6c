-- ===== src/Mysql/Column/Dates.antt =====
-- column.rs, the texts of dates and times.
use Prim.Native.Nat.{bit_and, bit_or}
use opencdc.Base.{ℕ, ◌+◌, ◌*◌, ◌/◌, ◌%◌, ◌^◌, ◌&&◌, [], ◌∷◌, ◌++◌}
use opencdc.Base.{
  ltb, leb, ◌==◌, if◌then◌else◌, length, take, drop, Bytes, Text, text, Outcome, done, ◌>>=◌,
}
use opencdc.Base.Int.{ℤ, pos, signed, i64_half, sub_ℕ, ◌+ℤ◌, ◌-ℤ◌, ◌*ℤ◌}
use opencdc.Core.Format.{padded, shown, quotient, remainder}
use opencdc.Mysql.Packed.{le_u64}

-- The arm for DATE.
unfoldable pub date_text : ℕ → Text
date_text days =
    let d = sub_ℕ days 366 in
    let year = quotient (d *ℤ 100 +ℤ pos 50) 36525 +ℤ pos 1970 in
    let yday = d -ℤ ((year -ℤ pos 1970) *ℤ 365 +ℤ quotient (year -ℤ pos 1969) 4) in
    if days == 0
    then text "0000-00-00"
    else shown year
      ++ (text "-"
          ++ (padded 2 (quotient yday 30 +ℤ pos 1)
              ++ (text "-" ++ padded 2 (remainder yday 30 +ℤ pos 1))))

-- "{:04}-{:02}-{:02} {:02}:{:02}:{:02}"
abbrev pub datetime_text : ℤ → ℤ → ℤ → ℤ → ℤ → ℤ → Text
datetime_text year month day hour minute second =
    padded 4 year
    ++ (text "-"
        ++ (padded 2 month
            ++ (text "-"
                ++ (padded 2 day
                    ++ (text " "
                        ++ (padded 2 hour
                            ++ (text ":"
                                ++ (padded 2 minute ++ (text ":" ++ padded 2 second)))))))))

abbrev no_datetime : Text
no_datetime = text "0000-00-00 00:00:00"

-- The parts of an i64 fit i32, so the casts change nothing.
unfoldable pub packed_text : ℤ → Text
packed_text packed =
    let d = quotient packed 1000000 in
    let t = remainder packed 1000000 in
    datetime_text (quotient d 10000) (quotient (remainder d 10000) 100) (remainder d 100)
      (quotient t 10000) (quotient (remainder t 10000) 100) (remainder t 100)

unfoldable pub decode_datetime : Bytes → Outcome Text Text
decode_datetime bytes = if ltb (length bytes) 8 then done no_datetime else do
  val ← le_u64 bytes 0
  done (if val == 0 then no_datetime else packed_text (signed i64_half val))

-- The bytes, the highest first.
unfoldable pub be_value : ℕ → Bytes → ℕ
be_value acc [] = acc
be_value acc (b ∷ rest) = be_value (acc * 2 ^ 8 % 2 ^ 64 + b) rest

unfoldable pub datetime2_text : ℕ → Text
datetime2_text packed =
    let d = packed / 2 ^ 17 in
    let t = packed / 2 ^ 5 % 2 ^ 12 in
    datetime_text (pos (d / 13 / 32)) (pos (d / 32 % 13)) (pos (d % 32)) (pos (t / 2 ^ 7))
      (pos (t / 2 % 2 ^ 6)) (pos (bit_or (bit_and (t * 2 ^ 3) 0x38) (packed % 2 ^ 5 / 2 ^ 2)))

unfoldable pub decode_datetime2 : Bytes → ℕ → Outcome Text Text
decode_datetime2 bytes frac_sec =
    if ltb (length bytes) 5
    then done no_datetime
    else let date = datetime2_text (be_value 0 (take 5 bytes)) in
      let frac_bytes = (frac_sec + 1) / 2 in
      if ltb 0 frac_sec && leb (5 + frac_bytes) (length bytes)
      then done (date ++ (text "." ++ padded 6 (pos (be_value 0 (take frac_bytes (drop 5 bytes))))))
      else done date
