-- ===== src/Postgres/Protocol/Numbers.antt =====
-- postgres/decoder.rs: the readers of numbers and strings, against what the format writes.
use opencdc.Base.{ℕ, ◌+◌, ◌*◌, ◌/◌, ◌%◌, ◌^◌, ◌<◌, ◌≡◌, ap, [], ◌∷◌, ◌++◌, ◌∙◌}
use opencdc.Base.{length, All, Bytes, arith, Outcome, done, length-append}
use opencdc.Base.Int.{ℤ, unsigned, signed, InRange, i16_half, i32_half, i64_half}
use opencdc.Base.Int.{signed-unsigned_i16, signed-unsigned_i32, signed-unsigned_i64}
use opencdc.Core.Error.{Error}
use opencdc.Wire.{At, At-head, At-append, At-room, index, be2, be4}
use opencdc.Wire.Slices.{slice-At}
use opencdc.Wire.Utf8.{from_utf8_lossy}
use opencdc.Postgres.Decoder.{read_i16_be, read_i32_be, read_i64_be, read_string, string_end}
use opencdc.Postgres.Protocol.Format.{
  be_bytes2, be_bytes4, int16_bytes, int32_bytes, int64_bytes, c_string,
}
use mathlib.Core.List.{append_assoc}

-- `f` reads `a` where `run` stands, and moves the offset behind it.
abbrev pub Reads : {A : Type 0} → (Bytes → ℕ → Outcome Error (A × ℕ)) → Bytes → A → Type 0
Reads f run a =
    (bytes : Bytes) (i : ℕ) (rest : Bytes)
    → At bytes i (run ++ rest)
    → f bytes i ≡ done (a, i + length run)

be2-be_bytes2 : (v : ℕ) → be2 (v / 2 ^ 8) (v % 2 ^ 8) ≡ v
be2-be_bytes2 v = omega arith

be4-be_bytes4 : (v : ℕ) → be4 (v / 2 ^ 24) (v / 2 ^ 16 % 2 ^ 8) (v / 2 ^ 8 % 2 ^ 8) (v % 2 ^ 8) ≡ v
be4-be_bytes4 v = omega arith

be8-be_bytes8 : (v : ℕ) → v / 2 ^ 32 * 2 ^ 32 + v % 2 ^ 32 ≡ v
be8-be_bytes8 v = omega arith

index_two :
    (bytes : Bytes) (i a b : ℕ) (rest : Bytes)
    → At bytes i (a ∷ b ∷ rest)
    → read_i16_be bytes i ≡ done (signed i16_half (be2 a b), i + 2)
unfolding read_i16_be
index_two bytes i a b rest h =
    rw (At-head bytes i a _ h, index)
      (rw (At-head bytes (i + 1) b rest (At-append bytes i (a ∷ []) _ h), index))

index_four :
    (bytes : Bytes) (i a b c d : ℕ) (rest : Bytes)
    → At bytes i (a ∷ b ∷ c ∷ d ∷ rest)
    → read_i32_be bytes i ≡ done (signed i32_half (be4 a b c d), i + 4)
unfolding read_i32_be
index_four bytes i a b c d rest h =
    rw (At-head bytes i a _ h, index)
      (rw (At-head bytes (i + 1) b _ (At-append bytes i (a ∷ []) _ h), index)
        (rw (At-head bytes (i + 2) c _ (At-append bytes i (a ∷ b ∷ []) _ h), index)
          (rw (At-head bytes (i + 3) d _ (At-append bytes i (a ∷ b ∷ c ∷ []) _ h), index))))

index_eight :
    (bytes : Bytes) (i a b c d e f g k : ℕ) (rest : Bytes)
    → At bytes i (a ∷ b ∷ c ∷ d ∷ e ∷ f ∷ g ∷ k ∷ rest)
    → read_i64_be bytes i ≡ done (signed i64_half (be4 a b c d * 2 ^ 32 + be4 e f g k), i + 8)
unfolding read_i64_be
index_eight bytes i a b c d e f g k rest h =
    rw (At-head bytes i a _ h, index)
      (rw (At-head bytes (i + 1) b _ (At-append bytes i (a ∷ []) _ h), index)
        (rw (At-head bytes (i + 2) c _ (At-append bytes i (a ∷ b ∷ []) _ h), index)
          (rw (At-head bytes (i + 3) d _ (At-append bytes i (a ∷ b ∷ c ∷ []) _ h), index)
            (rw (At-head bytes (i + 4) e _ (At-append bytes i (a ∷ b ∷ c ∷ d ∷ []) _ h), index)
              (rw
                (At-head bytes (i + 5) f _ (At-append bytes i (a ∷ b ∷ c ∷ d ∷ e ∷ []) _ h), index)
                (rw
                  (
                    At-head bytes (i + 6) g _ (At-append bytes i (a ∷ b ∷ c ∷ d ∷ e ∷ f ∷ []) _ h),
                    index,
                  )
                  (rw (
                    At-head bytes (i + 7) k _
                        (At-append bytes i (a ∷ b ∷ c ∷ d ∷ e ∷ f ∷ g ∷ []) _ h),
                    index,
                  ))))))))

-- Below its modulus a count or an identifier is read back as the pattern that was written.
pub read_i16_be-be_bytes2 : (v : ℕ) → Reads read_i16_be (be_bytes2 v) (signed i16_half v)
read_i16_be-be_bytes2 v bytes i rest h =
    index_two bytes i _ _ rest h ∙ ap (λ (w : ℕ). done (signed i16_half w, i + 2)) (be2-be_bytes2 v)

pub read_i32_be-be_bytes4 : (v : ℕ) → Reads read_i32_be (be_bytes4 v) (signed i32_half v)
read_i32_be-be_bytes4 v bytes i rest h =
    index_four bytes i _ _ _ _ rest h
    ∙ ap (λ (w : ℕ). done (signed i32_half w, i + 4)) (be4-be_bytes4 v)

pub read_i32_be-int32_bytes : (z : ℤ) → InRange i32_half z → Reads read_i32_be (int32_bytes z) z
read_i32_be-int32_bytes z r bytes i rest h =
    read_i32_be-be_bytes4 (unsigned i32_half z) bytes i rest h
    ∙ ap (λ (w : ℤ). done (w, i + 4)) (signed-unsigned_i32 z r)

pub read_i16_be-int16_bytes : (z : ℤ) → InRange i16_half z → Reads read_i16_be (int16_bytes z) z
read_i16_be-int16_bytes z r bytes i rest h =
    read_i16_be-be_bytes2 (unsigned i16_half z) bytes i rest h
    ∙ ap (λ (w : ℤ). done (w, i + 2)) (signed-unsigned_i16 z r)

pub read_i64_be-int64_bytes : (z : ℤ) → InRange i64_half z → Reads read_i64_be (int64_bytes z) z
read_i64_be-int64_bytes z r bytes i rest h =
    index_eight bytes i _ _ _ _ _ _ _ _ rest h
    ∙ ap (λ (w : ℕ). done (signed i64_half w, i + 8)) joined
    ∙ ap (λ (w : ℤ). done (w, i + 8)) (signed-unsigned_i64 z r)
  where
    v : ℕ
    v = unsigned i64_half z

    joined :
        be4
              (v / 2 ^ 32 / 2 ^ 24)
              (v / 2 ^ 32 / 2 ^ 16 % 2 ^ 8)
              (v / 2 ^ 32 / 2 ^ 8 % 2 ^ 8)
              (v / 2 ^ 32 % 2 ^ 8)
            * 2 ^ 32
          + be4
              (v % 2 ^ 32 / 2 ^ 24)
              (v % 2 ^ 32 / 2 ^ 16 % 2 ^ 8)
              (v % 2 ^ 32 / 2 ^ 8 % 2 ^ 8)
              (v % 2 ^ 32 % 2 ^ 8)
        ≡ v
    joined = rw (be4-be_bytes4 (v / 2 ^ 32), be4-be_bytes4 (v % 2 ^ 32)) (be8-be_bytes8 v)

string_end-c_string :
    (s rest : Bytes) (i : ℕ) → All (λ b. 0 < b) s → string_end (s ++ (0 ∷ rest)) i ≡ i + length s
unfolding string_end
string_end-c_string [] rest i h = omega arith
string_end-c_string (b ∷ s) rest i h = ground (arith, string_end-c_string s rest (i + 1) h.1)

-- A string without a zero byte is read up to its terminator.
pub read_string-c_string :
    (s : Bytes) → All (λ b. 0 < b) s → Reads read_string (c_string s) (from_utf8_lossy s)
unfolding read_string
read_string-c_string s nz bytes i rest h =
    rw (split, string_end-c_string s rest i nz)
      (rw
        (slice-At bytes i s (0 ∷ rest)
          (omega (
            arith,
            At-room bytes i (c_string s) rest (omega (arith, length-append s (0 ∷ []))) h,
            length-append s (0 ∷ []),
          ))
          split)
        (ap (λ (j : ℕ). done (from_utf8_lossy s, j)) (omega (arith, length-append s (0 ∷ [])))))
  where
    split : At bytes i (s ++ (0 ∷ rest))
    split = h ∙ append_assoc s (0 ∷ []) rest
