-- ===== src/Mysql/Handshake/Greeting.antt =====
-- The server's greeting, as an encoder written from the protocol's description (version 10), and what
-- the two clients read of it.
use opencdc.Base.{
  ℕ, suc, ◌+◌, ◌-◌, ◌/◌, ◌^◌, ◌≤◌, ◌<◌, ◌≡◌, refl, ◌∙◌, false, [], ◌∷◌, ◌++◌, lt→ltb, ◌==◌, length,
  replicate, All, Bytes, Text, done, arith, length-append, drop-length-append,
}
use Prim.Native.Nat.{min}
use opencdc.Wire.{index, slice, At, At-append, At-length}
use opencdc.Wire.Slices.{slice-At}
use opencdc.Wire.Shift.{index-append, slice-append, slice-run}
use opencdc.Mysql.Packed.{le_u16, le_u32}
use opencdc.Mysql.Packets.{u16_bytes, u32_bytes, u64_bytes}
use opencdc.Mysql.Handshake.{
  skip_name, read_auth_len, scramble_part2, scramble_at, greeting_scramble,
}

pub record Greeting : Type 0 where
  pub version : Bytes
  pub connection_id : ℕ
  -- the first eight bytes of the scramble, as a number, and the bytes that follow them
  pub nonce : ℕ
  pub part2 : Bytes
  pub capability_flags : ℕ
  pub character_set : ℕ
  pub status_flags : ℕ
  -- what follows the scramble
  pub plugin : Bytes

-- Behind the version's zero byte.
abbrev pub greeting_body : Greeting → Bytes
greeting_body g =
    u32_bytes g.connection_id
    ++ (u64_bytes g.nonce
        ++ (0 ∷ u16_bytes g.capability_flags
            ++ (g.character_set ∷ u16_bytes g.status_flags
                ++ (u16_bytes (g.capability_flags / 2 ^ 16)
                    ++ ((8 + length g.part2) ∷ replicate 10 0 ++ (g.part2 ++ g.plugin))))))

abbrev pub greeting_head : Greeting → Bytes
greeting_head g = 10 ∷ (g.version ++ (0 ∷ []))

abbrev pub greeting_bytes : Greeting → Bytes
greeting_bytes g = greeting_head g ++ greeting_body g

pub skip_name-version :
    (pos : ℕ) (version rest : Bytes)
    → All (λ b. 0 < b) version
    → skip_name pos ((version ++ (0 ∷ [])) ++ rest) ≡ pos + length version
unfolding skip_name
skip_name-version pos [] rest h = omega arith
skip_name-version pos (b ∷ version) rest h =
    rw (nonzero b h.0) (skip_name-version (pos + 1) version rest h.1 ∙ omega arith)
  where
    nonzero : (c : ℕ) → 0 < c → (c == 0) ≡ false
    nonzero c l = ground arith

module _ (pre xs : Bytes) where
  le_u16-append : (k : ℕ) → le_u16 (pre ++ xs) (length pre + k) ≡ le_u16 xs k
  unfolding le_u16
  le_u16-append k =
      rw
        (
          index-append {E = Text} pre xs k,
          assoc (length pre) k 1,
          index-append {E = Text} pre xs (k + 1),
        )
        refl
    where
      assoc : (a b c : ℕ) → a + b + c ≡ a + (b + c)
      assoc a b c = omega arith

  le_u32-append : (k : ℕ) → le_u32 (pre ++ xs) (length pre + k) ≡ le_u32 xs k
  unfolding le_u32
  le_u32-append k =
      rw
        (
          index-append {E = Text} pre xs k,
          assoc (length pre) k 1,
          assoc (length pre) k 2,
          assoc (length pre) k 3,
        )
        rw
        (
          index-append {E = Text} pre xs (k + 1),
          index-append {E = Text} pre xs (k + 2),
          index-append {E = Text} pre xs (k + 3),
        )
        refl
    where
      assoc : (a b c : ℕ) → a + b + c ≡ a + (b + c)
      assoc a b c = omega arith

  read_auth_len-append :
      (k : ℕ) (b : ℕ)
      → k < length xs
      → index {E = Text} xs k ≡ done b
      → read_auth_len (pre ++ xs) (length pre + k) ≡ done (b, length pre + k + 1)
  unfolding read_auth_len
  read_auth_len-append k b h e =
      rw
        (
          lt→ltb (length pre + k) (length (pre ++ xs)) (omega (arith, length-append pre xs)),
          index-append {E = Text} pre xs k,
          e,
        )
        refl

-- What stands in front of the scramble's second part.
abbrev before_part2 : Greeting → Bytes
before_part2 g =
    u32_bytes g.connection_id
    ++ (u64_bytes g.nonce
        ++ (0 ∷ u16_bytes g.capability_flags
            ++ (g.character_set ∷ u16_bytes g.status_flags
                ++ (u16_bytes (g.capability_flags / 2 ^ 16)
                    ++ ((8 + length g.part2) ∷ replicate 10 0)))))

scramble_part2-At :
    (bytes : Bytes) (i : ℕ) (part2 rest : Bytes)
    → i ≤ length bytes
    → At bytes i (part2 ++ rest)
    → scramble_part2 bytes (8 + length part2) i ≡ done part2
unfolding scramble_part2
scramble_part2-At bytes i [] rest l h = refl
scramble_part2-At bytes i (x ∷ xs) rest l h =
    rw (lt→ltb 8 (8 + suc (length xs)) (omega arith), at_end (length xs) (length bytes) room)
      (slice-At bytes i (x ∷ xs) rest room h)
  where
    room : i + suc (length xs) ≤ length bytes
    room = omega (arith, l, At-length bytes i _ h, length-append xs rest)

    at_end : (n m : ℕ) → i + suc n ≤ m → min (i + (8 + suc n - 8)) m ≡ i + suc n
    at_end n m r = omega (arith, r)

-- What follows the first part of the scramble.
abbrev after_part1 : Greeting → Bytes
after_part1 g =
    0 ∷ u16_bytes g.capability_flags
    ++ (g.character_set ∷ u16_bytes g.status_flags
        ++ (u16_bytes (g.capability_flags / 2 ^ 16)
            ++ ((8 + length g.part2) ∷ replicate 10 0 ++ (g.part2 ++ g.plugin))))

pub first_part :
    {E : Type 0} (g : Greeting) → slice {E = E} (greeting_body g) 4 12 ≡ done (u64_bytes g.nonce)
first_part g =
    slice-run (u32_bytes g.connection_id) (u64_bytes g.nonce ++ after_part1 g) (u64_bytes g.nonce)
      (after_part1 g) refl

scramble_at-body :
    (pre : Bytes) (g : Greeting)
    → scramble_at (pre ++ greeting_body g) (length pre) ≡ done (u64_bytes g.nonce ++ g.part2)
unfolding scramble_at le_u32 le_u16 index
scramble_at-body pre g =
    rw (le_u32-append pre (greeting_body g) 0) rw
      (slice-append {E = Text} pre (greeting_body g) 4 12) rw (first_part g) rw
      (index-append {E = Text} pre (greeting_body g) 12) rw (le_u16-append pre (greeting_body g) 13)
      rw (index-append {E = Text} pre (greeting_body g) 15) rw
      (le_u16-append pre (greeting_body g) 16) rw (le_u16-append pre (greeting_body g) 18) rw
      (read_auth_len-append pre (greeting_body g) 20 _ (omega arith) refl) rw
      (scramble_part2-At (pre ++ greeting_body g) _ g.part2 g.plugin room part2-here) refl
  where
    room : length pre + 20 + 1 + 10 ≤ length (pre ++ greeting_body g)
    room = omega (arith, length-append pre (greeting_body g))

    position : length pre + 20 + 1 + 10 ≡ length pre + 31
    position = omega arith

    part2-here : At (pre ++ greeting_body g) (length pre + 20 + 1 + 10) (g.part2 ++ g.plugin)
    part2-here = rw position (
        At-append (pre ++ greeting_body g) (length pre) (before_part2 g) (g.part2 ++ g.plugin)
          (drop-length-append pre (greeting_body g)))

pub behind_version : (g : Greeting) → 1 + length g.version + 1 ≡ length (greeting_head g)
behind_version g = omega (arith, length-append g.version (0 ∷ []))

-- The scramble that `handshake` takes from a greeting is the one that the server put into it, both
-- parts as they stand.
pub greeting_scramble-greeting :
    (g : Greeting)
    → All (λ b. 0 < b) g.version
    → greeting_scramble (greeting_bytes g) ≡ done (u64_bytes g.nonce ++ g.part2)
unfolding greeting_scramble index
greeting_scramble-greeting g h =
    rw (skip_name-version 1 g.version (greeting_body g) h, behind_version g)
      (scramble_at-body (greeting_head g) g)
