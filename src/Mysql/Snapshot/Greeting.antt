-- ===== src/Mysql/Snapshot/Greeting.antt =====
-- What the snapshot's client reads of the server's greeting.
use opencdc.Base.{
  ℕ, zero, suc, ◌+◌, ◌-◌, ◌≤◌, ◌<◌, ◌≡◌, refl, ap, sym, ◌∙◌, true, [], ◌∷◌, ◌++◌, leb, length, take,
  drop, replicate, All, Bytes, done, arith, lt→ltb, length-append, length-take,
}
use opencdc.Core.Error.{Error}
use opencdc.Wire.{index, slice, At, At-length}
use opencdc.Wire.Slices.{slice-At}
use opencdc.Wire.Shift.{index-append, slice-append, get_or-append, drop-append}
use opencdc.Mysql.Packets.{u64_bytes}
use opencdc.Mysql.Handshake.Greeting.{
  Greeting, greeting_bytes, greeting_body, greeting_head, skip_name-version, first_part,
  behind_version,
}
use opencdc.Mysql.Snapshot.{second_part, auth_of, parse_greeting}

-- What stands behind the byte with the scramble's length.
abbrev pub behind_length : Greeting → Bytes
behind_length g = replicate 10 0 ++ (g.part2 ++ g.plugin)

take-drop : (n : ℕ) (xs : Bytes) → take n xs ++ drop n xs ≡ xs
take-drop zero xs = refl
take-drop (suc n) [] = refl
take-drop (suc n) (x ∷ xs) = ap (λ t. x ∷ t) (take-drop n xs)

second_part-At :
    (bytes : Bytes) (i n : ℕ) (rest : Bytes)
    → At bytes i rest
    → i ≤ length bytes
    → n ≤ length rest
    → second_part bytes (8 + n) i ≡ done (take n rest)
unfolding second_part
second_part-At bytes i zero rest h l room = refl
second_part-At bytes i (suc n) rest h l room =
    rw (lt→ltb 8 (8 + suc n) (omega arith), back n, within _ _ inside) (slice_some (suc n) room)
  where
    back : (k : ℕ) → 8 + suc k - 8 ≡ suc k
    back k = omega arith

    within : (a b : ℕ) → a ≤ b → leb a b ≡ true
    within a b m = ground arith

    inside : i + suc n ≤ length bytes
    inside = omega (arith, At-length bytes i rest h)

    slice_some : (k : ℕ) → k ≤ length rest → slice {E = Error} bytes i (i + k) ≡ done (take k rest)
    slice_some k m =
        ap (λ (c : ℕ). slice bytes i (i + c)) (sym (taken k m))
        ∙ slice-At bytes i (take k rest) (drop k rest)
            (omega (arith, taken k m, At-length bytes i rest h)) (h ∙ sym (take-drop k rest))
      where
        taken : (c : ℕ) → c ≤ length rest → length (take c rest) ≡ c
        taken c r = omega (arith, length-take c rest, r)

auth_of-body :
    (pre : Bytes) (g : Greeting)
    → auth_of (pre ++ greeting_body g) (length pre)
      ≡ done (u64_bytes g.nonce ++ take (length g.part2) (behind_length g))
unfolding auth_of index
auth_of-body pre g =
    rw (slice-append {E = Error} pre (greeting_body g) 4 12) rw (first_part g) rw
      (index-append {E = Error} pre (greeting_body g) 18) rw
      (index-append {E = Error} pre (greeting_body g) 19) rw
      (get_or-append pre (greeting_body g) 20 0) rw
      (second_part-At (pre ++ greeting_body g) (length pre + 21) (length g.part2) (behind_length g)
        here room enough)
      refl
  where
    here : At (pre ++ greeting_body g) (length pre + 21) (behind_length g)
    here = drop-append pre (greeting_body g) 21

    room : length pre + 21 ≤ length (pre ++ greeting_body g)
    room = omega (arith, length-append pre (greeting_body g))

    enough : length g.part2 ≤ length (behind_length g)
    enough = omega (arith, length-append g.part2 g.plugin)

-- Of the same greeting the snapshot's client does not read over the ten reserved bytes, which are
-- zero: behind the first part of the scramble it takes those, and only then bytes of the second part.
pub parse_greeting-greeting :
    (g : Greeting)
    → All (λ b. 0 < b) g.version
    → parse_greeting (greeting_bytes g)
      ≡ done (u64_bytes g.nonce ++ take (length g.part2) (replicate 10 0 ++ (g.part2 ++ g.plugin)))
unfolding parse_greeting
parse_greeting-greeting g h =
    rw (skip_name-version 1 g.version (greeting_body g) h, behind_version g)
      (auth_of-body (greeting_head g) g)
