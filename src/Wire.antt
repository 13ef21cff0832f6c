-- ===== src/Wire.antt =====
-- Reading bytes: slices and indices that panic out of range, and the fixed-width integers that
-- Rust's `from_be_bytes` and `from_le_bytes` read. A `usize` offset counts from the front.
mod Cursor
pub mod Utf8
pub mod Slices
pub mod Bounds
pub mod Short
pub mod Shift
pub use Cursor.*
use opencdc.Base.{ℕ, zero, suc, ◌+◌, ◌-◌, ◌*◌, ◌^◌, ◌≤◌, ◌<◌, Bool, true, false, Option, none, some}
use opencdc.Base.{List, [], ◌∷◌, if◌then◌else◌, leb, length, get_elem?, take, drop}
use opencdc.Base.{Bytes, Outcome, done, panicked}

-- `data[i]`
unfoldable pub index : {E A : Type 0} → List A → ℕ → Outcome E A
index bytes i = elim (get_elem? bytes i) [ none ↦ panicked | some b ↦ done b ]

-- `&data[i..]`
unfoldable pub slice_from : {E A : Type 0} → List A → ℕ → Outcome E (List A)
slice_from bytes i = if leb i (length bytes) then done (drop i bytes) else panicked

-- `&data[i..j]`
unfoldable pub slice : {E A : Type 0} → List A → ℕ → ℕ → Outcome E (List A)
slice bytes i j =
    if leb i j
    then if leb j (length bytes) then done (take (j - i) (drop i bytes)) else panicked
    else panicked

-- `u16::from_be_bytes` and its like: the first byte is the highest.
abbrev pub be2 : ℕ → ℕ → ℕ
be2 a b = a * 2 ^ 8 + b

abbrev pub be4 : ℕ → ℕ → ℕ → ℕ → ℕ
be4 a b c d = be2 a b * 2 ^ 16 + be2 c d

-- `u16::from_le_bytes` and its like: the first byte is the lowest.
abbrev pub le2 : ℕ → ℕ → ℕ
le2 a b = a + b * 2 ^ 8

abbrev pub le4 : ℕ → ℕ → ℕ → ℕ → ℕ
le4 a b c d = le2 a b + le2 c d * 2 ^ 16
