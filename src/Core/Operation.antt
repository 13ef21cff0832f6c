-- ===== src/Core/Operation.antt =====
-- crates/opencdc-core/src/operation.rs: the operation of an event and its one-letter codes.
use opencdc.Base.{◌≡◌, refl, ◌↔◌, Bool, true, false, Option, none, some, Text, text, same, same_iff}
use opencdc.Base.{if◌then◌else◌, arith, ◌++◌, Outcome, done, failed}

pub data Operation : Type 0 where
  create update delete read truncate message : Operation

unfoldable pub as_str : Operation → Text
as_str create = text "c"
as_str update = text "u"
as_str delete = text "d"
as_str read = text "r"
as_str truncate = text "t"
as_str message = text "m"

unfoldable pub from_str : Text → Option Operation
from_str s =
    if same s (text "c")
    then some create
    else if same s (text "u")
    then some update
    else if same s (text "d")
    then some delete
    else if same s (text "r")
    then some read
    else if same s (text "t")
    then some truncate
    else if same s (text "m")
    then some message
    else none

unfoldable pub is_dml : Operation → Bool
is_dml create = true
is_dml update = true
is_dml delete = true
is_dml _ = false

unfoldable pub is_snapshot : Operation → Bool
is_snapshot read = true
is_snapshot _ = false

unfoldable pub is_delete : Operation → Bool
is_delete delete = true
is_delete _ = false

-- `==`, derived
unfoldable pub op_eq : Operation → Operation → Bool
op_eq create create = true
op_eq update update = true
op_eq delete delete = true
op_eq read read = true
op_eq truncate truncate = true
op_eq message message = true
op_eq _ _ = false

-- What `deserialize` does with the string that it is given; its error is a text.
unfoldable pub deserialize : Text → Outcome Text Operation
deserialize s = elim (from_str s) [
  | some op ↦ done op
  | none ↦ failed (text "invalid operation '" ++ (s ++ text "', expected one of: c, u, d, r, t, m"))
]

from_str-as_str : (op : Operation) → from_str (as_str op) ≡ some op
unfolding from_str as_str same
from_str-as_str create = refl
from_str-as_str update = refl
from_str-as_str delete = refl
from_str-as_str read = refl
from_str-as_str truncate = refl
from_str-as_str message = refl

from_str_only : (s : Text) (op : Operation) → from_str s ≡ some op → s ≡ as_str op
unfolding from_str as_str
from_str_only s op h = ground (
  arith,
  same_iff s (text "c"),
  same_iff s (text "u"),
  same_iff s (text "d"),
  same_iff s (text "r"),
  same_iff s (text "t"),
  same_iff s (text "m"),
)

-- A text is read as an operation exactly when it is that operation's code.
from_str_iff : (s : Text) (op : Operation) → (from_str s ≡ some op) ↔ (s ≡ as_str op)
from_str_iff s op = (from_str_only s op, λ e. rw e (from_str-as_str op))
