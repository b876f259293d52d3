-- ===== src/Values.antt =====
-- JavaScript values as the services exchange them, and the part of zod's schema language that the
-- source uses (services/broadcast/src/schemas.ts, frontend/src/types/broadcast.ts). zod itself is
-- a parameter: `Zod` names what the code relies on.
pub mod Schema
pub mod Without
pub mod Text
pub mod CodeUnits
pub mod Trim
use faf_hackathon_challenge.Prelude.{
  String, Bool, true, false, Option, none, some, List, [], ◌∷◌, if◌then◌else◌, str_eq,
}
use faf_hackathon_challenge.Prelude.Int.{ℤ}

-- A JavaScript number. Fractions are left out: the code under study only compares and copies.
pub data Number : Type 0 where
  int : ℤ → Number
  infinity nan : Number

-- `Number.isFinite`
abbrev pub is_finite : Number → Bool
is_finite (int n) = true
is_finite infinity = false
is_finite nan = false

mutual
  pub data Value : Type 0 where
    str : String → Value
    num : Number → Value
    bool : Bool → Value
    undefined null : Value
    obj : Members → Value
    arr : Elements → Value

  -- The members of an object, in the order of insertion.
  pub data Members : Type 0 where
    no_members : Members
    member : String → Value → Members → Members

  pub data Elements : Type 0 where
    no_elements : Elements
    element : Value → Elements → Elements

abbrev pub elements : Elements → List Value
elements no_elements = []
elements (element v vs) = v ∷ elements vs

abbrev pub members : Members → List (String × Value)
members no_members = []
members (member k v fs) = (k, v) ∷ members fs

-- A property read `o[k]` on the entries of an object.
unfoldable pub get : String → List (String × Value) → Value
get k [] = undefined
get k ((j, v) ∷ o) = if str_eq j k then v else get k o

-- `typeof v === "string" ? v : undefined`
abbrev pub as_string : Value → Option String
as_string (str s) = some s
as_string _ = none

-- An optional string property of a validated body.
abbrev pub get_string : String → List (String × Value) → Option String
get_string k o = as_string (get k o)

-- The entries of an object, none for any other value.
abbrev pub entries : Value → List (String × Value)
entries (obj fs) = members fs
entries _ = []

-- The rest pattern of a destructuring: `{ k, ...rest }` leaves the entries with another key.
unfoldable pub without : String → List (String × Value) → List (String × Value)
without k [] = []
without k ((j, v) ∷ o) = let rest = without k o in if str_eq j k then rest else (j, v) ∷ rest
