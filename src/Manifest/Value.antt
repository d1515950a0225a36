-- ===== src/Manifest/Value.antt =====
-- The values that the deserializers of TOML, JSON and Dhall hand to the visitors of src/manifest.rs,
-- and how serde reads fields, options and sequences of them. `variant` is a case of a union of Dhall.
use pipitor.Base.Options.{◌>>=◌}
use pipitor.Base.{
  ℕ, ◌^◌, String, Bool, List, [], ◌∷◌, Option, none, some, ltb, str_eq, if◌then◌else◌,
}
use pipitor.Base.Int.{ℤ, pos, negsuc}

mutual
  pub data Value : Type 0 where
    null : Value
    boolean : Bool → Value
    integer : ℤ → Value
    float : Value
    text : String → Value
    array : Values → Value
    table : Fields → Value
    variant : String → Value → Value

  pub data Values : Type 0 where
    no_values : Values
    value : Value → Values → Values

  pub data Fields : Type 0 where
    no_fields : Fields
    field : String → Value → Fields → Fields

-- Errors are `none`.
abbrev pub as_table : Value → Option Fields
as_table (table fs) = some fs
as_table v = none

abbrev pub as_bool : Value → Option Bool
as_bool (boolean b) = some b
as_bool v = none

abbrev pub as_text : Value → Option String
as_text (text s) = some s
as_text v = none

-- `i64`.
abbrev pub in_i64 : ℤ → Bool
in_i64 (pos n) = ltb n (2 ^ 63)
in_i64 (negsuc n) = ltb n (2 ^ 63)

unfoldable pub as_i64 : Value → Option ℤ
as_i64 v = elim v as (λ x. Option ℤ) [
  | integer i ↦ if in_i64 i then some i else none
  | null ↦ none
  | boolean b ↦ none
  | float ↦ none
  | text s ↦ none
  | array vs ↦ none
  | table fs ↦ none
  | variant name inner ↦ none
]

-- `u64`.
unfoldable pub as_u64 : Value → Option ℕ
as_u64 (integer (pos n)) = if ltb n (2 ^ 64) then some n else none
as_u64 v = none

-- A field by its name; a name that stands twice is an error.
pub data Looked : Type 0 where
  missing duplicate : Looked
  present : Value → Looked

abbrev seen : Value → Looked → Looked
seen v missing = present v
seen v duplicate = duplicate
seen v (present w) = duplicate

unfoldable pub look : String → Fields → Looked
look name no_fields = missing
look name (field key v fs) = if str_eq key name then seen v (look name fs) else look name fs

module _ {A : Type 0} (read : Value → Option A) where
  abbrev pub required : Looked → Option A
  required missing = none
  required duplicate = none
  required (present v) = read v

  -- `#[serde(default)]`, with the default.
  abbrev pub defaulted : A → Looked → Option A
  defaulted a missing = some a
  defaulted a duplicate = none
  defaulted a (present v) = read v

  abbrev pub as_some : Option A → Option (Option A)
  as_some none = none
  as_some (some a) = some (some a)

  -- An `Option`, which is nothing if it is missing.
  abbrev pub optional : Looked → Option (Option A)
  optional missing = some none
  optional duplicate = none
  optional (present null) = some none
  optional (present v) = as_some (read v)

  unfoldable pub read_all : Values → Option (List A)
  read_all no_values = some []
  read_all (value v vs) = do a ← read v; rest ← read_all vs; some (a ∷ rest)

  unfoldable pub as_array : Value → Option (List A)
  unfolding read_all
  as_array (array vs) = read_all vs
  as_array v = none
