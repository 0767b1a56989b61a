-- ===== src/Json.antt =====
-- JSON values, the `Any` of src/sentinelgate: tool arguments, tool outputs and structured values.
-- A number is its JSON literal, since the program only compares and prints numbers.
use Prim.Native.String.{count}
use sentinelgate.Prelude.{
  ℕ, String, Bool, false, ◌||◌, Option, none, some, ◌==◌, if◌then◌else◌, ltb,
}

mutual
  pub data Json : Type 0 where
    null : Json
    boolean : Bool → Json
    number : String → Json
    text : String → Json
    array : Items → Json
    object : Fields → Json

  pub data Items : Type 0 where
    nil : Items
    cons : Json → Items → Items

  pub data Fields : Type 0 where
    end : Fields
    field : String → Json → Fields → Fields

-- `d.get(k)`, `k in d`
unfoldable pub get_field : String → Fields → Option Json
get_field k end = none
get_field k (field j v d) = if j == k then some v else get_field k d

-- `PolicyEngine._contains_oversized_string`: some string in the value, at any depth, is too long.
-- The keys of an object are not measured.
unfoldable mutual
  pub contains_oversized_string : Json → ℕ → Bool
  contains_oversized_string null limit = false
  contains_oversized_string (boolean b) limit = false
  contains_oversized_string (number n) limit = false
  contains_oversized_string (text s) limit = ltb limit (count s)
  contains_oversized_string (array xs) limit = any_oversized_item xs limit
  contains_oversized_string (object d) limit = any_oversized_field d limit

  pub any_oversized_item : Items → ℕ → Bool
  any_oversized_item nil limit = false
  any_oversized_item (cons x xs) limit =
      contains_oversized_string x limit || any_oversized_item xs limit

  pub any_oversized_field : Fields → ℕ → Bool
  any_oversized_field end limit = false
  any_oversized_field (field k v d) limit =
      contains_oversized_string v limit || any_oversized_field d limit
