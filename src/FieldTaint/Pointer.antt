-- ===== src/FieldTaint/Pointer.antt =====
-- The JSON pointers of src/sentinelgate/field_taint.py: `escape_pointer`, `unescape_pointer`,
-- `leaf_values` and `resolve_pointer`.
use Prim.Native.Char.{Char, code}
use Prim.Native.Nat.{compare, Ordering}
use sentinelgate.Prelude.{
  ℕ, zero, suc, ◌+◌, String, Bool, true, false, ◌&&◌, Option, none, some, List, [], ◌∷◌, set_key,
  cat, if◌then◌else◌,
}
use sentinelgate.Json.{
  Json, Items, Fields, nil, cons, end, field, null, boolean, number, text, array, object, get_field,
}
use sentinelgate.Runtime.{Runtime}

-- The same character.
abbrev pub same_char : Char → Char → Bool
same_char c d = elim (compare (code c) (code d)) [ Ordering.eq ↦ true | _ ↦ false ]

-- `s.replace(p, x + y)` for a character p
unfoldable pub replace_char : Char → Char → Char → String → String
replace_char p x y String.[] = String.[]
replace_char p x y (String.◌∷◌ c s) =
    let rest = replace_char p x y s in
    if same_char c p then String.◌∷◌ x (String.◌∷◌ y rest) else String.◌∷◌ c rest

-- `s.replace(p + q, x)` for characters p, q and x
unfoldable pub replace_pair : Char → Char → Char → String → String
replace_pair p q x String.[] = String.[]
replace_pair p q x (String.◌∷◌ c String.[]) = String.◌∷◌ c String.[]
replace_pair p q x (String.◌∷◌ c (String.◌∷◌ d s)) = elim (same_char c p && same_char d q) [
  | true ↦ String.◌∷◌ x (replace_pair p q x s)
  | false ↦ String.◌∷◌ c (replace_pair p q x (String.◌∷◌ d s))
]

unfoldable pub escape_pointer : String → String
unfolding replace_char
escape_pointer value = replace_char "/" "~" "1" (replace_char "~" "~" "0" value)

-- The check that follows looks at no part, so it never raises.
unfoldable pub unescape_pointer : String → String
unfolding replace_pair
unescape_pointer value = replace_pair "~" "0" "~" (replace_pair "~" "1" "/" value)

-- A character in front of the first part.
unfoldable pub extend_first : Char → List String → List String
extend_first c [] = String.◌∷◌ c String.[] ∷ []
extend_first c (w ∷ ws) = String.◌∷◌ c w ∷ ws

-- `s.split(p)` for a character p
unfoldable pub split : Char → String → List String
unfolding extend_first
split p String.[] = String.[] ∷ []
split p (String.◌∷◌ c s) =
    let rest = split p s in if same_char c p then String.[] ∷ rest else extend_first c rest

-- `f"{pointer}/{...}"`
abbrev pub child_pointer : String → String → String
child_pointer pointer part = cat pointer (String.◌∷◌ "/" part)

-- `result.update(...)`
unfoldable pub update_with : List (String × Json) → List (String × Json) → List (String × Json)
update_with result [] = result
update_with result ((pointer, value) ∷ rest) = update_with (set_key pointer value result) rest

-- `xs[i]`
unfoldable pub get_item : ℕ → Items → Option Json
get_item i nil = none
get_item zero (cons x xs) = some x
get_item (suc i) (cons x xs) = get_item i xs

-- What resolving a pointer does: a value, the `FieldTaintError`, or the `ValueError` of `int`.
pub data Resolved : Type 0 where
  resolved : Json → Resolved
  unresolved : Resolved
  value_error : Resolved

unfoldable pub found_or_not : Option Json → Resolved
found_or_not none = unresolved
found_or_not (some v) = resolved v

module _ (runtime : Runtime) where
  -- `leaf_values`, and its two loops with the index and the result so far
  unfoldable mutual
    unfolding update_with

    pub leaf_values : Json → String → List (String × Json)
    leaf_values null pointer = (pointer, null) ∷ []
    leaf_values (boolean b) pointer = (pointer, boolean b) ∷ []
    leaf_values (number n) pointer = (pointer, number n) ∷ []
    leaf_values (text s) pointer = (pointer, text s) ∷ []
    leaf_values (array nil) pointer = (pointer, array nil) ∷ []
    leaf_values (array (cons x xs)) pointer = leaf_items (cons x xs) 0 pointer []
    leaf_values (object end) pointer = (pointer, object end) ∷ []
    leaf_values (object (field k v d)) pointer = leaf_fields (field k v d) pointer []

    pub leaf_items : Items → ℕ → String → List (String × Json) → List (String × Json)
    leaf_items nil index pointer result = result
    leaf_items (cons x xs) index pointer result =
        leaf_items xs (index + 1) pointer
          (update_with result (leaf_values x (child_pointer pointer (runtime.decimal index))))

    pub leaf_fields : Fields → String → List (String × Json) → List (String × Json)
    leaf_fields end pointer result = result
    leaf_fields (field k v d) pointer result =
        leaf_fields d pointer
          (update_with result (leaf_values v (child_pointer pointer (escape_pointer k))))

  -- `int(part)` as an index; a part of digits that `int` refuses raises its error.
  unfoldable pub index_into : Items → Option ℕ → Resolved
  unfolding found_or_not get_item
  index_into xs none = value_error
  index_into xs (some i) = found_or_not (get_item i xs)

  -- One step of the loop of `resolve_pointer`.
  unfoldable pub step_into : Json → String → Resolved
  unfolding index_into found_or_not
  step_into (object d) part = found_or_not (get_field part d)
  step_into (array xs) part =
      if runtime.isdigit part then index_into xs (runtime.parse_int part) else unresolved
  step_into _ part = unresolved

  unfoldable pub walk : Json → List String → Resolved
  unfolding step_into unescape_pointer
  walk value [] = resolved value
  walk value (encoded ∷ rest) = elim (step_into value (unescape_pointer encoded)) [
    | resolved child ↦ walk child rest
    | unresolved ↦ unresolved
    | value_error ↦ value_error
  ]

  unfoldable pub resolve_pointer : Json → String → Resolved
  unfolding walk split
  resolve_pointer value String.[] = resolved value
  resolve_pointer value (String.◌∷◌ c s) =
      if same_char c "/" then walk value (split "/" s) else unresolved
