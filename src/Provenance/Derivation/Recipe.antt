-- ===== src/Provenance/Derivation/Recipe.antt =====
-- The recipes of `derive_structured`: the value that an operation computes from the inputs, and the
-- sources that it takes.
use Prim.Native.Char.{Char}
use Prim.Native.String.{count as size}
use sentinelgate.Prelude.{
  ℕ, zero, suc, ◌+◌, ◌-◌, String, Bool, false, ◌||◌, Option, none, some, List, [], ◌∷◌, map, cat,
  get_key, leb, ◌==◌, if◌then◌else◌,
}
use sentinelgate.Json.{Json, text}
use sentinelgate.Models.{FieldProvenanceReference}
use sentinelgate.Runtime.{Runtime}
use sentinelgate.Security.{prefix}
use sentinelgate.Identity.{Answer, ok, value_error, ◌>>=◌, or_raise}
use sentinelgate.FieldTaint.Pointer.{same_char}

pub record DerivationInput : Type 0 where
  pub value : Json
  pub reference : FieldProvenanceReference

-- A Python integer: `negsuc n` is `-(n + 1)`.
pub data ℤ : Type 0 where
  pos negsuc : ℕ → ℤ

pub record FieldDerivation : Type 0 where
  pub operation : String
  pub inputs : List String
  pub separator : String
  pub template : String
  pub start : Option ℤ
  pub stop : Option ℤ

-- The place that a bound of a slice means in a text of this length.
unfoldable pub place : ℕ → ℕ → Option ℤ → ℕ
place size default none = default
place size default (some (pos n)) = if leb n size then n else size
place size default (some (negsuc n)) = size - (n + 1)

-- `s[n:]`
unfoldable pub drop_first : ℕ → String → String
drop_first n String.[] = String.[]
drop_first zero (String.◌∷◌ c s) = String.◌∷◌ c s
drop_first (suc n) (String.◌∷◌ c s) = drop_first n s

-- `s[start:stop]`
unfoldable pub slice : Option ℤ → Option ℤ → String → String
unfolding place prefix drop_first
slice start stop s =
    let first = place (size s) 0 start in
    prefix (place (size s) (size s) stop - first) (drop_first first s)

unfoldable pub has_char : Char → String → Bool
has_char p String.[] = false
has_char p (String.◌∷◌ c s) = same_char c p || has_char p s

-- `separator.join(...)`
unfoldable pub joined : String → List String → String
joined separator [] = ""
joined separator (x ∷ []) = x
joined separator (x ∷ y ∷ ys) = cat x (cat separator (joined separator (y ∷ ys)))

-- `[verified_inputs[name] for name in recipe.inputs]`; the error is the `KeyError`'s
unfoldable pub sources_of : {V : Type 0} → List (String × V) → List String → Answer (List V)
unfolding or_raise
sources_of verified [] = ok []
sources_of verified (name ∷ names) = do
  item ← or_raise (value_error "Derivation references an unknown input") (get_key name verified)
  rest ← sources_of verified names
  ok (item ∷ rest)

-- The operations that take one input.
unfoldable pub single : String → (Json → Json) → List DerivationInput → Answer Json
single message f (item ∷ []) = ok (f item.value)
single message f _ = value_error message

module _ (runtime : Runtime) where
  -- The replacements of a template, one input name after another.
  unfoldable pub filled : List (String × DerivationInput) → String → Answer String
  filled [] computed = ok computed
  filled ((name, item) ∷ rest) computed =
      filled rest (runtime.replace computed (cat "{" (cat name "}")) (runtime.str item.value))

  unfoldable pub closed_template : String → Answer Json
  unfolding has_char
  closed_template computed =
      if has_char "{" computed || has_char "}" computed
      then value_error "Template contains unresolved placeholders"
      else ok (text computed)

  -- The names of a recipe with their inputs.
  unfoldable pub named : List String → List DerivationInput → List (String × DerivationInput)
  named (name ∷ names) (item ∷ items) = (name, item) ∷ named names items
  named [] items = []
  named (_ ∷ _) [] = []

  unfoldable pub computed_value : List (String × DerivationInput) → FieldDerivation → Answer Json
  unfolding sources_of single joined filled closed_template slice named
  computed_value inputs recipe = do
    items ← sources_of inputs recipe.inputs
    if recipe.operation == "copy"
        then single "copy requires exactly one input" (λ v. v) items
        else if recipe.operation == "concat"
        then ok (text (joined recipe.separator (map (λ item. runtime.str item.value) items)))
        else if recipe.operation == "template"
        then filled (named recipe.inputs items) recipe.template >>= closed_template
        else single "substring requires exactly one input"
            (λ v. text (slice recipe.start recipe.stop (runtime.str v))) items
