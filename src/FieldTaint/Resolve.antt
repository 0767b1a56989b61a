-- ===== src/FieldTaint/Resolve.antt =====
-- field_taint.py: `resolve_pointer` at the pointers of `leaf_values`.
use package.text.Mathlib.TextLemmas.{nil-append, cons-append, append_assoc, append-nil}
use Prim.Native.Char.{Char}
use mathlib.Core.Path.{subst}
use sentinelgate.Prelude.{
  ℕ, suc, ◌+◌, String, true, ◌≡◌, refl, sym, ap, ◌∙◌, none, some, List, [], ◌∷◌, cat, arith, eq_iff,
  eq_self, ◌==◌, if◌then◌else◌, Bool-cases, inl, inr, set_key, All, All-weaken,
}
use sentinelgate.Json.{
  Json, Items, Fields, nil, cons, end, field, null, boolean, number, text, array, object, get_field,
}
use sentinelgate.Runtime.{Runtime}
use sentinelgate.FieldTaint.Pointer.{
  same_char, escape_pointer, unescape_pointer, split, child_pointer, update_with, get_item,
  resolved, unresolved, found_or_not, index_into, leaf_values, leaf_items, leaf_fields, step_into,
  walk, resolve_pointer,
}
use sentinelgate.FieldTaint.Escape.{
  HasNo, same_char→path, escape_pointer-HasNo, unescape_pointer-escape_pointer, split-HasNo,
  split-cat,
}

-- No object in the value, at any depth, has a key twice, as in every `dict`.
unfoldable mutual
  pub HasUniqueKeys : Json → Type 0
  HasUniqueKeys (array xs) = AreUnique xs
  HasUniqueKeys (object d) = AreUniqueFields d
  HasUniqueKeys _ = Unit

  pub AreUnique : Items → Type 0
  AreUnique nil = Unit
  AreUnique (cons x xs) = HasUniqueKeys x × AreUnique xs

  pub AreUniqueFields : Fields → Type 0
  AreUniqueFields end = Unit
  AreUniqueFields (field k v d) = (get_field k d ≡ none) × (HasUniqueKeys v × AreUniqueFields d)

-- The decimal digits of an index: they read back as the index, and no pointer character is among
-- them.
pub record DecimalLaws (runtime : Runtime) : Type 0 where
  pub isdigit-decimal : (n : ℕ) → runtime.isdigit (runtime.decimal n) ≡ true
  pub parse_int-decimal : (n : ℕ) → runtime.parse_int (runtime.decimal n) ≡ some n
  pub decimal-HasNo : (n : ℕ) → HasNo "/" (runtime.decimal n)
  pub unescape_pointer-decimal : (n : ℕ) → unescape_pointer (runtime.decimal n) ≡ runtime.decimal n

set_key-All :
    (P : (String × Json) → Type 0) (k : String) (v : Json) (result : List (String × Json))
    → P (k, v)
    → All P result
    → All P (set_key k v result)
unfolding set_key
set_key-All P k v [] h hs = (h, tt)
set_key-All P k v ((j, w) ∷ d) h hs = elim (Bool-cases (j == k)) [
  | inl e ↦ rw (e, set_key) (subst (λ i. P (i, v)) (sym ((eq_iff j k).0 e)) h, hs.1)
  | inr e ↦ rw (e, set_key) (hs.0, set_key-All P k v d h hs.1)
]

update_with-All :
    (P : (String × Json) → Type 0) (result new : List (String × Json))
    → All P result
    → All P new
    → All P (update_with result new)
unfolding update_with
update_with-All P result [] h k = h
update_with-All P result ((pointer, value) ∷ rest) h k =
    update_with-All P (set_key pointer value result) rest (set_key-All P pointer value result k.0 h)
      k.1

module _ (runtime : Runtime) where
  walk-cons :
      (v child : Json) (part : String) (parts : List String)
      → step_into runtime v (unescape_pointer part) ≡ resolved child
      → walk runtime v (part ∷ parts) ≡ walk runtime child parts
  unfolding walk
  walk-cons v child part parts step = rw (step, walk) refl

  resolve_pointer-cons :
      (v : Json) (c : Char) (s : String)
      → resolve_pointer runtime v (String.◌∷◌ c s)
        ≡ (if same_char c "/" then walk runtime v (split "/" s) else unresolved)
  unfolding resolve_pointer
  resolve_pointer-cons v c s = refl

  resolve_pointer-nil : (v : Json) → resolved v ≡ resolve_pointer runtime v String.[]
  unfolding resolve_pointer
  resolve_pointer-nil v = refl

  -- One part in front of a pointer that resolves in the child it leads to.
  resolve_pointer-child :
      (v child x : Json) (part q : String)
      → HasNo "/" part
      → step_into runtime v (unescape_pointer part) ≡ resolved child
      → resolve_pointer runtime child q ≡ resolved x
      → resolve_pointer runtime v (String.◌∷◌ "/" (cat part q)) ≡ resolved x
  unfolding resolve_pointer
  resolve_pointer-child v child x part String.[] clean step h =
      rw (append-nil part, split-HasNo "/" part clean, walk-cons v child part [] step)
        (resolve_pointer-nil child ∙ h)
  resolve_pointer-child v child x part (String.◌∷◌ c s) clean step h =
      elim (Bool-cases (same_char c "/")) [
        | inl e ↦
            rw
              (
                same_char→path c "/" e,
                split-cat "/" part s clean,
                walk-cons v child part (split "/" s) step,
              )
              (sym (ap (λ b. if b then walk runtime child (split "/" s) else unresolved) e) ∙ h)
        | inr e ↦ ground arith
      ]

  -- The pointer is the one of the value with a rest that resolves in the value.
  Reaches : Json → String → (String × Json) → Type 0
  Reaches v pointer (q, x) =
      (rest : String) × ((q ≡ cat pointer rest) × (resolve_pointer runtime v rest ≡ resolved x))

  Reaches-self : (v : Json) (pointer : String) → Reaches v pointer (pointer, v)
  unfolding Reaches resolve_pointer
  Reaches-self v pointer = (String.[], (sym (append-nil pointer), refl))

  Reaches-child :
      (v child : Json) (pointer part : String) (entry : String × Json)
      → HasNo "/" part
      → step_into runtime v (unescape_pointer part) ≡ resolved child
      → Reaches child (child_pointer pointer part) entry
      → Reaches v pointer entry
  unfolding Reaches
  Reaches-child v child pointer part entry clean step (rest, (same, found)) = (
    String.◌∷◌ "/" (cat part rest),
    (
      same
          ∙ (append_assoc pointer (String.◌∷◌ "/" part) rest
              ∙ ap (cat pointer) (cons-append "/" part rest)),
      resolve_pointer-child v child entry.1 part rest clean step found,
    ),
  )

  step_into-item :
      (xs : Items) (index : ℕ) (x : Json)
      → DecimalLaws runtime
      → get_item index xs ≡ some x
      → step_into runtime (array xs) (unescape_pointer (runtime.decimal index)) ≡ resolved x
  unfolding step_into index_into found_or_not
  step_into-item xs index x laws h =
      rw
        (
          laws.unescape_pointer-decimal index,
          laws.isdigit-decimal index,
          laws.parse_int-decimal index,
          h,
        )
        refl

  step_into-field :
      (d : Fields) (k : String) (v : Json)
      → get_field k d ≡ some v
      → step_into runtime (object d) (unescape_pointer (escape_pointer k)) ≡ resolved v
  unfolding step_into found_or_not
  step_into-field d k v h = rw (unescape_pointer-escape_pointer k, h) refl

  get_item-shift :
      (xs : Items) (index j : ℕ) → get_item (index + 1 + j) xs ≡ get_item (index + suc j) xs
  get_item-shift xs index j = ap (λ i. get_item i xs) (omega arith)

  get_item-here : (xs : Items) (index : ℕ) → get_item index xs ≡ get_item (index + 0) xs
  get_item-here xs index = ap (λ i. get_item i xs) (omega arith)

  get_field-here : (k : String) (v : Json) (d : Fields) → get_field k (field k v d) ≡ some v
  unfolding get_field
  get_field-here k v d = rw (eq_self k) refl

  get_field-later :
      (k j : String) (v w : Json) (d : Fields)
      → get_field k d ≡ none
      → get_field j d ≡ some w
      → get_field j (field k v d) ≡ some w
  unfolding get_field
  get_field-later k j v w d absent found = ground (arith, eq_iff k j)

  mutual
    unfolding HasUniqueKeys AreUnique AreUniqueFields leaf_values leaf_items leaf_fields get_item
        get_field

    leaves_reach :
        (v : Json) (pointer : String)
        → DecimalLaws runtime
        → HasUniqueKeys v
        → All (Reaches v pointer) (leaf_values runtime v pointer)
    leaves_reach null pointer laws unique = (Reaches-self null pointer, tt)
    leaves_reach (boolean b) pointer laws unique = (Reaches-self (boolean b) pointer, tt)
    leaves_reach (number n) pointer laws unique = (Reaches-self (number n) pointer, tt)
    leaves_reach (text s) pointer laws unique = (Reaches-self (text s) pointer, tt)
    leaves_reach (array nil) pointer laws unique = (Reaches-self (array nil) pointer, tt)
    leaves_reach (array (cons x xs)) pointer laws unique =
        items_reach (cons x xs) (cons x xs) 0 pointer [] laws unique
          (λ j. ap (λ i. get_item i (cons x xs)) (omega arith)) tt
    leaves_reach (object end) pointer laws unique = (Reaches-self (object end) pointer, tt)
    leaves_reach (object (field k v d)) pointer laws unique =
        fields_reach (field k v d) (field k v d) pointer [] laws unique (λ j w h. h) tt

    items_reach :
        (whole xs : Items) (index : ℕ) (pointer : String) (result : List (String × Json))
        → DecimalLaws runtime
        → AreUnique xs
        → ((j : ℕ) → get_item (index + j) whole ≡ get_item j xs)
        → All (Reaches (array whole) pointer) result
        → All (Reaches (array whole) pointer) (leaf_items runtime xs index pointer result)
    items_reach whole nil index pointer result laws unique agree h = h
    items_reach whole (cons x xs) index pointer result laws unique agree h =
        let part = runtime.decimal index in
        let deeper : String = child_pointer pointer part in
        let leaves = leaves_reach x deeper laws unique.0 in
        items_reach whole xs (index + 1) pointer (update_with result (leaf_values runtime x deeper))
          laws unique.1 (λ j. get_item-shift whole index j ∙ agree (suc j))
          (update_with-All (Reaches (array whole) pointer) result (leaf_values runtime x deeper) h (
            All-weaken (leaf_values runtime x deeper)
              (λ entry.
                Reaches-child (array whole) x pointer part entry (laws.decimal-HasNo index)
                  (step_into-item whole index x laws (get_item-here whole index ∙ agree 0)))
              leaves))

    fields_reach :
        (whole d : Fields) (pointer : String) (result : List (String × Json))
        → DecimalLaws runtime
        → AreUniqueFields d
        → ((k : String) (v : Json) → get_field k d ≡ some v → get_field k whole ≡ some v)
        → All (Reaches (object whole) pointer) result
        → All (Reaches (object whole) pointer) (leaf_fields runtime d pointer result)
    fields_reach whole end pointer result laws unique agree h = h
    fields_reach whole (field k v d) pointer result laws unique agree h =
        let part = escape_pointer k in
        let deeper : String = child_pointer pointer part in
        let leaves = leaves_reach v deeper laws unique.1.0 in
        fields_reach whole d pointer (update_with result (leaf_values runtime v deeper)) laws
          unique.1.1 (λ j w found. agree j w (get_field-later k j v w d unique.0 found))
          (update_with-All (Reaches (object whole) pointer) result (leaf_values runtime v deeper) h
            (All-weaken (leaf_values runtime v deeper)
              (λ entry.
                Reaches-child (object whole) v pointer part entry (escape_pointer-HasNo k)
                  (step_into-field whole k v (agree k v (get_field-here k v d))))
              leaves))

  -- In a value whose objects have no key twice, with the decimal laws of the runtime, every pointer
  -- that `leaf_values` gives resolves, by `resolve_pointer`, to the leaf it was given with.
  pub resolve_pointer-leaf_values :
      (v : Json)
      → DecimalLaws runtime
      → HasUniqueKeys v
      → All
          (λ entry. resolve_pointer runtime v entry.0 ≡ resolved entry.1)
          (leaf_values runtime v String.[])
  unfolding Reaches
  resolve_pointer-leaf_values v laws unique =
      All-weaken (leaf_values runtime v String.[])
        (λ entry reached. rw (reached.1.0, nil-append reached.0) reached.1.1)
        (leaves_reach v String.[] laws unique)
