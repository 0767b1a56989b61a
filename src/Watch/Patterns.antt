-- ===== src/Watch/Patterns.antt =====
-- The patterns that src/sentinelgate/watch.py looks for: `_most_common`, `_looks_like_poll` and
-- `_cycle_pattern`.
use Prim.Native.Nat.{min, ◌/◌}
use Prim.Native.String.{count as size}
use sentinelgate.Prelude.{
  ℕ, zero, suc, ◌+◌, ◌-◌, ◌*◌, String, Bool, true, false, ◌&&◌, Option, none, some, get_or, List,
  [], ◌∷◌, ◌++◌, ◌==◌, any, select, length, leb, ltb, sorted_set, get_key, set_key, if◌then◌else◌,
}
use sentinelgate.Runtime.{Runtime}
use sentinelgate.Taint.{max_from}

-- `counts[value] = counts.get(value, 0) + 1` for each value, with the counts so far
unfoldable pub tally : List String → List (String × ℕ) → List (String × ℕ)
tally [] counts = counts
tally (value ∷ values) counts =
    tally values (set_key value (get_or (get_key value counts) 0 + 1) counts)

-- `max(counts.items(), key=lambda item: item[1])`: the first of the greatest
unfoldable pub greatest : List (String × ℕ) → Option (String × ℕ)
unfolding max_from
greatest [] = none
greatest (item ∷ items) = some (max_from (λ i. i.1) item items)

unfoldable pub most_common : List String → Option (String × ℕ)
unfolding tally greatest
most_common values = greatest (tally values [])

-- `xs[n:]`
unfoldable pub drop {ℓ} : {A : Type ℓ} → ℕ → List A → List A
drop n [] = []
drop zero (x ∷ xs) = x ∷ xs
drop (suc n) (x ∷ xs) = drop n xs

-- `xs[:n]`
unfoldable pub take {ℓ} : {A : Type ℓ} → ℕ → List A → List A
take n [] = []
take zero (x ∷ xs) = []
take (suc n) (x ∷ xs) = x ∷ take n xs

-- `pattern * n`
unfoldable pub repeated {ℓ} : {A : Type ℓ} → ℕ → List A → List A
repeated zero pattern = []
repeated (suc n) pattern = pattern ++ repeated n pattern

unfoldable pub same_texts : List String → List String → Bool
same_texts [] [] = true
same_texts (x ∷ xs) (y ∷ ys) = (x == y) && same_texts xs ys
same_texts _ _ = false

-- `values[-n:]` of a positive n
unfoldable pub last_values : ℕ → List String → List String
unfolding drop
last_values n values = drop (length values - n) values

-- The body of the loop: the pattern of this length if the tail repeats it.
unfoldable pub is_cycle : List String → ℕ → ℕ → Bool
unfolding last_values take repeated same_texts
is_cycle values repetitions size =
    let tail = last_values (size * repetitions) values in
    let pattern = take size tail in
    same_texts (repeated repetitions pattern) tail && ltb 1 (length (sorted_set pattern))

-- The loop over `range(2, min(6, len(values) // repetitions) + 1)`.
unfoldable pub first_cycle : List ℕ → List String → ℕ → List String
unfolding is_cycle
first_cycle [] values repetitions = []
first_cycle (size ∷ sizes) values repetitions =
    let rest = first_cycle sizes values repetitions in
    if is_cycle values repetitions size
    then take size (last_values (size * repetitions) values)
    else rest

unfoldable pub cycle_pattern : List String → ℕ → List String
unfolding first_cycle
cycle_pattern values repetitions =
    first_cycle
      (select (λ size. leb size (min 6 (length values / repetitions))) (2 ∷ 3 ∷ 4 ∷ 5 ∷ 6 ∷ []))
      values repetitions

module _ (runtime : Runtime) where
  -- `token in value` is `contains` of the runtime.
  unfoldable pub looks_like_poll : Option String → Bool
  looks_like_poll tool_name =
      let value = runtime.casefold (get_or tool_name "") in
      any (λ token. runtime.is_substring token value)
        ("poll" ∷ "status" ∷ "check_job" ∷ "wait" ∷ [])
