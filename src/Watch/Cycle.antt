-- ===== src/Watch/Cycle.antt =====
-- watch.py: `_cycle_pattern` and the tail of the values.
use Prim.Native.Nat.{min, ◌/◌}
use native.Mathlib.Nat.{mul-suc, le-div_iff_mul-le}
use sentinelgate.Prelude.{
  ℕ, zero, suc, ◌-◌, ◌*◌, ◌≤◌, ◌≡◌, refl, sym, ap, ◌∙◌, inl, inr, String, Bool, true, false, List,
  [], ◌∷◌, ◌++◌, ◌==◌, any, select, length, leb, ltb, sorted_set, eq_iff, eq_self, arith,
  Bool-cases, length-append, le→leb, and_left, and_right,
}
use sentinelgate.Watch.Patterns.{
  take, drop, repeated, same_texts, last_values, is_cycle, first_cycle, cycle_pattern,
}

same_texts→path : (xs ys : List String) → same_texts xs ys ≡ true → xs ≡ ys
unfolding same_texts
same_texts→path [] [] h = refl
same_texts→path [] (y ∷ ys) h = ground arith
same_texts→path (x ∷ xs) [] h = ground arith
same_texts→path (x ∷ xs) (y ∷ ys) h =
    rw
      (
        (eq_iff x y).0 (and_left (x == y) (same_texts xs ys) h),
        same_texts→path xs ys (and_right (x == y) (same_texts xs ys) h),
      )
      refl

same_texts_self : (xs : List String) → same_texts xs xs ≡ true
unfolding same_texts
same_texts_self [] = refl
same_texts_self (x ∷ xs) = rw (eq_self x) (same_texts_self xs)

take-drop : (n : ℕ) (xs : List String) → xs ≡ take n xs ++ drop n xs
unfolding take drop
take-drop n [] = refl
take-drop zero (x ∷ xs) = refl
take-drop (suc n) (x ∷ xs) = ap (λ zs. x ∷ zs) (take-drop n xs)

drop-zero : (xs : List String) → drop zero xs ≡ xs
unfolding drop
drop-zero [] = refl
drop-zero (x ∷ xs) = refl

take-zero : (xs : List String) → take zero xs ≡ []
unfolding take
take-zero [] = refl
take-zero (x ∷ xs) = refl

drop-append : (xs ys : List String) → drop (length xs) (xs ++ ys) ≡ ys
unfolding drop
drop-append [] ys = drop-zero ys
drop-append (x ∷ xs) ys = drop-append xs ys

take-append : (xs ys : List String) → take (length xs) (xs ++ ys) ≡ xs
unfolding take
take-append [] ys = take-zero ys
take-append (x ∷ xs) ys = ap (λ zs. x ∷ zs) (take-append xs ys)

length-repeated : (n : ℕ) (pattern : List String) → length (repeated n pattern) ≡ length pattern * n
unfolding repeated
length-repeated zero pattern = omega arith
length-repeated (suc n) pattern =
    let whole = length-append pattern (repeated n pattern) in
    let rest = length-repeated n pattern in
    let step = mul-suc (length pattern) n in omega (arith, whole, rest, step)

-- The values end in so many repetitions of a pattern that is not one value alone.
unfoldable pub EndsIn : List String → ℕ → List String → Type 0
EndsIn values repetitions pattern =
    (before : List String) × ((values ≡ before ++ repeated repetitions pattern)
      × (ltb 1 (length (sorted_set pattern)) ≡ true))

is_cycle-EndsIn :
    (values : List String) (repetitions size : ℕ)
    → is_cycle values repetitions size ≡ true
    → EndsIn values repetitions (take size (last_values (size * repetitions) values))
unfolding is_cycle EndsIn last_values
is_cycle-EndsIn values repetitions size h = (
  take (length values - size * repetitions) values,
  (
    take-drop (length values - size * repetitions) values
        ∙ ap (λ tail. take (length values - size * repetitions) values ++ tail)
            (sym (same_texts→path _ _ (and_left _ _ h))),
    and_right _ _ h,
  ),
)

first_cycle-EndsIn :
    (sizes : List ℕ) (values : List String) (repetitions : ℕ)
    → any (is_cycle values repetitions) sizes ≡ true
    → EndsIn values repetitions (first_cycle sizes values repetitions)
unfolding any first_cycle
first_cycle-EndsIn [] values repetitions h = ground arith
first_cycle-EndsIn (size ∷ sizes) values repetitions h =
    elim (Bool-cases (is_cycle values repetitions size)) [
      | inl e ↦ rw (e, first_cycle) (is_cycle-EndsIn values repetitions size e)
      | inr e ↦ rw (e, first_cycle) (first_cycle-EndsIn sizes values repetitions (ground arith))
    ]

first_cycle-nothing :
    (sizes : List ℕ) (values : List String) (repetitions : ℕ)
    → any (is_cycle values repetitions) sizes ≡ false
    → first_cycle sizes values repetitions ≡ []
unfolding any first_cycle
first_cycle-nothing [] values repetitions h = refl
first_cycle-nothing (size ∷ sizes) values repetitions h =
    elim (Bool-cases (is_cycle values repetitions size)) [
      | inl e ↦ ground arith
      | inr e ↦ rw (e, first_cycle) (first_cycle-nothing sizes values repetitions (ground arith))
    ]

-- A repeated tail is recognised at its length.
EndsIn-is_cycle :
    (values : List String) (n : ℕ) (pattern : List String)
    → EndsIn values (suc n) pattern
    → is_cycle values (suc n) (length pattern) ≡ true
unfolding EndsIn is_cycle last_values repeated
EndsIn-is_cycle values n pattern (before, (ends, several)) =
    let whole = length-append before (repeated (suc n) pattern) in
    let tail_length = length-repeated (suc n) pattern in
    let start : length values - length pattern * suc n ≡ length before =
      omega (arith, ap length ends, whole, tail_length) in
    let tail : drop (length values - length pattern * suc n) values ≡ repeated (suc n) pattern =
      ap (λ k. drop k values) start
      ∙ (ap (drop (length before)) ends ∙ drop-append before (repeated (suc n) pattern)) in
    rw (tail, take-append pattern (repeated n pattern), several, same_texts_self) refl

any-select :
    (p q : ℕ → Bool) (size : ℕ)
    → 2 ≤ size
    → size ≤ 6
    → p size ≡ true
    → q size ≡ true
    → any q (select p (2 ∷ 3 ∷ 4 ∷ 5 ∷ 6 ∷ [])) ≡ true
unfolding any select
any-select p q zero low high h k = ground arith
any-select p q (suc zero) low high h k = ground arith
any-select p q (suc (suc zero)) low high h k = ground arith
any-select p q (suc (suc (suc zero))) low high h k = ground arith
any-select p q (suc (suc (suc (suc zero)))) low high h k = ground arith
any-select p q (suc (suc (suc (suc (suc zero))))) low high h k = ground arith
any-select p q (suc (suc (suc (suc (suc (suc zero)))))) low high h k = ground arith
any-select p q (suc (suc (suc (suc (suc (suc (suc n))))))) low high h k = ground arith

fits :
    (values : List String) (n : ℕ) (pattern : List String)
    → EndsIn values (suc n) pattern
    → length pattern ≤ 6
    → leb (length pattern) (min 6 (length values / suc n)) ≡ true
unfolding EndsIn
fits values n pattern (before, (ends, several)) short =
    let whole = length-append before (repeated (suc n) pattern) in
    let total = ap length ends in
    let enough : length pattern ≤ length values / suc n =
      (le-div_iff_mul-le (omega arith)).1
        (omega (arith, total, whole, length-repeated (suc n) pattern)) in
    le→leb (length pattern) (min 6 (length values / suc n)) (omega (arith, enough))

-- If the values end in repetitions of a pattern of two to six values that are not all the same, then
-- `_cycle_pattern` answers such a pattern, of which the values end in as many repetitions.
pub cycle_pattern-EndsIn :
    (values : List String) (n : ℕ) (pattern : List String)
    → 2 ≤ length pattern
    → length pattern ≤ 6
    → EndsIn values (suc n) pattern
    → EndsIn values (suc n) (cycle_pattern values (suc n))
unfolding cycle_pattern
cycle_pattern-EndsIn values n pattern long short ends =
    first_cycle-EndsIn
      (select (λ size. leb size (min 6 (length values / suc n))) (2 ∷ 3 ∷ 4 ∷ 5 ∷ 6 ∷ [])) values
      (suc n)
      (any-select (λ size. leb size (min 6 (length values / suc n))) (is_cycle values (suc n))
        (length pattern) long short (fits values n pattern ends short)
        (EndsIn-is_cycle values n pattern ends))
