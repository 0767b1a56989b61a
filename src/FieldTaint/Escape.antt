-- ===== src/FieldTaint/Escape.antt =====
-- field_taint.py: `escape_pointer` and `unescape_pointer`, and the split at the slashes.
use Prim.Native.Char.{Char}
use text.Mathlib.TextEquality.{Char-path}
use text.Mathlib.TextLemmas.{cons-append, nil-append}
use sentinelgate.Prelude.{String, true, false, ◌≡◌, refl, [], ◌∷◌, cat, arith, Bool-cases, inl, inr}
use sentinelgate.FieldTaint.Pointer.{
  same_char, replace_char, replace_pair, escape_pointer, unescape_pointer, split, extend_first,
}

pub same_char→path : (c d : Char) → same_char c d ≡ true → c ≡ d
same_char→path c d h = Char-path c d (ground arith)

-- A character that does not occur in a text.
unfoldable pub HasNo : Char → String → Type 0
HasNo p String.[] = Unit
HasNo p (String.◌∷◌ c s) = (same_char c p ≡ false) × HasNo p s

-- What escaping does to each character.
escape_pointer-tilde :
    (c : Char) (s : String)
    → same_char c "~" ≡ true
    → escape_pointer (String.◌∷◌ c s) ≡ String.◌∷◌ "~" (String.◌∷◌ "0" (escape_pointer s))
unfolding escape_pointer replace_char
escape_pointer-tilde c s e = rw (e, replace_char) refl

escape_pointer-slash :
    (c : Char) (s : String)
    → same_char c "~" ≡ false
    → same_char c "/" ≡ true
    → escape_pointer (String.◌∷◌ c s) ≡ String.◌∷◌ "~" (String.◌∷◌ "1" (escape_pointer s))
unfolding escape_pointer replace_char
escape_pointer-slash c s e k = rw (e, replace_char) (rw (k, replace_char) refl)

escape_pointer-other :
    (c : Char) (s : String)
    → same_char c "~" ≡ false
    → same_char c "/" ≡ false
    → escape_pointer (String.◌∷◌ c s) ≡ String.◌∷◌ c (escape_pointer s)
unfolding escape_pointer replace_char
escape_pointer-other c s e k = rw (e, replace_char) (rw (k, replace_char) refl)

escape_pointer-nil : escape_pointer String.[] ≡ String.[]
unfolding escape_pointer replace_char
escape_pointer-nil = refl

pub escape_pointer-HasNo : (s : String) → HasNo "/" (escape_pointer s)
unfolding HasNo
escape_pointer-HasNo String.[] = rw escape_pointer-nil tt
escape_pointer-HasNo (String.◌∷◌ c s) = elim (Bool-cases (same_char c "~")) [
  | inl e ↦ rw (escape_pointer-tilde c s e) (refl, (refl, escape_pointer-HasNo s))
  | inr e ↦ elim (Bool-cases (same_char c "/")) [
    | inl k ↦ rw (escape_pointer-slash c s e k) (refl, (refl, escape_pointer-HasNo s))
    | inr k ↦ rw (escape_pointer-other c s e k) (k, escape_pointer-HasNo s)
  ]
]

-- A character that does not begin the pair stays.
replace_pair-cons :
    (p q x c : Char) (s : String)
    → same_char c p ≡ false
    → replace_pair p q x (String.◌∷◌ c s) ≡ String.◌∷◌ c (replace_pair p q x s)
unfolding replace_pair
replace_pair-cons p q x c String.[] h = refl
replace_pair-cons p q x c (String.◌∷◌ d s) h = rw (h, replace_pair) refl

-- A character other than the tilde stays.
pub unescape_pointer-cons :
    (c : Char) (s : String)
    → same_char c "~" ≡ false
    → unescape_pointer (String.◌∷◌ c s) ≡ String.◌∷◌ c (unescape_pointer s)
unfolding unescape_pointer
unescape_pointer-cons c s h =
    rw (replace_pair-cons "~" "1" "/" c s h)
      (replace_pair-cons "~" "0" "~" c (replace_pair "~" "1" "/" s) h)

unescape_pointer-tilde :
    (s : String)
    → unescape_pointer (String.◌∷◌ "~" (String.◌∷◌ "0" s)) ≡ String.◌∷◌ "~" (unescape_pointer s)
unfolding unescape_pointer replace_pair
unescape_pointer-tilde s = rw (replace_pair-cons "~" "1" "/" "0" s refl) refl

unescape_pointer-slash :
    (s : String)
    → unescape_pointer (String.◌∷◌ "~" (String.◌∷◌ "1" s)) ≡ String.◌∷◌ "/" (unescape_pointer s)
unfolding unescape_pointer replace_pair
unescape_pointer-slash s = replace_pair-cons "~" "0" "~" "/" (replace_pair "~" "1" "/" s) refl

unescape_pointer-nil : unescape_pointer (escape_pointer String.[]) ≡ String.[]
unfolding unescape_pointer escape_pointer replace_pair replace_char
unescape_pointer-nil = refl

pub unescape_pointer-escape_pointer : (s : String) → unescape_pointer (escape_pointer s) ≡ s
unescape_pointer-escape_pointer String.[] = unescape_pointer-nil
unescape_pointer-escape_pointer (String.◌∷◌ c s) =
    let rest = unescape_pointer-escape_pointer s in
    elim (Bool-cases (same_char c "~")) [
      | inl e ↦
          rw (escape_pointer-tilde c s e, unescape_pointer-tilde, rest, same_char→path c "~" e) refl
      | inr e ↦ elim (Bool-cases (same_char c "/")) [
        | inl k ↦
            rw (escape_pointer-slash c s e k, unescape_pointer-slash, rest, same_char→path c "/" k)
              refl
        | inr k ↦ rw (escape_pointer-other c s e k, unescape_pointer-cons _ _ e, rest) refl
      ]
    ]

same_char_self : (c : Char) → same_char c c ≡ true
same_char_self c = ground arith

-- A part without the separator is split off at the separator that follows it.
pub split-HasNo : (p : Char) (s : String) → HasNo p s → split p s ≡ s ∷ []
unfolding split extend_first HasNo
split-HasNo p String.[] h = refl
split-HasNo p (String.◌∷◌ c s) h = rw (h.0, split-HasNo p s h.1) refl

pub split-cat :
    (p : Char) (s t : String) → HasNo p s → split p (cat s (String.◌∷◌ p t)) ≡ s ∷ split p t
unfolding split extend_first HasNo
split-cat p String.[] t h = rw (nil-append (String.◌∷◌ p t), same_char_self p) refl
split-cat p (String.◌∷◌ c s) t h =
    rw (cons-append c s (String.◌∷◌ p t)) (rw (h.0, split-cat p s t h.1) refl)
