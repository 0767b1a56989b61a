-- ===== src/Tests/Codec.antt =====
-- A small codec for the tests: numbers in unary digits, and four characters for each byte.
use Prim.Native.Char.{Char}
use sentinelgate.Prelude.{
  ℕ, zero, suc, String, true, false, ◌≡◌, refl, ap, ◌∙◌, Option, none, some, if◌then◌else◌,
  Bool-cases, inl, inr,
}
use package.text.Mathlib.TextLemmas.{append-nil}
use sentinelgate.Runtime.{Runtime}
use sentinelgate.FieldTaint.Pointer.{same_char, unescape_pointer, replace_pair}
use sentinelgate.FieldTaint.Escape.{HasNo, unescape_pointer-cons, same_char→path}
use sentinelgate.FieldTaint.Resolve.{DecimalLaws}
use sentinelgate.Identity.{rstrip, padding, padding_after}
use sentinelgate.Identity.Encoding.{CodecLaws}
use sentinelgate.Tests.Data.{sample_runtime}

abbrev pub unary : ℕ → String
unary zero = "1"
unary (suc n) = String.◌∷◌ "1" (unary n)

abbrev pub read_unary : String → Option ℕ
read_unary String.[] = none
read_unary (String.◌∷◌ c s) = elim (read_unary s) [ none ↦ some 0 | some n ↦ some (suc n) ]

read_unary-unary : (n : ℕ) → read_unary (unary n) ≡ some n
read_unary-unary zero = refl
read_unary-unary (suc n) = rw (read_unary-unary n) refl

unary-HasNo : (n : ℕ) → HasNo "/" (unary n)
unfolding HasNo
unary-HasNo zero = (refl, tt)
unary-HasNo (suc n) = (refl, unary-HasNo n)

unescape_pointer-unary : (n : ℕ) → unescape_pointer (unary n) ≡ unary n
unfolding unescape_pointer replace_pair
unescape_pointer-unary zero = refl
unescape_pointer-unary (suc n) =
    unescape_pointer-cons "1" (unary n) refl ∙ ap (String.◌∷◌ "1") (unescape_pointer-unary n)

-- The first two of the four characters for a character.
abbrev tag : Char → Char
tag c = if same_char c "." then "b" else if same_char c "=" then "c" else "a"

abbrev body : Char → Char
body c = if same_char c "." then "a" else if same_char c "=" then "a" else c

abbrev pub quads : String → String
quads String.[] = String.[]
quads (String.◌∷◌ c s) =
    String.◌∷◌ (tag c) (String.◌∷◌ (body c) (String.◌∷◌ "a" (String.◌∷◌ "a" (quads s))))

abbrev of_quad : Char → Char → Char
of_quad x y = if same_char x "b" then "." else if same_char x "c" then "=" else y

abbrev pub read_quads : String → Option String
read_quads String.[] = some String.[]
read_quads (String.◌∷◌ x String.[]) = none
read_quads (String.◌∷◌ x (String.◌∷◌ y String.[])) = none
read_quads (String.◌∷◌ x (String.◌∷◌ y (String.◌∷◌ z String.[]))) = none
read_quads (String.◌∷◌ x (String.◌∷◌ y (String.◌∷◌ z (String.◌∷◌ w s)))) = elim (read_quads s) [
  | none ↦ none
  | some t ↦ some (String.◌∷◌ (of_quad x y) t)
]

of_quad-tag : (c : Char) → of_quad (tag c) (body c) ≡ c
of_quad-tag c = elim (Bool-cases (same_char c ".")) [
  | inl e ↦ rw (e, same_char→path c "." e) refl
  | inr e ↦ elim (Bool-cases (same_char c "=")) [
    | inl k ↦ rw (e, k, same_char→path c "=" k) refl
    | inr k ↦ rw (e, k) refl
  ]
]

read_quads-quads : (s : String) → read_quads (quads s) ≡ some s
read_quads-quads String.[] = refl
read_quads-quads (String.◌∷◌ c s) =
    rw (read_quads-quads s) (ap (λ x. some (String.◌∷◌ x s)) (of_quad-tag c))

quad_clean :
    (c : Char)
    → (same_char (tag c) "." ≡ false)
      × (same_char (body c) "." ≡ false)
      × (same_char (tag c) "=" ≡ false)
      × (same_char (body c) "=" ≡ false)
quad_clean c = elim (Bool-cases (same_char c ".")) [
  | inl e ↦ rw e (refl, refl, refl, refl)
  | inr e ↦ elim (Bool-cases (same_char c "=")) [
    | inl k ↦ rw (e, k) (refl, refl, refl, refl)
    | inr k ↦ rw (e, k) (refl, e, refl, k)
  ]
]

quads-HasNo : (s : String) → HasNo "." (quads s) × HasNo "=" (quads s)
unfolding HasNo
quads-HasNo String.[] = (tt, tt)
quads-HasNo (String.◌∷◌ c s) =
    let (t, b, t', b') = quad_clean c in
    let (dots, pads) = quads-HasNo s in
    ((t, (b, (refl, (refl, dots)))), (t', (b', (refl, (refl, pads)))))

rstrip-HasNo : (p : Char) (s : String) → HasNo p s → rstrip p s ≡ s
unfolding rstrip HasNo
rstrip-HasNo p String.[] h = refl
rstrip-HasNo p (String.◌∷◌ c String.[]) h = rw h.0 refl
rstrip-HasNo p (String.◌∷◌ c (String.◌∷◌ d s)) h = rw (rstrip-HasNo p (String.◌∷◌ d s) h.1) refl

padding-quads : (s : String) → padding (quads s) ≡ String.[]
unfolding padding padding_after
padding-quads String.[] = refl
padding-quads (String.◌∷◌ c s) = padding-quads s

abbrev pub codec_runtime : Runtime
codec_runtime = record sample_runtime {
  decimal = unary;
  isdigit = λ s. true;
  parse_int = read_unary;
  urlsafe_b64encode = quads;
  b64decode = read_quads;
}

pub codec_DecimalLaws : DecimalLaws codec_runtime
codec_DecimalLaws = record {
  isdigit-decimal = λ n. refl;
  parse_int-decimal = read_unary-unary;
  decimal-HasNo = unary-HasNo;
  unescape_pointer-decimal = unescape_pointer-unary;
}

stripped : (s : String) → rstrip "=" (quads s) ≡ quads s
stripped s = rstrip-HasNo "=" (quads s) (quads-HasNo s).1

pub codec_CodecLaws : CodecLaws codec_runtime
codec_CodecLaws = record {
  b64decode-urlsafe_b64encode = read_quads-quads;
  rstrip-padding = λ s. rw (stripped s, padding-quads s) (append-nil (quads s));
  rstrip-HasNo = λ s. rw (stripped s) (quads-HasNo s).0;
  parse_int-decimal = read_unary-unary;
}
