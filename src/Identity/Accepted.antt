-- ===== src/Identity/Accepted.antt =====
-- identity.py: the checks of `decode`.
use sentinelgate.Prelude.{
  ℕ, String, Bool, true, false, ◌≡◌, refl, ap, ◌∙◌, Option, none, some, List, [], ◌∷◌, cat, eq_iff,
  arith, not, ◌==◌, if◌then◌else◌,
}
use sentinelgate.Json.{Json, Fields, object, get_field}
use sentinelgate.Runtime.{Runtime}
use sentinelgate.FieldTaint.Pointer.{split}
use sentinelgate.Identity.{
  TokenSigner, Answer, ok, token_error, attribute_error, decode_bytes, verified_parts, decode_split,
  checked_payload, decode, is_text, is_expired, or_malformed, ◌>>=◌,
}

-- The result of a bind that is accepted.
pub bind-ok :
    {A B : Type 0} (r : Answer A) (f : A → Answer B) (b : B)
    → (r >>= f) ≡ ok b
    → (a : A) × ((r ≡ ok a) × (f a ≡ ok b))
bind-ok (ok a) f b h = (a, (refl, h))
bind-ok (token_error m) f b h = ground arith
bind-ok (Answer.value_error m) f b h = ground arith
bind-ok attribute_error f b h = ground arith
bind-ok (Answer.key_error k) f b h = ground arith
bind-ok Answer.type_error f b h = ground arith

not-false : (b : Bool) → not b ≡ false → b ≡ true
not-false b h = ground arith

-- A guard that was passed.
pub guard-ok :
    {A : Type 0} (failed : Bool) (message : String) (rest : Answer A) (a : A)
    → (if failed then token_error message else rest) ≡ ok a
    → (failed ≡ false) × (rest ≡ ok a)
guard-ok true message rest a h = ground arith
guard-ok false message rest a h = (refl, h)

module _ (runtime : Runtime) (signer : TokenSigner) where
  -- The last part is the signature of the other two under the issuer's key.
  unfoldable pub IsSignedBy : List String → Type 0
  IsSignedBy (h ∷ p ∷ s ∷ []) =
      decode_bytes runtime s ≡ some (runtime.hmac_digest signer.key (cat h (cat "." p)))
  IsSignedBy _ = ⊥

  checked_payload-accepts :
      (header payload : Json) (audience : String) (now : ℕ) (d : Fields)
      → checked_payload runtime signer header payload audience now ≡ ok d
      → (is_text signer.issuer (get_field "iss" d) ≡ true)
        × (is_text audience (get_field "aud" d) ≡ true)
        × (is_expired runtime (get_field "exp" d) now ≡ false)
  unfolding checked_payload
  checked_payload-accepts header (object e) audience now d h = ground arith
  checked_payload-accepts header Json.null audience now d h = ground arith
  checked_payload-accepts header (Json.boolean b) audience now d h = ground arith
  checked_payload-accepts header (Json.number n) audience now d h = ground arith
  checked_payload-accepts header (Json.text s) audience now d h = ground arith
  checked_payload-accepts header (Json.array xs) audience now d h = ground arith

  or_malformed-ok : {A : Type 0} (o : Option A) (a : A) → or_malformed o ≡ ok a → o ≡ some a
  unfolding or_malformed
  or_malformed-ok none a h = ground arith
  or_malformed-ok (some b) a h = ground arith

  verified_parts-accepts :
      (h p s : String) (parts : Json × Json)
      → verified_parts runtime signer h p s ≡ ok parts
      → IsSignedBy (h ∷ p ∷ s ∷ [])
  unfolding verified_parts IsSignedBy
  verified_parts-accepts h p s parts e =
      let (supplied, (found, rest)) = bind-ok (or_malformed (decode_bytes runtime s)) _ parts e in
      or_malformed-ok (decode_bytes runtime s) supplied found
      ∙ ap some (
          (eq_iff supplied (runtime.hmac_digest signer.key (cat h (cat "." p)))).0 (
            not-false (supplied == runtime.hmac_digest signer.key (cat h (cat "." p)))
              (guard-ok _ "Invalid token signature" _ parts rest).0))

  decode_split-accepts :
      (parts : List String) (audience : String) (now : ℕ) (d : Fields)
      → decode_split runtime signer parts audience now ≡ ok d
      → IsSignedBy parts
        × (is_text signer.issuer (get_field "iss" d) ≡ true)
        × (is_text audience (get_field "aud" d) ≡ true)
        × (is_expired runtime (get_field "exp" d) now ≡ false)
  unfolding decode_split
  decode_split-accepts (h ∷ p ∷ s ∷ []) audience now d e =
      let (parts, (verified, checked)) = bind-ok (verified_parts runtime signer h p s) _ d e in
      let (issuer, aud, fresh) = checked_payload-accepts parts.0 parts.1 audience now d checked in
      (verified_parts-accepts h p s parts verified, issuer, aud, fresh)
  decode_split-accepts [] audience now d e = ground arith
  decode_split-accepts (_ ∷ []) audience now d e = ground arith
  decode_split-accepts (_ ∷ _ ∷ []) audience now d e = ground arith
  decode_split-accepts (_ ∷ _ ∷ _ ∷ _ ∷ _) audience now d e = ground arith

  -- A token that `decode` accepts has three parts, of which the last is the signature of the other
  -- two under the issuer's key; it names the issuer and the audience, and it has not expired.
  pub decode-accepts :
      (token audience : String) (now : ℕ) (d : Fields)
      → decode runtime signer token audience now ≡ ok d
      → IsSignedBy (split "." token)
        × (is_text signer.issuer (get_field "iss" d) ≡ true)
        × (is_text audience (get_field "aud" d) ≡ true)
        × (is_expired runtime (get_field "exp" d) now ≡ false)
  unfolding decode
  decode-accepts token audience now d e = decode_split-accepts (split "." token) audience now d e
