-- ===== src/Identity/Signed.antt =====
-- identity.py: `issue` and `decode` of `TokenSigner`, one after the other.
use package.text.Mathlib.TextLemmas.{nil-append, cons-append, append_assoc}
use sentinelgate.Prelude.{
  ℕ, ◌+◌, String, ◌≡◌, refl, ap, ◌∙◌, some, [], ◌∷◌, cat, any, Bool-cases, inl, inr, arith, eq_self,
  ltb, if◌then◌else◌,
}
use sentinelgate.Json.{Json, Fields, text, object, get_field}
use sentinelgate.Runtime.{Runtime}
use sentinelgate.FieldTaint.Pointer.{split}
use sentinelgate.FieldTaint.Escape.{HasNo, split-HasNo, split-cat}
use sentinelgate.Identity.{
  TokenSigner, ok, token_error, value_error, encode, payload_of, signed_text, with_signature, issue,
  token_header, is_token_header, verified_parts, decode_split, checked_payload, decode, reserved,
  has_key, is_text, is_expired, or_malformed, ◌>>=◌,
}
use sentinelgate.Identity.Encoding.{CodecLaws, ReadsBack, decode_bytes-encode, encode-HasNo}

cat-dot : (s : String) → cat "." s ≡ String.◌∷◌ "." s
cat-dot s = cons-append "." String.[] s ∙ ap (String.◌∷◌ ".") (nil-append s)

-- Three parts without dots, joined by dots, split into the parts.
split-parts :
    (h p s : String)
    → HasNo "." h
    → HasNo "." p
    → HasNo "." s
    → split "." (cat (cat h (cat "." p)) (cat "." s)) ≡ h ∷ p ∷ s ∷ []
split-parts h p s nh np ns =
    rw
      (
        cat-dot p,
        cat-dot s,
        append_assoc h (String.◌∷◌ "." p) (String.◌∷◌ "." s),
        cons-append "." p (String.◌∷◌ "." s),
        split-cat "." h (cat p (String.◌∷◌ "." s)) nh,
        split-cat "." p s np,
        split-HasNo "." s ns,
      )
      refl

module _ (runtime : Runtime) (signer : TokenSigner) where
  -- A signed text with its signature, whose parts are encodings, passes the `try` block.
  verified_parts-signed :
      (h p : String) (header payload : Json)
      → CodecLaws runtime
      → runtime.loads h ≡ some header
      → runtime.loads p ≡ some payload
      → (let signed : String = cat (encode runtime h) (cat "." (encode runtime p)) in
          verified_parts runtime signer
            (encode runtime h)
            (encode runtime p)
            (encode runtime (runtime.hmac_digest signer.key signed))
          ≡ ok (header, payload))
  unfolding verified_parts or_malformed
  verified_parts-signed h p header payload laws hh hp =
      rw
        (
          decode_bytes-encode runtime
              (runtime.hmac_digest signer.key (cat (encode runtime h) (cat "." (encode runtime p))))
              laws,
          eq_self,
          decode_bytes-encode runtime h laws,
          decode_bytes-encode runtime p laws,
          hh,
          hp,
        )
        refl

  decode-signed :
      (payload : Fields) (audience : String) (now : ℕ)
      → CodecLaws runtime
      → ReadsBack runtime (object token_header)
      → ReadsBack runtime (object payload)
      → decode runtime signer
          (with_signature runtime signer (signed_text runtime signer payload))
          audience
          now
        ≡ checked_payload runtime signer (object token_header) (object payload) audience now
  unfolding decode with_signature signed_text decode_split ReadsBack
  decode-signed payload audience now laws reads_header reads_payload =
      let h = runtime.dumps_compact (object token_header) in
      let p = runtime.dumps_compact (object payload) in
      let signed = cat (encode runtime h) (cat "." (encode runtime p)) in
      let signature = runtime.hmac_digest signer.key signed in
      ap (λ parts. decode_split runtime signer parts audience now)
        (split-parts (encode runtime h) (encode runtime p) (encode runtime signature)
          (encode-HasNo runtime h laws) (encode-HasNo runtime p laws)
          (encode-HasNo runtime signature laws))
      ∙ ap (λ r. r >>= λ parts. checked_payload runtime signer parts.0 parts.1 audience now)
          (verified_parts-signed h p (object token_header) (object payload) laws reads_header
            reads_payload)

  checked_payload-payload_of :
      (subject audience jti : String) (now expires later : ℕ) (claims : Fields)
      → CodecLaws runtime
      → checked_payload runtime signer
          (object token_header)
          (object (payload_of runtime signer subject audience now expires jti claims))
          audience
          later
        ≡ (if ltb later expires
            then ok (payload_of runtime signer subject audience now expires jti claims)
            else token_error "Token expired")
  unfolding checked_payload payload_of is_token_header is_text is_expired get_field
  checked_payload-payload_of subject audience jti now expires later claims laws =
      rw (eq_self signer.issuer, eq_self audience, laws.parse_int-decimal expires) (ground arith)

  -- In a runtime with the laws, and if JSON reads back the header and this payload: own claims that
  -- hold a reserved name are refused; otherwise the token that `issue` answers decodes, for its
  -- audience and before its expiry, to the claims with the reserved ones in front, and from then on
  -- it is refused as expired.
  pub decode-issue :
      (subject audience jti : String) (ttl now later : ℕ) (claims : Fields)
      → CodecLaws runtime
      → ReadsBack runtime (object token_header)
      → ReadsBack runtime
          (object (payload_of runtime signer subject audience now (now + ttl) jti claims))
      → (issue runtime signer subject audience ttl claims now jti >>= λ issued.
          decode runtime signer issued.0 audience later)
        ≡ (if any (has_key claims) reserved
            then value_error "Custom claims cannot override reserved token claims"
            else if ltb later (now + ttl)
            then ok (payload_of runtime signer subject audience now (now + ttl) jti claims)
            else token_error "Token expired")
  unfolding issue
  decode-issue subject audience jti ttl now later claims laws reads_header reads_payload =
      elim (Bool-cases (any (has_key claims) reserved)) [
        | inl e ↦ rw e refl
        | inr e ↦ rw e (
            decode-signed (payload_of runtime signer subject audience now (now + ttl) jti claims)
              audience later laws reads_header reads_payload
            ∙ checked_payload-payload_of subject audience jti now (now + ttl) later claims laws)
      ]
