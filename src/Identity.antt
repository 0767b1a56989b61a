-- ===== src/Identity.antt =====
-- The token issuer of src/sentinelgate/identity.py: `_encode`, `_decode` and `TokenSigner` with
-- `issue`, `decode`, `issue_agent` and `agent_principal`. Bytes are texts; a time is a number of
-- seconds, and the fraction of a second that the source cuts off is not there.
pub mod Encoding
pub mod Signed
pub mod Accepted
use Prim.Native.Char.{Char}
use Prim.Native.String.{count as size}
use sentinelgate.Prelude.{
  ℕ, zero, suc, ◌+◌, String, Bool, true, false, ◌&&◌, not, Option, none, some, List, [], ◌∷◌, ◌==◌,
  cat, leb, ltb, sorted_set, any, if◌then◌else◌,
}
use sentinelgate.Json.{
  Json, Items, Fields, nil, cons, end, field, number, text, array, object, get_field,
}
use sentinelgate.Models.{AgentPrincipal}
use sentinelgate.Runtime.{Runtime}
use sentinelgate.FieldTaint.Pointer.{same_char, split}

-- What a call answers, or the class of the error it raises.
pub data Answer (A : Type 0) : Type 0 where
  ok : A → Answer A
  token_error : String → Answer A
  value_error : String → Answer A
  attribute_error : Answer A
  key_error : String → Answer A
  type_error : Answer A

infixl 1 ◌>>=◌
abbrev pub ◌>>=◌ : {A B : Type 0} → Answer A → (A → Answer B) → Answer B
ok a >>= f = f a
token_error m >>= f = token_error m
value_error m >>= f = value_error m
attribute_error >>= f = attribute_error
key_error k >>= f = key_error k
type_error >>= f = type_error

-- The errors that `decode` turns into a malformed token.
unfoldable pub or_malformed : {A : Type 0} → Option A → Answer A
or_malformed none = token_error "Malformed token"
or_malformed (some a) = ok a

-- A value that has to be there, with the error if it is not.
unfoldable pub or_raise : {A : Type 0} → Answer A → Option A → Answer A
or_raise error none = error
or_raise error (some a) = ok a

pub record TokenSigner : Type 0 where
  pub key : String
  pub issuer : String

-- `TokenSigner(key, issuer)`
unfoldable pub new_signer : String → String → Answer TokenSigner
new_signer key issuer =
    if ltb (size key) 24
    then value_error "Token signing key must be at least 24 characters"
    else ok (record { key = key; issuer = issuer })

-- `s.rstrip(p)` for a character p
unfoldable pub rstrip : Char → String → String
rstrip p String.[] = String.[]
rstrip p (String.◌∷◌ c s) = elim (rstrip p s) [
  | String.[] ↦ if same_char c p then String.[] else String.◌∷◌ c String.[]
  | String.◌∷◌ d t ↦ String.◌∷◌ c (String.◌∷◌ d t)
]

-- `"=" * (-len(value) % 4)`, by the characters read so far, up to four
unfoldable pub padding_after : ℕ → String → String
padding_after zero String.[] = ""
padding_after (suc zero) String.[] = "==="
padding_after (suc (suc zero)) String.[] = "=="
padding_after (suc (suc (suc n))) String.[] = "="
padding_after zero (String.◌∷◌ c s) = padding_after 1 s
padding_after (suc zero) (String.◌∷◌ c s) = padding_after 2 s
padding_after (suc (suc zero)) (String.◌∷◌ c s) = padding_after 3 s
padding_after (suc (suc (suc n))) (String.◌∷◌ c s) = padding_after 0 s

unfoldable pub padding : String → String
unfolding padding_after
padding value = padding_after 0 value

-- `payload.get(name)` is this text
unfoldable pub is_text : String → Option Json → Bool
is_text s (some (text t)) = t == s
is_text s _ = false

-- `{"alg": "HS256", "typ": "SGT"}`
abbrev pub token_header : Fields
token_header = field "alg" (text "HS256") (field "typ" (text "SGT") end)

-- `header == {"alg": "HS256", "typ": "SGT"}`: two fields, in either order.
unfoldable pub is_token_header : Json → Bool
unfolding is_text
is_token_header (object (field j v (field k w end))) =
    let d = field j v (field k w end) in
    is_text "HS256" (get_field "alg" d) && is_text "SGT" (get_field "typ" d)
is_token_header _ = false

-- `reserved & claims.keys()`
unfoldable pub has_key : Fields → String → Bool
has_key d k = elim (get_field k d) [ none ↦ false | some v ↦ true ]

abbrev pub reserved : List String
reserved = "iss" ∷ "sub" ∷ "aud" ∷ "iat" ∷ "exp" ∷ "jti" ∷ []

unfoldable pub string_items : List String → Items
string_items [] = nil
string_items (x ∷ xs) = cons (text x) (string_items xs)

-- `isinstance(v, list) and all(isinstance(i, str) for i in v)`; `none` if not
unfoldable pub text_items : Items → Option (List String)
text_items nil = some []
text_items (cons (text s) xs) = elim (text_items xs) [ none ↦ none | some ss ↦ some (s ∷ ss) ]
text_items (cons _ xs) = none

unfoldable pub string_list : Option Json → Option (List String)
unfolding text_items
string_list (some (array xs)) = text_items xs
string_list _ = none

-- What `issue_agent` answers.
pub record TokenResponse : Type 0 where
  pub access_token : String
  pub expires_at : ℕ
  pub token_id : String

module _ (runtime : Runtime) where
  unfoldable pub encode : String → String
  unfolding rstrip
  encode bytes = rstrip "=" (runtime.urlsafe_b64encode bytes)

  -- `none` is the `ValueError`.
  unfoldable pub decode_bytes : String → Option String
  unfolding encode padding
  decode_bytes value = elim (runtime.b64decode (cat value (padding value))) [
    | none ↦ none
    | some decoded ↦ if encode decoded == value then some decoded else none
  ]

  -- `str(payload[k])`
  unfoldable pub required : String → Fields → Answer String
  required k d = elim (get_field k d) [
    | none ↦ key_error k
    | some (text s) ↦ ok s
    | some v ↦ ok (runtime.str v)
  ]

  -- `not isinstance(payload.get("exp"), int) or payload["exp"] <= now`: a truth value counts as 0
  -- or 1, and a negative number, like one that is no integer, is expired as well.
  unfoldable pub is_expired : Option Json → ℕ → Bool
  is_expired (some (number n)) now = elim (runtime.parse_int n) [ none ↦ true | some e ↦ leb e now ]
  is_expired (some (Json.boolean true)) now = leb 1 now
  is_expired (some (Json.boolean false)) now = leb 0 now
  is_expired _ now = true

  -- `payload["exp"]` of a payload that was decoded
  unfoldable pub expiry : Fields → ℕ
  expiry d = elim (get_field "exp" d) [
    | some (number n) ↦ elim (runtime.parse_int n) [ none ↦ 0 | some e ↦ e ]
    | some (Json.boolean true) ↦ 1
    | _ ↦ 0
  ]

  module _ (signer : TokenSigner) where
    -- The payload, its own claims first.
    unfoldable pub payload_of : String → String → ℕ → ℕ → String → Fields → Fields
    payload_of subject audience now expires jti claims = field "iss" (text signer.issuer) (
        field "sub" (text subject) (
          field "aud" (text audience) (
            field "iat" (number (runtime.decimal now))
              (field "exp" (number (runtime.decimal expires)) (field "jti" (text jti) claims)))))

    -- The two parts that are signed.
    unfoldable pub signed_text : Fields → String
    unfolding encode
    signed_text payload =
        cat (encode (runtime.dumps_compact (object token_header)))
          (cat "." (encode (runtime.dumps_compact (object payload))))

    unfoldable pub with_signature : String → String
    unfolding encode
    with_signature encoded = cat encoded (cat "." (encode (runtime.hmac_digest signer.key encoded)))

    -- The token and its expiry; the clock and the new identifier are arguments.
    unfoldable pub issue : String → String → ℕ → Fields → ℕ → String → Answer (String × ℕ)
    unfolding payload_of signed_text with_signature has_key
    issue subject audience ttl_seconds claims now jti =
        if any (has_key claims) reserved
        then value_error "Custom claims cannot override reserved token claims"
        else ok (
          with_signature
              (signed_text (payload_of subject audience now (now + ttl_seconds) jti claims)),
          now + ttl_seconds,
        )

    -- The checks after the signature.
    unfoldable pub checked_payload : Json → Json → String → ℕ → Answer Fields
    unfolding is_token_header is_text is_expired
    checked_payload header payload audience now =
        if not (is_token_header header)
        then token_error "Unsupported token header"
        else elim payload [
          | object d ↦
              if not
                (is_text signer.issuer (get_field "iss" d) && is_text audience (get_field "aud" d))
              then token_error "Invalid issuer or audience"
              else if is_expired (get_field "exp" d) now
              then token_error "Token expired"
              else ok d
          | _ ↦ attribute_error
        ]

    -- The `try` block: the signature, then the two parts as JSON.
    unfoldable pub verified_parts : String → String → String → Answer (Json × Json)
    unfolding decode_bytes or_malformed
    verified_parts header_part payload_part signature_part = do
      supplied ← or_malformed (decode_bytes signature_part)
      let signed = cat header_part (cat "." payload_part)
      if not (supplied == runtime.hmac_digest signer.key signed)
          then token_error "Invalid token signature"
          else do
            header_bytes ← or_malformed (decode_bytes header_part)
            header ← or_malformed (runtime.loads header_bytes)
            payload_bytes ← or_malformed (decode_bytes payload_part)
            payload ← or_malformed (runtime.loads payload_bytes)
            ok (header, payload)

    unfoldable pub decode_split : List String → String → ℕ → Answer Fields
    unfolding verified_parts checked_payload
    decode_split (h ∷ p ∷ s ∷ []) audience now = do
      parts ← verified_parts h p s
      checked_payload parts.0 parts.1 audience now
    decode_split _ audience now = token_error "Malformed token"

    unfoldable pub decode : String → String → ℕ → Answer Fields
    unfolding decode_split
    decode token audience now = decode_split (split "." token) audience now

    unfoldable pub issue_agent :
        String → String → List String → ℕ → ℕ → String → ℕ → Answer TokenResponse
    unfolding issue decode required string_items
    issue_agent agent_id tenant_id scopes ttl_seconds now jti later = do
      issued ←
          issue agent_id "sentinelgate-agent" ttl_seconds
            (field "tenant_id" (text tenant_id)
              (field "scopes" (array (string_items (sorted_set scopes))) end))
            now jti
      payload ← decode issued.0 "sentinelgate-agent" later
      token_id ← required "jti" payload
      ok (record { access_token = issued.0; expires_at = issued.1; token_id = token_id })

    -- The principal of a payload.
    unfoldable pub principal_of : Fields → Answer AgentPrincipal
    unfolding string_list required expiry
    principal_of payload = elim (string_list (get_field "scopes" payload)) [
      | none ↦ token_error "Invalid scopes"
      | some scopes ↦ do
        agent_id ← required "sub" payload
        tenant_id ← required "tenant_id" payload
        token_id ← required "jti" payload
        ok (record {
          agent_id = agent_id;
          tenant_id = tenant_id;
          scopes = scopes;
          token_id = token_id;
          expires_at = expiry payload;
        })
    ]

    unfoldable pub agent_principal : String → ℕ → Answer AgentPrincipal
    unfolding decode principal_of
    agent_principal token now = do
      payload ← decode token "sentinelgate-agent" now
      principal_of payload
