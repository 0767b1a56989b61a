-- ===== src/Identity/Encoding.antt =====
-- identity.py: the library's base64 and JSON as `_encode`, `_decode` and `decode` rely on them, and
-- the round trip of `_encode` and `_decode`.
use sentinelgate.Prelude.{ℕ, String, ◌≡◌, refl, some, cat, eq_self, ap, ◌∙◌}
use sentinelgate.Json.{Json}
use sentinelgate.Runtime.{Runtime}
use sentinelgate.FieldTaint.Escape.{HasNo}
use sentinelgate.Identity.{rstrip, padding, encode, decode_bytes}

-- What is relied on of the libraries: base64 decodes what it encoded, its padding is what the length calls for, its
-- alphabet has no dot, and `int` reads back a printed number.
pub record CodecLaws (runtime : Runtime) : Type 0 where
  pub b64decode-urlsafe_b64encode :
      (s : String) → runtime.b64decode (runtime.urlsafe_b64encode s) ≡ some s
  pub rstrip-padding :
      (s : String)
      → (let stripped : String = rstrip "=" (runtime.urlsafe_b64encode s) in
          cat stripped (padding stripped) ≡ runtime.urlsafe_b64encode s)
  pub rstrip-HasNo : (s : String) → HasNo "." (rstrip "=" (runtime.urlsafe_b64encode s))
  pub parse_int-decimal : (n : ℕ) → runtime.parse_int (runtime.decimal n) ≡ some n

decode_bytes-found :
    (runtime : Runtime) (value decoded : String)
    → runtime.b64decode (cat value (padding value)) ≡ some decoded
    → encode runtime decoded ≡ value
    → decode_bytes runtime value ≡ some decoded
unfolding decode_bytes
decode_bytes-found runtime value decoded h k =
    rw (h, decode_bytes) (rw (k, decode_bytes) (rw (eq_self value) refl))

-- `json.loads` reads back what `json.dumps` prints of this value.
unfoldable pub ReadsBack : Runtime → Json → Type 0
ReadsBack runtime v = runtime.loads (runtime.dumps_compact v) ≡ some v

pub decode_bytes-encode :
    (runtime : Runtime) (s : String)
    → CodecLaws runtime
    → decode_bytes runtime (encode runtime s) ≡ some s
unfolding encode
decode_bytes-encode runtime s laws =
    decode_bytes-found runtime (encode runtime s) s
      (ap runtime.b64decode (laws.rstrip-padding s) ∙ laws.b64decode-urlsafe_b64encode s) refl

pub encode-HasNo :
    (runtime : Runtime) (s : String) → CodecLaws runtime → HasNo "." (encode runtime s)
unfolding encode
encode-HasNo runtime s laws = laws.rstrip-HasNo s
