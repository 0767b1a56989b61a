-- ===== src/Runtime.antt =====
-- What src/sentinelgate takes from the Python runtime and its libraries as functions of their
-- arguments: text folding and shell patterns, JSON printing, digests, and the scanners' regular
-- expressions.
use Prim.Native.Char.{Char}
use sentinelgate.Prelude.{ℕ, String, Bool, Option, List}
use sentinelgate.Json.{Json}
use sentinelgate.Models.{FieldTaint}

pub record Runtime : Type 0 where
  -- `str.casefold`
  pub casefold : String → String
  -- `fnmatch.fnmatch(name, pattern)`
  pub fnmatch : String → String → Bool
  -- `str(value)` of a JSON value
  pub str : Json → String
  -- `json.dumps` with sorted keys and no blanks
  pub dumps : Json → String
  -- `hashlib.sha256(text.encode()).hexdigest()`
  pub sha256 : String → String
  -- `hmac.new(key, text.encode(), sha256).hexdigest()`, the key first
  pub hmac_sha256 : String → String → String
  -- `re.search` of the injection pattern with this code
  pub injection_search : String → String → Bool
  -- `datetime.isoformat` of a time
  pub isoformat : ℕ → String
  -- `str.upper`
  pub upper : String → String
  -- `str` of an integer
  pub decimal : ℕ → String
  -- `len(text.encode("utf-8"))`
  pub byte_length : String → ℕ
  -- `str.isdigit`
  pub isdigit : String → Bool
  -- `int` of a text; `none` is its `ValueError`
  pub parse_int : String → Option ℕ
  -- `SECRET_KEY_NAMES.search`
  pub secret_key_search : String → Bool
  -- the matched texts of `finditer` of the secret pattern with this code
  pub secret_matches : String → String → List String
  -- `sub("[REDACTED]", text)` of the secret pattern with this code
  pub secret_sub : String → String → String
  -- `json.dumps` with sorted keys, no blanks and the characters as they are
  pub dumps_unicode : Json → String
  -- `json.dumps` with no blanks and the keys as they stand
  pub dumps_compact : Json → String
  -- `json.loads`; `none` is its error, a text that is no UTF-8 included
  pub loads : String → Option Json
  -- `base64.urlsafe_b64encode`, the bytes as a text
  pub urlsafe_b64encode : String → String
  -- `base64.b64decode` with the same alphabet and `validate`; `none` is its error
  pub b64decode : String → Option String
  -- `hmac.new(key, data, sha256).digest()`, the key first
  pub hmac_digest : String → String → String
  -- a JSON number is zero
  pub is_zero : String → Bool
  -- `==` of two JSON values
  pub json_equal : Json → Json → Bool
  -- `str.replace`: the text, what is replaced, and by what
  pub replace : String → String → String → String
  -- `FieldTaint.model_validate`; `none` is its `ValueError` or `TypeError`
  pub validate_field_taint : Json → Option FieldTaint
  -- `SENSITIVE_SCHEMA_NAMES.search`
  pub schema_search : String → Bool
  -- `unicodedata.category`
  pub category : Char → String
  -- `part in text`, the part first
  pub is_substring : String → String → Bool
  -- `f"{cost:.6f}"` of a cost
  pub cost_text : ℕ → String
