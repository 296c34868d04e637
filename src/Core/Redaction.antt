-- ===== src/Core/Redaction.antt =====
-- internal/core/redaction.go: secrets are taken out of what is recorded. The patterns of secrets in
-- a text and the JSON codec are parameters.
use one_llm_router.Prelude.{
  String, ◌≡◌, refl, Bool, true, false, not, ◌||◌, Option, none, some, List, [], ◌∷◌, str_eq, any,
  if◌then◌else◌,
}
use one_llm_router.Prelude.Text.{trim_space}
use one_llm_router.Prelude.Fold.{equal_fold, lower_has_prefix, lower_contains, lower_equals}
use one_llm_router.Json.{
  Json, Items, Fields, done, entry, null, bool, number, text, array, object, nil, cons,
}
pub mod Hidden

abbrev pub redacted_value : Json
redacted_value = text "[redacted]"

-- ReplaceAllString of each pattern, with its replacement
pub record Patterns : Type 0 where
  pub quoted_json_key_value : String → String
  pub escaped_json_key_value : String → String
  pub bearer_token : String → String
  pub api_key : String → String
  pub jwt : String → String
  pub key_value : String → String

-- encoding/json; `none` is an error
pub record Codec : Type 0 where
  pub unmarshal : String → Option Json
  pub marshal : Json → Option String

-- IsSecretLikeKey
abbrev pub secret_words : List String
secret_words = "authorization" ∷ "api_key" ∷ "bearer" ∷ "secret" ∷ "password" ∷ "credential" ∷ []

abbrev pub token_keys : List String
token_keys =
    "token" ∷ "access_token" ∷ "accesstoken" ∷ "refresh_token" ∷ "refreshtoken" ∷ "id_token"
    ∷ "idtoken" ∷ []

unfoldable pub is_secret_like_key : String → Bool
is_secret_like_key key = any (lower_contains key) secret_words || any (lower_equals key) token_keys

-- RedactString
abbrev pub redact_string : Patterns → String → String
redact_string p value =
    p.key_value (
      p.jwt (p.api_key (p.bearer_token (p.escaped_json_key_value (p.quoted_json_key_value value)))))

-- IsTokenLikeString
unfoldable pub is_token_like_string : Patterns → String → Bool
is_token_like_string p value = not (str_eq (redact_string p value) value)

-- strings.HasPrefix(strings.ToLower(strings.TrimSpace(image)), "data:")
unfoldable pub is_data_url : String → Bool
is_data_url image = lower_has_prefix (trim_space image) "data:"

abbrev pub is_image_key : String → Bool
is_image_key key = equal_fold key "image_url"

-- RedactJSONValue and redactImageURL, with their loops over arrays and objects
unfoldable mutual
  pub redact_json_value : Patterns → Json → Json
  redact_json_value p null = null
  redact_json_value p (bool b) = bool b
  redact_json_value p (number n) = number n
  redact_json_value p (text s) = text (redact_string p s)
  redact_json_value p (array xs) = array (redact_items p xs)
  redact_json_value p (object m) = object (redact_fields p m)

  pub redact_items : Patterns → Items → Items
  redact_items p nil = nil
  redact_items p (cons x xs) = cons (redact_json_value p x) (redact_items p xs)

  pub redact_fields : Patterns → Fields → Fields
  redact_fields p done = done
  redact_fields p (entry key item m) =
      let image = redact_image_url p item in
      let value = redact_json_value p item in
      let rest = redact_fields p m in
      if is_secret_like_key key
      then entry key redacted_value rest
      else if is_image_key key
      then entry key image rest
      else entry key value rest

  pub redact_image_url : Patterns → Json → Json
  redact_image_url p null = null
  redact_image_url p (bool b) = bool b
  redact_image_url p (number n) = number n
  redact_image_url p (text image) =
      if is_data_url image then redacted_value else text (redact_string p image)
  redact_image_url p (array xs) = array (redact_items p xs)
  redact_image_url p (object m) = object (redact_image_fields p m)

  pub redact_image_fields : Patterns → Fields → Fields
  redact_image_fields p done = done
  redact_image_fields p (entry key item m) =
      let url = redact_image_url p item in
      let value = redact_json_value p item in
      let rest = redact_image_fields p m in
      if equal_fold key "url" then entry key url rest else entry key value rest

-- RedactJSONMap
abbrev pub redact_json_map : Patterns → Option Fields → Option Fields
redact_json_map p none = none
redact_json_map p (some src) = some (redact_fields p src)

-- RedactCapturedBody
abbrev encoded_or : String → Option String → String
encoded_or scrubbed (some encoded) = encoded
encoded_or scrubbed none = scrubbed

abbrev captured : Patterns → Codec → String → Option Json → String
captured p codec body none = redact_string p body
captured p codec body (some value) =
    encoded_or (redact_string p body) (codec.marshal (redact_json_value p value))

unfoldable pub redact_captured_body : Patterns → Codec → String → String
redact_captured_body p codec body =
    if str_eq body "" then "" else captured p codec body (codec.unmarshal body)
