-- ===== src/Witnesses/Redacting.antt =====
-- The theorems on redaction at a concrete value.
use one_llm_router.Prelude.{◌≡◌, true, str_eq, if◌then◌else◌}
use one_llm_router.Json.{Fields, done, entry, number, text, array, object, nil, cons}
use one_llm_router.Core.Redaction.{Patterns, redact_json_value}
use one_llm_router.Core.Redaction.Hidden.{is_hidden, redact_json_value-hidden}

-- Patterns that find nothing but one key
abbrev patterns : Patterns
patterns = record {
  quoted_json_key_value = λ s. s;
  escaped_json_key_value = λ s. s;
  bearer_token = λ s. s;
  api_key = λ s. if str_eq s "sk-12345678" then "[redacted]" else s;
  jwt = λ s. s;
  key_value = λ s. s;
}

abbrev recorded : Fields
recorded = entry "headers" (object (entry "Authorization" (text "Bearer 12345678") done)) (
    entry "image_url" (text "data:image/png;base64,AAAA")
      (entry "items" (array (cons (text "sk-12345678") (cons (number 3) nil))) done))

redact_json_value-hidden_example : is_hidden (redact_json_value patterns (object recorded)) ≡ true
redact_json_value-hidden_example = redact_json_value-hidden patterns (object recorded)
