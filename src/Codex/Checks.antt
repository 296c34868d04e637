-- ===== src/Codex/Checks.antt =====
-- internal/provider/openai/codex_request.go: what the fields of a request have to be. An error is
-- its text.
use Prim.Native.String
use one_llm_router.Prelude.{
  String, Bool, false, Option, none, some, List, [], ◌∷◌, ◌&&◌, not, trim_space, str_eq, contains,
  if◌then◌else◌,
}
use one_llm_router.Prelude.Result.{Result, ok, err, ◌>>◌}
use one_llm_router.Json.{
  Json, Items, Fields, null, bool, text, array, object, nil, cons, put, delete, at,
}

abbrev pub Checked : Type 0 → Type 0
Checked A = Result String A

abbrev pub fine : Checked (Unit {0})
fine = ok tt

-- validateCodexOptionalObject, of the value that or_null makes of a missing field
abbrev pub optional_object : String → Json → Checked (Unit {0})
optional_object message null = fine
optional_object message (object m) = fine
optional_object message _ = err message

abbrev pub validate_codex_optional_object : Fields → String → String → Checked (Unit {0})
validate_codex_optional_object payload field message = optional_object message (at payload field)

-- validateCodexOptionalString
abbrev pub optional_string : String → Json → Checked (Unit {0})
optional_string message null = fine
optional_string message (text s) = fine
optional_string message _ = err message

abbrev pub validate_codex_optional_string : Fields → String → String → Checked (Unit {0})
validate_codex_optional_string payload field message = optional_string message (at payload field)

-- validateCodexResponsesObjectFields
abbrev pub check_format : Json → Checked (Unit {0})
check_format (object words) =
    validate_codex_optional_object words "format" "responses request text.format must be an object"
check_format _ = fine

unfoldable pub validate_codex_responses_object_fields : Fields → Checked (Unit {0})
validate_codex_responses_object_fields payload =
    validate_codex_optional_object payload "reasoning"
      "responses request reasoning must be an object"
    >> validate_codex_optional_object payload "text" "responses request text must be an object"
    >> check_format (at payload "text")

-- validateCodexToolChoice
abbrev pub check_tool_choice : Json → Checked (Unit {0})
check_tool_choice null = fine
check_tool_choice (text s) = fine
check_tool_choice (object m) = fine
check_tool_choice _ = err "responses request tool_choice must be a string or object"

-- validateCodexResponsesScalarFields
unfoldable pub validate_codex_responses_scalar_fields : Fields → Checked (Unit {0})
validate_codex_responses_scalar_fields payload =
    validate_codex_optional_string payload "service_tier"
      "responses request service_tier must be a string"
    >> validate_codex_optional_string payload "conversation"
        "responses request conversation must be a string"
    >> validate_codex_optional_string payload "previous_response_id"
        "responses request previous_response_id must be a string"
    >> validate_codex_optional_string payload "prompt_cache_key"
        "responses request prompt_cache_key must be a string"
    >> check_tool_choice (at payload "tool_choice")

-- normalizeCodexPreviousResponseID
abbrev pub previous_of : Fields → Json → Fields
previous_of payload (text id) =
    let trimmed = trim_space id in
    if str_eq trimmed ""
    then delete payload "previous_response_id"
    else put payload "previous_response_id" (text trimmed)
previous_of payload _ = payload

unfoldable pub normalize_codex_previous_response_id : Fields → Fields
normalize_codex_previous_response_id payload =
    previous_of payload (at payload "previous_response_id")

-- nonEmptyCodexString, its second result
abbrev pub non_empty_codex_string : Json → Bool
non_empty_codex_string (text s) = not (str_eq (trim_space s) "")
non_empty_codex_string _ = false

-- validateCodexConversation
unfoldable pub validate_codex_conversation : Fields → Checked (Unit {0})
validate_codex_conversation payload =
    if non_empty_codex_string (at payload "conversation")
      && non_empty_codex_string (at payload "previous_response_id")
    then err "provide either conversation or previous_response_id, not both"
    else fine

-- validateCodexTruncation
abbrev pub check_truncation : Json → Checked (Unit {0})
check_truncation null = fine
check_truncation _ = err "truncation is not supported"

unfoldable pub validate_codex_truncation : Fields → Checked (Unit {0})
validate_codex_truncation payload = check_truncation (at payload "truncation")

-- requiredCodexString
abbrev pub required_string : String → Json → Checked String
required_string message (text s) = if str_eq (trim_space s) "" then err message else ok s
required_string message _ = err message

unfoldable pub required_codex_string : Fields → String → String → Checked String
required_codex_string payload field message = required_string message (at payload field)

-- codexInstructions, with the payload that it leaves
abbrev pub instructions_of : Fields → Json → Checked (String × Fields)
instructions_of payload null = ok ("", put payload "instructions" (text ""))
instructions_of payload (text s) = ok (s, payload)
instructions_of payload _ = err "responses request instructions must be a string"

unfoldable pub codex_instructions : Fields → Checked (String × Fields)
codex_instructions payload = instructions_of payload (at payload "instructions")

-- optionalCodexBool
abbrev pub optional_bool : String → Json → Checked (Option Bool)
optional_bool field null = ok none
optional_bool field (bool b) = ok (some b)
optional_bool field _ = err (String.◌++◌ field " must be boolean")

unfoldable pub optional_codex_bool : Fields → String → Checked (Option Bool)
optional_codex_bool payload field = optional_bool field (at payload field)

-- flag != nil && *flag
abbrev pub is_set : Option Bool → Bool
is_set (some b) = b
is_set none = false

-- validateCodexInclude
abbrev pub codex_responses_include_allowlist : List String
codex_responses_include_allowlist =
    "code_interpreter_call.outputs" ∷ "computer_call_output.output.image_url"
    ∷ "file_search_call.results" ∷ "message.input_image.image_url" ∷ "message.output_text.logprobs"
    ∷ "reasoning.encrypted_content" ∷ "web_search_call.action.sources" ∷ []

abbrev pub check_included : Items → Checked (Unit {0})
check_included nil = fine
check_included (cons (text s) rest) =
    let others = check_included rest in
    if contains codex_responses_include_allowlist s
    then others
    else err (String.◌++◌ "unsupported include value: " s)
check_included (cons _ rest) = err "responses request include entries must be strings"

abbrev pub check_include : Json → Checked (Unit {0})
check_include null = fine
check_include (array items) = check_included items
check_include _ = err "responses request include must be an array"

unfoldable pub validate_codex_include : Fields → Checked (Unit {0})
validate_codex_include payload = check_include (at payload "include")

-- codexMessages
abbrev pub messages_of : Json → Checked (Option Items)
messages_of null = ok none
messages_of (array items) = ok (some items)
messages_of _ = err "responses request messages must be an array"

unfoldable pub codex_messages : Fields → Checked (Option Items)
codex_messages payload = messages_of (at payload "messages")
