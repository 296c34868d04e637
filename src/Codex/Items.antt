-- ===== src/Codex/Items.antt =====
-- internal/provider/openai/codex_request.go: the items of the input.
use Prim.Native.String
use one_llm_router.Prelude.{
  String, ◌≡◌, refl, Bool, true, false, Option, none, some, List, [], ◌∷◌, ◌||◌, not, str_eq,
  contains, trim_space, if◌then◌else◌,
}
use one_llm_router.Prelude.Result.{Result, ok, err, ◌>>=◌, map_err}
use one_llm_router.Json.{
  Json, Items, Fields, done, entry, null, bool, number, text, array, object, nil, cons, get, put,
  at, or_null, text_or_empty,
}
use one_llm_router.Codex.Checks.{Checked}
use one_llm_router.Codex.Tools.{type_of}
pub mod Clean
pub mod Again

abbrev pub codex_interleaved_reasoning_keys : List String
codex_interleaved_reasoning_keys =
    "function_call" ∷ "reasoning_content" ∷ "reasoning_details" ∷ "tool_calls" ∷ []

abbrev pub codex_interleaved_reasoning_part_types : List String
codex_interleaved_reasoning_part_types =
    "reasoning" ∷ "reasoning_content" ∷ "reasoning_details" ∷ []

abbrev pub codex_assistant_text_part_types : List String
codex_assistant_text_part_types = "input_text" ∷ "output_text" ∷ "text" ∷ []

abbrev pub codex_tool_text_part_types : List String
codex_tool_text_part_types = "input_text" ∷ "output_text" ∷ "refusal" ∷ "text" ∷ []

abbrev pub is_reasoning_key : String → Bool
is_reasoning_key key = contains codex_interleaved_reasoning_keys key

abbrev pub is_reasoning_part : Fields → Bool
is_reasoning_part part = contains codex_interleaved_reasoning_part_types (type_of part)

-- sanitizeCodexContentPart; `none` is a part that is left out
unfoldable pub without_reasoning : Fields → Fields
without_reasoning done = done
without_reasoning (entry key value m) =
    let rest = without_reasoning m in if is_reasoning_key key then rest else entry key value rest

abbrev pub sanitize_codex_content_part : Json → Option Json
sanitize_codex_content_part (object m) =
    if is_reasoning_part m then none else some (object (without_reasoning m))
sanitize_codex_content_part part = some part

-- sanitizeCodexContent
abbrev pub kept_part : Option Json → Items → Items
kept_part none rest = rest
kept_part (some part) rest = cons part rest

unfoldable pub sanitize_parts : Items → Items
sanitize_parts nil = nil
sanitize_parts (cons part rest) = kept_part (sanitize_codex_content_part part) (sanitize_parts rest)

abbrev pub sanitize_codex_content : Json → Option Json
sanitize_codex_content (array parts) = some (array (sanitize_parts parts))
sanitize_codex_content content = sanitize_codex_content_part content

-- extractCodexTextContentPart
abbrev refusal_of : String → Json → Option String
refusal_of part_type (text refusal) = if str_eq part_type "refusal" then some refusal else none
refusal_of part_type _ = none

abbrev text_part : List String → String → Json → Option String → Option String
text_part allowed part_type (text s) refusal =
    if str_eq part_type "" || contains allowed part_type then some s else refusal
text_part allowed part_type _ refusal = refusal

unfoldable pub extract_from : List String → Fields → Option String
extract_from allowed part =
    text_part allowed (type_of part) (at part "text")
      (refusal_of (type_of part) (at part "refusal"))

abbrev pub extract_codex_text_content_part : Json → List String → Option String
extract_codex_text_content_part (object part) allowed = extract_from allowed part
extract_codex_text_content_part _ allowed = none

-- map[string]any{"type": kind, "text": s}
abbrev pub text_object : String → String → Json
text_object kind s = object (entry "type" (text kind) (entry "text" (text s) done))

-- normalizeCodexAssistantContentPart
abbrev pub output_text_or : Json → Option String → Json
output_text_or part (some s) = text_object "output_text" s
output_text_or part none = part

unfoldable pub normalize_codex_assistant_content_part : Json → Json
normalize_codex_assistant_content_part (text s) = text_object "output_text" s
normalize_codex_assistant_content_part part =
    output_text_or part (extract_codex_text_content_part part codex_assistant_text_part_types)

-- normalizeCodexAssistantContent
unfoldable pub assistant_parts : Items → Items
assistant_parts nil = nil
assistant_parts (cons part rest) =
    cons (normalize_codex_assistant_content_part part) (assistant_parts rest)

unfoldable pub normalize_codex_assistant_content : Json → Json
normalize_codex_assistant_content (text s) = array (cons (text_object "output_text" s) nil)
normalize_codex_assistant_content (array parts) = array (assistant_parts parts)
normalize_codex_assistant_content (object part) =
    array (cons (normalize_codex_assistant_content_part (object part)) nil)
normalize_codex_assistant_content content = content

-- normalizeCodexAssistantInputItem
abbrev pub with_content : Fields → Option Json → Fields
with_content value none = value
with_content value (some content) = put value "content" (normalize_codex_assistant_content content)

unfoldable pub normalize_codex_assistant_input_item : Fields → Fields
normalize_codex_assistant_input_item value = with_content value (get value "content")

-- firstNonEmptyCodexString, firstString
abbrev pub first_string : List Json → String
first_string [] = ""
first_string (value ∷ values) =
    let later = first_string values in
    let s = text_or_empty value in if str_eq s "" then later else s

abbrev pub call_id_of : Fields → String
call_id_of value =
    first_string (at value "tool_call_id" ∷ at value "toolCallId" ∷ at value "call_id" ∷ [])

-- map[string]any{"type": "function_call_output", …}
abbrev pub call_output : String → String → Json
call_output id output = object (
    entry "type" (text "function_call_output")
      (entry "call_id" (text id) (entry "output" (text output) done)))

-- strings.Join(parts, "")
abbrev pub concat : List String → String
concat [] = ""
concat (s ∷ rest) = String.◌++◌ s (concat rest)

-- the texts that a tool's output is joined of
abbrev with_text : Option String → List String → List String
with_text none rest = rest
with_text (some s) rest = s ∷ rest

unfoldable pub tool_texts : Items → List String
tool_texts nil = []
tool_texts (cons (text s) rest) = s ∷ tool_texts rest
tool_texts (cons part rest) =
    with_text (extract_codex_text_content_part part codex_tool_text_part_types) (tool_texts rest)

-- encoding/json and fmt: json.Unmarshal into a map[string]any, which is nil for a null,
-- json.Marshal, an Encoder that does not escape HTML, and fmt.Sprint of a number or a Boolean.
pub record Encoding : Type 0 where
  pub unmarshal : String → Checked (Option Fields)
  pub marshal : Json → Checked String
  pub encode : Json → Checked String
  pub sprint : Json → String

abbrev pub or_instead : Json → Json → Json
or_instead null other = other
or_instead value other = value

-- strings.TrimSuffix(s, "\n")
abbrev trim_newline : String → String
trim_newline String.[] = ""
trim_newline (String.◌∷◌ c s) =
    let rest = trim_newline s in if str_eq (String.◌∷◌ c s) "\n" then "" else String.◌∷◌ c rest

-- the copy of an item that sanitizeCodexInputItem makes
abbrev pub kept_content : String → Option Json → Fields → Fields
kept_content key none rest = rest
kept_content key (some content) rest = entry key content rest

unfoldable pub sanitize_fields : Fields → Fields
sanitize_fields done = done
sanitize_fields (entry key value m) =
    let rest = sanitize_fields m in
    if is_reasoning_key key
    then rest
    else if str_eq key "content"
    then kept_content key (sanitize_codex_content value) rest
    else entry key value rest

-- isCodexInputFileWithID
abbrev is_input_file : Json → Bool
is_input_file (text kind) = str_eq kind "input_file"
is_input_file _ = false

unfoldable pub is_codex_input_file_with_id : Json → Bool
is_codex_input_file_with_id (object m) =
    if is_input_file (at m "type") then not (str_eq (text_or_empty (at m "file_id")) "") else false
is_codex_input_file_with_id _ = false

-- codexInputHasFileID
abbrev any_file : Items → Bool
any_file nil = false
any_file (cons part rest) = is_codex_input_file_with_id part || any_file rest

abbrev parts_have_file : Json → Bool
parts_have_file (array parts) = any_file parts
parts_have_file part = is_codex_input_file_with_id part

abbrev pub item_has_file : Json → Bool
item_has_file (object m) =
    is_codex_input_file_with_id (object m) || parts_have_file (at m "content")
item_has_file _ = false

unfoldable pub codex_input_has_file_id : Items → Bool
codex_input_has_file_id nil = false
codex_input_has_file_id (cons item rest) = item_has_file item || codex_input_has_file_id rest

-- inputTextMessage
abbrev pub input_text_message : String → Json
input_text_message s = object (
    entry "role" (text "user")
      (entry "content" (array (cons (text_object "input_text" s) nil)) done))

module _ (std : Encoding) where
  -- marshalCodexCompactJSON
  abbrev pub marshal_codex_compact_json : Json → Checked String
  marshal_codex_compact_json value =
      map_err (String.◌++◌ "encode tool output: ") (std.encode value) >>= λ s. ok (trim_newline s)

  -- normalizeCodexToolOutputValue
  abbrev joined_or : Json → List String → Checked String
  joined_or content [] = marshal_codex_compact_json content
  joined_or content (s ∷ rest) = ok (concat (s ∷ rest))

  abbrev text_or_encoded : Json → Option String → Checked String
  text_or_encoded content none = marshal_codex_compact_json content
  text_or_encoded content (some s) = ok s

  unfoldable pub normalize_codex_tool_output_value : Json → Checked String
  normalize_codex_tool_output_value null = ok ""
  normalize_codex_tool_output_value (text s) = ok s
  normalize_codex_tool_output_value (array parts) = joined_or (array parts) (tool_texts parts)
  normalize_codex_tool_output_value (object part) =
      text_or_encoded (object part) (extract_from codex_tool_text_part_types part)
  normalize_codex_tool_output_value content = ok (std.sprint content)

  -- normalizeCodexToolInputItem
  unfoldable pub normalize_codex_tool_input_item : Fields → Checked Json
  normalize_codex_tool_input_item value =
      if str_eq (call_id_of value) ""
      then err "tool input items must include 'tool_call_id'"
      else normalize_codex_tool_output_value (or_instead (at value "output") (at value "content"))
        >>= λ output. ok (call_output (call_id_of value) output)

  -- normalizeCodexRoleInputItem
  abbrev pub role_item : Fields → String → Checked Json
  role_item value role =
      if str_eq role "assistant"
      then ok (object (normalize_codex_assistant_input_item value))
      else if str_eq role "tool"
      then normalize_codex_tool_input_item value
      else ok (object value)

  unfoldable pub normalize_codex_role_input_item : Fields → Checked Json
  normalize_codex_role_input_item value = role_item value (text_or_empty (at value "role"))

  -- sanitizeCodexInputItem
  abbrev pub sanitize_codex_input_item : Json → Checked Json
  sanitize_codex_input_item (object m) = normalize_codex_role_input_item (sanitize_fields m)
  sanitize_codex_input_item item = ok item

  -- sanitizeCodexInputItems
  unfoldable pub sanitize_codex_input_items : Items → Checked Items
  sanitize_codex_input_items nil = ok nil
  sanitize_codex_input_items (cons item rest) =
      let others = sanitize_codex_input_items rest in
      do sanitized ← sanitize_codex_input_item item; out ← others; ok (cons sanitized out)

  -- normalizeCodexInput
  abbrev pub input_of : Fields → Json → Checked Fields
  input_of payload (text s) = ok (put payload "input" (array (cons (input_text_message s) nil)))
  input_of payload (array items) =
      if codex_input_has_file_id items
      then err "input_file.file_id is not supported"
      else sanitize_codex_input_items items >>= λ sanitized.
          ok (put payload "input" (array sanitized))
  input_of payload _ = err "responses request input must be a string or array"

  unfoldable pub normalize_codex_input : Fields → Checked Fields
  normalize_codex_input payload = input_of payload (at payload "input")
