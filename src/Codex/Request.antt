-- ===== src/Codex/Request.antt =====
-- internal/provider/openai/codex_request.go: the whole of the normalisation.
use Prim.Native.String
use one_llm_router.Prelude.{
  String, ◌≡◌, refl, Bool, true, false, not, Option, none, some, List, [], ◌∷◌, if◌then◌else◌,
}
use one_llm_router.Prelude.Result.{Result, ok, err, ◌>>=◌, ◌>>◌, map_err}
use one_llm_router.Json.{
  Json, Items, Fields, null, bool, text, array, object, nil, cons, put, delete, at, as_items,
  as_object, text_or_empty,
}
use one_llm_router.Codex.Aliases.{normalize_codex_openai_compatible_aliases}
use one_llm_router.Codex.Checks.{
  Checked, fine, validate_codex_responses_object_fields, validate_codex_responses_scalar_fields,
  validate_codex_optional_object, validate_codex_optional_string,
  normalize_codex_previous_response_id, validate_codex_conversation, validate_codex_truncation,
  required_codex_string, codex_instructions, optional_codex_bool, is_set, validate_codex_include,
  codex_messages,
}
use one_llm_router.Codex.Tools.{
  normalize_codex_tools, normalize_codex_tool_choice, strip_codex_unsupported_upstream_fields,
}
use one_llm_router.Codex.Items.{Encoding, normalize_codex_input}
use one_llm_router.Codex.Messages.{input_missing_or_empty, coerce_messages}
pub mod Frame
pub mod Renamed
pub mod Later
pub mod Stages
pub mod Upstream
pub mod Sent
pub mod Equipped
pub mod Ordered
pub mod Typed
pub mod Compacted

-- codexResponsesRequestMode
pub data Mode : Type 0 where
  openai_compat codex_native : Mode

-- codexResponsesRequest; a nil slice, map or pointer is `none`
pub record ResponsesRequest : Type 0 where
  pub model : String
  pub messages : Option Items
  pub input : Json
  pub instructions : String
  pub tools : Option Items
  pub tool_choice : Json
  pub parallel_tool_calls : Option Bool
  pub reasoning : Option Fields
  pub store : Bool
  pub stream_requested : Bool
  pub included : List String
  pub service_tier : String
  pub conversation : String
  pub previous_response_id : String
  pub truncation : String
  pub prompt_cache_key : String
  pub words : Option Fields
  pub payload : Fields

-- codexResponsesCompactRequest
pub record CompactRequest : Type 0 where
  pub model : String
  pub messages : Option Items
  pub input : Json
  pub instructions : String
  pub reasoning : Option Fields
  pub store : Bool
  pub service_tier : String
  pub prompt_cache_key : String
  pub payload : Fields

-- codexBoolPointer
abbrev pub codex_bool_pointer : Json → Option Bool
codex_bool_pointer (bool b) = some b
codex_bool_pointer _ = none

-- codexStringSlice
abbrev item_texts : Items → List String
item_texts nil = []
item_texts (cons (text s) rest) = s ∷ item_texts rest
item_texts (cons _ rest) = item_texts rest

abbrev pub codex_string_slice : Json → List String
codex_string_slice (array items) = item_texts items
codex_string_slice _ = []

-- if store != nil && *store { return … }
abbrev pub refuse_store : String → Option Bool → Checked (Unit {0})
refuse_store message flag = if is_set flag then err message else fine

-- the payload after the checks that come before the model is read
unfoldable pub checked_fields : Fields → Checked Fields
checked_fields payload =
    let renamed = normalize_codex_openai_compatible_aliases payload in
    let traced = normalize_codex_previous_response_id renamed in
    do
      validate_codex_responses_object_fields payload
      validate_codex_responses_scalar_fields renamed
      validate_codex_conversation traced
      validate_codex_truncation traced
      ok traced

-- the same for a compaction
unfoldable pub checked_compact_fields : Fields → Checked Fields
checked_compact_fields payload =
    let renamed = normalize_codex_openai_compatible_aliases payload in
    do
      validate_codex_optional_object payload "reasoning"
          "compact request reasoning must be an object"
      validate_codex_optional_string renamed "service_tier"
          "compact request service_tier must be a string"
      validate_codex_optional_string renamed "prompt_cache_key"
          "compact request prompt_cache_key must be a string"
      ok renamed

-- the tools and the choice of one
unfoldable pub checked_tools : Fields → Checked Fields
checked_tools payload =
    validate_codex_include payload
    >> do renamed ← normalize_codex_tools payload; ok (normalize_codex_tool_choice renamed)

-- the payload of a compatible request that has messages
abbrev pub with_messages : Fields → String × Items → String × Fields
with_messages payload (instructions, input) =
    let written = put payload "instructions" (text instructions) in
    (instructions, delete (put written "input" (array input)) "messages")

-- payload["store"] = false, payload["stream"] = true
unfoldable pub upstream_payload : Fields → Fields
upstream_payload payload =
    strip_codex_unsupported_upstream_fields
      (put (put payload "store" (bool false)) "stream" (bool true))

abbrev pub responses_request :
    String → Option Items → String → Option Bool → Fields → ResponsesRequest
responses_request model messages instructions stream payload = record {
  model = model;
  messages = messages;
  input = at payload "input";
  instructions = instructions;
  tools = as_items (at payload "tools");
  tool_choice = at payload "tool_choice";
  parallel_tool_calls = codex_bool_pointer (at payload "parallel_tool_calls");
  reasoning = as_object (at payload "reasoning");
  store = false;
  stream_requested = is_set stream;
  included = codex_string_slice (at payload "include");
  service_tier = text_or_empty (at payload "service_tier");
  conversation = text_or_empty (at payload "conversation");
  previous_response_id = text_or_empty (at payload "previous_response_id");
  truncation = text_or_empty (at payload "truncation");
  prompt_cache_key = text_or_empty (at payload "prompt_cache_key");
  words = as_object (at payload "text");
  payload = payload;
}

abbrev pub compact_request : String → Option Items → String → Fields → CompactRequest
compact_request model messages instructions payload = record {
  model = model;
  messages = messages;
  input = at payload "input";
  instructions = instructions;
  reasoning = as_object (at payload "reasoning");
  store = false;
  service_tier = text_or_empty (at payload "service_tier");
  prompt_cache_key = text_or_empty (at payload "prompt_cache_key");
  payload = payload;
}

module _ (std : Encoding) where
  -- Which of messages and input the request is about; the requests for a response and for a
  -- compaction differ in the first words of their errors.
  unfoldable pub select_input :
      String → Mode → String → Option Items → Fields → Checked (String × Fields)
  select_input request openai_compat instructions (some messages) payload =
      if input_missing_or_empty (at payload "input")
      then ok (with_messages payload (coerce_messages std instructions messages))
      else err (String.◌++◌ request " must provide either messages or input, not both")
  select_input request openai_compat instructions none payload =
      if input_missing_or_empty (at payload "input")
      then err (String.◌++◌ request " input or messages is required")
      else ok (instructions, payload)
  select_input request codex_native instructions messages payload =
      if input_missing_or_empty (at payload "input")
      then err (String.◌++◌ request " input is required")
      else ok (instructions, payload)

  -- normalizeCodexResponsesPayloadMap
  unfoldable pub normalize_codex_responses_payload_map :
      Option Fields → Mode → Checked ResponsesRequest
  normalize_codex_responses_payload_map none mode = err "responses request body must be an object"
  normalize_codex_responses_payload_map (some received) mode = do
    payload ← checked_fields received
    model ← required_codex_string payload "model" "responses request model is required"
    (given, instructed) ← codex_instructions payload
    stream ← optional_codex_bool instructed "stream"
    store ← optional_codex_bool instructed "store"
    refuse_store "responses request store must be false" store
    equipped ← checked_tools instructed
    messages ← codex_messages equipped
    (instructions, selected) ← select_input "responses request" mode given messages equipped
    sanitized ← normalize_codex_input std selected
    ok (responses_request model messages instructions stream (upstream_payload sanitized))

  -- decodeCodexResponsesRequest
  unfoldable pub decode_codex_responses_request : String → Mode → Checked ResponsesRequest
  decode_codex_responses_request body mode = do
    payload ← map_err (String.◌++◌ "decode codex upstream request body: ") (std.unmarshal body)
    normalize_codex_responses_payload_map payload mode

  -- normalizeCodexResponsesBody
  unfoldable pub normalize_codex_responses_body : String → Checked (String × Bool)
  normalize_codex_responses_body body = do
    req ← decode_codex_responses_request body openai_compat
    encoded ←
        map_err (String.◌++◌ "encode codex upstream request body: ")
          (std.marshal (object req.payload))
    ok (encoded, not req.stream_requested)

  -- normalizeNativeCodexResponsesBody
  unfoldable pub normalize_native_codex_responses_body : String → Checked String
  normalize_native_codex_responses_body body = do
    req ← decode_codex_responses_request body codex_native
    map_err (String.◌++◌ "encode native codex upstream request body: ")
        (std.marshal (object req.payload))

  -- marshalNativeCodexResponsesPayload
  unfoldable pub marshal_native_codex_responses_payload : Option Fields → Checked String
  marshal_native_codex_responses_payload payload = do
    req ← normalize_codex_responses_payload_map payload codex_native
    map_err (String.◌++◌ "encode responses request: ") (std.marshal (object req.payload))

  -- decodeCodexResponsesCompactRequest, of what is decoded
  unfoldable pub normalize_compact : Option Fields → Mode → Checked CompactRequest
  normalize_compact none mode = err "compact request body must be an object"
  normalize_compact (some received) mode = do
    payload ← checked_compact_fields received
    model ← required_codex_string payload "model" "compact request model is required"
    (given, instructed) ← codex_instructions payload
    store ← optional_codex_bool instructed "store"
    refuse_store "compact request store must be false" store
    messages ← codex_messages instructed
    (instructions, selected) ← select_input "compact request" mode given messages instructed
    sanitized ← normalize_codex_input std selected
    let upstream = delete (strip_codex_unsupported_upstream_fields sanitized) "store"
    ok (compact_request model messages instructions upstream)

  -- decodeCodexResponsesCompactRequest
  unfoldable pub decode_codex_responses_compact_request : String → Mode → Checked CompactRequest
  decode_codex_responses_compact_request body mode = do
    payload ← map_err (String.◌++◌ "decode compact upstream request body: ") (std.unmarshal body)
    normalize_compact payload mode

  -- normalizeCodexResponsesCompactBody and normalizeNativeCodexResponsesCompactBody
  unfoldable pub normalize_codex_responses_compact_body : String → Checked String
  normalize_codex_responses_compact_body body = do
    req ← decode_codex_responses_compact_request body openai_compat
    map_err (String.◌++◌ "encode compact upstream request body: ")
        (std.marshal (object req.payload))

  unfoldable pub normalize_native_codex_responses_compact_body : String → Checked String
  normalize_native_codex_responses_compact_body body = do
    req ← decode_codex_responses_compact_request body codex_native
    map_err (String.◌++◌ "encode native compact upstream request body: ")
        (std.marshal (object req.payload))
