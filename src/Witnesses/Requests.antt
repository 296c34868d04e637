-- ===== src/Witnesses/Requests.antt =====
-- The theorems on requests to Codex at concrete ones.
use one_llm_router.Prelude.{String, ◌≡◌, refl, true, false, none, some, is_some}
use one_llm_router.Prelude.Text.{trim_space}
use one_llm_router.Prelude.Fold.{equal_fold}
use one_llm_router.Prelude.TextOrder.{text_before}
use one_llm_router.Prelude.Result.{ok}
use one_llm_router.Json.{
  Json, Items, Fields, done, entry, null, bool, number, text, array, object, nil, cons, get, put,
  delete, at, as_items,
}
use one_llm_router.Codex.Aliases.{
  normalize_codex_openai_compatible_aliases, move_codex_string_alias, move_two,
  move_codex_nested_string_alias, normalize_service_tier,
}
use one_llm_router.Codex.Checks.{
  validate_codex_responses_object_fields, validate_codex_responses_scalar_fields,
  normalize_codex_previous_response_id, validate_codex_conversation, validate_codex_truncation,
  required_codex_string, codex_instructions, optional_codex_bool, validate_codex_include,
  codex_messages,
}
use one_llm_router.Codex.Tools.{
  retyped, normalize_tools, normalize_codex_tools, normalize_codex_tool_choice,
  sort_codex_json_value, insert_tool, slice_stable, canonicalize_codex_tools, delete_all,
  strip_codex_unsupported_upstream_fields,
}
use one_llm_router.Codex.Tools.Order.{Reordered, swap}
use one_llm_router.Codex.Tools.Allowed.{HasAllowedTools}
use one_llm_router.Codex.Items.{
  Encoding, without_reasoning, sanitize_parts, extract_from, normalize_codex_assistant_content_part,
  assistant_parts, normalize_codex_assistant_content, normalize_codex_assistant_input_item,
  normalize_codex_role_input_item, sanitize_fields, sanitize_codex_input_items,
  is_codex_input_file_with_id, codex_input_has_file_id, normalize_codex_input, text_object,
}
use one_llm_router.Codex.Items.Again.{sanitized_again}
use one_llm_router.Codex.Messages.{input_missing_or_empty}
use one_llm_router.Codex.Request.{
  openai_compat, ResponsesRequest, checked_fields, checked_tools, select_input, upstream_payload,
  responses_request, normalize_codex_responses_payload_map,
}
use one_llm_router.Codex.Request.{
  CompactRequest, compact_request, checked_compact_fields, normalize_compact,
}
use one_llm_router.Codex.Request.Compacted.{IsCompact, normalized-IsCompact}
use one_llm_router.Codex.Request.Sent.{IsUpstream, normalized-IsUpstream, unknown_field_kept}
use one_llm_router.Codex.Request.Equipped.{normalized-HasAllowedTools, one_of_messages_and_input}
use one_llm_router.Codex.Request.Ordered.{canonical_order}
use one_llm_router.Codex.Request.Typed.{IsTyped, normalized-IsTyped}

abbrev std : Encoding
std = record {
  unmarshal = λ body. ok none;
  marshal = λ v. ok "{}";
  encode = λ v. ok "{}";
  sprint = λ v. "0";
}

abbrev tool : String → String → Json
tool kind name = object (entry "type" (text kind) (entry "name" (text name) done))

-- An assistant's item with a part that is reasoning, and the same sanitised.
abbrev spoken : Items
spoken =
    cons
      (object (
        entry "role" (text "assistant") (
          entry "reasoning_content" (text "hm") (
            entry "content"
              (array (cons (text_object "reasoning" "hm") (cons (text_object "text" "hi") nil)))
              done))))
      nil

abbrev sanitized : Items
sanitized =
    cons
      (object (
        entry "role" (text "assistant")
          (entry "content" (array (cons (text_object "output_text" "hi") nil)) done)))
      nil

abbrev received : Fields
received = entry "model" (text "gpt-5") (
    entry "promptCacheKey" (text "k") (
      entry "temperature" (number 1) (
        entry "metadata" (bool true) (
          entry "tools"
            (array (cons (tool "web_search_preview" "b") (cons (tool "function" "a") nil)))
            (entry "input" (array spoken) done)))))

abbrev payload_sent : Fields
payload_sent = entry "model" (text "gpt-5") (
    entry "metadata" (bool true) (
      entry "tools" (array (cons (tool "function" "a") (cons (tool "web_search" "b") nil))) (
        entry "input" (array sanitized) (
          entry "prompt_cache_key" (text "k") (
            entry "instructions" (text "")
              (entry "store" (bool false) (entry "stream" (bool true) done)))))))

abbrev sent : ResponsesRequest
sent = responses_request "gpt-5" none "" none payload_sent

normalized : normalize_codex_responses_payload_map std (some received) openai_compat ≡ ok sent
unfolding normalize_codex_responses_payload_map checked_fields checked_tools select_input
    upstream_payload validate_codex_responses_object_fields validate_codex_responses_scalar_fields
    normalize_codex_previous_response_id validate_codex_conversation validate_codex_truncation
    required_codex_string codex_instructions optional_codex_bool validate_codex_include
    codex_messages retyped normalize_tools normalize_codex_tools normalize_codex_tool_choice
    sort_codex_json_value insert_tool slice_stable canonicalize_codex_tools delete_all
    strip_codex_unsupported_upstream_fields normalize_codex_openai_compatible_aliases
    move_codex_string_alias move_two move_codex_nested_string_alias normalize_service_tier
    without_reasoning sanitize_parts extract_from normalize_codex_assistant_content_part
    assistant_parts normalize_codex_assistant_content normalize_codex_assistant_input_item
    normalize_codex_role_input_item sanitize_fields sanitize_codex_input_items
    is_codex_input_file_with_id codex_input_has_file_id normalize_codex_input get put delete
    trim_space equal_fold text_before
normalized = refl

normalized-IsUpstream_example : IsUpstream payload_sent
normalized-IsUpstream_example = normalized-IsUpstream std received openai_compat sent normalized

unknown_field_kept_example : get payload_sent "metadata" ≡ get received "metadata"
unknown_field_kept_example =
    unknown_field_kept std received openai_compat sent "metadata" refl normalized

normalized-HasAllowedTools_example : HasAllowedTools payload_sent
normalized-HasAllowedTools_example =
    normalized-HasAllowedTools std received sent openai_compat normalized

normalized-IsTyped_example : IsTyped sent
normalized-IsTyped_example = normalized-IsTyped std received openai_compat sent normalized

one_of_messages_and_input_example :
    input_missing_or_empty (at received "input") ≡ is_some (as_items (at received "messages"))
one_of_messages_and_input_example = one_of_messages_and_input std received sent normalized

-- The same request for a compaction
abbrev payload_compacted : Fields
payload_compacted = entry "model" (text "gpt-5") (
    entry "metadata" (bool true) (
      entry "tools" (array (cons (tool "function" "a") (cons (tool "web_search_preview" "b") nil)))
        (entry "input" (array sanitized)
          (entry "prompt_cache_key" (text "k") (entry "instructions" (text "") done)))))

abbrev compaction : CompactRequest
compaction = compact_request "gpt-5" none "" payload_compacted

normalized_compact : normalize_compact std (some received) openai_compat ≡ ok compaction
unfolding normalize_compact checked_compact_fields select_input required_codex_string
    codex_instructions optional_codex_bool codex_messages sort_codex_json_value insert_tool
    slice_stable canonicalize_codex_tools delete_all strip_codex_unsupported_upstream_fields
    normalize_codex_openai_compatible_aliases move_codex_string_alias move_two
    move_codex_nested_string_alias normalize_service_tier without_reasoning sanitize_parts
    extract_from normalize_codex_assistant_content_part assistant_parts
    normalize_codex_assistant_content normalize_codex_assistant_input_item
    normalize_codex_role_input_item sanitize_fields sanitize_codex_input_items
    is_codex_input_file_with_id codex_input_has_file_id normalize_codex_input get put delete
    trim_space equal_fold text_before
normalized_compact = refl

normalized-IsCompact_example : IsCompact payload_compacted
normalized-IsCompact_example =
    normalized-IsCompact std received openai_compat compaction normalized_compact

once : sanitize_codex_input_items std spoken ≡ ok sanitized
unfolding sanitize_codex_input_items without_reasoning sanitize_parts extract_from
    normalize_codex_assistant_content_part assistant_parts normalize_codex_assistant_content
    normalize_codex_assistant_input_item normalize_codex_role_input_item sanitize_fields get put
once = refl

sanitized_again_example : sanitize_codex_input_items std sanitized ≡ ok sanitized
sanitized_again_example = sanitized_again std spoken sanitized once

-- The same request with its tools the other way round
abbrev reordered : Fields
reordered =
    put received "tools"
      (array (cons (tool "function" "a") (cons (tool "web_search_preview" "b") nil)))

differ :
    Reordered
      (cons (tool "web_search_preview" "b") (cons (tool "function" "a") nil))
      (cons (tool "function" "a") (cons (tool "web_search_preview" "b") nil))
unfolding get
differ = swap (tool "web_search_preview" "b") (tool "function" "a") nil refl

reordered_tools :
    get reordered "tools"
    ≡ some (array (cons (tool "function" "a") (cons (tool "web_search_preview" "b") nil)))
unfolding get put
reordered_tools = refl

received_tools :
    get received "tools"
    ≡ some (array (cons (tool "web_search_preview" "b") (cons (tool "function" "a") nil)))
unfolding get
received_tools = refl

normalized_again :
    normalize_codex_responses_payload_map std (some reordered) openai_compat ≡ ok sent
unfolding normalize_codex_responses_payload_map checked_fields checked_tools select_input
    upstream_payload validate_codex_responses_object_fields validate_codex_responses_scalar_fields
    normalize_codex_previous_response_id validate_codex_conversation validate_codex_truncation
    required_codex_string codex_instructions optional_codex_bool validate_codex_include
    codex_messages retyped normalize_tools normalize_codex_tools normalize_codex_tool_choice
    sort_codex_json_value insert_tool slice_stable canonicalize_codex_tools delete_all
    strip_codex_unsupported_upstream_fields normalize_codex_openai_compatible_aliases
    move_codex_string_alias move_two move_codex_nested_string_alias normalize_service_tier
    without_reasoning sanitize_parts extract_from normalize_codex_assistant_content_part
    assistant_parts normalize_codex_assistant_content normalize_codex_assistant_input_item
    normalize_codex_role_input_item sanitize_fields sanitize_codex_input_items
    is_codex_input_file_with_id codex_input_has_file_id normalize_codex_input get put delete
    trim_space equal_fold text_before
normalized_again = refl

canonical_order_example : get payload_sent "tools" ≡ get payload_sent "tools"
canonical_order_example =
    canonical_order std received reordered openai_compat openai_compat sent sent
      (cons (tool "web_search_preview" "b") (cons (tool "function" "a") nil))
      (cons (tool "function" "a") (cons (tool "web_search_preview" "b") nil)) differ received_tools
      reordered_tools normalized normalized_again

sorted_run :
    slice_stable (cons (tool "t" "b") (cons (tool "t" "a") (cons null nil)))
    ≡ cons null (cons (tool "t" "a") (cons (tool "t" "b") nil))
unfolding slice_stable insert_tool get text_before
sorted_run = refl
