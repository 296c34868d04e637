-- ===== src/Codex/Request/Equipped.antt =====
-- internal/provider/openai/codex_request.go: the tools of a request that is sent, and what it asks.
use one_llm_router.Prelude.{
  String, ◌≡◌, refl, sym, ◌∙◌, ap, subst, true, false, Option, none, some, is_some, if_intro,
}
use one_llm_router.Prelude.Result.{ok, Yields, >>=-Yields, Yields-eq}
use one_llm_router.Json.{Json, Items, Fields, null, bool, array, put, at, or_null, as_items}
use one_llm_router.Json.Laws.{get-put_other}
use one_llm_router.Codex.Checks.{validate_codex_include, codex_messages, messages_of}
use one_llm_router.Codex.Tools.{
  normalize_codex_tools, normalize_codex_tool_choice, canonicalize_codex_tools,
  strip_codex_unsupported_upstream_fields, codex_unsupported_upstream_fields, delete_all,
}
use one_llm_router.Codex.Tools.Allowed.{
  HasAllowedTools, kept_tools, normalize_codex_tools-allowed, canonicalize_codex_tools-allowed,
}
use one_llm_router.Codex.Items.{Encoding}
use one_llm_router.Codex.Messages.{input_missing_or_empty}
use one_llm_router.Codex.Request.{
  Mode, openai_compat, ResponsesRequest, checked_tools, select_input, upstream_payload,
  normalize_codex_responses_payload_map,
}
use one_llm_router.Codex.Request.Frame.{normalize_codex_tool_choice-Keeps}
use one_llm_router.Codex.Request.Renamed.{normalize_codex_openai_compatible_aliases-Keeps}
use one_llm_router.Codex.Request.Stages.{normalized-Stages}
use one_llm_router.Codex.Request.Upstream.{delete_all-Keeps, with_marks}
use one_llm_router.Codex.Request.Sent.{equipped-Keeps, selected-Keeps}

checked_tools-allowed : (m : Fields) → Yields HasAllowedTools (checked_tools m)
unfolding checked_tools
checked_tools-allowed m = >>=-Yields HasAllowedTools (validate_codex_include m) _ (λ fine included.
    >>=-Yields HasAllowedTools (normalize_codex_tools m) _ (λ renamed retyped.
      kept_tools renamed (normalize_codex_tool_choice renamed)
        (normalize_codex_tool_choice-Keeps "tools" renamed refl)
        (Yields-eq HasAllowedTools (normalize_codex_tools m) renamed
          (normalize_codex_tools-allowed m) retyped)))

upstream_payload-allowed : (m : Fields) → HasAllowedTools m → HasAllowedTools (upstream_payload m)
unfolding upstream_payload strip_codex_unsupported_upstream_fields
upstream_payload-allowed m h =
    let ordered = canonicalize_codex_tools (with_marks m) in
    kept_tools ordered (delete_all ordered codex_unsupported_upstream_fields)
      (delete_all-Keeps "tools" ordered codex_unsupported_upstream_fields refl)
      (canonicalize_codex_tools-allowed (with_marks m) (
        kept_tools m (with_marks m)
          (get-put_other (put m "store" (bool false)) "stream" (bool true) "tools" refl
            ∙ get-put_other m "store" (bool false) "tools" refl)
          h))

-- The messages that are read are those of the payload.
messages_read :
    (value : Json)
    → Yields (λ messages. is_some messages ≡ is_some (as_items value)) (messages_of value)
messages_read null = refl
messages_read (array items) = refl
messages_read _ = tt

-- A request of a client has one of messages and input, and not the other.
one_selected :
    (std : Encoding) (given : String) (messages : Option Items) (m : Fields)
    → Yields
        (λ chosen. input_missing_or_empty (at m "input") ≡ is_some messages)
        (select_input std "responses request" openai_compat given messages m)
unfolding select_input
one_selected std given (some messages) m =
    if_intro (Yields (λ chosen. input_missing_or_empty (at m "input") ≡ true))
      (input_missing_or_empty (at m "input")) (λ missing. missing) (λ both. tt)
one_selected std given none m =
    if_intro (Yields (λ chosen. input_missing_or_empty (at m "input") ≡ false))
      (input_missing_or_empty (at m "input")) (λ neither. tt) (λ there. there)

module _ (std : Encoding) (received : Fields) (req : ResponsesRequest) where
  -- The tools of a request that is normalised without an error, where it has any, are of no type
  -- that Codex does not support, nor of the one of the preview of the web search.
  pub normalized-HasAllowedTools :
      (mode : Mode)
      → normalize_codex_responses_payload_map std (some received) mode ≡ ok req
      → HasAllowedTools req.payload
  normalized-HasAllowedTools mode h =
      let s = normalized-Stages std received mode req h in
      subst (λ r. HasAllowedTools r.payload) (sym s.is_answer)
        (upstream_payload-allowed s.sanitized (
          kept_tools s.equipped s.sanitized (selected-Keeps "tools" std refl refl refl s) (
            Yields-eq HasAllowedTools (checked_tools s.instructed) s.equipped
              (checked_tools-allowed s.instructed) s.are_equipped)))

  -- A request of a compatible client that is normalised without an error has an input exactly if
  -- it has no messages.
  pub one_of_messages_and_input :
      normalize_codex_responses_payload_map std (some received) openai_compat ≡ ok req
      → input_missing_or_empty (at received "input") ≡ is_some (as_items (at received "messages"))
  unfolding codex_messages
  one_of_messages_and_input h =
      let s = normalized-Stages std received openai_compat req h in
      let input = ap or_null (
        equipped-Keeps "input" std refl refl refl refl s
        ∙ normalize_codex_openai_compatible_aliases-Keeps "input" received refl refl) in
      let messages = ap or_null (
        equipped-Keeps "messages" std refl refl refl refl s
        ∙ normalize_codex_openai_compatible_aliases-Keeps "messages" received refl refl) in
      ap input_missing_or_empty (sym input)
      ∙ (Yields-eq
            (λ chosen. input_missing_or_empty (at s.equipped "input") ≡ is_some s.conversation)
            (select_input std "responses request" openai_compat s.given s.conversation s.equipped)
            (s.instructions, s.selected) (one_selected std s.given s.conversation s.equipped)
            s.are_selected
          ∙ (Yields-eq (λ ms. is_some ms ≡ is_some (as_items (at s.equipped "messages")))
                (codex_messages s.equipped) s.conversation
                (messages_read (at s.equipped "messages")) s.have_messages
              ∙ ap (λ v. is_some (as_items v)) messages))
