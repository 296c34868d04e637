-- ===== src/Codex/Request/Stages.antt =====
-- internal/provider/openai/codex_request.go: the stages of a normalisation that succeeds.
use one_llm_router.Prelude.{String, ◌≡◌, sym, Bool, Option, some}
use one_llm_router.Prelude.Result.{ok, >>=-eq-ok, ok-eq}
use one_llm_router.Json.{Items, Fields}
use one_llm_router.Codex.Checks.{
  required_codex_string, codex_instructions, optional_codex_bool, codex_messages,
}
use one_llm_router.Codex.Items.{Encoding, normalize_codex_input}
use one_llm_router.Codex.Request.{
  Mode, ResponsesRequest, checked_fields, checked_tools, refuse_store, select_input,
  upstream_payload, responses_request, normalize_codex_responses_payload_map,
}

module _ (std : Encoding) where
  -- What the request was between the steps.
  pub record Stages (received : Fields) (mode : Mode) (req : ResponsesRequest) : Type 0 where
    pub checked : Fields
    pub name : String
    pub given : String
    pub instructed : Fields
    pub equipped : Fields
    pub conversation : Option Items
    pub instructions : String
    pub selected : Fields
    pub sanitized : Fields
    pub streaming : Option Bool
    pub are_checked : checked_fields received ≡ ok checked
    pub has_model :
        required_codex_string checked "model" "responses request model is required" ≡ ok name
    pub are_instructed : codex_instructions checked ≡ ok (given, instructed)
    pub is_streaming : optional_codex_bool instructed "stream" ≡ ok streaming
    pub are_equipped : checked_tools instructed ≡ ok equipped
    pub have_messages : codex_messages equipped ≡ ok conversation
    pub are_selected :
        select_input std "responses request" mode given conversation equipped
        ≡ ok (instructions, selected)
    pub are_sanitized : normalize_codex_input std selected ≡ ok sanitized
    pub is_answer :
        req
        ≡ responses_request name conversation instructions streaming (upstream_payload sanitized)

  pub normalized-Stages :
      (received : Fields) (mode : Mode) (req : ResponsesRequest)
      → normalize_codex_responses_payload_map std (some received) mode ≡ ok req
      → Stages received mode req
  unfolding normalize_codex_responses_payload_map
  normalized-Stages received mode req h =
      let (checked, are_checked, h1) = >>=-eq-ok (checked_fields received) _ h in
      let (name, has_model, h2) =
        >>=-eq-ok (required_codex_string checked "model" "responses request model is required") _
          h1 in
      let ((given, instructed), are_instructed, h3) = >>=-eq-ok (codex_instructions checked) _ h2 in
      let (streaming, is_streaming, h4) =
        >>=-eq-ok (optional_codex_bool instructed "stream") _ h3 in
      let (store, has_store, h5) = >>=-eq-ok (optional_codex_bool instructed "store") _ h4 in
      let (nothing, not_stored, h6) =
        >>=-eq-ok (refuse_store "responses request store must be false" store) _ h5 in
      let (equipped, are_equipped, h7) = >>=-eq-ok (checked_tools instructed) _ h6 in
      let (conversation, have_messages, h8) = >>=-eq-ok (codex_messages equipped) _ h7 in
      let ((instructions, selected), are_selected, h9) =
        >>=-eq-ok (select_input std "responses request" mode given conversation equipped) _ h8 in
      let (sanitized, are_sanitized, h10) = >>=-eq-ok (normalize_codex_input std selected) _ h9 in
      record {
        checked = checked;
        name = name;
        given = given;
        instructed = instructed;
        equipped = equipped;
        conversation = conversation;
        instructions = instructions;
        selected = selected;
        sanitized = sanitized;
        streaming = streaming;
        are_checked = are_checked;
        has_model = has_model;
        are_instructed = are_instructed;
        is_streaming = is_streaming;
        are_equipped = are_equipped;
        have_messages = have_messages;
        are_selected = are_selected;
        are_sanitized = are_sanitized;
        is_answer =
            sym
              {a = responses_request name conversation instructions streaming
                (upstream_payload sanitized)}
              (ok-eq h10);
      }
