-- ===== src/Codex/Request/Typed.antt =====
-- internal/provider/openai/codex_request.go: the model and the instructions of a request.
use one_llm_router.Prelude.{
  String, ◌≡◌, ◌≢◌, refl, sym, ◌∙◌, ap, subst, Option, none, some, str_eq, eq_iff, if_intro,
  trim_space,
}
use one_llm_router.Prelude.Result.{ok, Yields, Yields-eq}
use one_llm_router.Json.{Json, Items, Fields, null, text, array, get, put, at, or_null}
use one_llm_router.Json.Laws.{get-put_same, get-put_other, get-delete_other}
use one_llm_router.Codex.Checks.{
  required_codex_string, required_string, codex_instructions, instructions_of,
}
use one_llm_router.Codex.Items.{Encoding, normalize_codex_input}
use one_llm_router.Codex.Messages.{input_missing_or_empty, coerce_messages}
use one_llm_router.Codex.Request.{
  Mode, openai_compat, codex_native, ResponsesRequest, checked_tools, select_input, with_messages,
  upstream_payload, responses_request, normalize_codex_responses_payload_map,
}
use one_llm_router.Codex.Request.Frame.{Keeps, codex_instructions-Keeps}
use one_llm_router.Codex.Request.Later.{checked_tools-Keeps, normalize_codex_input-Keeps}
use one_llm_router.Codex.Request.Stages.{Stages, normalized-Stages}
use one_llm_router.Codex.Request.Upstream.{upstream_payload-Keeps}
use one_llm_router.Codex.Request.Sent.{selected-Keeps}

-- A field that is a text and not blank.
IsNamed : Json → String → Type 0
IsNamed value name = (value ≡ text name) × (trim_space name ≢ "")

required-IsNamed :
    (message : String) (value : Json) → Yields (IsNamed value) (required_string message value)
unfolding IsNamed
required-IsNamed message (text s) =
    if_intro (Yields (IsNamed (text s))) (str_eq (trim_space s) "") (λ blank. tt)
      (λ named. (refl, λ e. cc (named, (eq_iff (trim_space s) "").1 e)))
required-IsNamed message _ = tt

-- The instructions stand in the payload.
HasInstructions : String × Fields → Type 0
HasInstructions (words, payload) = get payload "instructions" ≡ some (text words)

instructed :
    (m : Fields) (found : Option Json)
    → get m "instructions" ≡ found
    → Yields HasInstructions (instructions_of m (or_null found))
unfolding HasInstructions
instructed m none e = get-put_same m "instructions" (text "")
instructed m (some null) e = get-put_same m "instructions" (text "")
instructed m (some (text s)) e = e
instructed m (some _) e = tt

with_messages-HasInstructions :
    (m : Fields) (said : String × Items) → HasInstructions (with_messages m said)
unfolding HasInstructions
with_messages-HasInstructions m (words, items) =
    let written = put m "instructions" (text words) in
    get-delete_other (put written "input" (array items)) "messages" "instructions" refl
    ∙ (get-put_other written "input" (array items) "instructions" refl
        ∙ get-put_same m "instructions" (text words))

select_input-HasInstructions :
    (std : Encoding) (mode : Mode) (given : String) (messages : Option Items) (m : Fields)
    → HasInstructions (given, m)
    → Yields HasInstructions (select_input std "responses request" mode given messages m)
unfolding select_input
select_input-HasInstructions std openai_compat given (some messages) m h =
    if_intro (Yields HasInstructions) (input_missing_or_empty (at m "input"))
      (λ missing. with_messages-HasInstructions m (coerce_messages std given messages)) (λ both. tt)
select_input-HasInstructions std openai_compat given none m h =
    if_intro (Yields HasInstructions) (input_missing_or_empty (at m "input")) (λ missing. tt)
      (λ there. h)
select_input-HasInstructions std codex_native given messages m h =
    if_intro (Yields HasInstructions) (input_missing_or_empty (at m "input")) (λ missing. tt)
      (λ there. h)

-- What the struct says of the payload is what the payload says.
pub record IsTyped (req : ResponsesRequest) : Type 0 where
  pub has_model : get req.payload "model" ≡ some (text req.model)
  pub is_not_blank : trim_space req.model ≢ ""
  pub has_instructions : get req.payload "instructions" ≡ some (text req.instructions)

present : (found : Option Json) (s : String) → or_null found ≡ text s → found ≡ some (text s)
present none s e = cc
present (some v) s e = ap some e

module _ (std : Encoding) (received : Fields) (mode : Mode) (req : ResponsesRequest) where
  upstream_model :
      (s : Stages std received mode req)
      → get (upstream_payload s.sanitized) "model" ≡ get s.checked "model"
  upstream_model s =
      upstream_payload-Keeps "model" s.sanitized refl refl refl refl
      ∙ (selected-Keeps "model" std refl refl refl s
          ∙ (Yields-eq (Keeps "model" s.instructed) (checked_tools s.instructed) s.equipped
                (checked_tools-Keeps "model" s.instructed refl refl) s.are_equipped
              ∙ Yields-eq (λ read. Keeps "model" s.checked read.1) (codex_instructions s.checked)
                  (s.given, s.instructed) (codex_instructions-Keeps "model" s.checked refl)
                  s.are_instructed))

  upstream_instructions :
      (s : Stages std received mode req)
      → get (upstream_payload s.sanitized) "instructions" ≡ some (text s.instructions)
  unfolding HasInstructions codex_instructions
  upstream_instructions s =
      let given : get s.instructed "instructions" ≡ some (text s.given) =
        Yields-eq HasInstructions (codex_instructions s.checked) (s.given, s.instructed)
          (instructed s.checked (get s.checked "instructions") refl) s.are_instructed in
      let equipped : get s.equipped "instructions" ≡ some (text s.given) =
        Yields-eq (Keeps "instructions" s.instructed) (checked_tools s.instructed) s.equipped
          (checked_tools-Keeps "instructions" s.instructed refl refl) s.are_equipped
        ∙ given in
      let selected : get s.selected "instructions" ≡ some (text s.instructions) =
        Yields-eq HasInstructions
          (select_input std "responses request" mode s.given s.conversation s.equipped)
          (s.instructions, s.selected)
          (select_input-HasInstructions std mode s.given s.conversation s.equipped equipped)
          s.are_selected in
      upstream_payload-Keeps "instructions" s.sanitized refl refl refl refl
      ∙ (Yields-eq (Keeps "instructions" s.selected) (normalize_codex_input std s.selected)
            s.sanitized (normalize_codex_input-Keeps "instructions" refl std s.selected)
            s.are_sanitized
          ∙ selected)

  Stages-IsTyped :
      (s : Stages std received mode req)
      → get (upstream_payload s.sanitized) "model" ≡ some (text s.name)
      → trim_space s.name ≢ ""
      → IsTyped (
          responses_request s.name s.conversation s.instructions s.streaming
            (upstream_payload s.sanitized))
  Stages-IsTyped s model named = record {
    has_model = model;
    is_not_blank = named;
    has_instructions = upstream_instructions s;
  }

  -- A request that is normalised without an error names a model that is not blank, and its model
  -- and instructions are texts of the payload.
  pub normalized-IsTyped :
      normalize_codex_responses_payload_map std (some received) mode ≡ ok req → IsTyped req
  unfolding IsNamed required_codex_string
  normalized-IsTyped h =
      let s = normalized-Stages std received mode req h in
      let (model, named) =
        Yields-eq (IsNamed (at s.checked "model"))
          (required_codex_string s.checked "model" "responses request model is required") s.name
          (required-IsNamed "responses request model is required" (at s.checked "model"))
          s.has_model in
      subst IsTyped (sym s.is_answer)
        (Stages-IsTyped s (upstream_model s ∙ present (get s.checked "model") s.name model) named)
