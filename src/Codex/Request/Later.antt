-- ===== src/Codex/Request/Later.antt =====
-- internal/provider/openai/codex_request.go: which fields the stages after the aliases write.
use one_llm_router.Prelude.{
  String, ◌≡◌, refl, ◌∙◌, true, false, Option, none, some, List, [], ◌∷◌, contains, if_intro,
  str_eq,
}
use one_llm_router.Prelude.Result.{Yields, >>=-Yields, Yields-eq}
use one_llm_router.Json.{Json, Items, Fields, text, array, nil, cons, put, at}
use one_llm_router.Json.Laws.{get-put_other, get-delete_other}
use one_llm_router.Codex.Aliases.{normalize_codex_openai_compatible_aliases}
use one_llm_router.Codex.Checks.{
  validate_codex_include, validate_codex_responses_object_fields,
  validate_codex_responses_scalar_fields, validate_codex_conversation, validate_codex_truncation,
  normalize_codex_previous_response_id,
}
use one_llm_router.Codex.Tools.{normalize_codex_tools}
use one_llm_router.Codex.Items.{
  Encoding, normalize_codex_input, input_of, sanitize_codex_input_items, input_text_message,
  codex_input_has_file_id,
}
use one_llm_router.Codex.Messages.{input_missing_or_empty, coerce_messages}
use one_llm_router.Codex.Request.{
  Mode, openai_compat, codex_native, checked_fields, checked_tools, select_input, with_messages,
}
use one_llm_router.Codex.Request.Frame.{
  Keeps, normalize_codex_previous_response_id-Keeps, normalize_codex_tools-Keeps,
  normalize_codex_tool_choice-Keeps,
}
use one_llm_router.Codex.Request.Renamed.{apart}

-- The other fields that the steps after the aliases write.
abbrev pub written_fields : List String
written_fields =
    "previous_response_id" ∷ "instructions" ∷ "tools" ∷ "tool_choice" ∷ "input" ∷ "messages"
    ∷ "store" ∷ "stream" ∷ []

pub differs :
    (j : String)
    → contains written_fields j ≡ false
    → (k : String) → contains written_fields k ≡ true
    → str_eq k j ≡ false
differs j unwritten k within = apart written_fields k j unwritten within

pub checked_tools-Keeps :
    (j : String) (m : Fields)
    → str_eq "tools" j ≡ false
    → str_eq "tool_choice" j ≡ false
    → Yields (Keeps j m) (checked_tools m)
unfolding checked_tools
checked_tools-Keeps j m tools choice =
    >>=-Yields (Keeps j m) (validate_codex_include m) _ (λ fine included.
      >>=-Yields (Keeps j m) (normalize_codex_tools m) _ (λ renamed retyped.
        normalize_codex_tool_choice-Keeps j renamed choice
        ∙ Yields-eq (Keeps j m) (normalize_codex_tools m) renamed
            (normalize_codex_tools-Keeps j m tools) retyped))

pub checked_fields-Keeps :
    (j : String) (m : Fields)
    → str_eq "previous_response_id" j ≡ false
    → Yields (Keeps j (normalize_codex_openai_compatible_aliases m)) (checked_fields m)
unfolding checked_fields
checked_fields-Keeps j m previous =
    let renamed = normalize_codex_openai_compatible_aliases m in
    let traced = normalize_codex_previous_response_id renamed in
    >>=-Yields (Keeps j renamed) (validate_codex_responses_object_fields m) _ (λ a shaped.
      >>=-Yields (Keeps j renamed) (validate_codex_responses_scalar_fields renamed) _ (λ b plain.
        >>=-Yields (Keeps j renamed) (validate_codex_conversation traced) _ (λ c one.
          >>=-Yields (Keeps j renamed) (validate_codex_truncation traced) _
            (λ d whole. normalize_codex_previous_response_id-Keeps j renamed previous))))

module _ (j : String) (input : str_eq "input" j ≡ false) where
  with_messages-Keeps :
      (m : Fields) (said : String × Items)
      → str_eq "instructions" j ≡ false
      → str_eq "messages" j ≡ false
      → Keeps j m (with_messages m said).1
  with_messages-Keeps m (words, items) instructions messages =
      let written = put m "instructions" (text words) in
      get-delete_other (put written "input" (array items)) "messages" j messages
      ∙ (get-put_other written "input" (array items) j input
          ∙ get-put_other m "instructions" (text words) j instructions)

  module _ (std : Encoding) where
    pub select_input-Keeps :
        (request : String) (mode : Mode) (given : String) (messages : Option Items) (m : Fields)
        → str_eq "instructions" j ≡ false
        → str_eq "messages" j ≡ false
        → Yields (λ chosen. Keeps j m chosen.1) (select_input std request mode given messages m)
    unfolding select_input
    select_input-Keeps request openai_compat given (some messages) m p q =
        if_intro (Yields (λ chosen. Keeps j m chosen.1)) (input_missing_or_empty (at m "input"))
          (λ missing. with_messages-Keeps m (coerce_messages std given messages) p q) (λ both. tt)
    select_input-Keeps request openai_compat given none m p q =
        if_intro (Yields (λ chosen. Keeps j m chosen.1)) (input_missing_or_empty (at m "input"))
          (λ missing. tt) (λ there. refl)
    select_input-Keeps request codex_native given messages m p q =
        if_intro (Yields (λ chosen. Keeps j m chosen.1)) (input_missing_or_empty (at m "input"))
          (λ missing. tt) (λ there. refl)

    input_of-Keeps : (m : Fields) (value : Json) → Yields (Keeps j m) (input_of std m value)
    input_of-Keeps m (text s) =
        get-put_other m "input" (array (cons (input_text_message s) nil)) j input
    input_of-Keeps m (array items) =
        if_intro (Yields (Keeps j m)) (codex_input_has_file_id items) (λ file. tt)
          (λ no_file.
            >>=-Yields (Keeps j m) (sanitize_codex_input_items std items) _
              (λ out done. get-put_other m "input" (array out) j input))
    input_of-Keeps m _ = tt

    pub normalize_codex_input-Keeps :
        (m : Fields) → Yields (Keeps j m) (normalize_codex_input std m)
    unfolding normalize_codex_input
    normalize_codex_input-Keeps m = input_of-Keeps m (at m "input")
