-- ===== src/Codex/Request/Sent.antt =====
-- internal/provider/openai/codex_request.go: what holds of a request that is sent to Codex.
use one_llm_router.Prelude.{
  String, ◌≡◌, refl, sym, ◌∙◌, subst, Bool, true, false, not, ◌&&◌, none, some, contains,
  contains-In, str_eq, all-In, not_both, not-true, arith,
}
use one_llm_router.Prelude.Result.{ok, Yields-eq}
use one_llm_router.Json.{Fields, bool, get}
use one_llm_router.Codex.Aliases.{normalize_codex_openai_compatible_aliases}
use one_llm_router.Codex.Checks.{codex_instructions}
use one_llm_router.Codex.Tools.{codex_unsupported_upstream_fields}
use one_llm_router.Codex.Items.{Encoding, normalize_codex_input}
use one_llm_router.Codex.Request.{
  Mode, ResponsesRequest, checked_fields, checked_tools, select_input, upstream_payload,
  normalize_codex_responses_payload_map,
}
use one_llm_router.Codex.Request.Frame.{Keeps, codex_instructions-Keeps}
use one_llm_router.Codex.Request.Renamed.{
  aliases, alias_targets, alias-absent, normalize_codex_openai_compatible_aliases-Keeps,
}
use one_llm_router.Codex.Request.Later.{
  written_fields, differs, checked_fields-Keeps, checked_tools-Keeps, select_input-Keeps,
  normalize_codex_input-Keeps,
}
use one_llm_router.Codex.Request.Stages.{Stages, normalized-Stages}
use one_llm_router.Codex.Request.Upstream.{
  IsCleanInput, upstream_payload-Keeps, upstream_store, upstream_stream, upstream-absent,
  upstream-IsCleanInput, normalize_codex_input-IsCleanInput,
}

-- From the moving of the aliases to the checks of the tools, a field is left alone.
pub equipped-Keeps :
    (j : String) (std : Encoding) {received : Fields} {mode : Mode} {req : ResponsesRequest}
    → str_eq "previous_response_id" j ≡ false
    → str_eq "instructions" j ≡ false
    → str_eq "tools" j ≡ false
    → str_eq "tool_choice" j ≡ false
    → (s : Stages std received mode req)
    → Keeps j (normalize_codex_openai_compatible_aliases received) s.equipped
equipped-Keeps j std {received} previous instructions tools choice s =
    let renamed = normalize_codex_openai_compatible_aliases received in
    Yields-eq (Keeps j s.instructed) (checked_tools s.instructed) s.equipped
      (checked_tools-Keeps j s.instructed tools choice) s.are_equipped
    ∙ (Yields-eq (λ read. Keeps j s.checked read.1) (codex_instructions s.checked)
          (s.given, s.instructed) (codex_instructions-Keeps j s.checked instructions)
          s.are_instructed
        ∙ Yields-eq (Keeps j renamed) (checked_fields received) s.checked
            (checked_fields-Keeps j received previous) s.are_checked)

-- From the choice of the input to the end, a field is left alone.
pub selected-Keeps :
    (j : String) (std : Encoding) {received : Fields} {mode : Mode} {req : ResponsesRequest}
    → str_eq "input" j ≡ false
    → str_eq "instructions" j ≡ false
    → str_eq "messages" j ≡ false
    → (s : Stages std received mode req) → Keeps j s.equipped s.sanitized
selected-Keeps j std {received} {mode} input instructions messages s =
    Yields-eq (Keeps j s.selected) (normalize_codex_input std s.selected) s.sanitized
      (normalize_codex_input-Keeps j input std s.selected) s.are_sanitized
    ∙ Yields-eq (λ chosen. Keeps j s.equipped chosen.1)
        (select_input std "responses request" mode s.given s.conversation s.equipped)
        (s.instructions, s.selected)
        (select_input-Keeps j input std "responses request" mode s.given s.conversation s.equipped
          instructions messages)
        s.are_selected

module _ (j : String) (unwritten : contains written_fields j ≡ false) where
  -- From the moving of the aliases to the end, a field is left alone.
  Stages-Keeps :
      (std : Encoding) {received : Fields} {mode : Mode} {req : ResponsesRequest}
      → contains codex_unsupported_upstream_fields j ≡ false
      → (s : Stages std received mode req)
      → Keeps j (normalize_codex_openai_compatible_aliases received) (upstream_payload s.sanitized)
  Stages-Keeps std supported s =
      upstream_payload-Keeps j s.sanitized supported (differs j unwritten "tools" refl)
        (differs j unwritten "store" refl) (differs j unwritten "stream" refl)
      ∙ (selected-Keeps j std (differs j unwritten "input" refl)
            (differs j unwritten "instructions" refl) (differs j unwritten "messages" refl) s
          ∙ equipped-Keeps j std (differs j unwritten "previous_response_id" refl)
              (differs j unwritten "instructions" refl) (differs j unwritten "tools" refl)
              (differs j unwritten "tool_choice" refl) s)

-- A field that no step names.
abbrev pub is_unknown_field : String → Bool
is_unknown_field j =
    not (contains aliases j)
    && (not (contains alias_targets j)
        && (not (contains written_fields j) && not (contains codex_unsupported_upstream_fields j)))

-- What Codex is promised about a payload.
pub record IsUpstream (payload : Fields) : Type 0 where
  pub not_stored : get payload "store" ≡ some (bool false)
  pub is_streamed : get payload "stream" ≡ some (bool true)
  pub is_supported :
      (field : String)
      → contains codex_unsupported_upstream_fields field ≡ true
      → get payload field ≡ none
  pub has_no_alias : (field : String) → contains aliases field ≡ true → get payload field ≡ none
  pub has_clean_input : IsCleanInput payload

pub alias-is_unwritten :
    (j : String)
    → contains aliases j ≡ true
    → (contains written_fields j ≡ false) × (contains codex_unsupported_upstream_fields j ≡ false)
alias-is_unwritten j h = ground (
  arith,
  all-In (λ k. not (contains written_fields k)) aliases j refl (contains-In aliases j h),
  all-In (λ k. not (contains codex_unsupported_upstream_fields k)) aliases j refl
      (contains-In aliases j h),
)

-- The four lists that an unknown field is in none of.
unknown_lists :
    (j : String)
    → is_unknown_field j ≡ true
    → (contains aliases j ≡ false)
      × (contains alias_targets j ≡ false)
      × (contains written_fields j ≡ false)
      × (contains codex_unsupported_upstream_fields j ≡ false)
unknown_lists j h =
    let (p, q) = not_both (contains aliases j) _ h in
    let (r, s) = not_both (contains alias_targets j) _ q in
    let (t, u) = not_both (contains written_fields j) _ s in
    (p, r, t, not-true (contains codex_unsupported_upstream_fields j) u)

module _ (std : Encoding) (received : Fields) (mode : Mode) (req : ResponsesRequest) where
  Stages-IsUpstream : (s : Stages std received mode req) → IsUpstream (upstream_payload s.sanitized)
  Stages-IsUpstream s = record {
    not_stored = upstream_store s.sanitized;
    is_streamed = upstream_stream s.sanitized;
    is_supported = upstream-absent s.sanitized;
    has_no_alias = λ field h.
        let (unwritten, supported) = alias-is_unwritten field h in
        Stages-Keeps field unwritten std supported s ∙ alias-absent received field h;
    has_clean_input = upstream-IsCleanInput s.sanitized (
        Yields-eq IsCleanInput (normalize_codex_input std s.selected) s.sanitized
          (normalize_codex_input-IsCleanInput std s.selected) s.are_sanitized);
  }

  -- A request that is normalised without an error is not stored and is streamed, has none of the
  -- fields that Codex does not support and none of the aliases, and its input is an array whose
  -- items are free of interleaved reasoning.
  pub normalized-IsUpstream :
      normalize_codex_responses_payload_map std (some received) mode ≡ ok req
      → IsUpstream req.payload
  normalized-IsUpstream h =
      let s = normalized-Stages std received mode req h in
      subst (λ r. IsUpstream r.payload) (sym s.is_answer) (Stages-IsUpstream s)

  -- A field that the normalisation does not know is passed on as it was received.
  pub unknown_field_kept :
      (field : String)
      → is_unknown_field field ≡ true
      → normalize_codex_responses_payload_map std (some received) mode ≡ ok req
      → get req.payload field ≡ get received field
  unknown_field_kept field unknown h =
      let s = normalized-Stages std received mode req h in
      let (other, free, unwritten, supported) = unknown_lists field unknown in
      subst (λ r. get r.payload field ≡ get received field) (sym s.is_answer)
        (Stages-Keeps field unwritten std supported s
          ∙ normalize_codex_openai_compatible_aliases-Keeps field received other free)
