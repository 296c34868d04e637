-- ===== src/Codex/Request/Compacted.antt =====
-- internal/provider/openai/codex_request.go: what holds of a request for a compaction.
use one_llm_router.Prelude.{String, ◌≡◌, refl, ◌∙◌, true, Option, none, some, contains}
use one_llm_router.Prelude.Result.{ok, Yields, >>=-Yields, Yields-eq}
use one_llm_router.Json.{Items, Fields, get, delete}
use one_llm_router.Json.Laws.{get-delete_same, get-delete_other, delete-absent}
use one_llm_router.Codex.Aliases.{normalize_codex_openai_compatible_aliases}
use one_llm_router.Codex.Checks.{
  validate_codex_optional_object, validate_codex_optional_string, required_codex_string,
  codex_instructions, optional_codex_bool, codex_messages,
}
use one_llm_router.Codex.Tools.{
  codex_unsupported_upstream_fields, strip_codex_unsupported_upstream_fields,
}
use one_llm_router.Codex.Items.{Encoding, normalize_codex_input}
use one_llm_router.Codex.Request.{
  Mode, CompactRequest, checked_compact_fields, refuse_store, select_input, normalize_compact,
}
use one_llm_router.Codex.Request.Frame.{Keeps, codex_instructions-Keeps}
use one_llm_router.Codex.Request.Renamed.{aliases, alias-absent}
use one_llm_router.Codex.Request.Later.{differs, select_input-Keeps, normalize_codex_input-Keeps}
use one_llm_router.Codex.Request.Upstream.{
  IsCleanInput, kept-IsCleanInput, strip-Keeps, strip-absent, normalize_codex_input-IsCleanInput,
}
use one_llm_router.Codex.Request.Sent.{alias-is_unwritten}

-- What Codex is promised about the payload of a compaction.
pub record IsCompact (payload : Fields) : Type 0 where
  pub has_no_store : get payload "store" ≡ none
  pub is_supported :
      (field : String)
      → contains codex_unsupported_upstream_fields field ≡ true
      → get payload field ≡ none
  pub has_no_alias : (field : String) → contains aliases field ≡ true → get payload field ≡ none
  pub has_clean_input : IsCleanInput payload

-- No alias is left.
HasNoAlias : Fields → Type 0
HasNoAlias m = (field : String) → contains aliases field ≡ true → get m field ≡ none

compacted : Fields → Fields
compacted m = delete (strip_codex_unsupported_upstream_fields m) "store"

compacted-IsCompact : (m : Fields) → HasNoAlias m → IsCleanInput m → IsCompact (compacted m)
unfolding compacted HasNoAlias
compacted-IsCompact m no_alias clean =
    let stripped = strip_codex_unsupported_upstream_fields m in
    record {
      has_no_store = get-delete_same stripped "store";
      is_supported = λ field h. delete-absent stripped "store" field (strip-absent m field h);
      has_no_alias = λ field h.
          let (unwritten, supported) = alias-is_unwritten field h in
          delete-absent stripped "store" field (
            strip-Keeps field m supported (differs field unwritten "tools" refl)
            ∙ no_alias field h);
      has_clean_input =
          kept-IsCleanInput m (compacted m)
            (get-delete_other stripped "store" "input" refl ∙ strip-Keeps "input" m refl refl)
            clean;
    }

checked_compact-HasNoAlias : (m : Fields) → Yields HasNoAlias (checked_compact_fields m)
unfolding checked_compact_fields HasNoAlias
checked_compact-HasNoAlias m =
    let renamed = normalize_codex_openai_compatible_aliases m in
    >>=-Yields HasNoAlias
      (validate_codex_optional_object m "reasoning" "compact request reasoning must be an object") _
      (λ a shaped.
        >>=-Yields HasNoAlias
          (validate_codex_optional_string renamed "service_tier"
            "compact request service_tier must be a string")
          _
          (λ b tiered.
            >>=-Yields HasNoAlias
              (validate_codex_optional_string renamed "prompt_cache_key"
                "compact request prompt_cache_key must be a string")
              _ (λ c cached. alias-absent m)))

module _ (std : Encoding) where
  -- The steps after the checks bring no alias back.
  kept-HasNoAlias :
      (mode : Mode) (checked instructed selected sanitized : Fields) (given words : String)
      (messages : Option Items)
      → codex_instructions checked ≡ ok (given, instructed)
      → select_input std "compact request" mode given messages instructed ≡ ok (words, selected)
      → normalize_codex_input std selected ≡ ok sanitized
      → HasNoAlias checked
      → HasNoAlias sanitized
  unfolding HasNoAlias
  kept-HasNoAlias mode checked instructed selected sanitized given words messages e f g h field
        is_alias =
      let (unwritten, supported) = alias-is_unwritten field is_alias in
      let input = differs field unwritten "input" refl in
      let instructions = differs field unwritten "instructions" refl in
      Yields-eq (Keeps field selected) (normalize_codex_input std selected) sanitized
        (normalize_codex_input-Keeps field input std selected) g
      ∙ (Yields-eq (λ chosen. Keeps field instructed chosen.1)
            (select_input std "compact request" mode given messages instructed) (words, selected)
            (select_input-Keeps field input std "compact request" mode given messages instructed
              instructions (differs field unwritten "messages" refl))
            f
          ∙ (Yields-eq (λ read. Keeps field checked read.1) (codex_instructions checked)
                (given, instructed) (codex_instructions-Keeps field checked instructions) e
              ∙ h field is_alias))

  -- A request for a compaction that is normalised without an error goes out without `store`, the
  -- fields that Codex does not support and the aliases, and its input is an array whose items are
  -- free of interleaved reasoning.
  pub normalized-IsCompact :
      (received : Fields) (mode : Mode) (req : CompactRequest)
      → normalize_compact std (some received) mode ≡ ok req
      → IsCompact req.payload
  unfolding normalize_compact compacted
  normalized-IsCompact received mode req h =
      Yields-eq P (normalize_compact std (some received) mode) req
        (>>=-Yields P (checked_compact_fields received) _ (λ checked are_checked.
          >>=-Yields P (required_codex_string checked "model" "compact request model is required") _
            (λ model named. >>=-Yields P (codex_instructions checked) _ (λ read instructed.
              >>=-Yields P (optional_codex_bool read.1 "store") _ (λ store flagged.
                >>=-Yields P (refuse_store "compact request store must be false" store) _
                  (λ fine refused. >>=-Yields P (codex_messages read.1) _ (λ messages given.
                    >>=-Yields P (select_input std "compact request" mode read.0 messages read.1) _
                      (λ chosen selected.
                        >>=-Yields P (normalize_codex_input std chosen.1) _ (λ sanitized clean.
                          compacted-IsCompact sanitized
                            (kept-HasNoAlias mode checked read.1 chosen.1 sanitized read.0 chosen.0
                              messages instructed selected clean
                              (Yields-eq HasNoAlias (checked_compact_fields received) checked
                                (checked_compact-HasNoAlias received) are_checked))
                            (Yields-eq IsCleanInput (normalize_codex_input std chosen.1) sanitized
                              (normalize_codex_input-IsCleanInput std chosen.1) clean))))))))))
        h
    where
      P : CompactRequest → Type 0
      P r = IsCompact r.payload
