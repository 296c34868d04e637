-- ===== src/Codex/Request/Ordered.antt =====
-- internal/provider/openai/codex_request.go: the order of the tools of a request that is sent.
use one_llm_router.Prelude.{◌≡◌, refl, sym, ◌∙◌, ap, true, false, some}
use one_llm_router.Prelude.Result.{ok, Yields, >>=-Yields, Yields-eq}
use one_llm_router.Json.{Items, Fields, bool, array, get, put}
use one_llm_router.Json.Laws.{get-put_other}
use one_llm_router.Codex.Checks.{validate_codex_include, codex_instructions}
use one_llm_router.Codex.Tools.{
  slice_stable, canonicalize_codex_tools, normalize_codex_tools,
  strip_codex_unsupported_upstream_fields, codex_unsupported_upstream_fields,
}
use one_llm_router.Codex.Tools.Order.{Reordered, slice_stable-eq, canonical_tools}
use one_llm_router.Codex.Tools.Retyped.{
  retyped_tools, retyped_tools-Reordered, normalize_codex_tools-eq,
}
use one_llm_router.Codex.Aliases.{normalize_codex_openai_compatible_aliases}
use one_llm_router.Codex.Items.{Encoding}
use one_llm_router.Codex.Request.{
  Mode, ResponsesRequest, checked_fields, checked_tools, upstream_payload,
  normalize_codex_responses_payload_map,
}
use one_llm_router.Codex.Request.Frame.{
  Keeps, codex_instructions-Keeps, normalize_codex_tool_choice-Keeps,
}
use one_llm_router.Codex.Request.Renamed.{normalize_codex_openai_compatible_aliases-Keeps}
use one_llm_router.Codex.Request.Later.{checked_fields-Keeps}
use one_llm_router.Codex.Request.Stages.{normalized-Stages}
use one_llm_router.Codex.Request.Upstream.{delete_all-Keeps, with_marks}
use one_llm_router.Codex.Request.Sent.{selected-Keeps}

checked_tools-eq :
    (m : Fields) (xs : Items)
    → get m "tools" ≡ some (array xs)
    → Yields (λ after. get after "tools" ≡ some (array (retyped_tools xs))) (checked_tools m)
unfolding checked_tools
checked_tools-eq m xs h =
    >>=-Yields (λ after. get after "tools" ≡ some (array (retyped_tools xs)))
      (validate_codex_include m) _
      (λ fine included.
        >>=-Yields (λ after. get after "tools" ≡ some (array (retyped_tools xs)))
          (normalize_codex_tools m) _
          (λ renamed done.
            normalize_codex_tool_choice-Keeps "tools" renamed refl
            ∙ Yields-eq (λ after. get after "tools" ≡ some (array (retyped_tools xs)))
                (normalize_codex_tools m) renamed (normalize_codex_tools-eq m xs h) done))

upstream_tools :
    (m : Fields) (xs : Items)
    → get m "tools" ≡ some (array xs)
    → get (upstream_payload m) "tools" ≡ some (array (slice_stable xs))
unfolding upstream_payload strip_codex_unsupported_upstream_fields
upstream_tools m xs h =
    delete_all-Keeps "tools" (canonicalize_codex_tools (with_marks m))
      codex_unsupported_upstream_fields refl
    ∙ canonical_tools (with_marks m) xs (
        get-put_other (put m "store" (bool false)) "stream" (bool true) "tools" refl
        ∙ get-put_other m "store" (bool false) "tools" refl
        ∙ h)

module _ (std : Encoding) where
  -- The tools are sent retyped and sorted.
  sent_tools :
      (received : Fields) (mode : Mode) (req : ResponsesRequest) (xs : Items)
      → get received "tools" ≡ some (array xs)
      → normalize_codex_responses_payload_map std (some received) mode ≡ ok req
      → get req.payload "tools" ≡ some (array (slice_stable (retyped_tools xs)))
  sent_tools received mode req xs given h =
      let s = normalized-Stages std received mode req h in
      let renamed = normalize_codex_openai_compatible_aliases received in
      let instructed =
        Yields-eq (λ read. Keeps "tools" s.checked read.1) (codex_instructions s.checked)
          (s.given, s.instructed) (codex_instructions-Keeps "tools" s.checked refl) s.are_instructed
        ∙ Yields-eq (Keeps "tools" renamed) (checked_fields received) s.checked
            (checked_fields-Keeps "tools" received refl) s.are_checked
        ∙ normalize_codex_openai_compatible_aliases-Keeps "tools" received refl refl
        ∙ given in
      let equipped =
        Yields-eq (λ after. get after "tools" ≡ some (array (retyped_tools xs)))
          (checked_tools s.instructed) s.equipped (checked_tools-eq s.instructed xs instructed)
          s.are_equipped in
      ap (λ (r : ResponsesRequest). get r.payload "tools") s.is_answer
      ∙ upstream_tools s.sanitized (retyped_tools xs)
          (selected-Keeps "tools" std refl refl refl s ∙ equipped)

  -- Two requests whose tools differ in their order alone, where those of one name follow one another
  -- as before, and which are both normalised without an error, are sent with the same tools in the
  -- same order, whatever else they ask.
  pub canonical_order :
      (received other : Fields) (mode mode' : Mode) (req req' : ResponsesRequest) (xs ys : Items)
      → Reordered xs ys
      → get received "tools" ≡ some (array xs)
      → get other "tools" ≡ some (array ys)
      → normalize_codex_responses_payload_map std (some received) mode ≡ ok req
      → normalize_codex_responses_payload_map std (some other) mode' ≡ ok req'
      → get req.payload "tools" ≡ get req'.payload "tools"
  canonical_order received other mode mode' req req' xs ys moved given given' h h' =
      sent_tools received mode req xs given h
      ∙ ap (λ l. some (array l))
          (slice_stable-eq (retyped_tools xs) (retyped_tools ys)
            (retyped_tools-Reordered xs ys moved))
      ∙ sym (sent_tools other mode' req' ys given' h')
