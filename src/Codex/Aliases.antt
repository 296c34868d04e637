-- ===== src/Codex/Aliases.antt =====
-- internal/provider/openai/codex_request.go: the names that other clients use for request fields.
use one_llm_router.Prelude.{String, ◌≡◌, refl, Option, none, some, if◌then◌else◌}
use one_llm_router.Prelude.Text.{trim_space}
use one_llm_router.Prelude.Fold.{equal_fold}
use one_llm_router.Json.{
  Json, Fields, done, entry, text, object, get, put, delete, at, has, is_nonempty,
}

-- if text, ok := value.(string); ok { m[to] = text }
abbrev pub put_text : Fields → String → Json → Fields
put_text m to (text s) = put m to (text s)
put_text m to _ = m

-- The map that takes the value of an alias, unless it has the field already.
abbrev pub take_alias : Fields → String → Json → Fields
take_alias m to value = if has m to then m else put_text m to value

-- moveCodexStringAlias
abbrev pub moved_alias : Fields → String → String → Option Json → Fields
moved_alias payload from to none = payload
moved_alias payload from to (some value) = take_alias (delete payload from) to value

unfoldable pub move_codex_string_alias : Fields → String → String → Fields
move_codex_string_alias payload from to = moved_alias payload from to (get payload from)

-- moveCodexNestedStringAlias; the second object is *target
abbrev pub moved_nested : Fields → Fields → String → String → Option Json → Fields × Fields
moved_nested payload target from to none = (payload, target)
moved_nested payload target from to (some value) = (delete payload from, take_alias target to value)

unfoldable pub move_codex_nested_string_alias : Fields → Fields → String → String → Fields × Fields
move_codex_nested_string_alias payload target from to =
    moved_nested payload target from to (get payload from)

-- codexAnyMap, and an empty map where the value is none
abbrev pub object_or_empty : Json → Fields
object_or_empty (object m) = m
object_or_empty _ = done

-- if len(target) > 0 { payload[field] = target }
abbrev pub put_nonempty : String → Fields × Fields → Fields
put_nonempty field (payload, target) =
    if is_nonempty target then put payload field (object target) else payload

-- two aliases moved into the object of one field
unfoldable pub move_two : String → String → String → String → String → Fields → Fields
move_two field from to from2 to2 payload =
    let (p, target) =
      move_codex_nested_string_alias payload (object_or_empty (at payload field)) from to in
    put_nonempty field (move_codex_nested_string_alias p target from2 to2)

abbrev pub tier_of : Json → Fields → Fields
tier_of (text tier) payload =
    if equal_fold (trim_space tier) "fast"
    then put payload "service_tier" (text "priority")
    else payload
tier_of _ payload = payload

unfoldable pub normalize_service_tier : Fields → Fields
normalize_service_tier payload = tier_of (at payload "service_tier") payload

-- normalizeCodexOpenAICompatibleAliases
unfoldable pub normalize_codex_openai_compatible_aliases : Fields → Fields
normalize_codex_openai_compatible_aliases payload =
    let cached = move_codex_string_alias payload "promptCacheKey" "prompt_cache_key" in
    let retained = move_codex_string_alias cached "promptCacheRetention" "prompt_cache_retention" in
    let reasoned =
      move_two "reasoning" "reasoningEffort" "effort" "reasoningSummary" "summary" retained in
    let worded = move_two "text" "textVerbosity" "verbosity" "verbosity" "verbosity" reasoned in
    normalize_service_tier worded

aliases_run :
    normalize_codex_openai_compatible_aliases
      (entry "verbosity" (text "low") (entry "service_tier" (text " Fast ") done))
    ≡ entry "service_tier"
        (text "priority")
        (entry "text" (object (entry "verbosity" (text "low") done)) done)
unfolding normalize_codex_openai_compatible_aliases move_codex_string_alias move_two
    move_codex_nested_string_alias normalize_service_tier get put delete trim_space equal_fold
aliases_run = refl
