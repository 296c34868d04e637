-- ===== src/Codex/Request/Renamed.antt =====
-- internal/provider/openai/codex_request.go: after the aliases are moved there are none, and the
-- other fields are as before.
use one_llm_router.Prelude.{
  String, ◌≡◌, refl, sym, ◌∙◌, true, false, Option, none, some, List, [], ◌∷◌, contains, str_eq,
  told_apart, subst, In, contains-In, inl, inr,
}
use one_llm_router.Json.{Json, Fields, get, delete, at}
use one_llm_router.Json.Laws.{get-delete_same}
use one_llm_router.Codex.Aliases.{
  moved_alias, move_codex_string_alias, moved_nested, move_codex_nested_string_alias, move_two,
  normalize_service_tier, object_or_empty, normalize_codex_openai_compatible_aliases,
}
use one_llm_router.Codex.Request.Frame.{
  Keeps, take_alias-Keeps, nested-Keeps, put_nonempty-Keeps, move_codex_string_alias-Keeps,
  move_two-Keeps, normalize_service_tier-Keeps,
}

-- The fields that clients have for others, and those that they go to.
abbrev pub aliases : List String
aliases =
    "promptCacheKey" ∷ "promptCacheRetention" ∷ "reasoningEffort" ∷ "reasoningSummary"
    ∷ "textVerbosity" ∷ "verbosity" ∷ []

abbrev pub alias_targets : List String
alias_targets =
    "prompt_cache_key" ∷ "prompt_cache_retention" ∷ "reasoning" ∷ "text" ∷ "service_tier" ∷ []

abbrev cached : Fields → Fields
cached m = move_codex_string_alias m "promptCacheKey" "prompt_cache_key"

abbrev retained : Fields → Fields
retained m = move_codex_string_alias m "promptCacheRetention" "prompt_cache_retention"

abbrev reasoned : Fields → Fields
reasoned m = move_two "reasoning" "reasoningEffort" "effort" "reasoningSummary" "summary" m

abbrev worded : Fields → Fields
worded m = move_two "text" "textVerbosity" "verbosity" "verbosity" "verbosity" m

-- Texts of which only one is in a list.
pub apart :
    (list : List String) (k j : String)
    → contains list j ≡ false
    → contains list k ≡ true
    → str_eq k j ≡ false
apart list k j out within = told_apart (contains list) k j within out

-- A field that is neither an alias nor the target of one is left alone.
pub normalize_codex_openai_compatible_aliases-Keeps :
    (j : String) (m : Fields)
    → contains aliases j ≡ false
    → contains alias_targets j ≡ false
    → Keeps j m (normalize_codex_openai_compatible_aliases m)
unfolding normalize_codex_openai_compatible_aliases
normalize_codex_openai_compatible_aliases-Keeps j m other free =
    normalize_service_tier-Keeps j (worded (reasoned (retained (cached m))))
      (apart alias_targets "service_tier" j free refl)
    ∙ (move_two-Keeps j "text" "textVerbosity" "verbosity" "verbosity" "verbosity"
          (reasoned (retained (cached m))) (apart alias_targets "text" j free refl)
          (apart aliases "textVerbosity" j other refl) (apart aliases "verbosity" j other refl)
        ∙ (move_two-Keeps j "reasoning" "reasoningEffort" "effort" "reasoningSummary" "summary"
              (retained (cached m)) (apart alias_targets "reasoning" j free refl)
              (apart aliases "reasoningEffort" j other refl)
              (apart aliases "reasoningSummary" j other refl)
            ∙ (move_codex_string_alias-Keeps j (cached m) "promptCacheRetention"
                  "prompt_cache_retention" (apart aliases "promptCacheRetention" j other refl)
                  (apart alias_targets "prompt_cache_retention" j free refl)
                ∙ move_codex_string_alias-Keeps j m "promptCacheKey" "prompt_cache_key"
                    (apart aliases "promptCacheKey" j other refl)
                    (apart alias_targets "prompt_cache_key" j free refl))))

-- What is moved is gone.
moved_alias-gone :
    (m : Fields) (from to : String) (found : Option Json)
    → get m from ≡ found
    → str_eq to from ≡ false
    → get (moved_alias m from to found) from ≡ none
moved_alias-gone m from to none e f = e
moved_alias-gone m from to (some value) e f =
    take_alias-Keeps from (delete m from) to value f ∙ get-delete_same m from

alias-gone :
    (m : Fields) (from to : String)
    → str_eq to from ≡ false
    → get (move_codex_string_alias m from to) from ≡ none
unfolding move_codex_string_alias
alias-gone m from to f = moved_alias-gone m from to (get m from) refl f

moved_nested-gone :
    (m target : Fields) (from to : String) (found : Option Json)
    → get m from ≡ found
    → get (moved_nested m target from to found).0 from ≡ none
moved_nested-gone m target from to none e = e
moved_nested-gone m target from to (some value) e = get-delete_same m from

nested-gone :
    (m target : Fields) (from to : String)
    → get (move_codex_nested_string_alias m target from to).0 from ≡ none
unfolding move_codex_nested_string_alias
nested-gone m target from to = moved_nested-gone m target from to (get m from) refl

pair-gone :
    (field from to from2 to2 : String) (m : Fields)
    → str_eq field from2 ≡ false
    → get (move_two field from to from2 to2 m) from2 ≡ none
unfolding move_two
pair-gone field from to from2 to2 m e =
    let (p, target) = move_codex_nested_string_alias m (object_or_empty (at m field)) from to in
    put_nonempty-Keeps from2 field (move_codex_nested_string_alias p target from2 to2) e
    ∙ nested-gone p target from2 to2

pair-gone_first :
    (field from to from2 to2 : String) (m : Fields)
    → str_eq field from ≡ false
    → str_eq from2 from ≡ false
    → get (move_two field from to from2 to2 m) from ≡ none
unfolding move_two
pair-gone_first field from to from2 to2 m e f =
    let (p, target) = move_codex_nested_string_alias m (object_or_empty (at m field)) from to in
    put_nonempty-Keeps from field (move_codex_nested_string_alias p target from2 to2) e
    ∙ (nested-Keeps from p target from2 to2 f
        ∙ nested-gone m (object_or_empty (at m field)) from to)

-- The last steps leave the other fields alone, and so do the last three.
abbrev late_fields : List String
late_fields = "service_tier" ∷ "text" ∷ "textVerbosity" ∷ "verbosity" ∷ []

abbrev later_fields : List String
later_fields = "reasoning" ∷ "reasoningEffort" ∷ "reasoningSummary" ∷ late_fields

late-Keeps :
    (j : String) (m : Fields)
    → contains late_fields j ≡ false
    → Keeps j m (normalize_service_tier (worded m))
late-Keeps j m h =
    normalize_service_tier-Keeps j (worded m) (apart late_fields "service_tier" j h refl)
    ∙ move_two-Keeps j "text" "textVerbosity" "verbosity" "verbosity" "verbosity" m
        (apart late_fields "text" j h refl) (apart late_fields "textVerbosity" j h refl)
        (apart late_fields "verbosity" j h refl)

reasoned-Keeps :
    (j : String) (m : Fields)
    → contains later_fields j ≡ false
    → contains late_fields j ≡ false
    → Keeps j m (normalize_service_tier (worded (reasoned m)))
reasoned-Keeps j m h g =
    late-Keeps j (reasoned m) g
    ∙ move_two-Keeps j "reasoning" "reasoningEffort" "effort" "reasoningSummary" "summary" m
        (apart later_fields "reasoning" j h refl) (apart later_fields "reasoningEffort" j h refl)
        (apart later_fields "reasoningSummary" j h refl)

alias_in-absent :
    (m : Fields) (j : String)
    → In j aliases
    → get (normalize_codex_openai_compatible_aliases m) j ≡ none
unfolding normalize_codex_openai_compatible_aliases
alias_in-absent m j (inl e) =
    subst (λ k. get (normalize_service_tier (worded (reasoned (retained (cached m))))) k ≡ none)
      (sym e)
      (reasoned-Keeps "promptCacheKey" (retained (cached m)) refl refl
        ∙ (move_codex_string_alias-Keeps "promptCacheKey" (cached m) "promptCacheRetention"
              "prompt_cache_retention" refl refl
            ∙ alias-gone m "promptCacheKey" "prompt_cache_key" refl))
alias_in-absent m j (inr (inl e)) =
    subst (λ k. get (normalize_service_tier (worded (reasoned (retained (cached m))))) k ≡ none)
      (sym e)
      (reasoned-Keeps "promptCacheRetention" (retained (cached m)) refl refl
        ∙ alias-gone (cached m) "promptCacheRetention" "prompt_cache_retention" refl)
alias_in-absent m j (inr (inr (inl e))) =
    subst (λ k. get (normalize_service_tier (worded (reasoned (retained (cached m))))) k ≡ none)
      (sym e)
      (late-Keeps "reasoningEffort" (reasoned (retained (cached m))) refl
        ∙ pair-gone_first "reasoning" "reasoningEffort" "effort" "reasoningSummary" "summary"
            (retained (cached m)) refl refl)
alias_in-absent m j (inr (inr (inr (inl e)))) =
    subst (λ k. get (normalize_service_tier (worded (reasoned (retained (cached m))))) k ≡ none)
      (sym e)
      (late-Keeps "reasoningSummary" (reasoned (retained (cached m))) refl
        ∙ pair-gone "reasoning" "reasoningEffort" "effort" "reasoningSummary" "summary"
            (retained (cached m)) refl)
alias_in-absent m j (inr (inr (inr (inr (inl e))))) =
    subst (λ k. get (normalize_service_tier (worded (reasoned (retained (cached m))))) k ≡ none)
      (sym e)
      (normalize_service_tier-Keeps "textVerbosity" (worded (reasoned (retained (cached m)))) refl
        ∙ pair-gone_first "text" "textVerbosity" "verbosity" "verbosity" "verbosity"
            (reasoned (retained (cached m))) refl refl)
alias_in-absent m j (inr (inr (inr (inr (inr (inl e)))))) =
    subst (λ k. get (normalize_service_tier (worded (reasoned (retained (cached m))))) k ≡ none)
      (sym e)
      (normalize_service_tier-Keeps "verbosity" (worded (reasoned (retained (cached m)))) refl
        ∙ pair-gone "text" "textVerbosity" "verbosity" "verbosity" "verbosity"
            (reasoned (retained (cached m))) refl)
alias_in-absent m j (inr (inr (inr (inr (inr (inr h)))))) = elim h [ ]

-- None of the aliases is left.
pub alias-absent :
    (m : Fields) (j : String)
    → contains aliases j ≡ true
    → get (normalize_codex_openai_compatible_aliases m) j ≡ none
alias-absent m j h = alias_in-absent m j (contains-In aliases j h)
