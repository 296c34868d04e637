-- ===== src/Codex/Request/Frame.antt =====
-- internal/provider/openai/codex_request.go: which fields each step of the normalisation writes.
use one_llm_router.Prelude.{
  String, ◌≡◌, refl, ◌∙◌, false, Option, none, some, str_eq, if_intro, trim_space,
}
use one_llm_router.Prelude.Fold.{equal_fold}
use one_llm_router.Prelude.Result.{ok, Yields, >>=-Yields}
use one_llm_router.Json.{
  Json, Fields, text, null, array, object, cons, get, put, delete, at, has, is_nonempty,
}
use one_llm_router.Json.Laws.{get-put_other, get-delete_other}
use one_llm_router.Codex.Aliases.{
  put_text, take_alias, moved_alias, move_codex_string_alias, moved_nested,
  move_codex_nested_string_alias, put_nonempty, move_two, tier_of, normalize_service_tier,
  object_or_empty,
}
use one_llm_router.Codex.Checks.{
  previous_of, normalize_codex_previous_response_id, instructions_of, codex_instructions,
}
use one_llm_router.Codex.Tools.{
  tools_of, normalize_tools, normalize_codex_tools, choice_of, normalize_codex_tool_choice, retyped,
  canonical_of, canonicalize_codex_tools,
}

module _ (j : String) where
  -- The field j is what it was.
  abbrev pub Keeps : Fields → Fields → Type 0
  Keeps before after = get after j ≡ get before j

  put_text-Keeps :
      (m : Fields) (to : String) (value : Json)
      → str_eq to j ≡ false
      → Keeps m (put_text m to value)
  put_text-Keeps m to (text s) e = get-put_other m to (text s) j e
  put_text-Keeps m to _ e = refl

  pub take_alias-Keeps :
      (m : Fields) (to : String) (value : Json)
      → str_eq to j ≡ false
      → Keeps m (take_alias m to value)
  take_alias-Keeps m to value e =
      if_intro (Keeps m) (has m to) (λ there. refl) (λ free. put_text-Keeps m to value e)

  moved_alias-Keeps :
      (m : Fields) (from to : String) (found : Option Json)
      → str_eq from j ≡ false
      → str_eq to j ≡ false
      → Keeps m (moved_alias m from to found)
  moved_alias-Keeps m from to none e f = refl
  moved_alias-Keeps m from to (some value) e f =
      take_alias-Keeps (delete m from) to value f ∙ get-delete_other m from j e

  pub move_codex_string_alias-Keeps :
      (m : Fields) (from to : String)
      → str_eq from j ≡ false
      → str_eq to j ≡ false
      → Keeps m (move_codex_string_alias m from to)
  unfolding move_codex_string_alias
  move_codex_string_alias-Keeps m from to e f = moved_alias-Keeps m from to (get m from) e f

  moved_nested-Keeps :
      (m target : Fields) (from to : String) (found : Option Json)
      → str_eq from j ≡ false
      → Keeps m (moved_nested m target from to found).0
  moved_nested-Keeps m target from to none e = refl
  moved_nested-Keeps m target from to (some value) e = get-delete_other m from j e

  pub nested-Keeps :
      (m target : Fields) (from to : String)
      → str_eq from j ≡ false
      → Keeps m (move_codex_nested_string_alias m target from to).0
  unfolding move_codex_nested_string_alias
  nested-Keeps m target from to e = moved_nested-Keeps m target from to (get m from) e

  pub put_nonempty-Keeps :
      (field : String) (moved : Fields × Fields)
      → str_eq field j ≡ false
      → Keeps moved.0 (put_nonempty field moved)
  put_nonempty-Keeps field (m, target) e =
      if_intro (Keeps m) (is_nonempty target) (λ full. get-put_other m field (object target) j e)
        (λ empty. refl)

  pub move_two-Keeps :
      (field from to from2 to2 : String) (m : Fields)
      → str_eq field j ≡ false
      → str_eq from j ≡ false
      → str_eq from2 j ≡ false
      → Keeps m (move_two field from to from2 to2 m)
  unfolding move_two
  move_two-Keeps field from to from2 to2 m e f g =
      let (p, target) = move_codex_nested_string_alias m (object_or_empty (at m field)) from to in
      put_nonempty-Keeps field (move_codex_nested_string_alias p target from2 to2) e
      ∙ (nested-Keeps p target from2 to2 g
          ∙ nested-Keeps m (object_or_empty (at m field)) from to f)

  tier_of-Keeps :
      (tier : Json) (m : Fields) → str_eq "service_tier" j ≡ false → Keeps m (tier_of tier m)
  tier_of-Keeps (text tier) m e =
      if_intro (Keeps m) (equal_fold (trim_space tier) "fast")
        (λ fast. get-put_other m "service_tier" (text "priority") j e) (λ other. refl)
  tier_of-Keeps _ m e = refl

  pub normalize_service_tier-Keeps :
      (m : Fields) → str_eq "service_tier" j ≡ false → Keeps m (normalize_service_tier m)
  unfolding normalize_service_tier
  normalize_service_tier-Keeps m e = tier_of-Keeps (at m "service_tier") m e

  -- The steps after the aliases.
  previous_of-Keeps :
      (m : Fields) (id : Json)
      → str_eq "previous_response_id" j ≡ false
      → Keeps m (previous_of m id)
  previous_of-Keeps m (text id) e =
      if_intro (Keeps m) (str_eq (trim_space id) "")
        (λ blank. get-delete_other m "previous_response_id" j e)
        (λ given. get-put_other m "previous_response_id" (text (trim_space id)) j e)
  previous_of-Keeps m _ e = refl

  pub normalize_codex_previous_response_id-Keeps :
      (m : Fields)
      → str_eq "previous_response_id" j ≡ false
      → Keeps m (normalize_codex_previous_response_id m)
  unfolding normalize_codex_previous_response_id
  normalize_codex_previous_response_id-Keeps m e =
      previous_of-Keeps m (at m "previous_response_id") e

  instructions_of-Keeps :
      (m : Fields) (value : Json)
      → str_eq "instructions" j ≡ false
      → Yields (λ read. Keeps m read.1) (instructions_of m value)
  instructions_of-Keeps m null e = get-put_other m "instructions" (text "") j e
  instructions_of-Keeps m (text s) e = refl
  instructions_of-Keeps m _ e = tt

  pub codex_instructions-Keeps :
      (m : Fields)
      → str_eq "instructions" j ≡ false
      → Yields (λ read. Keeps m read.1) (codex_instructions m)
  unfolding codex_instructions
  codex_instructions-Keeps m e = instructions_of-Keeps m (at m "instructions") e

  tools_of-Keeps :
      (m : Fields) (tools : Json) → str_eq "tools" j ≡ false → Yields (Keeps m) (tools_of m tools)
  tools_of-Keeps m null e = refl
  tools_of-Keeps m (array tools) e =
      >>=-Yields (Keeps m) (normalize_tools tools) (λ ts. ok (put m "tools" (array ts)))
        (λ renamed done. get-put_other m "tools" (array renamed) j e)
  tools_of-Keeps m _ e = tt

  choice_of-Keeps :
      (m : Fields) (choice : Json) → str_eq "tool_choice" j ≡ false → Keeps m (choice_of m choice)
  choice_of-Keeps m (object choice) e = get-put_other m "tool_choice" (object (retyped choice)) j e
  choice_of-Keeps m _ e = refl

  canonical_of-Keeps :
      (m : Fields) (tools : Json) → str_eq "tools" j ≡ false → Keeps m (canonical_of m tools)
  canonical_of-Keeps m (array (cons x xs)) e = get-put_other m "tools" _ j e
  canonical_of-Keeps m _ e = refl

  pub normalize_codex_tools-Keeps :
      (m : Fields) → str_eq "tools" j ≡ false → Yields (Keeps m) (normalize_codex_tools m)
  unfolding normalize_codex_tools
  normalize_codex_tools-Keeps m e = tools_of-Keeps m (at m "tools") e

  pub normalize_codex_tool_choice-Keeps :
      (m : Fields) → str_eq "tool_choice" j ≡ false → Keeps m (normalize_codex_tool_choice m)
  unfolding normalize_codex_tool_choice
  normalize_codex_tool_choice-Keeps m e = choice_of-Keeps m (at m "tool_choice") e

  pub canonicalize_codex_tools-Keeps :
      (m : Fields) → str_eq "tools" j ≡ false → Keeps m (canonicalize_codex_tools m)
  unfolding canonicalize_codex_tools
  canonicalize_codex_tools-Keeps m e = canonical_of-Keeps m (at m "tools") e
