-- ===== src/Codex/Tools/Allowed.antt =====
-- internal/provider/openai/codex_request.go: the types of the tools that a request may have.
use one_llm_router.Prelude.{
  String, ◌≡◌, refl, sym, ◌∙◌, subst, Bool, true, false, not, ◌&&◌, Option, none, some, arith,
  str_eq, contains, Bool-cases, inl, inr, if_intro, tests_both,
}
use one_llm_router.Prelude.Result.{Result, ok, Yields, >>=-Yields, Yields-eq}
use one_llm_router.Json.{
  Json, Items, Fields, null, text, array, object, nil, cons, get, put, or_null, every,
}
use one_llm_router.Json.Laws.{get-put_same}
use one_llm_router.Codex.Tools.{
  type_of, codex_unsupported_tool_types, retyped, with_tool, normalize_tools, normalize_codex_tools,
  tools_of, insert_tool, slice_stable, sort_items, canonicalize_codex_tools, canonical_of,
}
use one_llm_router.Codex.Tools.Order.{sort_items-eq}

-- A tool of a type that Codex supports, under the name that it has there.
abbrev pub is_allowed : Json → Bool
is_allowed (object tool) =
    not (contains codex_unsupported_tool_types (type_of tool))
    && not (str_eq (type_of tool) "web_search_preview")
is_allowed _ = true

retyped-final : (m : Fields) → str_eq (type_of (retyped m)) "web_search_preview" ≡ false
unfolding retyped
retyped-final m = elim (Bool-cases (str_eq (type_of m) "web_search_preview")) [
  | inl preview ↦ rw (preview, get-put_same m "type" (text "web_search")) refl
  | inr other ↦ rw (other, other) refl
]

AreAllowed : Items → Type 0
AreAllowed tools = every is_allowed tools ≡ true

tool-allowed :
    (tool : Fields) (others : Result String Items)
    → str_eq (type_of tool) "web_search_preview" ≡ false
    → Yields AreAllowed others
    → Yields AreAllowed (with_tool tool others)
unfolding AreAllowed
tool-allowed tool others final rest =
    if_intro (Yields AreAllowed) (contains codex_unsupported_tool_types (type_of tool))
      (λ unsupported. tt)
      (λ supported.
        >>=-Yields AreAllowed others (λ ts. ok (cons (object tool) ts))
          (λ ts done. rw (supported, final) (Yields-eq AreAllowed others ts rest done)))

normalize_tools-allowed : (tools : Items) → Yields AreAllowed (normalize_tools tools)
unfolding normalize_tools AreAllowed
normalize_tools-allowed nil = refl
normalize_tools-allowed (cons (object m) rest) =
    tool-allowed (retyped m) (normalize_tools rest) (retyped-final m) (normalize_tools-allowed rest)
normalize_tools-allowed (cons tool rest) =
    >>=-Yields AreAllowed (normalize_tools rest) _ (λ ts done.
      Yields-eq AreAllowed (normalize_tools rest) ts (normalize_tools-allowed rest) done)

insert-allowed :
    (x : Json) (l : Items)
    → is_allowed x ≡ true
    → every is_allowed l ≡ true
    → every is_allowed (insert_tool x l) ≡ true
unfolding insert_tool
insert-allowed x nil p h = rw p refl
insert-allowed x (cons y l) p h = ground (arith, insert-allowed x l p, p, h)

slice_stable-allowed :
    (l : Items) → every is_allowed l ≡ true → every is_allowed (slice_stable l) ≡ true
unfolding slice_stable
slice_stable-allowed nil h = refl
slice_stable-allowed (cons x l) h =
    let (first, rest) = tests_both (is_allowed x) (every is_allowed l) h in
    insert-allowed x (slice_stable l) first (slice_stable-allowed l rest)

-- The tools of a payload, if they are an array.
pub HasAllowedTools : Fields → Type 0
HasAllowedTools m =
    (tools : Items) → get m "tools" ≡ some (array tools) → every is_allowed tools ≡ true

array-eq : (a b : Items) → ◌≡◌ {A = Option Json} (some (array a)) (some (array b)) → a ≡ b
array-eq a b h = ground (arith, h)

-- The tools that a payload is given are those that it has.
given_tools :
    (m : Fields) (given : Items)
    → every is_allowed given ≡ true
    → HasAllowedTools (put m "tools" (array given))
unfolding HasAllowedTools
given_tools m given h tools there =
    subst (λ ts. every is_allowed ts ≡ true)
      (array-eq given tools (sym (get-put_same m "tools" (array given)) ∙ there)) h

-- Where the tools are kept, so is that they are allowed.
pub kept_tools :
    (before after : Fields)
    → get after "tools" ≡ get before "tools"
    → HasAllowedTools before
    → HasAllowedTools after
unfolding HasAllowedTools
kept_tools before after e h tools there = h tools (sym e ∙ there)

tools_of-allowed :
    (m : Fields) (found : Option Json)
    → get m "tools" ≡ found
    → Yields HasAllowedTools (tools_of m (or_null found))
unfolding HasAllowedTools AreAllowed
tools_of-allowed m none e = λ tools there. cc
tools_of-allowed m (some null) e = λ tools there. cc
tools_of-allowed m (some (array given)) e =
    >>=-Yields HasAllowedTools (normalize_tools given) _ (λ renamed done.
      given_tools m renamed
        (Yields-eq AreAllowed (normalize_tools given) renamed (normalize_tools-allowed given) done))
tools_of-allowed m (some _) e = tt

pub normalize_codex_tools-allowed : (m : Fields) → Yields HasAllowedTools (normalize_codex_tools m)
unfolding normalize_codex_tools
normalize_codex_tools-allowed m = tools_of-allowed m (get m "tools") refl

canonical_of-allowed :
    (m : Fields) (found : Option Json)
    → get m "tools" ≡ found
    → HasAllowedTools m
    → HasAllowedTools (canonical_of m (or_null found))
unfolding HasAllowedTools
canonical_of-allowed m (some (array (cons x xs))) e h =
    given_tools m (slice_stable (sort_items (cons x xs))) (
      slice_stable-allowed (sort_items (cons x xs))
        (rw (sort_items-eq (cons x xs)) (h (cons x xs) e)))
canonical_of-allowed m (some (array nil)) e h = h
canonical_of-allowed m (some _) e h = h
canonical_of-allowed m none e h = h

pub canonicalize_codex_tools-allowed :
    (m : Fields) → HasAllowedTools m → HasAllowedTools (canonicalize_codex_tools m)
unfolding canonicalize_codex_tools
canonicalize_codex_tools-allowed m h = canonical_of-allowed m (get m "tools") refl h
