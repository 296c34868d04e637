-- ===== src/Codex/Tools/Retyped.antt =====
-- internal/provider/openai/codex_request.go: what normalizeCodexTools makes of the tools.
use one_llm_router.Prelude.{String, ◌≡◌, refl, ◌∙◌, ap, some, str_eq, contains, if_intro}
use one_llm_router.Prelude.Result.{Yields, >>=-Yields, Yields-eq}
use one_llm_router.Json.{Json, Items, Fields, text, array, object, nil, cons, get, put, or_null}
use one_llm_router.Json.Laws.{get-put_same, get-put_other}
use one_llm_router.Codex.Tools.{
  type_of, codex_unsupported_tool_types, retyped, normalize_tools, normalize_codex_tools, own_name,
  function_name,
}
use one_llm_router.Codex.Tools.Order.{Reordered, same, behind, swap, trans, key}

abbrev retyped_tool : Json → Json
retyped_tool (object m) = object (retyped m)
retyped_tool tool = tool

abbrev pub retyped_tools : Items → Items
retyped_tools nil = nil
retyped_tools (cons tool tools) = cons (retyped_tool tool) (retyped_tools tools)

-- Tools that are normalised without an error are all retyped, in their order.
pub normalize_tools-eq : (xs : Items) → Yields (λ ys. ys ≡ retyped_tools xs) (normalize_tools xs)
unfolding normalize_tools
normalize_tools-eq nil = refl
normalize_tools-eq (cons (object m) rest) =
    if_intro (Yields (λ ys. ys ≡ retyped_tools (cons (object m) rest)))
      (contains codex_unsupported_tool_types (type_of (retyped m))) (λ unsupported. tt)
      (λ supported.
        >>=-Yields (λ ys. ys ≡ retyped_tools (cons (object m) rest)) (normalize_tools rest) _
          (λ others done. ap (cons (object (retyped m))) (
            Yields-eq (λ ys. ys ≡ retyped_tools rest) (normalize_tools rest) others
              (normalize_tools-eq rest) done)))
normalize_tools-eq (cons tool rest) =
    >>=-Yields (λ ys. ys ≡ retyped_tools (cons tool rest)) (normalize_tools rest) _
      (λ others done. ap (cons tool) (
        Yields-eq (λ ys. ys ≡ retyped_tools rest) (normalize_tools rest) others
          (normalize_tools-eq rest) done))

own_name-eq :
    (a b : Fields) (v : Json) → get a "function" ≡ get b "function" → own_name a v ≡ own_name b v
own_name-eq a b (text name) h = refl
own_name-eq a b _ h = ap (λ o. function_name (or_null o)) h

put_type-key :
    (m : Fields) (kind : String) → key (object (put m "type" (text kind))) ≡ key (object m)
put_type-key m kind =
    ap (λ o. own_name (put m "type" (text kind)) (or_null o))
      (get-put_other m "type" (text kind) "name" refl)
    ∙ own_name-eq (put m "type" (text kind)) m (or_null (get m "name"))
        (get-put_other m "type" (text kind) "function" refl)

-- A tool keeps the name that it is sorted by.
retyped-key : (tool : Json) → key (retyped_tool tool) ≡ key tool
unfolding retyped
retyped-key (object m) =
    if_intro (λ t. key (object t) ≡ key (object m)) (str_eq (type_of m) "web_search_preview")
      (λ preview. put_type-key m "web_search") (λ other. refl)
retyped-key _ = refl

-- Tools in another order are retyped to tools in that order.
pub retyped_tools-Reordered :
    (xs ys : Items) → Reordered xs ys → Reordered (retyped_tools xs) (retyped_tools ys)
retyped_tools-Reordered xs ys (same l) = same (retyped_tools l)
retyped_tools-Reordered xs ys (behind x l m h) =
    behind (retyped_tool x) (retyped_tools l) (retyped_tools m) (retyped_tools-Reordered l m h)
retyped_tools-Reordered xs ys (swap x y l differ) =
    swap (retyped_tool x) (retyped_tool y) (retyped_tools l)
      (rw (retyped-key x, retyped-key y) differ)
retyped_tools-Reordered xs ys (trans l m n g h) =
    trans (retyped_tools l) (retyped_tools m) (retyped_tools n) (retyped_tools-Reordered l m g)
      (retyped_tools-Reordered m n h)

pub normalize_codex_tools-eq :
    (m : Fields) (xs : Items)
    → get m "tools" ≡ some (array xs)
    → Yields
        (λ after. get after "tools" ≡ some (array (retyped_tools xs)))
        (normalize_codex_tools m)
unfolding normalize_codex_tools
normalize_codex_tools-eq m xs h = rw h (
    >>=-Yields (λ after. get after "tools" ≡ some (array (retyped_tools xs))) (normalize_tools xs) _
      (λ renamed done.
        get-put_same m "tools" (array renamed)
        ∙ ap (λ l. some (array l))
            (Yields-eq (λ ys. ys ≡ retyped_tools xs) (normalize_tools xs) renamed
              (normalize_tools-eq xs) done)))
