-- ===== src/Codex/Tools.antt =====
-- internal/provider/openai/codex_request.go: the tools of a request.
use Prim.Native.String
use one_llm_router.Prelude.{
  String, ◌≡◌, refl, Bool, true, false, Option, none, some, List, [], ◌∷◌, str_eq, contains,
  if◌then◌else◌,
}
use one_llm_router.Prelude.TextOrder.{text_before}
use one_llm_router.Prelude.Result.{Result, ok, err, ◌>>=◌}
use one_llm_router.Json.{
  Json, Items, Fields, done, entry, null, bool, number, text, array, object, nil, cons, get, put,
  delete, at, text_or_empty,
}
use one_llm_router.Codex.Checks.{Checked}
pub mod Allowed
pub mod Order
pub mod Retyped

abbrev pub codex_unsupported_tool_types : List String
codex_unsupported_tool_types =
    "file_search" ∷ "code_interpreter" ∷ "computer_use" ∷ "computer_use_preview" ∷ []

-- toolType, _ := tool["type"].(string)
abbrev pub type_of : Fields → String
type_of m = text_or_empty (at m "type")

-- the preview of the web search under its final name
unfoldable pub retyped : Fields → Fields
retyped m = if str_eq (type_of m) "web_search_preview" then put m "type" (text "web_search") else m

-- the loop of normalizeCodexTools
abbrev with_tool : Fields → Checked Items → Checked Items
with_tool tool others =
    if contains codex_unsupported_tool_types (type_of tool)
    then err (String.◌++◌ "unsupported tool type: " (type_of tool))
    else others >>= λ rest. ok (cons (object tool) rest)

unfoldable pub normalize_tools : Items → Checked Items
normalize_tools nil = ok nil
normalize_tools (cons (object m) rest) = with_tool (retyped m) (normalize_tools rest)
normalize_tools (cons tool rest) = normalize_tools rest >>= λ others. ok (cons tool others)

-- normalizeCodexTools
abbrev pub tools_of : Fields → Json → Checked Fields
tools_of payload null = ok payload
tools_of payload (array tools) =
    normalize_tools tools >>= λ renamed. ok (put payload "tools" (array renamed))
tools_of payload _ = err "responses request tools must be an array"

unfoldable pub normalize_codex_tools : Fields → Checked Fields
normalize_codex_tools payload = tools_of payload (at payload "tools")

-- normalizeCodexToolChoice
abbrev pub choice_of : Fields → Json → Fields
choice_of payload (object choice) = put payload "tool_choice" (object (retyped choice))
choice_of payload _ = payload

unfoldable pub normalize_codex_tool_choice : Fields → Fields
normalize_codex_tool_choice payload = choice_of payload (at payload "tool_choice")

-- sortCodexJSONValue
unfoldable mutual
  pub sort_codex_json_value : Json → Json
  sort_codex_json_value null = null
  sort_codex_json_value (bool b) = bool b
  sort_codex_json_value (number n) = number n
  sort_codex_json_value (text s) = text s
  sort_codex_json_value (array xs) = array (sort_items xs)
  sort_codex_json_value (object m) = object (sort_fields m)

  pub sort_items : Items → Items
  sort_items nil = nil
  sort_items (cons x xs) = cons (sort_codex_json_value x) (sort_items xs)

  pub sort_fields : Fields → Fields
  sort_fields done = done
  sort_fields (entry k v m) = entry k (sort_codex_json_value v) (sort_fields m)

-- codexToolSortKey
abbrev pub function_name : Json → String
function_name (object f) = text_or_empty (at f "name")
function_name _ = ""

abbrev pub own_name : Fields → Json → String
own_name tool (text name) = name
own_name tool _ = function_name (at tool "function")

abbrev pub codex_tool_sort_key : Json → String
codex_tool_sort_key (object tool) = own_name tool (at tool "name")
codex_tool_sort_key _ = ""

abbrev pub tool_before : Json → Json → Bool
tool_before a b = text_before (codex_tool_sort_key a) (codex_tool_sort_key b)

-- sort.SliceStable: the one order by key that keeps tools of one key as they stand
unfoldable pub insert_tool : Json → Items → Items
insert_tool x nil = cons x nil
insert_tool x (cons y ys) =
    let later = insert_tool x ys in if tool_before y x then cons y later else cons x (cons y ys)

unfoldable pub slice_stable : Items → Items
slice_stable nil = nil
slice_stable (cons x xs) = insert_tool x (slice_stable xs)

-- canonicalizeCodexTools
abbrev pub canonical_of : Fields → Json → Fields
canonical_of payload (array (cons x xs)) =
    put payload "tools" (array (slice_stable (sort_items (cons x xs))))
canonical_of payload _ = payload

unfoldable pub canonicalize_codex_tools : Fields → Fields
canonicalize_codex_tools payload = canonical_of payload (at payload "tools")

-- stripCodexUnsupportedUpstreamFields
abbrev pub codex_unsupported_upstream_fields : List String
codex_unsupported_upstream_fields =
    "max_output_tokens" ∷ "prompt_cache_retention" ∷ "safety_identifier" ∷ "temperature" ∷ []

unfoldable pub delete_all : Fields → List String → Fields
delete_all payload [] = payload
delete_all payload (key ∷ keys) = delete_all (delete payload key) keys

unfoldable pub strip_codex_unsupported_upstream_fields : Fields → Fields
strip_codex_unsupported_upstream_fields payload =
    delete_all (canonicalize_codex_tools payload) codex_unsupported_upstream_fields
