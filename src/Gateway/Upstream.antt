-- ===== src/Gateway/Upstream.antt =====
-- internal/provider/openai/bridge.go: where a bridge sends a request, and what it asks of the body.
use Prim.Native.String
use one_llm_router.Prelude.{
  String, ◌≡◌, Bool, true, false, not, ◌&&◌, ◌||◌, List, [], ◌∷◌, str_eq, has_prefix, if◌then◌else◌,
  arith, eq_iff, ◌≢◌,
}
use one_llm_router.Prelude.Int.{ℤ, pos, eq_ℤ}
use one_llm_router.Gateway.Names.{
  adapter_openai_responses_json, adapter_openai_models_list, adapter_chat_completions_json,
  adapter_chat_completions_sse, adapter_websocket_relay,
}
use one_llm_router.Gateway.Registry.{OperationBridge, Credential, api_key, oauth}
use one_llm_router.Gateway.Paths.{trim_right_slashes}

-- The fields of a ClientRequest that these methods read: whether RawBody has a byte, and whether
-- Body is there.
pub record ClientRequest : Type 0 where
  pub path : String
  pub raw_query : String
  pub has_raw_body : Bool
  pub has_body : Bool
  pub content_length : ℤ

-- path[3:] of a path that begins with three ASCII characters
abbrev pub from_fourth : String → String
from_fourth (String.◌∷◌ a (String.◌∷◌ b (String.◌∷◌ c rest))) = rest
from_fourth _ = ""

-- stripV1Prefix
unfoldable pub strip_v1_prefix : String → String
strip_v1_prefix path =
    if has_prefix path "/v1/" then from_fourth path else if str_eq path "/v1" then "/" else path

-- resolvedUpstreamPath
unfoldable pub resolved_upstream_path : OperationBridge → ClientRequest → String
resolved_upstream_path b req =
    if not (str_eq b.upstream_path "") then b.upstream_path else strip_v1_prefix req.path

abbrev pub is_oauth_credential : Credential → Bool
is_oauth_credential oauth = true
is_oauth_credential api_key = false

-- strings.Join(q, "&")
abbrev pub join_query : List String → String
join_query [] = ""
join_query (q ∷ []) = q
join_query (q ∷ r ∷ rest) = String.◌++◌ q (String.◌++◌ "&" (join_query (r ∷ rest)))

abbrev pub with_query : String → List String → String
with_query target [] = target
with_query target (q ∷ qs) = String.◌++◌ target (String.◌++◌ "?" (join_query (q ∷ qs)))

abbrev pub query_of : String → List String → List String
query_of raw rest = if not (str_eq raw "") then raw ∷ rest else rest

-- requiresIdentityAcceptEncoding
unfoldable pub requires_identity_accept_encoding : OperationBridge → ClientRequest → Bool
requires_identity_accept_encoding b req =
    str_eq (resolved_upstream_path b req) "/codex/responses"
    || str_eq (resolved_upstream_path b req) "/codex/responses/compact"
    || str_eq b.adapter_kind adapter_openai_responses_json
    || str_eq b.adapter_kind adapter_openai_models_list
    || str_eq b.adapter_kind adapter_chat_completions_json
    || str_eq b.adapter_kind adapter_chat_completions_sse

-- hasJSONUpstreamBody
unfoldable pub has_json_upstream_body : OperationBridge → ClientRequest → Bool
has_json_upstream_body b req =
    not (str_eq b.adapter_kind adapter_websocket_relay)
    && (req.has_raw_body || (req.has_body && not (eq_ℤ req.content_length (pos 0))))

abbrev pub chatgpt_backend_base_url : String
chatgpt_backend_base_url = "https://chatgpt.com/backend-api"

abbrev pub codex_client_version : String
codex_client_version = "0.160.0"

abbrev pub version_query : Credential → List String
version_query oauth = String.◌++◌ "client_version=" codex_client_version ∷ []
version_query api_key = []

-- the target of upstreamURL, over a base URL that is not empty
abbrev pub url_from : OperationBridge → ClientRequest → String → String
url_from b req base_url =
    with_query (String.◌++◌ (trim_right_slashes base_url) (resolved_upstream_path b req))
      (query_of req.raw_query (version_query b.credential))

-- upstreamURL
unfoldable pub upstream_url : OperationBridge → ClientRequest → String → String
upstream_url b req base_url =
    if str_eq base_url ""
    then (if is_oauth_credential b.credential then url_from b req chatgpt_backend_base_url else "")
    else url_from b req base_url

-- A bridge that names an upstream path uses it, whatever path the client asked for.
pub resolved_upstream_path_lem :
    (b : OperationBridge) (req : ClientRequest)
    → b.upstream_path ≢ ""
    → resolved_upstream_path b req ≡ b.upstream_path
unfolding resolved_upstream_path
resolved_upstream_path_lem b req named = ground (arith, eq_iff b.upstream_path "")
