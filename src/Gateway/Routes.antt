-- ===== src/Gateway/Routes.antt =====
-- internal/api/proxy_routes.go: the route of a request.
use one_llm_router.Prelude.{
  ℕ, String, Bool, true, false, ◌&&◌, Option, none, some, str_eq, if◌then◌else◌,
}
use one_llm_router.Gateway.Names
use one_llm_router.Gateway.Paths.{blocked_gateway_pattern}

-- gatewayRouteKind; `no_kind` is the empty text of a zero value
pub data RouteKind : Type 0 where
  no_kind supported platform_direct codex_mapping chat_adapter models_facade unsupported blocked :
      RouteKind

pub data BodyPolicy : Type 0 where
  json_capture_allowed capture_disabled websocket_no_body : BodyPolicy

pub data ResponseMode : Type 0 where
  json websocket : ResponseMode

pub record CredentialRoute : Type 0 where
  pub eligible : Bool
  pub kind : RouteKind
  pub upstream_path : String

pub record GatewayRoute : Type 0 where
  pub kind : RouteKind
  pub pattern : String
  pub op_id : String
  pub response_mode : ResponseMode
  pub body_policy : BodyPolicy
  pub api_key : CredentialRoute
  pub oauth : CredentialRoute
  pub status_code : ℕ
  pub error_code : String

abbrev no_credential : CredentialRoute
no_credential = record { eligible = false; kind = no_kind; upstream_path = "" }

-- supportedGatewayRoute
abbrev supported_route : String → String → ResponseMode → BodyPolicy → GatewayRoute
supported_route op_id pattern response_mode body_policy = record {
  kind = supported;
  pattern = pattern;
  op_id = op_id;
  response_mode = response_mode;
  body_policy = body_policy;
  api_key = no_credential;
  oauth = no_credential;
  status_code = 0;
  error_code = "";
}

-- platformDirectRoute
abbrev pub platform_direct_route : String → String → GatewayRoute
platform_direct_route op_id pattern =
    record (supported_route op_id pattern ResponseMode.json json_capture_allowed) {
      api_key = record { eligible = true; kind = platform_direct; upstream_path = pattern };
    }

abbrev with_oauth : GatewayRoute → RouteKind → String → GatewayRoute
with_oauth route kind upstream_path = record route {
  oauth = record { eligible = true; kind = kind; upstream_path = upstream_path };
}

-- platformAndOAuthCodexRoute
abbrev pub platform_and_oauth_codex_route : String → String → String → GatewayRoute
platform_and_oauth_codex_route op_id pattern upstream_path =
    with_oauth (platform_direct_route op_id pattern) codex_mapping upstream_path

-- oauthCodexRoute
abbrev pub oauth_codex_route : String → String → ResponseMode → BodyPolicy → String → GatewayRoute
oauth_codex_route op_id pattern response_mode body_policy upstream_path =
    with_oauth (supported_route op_id pattern response_mode body_policy) codex_mapping upstream_path

-- unsupportedGatewayRoute
abbrev pub unsupported_route : String → GatewayRoute
unsupported_route pattern = record {
  kind = unsupported;
  pattern = pattern;
  op_id = "";
  response_mode = ResponseMode.json;
  body_policy = capture_disabled;
  api_key = no_credential;
  oauth = no_credential;
  status_code = 404;
  error_code = "unsupported_endpoint";
}

-- blockedGatewayRoute
abbrev pub blocked_route : String → GatewayRoute
blocked_route path = record {
  kind = blocked;
  pattern = blocked_gateway_pattern path;
  op_id = "";
  response_mode = ResponseMode.json;
  body_policy = capture_disabled;
  api_key = no_credential;
  oauth = no_credential;
  status_code = 403;
  error_code = "blocked_endpoint";
}

abbrev pub when : Bool → GatewayRoute → Option GatewayRoute
when true route = some route
when false route = none

-- the case of "/v1/chat/completions"
unfoldable pub chat_completions_route : String → String → Option GatewayRoute
chat_completions_route method path =
    if str_eq method "POST"
    then some (
        with_oauth (platform_direct_route Names.op_openai_chat_completions_create path) chat_adapter
          "/codex/responses")
    else when (str_eq method "GET")
        (platform_direct_route Names.op_openai_chat_completions_list path)

-- the switch on the path; `none` where it falls through
unfoldable pub static_route : String → String → Option GatewayRoute
unfolding chat_completions_route
static_route method path =
    if str_eq path "/v1/systemone"
    then when (str_eq method "POST") (platform_direct_route Names.op_systemone_create path)
    else if str_eq path "/v1/responses"
    then when (str_eq method "POST")
        (platform_and_oauth_codex_route Names.op_openai_responses_create path "/codex/responses")
    else if str_eq path "/v1/responses/input_tokens"
    then when (str_eq method "POST")
        (platform_direct_route Names.op_openai_responses_input_tokens path)
    else if str_eq path "/v1/responses/compact"
    then when (str_eq method "POST") (
        platform_and_oauth_codex_route Names.op_openai_responses_compact path
          "/codex/responses/compact")
    else if str_eq path "/v1/conversations"
    then when (str_eq method "POST")
        (platform_direct_route Names.op_openai_conversations_create path)
    else if str_eq path "/v1/chat/completions"
    then chat_completions_route method path
    else if str_eq path "/v1/models"
    then when (str_eq method "GET") (
        with_oauth (platform_direct_route Names.op_openai_models_list path) models_facade
          "/codex/models")
    else if str_eq path "/backend-api/codex/responses"
    then when (str_eq method "POST") (
        oauth_codex_route Names.op_codex_native_responses_create path ResponseMode.json
          json_capture_allowed "/codex/responses")
    else if str_eq path "/backend-api/codex/responses/compact"
    then when (str_eq method "POST") (
        oauth_codex_route Names.op_codex_native_responses_compact path ResponseMode.json
          json_capture_allowed "/codex/responses/compact")
    else if str_eq path "/backend-api/codex/models"
    then when (str_eq method "GET") (
        oauth_codex_route Names.op_codex_native_models_list path ResponseMode.json
          json_capture_allowed "/codex/models")
    else if str_eq path "/backend-api/transcribe"
    then when (str_eq method "POST") (
        oauth_codex_route Names.op_codex_native_transcribe path ResponseMode.json capture_disabled
          "/transcribe")
    else none

-- the cases of a WebSocket upgrade
unfoldable pub websocket_route : String → String → Option GatewayRoute
websocket_route method path =
    if str_eq method "GET" && str_eq path "/v1/responses"
    then some (
        oauth_codex_route Names.op_openai_responses_websocket "/v1/responses" ResponseMode.websocket
          websocket_no_body "/codex/responses")
    else if str_eq method "GET" && str_eq path "/backend-api/codex/responses"
    then some (
        oauth_codex_route Names.op_codex_native_responses_websocket "/backend-api/codex/responses"
          ResponseMode.websocket websocket_no_body "/codex/responses")
    else none
