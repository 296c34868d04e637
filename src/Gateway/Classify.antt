-- ===== src/Gateway/Classify.antt =====
-- internal/api/proxy_routes.go: paths with variable segments, and the classification of a request.
use one_llm_router.Prelude.{
  String, Bool, true, false, not, ◌&&◌, ◌||◌, Option, none, some, List, [], ◌∷◌, str_eq,
  if◌then◌else◌,
}
use one_llm_router.Gateway.Names
use one_llm_router.Gateway.Registry.{OperationBridge, Credential, resolve}
use one_llm_router.Gateway.Paths.{
  normalize_gateway_path, gateway_path_segments, is_blocked_gateway_path,
  unsupported_gateway_pattern,
}
use one_llm_router.Gateway.Routes.{
  GatewayRoute, RouteKind, static_route, websocket_route, platform_direct_route, unsupported_route,
  blocked_route,
}
use one_llm_router.Domain.Account.{UpstreamAccount, is_oauth}

-- What platformOnlyDynamicPattern returns: the pattern and the operation.
abbrev pub Dynamic : Type 0
Dynamic = Option (String × String)

abbrev pub on : String → String → String → String → Dynamic → Dynamic
on method verb pattern op_id otherwise =
    if str_eq method verb then some (pattern, op_id) else otherwise

unfoldable pub responses_pattern : String → List String → Dynamic
responses_pattern method (id ∷ []) =
    on method "GET" "/v1/responses/{response_id}" Names.op_openai_responses_retrieve
      (on method "DELETE" "/v1/responses/{response_id}" Names.op_openai_responses_delete none)
responses_pattern method (id ∷ action ∷ []) =
    if str_eq method "POST" && str_eq action "cancel"
    then some ("/v1/responses/{response_id}/cancel", Names.op_openai_responses_cancel)
    else if str_eq method "GET" && str_eq action "input_items"
    then some
        ("/v1/responses/{response_id}/input_items", Names.op_openai_responses_input_items_list)
    else none
responses_pattern method _ = none

unfoldable pub conversations_pattern : String → List String → Dynamic
conversations_pattern method (id ∷ []) =
    on method "GET" "/v1/conversations/{conversation_id}" Names.op_openai_conversations_retrieve (
      on method "POST" "/v1/conversations/{conversation_id}" Names.op_openai_conversations_update (
        on method "DELETE" "/v1/conversations/{conversation_id}"
          Names.op_openai_conversations_delete none))
conversations_pattern method (id ∷ items ∷ []) =
    if str_eq items "items"
    then on method "POST" "/v1/conversations/{conversation_id}/items"
        Names.op_openai_conversations_items_create
        (on method "GET" "/v1/conversations/{conversation_id}/items"
          Names.op_openai_conversations_items_list none)
    else none
conversations_pattern method (id ∷ items ∷ item_id ∷ []) =
    if str_eq items "items"
    then on method "GET" "/v1/conversations/{conversation_id}/items/{item_id}"
        Names.op_openai_conversations_items_retrieve
        (on method "DELETE" "/v1/conversations/{conversation_id}/items/{item_id}"
          Names.op_openai_conversations_items_delete none)
    else none
conversations_pattern method _ = none

unfoldable pub chat_pattern : String → List String → Dynamic
chat_pattern method (completions ∷ id ∷ []) =
    if str_eq completions "completions"
    then on method "GET" "/v1/chat/completions/{completion_id}"
        Names.op_openai_chat_completions_retrieve
        (on method "POST" "/v1/chat/completions/{completion_id}"
          Names.op_openai_chat_completions_update
          (on method "DELETE" "/v1/chat/completions/{completion_id}"
            Names.op_openai_chat_completions_delete none))
    else none
chat_pattern method (completions ∷ id ∷ messages ∷ []) =
    if str_eq completions "completions" && str_eq method "GET" && str_eq messages "messages"
    then some (
      "/v1/chat/completions/{completion_id}/messages",
      Names.op_openai_chat_completions_messages_list,
    )
    else none
chat_pattern method _ = none

unfoldable pub models_pattern : String → List String → Dynamic
models_pattern method (model ∷ []) =
    on method "GET" "/v1/models/{model}" Names.op_openai_models_retrieve none
models_pattern method _ = none

-- platformOnlyDynamicPattern, on the segments of the path; fewer than three match nothing
unfoldable pub dynamic_pattern : String → List String → Dynamic
unfolding responses_pattern conversations_pattern chat_pattern models_pattern
dynamic_pattern method (version ∷ group ∷ third ∷ rest) =
    if not (str_eq version "v1")
    then none
    else if str_eq group "responses"
    then responses_pattern method (third ∷ rest)
    else if str_eq group "conversations"
    then conversations_pattern method (third ∷ rest)
    else if str_eq group "chat"
    then chat_pattern method (third ∷ rest)
    else if str_eq group "models"
    then models_pattern method (third ∷ rest)
    else none
dynamic_pattern method _ = none

abbrev pub of_dynamic : Dynamic → Option GatewayRoute
of_dynamic none = none
of_dynamic (some (pattern, op_id)) = some (platform_direct_route op_id pattern)

abbrev pub or_dynamic : Option GatewayRoute → Dynamic → Option GatewayRoute
or_dynamic (some route) d = some route
or_dynamic none d = of_dynamic d

-- classifySupportedGatewayRoute
unfoldable pub classify_supported : String → String → Bool → Option GatewayRoute
classify_supported method path true = websocket_route method path
classify_supported method path false =
    or_dynamic (static_route method path) (dynamic_pattern method (gateway_path_segments path))

abbrev pub or_unsupported : Option GatewayRoute → String → GatewayRoute
or_unsupported (some route) pattern = route
or_unsupported none pattern = unsupported_route pattern

-- classifyGatewayRoute
unfoldable pub classify_gateway_route : String → String → Bool → GatewayRoute
classify_gateway_route method raw_path websocket =
    let path = normalize_gateway_path raw_path in
    if is_blocked_gateway_path path
    then blocked_route path
    else or_unsupported (classify_supported method path websocket)
        (unsupported_gateway_pattern method path websocket)

abbrev pub is_supported : RouteKind → Bool
is_supported RouteKind.supported = true
is_supported RouteKind.no_kind = false
is_supported RouteKind.platform_direct = false
is_supported RouteKind.codex_mapping = false
is_supported RouteKind.chat_adapter = false
is_supported RouteKind.models_facade = false
is_supported RouteKind.unsupported = false
is_supported RouteKind.blocked = false

abbrev pub eligible_for : GatewayRoute → Credential → Bool
eligible_for route Credential.api_key = route.api_key.eligible
eligible_for route Credential.oauth = route.oauth.eligible

-- selectGatewayBridgeFromRegistry
unfoldable pub select_gateway_bridge :
    List OperationBridge → GatewayRoute → Credential → Option OperationBridge
select_gateway_bridge registry route credential =
    if not (is_supported route.kind) || str_eq route.op_id ""
    then none
    else if not (eligible_for route credential)
    then none
    else resolve registry route.op_id credential

-- credentialClassForAccount
unfoldable pub credential_class : UpstreamAccount → Credential
credential_class a = if is_oauth a then Credential.oauth else Credential.api_key
