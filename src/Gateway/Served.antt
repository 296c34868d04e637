-- ===== src/Gateway/Served.antt =====
-- internal/api/proxy_routes.go: defaultGatewayBridgeRegistry, and a check of each entry of the route
-- table against it.
use one_llm_router.Prelude.{
  String, ◌≡◌, refl, Bool, true, false, not, ◌&&◌, ◌||◌, Option, none, some, List, [], ◌∷◌, ◌++◌,
  str_eq, is_some, if◌then◌else◌,
}
use one_llm_router.Gateway.Registry.{OperationBridge, api_key, oauth, resolve, new_bridge_registry}
use one_llm_router.Gateway.Bridges.{default_operation_bridges, systemone_bridge}
use one_llm_router.Gateway.Paths.{gateway_path_segments}
use one_llm_router.Gateway.Routes.{
  platform_direct_route, chat_completions_route, GatewayRoute, static_route, websocket_route, when,
}
use one_llm_router.Gateway.Classify.{
  responses_pattern, conversations_pattern, chat_pattern, models_pattern, Dynamic, dynamic_pattern,
  of_dynamic, or_dynamic, classify_supported, is_supported, select_gateway_bridge,
}

-- The bridges of defaultGatewayBridgeRegistry.
unfoldable pub gateway_bridges : List OperationBridge
unfolding default_operation_bridges
gateway_bridges = default_operation_bridges ++ systemone_bridge ∷ []

abbrev or_empty : Option (List OperationBridge) → List OperationBridge
or_empty none = []
or_empty (some registry) = registry

-- defaultGatewayBridgeRegistry
unfoldable pub default_registry : List OperationBridge
unfolding gateway_bridges new_bridge_registry resolve
default_registry = or_empty (new_bridge_registry gateway_bridges)

-- The table of bridges names no operation twice for one credential, so that building the registry
-- does not panic.
pub default_registry_built : new_bridge_registry gateway_bridges ≡ some default_registry
unfolding default_registry
default_registry_built = refl

-- The bridge that is found names the path, which is not empty.
abbrev pub leads_to : String → Option OperationBridge → Bool
leads_to path none = false
leads_to path (some b) = str_eq b.upstream_path path && not (str_eq path "")

-- A supported route that some credential may take has a bridge for each credential that may take
-- it, and the bridge of an OAuth account leads to the upstream path that the route names.
unfoldable pub served : GatewayRoute → Bool
unfolding default_registry select_gateway_bridge resolve
served route =
    is_supported route.kind
    && (route.api_key.eligible || route.oauth.eligible)
    && (not route.api_key.eligible
        || is_some (select_gateway_bridge default_registry route api_key))
    && (not route.oauth.eligible
        || leads_to route.oauth.upstream_path (select_gateway_bridge default_registry route oauth))

abbrev pub all_served : Option GatewayRoute → Bool
all_served none = true
all_served (some route) = served route

pub record Served (o : Option GatewayRoute) : Type 0 where
  pub checked : all_served o ≡ true

Served-none : Served none
Served-none = record { checked = refl }

Served-some : (route : GatewayRoute) → served route ≡ true → Served (some route)
Served-some route p = record { checked = p }

Served-if :
    (b : Bool) {x y : Option GatewayRoute} → Served x → Served y → Served (if b then x else y)
Served-if true p q = p
Served-if false p q = q

Served-when : (b : Bool) (route : GatewayRoute) → served route ≡ true → Served (when b route)
Served-when true route p = Served-some route p
Served-when false route p = Served-none

static_route-Served : (method path : String) → Served (static_route method path)
unfolding static_route served chat_completions_route
static_route-Served method path = search (Served-if, Served-when, Served-some, Served-none) depth 40

websocket_route-Served : (method path : String) → Served (websocket_route method path)
unfolding websocket_route served
websocket_route-Served method path = search (Served-if, Served-some, Served-none)

record ServedDynamic (d : Dynamic) : Type 0 where
  checked : all_served (of_dynamic d) ≡ true

ServedDynamic-none : ServedDynamic none
ServedDynamic-none = record { checked = refl }

ServedDynamic-some :
    (pattern op_id : String)
    → served (platform_direct_route op_id pattern) ≡ true
    → ServedDynamic (some (pattern, op_id))
ServedDynamic-some pattern op_id p = record { checked = p }

ServedDynamic-if :
    (b : Bool) {x y : Dynamic}
    → ServedDynamic x
    → ServedDynamic y
    → ServedDynamic (if b then x else y)
ServedDynamic-if true p q = p
ServedDynamic-if false p q = q

responses_pattern-Served :
    (method : String) (xs : List String) → ServedDynamic (responses_pattern method xs)
unfolding responses_pattern served
responses_pattern-Served method [] = ServedDynamic-none
responses_pattern-Served method (id ∷ []) =
    search (ServedDynamic-if, ServedDynamic-some, ServedDynamic-none)
responses_pattern-Served method (id ∷ action ∷ []) =
    search (ServedDynamic-if, ServedDynamic-some, ServedDynamic-none)
responses_pattern-Served method (id ∷ action ∷ more ∷ rest) = ServedDynamic-none

conversations_pattern-Served :
    (method : String) (xs : List String) → ServedDynamic (conversations_pattern method xs)
unfolding conversations_pattern served
conversations_pattern-Served method [] = ServedDynamic-none
conversations_pattern-Served method (id ∷ []) =
    search (ServedDynamic-if, ServedDynamic-some, ServedDynamic-none)
conversations_pattern-Served method (id ∷ items ∷ []) =
    search (ServedDynamic-if, ServedDynamic-some, ServedDynamic-none)
conversations_pattern-Served method (id ∷ items ∷ item_id ∷ []) =
    search (ServedDynamic-if, ServedDynamic-some, ServedDynamic-none)
conversations_pattern-Served method (id ∷ items ∷ item_id ∷ more ∷ rest) = ServedDynamic-none

chat_pattern-Served : (method : String) (xs : List String) → ServedDynamic (chat_pattern method xs)
unfolding chat_pattern served
chat_pattern-Served method [] = ServedDynamic-none
chat_pattern-Served method (completions ∷ []) = ServedDynamic-none
chat_pattern-Served method (completions ∷ id ∷ []) =
    search (ServedDynamic-if, ServedDynamic-some, ServedDynamic-none)
chat_pattern-Served method (completions ∷ id ∷ messages ∷ []) =
    search (ServedDynamic-if, ServedDynamic-some, ServedDynamic-none)
chat_pattern-Served method (completions ∷ id ∷ messages ∷ more ∷ rest) = ServedDynamic-none

models_pattern-Served :
    (method : String) (xs : List String) → ServedDynamic (models_pattern method xs)
unfolding models_pattern served
models_pattern-Served method [] = ServedDynamic-none
models_pattern-Served method (model ∷ []) =
    search (ServedDynamic-if, ServedDynamic-some, ServedDynamic-none)
models_pattern-Served method (model ∷ more ∷ rest) = ServedDynamic-none

dynamic_pattern-Served :
    (method : String) (xs : List String) → ServedDynamic (dynamic_pattern method xs)
unfolding dynamic_pattern
dynamic_pattern-Served method [] = ServedDynamic-none
dynamic_pattern-Served method (version ∷ []) = ServedDynamic-none
dynamic_pattern-Served method (version ∷ group ∷ []) = ServedDynamic-none
dynamic_pattern-Served method (version ∷ group ∷ third ∷ rest) =
    search
      (
        ServedDynamic-if, responses_pattern-Served, conversations_pattern-Served,
        chat_pattern-Served, models_pattern-Served, ServedDynamic-none,
      )
      depth 20

Served-of_dynamic : {d : Dynamic} → ServedDynamic d → Served (of_dynamic d)
Served-of_dynamic {d} p = record { checked = p.checked }

Served-or_dynamic :
    (o : Option GatewayRoute) {d : Dynamic} → Served o → ServedDynamic d → Served (or_dynamic o d)
Served-or_dynamic (some route) p q = p
Served-or_dynamic none p q = Served-of_dynamic q

pub classify_supported-Served :
    (method path : String) (websocket : Bool) → Served (classify_supported method path websocket)
unfolding classify_supported
classify_supported-Served method path true = websocket_route-Served method path
classify_supported-Served method path false =
    Served-or_dynamic _ (static_route-Served method path)
      (dynamic_pattern-Served method (gateway_path_segments path))
