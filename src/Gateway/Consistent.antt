-- ===== src/Gateway/Consistent.antt =====
-- internal/api/proxy_routes.go against internal/provider/openai/bridge.go: what a classified request
-- may rely on.
use one_llm_router.Prelude.{
  String, ◌≡◌, refl, Bool, true, not, ◌&&◌, ◌||◌, Option, none, some, List, arith, ◌⊎◌, inl, inr,
  Bool-cases, is_some, eq_iff,
}
use one_llm_router.Gateway.Registry.{OperationBridge, Credential, api_key, oauth}
use one_llm_router.Gateway.Upstream.{ClientRequest, resolved_upstream_path}
use one_llm_router.Gateway.Paths.{normalize_gateway_path, is_blocked_gateway_path}
use one_llm_router.Gateway.Routes.{blocked_route, GatewayRoute}
use one_llm_router.Gateway.Classify.{
  classify_gateway_route, eligible_for, select_gateway_bridge, or_unsupported,
}
use one_llm_router.Gateway.Served.{
  default_registry, leads_to, served, Served, classify_supported-Served,
}

-- What a client that is let through may rely on.
pub record IsRouted (route : GatewayRoute) : Type 0 where
  pub someone : eligible_for route api_key ≡ true ⊎ eligible_for route oauth ≡ true
  pub bridge :
      (credential : Credential)
      → eligible_for route credential ≡ true
      → (b : OperationBridge) × select_gateway_bridge default_registry route credential ≡ some b
  pub oauth_path :
      (b : OperationBridge) (req : ClientRequest)
      → select_gateway_bridge default_registry route oauth ≡ some b
      → resolved_upstream_path b req ≡ route.oauth.upstream_path

-- What a client that is turned away may rely on.
pub record IsRefused (route : GatewayRoute) : Type 0 where
  pub no_bridge :
      (credential : Credential) → select_gateway_bridge default_registry route credential ≡ none
  pub answer :
      (route.status_code ≡ 403 × route.error_code ≡ "blocked_endpoint")
      ⊎ (route.status_code ≡ 404 × route.error_code ≡ "unsupported_endpoint")

is_some-witness : {A : Type 0} (o : Option A) → is_some o ≡ true → (a : A) × o ≡ some a
is_some-witness none p = ground arith
is_some-witness (some a) p = (a, refl)

leads_to-is_some :
    (path : String) (o : Option OperationBridge) → leads_to path o ≡ true → is_some o ≡ true
leads_to-is_some path none p = p
leads_to-is_some path (some a) p = refl

leads_to-path :
    (path : String) (o : Option OperationBridge)
    → leads_to path o ≡ true
    → (b : OperationBridge) (req : ClientRequest) → o ≡ some b
    → resolved_upstream_path b req ≡ path
unfolding resolved_upstream_path
leads_to-path path none p b req q = ground arith
leads_to-path path (some a) p b req q =
    ground (arith, eq_iff a.upstream_path path, eq_iff a.upstream_path "", eq_iff path "")

every_part :
    (a b c d e : Bool)
    → (a && (b || c) && (not b || d) && (not c || e)) ≡ true
    → (b ≡ true ⊎ c ≡ true) × (b ≡ true → d ≡ true) × (c ≡ true → e ≡ true)
every_part a b c d e p = (ground arith, λ q. ground arith, λ q. ground arith)

-- A bridge is selected only for a credential that may take the route.
select_gateway_bridge-eligible :
    (registry : List OperationBridge) (route : GatewayRoute) (c : Credential) (b : OperationBridge)
    → select_gateway_bridge registry route c ≡ some b
    → eligible_for route c ≡ true
unfolding select_gateway_bridge
select_gateway_bridge-eligible registry route c b p = ground arith

bridge_of :
    (route : GatewayRoute)
    → (route.api_key.eligible ≡ true
        → is_some (select_gateway_bridge default_registry route api_key) ≡ true)
    → (route.oauth.eligible ≡ true
        → leads_to route.oauth.upstream_path (select_gateway_bridge default_registry route oauth)
          ≡ true)
    → (c : Credential) → eligible_for route c ≡ true
    → (b : OperationBridge) × select_gateway_bridge default_registry route c ≡ some b
bridge_of route key login Credential.api_key e = is_some-witness _ (key e)
bridge_of route key login Credential.oauth e = is_some-witness _ (leads_to-is_some _ _ (login e))

served-IsRouted : (route : GatewayRoute) → served route ≡ true → IsRouted route
unfolding served
served-IsRouted route p =
    let (someone, key, login) = every_part _ _ _ _ _ p in
    record {
      someone = someone;
      bridge = bridge_of route key login;
      oauth_path = λ b req q.
          leads_to-path _ _
            (login (select_gateway_bridge-eligible default_registry route oauth b q)) b req q;
    }

Served-IsRouted : (route : GatewayRoute) → Served (some route) → IsRouted route
Served-IsRouted route p = served-IsRouted route p.checked

or_unsupported_lem :
    (o : Option GatewayRoute) (pattern : String)
    → Served o
    → IsRouted (or_unsupported o pattern) ⊎ IsRefused (or_unsupported o pattern)
unfolding select_gateway_bridge
or_unsupported_lem none pattern p = inr record { no_bridge = λ c. refl; answer = inr (refl, refl) }
or_unsupported_lem (some route) pattern p = inl (Served-IsRouted route p)

blocked_route-IsRefused : (path : String) → IsRefused (blocked_route path)
unfolding select_gateway_bridge
blocked_route-IsRefused path = record { no_bridge = λ c. refl; answer = inl (refl, refl) }

-- Every request gets either a route that some credential may take, that has a bridge for each
-- credential that may take it and whose OAuth bridge leads to the upstream path of the route, or an
-- answer of 403 blocked_endpoint or 404 unsupported_endpoint, and then no bridge for any credential.
pub classify_gateway_route_lem :
    (method raw_path : String) (websocket : Bool)
    → IsRouted (classify_gateway_route method raw_path websocket)
      ⊎ IsRefused (classify_gateway_route method raw_path websocket)
unfolding classify_gateway_route
classify_gateway_route_lem method raw_path websocket =
    elim (Bool-cases (is_blocked_gateway_path (normalize_gateway_path raw_path))) [
      | inl t ↦ rw t (inr (blocked_route-IsRefused _))
      | inr f ↦ rw f (
          or_unsupported_lem _ _
            (classify_supported-Served method (normalize_gateway_path raw_path) websocket))
    ]
