-- ===== src/Witnesses/Gateways.antt =====
-- Requests and registries.
use one_llm_router.Prelude.{◌≡◌, ◌⊎◌, ◌↔◌, false, some, In}
use one_llm_router.Gateway.Registry.{Credential, resolve}
use one_llm_router.Gateway.Bridges.{systemone_bridge}
use one_llm_router.Gateway.Classify.{classify_gateway_route}
use one_llm_router.Gateway.Served.{gateway_bridges, default_registry, default_registry_built}
use one_llm_router.Gateway.Consistent.{IsRouted, IsRefused, classify_gateway_route_lem}
use one_llm_router.Gateway.Registry.Laws.{resolve_iff_In}

classify_gateway_route_lem_example :
    IsRouted (classify_gateway_route "POST" "/v1/responses" false)
    ⊎ IsRefused (classify_gateway_route "POST" "/v1/responses" false)
classify_gateway_route_lem_example = classify_gateway_route_lem "POST" "/v1/responses" false

resolve_iff_In_example :
    (resolve default_registry "op.systemone.create" Credential.api_key ≡ some systemone_bridge) ↔ (
      In systemone_bridge gateway_bridges
      × (systemone_bridge.op_id ≡ "op.systemone.create")
      × (systemone_bridge.credential ≡ Credential.api_key))
resolve_iff_In_example =
    resolve_iff_In gateway_bridges default_registry "op.systemone.create" Credential.api_key
      systemone_bridge default_registry_built
