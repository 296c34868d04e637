-- ===== src/Gateway/Registry.antt =====
-- internal/provider/bridge.go: bridges, and the registry that finds one by operation and credential.
pub mod Laws
use one_llm_router.Prelude.{
  String, Bool, true, false, ◌&&◌, Option, none, some, List, [], ◌∷◌, str_eq, is_some,
  if◌then◌else◌,
}

-- CredentialClass
pub data Credential : Type 0 where
  api_key oauth : Credential

abbrev pub eq_credential : Credential → Credential → Bool
eq_credential api_key api_key = true
eq_credential oauth oauth = true
eq_credential api_key oauth = false
eq_credential oauth api_key = false

-- The values that the methods of an OperationBridge return, and the path of its upstream.
pub record OperationBridge : Type 0 where
  pub id : String
  pub op_id : String
  pub credential : Credential
  pub client_contract : String
  pub upstream_contract : String
  pub upstream_path : String
  pub adapter_kind : String

abbrev pub has_key : String → Credential → OperationBridge → Bool
has_key op_id credential b = str_eq b.op_id op_id && eq_credential b.credential credential

-- Resolve: the map's entry for the key
unfoldable pub resolve : List OperationBridge → String → Credential → Option OperationBridge
resolve [] op_id credential = none
resolve (b ∷ registry) op_id credential =
    if has_key op_id credential b then some b else resolve registry op_id credential

-- the loop of NewBridgeRegistry; `none` is its panic on a second bridge for one key
unfoldable pub register :
    List OperationBridge → List OperationBridge → Option (List OperationBridge)
register registry [] = some registry
register registry (b ∷ bridges) =
    let rest = register (b ∷ registry) bridges in
    if is_some (resolve registry b.op_id b.credential) then none else rest

-- NewBridgeRegistry, of bridges that are not nil
unfoldable pub new_bridge_registry : List OperationBridge → Option (List OperationBridge)
unfolding register
new_bridge_registry bridges = register [] bridges
