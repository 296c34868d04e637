-- ===== src/Gateway/Paths.antt =====
-- internal/api/proxy_routes.go: request paths, their segments, and the named families of paths.
use Prim.Native.Char.{Char, code}
use Prim.Native.String
use one_llm_router.Prelude.{
  String, Bool, ◌&&◌, ◌||◌, List, [], ◌∷◌, ◌==◌, str_eq, has_prefix, if◌then◌else◌,
}

-- normalizeGatewayPath
unfoldable pub normalize_gateway_path : String → String
normalize_gateway_path path = if str_eq path "" then "/" else path

-- strings.Trim(path, "/")
trim_left_slashes : String → String
trim_left_slashes String.[] = ""
trim_left_slashes (String.◌∷◌ c s) =
    let rest = trim_left_slashes s in if code c == b'/' then rest else String.◌∷◌ c s

unfoldable pub trim_right_slashes : String → String
trim_right_slashes String.[] = ""
trim_right_slashes (String.◌∷◌ c s) =
    let rest = trim_right_slashes s in
    if (code c == b'/') && str_eq rest "" then "" else String.◌∷◌ c rest

-- strings.Split(path, "/")
abbrev extend : Char → List String → List String
extend c [] = String.◌∷◌ c "" ∷ []
extend c (segment ∷ segments) = String.◌∷◌ c segment ∷ segments

split_slash : String → List String
split_slash String.[] = "" ∷ []
split_slash (String.◌∷◌ c s) =
    let rest = split_slash s in if code c == b'/' then "" ∷ rest else extend c rest

abbrev segments_of : String → List String
segments_of trimmed = if str_eq trimmed "" then [] else split_slash trimmed

-- gatewayPathSegments
unfoldable pub gateway_path_segments : String → List String
unfolding trim_left_slashes trim_right_slashes split_slash
gateway_path_segments path = segments_of (trim_right_slashes (trim_left_slashes path))

-- isBlockedGatewayPath
unfoldable pub is_blocked_gateway_path : String → Bool
is_blocked_gateway_path path = has_prefix path "/v1/organization" || has_prefix path "/v1/projects/"

-- blockedGatewayPattern
unfoldable pub blocked_gateway_pattern : String → String
blocked_gateway_pattern path =
    if has_prefix path "/v1/organization"
    then "/v1/organization*"
    else if has_prefix path "/v1/projects/"
    then "/v1/projects/*"
    else path

-- `path == base || strings.HasPrefix(path, base+"/")`
abbrev under : String → String → Bool
under path base = str_eq path base || has_prefix path (String.◌++◌ base "/")

-- unsupportedGatewayPattern
unfoldable pub unsupported_gateway_pattern : String → String → Bool → String
unsupported_gateway_pattern method path websocket =
    if has_prefix path "/v1/audio/"
    then "/v1/audio/*"
    else if under path "/v1/embeddings"
    then "/v1/embeddings"
    else if under path "/v1/moderations"
    then "/v1/moderations"
    else if has_prefix path "/v1/images/"
    then "/v1/images/*"
    else if under path "/v1/videos"
    then "/v1/videos*"
    else if under path "/v1/files"
    then "/v1/files*"
    else if under path "/v1/uploads"
    then "/v1/uploads*"
    else if under path "/v1/vector_stores"
    then "/v1/vector_stores*"
    else if under path "/v1/batches"
    then "/v1/batches*"
    else if under path "/v1/fine_tuning"
    then "/v1/fine_tuning*"
    else if under path "/v1/evals"
    then "/v1/evals*"
    else if under path "/v1/realtime" || (websocket && has_prefix path "/v1/realtime")
    then "/v1/realtime*"
    else if under path "/v1/assistants"
    then "/v1/assistants*"
    else if under path "/v1/threads"
    then "/v1/threads*"
    else if str_eq path "/v1/completions"
    then "/v1/completions"
    else if under path "/v1/chatkit"
    then "/v1/chatkit*"
    else if under path "/v1/containers"
    then "/v1/containers*"
    else if under path "/v1/skills"
    then "/v1/skills*"
    else if str_eq method "DELETE" && has_prefix path "/v1/models/"
    then "/v1/models/{model}"
    else if str_eq path "/backend-api"
    then "/backend-api"
    else if has_prefix path "/backend-api/"
    then "/backend-api/*"
    else if has_prefix path "/v1/"
    then "/v1/*"
    else path
