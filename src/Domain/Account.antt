-- ===== src/Domain/Account.antt =====
-- internal/domain/account.go: the credential row and its derived facts.
use one_llm_router.Prelude.{
  ℕ, String, Bool, true, false, not, ◌&&◌, Option, none, some, List, [], ◌∷◌, str_eq, contains,
  if◌then◌else◌,
}
use one_llm_router.Prelude.Int.{ℤ}

-- The named values of the `status` column; `other` is any further text.
pub data Status : Type 0 where
  active disabled deleted : Status
  other : String → Status

pub data AuthMethod : Type 0 where
  api_key oauth_browser oauth_device oauth_import : AuthMethod
  unknown : String → AuthMethod

-- A `[]byte` field: `none` is the nil slice, which differs from an empty one.
abbrev pub Bytes : Type 0
Bytes = Option (List ℕ)

-- len(b)
abbrev pub bytes_empty : Bytes → Bool
bytes_empty none = true
bytes_empty (some []) = true
bytes_empty (some (x ∷ xs)) = false

-- Instants are nanoseconds; a float is its bit pattern, which nothing here inspects.
pub record UpstreamAccount : Type 0 where
  pub id : ℤ
  pub name : String
  pub provider : String
  pub api_key : String
  pub base_url : Option String
  pub status : Status
  pub created_at : ℕ
  pub updated_at : ℕ
  pub auth_method : AuthMethod
  pub access_token : Bytes
  pub refresh_token : Bytes
  pub id_token : Bytes
  pub last_refresh : Option ℕ
  pub access_expires_at : Option ℕ
  pub email : Option String
  pub plan_type : Option String
  pub chatgpt_account_id : Option String
  pub use_proxy : Bool
  pub capabilities : List String
  pub primary_used_percent : Option ℕ
  pub secondary_used_percent : Option ℕ
  pub usage_updated_at : Option ℕ
  pub primary_reset_at : Option ℕ
  pub secondary_reset_at : Option ℕ
  pub primary_window_seconds : Option ℤ
  pub secondary_window_seconds : Option ℤ

-- IsOAuth
abbrev pub method_is_oauth : AuthMethod → Bool
method_is_oauth AuthMethod.oauth_browser = true
method_is_oauth AuthMethod.oauth_device = true
method_is_oauth AuthMethod.oauth_import = true
method_is_oauth AuthMethod.api_key = false
method_is_oauth (AuthMethod.unknown s) = false

unfoldable pub is_oauth : UpstreamAccount → Bool
is_oauth a = method_is_oauth a.auth_method

abbrev pub capability_system_one : String
capability_system_one = "op.systemone"

-- SystemOneOnly
unfoldable pub system_one_only : UpstreamAccount → Bool
unfolding is_oauth
system_one_only a =
    not (is_oauth a)
    && contains a.capabilities capability_system_one
    && not (contains a.capabilities "op.openai.chat_completions")
    && not (contains a.capabilities "op.openai.responses")

-- ProviderDefaultURLs
unfoldable pub provider_default_url : String → Option String
provider_default_url p =
    if str_eq p "openai"
    then some "https://api.openai.com/v1"
    else if str_eq p "anthropic"
    then some "https://api.anthropic.com/v1"
    else none

abbrev or_openai : Option String → String
or_openai (some u) = u
or_openai none = "https://api.openai.com/v1"

abbrev base_or_default : Option String → String → String
base_or_default none d = d
base_or_default (some u) d = if not (str_eq u "") then u else d

-- EffectiveBaseURL
unfoldable pub effective_base_url : UpstreamAccount → String
unfolding provider_default_url
effective_base_url a = base_or_default a.base_url (or_openai (provider_default_url a.provider))
