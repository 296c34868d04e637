-- ===== src/Domain/Shape.antt =====
-- internal/domain/account.go: Validate and the two shapes of a row, with the offending fields
-- listed in the order in which the source appends them.
pub mod Laws
use one_llm_router.Prelude.{
  String, Bool, not, Option, none, some, List, [], ◌∷◌, ◌++◌, str_eq, contains, trim_space, is_some,
  is_none, if◌then◌else◌,
}
use one_llm_router.Domain.Account.{UpstreamAccount, AuthMethod, bytes_empty, capability_system_one}
use one_llm_router.Domain.BaseUrl.{Url, BaseUrlError, validate_base_url}
use one_llm_router.Domain.Capability.{governed_prefixes}

-- One line of the offender list: a field, or a capability that is not known.
pub data Offender : Type 0 where
  field : String → Offender
  unknown_capability : String → Offender

pub data ShapeError : Type 0 where
  unknown_auth_method : String → ShapeError
  base_url_required : ShapeError
  bad_base_url : BaseUrlError → ShapeError
  invalid_account_shape : AuthMethod → List Offender → ShapeError

-- `if test { offenders = append(offenders, text) }`, line after line
unfoldable pub collect : List (Bool × String) → List Offender
collect [] = []
collect ((bad, text) ∷ rows) = let rest = collect rows in if bad then field text ∷ rest else rest

-- the loop over a.Capabilities
unfoldable pub unknown_capabilities : List String → List Offender
unknown_capabilities [] = []
unknown_capabilities (c ∷ caps) =
    let rest = unknown_capabilities caps in
    if contains governed_prefixes c then rest else unknown_capability c ∷ rest

abbrev pub api_key_rows : UpstreamAccount → List (Bool × String)
api_key_rows a =
    (str_eq a.api_key "", "api_key=empty")
    ∷ (is_some a.access_token, "access_token=non-nil")
    ∷ (is_some a.refresh_token, "refresh_token=non-nil")
    ∷ (is_some a.id_token, "id_token=non-nil")
    ∷ (is_some a.last_refresh, "last_refresh=non-nil")
    ∷ (is_some a.access_expires_at, "access_expires_at=non-nil")
    ∷ (is_some a.email, "email=non-nil")
    ∷ (is_some a.plan_type, "plan_type=non-nil")
    ∷ (is_some a.chatgpt_account_id, "chatgpt_account_id=non-nil")
    ∷ []

abbrev pub usage_rows : UpstreamAccount → List (Bool × String)
usage_rows a =
    (is_some a.primary_used_percent, "primary_used_percent=non-nil")
    ∷ (is_some a.secondary_used_percent, "secondary_used_percent=non-nil")
    ∷ (is_some a.usage_updated_at, "usage_updated_at=non-nil")
    ∷ (is_some a.primary_reset_at, "primary_reset_at=non-nil")
    ∷ (is_some a.secondary_reset_at, "secondary_reset_at=non-nil")
    ∷ (is_some a.primary_window_seconds, "primary_window_seconds=non-nil")
    ∷ (is_some a.secondary_window_seconds, "secondary_window_seconds=non-nil")
    ∷ []

abbrev pub oauth_rows : UpstreamAccount → List (Bool × String)
oauth_rows a =
    (contains a.capabilities capability_system_one, "systemone requires api_key")
    ∷ (not (str_eq a.api_key ""), "api_key=non-empty")
    ∷ (bytes_empty a.access_token, "access_token=empty")
    ∷ (bytes_empty a.refresh_token, "refresh_token=empty")
    ∷ (bytes_empty a.id_token, "id_token=empty")
    ∷ (is_none a.last_refresh, "last_refresh=nil")
    ∷ (is_none a.access_expires_at, "access_expires_at=nil")
    ∷ []

-- `if len(offenders) == 0 { return nil }`
unfoldable pub verdict : AuthMethod → List Offender → Option ShapeError
verdict m [] = none
verdict m (o ∷ offenders) = some (invalid_account_shape m (o ∷ offenders))

-- validateOAuthShape
unfoldable pub validate_oauth_shape : UpstreamAccount → Option ShapeError
validate_oauth_shape a = verdict a.auth_method (collect (oauth_rows a))

module _ (parse_url : String → Option Url) where
  -- the base-URL block at the head of validateAPIKeyShape
  unfoldable pub system_one_base_url : Option String → Option ShapeError
  system_one_base_url none = some base_url_required
  system_one_base_url (some u) =
      if str_eq (trim_space u) ""
      then some base_url_required
      else elim (validate_base_url parse_url u) [ none ↦ none | some e ↦ some (bad_base_url e) ]

  -- validateAPIKeyShape
  unfoldable pub validate_api_key_shape : UpstreamAccount → Option ShapeError
  validate_api_key_shape a =
      let offenders =
        collect (api_key_rows a)
        ++ (unknown_capabilities a.capabilities ++ collect (usage_rows a)) in
      let rest = verdict AuthMethod.api_key offenders in
      elim (if contains a.capabilities capability_system_one
        then system_one_base_url a.base_url
        else none) [ some e ↦ some e | none ↦ rest ]

  unfoldable pub shape_of : AuthMethod → UpstreamAccount → Option ShapeError
  shape_of AuthMethod.api_key a = validate_api_key_shape a
  shape_of AuthMethod.oauth_browser a = validate_oauth_shape a
  shape_of AuthMethod.oauth_device a = validate_oauth_shape a
  shape_of AuthMethod.oauth_import a = validate_oauth_shape a
  shape_of (AuthMethod.unknown m) a = some (unknown_auth_method m)

  -- Validate, on a receiver that is not nil; `none` is a nil error
  unfoldable pub validate : UpstreamAccount → Option ShapeError
  unfolding shape_of
  validate a = shape_of a.auth_method a
