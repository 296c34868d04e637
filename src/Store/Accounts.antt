-- ===== src/Store/Accounts.antt =====
-- internal/store/accounts.go: the operations on the account table, over the engine. An operation
-- that fails leaves the table as it is; `parse_url` is net/url's.
pub mod Written
pub mod Locks
pub mod Shapes
pub mod Tables
pub mod Calls
pub mod Edits
pub mod Writes
use one_llm_router.Prelude.{
  ℕ, String, Bool, true, false, not, ◌&&◌, ◌||◌, Option, none, some, List, [], ◌∷◌, ◌==◌, str_eq,
  is_some, is_none, if◌then◌else◌,
}
use one_llm_router.Prelude.Int.{ℤ, eq_ℤ}
use one_llm_router.Prelude.Result.{Result, ok, err, ◌>>=◌, map_err}
use one_llm_router.Domain.Account.{
  UpstreamAccount, Status, AuthMethod, Bytes, bytes_empty, method_is_oauth,
}
use one_llm_router.Domain.BaseUrl.{Url}
use one_llm_router.Domain.Shape.{ShapeError, validate}
use one_llm_router.Store.Engine.{Engine, DbError, Where, Set, stamped}

pub data StoreError : Type 0 where
  account_not_found auth_method_mismatch conditional_update_conflict : StoreError
  malformed_patch : StoreError
  not_an_api_key_row : StoreError
  invalid_row : ShapeError → StoreError
  engine_failed : DbError → StoreError

pub record CredentialPatch : Type 0 where
  pub auth_method : AuthMethod
  pub api_key : String
  pub access_token : Bytes
  pub refresh_token : Bytes
  pub id_token : Bytes
  pub last_refresh : Option ℕ
  pub expected_last_refresh : Option ℕ
  pub access_expires_at : Option ℕ
  pub email : Option String
  pub plan_type : Option String
  pub chatgpt_account_id : Option String

abbrev pub is_deleted : Status → Bool
is_deleted Status.deleted = true
is_deleted Status.active = false
is_deleted Status.disabled = false
is_deleted (Status.other s) = false

abbrev pub is_active : Status → Bool
is_active Status.active = true
is_active Status.disabled = false
is_active Status.deleted = false
is_active (Status.other s) = false

-- the text of the auth_method column
abbrev pub method_text : AuthMethod → String
method_text AuthMethod.api_key = "api_key"
method_text AuthMethod.oauth_browser = "oauth_browser"
method_text AuthMethod.oauth_device = "oauth_device"
method_text AuthMethod.oauth_import = "oauth_import"
method_text (AuthMethod.unknown s) = s

-- a row written before the column had a value counts as an API key row
abbrev pub stored_method : AuthMethod → String
stored_method m = if str_eq (method_text m) "" then "api_key" else method_text m

-- the shape check at the head of UpdateCredentials; false is an error
abbrev pub patch_fits_key : CredentialPatch → Bool
patch_fits_key p =
    not (str_eq p.api_key "")
    && bytes_empty p.access_token
    && bytes_empty p.refresh_token
    && bytes_empty p.id_token
    && is_none p.last_refresh
    && is_none p.access_expires_at

abbrev pub patch_fits_oauth : CredentialPatch → Bool
patch_fits_oauth p =
    str_eq p.api_key ""
    && not (bytes_empty p.access_token)
    && not (bytes_empty p.refresh_token)
    && not (bytes_empty p.id_token)
    && is_some p.last_refresh
    && is_some p.access_expires_at

abbrev pub patch_fits : AuthMethod → CredentialPatch → Bool
patch_fits AuthMethod.api_key p = patch_fits_key p
patch_fits AuthMethod.oauth_browser p = patch_fits_oauth p
patch_fits AuthMethod.oauth_device p = patch_fits_oauth p
patch_fits AuthMethod.oauth_import p = patch_fits_oauth p
patch_fits (AuthMethod.unknown s) p = false

abbrev pub has_row_id : ℤ → Where
has_row_id id a = eq_ℤ a.id id

abbrev pub is_kept : ℤ → Where
is_kept id a = eq_ℤ a.id id && not (is_deleted a.status)

-- last_refresh = ?; a NULL is equal to nothing
abbrev pub was_refreshed_at : Option ℕ → ℕ → Bool
was_refreshed_at none t = false
was_refreshed_at (some r) t = r == t

abbrev pub matches_expected : (ℕ → ℕ) → Option ℕ → UpstreamAccount → Bool
matches_expected stamp none a = true
matches_expected stamp (some t) a = was_refreshed_at a.last_refresh (stamp t)

abbrev pub set_key : ℕ → CredentialPatch → Set
set_key now p a = record a { api_key = p.api_key; updated_at = now }

abbrev pub set_tokens : (ℕ → ℕ) → ℕ → CredentialPatch → Set
set_tokens stamp now p a = record a {
  access_token = p.access_token;
  refresh_token = p.refresh_token;
  id_token = p.id_token;
  last_refresh = stamped stamp p.last_refresh;
  access_expires_at = stamped stamp p.access_expires_at;
  email = p.email;
  plan_type = p.plan_type;
  chatgpt_account_id = p.chatgpt_account_id;
  updated_at = now;
}

abbrev pub credential_where : (ℕ → ℕ) → ℤ → CredentialPatch → Where
credential_where stamp id p a =
    if method_is_oauth p.auth_method
    then is_kept id a && matches_expected stamp p.expected_last_refresh a
    else is_kept id a

abbrev pub set_credentials : (ℕ → ℕ) → ℕ → CredentialPatch → Set
set_credentials stamp now p a =
    if method_is_oauth p.auth_method then set_tokens stamp now p a else set_key now p a

module _ {S : Type 0} (e : Engine S) where
  -- credentialUpdateMissReason
  abbrev pub miss_reason_of : Option UpstreamAccount → Bool → StoreError
  miss_reason_of none conditional = account_not_found
  miss_reason_of (some a) conditional =
      if is_deleted a.status
      then account_not_found
      else if conditional
      then conditional_update_conflict
      else account_not_found

  abbrev pub miss_reason : Result DbError (Option UpstreamAccount) → Bool → StoreError
  miss_reason (err d) conditional = engine_failed d
  miss_reason (ok o) conditional = miss_reason_of o conditional

  -- how an UPDATE ends that must match a row
  abbrev pub after_update : Result DbError (ℕ × S) → StoreError → Result StoreError S
  after_update (err d) missed = err (engine_failed d)
  after_update (ok (n, s)) missed = if n == 0 then err missed else ok s

  abbrev pub is_conditional : CredentialPatch → Bool
  is_conditional p = method_is_oauth p.auth_method && is_some p.expected_last_refresh

  abbrev pub update_existing :
      ℕ → ℤ → CredentialPatch → Option UpstreamAccount → S → Result StoreError S
  update_existing now id p none s = err account_not_found
  update_existing now id p (some a) s =
      if is_deleted a.status
      then err account_not_found
      else if not (str_eq (stored_method a.auth_method) (method_text p.auth_method))
      then err auth_method_mismatch
      else after_update (e.update (credential_where e.stamp id p) (set_credentials e.stamp now p) s)
          (miss_reason (e.find (has_row_id id) s) (is_conditional p))

  -- UpdateCredentials, at an instant that the engine takes for updated_at
  unfoldable pub update_credentials : ℕ → ℤ → CredentialPatch → S → Result StoreError S
  update_credentials now id p s =
      if not (patch_fits p.auth_method p)
      then err malformed_patch
      else map_err engine_failed (e.find (has_row_id id) s) >>= λ existing.
          update_existing now id p existing s

  abbrev pub conflict_or_missing : Result DbError (Option UpstreamAccount) → StoreError
  conflict_or_missing (err d) = engine_failed d
  conflict_or_missing (ok none) = account_not_found
  conflict_or_missing (ok (some a)) = conditional_update_conflict

  -- UpdateStatusIfCurrent
  unfoldable pub update_status_if_current : ℕ → ℤ → Status → ℕ → S → Result StoreError S
  update_status_if_current now id status expected s =
      after_update
        (e.update
          (λ a.
            eq_ℤ a.id id
            && is_active a.status
            && was_refreshed_at a.last_refresh (e.stamp expected))
          (λ a. record a { status = status; updated_at = now }) s)
        (conflict_or_missing (e.find (has_row_id id) s))

  -- UpdateStatus
  unfoldable pub update_status : ℕ → ℤ → Status → S → Result StoreError S
  update_status now id status s =
      after_update
        (e.update (has_row_id id) (λ a. record a { status = status; updated_at = now }) s)
        account_not_found

  -- UpdateUseProxy
  unfoldable pub update_use_proxy : ℕ → ℤ → Bool → S → Result StoreError S
  update_use_proxy now id use_proxy s =
      after_update
        (e.update (has_row_id id) (λ a. record a { use_proxy = use_proxy; updated_at = now }) s)
        account_not_found

  abbrev pub or_not_found : Option UpstreamAccount → Result StoreError UpstreamAccount
  or_not_found none = err account_not_found
  or_not_found (some a) = ok a

  -- GetByID
  unfoldable pub get_by_id : ℤ → S → Result StoreError UpstreamAccount
  get_by_id id s = map_err engine_failed (e.find (has_row_id id) s) >>= or_not_found

  module _ (parse_url : String → Option Url) where
    abbrev pub insert_valid : Option ShapeError → UpstreamAccount → S → Result StoreError (ℤ × S)
    insert_valid (some problem) a s = err (invalid_row problem)
    insert_valid none a s = map_err engine_failed (e.insert a s)

    -- InsertUpstreamAccount
    unfoldable pub insert_upstream_account : UpstreamAccount → S → Result StoreError (ℤ × S)
    insert_upstream_account a s = insert_valid (validate parse_url a) a s

    -- normaliseAPIKeyShape
    abbrev pub normalise_api_key_shape : UpstreamAccount → UpstreamAccount
    normalise_api_key_shape a =
        if str_eq (method_text a.auth_method) ""
        then record a { auth_method = AuthMethod.api_key }
        else a

    -- Create
    unfoldable pub create : UpstreamAccount → S → Result StoreError (ℤ × S)
    create a s =
        let row = normalise_api_key_shape a in
        if not (str_eq (method_text row.auth_method) "api_key")
        then err not_an_api_key_row
        else insert_valid (validate parse_url row) row s
