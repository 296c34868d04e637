-- ===== src/Oauth/Refresh.antt =====
-- internal/oauth/coordinator.go: RefreshIfStale, over the account table. What is not in the code is the
-- world: the clock, the provider's answers, ExtractClaims' decoding, and what other writers do to the
-- table before this caller writes, by the number of the attempt. The caller is one that singleflight
-- lets through; `calls` counts the calls of provider.Refresh.
pub mod Attempts
pub mod Calls
pub mod Stored
use one_llm_router.Prelude.{
  ℕ, ◌+◌, ◌-◌, ◌/◌, String, Bool, true, false, not, ◌&&◌, ◌||◌, Option, none, some, List, [], ◌∷◌,
  ltb, leb, str_eq, if◌then◌else◌,
}
use one_llm_router.Prelude.Int.{ℤ, is_positive}
use one_llm_router.Prelude.Result.{Result, ok, err, ◌>>=◌, map_err}
use one_llm_router.Domain.Account.{UpstreamAccount, Status, AuthMethod, Bytes, bytes_empty}
use one_llm_router.Domain.BaseUrl.{Url}
use one_llm_router.Domain.Shape.{ShapeError, validate}
use one_llm_router.Store.Engine.{Engine}
use one_llm_router.Store.Accounts.{
  CredentialPatch, StoreError, conditional_update_conflict, is_active, update_credentials,
  update_status_if_current, get_by_id,
}

pub record Tokens : Type 0 where
  pub access_token : Bytes
  pub refresh_token : Bytes
  pub id_token : Bytes
  pub expires_in : ℕ

pub record Claims : Type 0 where
  pub email : String
  pub plan_type : String
  pub chatgpt_account_id : String

-- An error of the provider: of the context, a TokenExchangeError with its code, or another one.
pub data RefreshError : Type 0 where
  deadline_exceeded cancelled other_error : RefreshError
  token_exchange : String → RefreshError

-- An API key, or an access token with the mark of a fallback.
pub data RefreshedCredential : Type 0 where
  api_key : String → RefreshedCredential
  access_token : Bytes → Bool → RefreshedCredential

pub data RefreshFailure : Type 0 where
  invalid_account_id empty_api_key expiry_precedes_refresh concurrent_refresh_conflict :
      RefreshFailure
  unknown_auth_method : String → RefreshFailure
  invalid_account : ShapeError → RefreshFailure
  store_failed : StoreError → RefreshFailure
  account_unavailable : StoreError → RefreshFailure
  account_not_active : Status → RefreshFailure
  provider_failed : RefreshError → RefreshFailure

pub record World (S : Type 0) : Type 0 where
  pub now : ℕ → ℕ
  pub refreshed_at : ℕ → ℕ
  pub answer : ℕ → Result RefreshError Tokens
  pub extract_claims : Bytes → Option Claims
  pub meanwhile : ℕ → S → S

pub record Refreshed (S : Type 0) : Type 0 where
  pub reply : Result RefreshFailure RefreshedCredential
  pub table : S
  pub calls : ℕ

-- refreshErrorCode
abbrev pub refresh_error_code : RefreshError → String × Bool
refresh_error_code deadline_exceeded = ("refresh_timeout", false)
refresh_error_code cancelled = ("refresh_cancelled", false)
refresh_error_code (token_exchange code) = (
  code,
  str_eq code "invalid_grant" || str_eq code "account_deactivated" || str_eq code "invalid_client",
)
refresh_error_code other_error = ("oauth_internal_error", false)

-- stringPointer
abbrev pub string_pointer : String → Option String
string_pointer s = if str_eq s "" then none else some s

-- cloneBytes
abbrev pub clone_bytes : Bytes → Bytes
clone_bytes none = none
clone_bytes (some []) = none
clone_bytes (some (x ∷ xs)) = some (x ∷ xs)

-- an instant that Validate has found to be there
abbrev pub instant : Option ℕ → ℕ
instant none = 0
instant (some t) = t

abbrev pub is_conflict : StoreError → Bool
is_conflict conditional_update_conflict = true
is_conflict StoreError.account_not_found = false
is_conflict StoreError.auth_method_mismatch = false
is_conflict StoreError.malformed_patch = false
is_conflict StoreError.not_an_api_key_row = false
is_conflict (StoreError.invalid_row p) = false
is_conflict (StoreError.engine_failed d) = false

abbrev pub store_failure : StoreError → RefreshFailure
store_failure problem =
    if is_conflict problem then concurrent_refresh_conflict else store_failed problem

abbrev pub patch_of : UpstreamAccount → Tokens → Claims → ℕ → CredentialPatch
patch_of a tokens claims refreshed = record {
  auth_method = a.auth_method;
  api_key = "";
  access_token = clone_bytes tokens.access_token;
  refresh_token = clone_bytes tokens.refresh_token;
  id_token = clone_bytes tokens.id_token;
  last_refresh = some refreshed;
  expected_last_refresh = a.last_refresh;
  access_expires_at = some (refreshed + tokens.expires_in);
  email = string_pointer claims.email;
  plan_type = string_pointer claims.plan_type;
  chatgpt_account_id = string_pointer claims.chatgpt_account_id;
}

-- the instant after which an account is stale
abbrev pub refresh_after : UpstreamAccount → ℕ
refresh_after a =
    instant a.last_refresh + (instant a.access_expires_at - instant a.last_refresh) / 2

module _ {S : Type 0} (e : Engine S) (parse_url : String → Option Url) (world : World S) where
  abbrev pub refused : RefreshFailure → S → Refreshed S
  refused failure s = record { reply = err failure; table = s; calls = 0 }

  abbrev pub replied : RefreshedCredential → S → Refreshed S
  replied credential s = record { reply = ok credential; table = s; calls = 0 }

  abbrev pub after_write :
      Result StoreError S → Result RefreshFailure RefreshedCredential → S → Refreshed S
  after_write (err problem) reply s = record {
    reply = err (store_failure problem);
    table = s;
    calls = 1;
  }
  after_write (ok s') reply s = record { reply = reply; table = s'; calls = 1 }

  -- handleRefreshFailure, with refreshTransientFallbackResult
  abbrev pub handle_refresh_failure : ℕ → UpstreamAccount → RefreshError → S → Refreshed S
  handle_refresh_failure n a failure s =
      if (refresh_error_code failure).1
      then after_write
          (update_status_if_current e (world.refreshed_at n) a.id Status.disabled
            (instant a.last_refresh) s)
          (err (provider_failed failure)) s
      else record {
        reply = ok (access_token (clone_bytes a.access_token) true);
        table = s;
        calls = 1;
      }

  abbrev pub store_tokens : ℕ → UpstreamAccount → Tokens → Option Claims → S → Refreshed S
  store_tokens n a tokens none s = handle_refresh_failure n a (token_exchange "invalid_response") s
  store_tokens n a tokens (some claims) s =
      after_write
        (update_credentials e (world.refreshed_at n) a.id
          (patch_of a tokens claims (world.refreshed_at n)) s)
        (ok (access_token (clone_bytes tokens.access_token) false)) s

  -- the function that singleflight runs
  abbrev pub call_provider : ℕ → UpstreamAccount → Result RefreshError Tokens → S → Refreshed S
  call_provider n a (err failure) s = handle_refresh_failure n a failure s
  call_provider n a (ok tokens) s = store_tokens n a tokens (world.extract_claims tokens.id_token) s

  abbrev pub refresh_valid : ℕ → UpstreamAccount → Option ShapeError → S → Refreshed S
  refresh_valid n a (some problem) s = refused (invalid_account problem) s
  refresh_valid n a none s =
      if ltb (instant a.access_expires_at) (instant a.last_refresh)
      then refused expiry_precedes_refresh s
      else if not (ltb (refresh_after a) (world.now n))
      then replied (access_token (clone_bytes a.access_token) false) s
      else call_provider n a (world.answer n) (world.meanwhile n s)

  abbrev pub refresh_method : ℕ → UpstreamAccount → AuthMethod → S → Refreshed S
  refresh_method n a AuthMethod.api_key s =
      if str_eq a.api_key "" then refused empty_api_key s else replied (api_key a.api_key) s
  refresh_method n a AuthMethod.oauth_browser s = refresh_valid n a (validate parse_url a) s
  refresh_method n a AuthMethod.oauth_device s = refresh_valid n a (validate parse_url a) s
  refresh_method n a AuthMethod.oauth_import s = refresh_valid n a (validate parse_url a) s
  refresh_method n a (AuthMethod.unknown m) s = refused (unknown_auth_method m) s

  -- refreshIfStaleOnce, on an account that is not nil and with a store
  unfoldable pub refresh_if_stale_once : ℕ → UpstreamAccount → S → Refreshed S
  refresh_if_stale_once n a s =
      if not (is_positive a.id)
      then refused invalid_account_id s
      else refresh_method n a a.auth_method s

  -- reloadRefreshConflictAccount
  abbrev pub reload_refresh_conflict_account : ℤ → S → Result RefreshFailure UpstreamAccount
  reload_refresh_conflict_account id s =
      map_err account_unavailable (get_by_id e id s) >>= λ latest.
      if not (is_active latest.status) then err (account_not_active latest.status) else ok latest

  abbrev pub add_calls : ℕ → Refreshed S → Refreshed S
  add_calls n r = record r { calls = n + r.calls }

  abbrev pub retry : Result RefreshFailure UpstreamAccount → ℕ → S → Refreshed S
  retry (err failure) calls s = record { reply = err failure; table = s; calls = calls }
  retry (ok latest) calls s = add_calls calls (refresh_if_stale_once 1 latest s)

  abbrev pub is_refresh_conflict : Result RefreshFailure RefreshedCredential → Bool
  is_refresh_conflict (err concurrent_refresh_conflict) = true
  is_refresh_conflict (err invalid_account_id) = false
  is_refresh_conflict (err empty_api_key) = false
  is_refresh_conflict (err expiry_precedes_refresh) = false
  is_refresh_conflict (err (unknown_auth_method m)) = false
  is_refresh_conflict (err (invalid_account p)) = false
  is_refresh_conflict (err (store_failed p)) = false
  is_refresh_conflict (err (account_unavailable p)) = false
  is_refresh_conflict (err (account_not_active p)) = false
  is_refresh_conflict (err (provider_failed p)) = false
  is_refresh_conflict (ok c) = false

  -- RefreshIfStale; the second attempt is the last
  unfoldable pub refresh_if_stale : UpstreamAccount → S → Refreshed S
  refresh_if_stale a s =
      let first = refresh_if_stale_once 0 a s in
      let again =
        retry (reload_refresh_conflict_account a.id first.table) first.calls first.table in
      if is_refresh_conflict first.reply then again else first
