-- ===== src/Oauth/Persist.antt =====
-- internal/oauth/coordinator.go: persistConsumedFlow, the account that a finished flow stores. An instant
-- of zero is the zero time.
pub mod Rows
use one_llm_router.Prelude.{
  ℕ, ◌+◌, ◌==◌, String, Bool, true, false, not, Option, none, some, List, [], ◌∷◌, str_eq,
  if◌then◌else◌,
}
use one_llm_router.Prelude.Int.{ℤ}
use one_llm_router.Prelude.Result.{Result, ok, err, ◌>>=◌, map_err}
use one_llm_router.Domain.Account.{UpstreamAccount, Status, AuthMethod}
use one_llm_router.Domain.BaseUrl.{Url}
use one_llm_router.Core.HashRing.{zero_account}
use one_llm_router.Store.Engine.{Engine}
use one_llm_router.Store.Accounts.{StoreError, insert_upstream_account}
use one_llm_router.Oauth.Flow.{FlowMethod, browser, device}
use one_llm_router.Oauth.Refresh.{Tokens, Claims, clone_bytes, string_pointer}

pub data PersistError : Type 0 where
  missing_last_refresh missing_name : PersistError
  insert_failed : StoreError → PersistError

-- deriveOAuthAccountName
unfoldable pub derive_oauth_account_name : Claims → Result PersistError String
derive_oauth_account_name claims =
    if not (str_eq claims.email "")
    then ok claims.email
    else if not (str_eq claims.chatgpt_account_id "")
    then ok claims.chatgpt_account_id
    else err missing_name

abbrev pub flow_auth_method : FlowMethod → AuthMethod
flow_auth_method browser = AuthMethod.oauth_browser
flow_auth_method device = AuthMethod.oauth_device

abbrev pub account_of : FlowMethod → Tokens → ℕ → Claims → String → UpstreamAccount
account_of method tokens last_refresh claims name = record zero_account {
  name = name;
  provider = "openai";
  base_url = some "https://api.openai.com/v1";
  status = Status.active;
  auth_method = flow_auth_method method;
  access_token = clone_bytes tokens.access_token;
  refresh_token = clone_bytes tokens.refresh_token;
  id_token = clone_bytes tokens.id_token;
  last_refresh = some last_refresh;
  access_expires_at = some (last_refresh + tokens.expires_in);
  email = string_pointer claims.email;
  plan_type = string_pointer claims.plan_type;
  chatgpt_account_id = string_pointer claims.chatgpt_account_id;
}

module _ {S : Type 0} (e : Engine S) (parse_url : String → Option Url) where
  abbrev pub with_id : UpstreamAccount → ℤ × S → Result PersistError (UpstreamAccount × S)
  with_id a (id, s) = ok (record a { id = id }, s)

  abbrev pub insert_account : UpstreamAccount → S → Result PersistError (UpstreamAccount × S)
  insert_account a s =
      map_err insert_failed (insert_upstream_account e parse_url a s) >>= λ stored. with_id a stored

  unfoldable pub persist_consumed_flow :
      FlowMethod → Tokens → ℕ → Claims → S → Result PersistError (UpstreamAccount × S)
  persist_consumed_flow method tokens last_refresh claims s =
      if last_refresh == 0
      then err missing_last_refresh
      else derive_oauth_account_name claims >>= λ name.
          insert_account (account_of method tokens last_refresh claims name) s
