-- ===== src/Store/Accounts/Shapes.antt =====
-- internal/store/accounts.go: every operation keeps the rows of the table well shaped.
use one_llm_router.Prelude.{
  ℕ, ◌≡◌, ◌≢◌, refl, sym, ap, ◌∙◌, String, Bool, true, Option, none, some, arith, str_eq, eq_iff,
  if◌then◌else◌,
}
use one_llm_router.Prelude.Int.{ℤ}
use one_llm_router.Domain.Account.{UpstreamAccount, Status, AuthMethod}
use one_llm_router.Domain.BaseUrl.{Url}
use one_llm_router.Domain.Shape.Laws.{IsApiKeyShape, IsOauthShape, IsWellShaped}
use one_llm_router.Store.Engine.{stamped, stored_row}
use one_llm_router.Store.Accounts.{
  CredentialPatch, patch_fits, patch_fits_key, patch_fits_oauth, stored_method, method_text,
  set_credentials, set_tokens, set_key,
}

abbrev method_of : String → AuthMethod
method_of text =
    if str_eq text "api_key"
    then AuthMethod.api_key
    else if str_eq text "oauth_browser"
    then AuthMethod.oauth_browser
    else if str_eq text "oauth_device"
    then AuthMethod.oauth_device
    else AuthMethod.oauth_import

method_of-stored_method :
    (parse_url : String → Option Url) (m : AuthMethod) (a : UpstreamAccount)
    → IsWellShaped parse_url m a
    → method_of (stored_method m) ≡ m
method_of-stored_method parse_url AuthMethod.api_key a s = refl
method_of-stored_method parse_url AuthMethod.oauth_browser a s = refl
method_of-stored_method parse_url AuthMethod.oauth_device a s = refl
method_of-stored_method parse_url AuthMethod.oauth_import a s = refl
method_of-stored_method parse_url (AuthMethod.unknown t) a s = absurd s

method_of-method_text :
    (n : AuthMethod) (p : CredentialPatch) → patch_fits n p ≡ true → method_of (method_text n) ≡ n
method_of-method_text AuthMethod.api_key p h = refl
method_of-method_text AuthMethod.oauth_browser p h = refl
method_of-method_text AuthMethod.oauth_device p h = refl
method_of-method_text AuthMethod.oauth_import p h = refl
method_of-method_text (AuthMethod.unknown t) p h = cc

-- A well shaped row that passes the test of the method has the method of the patch.
pub method_text-eq :
    (parse_url : String → Option Url) (m n : AuthMethod) (a : UpstreamAccount) (p : CredentialPatch)
    → IsWellShaped parse_url m a
    → patch_fits n p ≡ true
    → str_eq (stored_method m) (method_text n) ≡ true
    → m ≡ n
method_text-eq parse_url m n a p s fits h =
    sym (method_of-stored_method parse_url m a s)
    ∙ ap method_of ((eq_iff (stored_method m) (method_text n)).0 h)
    ∙ method_of-method_text n p fits

tokens-IsOauthShape :
    (stamp : ℕ → ℕ) (now : ℕ) (p : CredentialPatch) (a : UpstreamAccount)
    → patch_fits_oauth p ≡ true
    → IsOauthShape a
    → IsOauthShape (set_tokens stamp now p a)
tokens-IsOauthShape stamp now p a fits s = record {
  no_key = s.no_key;
  has_access = ground (arith, fits);
  has_refresh = ground (arith, fits);
  has_id_token = ground (arith, fits);
  refreshed = ground (arith, fits);
  expires = ground (arith, fits);
  no_system_one = s.no_system_one;
}

key-IsApiKeyShape :
    (parse_url : String → Option Url) (now : ℕ) (p : CredentialPatch) (a : UpstreamAccount)
    → patch_fits_key p ≡ true
    → IsApiKeyShape parse_url a
    → IsApiKeyShape parse_url (set_key now p a)
key-IsApiKeyShape parse_url now p a fits s = record {
  has_key = ground (arith, fits, eq_iff p.api_key "");
  no_access = s.no_access;
  no_refresh = s.no_refresh;
  no_id_token = s.no_id_token;
  no_last_refresh = s.no_last_refresh;
  no_expiry = s.no_expiry;
  no_email = s.no_email;
  no_plan = s.no_plan;
  no_chatgpt_account = s.no_chatgpt_account;
  no_primary_used = s.no_primary_used;
  no_secondary_used = s.no_secondary_used;
  no_usage_time = s.no_usage_time;
  no_primary_reset = s.no_primary_reset;
  no_secondary_reset = s.no_secondary_reset;
  no_primary_window = s.no_primary_window;
  no_secondary_window = s.no_secondary_window;
  known = s.known;
  system_one = s.system_one;
}

-- The credentials of a patch fit the rows of its method.
pub set_credentials-IsWellShaped :
    (parse_url : String → Option Url) (stamp : ℕ → ℕ) (now : ℕ) (p : CredentialPatch)
    (m : AuthMethod) (a : UpstreamAccount)
    → p.auth_method ≡ m
    → patch_fits m p ≡ true
    → IsWellShaped parse_url m a
    → IsWellShaped parse_url m (set_credentials stamp now p a)
set_credentials-IsWellShaped parse_url stamp now p AuthMethod.api_key a e fits s =
    rw e (key-IsApiKeyShape parse_url now p a fits s)
set_credentials-IsWellShaped parse_url stamp now p AuthMethod.oauth_browser a e fits s =
    rw e (tokens-IsOauthShape stamp now p a fits s)
set_credentials-IsWellShaped parse_url stamp now p AuthMethod.oauth_device a e fits s =
    rw e (tokens-IsOauthShape stamp now p a fits s)
set_credentials-IsWellShaped parse_url stamp now p AuthMethod.oauth_import a e fits s =
    rw e (tokens-IsOauthShape stamp now p a fits s)
set_credentials-IsWellShaped parse_url stamp now p (AuthMethod.unknown t) a e fits s = absurd s

stamped-none : (stamp : ℕ → ℕ) (o : Option ℕ) → o ≡ none → stamped stamp o ≡ none
stamped-none stamp none h = refl
stamped-none stamp (some t) h = ground (arith, h)

stamped-some : (stamp : ℕ → ℕ) (o : Option ℕ) → o ≢ none → stamped stamp o ≢ none
stamped-some stamp none h e = h refl
stamped-some stamp (some t) h e = ground (arith, e)

stored_row-IsApiKeyShape :
    (parse_url : String → Option Url) (stamp : ℕ → ℕ) (id : ℤ) (created updated : ℕ)
    (a : UpstreamAccount)
    → IsApiKeyShape parse_url a
    → IsApiKeyShape parse_url (stored_row stamp id created updated a)
stored_row-IsApiKeyShape parse_url stamp id created updated a s = record {
  has_key = s.has_key;
  no_access = s.no_access;
  no_refresh = s.no_refresh;
  no_id_token = s.no_id_token;
  no_last_refresh = stamped-none stamp a.last_refresh s.no_last_refresh;
  no_expiry = stamped-none stamp a.access_expires_at s.no_expiry;
  no_email = s.no_email;
  no_plan = s.no_plan;
  no_chatgpt_account = s.no_chatgpt_account;
  no_primary_used = s.no_primary_used;
  no_secondary_used = s.no_secondary_used;
  no_usage_time = s.no_usage_time;
  no_primary_reset = s.no_primary_reset;
  no_secondary_reset = s.no_secondary_reset;
  no_primary_window = s.no_primary_window;
  no_secondary_window = s.no_secondary_window;
  known = s.known;
  system_one = s.system_one;
}

stored_row-IsOauthShape :
    (stamp : ℕ → ℕ) (id : ℤ) (created updated : ℕ) (a : UpstreamAccount)
    → IsOauthShape a
    → IsOauthShape (stored_row stamp id created updated a)
stored_row-IsOauthShape stamp id created updated a s = record {
  no_key = s.no_key;
  has_access = s.has_access;
  has_refresh = s.has_refresh;
  has_id_token = s.has_id_token;
  refreshed = stamped-some stamp a.last_refresh s.refreshed;
  expires = stamped-some stamp a.access_expires_at s.expires;
  no_system_one = s.no_system_one;
}

pub stored_row-IsWellShaped :
    (parse_url : String → Option Url) (stamp : ℕ → ℕ) (id : ℤ) (created updated : ℕ)
    (m : AuthMethod) (a : UpstreamAccount)
    → IsWellShaped parse_url m a
    → IsWellShaped parse_url m (stored_row stamp id created updated a)
stored_row-IsWellShaped parse_url stamp id created updated AuthMethod.api_key a s =
    stored_row-IsApiKeyShape parse_url stamp id created updated a s
stored_row-IsWellShaped parse_url stamp id created updated AuthMethod.oauth_browser a s =
    stored_row-IsOauthShape stamp id created updated a s
stored_row-IsWellShaped parse_url stamp id created updated AuthMethod.oauth_device a s =
    stored_row-IsOauthShape stamp id created updated a s
stored_row-IsWellShaped parse_url stamp id created updated AuthMethod.oauth_import a s =
    stored_row-IsOauthShape stamp id created updated a s
stored_row-IsWellShaped parse_url stamp id created updated (AuthMethod.unknown t) a s = absurd s

-- The columns of an administrator do not count.
administered-IsApiKeyShape :
    (parse_url : String → Option Url) (status : Status) (use_proxy : Bool) (now : ℕ)
    (a : UpstreamAccount)
    → IsApiKeyShape parse_url a
    → IsApiKeyShape parse_url
        (record a { status = status; use_proxy = use_proxy; updated_at = now })
administered-IsApiKeyShape parse_url status use_proxy now a s = record {
  has_key = s.has_key;
  no_access = s.no_access;
  no_refresh = s.no_refresh;
  no_id_token = s.no_id_token;
  no_last_refresh = s.no_last_refresh;
  no_expiry = s.no_expiry;
  no_email = s.no_email;
  no_plan = s.no_plan;
  no_chatgpt_account = s.no_chatgpt_account;
  no_primary_used = s.no_primary_used;
  no_secondary_used = s.no_secondary_used;
  no_usage_time = s.no_usage_time;
  no_primary_reset = s.no_primary_reset;
  no_secondary_reset = s.no_secondary_reset;
  no_primary_window = s.no_primary_window;
  no_secondary_window = s.no_secondary_window;
  known = s.known;
  system_one = s.system_one;
}

administered-IsOauthShape :
    (status : Status) (use_proxy : Bool) (now : ℕ) (a : UpstreamAccount)
    → IsOauthShape a
    → IsOauthShape (record a { status = status; use_proxy = use_proxy; updated_at = now })
administered-IsOauthShape status use_proxy now a s = record {
  no_key = s.no_key;
  has_access = s.has_access;
  has_refresh = s.has_refresh;
  has_id_token = s.has_id_token;
  refreshed = s.refreshed;
  expires = s.expires;
  no_system_one = s.no_system_one;
}

pub administered-IsWellShaped :
    (parse_url : String → Option Url) (status : Status) (use_proxy : Bool) (now : ℕ)
    (m : AuthMethod) (a : UpstreamAccount)
    → IsWellShaped parse_url m a
    → IsWellShaped parse_url m
        (record a { status = status; use_proxy = use_proxy; updated_at = now })
administered-IsWellShaped parse_url status use_proxy now AuthMethod.api_key a s =
    administered-IsApiKeyShape parse_url status use_proxy now a s
administered-IsWellShaped parse_url status use_proxy now AuthMethod.oauth_browser a s =
    administered-IsOauthShape status use_proxy now a s
administered-IsWellShaped parse_url status use_proxy now AuthMethod.oauth_device a s =
    administered-IsOauthShape status use_proxy now a s
administered-IsWellShaped parse_url status use_proxy now AuthMethod.oauth_import a s =
    administered-IsOauthShape status use_proxy now a s
administered-IsWellShaped parse_url status use_proxy now (AuthMethod.unknown t) a s = absurd s
