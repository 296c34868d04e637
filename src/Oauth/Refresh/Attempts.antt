-- ===== src/Oauth/Refresh/Attempts.antt =====
-- internal/oauth/coordinator.go: the ways in which one attempt to refresh ends.
use one_llm_router.Prelude.{
  ℕ, ◌<◌, ◌≡◌, inl, inr, refl, ap, true, false, not, Option, none, some, ltb, ltb→lt, str_eq,
  Bool-cases, if_intro, String,
}
use one_llm_router.Prelude.Int.{is_positive}
use one_llm_router.Prelude.Result.{Result, ok, err}
use one_llm_router.Domain.Account.{UpstreamAccount, AuthMethod, method_is_oauth}
use one_llm_router.Domain.BaseUrl.{Url}
use one_llm_router.Domain.Shape.{ShapeError, validate}
use one_llm_router.Store.Engine.{Engine}
use one_llm_router.Oauth.Refresh.{
  World, Refreshed, RefreshFailure, RefreshError, Tokens, Claims, api_key, access_token,
  clone_bytes, refused, replied, handle_refresh_failure, store_tokens, call_provider, refresh_valid,
  refresh_method, refresh_if_stale_once, refresh_after, instant, is_refresh_conflict,
  token_exchange, invalid_account, expiry_precedes_refresh, empty_api_key, unknown_auth_method,
  invalid_account_id,
}

-- What makes an attempt ask the provider.
abbrev pub IsStale : {S : Type 0} → (String → Option Url) → World S → ℕ → UpstreamAccount → Type 0
IsStale parse_url world n a =
    (method_is_oauth a.auth_method ≡ true)
    × (validate parse_url a ≡ none)
    × (refresh_after a < world.now n)

module _ {S : Type 0} (e : Engine S) (parse_url : String → Option Url) (world : World S) (n : ℕ)
    (a : UpstreamAccount) (s : S) (P : Refreshed S → Type 0)
    (on_refused : (failure : RefreshFailure)
      → is_refresh_conflict e parse_url world (err failure) ≡ false
      → P (refused e parse_url world failure s))
    (on_key : P (replied e parse_url world (api_key a.api_key) s))
    (on_cached : P (replied e parse_url world (access_token (clone_bytes a.access_token) false) s))
    (on_failure : (failure : RefreshError)
      → IsStale parse_url world n a
      → P (handle_refresh_failure e parse_url world n a failure (world.meanwhile n s)))
    (on_tokens : (tokens : Tokens) (claims : Claims)
      → IsStale parse_url world n a
      → P (store_tokens e parse_url world n a tokens (some claims) (world.meanwhile n s))) where
  on_claims :
      (tokens : Tokens) (claims : Option Claims)
      → IsStale parse_url world n a
      → P (store_tokens e parse_url world n a tokens claims (world.meanwhile n s))
  on_claims tokens none stale = on_failure (token_exchange "invalid_response") stale
  on_claims tokens (some claims) stale = on_tokens tokens claims stale

  on_answer :
      (answer : Result RefreshError Tokens)
      → IsStale parse_url world n a
      → P (call_provider e parse_url world n a answer (world.meanwhile n s))
  on_answer (err failure) stale = on_failure failure stale
  on_answer (ok tokens) stale = on_claims tokens (world.extract_claims tokens.id_token) stale

  on_valid :
      (verdict : Option ShapeError)
      → validate parse_url a ≡ verdict
      → method_is_oauth a.auth_method ≡ true
      → P (refresh_valid e parse_url world n a verdict s)
  on_valid (some problem) judged oauth = on_refused (invalid_account problem) refl
  on_valid none judged oauth =
      if_intro P (ltb (instant a.access_expires_at) (instant a.last_refresh))
        (λ t. on_refused expiry_precedes_refresh refl)
        (λ f. elim (Bool-cases (ltb (refresh_after a) (world.now n))) [
          | inl stale ↦ rw stale (
              on_answer (world.answer n)
                (oauth, judged, ltb→lt (refresh_after a) (world.now n) stale))
          | inr fresh ↦ rw fresh on_cached
        ])

  on_method : (m : AuthMethod) → a.auth_method ≡ m → P (refresh_method e parse_url world n a m s)
  on_method AuthMethod.api_key h =
      if_intro P (str_eq a.api_key "") (λ t. on_refused empty_api_key refl) (λ f. on_key)
  on_method AuthMethod.oauth_browser h = on_valid (validate parse_url a) refl (ap method_is_oauth h)
  on_method AuthMethod.oauth_device h = on_valid (validate parse_url a) refl (ap method_is_oauth h)
  on_method AuthMethod.oauth_import h = on_valid (validate parse_url a) refl (ap method_is_oauth h)
  on_method (AuthMethod.unknown m) h = on_refused (unknown_auth_method m) refl

  pub attempt_cases : P (refresh_if_stale_once e parse_url world n a s)
  unfolding refresh_if_stale_once
  attempt_cases =
      if_intro P (not (is_positive a.id)) (λ t. on_refused invalid_account_id refl)
        (λ f. on_method a.auth_method refl)
