-- ===== src/Oauth/Persist/Rows.antt =====
-- internal/oauth/coordinator.go: the row of the account that a finished flow stores.
use one_llm_router.Prelude.{
  ℕ, ◌==◌, ◌≡◌, ◌≢◌, In, In-append_right, inl, refl, sym, subst, String, Option, none, some, List,
  [], ◌∷◌, eq_iff, arith,
}
use one_llm_router.Prelude.Int.{ℤ}
use one_llm_router.Prelude.Result.{ok, ok-eq, >>=-eq-ok, map_err, map_err-eq-ok, guard-eq-ok}
use one_llm_router.Domain.Account.{UpstreamAccount}
use one_llm_router.Domain.BaseUrl.{Url}
use one_llm_router.Domain.Shape.{ShapeError, validate}
use one_llm_router.Domain.Shape.Laws.{IsOauthShape, IsWellShaped, validate_iff_IsWellShaped}
use one_llm_router.Store.Engine.{Engine, EngineLaws, stored_row}
use one_llm_router.Store.Accounts.{insert_upstream_account, insert_valid, engine_failed}
use one_llm_router.Store.Accounts.Shapes.{stored_row-IsWellShaped}
use one_llm_router.Oauth.Flow.{FlowMethod, browser, device}
use one_llm_router.Oauth.Refresh.{Tokens, Claims}
use one_llm_router.Oauth.Persist.{
  derive_oauth_account_name, account_of, flow_auth_method, persist_consumed_flow, with_id,
  missing_last_refresh, insert_failed,
}

named : (claims : Claims) (name : String) → derive_oauth_account_name claims ≡ ok name → name ≢ ""
unfolding derive_oauth_account_name
named claims name h e =
    ground (arith, h, e, eq_iff claims.email "", eq_iff claims.chatgpt_account_id "")

oauth_shape :
    (parse_url : String → Option Url) (method : FlowMethod) (a : UpstreamAccount)
    → IsWellShaped parse_url (flow_auth_method method) a
    → IsOauthShape a
oauth_shape parse_url browser a s = s
oauth_shape parse_url device a s = s

module _ {S : Type 0} (e : Engine S) (rows : S → List UpstreamAccount) (laws : EngineLaws e rows)
    (parse_url : String → Option Url) where
  -- The row of an account under an id, with the instants that the engine set.
  abbrev IsStored : UpstreamAccount → ℤ → S → Type 0
  IsStored a id s' =
      (created : ℕ) × (updated : ℕ) × In (stored_row e.stamp id created updated a) (rows s')

  inserted_row :
      (a : UpstreamAccount) (s s' : S) (id : ℤ) (verdict : Option ShapeError)
      → validate parse_url a ≡ verdict
      → insert_valid e parse_url verdict a s ≡ ok (id, s')
      → IsWellShaped parse_url a.auth_method a × IsStored a id s'
  inserted_row a s s' id (some problem) judged h = cc
  inserted_row a s s' id none judged h =
      let (created, updated, grown) =
        laws.inserted a s s' id (map_err-eq-ok engine_failed (e.insert a s) h) in
      let row = stored_row e.stamp id created updated a in
      (
        (validate_iff_IsWellShaped parse_url a).0 judged,
        (
          created,
          updated,
          subst (In row) (sym grown) (In-append_right row (rows s) (row ∷ []) (inl refl)),
        ),
      )

  abbrev IsPersisted : UpstreamAccount × S → Type 0
  IsPersisted p =
      (p.0.name ≢ "")
      × (created : ℕ) × (updated : ℕ) × IsOauthShape (stored_row e.stamp p.0.id created updated p.0)
      × In (stored_row e.stamp p.0.id created updated p.0) (rows p.1)

  stored_account :
      (method : FlowMethod) (row : UpstreamAccount)
      → row.name ≢ ""
      → row.auth_method ≡ flow_auth_method method
      → (s : S) (stored : ℤ × S) → insert_upstream_account e parse_url row s ≡ ok stored
      → (last : UpstreamAccount × S) → with_id e parse_url row stored ≡ ok last
      → IsPersisted last
  unfolding insert_upstream_account
  stored_account method row has_name of_flow s (id, s') ran last same =
      let (good, (created, updated, at)) =
        inserted_row row s s' id (validate parse_url row) refl ran in
      let shaped =
        stored_row-IsWellShaped parse_url e.stamp id created updated row.auth_method row good in
      let stored = stored_row e.stamp id created updated row in
      subst IsPersisted (ok-eq same) (
        has_name,
        created,
        updated,
        oauth_shape parse_url method stored
            (subst (λ m. IsWellShaped parse_url m stored) of_flow shaped),
        at,
      )

  -- An account that a finished flow stores has a name, and stands in the table under its new id as the
  -- database keeps it, for some instants that the engine set as those of its creation and its update,
  -- with the three tokens and both instants of an OAuth row.
  pub persisted_row :
      (method : FlowMethod) (tokens : Tokens) (last_refresh : ℕ) (claims : Claims) (s s' : S)
      (a : UpstreamAccount)
      → persist_consumed_flow e parse_url method tokens last_refresh claims s ≡ ok (a, s')
      → (a.name ≢ "")
        × (created : ℕ) × (updated : ℕ) × IsOauthShape (stored_row e.stamp a.id created updated a)
        × In (stored_row e.stamp a.id created updated a) (rows s')
  unfolding persist_consumed_flow
  persisted_row method tokens last_refresh claims s s' a h =
      let (set, rest) = guard-eq-ok (last_refresh == 0) missing_last_refresh h in
      let (name, derived, inserted) = >>=-eq-ok (derive_oauth_account_name claims) _ rest in
      let row = account_of method tokens last_refresh claims name in
      let (stored, ran, same) =
        >>=-eq-ok (map_err insert_failed (insert_upstream_account e parse_url row s)) _ inserted in
      stored_account method row (named claims name derived) refl s stored
        (map_err-eq-ok insert_failed (insert_upstream_account e parse_url row s) ran) (a, s') same
