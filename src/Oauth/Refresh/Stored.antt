-- ===== src/Oauth/Refresh/Stored.antt =====
-- internal/oauth/coordinator.go: what RefreshIfStale leaves in the account table.
use one_llm_router.Prelude.{
  ℕ, ◌≡◌, ◌≢◌, ◌⊎◌, In, inl, inr, refl, sym, ap, ◌∙◌, subst, Bool, true, false, Option, none, some,
  List, [], ◌∷◌, arith, if_intro, String, eq_iff,
}
use one_llm_router.Prelude.Int.{ℤ, eq_ℤ_iff}
use one_llm_router.Prelude.Result.{
  Result, ok, err, ok-eq, map_err, map_err-eq-ok, >>=-eq-ok, guard_not-eq-ok,
}
use one_llm_router.Domain.Account.{UpstreamAccount, Status, AuthMethod, Bytes, method_is_oauth}
use one_llm_router.Domain.BaseUrl.{Url}
use one_llm_router.Store.Engine.{Engine, EngineLaws}
use one_llm_router.Store.Rows.{update_rows-In, count_rows-positive, first_row-In}
use one_llm_router.Store.Accounts.{
  StoreError, CredentialPatch, is_active, get_by_id, has_row_id, or_not_found, engine_failed,
  update_credentials, update_status_if_current, credential_where, set_credentials, set_tokens,
  patch_fits,
}
use one_llm_router.Store.Accounts.Written.{update_credentials-Written}
use one_llm_router.Store.Accounts.Tables.{
  IsTable, update_credentials-IsTable, update_status_if_current-IsTable, credential_where-id,
}
use one_llm_router.Oauth.Refresh.{
  World, Refreshed, RefreshFailure, RefreshError, Tokens, Claims, RefreshedCredential, access_token,
  clone_bytes, handle_refresh_failure, after_write, patch_of, refresh_if_stale_once,
  refresh_if_stale, instant, is_refresh_conflict, reload_refresh_conflict_account, retry,
  refresh_error_code, account_unavailable, account_not_active, provider_failed,
}
use one_llm_router.Oauth.Refresh.Attempts.{attempt_cases}

clone_bytes-clone_bytes : (b : Bytes) → clone_bytes (clone_bytes b) ≡ clone_bytes b
clone_bytes-clone_bytes none = refl
clone_bytes-clone_bytes (some []) = refl
clone_bytes-clone_bytes (some (x ∷ xs)) = refl

module _ {S : Type 0} (e : Engine S) (rows : S → List UpstreamAccount) (laws : EngineLaws e rows)
    (parse_url : String → Option Url) (world : World S) where
  module _
      (others : (n : ℕ) (s : S)
        → IsTable parse_url (rows s)
        → IsTable parse_url (rows (world.meanwhile n s))) where
    after_write-IsTable :
        (w : Result StoreError S) (reply : Result RefreshFailure RefreshedCredential) (s : S)
        → ((s' : S) → w ≡ ok s' → IsTable parse_url (rows s'))
        → IsTable parse_url (rows s)
        → IsTable parse_url (rows (after_write e parse_url world w reply s).table)
    after_write-IsTable (err problem) reply s done t = t
    after_write-IsTable (ok s') reply s done t = done s' refl

    handle_refresh_failure-IsTable :
        (n : ℕ) (a : UpstreamAccount) (failure : RefreshError) (s : S)
        → IsTable parse_url (rows s)
        → IsTable parse_url (rows (handle_refresh_failure e parse_url world n a failure s).table)
    handle_refresh_failure-IsTable n a failure s t =
        if_intro (λ (r : Refreshed S). IsTable parse_url (rows r.table))
          (refresh_error_code failure).1
          (λ permanent.
            after_write-IsTable
              (update_status_if_current e (world.refreshed_at n) a.id Status.disabled
                (instant a.last_refresh) s)
              (err (provider_failed failure)) s
              (λ s' h.
                update_status_if_current-IsTable e rows laws parse_url (world.refreshed_at n) a.id
                  Status.disabled (instant a.last_refresh) s s' h t)
              t)
          (λ f. t)

    attempt-IsTable :
        (n : ℕ) (a : UpstreamAccount) (s : S)
        → IsTable parse_url (rows s)
        → IsTable parse_url (rows (refresh_if_stale_once e parse_url world n a s).table)
    attempt-IsTable n a s t =
        attempt_cases e parse_url world n a s (λ r. IsTable parse_url (rows r.table))
          (λ failure no. t) t t
          (λ failure stale.
            handle_refresh_failure-IsTable n a failure (world.meanwhile n s) (others n s t))
          (λ tokens claims stale.
            let p = patch_of a tokens claims (world.refreshed_at n) in
            after_write-IsTable
              (update_credentials e (world.refreshed_at n) a.id p (world.meanwhile n s))
              (ok (access_token (clone_bytes tokens.access_token) false)) (world.meanwhile n s)
              (λ s' h.
                update_credentials-IsTable e rows laws parse_url (world.refreshed_at n) a.id p
                  (world.meanwhile n s) s' h (others n s t))
              (others n s t))

    retry-IsTable :
        (latest : Result RefreshFailure UpstreamAccount) (calls : ℕ) (s : S)
        → IsTable parse_url (rows s)
        → IsTable parse_url (rows (retry e parse_url world latest calls s).table)
    retry-IsTable (err failure) calls s t = t
    retry-IsTable (ok a) calls s t = attempt-IsTable 1 a s t

    -- A refresh, however it ends, leaves a table of well shaped rows with different ids, where it found
    -- one and the other writers keep it so in between.
    pub refresh_if_stale-IsTable :
        (a : UpstreamAccount) (s : S)
        → IsTable parse_url (rows s)
        → IsTable parse_url (rows (refresh_if_stale e parse_url world a s).table)
    unfolding refresh_if_stale
    refresh_if_stale-IsTable a s t =
        let first = attempt-IsTable 0 a s t in
        if_intro (λ (r : Refreshed S). IsTable parse_url (rows r.table))
          (is_refresh_conflict e parse_url world
            (refresh_if_stale_once e parse_url world 0 a s).reply)
          (λ again.
            retry-IsTable
              (reload_refresh_conflict_account e parse_url world a.id
                (refresh_if_stale_once e parse_url world 0 a s).table)
              _ (refresh_if_stale_once e parse_url world 0 a s).table first)
          (λ f. first)

  -- The table has a row of this id with this access token.
  abbrev HasToken : ℤ → Bytes → S → Type 0
  HasToken id token s =
      (row : UpstreamAccount) × In row (rows s)
      × (row.id ≡ id)
      × (clone_bytes row.access_token ≡ token)

  -- A patch that fits and has no API key is of OAuth.
  keyless-oauth :
      (m : AuthMethod) (p : CredentialPatch)
      → patch_fits m p ≡ true
      → p.api_key ≡ ""
      → method_is_oauth m ≡ true
  keyless-oauth AuthMethod.api_key p fits none_set =
      ground (arith, fits, none_set, eq_iff p.api_key "")
  keyless-oauth AuthMethod.oauth_browser p fits none_set = refl
  keyless-oauth AuthMethod.oauth_device p fits none_set = refl
  keyless-oauth AuthMethod.oauth_import p fits none_set = refl
  keyless-oauth (AuthMethod.unknown t) p fits none_set = cc

  written-HasToken :
      (now : ℕ) (id : ℤ) (p : CredentialPatch) (s s' : S)
      → p.api_key ≡ ""
      → update_credentials e now id p s ≡ ok s'
      → HasToken id (clone_bytes p.access_token) s'
  written-HasToken now id p s s' no_key h =
      let w = update_credentials-Written e rows laws now id p s s' h in
      let (a, at, hit) = count_rows-positive (credential_where e.stamp id p) (rows s) w.matched in
      let oauth = keyless-oauth p.auth_method p w.fits no_key in
      let new_row : set_credentials e.stamp now p a ≡ set_tokens e.stamp now p a = rw oauth refl in
      (
        set_credentials e.stamp now p a,
        subst (In (set_credentials e.stamp now p a)) (sym w.result) (
            update_rows-In (credential_where e.stamp id p) (set_credentials e.stamp now p) (rows s)
              a at hit),
        ap (λ x. x.id) new_row ∙ credential_where-id e.stamp id p a hit,
        ap (λ x. clone_bytes x.access_token) new_row,
      )

  -- What an attempt answers as a token that is not a fallback: the one of the account, with the table
  -- as it was, or one that stands in the table.
  abbrev Answered : UpstreamAccount → S → Refreshed S → Type 0
  Answered a s r =
      (token : Bytes)
      → r.reply ≡ ok (access_token token false)
      → ((token ≡ clone_bytes a.access_token) × (r.table ≡ s) × (r.calls ≡ 0))
        ⊎ HasToken a.id token r.table

  token-eq :
      {t t' : Bytes} {b b' : Bool}
      → ◌≡◌ {A = Result RefreshFailure RefreshedCredential}
          (ok (access_token t b))
          (ok (access_token t' b'))
      → (t ≡ t') × (b ≡ b')
  token-eq h = ground (arith, h)

  after_write-Answered :
      (n : ℕ) (a : UpstreamAccount) (tokens : Tokens) (claims : Claims) (before s : S)
      (w : Result StoreError S)
      → update_credentials e
          (world.refreshed_at n)
          a.id
          (patch_of a tokens claims (world.refreshed_at n))
          s
        ≡ w
      → Answered a before (
          after_write e parse_url world w
            (ok (access_token (clone_bytes tokens.access_token) false))
            s)
  after_write-Answered n a tokens claims before s (err problem) ran token h = cc
  after_write-Answered n a tokens claims before s (ok s') ran token h =
      let (same, _) = token-eq h in
      let p = patch_of a tokens claims (world.refreshed_at n) in
      inr (
        subst (λ t. HasToken a.id t s') (clone_bytes-clone_bytes tokens.access_token ∙ same)
          (written-HasToken (world.refreshed_at n) a.id p s s' refl ran))

  error_reply :
      (w : Result StoreError S) (failure : RefreshFailure) (s : S) (c : RefreshedCredential)
      → (after_write e parse_url world w (err failure) s).reply ≢ ok c
  error_reply (err problem) failure s c h = cc
  error_reply (ok s') failure s c h = cc

  -- A refresh that failed answers no new token.
  failure_reply :
      (n : ℕ) (a : UpstreamAccount) (failure : RefreshError) (s : S) (token : Bytes)
      → (handle_refresh_failure e parse_url world n a failure s).reply
        ≢ ok (access_token token false)
  failure_reply n a failure s token =
      if_intro (λ (r : Refreshed S). r.reply ≢ ok (access_token token false))
        (refresh_error_code failure).1 (λ t. error_reply _ _ s (access_token token false))
        (λ f h. let (_, marked) = token-eq h in ground (arith, marked))

  attempt-Answered :
      (n : ℕ) (a : UpstreamAccount) (s : S)
      → Answered a s (refresh_if_stale_once e parse_url world n a s)
  attempt-Answered n a s =
      attempt_cases e parse_url world n a s (Answered a s) (λ failure no token h. cc)
        (λ token h. ground (arith, h))
        (λ token h. let (same, _) = token-eq h in inl (sym same, refl, refl))
        (λ failure stale token h. absurd (failure_reply n a failure (world.meanwhile n s) token h))
        (λ tokens claims stale.
          after_write-Answered n a tokens claims s (world.meanwhile n s) _ refl)

  or_not_found-eq :
      (o : Option UpstreamAccount) (a : UpstreamAccount) → or_not_found e o ≡ ok a → o ≡ some a
  or_not_found-eq none a h = cc
  or_not_found-eq (some b) a h = ap some (ok-eq h)

  -- The account that is read again is the row of the same id.
  reloaded :
      (id : ℤ) (s : S) (a : UpstreamAccount)
      → reload_refresh_conflict_account e parse_url world id s ≡ ok a
      → In a (rows s) × (a.id ≡ id)
  unfolding get_by_id
  reloaded id s a h =
      let (latest, got, same) = >>=-eq-ok (map_err account_unavailable (get_by_id e id s)) _ h in
      let (active, own) =
        guard_not-eq-ok (is_active latest.status) (account_not_active latest.status) same in
      let (o, read, found) =
        >>=-eq-ok (map_err engine_failed (e.find (has_row_id id) s)) (or_not_found e)
          (map_err-eq-ok account_unavailable (get_by_id e id s) got) in
      let (at, t) = first_row-In (has_row_id id) (rows s) latest (
        sym (
          laws.found (has_row_id id) s o
            (map_err-eq-ok engine_failed (e.find (has_row_id id) s) read))
        ∙ or_not_found-eq o latest found) in
      (
        subst (λ x. In x (rows s)) (ok-eq own) at,
        sym (ap (λ x. x.id) (ok-eq own)) ∙ (eq_ℤ_iff latest.id id).0 t,
      )

  retry-HasToken :
      (id : ℤ) (latest : Result RefreshFailure UpstreamAccount) (calls : ℕ) (s : S) (token : Bytes)
      → ((a : UpstreamAccount) → latest ≡ ok a → In a (rows s) × (a.id ≡ id))
      → (retry e parse_url world latest calls s).reply ≡ ok (access_token token false)
      → HasToken id token (retry e parse_url world latest calls s).table
  retry-HasToken id (err failure) calls s token read h = cc
  retry-HasToken id (ok a) calls s token read h =
      let (at, same_id) = read a refl in
      elim (attempt-Answered 1 a s token h) [
        | inl (own, same_table, none_called) ↦
            (a, subst (λ t. In a (rows t)) (sym same_table) at, same_id, sym own)
        | inr (row, in_table, row_id, row_token) ↦ (row, in_table, row_id ∙ same_id, row_token)
      ]

  -- Where RefreshIfStale asks the provider and answers an access token that it does not mark as a
  -- fallback, that token stands in the account table, in a row with the id of the account.
  pub answered_token_stored :
      (a : UpstreamAccount) (s : S) (token : Bytes)
      → (refresh_if_stale e parse_url world a s).reply ≡ ok (access_token token false)
      → (refresh_if_stale e parse_url world a s).calls ≢ 0
      → (row : UpstreamAccount) × In row (rows (refresh_if_stale e parse_url world a s).table)
        × (row.id ≡ a.id)
        × (clone_bytes row.access_token ≡ token)
  unfolding refresh_if_stale
  answered_token_stored a s token =
      let first = refresh_if_stale_once e parse_url world 0 a s in
      if_intro
        (λ (r : Refreshed S).
          r.reply ≡ ok (access_token token false) → r.calls ≢ 0 → HasToken a.id token r.table)
        (is_refresh_conflict e parse_url world first.reply)
        (λ conflict h called.
          retry-HasToken a.id (reload_refresh_conflict_account e parse_url world a.id first.table)
            first.calls first.table token (reloaded a.id first.table) h)
        (λ settled h called. elim (attempt-Answered 0 a s token h) [
          | inl (own, same_table, none_called) ↦ absurd (called none_called)
          | inr stored ↦ stored
        ])
