-- ===== src/Oauth/Refresh/Calls.antt =====
-- internal/oauth/coordinator.go: how often RefreshIfStale asks the provider, and when.
use one_llm_router.Prelude.{
  ℕ, ◌≤◌, ◌≡◌, ◌≢◌, inl, inr, refl, subst, true, false, not, Option, arith, Bool-cases, if_intro,
  if◌then◌else◌, String,
}
use one_llm_router.Prelude.Result.{Result, ok, err, ◌>>=◌, map_err}
use one_llm_router.Domain.Account.{UpstreamAccount}
use one_llm_router.Domain.BaseUrl.{Url}
use one_llm_router.Store.Engine.{Engine}
use one_llm_router.Store.Accounts.{StoreError, is_active, get_by_id}
use one_llm_router.Oauth.Refresh.{
  World, Refreshed, RefreshFailure, RefreshError, RefreshedCredential, handle_refresh_failure,
  after_write, refresh_if_stale_once, refresh_if_stale, is_refresh_conflict,
  reload_refresh_conflict_account, retry, refresh_error_code, account_unavailable,
  account_not_active,
}
use one_llm_router.Oauth.Refresh.Attempts.{IsStale, attempt_cases}

module _ {S : Type 0} (e : Engine S) (parse_url : String → Option Url) (world : World S) where
  record IsCounted (stale : Type 0) (r : Refreshed S) : Type 0 where
    pub at_most_once : r.calls ≤ 1
    pub only_stale : r.calls ≢ 0 → stale
    pub conflict_after_call : is_refresh_conflict e parse_url world r.reply ≡ true → r.calls ≡ 1

  called-IsCounted : (stale : Type 0) (r : Refreshed S) → r.calls ≡ 1 → stale → IsCounted stale r
  called-IsCounted stale r once h = record {
    at_most_once = omega (arith, once);
    only_stale = λ n. h;
    conflict_after_call = λ c. once;
  }

  after_write-calls :
      (w : Result StoreError S) (reply : Result RefreshFailure RefreshedCredential) (s : S)
      → (after_write e parse_url world w reply s).calls ≡ 1
  after_write-calls (err problem) reply s = refl
  after_write-calls (ok s') reply s = refl

  handle_refresh_failure-calls :
      (n : ℕ) (a : UpstreamAccount) (failure : RefreshError) (s : S)
      → (handle_refresh_failure e parse_url world n a failure s).calls ≡ 1
  handle_refresh_failure-calls n a failure s =
      if_intro (λ (r : Refreshed S). r.calls ≡ 1) (refresh_error_code failure).1
        (λ t. after_write-calls _ _ s) (λ f. refl)

  attempt-IsCounted :
      (n : ℕ) (a : UpstreamAccount) (s : S)
      → IsCounted (IsStale parse_url world n a) (refresh_if_stale_once e parse_url world n a s)
  attempt-IsCounted n a s =
      attempt_cases e parse_url world n a s (IsCounted (IsStale parse_url world n a))
        (λ failure no. record {
          at_most_once = omega arith;
          only_stale = λ z. absurd (z refl);
          conflict_after_call = λ c. ground (arith, no, c);
        })
        (record {
          at_most_once = omega arith;
          only_stale = λ z. absurd (z refl);
          conflict_after_call = λ c. cc;
        })
        (record {
          at_most_once = omega arith;
          only_stale = λ z. absurd (z refl);
          conflict_after_call = λ c. cc;
        })
        (λ failure stale.
          called-IsCounted _ _ (handle_refresh_failure-calls n a failure (world.meanwhile n s))
            stale)
        (λ tokens claims stale.
          called-IsCounted _ _ (after_write-calls _ _ (world.meanwhile n s)) stale)

  -- the same failure, of a call that returns something else
  conflict_of :
      {A : Type 0} {failure failure' : RefreshFailure}
      → ◌≡◌ {A = Result RefreshFailure A} (err failure) (err failure')
      → ◌≡◌ {A = Result RefreshFailure RefreshedCredential} (err failure) (err failure')
  conflict_of h = ground (arith, h)

  latest_refused :
      (latest : Result StoreError UpstreamAccount) (failure : RefreshFailure)
      → (map_err account_unavailable latest >>= λ a.
          if not (is_active a.status) then err (account_not_active a.status) else ok a)
        ≡ err failure
      → is_refresh_conflict e parse_url world (err failure) ≡ false
  latest_refused (err problem) failure h =
      subst (λ r. is_refresh_conflict e parse_url world r ≡ false) (conflict_of h) refl
  latest_refused (ok a) failure h = elim (Bool-cases (is_active a.status)) [
    | inl active ↦ cc (
        subst (λ b. (if not b then err (account_not_active a.status) else ok a) ≡ err failure)
          active h)
    | inr inactive ↦
        subst (λ r. is_refresh_conflict e parse_url world r ≡ false)
          (conflict_of (
            subst (λ b. (if not b then err (account_not_active a.status) else ok a) ≡ err failure)
              inactive h))
          refl
  ]

  retry-counted :
      (latest : Result RefreshFailure UpstreamAccount) (s : S)
      → ((failure : RefreshFailure)
          → latest ≡ err failure
          → is_refresh_conflict e parse_url world (err failure) ≡ false)
      → ((retry e parse_url world latest 1 s).calls ≤ 2)
        × ((retry e parse_url world latest 1 s).calls ≢ 0)
        × (is_refresh_conflict e parse_url world (retry e parse_url world latest 1 s).reply ≡ true
            → (retry e parse_url world latest 1 s).calls ≡ 2)
        × ((retry e parse_url world latest 1 s).calls ≡ 2
            → (a : UpstreamAccount) × (latest ≡ ok a) × IsStale parse_url world 1 a)
  retry-counted (err failure) s refused = (
    omega arith,
    λ z. ground arith,
    λ c. ground (arith, refused failure refl, c),
    λ twice. ground arith,
  )
  retry-counted (ok a) s refused =
      let counted = attempt-IsCounted 1 a s in
      (
        omega (arith, counted.at_most_once),
        λ z. omega (arith, z),
        λ c. omega (arith, counted.conflict_after_call c),
        λ twice. (a, refl, counted.only_stale (λ z. omega (arith, twice, z))),
      )

  not_twice : {P : Type 0} {n : ℕ} → n ≤ 1 → n ≡ 2 → P
  not_twice most twice = absurd (omega (arith, most, twice))

  -- RefreshIfStale asks the provider at most twice. It asks only for an account of OAuth that validates
  -- and is past half of the time from its last refresh to its expiry. It asks a second time only for
  -- the account that it has read again under the same id, active, and only if that account too is of
  -- OAuth, validates and is past half of its time. It answers that another refresh is in the way only
  -- after it has asked twice.
  pub asked_at_most_twice :
      (a : UpstreamAccount) (s : S)
      → ((refresh_if_stale e parse_url world a s).calls ≤ 2)
        × ((refresh_if_stale e parse_url world a s).calls ≢ 0 → IsStale parse_url world 0 a)
        × (is_refresh_conflict e parse_url world (refresh_if_stale e parse_url world a s).reply
              ≡ true
            → (refresh_if_stale e parse_url world a s).calls ≡ 2)
        × ((refresh_if_stale e parse_url world a s).calls ≡ 2
            → (latest : UpstreamAccount) × (reload_refresh_conflict_account e parse_url world a.id
                  (refresh_if_stale_once e parse_url world 0 a s).table
                ≡ ok latest)
              × IsStale parse_url world 1 latest)
  unfolding refresh_if_stale
  asked_at_most_twice a s =
      let first = refresh_if_stale_once e parse_url world 0 a s in
      let counted = attempt-IsCounted 0 a s in
      elim (Bool-cases (is_refresh_conflict e parse_url world first.reply)) [
        | inl conflict ↦
            let once = counted.conflict_after_call conflict in
            let (most, some_calls, last, second) =
              retry-counted (reload_refresh_conflict_account e parse_url world a.id first.table)
                first.table (λ failure. latest_refused (get_by_id e a.id first.table) failure) in
            rw (conflict, once) (most, λ z. counted.only_stale (omega (arith, once)), last, second)
        | inr settled ↦ rw settled (
          omega (arith, counted.at_most_once),
          counted.only_stale,
          λ c. ground (arith, settled, c),
          λ twice. not_twice counted.at_most_once twice,
        )
      ]
