-- ===== src/Store/Accounts/Writes.antt =====
-- internal/store/accounts.go: every sequence of calls keeps the table a table of well shaped rows.
use one_llm_router.Prelude.{◌≡◌, refl, String, Option, List, [], ◌∷◌}
use one_llm_router.Prelude.Int.{ℤ}
use one_llm_router.Prelude.Result.{Result, ok, err}
use one_llm_router.Domain.Account.{UpstreamAccount}
use one_llm_router.Domain.BaseUrl.{Url}
use one_llm_router.Domain.Shape.{validate}
use one_llm_router.Store.Engine.{Engine, EngineLaws}
use one_llm_router.Store.Accounts.{
  StoreError, has_row_id, account_not_found, update_credentials, update_status,
  update_status_if_current, update_use_proxy, insert_upstream_account, create,
}
use one_llm_router.Store.Accounts.Calls.{
  Write, write_credentials, write_status, write_status_if_current, write_use_proxy, write_usage,
  write_details, write_row, write_key_row, write_named_row, kept_on_error, kept_on_insert, apply,
  apply_all, update_usage, create_idempotent_by_name,
}
use one_llm_router.Store.Accounts.Tables.{
  IsTable, update_credentials-IsTable, administered-IsTable, update_status_if_current-IsTable,
  insert_valid-IsTable, create-IsTable,
}
use one_llm_router.Store.Accounts.Edits.{
  IsOauthId, update_usage-IsTable, create_idempotent_by_name-IsTable, update_details-IsTable,
}

module _ {S : Type 0} (e : Engine S) (rows : S → List UpstreamAccount) (laws : EngineLaws e rows)
    (parse_url : String → Option Url) where
  -- UpdateUsage looks at no sign-in method: its caller refreshes OAuth accounts only.
  abbrev pub MetersOauth : Write → S → Type 0
  MetersOauth (write_usage now id u) s = IsOauthId e rows laws parse_url id s
  MetersOauth (write_credentials now id p) s = Unit
  MetersOauth (write_status now id status) s = Unit
  MetersOauth (write_status_if_current now id status expected) s = Unit
  MetersOauth (write_use_proxy now id use_proxy) s = Unit
  MetersOauth (write_details now id p) s = Unit
  MetersOauth (write_row a) s = Unit
  MetersOauth (write_key_row a) s = Unit
  MetersOauth (write_named_row a) s = Unit

  kept_on_error-IsTable :
      (r : Result StoreError S) (s : S)
      → ((s' : S) → r ≡ ok s' → IsTable parse_url (rows s'))
      → IsTable parse_url (rows s)
      → IsTable parse_url (rows (kept_on_error e parse_url r s))
  kept_on_error-IsTable (err problem) s done t = t
  kept_on_error-IsTable (ok s') s done t = done s' refl

  kept_on_insert-IsTable :
      (r : Result StoreError (ℤ × S)) (s : S)
      → ((id : ℤ) (s' : S) → r ≡ ok (id, s') → IsTable parse_url (rows s'))
      → IsTable parse_url (rows s)
      → IsTable parse_url (rows (kept_on_insert e parse_url r s))
  kept_on_insert-IsTable (err problem) s done t = t
  kept_on_insert-IsTable (ok (id, s')) s done t = done id s' refl

  apply-IsTable :
      (write : Write) (s : S)
      → MetersOauth write s
      → IsTable parse_url (rows s)
      → IsTable parse_url (rows (apply e parse_url write s))
  unfolding apply update_status update_use_proxy insert_upstream_account
  apply-IsTable (write_credentials now id p) s metered t =
      kept_on_error-IsTable (update_credentials e now id p s) s
        (λ s' h. update_credentials-IsTable e rows laws parse_url now id p s s' h t) t
  apply-IsTable (write_status now id status) s metered t =
      kept_on_error-IsTable (update_status e now id status s) s
        (λ s' h.
          administered-IsTable e rows laws parse_url (has_row_id id) (λ a. status)
            (λ a. a.use_proxy) now s s' account_not_found h t)
        t
  apply-IsTable (write_status_if_current now id status expected) s metered t =
      kept_on_error-IsTable (update_status_if_current e now id status expected s) s
        (λ s' h.
          update_status_if_current-IsTable e rows laws parse_url now id status expected s s' h t)
        t
  apply-IsTable (write_use_proxy now id use_proxy) s metered t =
      kept_on_error-IsTable (update_use_proxy e now id use_proxy s) s
        (λ s' h.
          administered-IsTable e rows laws parse_url (has_row_id id) (λ a. a.status)
            (λ a. use_proxy) now s s' account_not_found h t)
        t
  apply-IsTable (write_row a) s metered t =
      kept_on_insert-IsTable (insert_upstream_account e parse_url a s) s
        (λ id s' h.
          insert_valid-IsTable e rows laws parse_url a s s' id (validate parse_url a) refl h t)
        t
  apply-IsTable (write_key_row a) s metered t =
      kept_on_insert-IsTable (create e parse_url a s) s
        (λ id s' h. create-IsTable e rows laws parse_url a s s' id h t) t
  apply-IsTable (write_usage now id u) s metered t =
      kept_on_error-IsTable (update_usage e parse_url now id u s) s
        (λ s' h. update_usage-IsTable e rows laws parse_url now id u s s' h metered t) t
  apply-IsTable (write_details now id p) s metered t =
      update_details-IsTable e rows laws parse_url now id p s t
  apply-IsTable (write_named_row a) s metered t =
      kept_on_insert-IsTable (create_idempotent_by_name e parse_url a s) s
        (λ id s' h. create_idempotent_by_name-IsTable e rows laws parse_url a s s' id h t) t

  -- Every call of UpdateUsage comes when its id is of no row but that of an OAuth account.
  unfoldable pub AllMeterOauth : List Write → S → Type 0
  AllMeterOauth [] s = Unit
  AllMeterOauth (write ∷ writes) s =
      MetersOauth write s × AllMeterOauth writes (apply e parse_url write s)

  -- A table whose rows are well shaped and have different ids stays one, whatever calls of Create,
  -- CreateIdempotentByName, InsertUpstreamAccount, UpdateCredentials, UpdateStatus,
  -- UpdateStatusIfCurrent, UpdateUseProxy, UpdateUsage and UpdateDetails follow one another, those that
  -- fail included, where UpdateUsage is called for the ids of OAuth accounts only.
  pub apply_all-IsTable :
      (writes : List Write) (s : S)
      → AllMeterOauth writes s
      → IsTable parse_url (rows s)
      → IsTable parse_url (rows (apply_all e parse_url writes s))
  unfolding apply_all AllMeterOauth
  apply_all-IsTable [] s metered t = t
  apply_all-IsTable (write ∷ writes) s metered t =
      apply_all-IsTable writes (apply e parse_url write s) metered.1
        (apply-IsTable write s metered.0 t)
