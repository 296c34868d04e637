-- ===== src/Store/Accounts/Calls.antt =====
-- internal/store/accounts.go: the inserts by name, the updates of the usage and of the details, and
-- the calls that change the table, one after another.
use one_llm_router.Prelude.{
  ℕ, String, Bool, true, false, not, ◌&&◌, ◌||◌, Option, none, some, List, [], ◌∷◌, ◌==◌, str_eq,
  is_some, is_none, if◌then◌else◌,
}
use one_llm_router.Prelude.Int.{ℤ, eq_ℤ}
use one_llm_router.Prelude.Result.{Result, ok, err, ◌>>=◌, map_err}
use one_llm_router.Domain.Account.{UpstreamAccount, Status}
use one_llm_router.Domain.BaseUrl.{Url}
use one_llm_router.Domain.Shape.{ShapeError, validate}
use one_llm_router.Store.Engine.{Engine, DbError, Where, Set, stamped}
use one_llm_router.Store.Accounts.{
  CredentialPatch, StoreError, is_deleted, method_text, has_row_id, engine_failed, invalid_row,
  not_an_api_key_row, update_credentials, update_status, update_status_if_current, update_use_proxy,
  insert_upstream_account, create, normalise_api_key_shape, get_by_id,
}

pub record UsageSnapshot : Type 0 where
  pub primary_used_percent : Option ℕ
  pub secondary_used_percent : Option ℕ
  pub primary_reset_at : Option ℕ
  pub secondary_reset_at : Option ℕ
  pub primary_window_seconds : Option ℤ
  pub secondary_window_seconds : Option ℤ

pub record AccountDetailsPatch : Type 0 where
  pub name : Option String
  pub api_key : Option String
  pub base_url : Option String
  pub capabilities : Option (List String)

pub data DetailsError : Type 0 where
  store_refused : StoreError → DetailsError
  account_deleted changed_concurrently : DetailsError

abbrev pub set_usage : (ℕ → ℕ) → ℕ → UsageSnapshot → Set
set_usage stamp now u a = record a {
  primary_used_percent = u.primary_used_percent;
  secondary_used_percent = u.secondary_used_percent;
  usage_updated_at = some (stamp now);
  primary_reset_at = stamped stamp u.primary_reset_at;
  secondary_reset_at = stamped stamp u.secondary_reset_at;
  primary_window_seconds = u.primary_window_seconds;
  secondary_window_seconds = u.secondary_window_seconds;
  updated_at = now;
}

abbrev pub or_kept : {A : Type 0} → Option A → A → A
or_kept none old = old
or_kept (some new) old = new

-- an empty base URL clears the column
abbrev pub base_url_after : Option String → Option String → Option String
base_url_after none old = old
base_url_after (some url) old = if str_eq url "" then none else some url

-- the columns of UpdateDetails
abbrev pub applied : AccountDetailsPatch → UpstreamAccount → UpstreamAccount
applied p a = record a {
  name = or_kept p.name a.name;
  api_key = or_kept p.api_key a.api_key;
  base_url = base_url_after p.base_url a.base_url;
  capabilities = or_kept p.capabilities a.capabilities;
}

abbrev pub set_details : ℕ → AccountDetailsPatch → Set
set_details now p a = record (applied p a) { updated_at = now }

abbrev pub is_empty_patch : AccountDetailsPatch → Bool
is_empty_patch p =
    is_none p.name && is_none p.api_key && is_none p.base_url && is_none p.capabilities

abbrev pub texts_eq : List String → List String → Bool
texts_eq [] [] = true
texts_eq [] (y ∷ ys) = false
texts_eq (x ∷ xs) [] = false
texts_eq (x ∷ xs) (y ∷ ys) = let rest = texts_eq xs ys in str_eq x y && rest

abbrev pub option_text_eq : Option String → Option String → Bool
option_text_eq none none = true
option_text_eq none (some y) = false
option_text_eq (some x) none = false
option_text_eq (some x) (some y) = str_eq x y

abbrev pub status_text : Status → String
status_text Status.active = "active"
status_text Status.disabled = "disabled"
status_text Status.deleted = "deleted"
status_text (Status.other text) = text

abbrev pub same_standing : UpstreamAccount → UpstreamAccount → Bool
same_standing a b =
    str_eq (method_text a.auth_method) (method_text b.auth_method)
    && str_eq (status_text a.status) (status_text b.status)

-- the WHERE clause of UpdateDetails, against the row that it has read
abbrev pub details_where : ℤ → AccountDetailsPatch → UpstreamAccount → Where
details_where id p read a =
    if is_some p.capabilities || is_some p.base_url
    then eq_ℤ a.id id
      && same_standing a read
      && option_text_eq a.base_url read.base_url
      && texts_eq a.capabilities read.capabilities
    else eq_ℤ a.id id

-- what a row must be like for an update that changed no row to count as done
abbrev pub is_applied : AccountDetailsPatch → UpstreamAccount → UpstreamAccount → Bool
is_applied p read current =
    same_standing current read
    && (is_none p.name || str_eq current.name (applied p read).name)
    && (is_none p.api_key || str_eq current.api_key (applied p read).api_key)
    && (is_none p.base_url || option_text_eq current.base_url (applied p read).base_url)
    && (is_none p.capabilities || texts_eq current.capabilities (applied p read).capabilities)

-- A call that changes the table.
pub data Write : Type 0 where
  write_credentials : ℕ → ℤ → CredentialPatch → Write
  write_status : ℕ → ℤ → Status → Write
  write_status_if_current : ℕ → ℤ → Status → ℕ → Write
  write_use_proxy : ℕ → ℤ → Bool → Write
  write_usage : ℕ → ℤ → UsageSnapshot → Write
  write_details : ℕ → ℤ → AccountDetailsPatch → Write
  write_row write_key_row write_named_row : UpstreamAccount → Write

module _ {S : Type 0} (e : Engine S) (parse_url : String → Option Url) where
  abbrev pub unless_named : Option UpstreamAccount → UpstreamAccount → S → Result StoreError (ℤ × S)
  unless_named (some existing) row s = ok (existing.id, s)
  unless_named none row s = map_err engine_failed (e.insert row s)

  abbrev pub insert_named : Option ShapeError → UpstreamAccount → S → Result StoreError (ℤ × S)
  insert_named (some problem) row s = err (invalid_row problem)
  insert_named none row s =
      map_err engine_failed (e.find (λ a. str_eq a.name row.name) s) >>= λ existing.
      unless_named existing row s

  -- CreateIdempotentByName
  unfoldable pub create_idempotent_by_name : UpstreamAccount → S → Result StoreError (ℤ × S)
  create_idempotent_by_name a s =
      let row = normalise_api_key_shape e parse_url a in
      if not (str_eq (method_text row.auth_method) "api_key")
      then err not_an_api_key_row
      else insert_named (validate parse_url row) row s

  abbrev pub whatever_count : Result DbError (ℕ × S) → Result StoreError S
  whatever_count (err d) = err (engine_failed d)
  whatever_count (ok (n, s)) = ok s

  -- UpdateUsage
  unfoldable pub update_usage : ℕ → ℤ → UsageSnapshot → S → Result StoreError S
  update_usage now id u s = whatever_count (e.update (has_row_id id) (set_usage e.stamp now u) s)

  abbrev pub judged : Option ShapeError → UpstreamAccount → Result DetailsError UpstreamAccount
  judged (some problem) current = err (store_refused (invalid_row problem))
  judged none current = ok current

  abbrev pub if_applied :
      AccountDetailsPatch → UpstreamAccount → UpstreamAccount → Result DetailsError UpstreamAccount
  if_applied p read current =
      if is_applied p read current
      then judged (validate parse_url current) current
      else err changed_concurrently

  abbrev pub after_details :
      ℤ
      → AccountDetailsPatch
      → UpstreamAccount
      → S
      → Result DbError (ℕ × S)
      → Result DetailsError UpstreamAccount × S
  after_details id p read s (err d) = (err (store_refused (engine_failed d)), s)
  after_details id p read s (ok (n, s')) =
      let current = map_err store_refused (get_by_id e id s') in
      (if n == 0 then current >>= if_applied p read else current, s')

  abbrev pub details_of_valid :
      ℕ
      → ℤ
      → AccountDetailsPatch
      → UpstreamAccount
      → Option ShapeError
      → S
      → Result DetailsError UpstreamAccount × S
  details_of_valid now id p read (some problem) s = (err (store_refused (invalid_row problem)), s)
  details_of_valid now id p read none s =
      after_details id p read s (e.update (details_where id p read) (set_details now p) s)

  abbrev pub details_of :
      ℕ
      → ℤ
      → AccountDetailsPatch
      → Result StoreError UpstreamAccount
      → S
      → Result DetailsError UpstreamAccount × S
  details_of now id p (err problem) s = (err (store_refused problem), s)
  details_of now id p (ok read) s =
      if is_deleted read.status
      then (err account_deleted, s)
      else if not (str_eq (method_text read.auth_method) "api_key")
      then (err (store_refused not_an_api_key_row), s)
      else if is_empty_patch p
      then (ok read, s)
      else details_of_valid now id p read (validate parse_url (applied p read)) s

  -- UpdateDetails, with the table that it leaves
  unfoldable pub update_details :
      ℕ → ℤ → AccountDetailsPatch → S → Result DetailsError UpstreamAccount × S
  update_details now id p s = details_of now id p (get_by_id e id s) s

  abbrev pub kept_on_error : Result StoreError S → S → S
  kept_on_error (err problem) s = s
  kept_on_error (ok s') s = s'

  abbrev pub kept_on_insert : Result StoreError (ℤ × S) → S → S
  kept_on_insert (err problem) s = s
  kept_on_insert (ok (id, s')) s = s'

  unfoldable pub apply : Write → S → S
  apply (write_credentials now id p) s = kept_on_error (update_credentials e now id p s) s
  apply (write_status now id status) s = kept_on_error (update_status e now id status s) s
  apply (write_status_if_current now id status expected) s =
      kept_on_error (update_status_if_current e now id status expected s) s
  apply (write_use_proxy now id use_proxy) s =
      kept_on_error (update_use_proxy e now id use_proxy s) s
  apply (write_usage now id u) s = kept_on_error (update_usage now id u s) s
  apply (write_details now id p) s = (update_details now id p s).1
  apply (write_row a) s = kept_on_insert (insert_upstream_account e parse_url a s) s
  apply (write_key_row a) s = kept_on_insert (create e parse_url a s) s
  apply (write_named_row a) s = kept_on_insert (create_idempotent_by_name a s) s

  unfoldable pub apply_all : List Write → S → S
  apply_all [] s = s
  apply_all (write ∷ writes) s = apply_all writes (apply write s)
