-- ===== src/Store/Accounts/Edits.antt =====
-- internal/store/accounts.go: inserts by name and updates of usage and details keep the table.
use one_llm_router.Prelude.{
  ℕ, ◌≡◌, refl, sym, ap, ◌∙◌, subst, String, true, not, Option, none, some, List, arith, str_eq,
  if_intro, In,
}
use one_llm_router.Prelude.Int.{ℤ, eq_ℤ_iff}
use one_llm_router.Prelude.Result.{
  Result, ok, err, ok-eq, >>=-eq-ok, map_err, map_err-eq-ok, guard_not-eq-ok,
}
use one_llm_router.Domain.Account.{UpstreamAccount, AuthMethod, method_is_oauth}
use one_llm_router.Domain.BaseUrl.{Url}
use one_llm_router.Domain.Shape.{ShapeError, validate}
use one_llm_router.Domain.Shape.Laws.{IsOauthShape, IsWellShaped, validate_iff_IsWellShaped}
use one_llm_router.Store.Engine.{Engine, EngineLaws, DbError}
use one_llm_router.Store.Rows.{first_row-In}
use one_llm_router.Store.Accounts.{
  StoreError, has_row_id, method_text, is_deleted, engine_failed, get_by_id, or_not_found,
  not_an_api_key_row, normalise_api_key_shape,
}
use one_llm_router.Store.Accounts.Shapes.{administered-IsWellShaped}
use one_llm_router.Store.Accounts.Tables.{IsTable, update_rows-IsTable, insert_valid-IsTable}
use one_llm_router.Store.Accounts.Calls.{
  DetailsError, UsageSnapshot, AccountDetailsPatch, set_usage, set_details, applied, details_where,
  is_empty_patch, unless_named, insert_named, create_idempotent_by_name, whatever_count,
  update_usage, after_details, details_of_valid, details_of, update_details,
}

metered-IsOauthShape :
    (stamp : ℕ → ℕ) (now : ℕ) (u : UsageSnapshot) (a : UpstreamAccount)
    → IsOauthShape a
    → IsOauthShape (set_usage stamp now u a)
metered-IsOauthShape stamp now u a s = record {
  no_key = s.no_key;
  has_access = s.has_access;
  has_refresh = s.has_refresh;
  has_id_token = s.has_id_token;
  refreshed = s.refreshed;
  expires = s.expires;
  no_system_one = s.no_system_one;
}

-- The usage of an OAuth row is none of its shape.
metered-IsWellShaped :
    (parse_url : String → Option Url) (stamp : ℕ → ℕ) (now : ℕ) (u : UsageSnapshot) (m : AuthMethod)
    (a : UpstreamAccount)
    → method_is_oauth m ≡ true
    → IsWellShaped parse_url m a
    → IsWellShaped parse_url m (set_usage stamp now u a)
metered-IsWellShaped parse_url stamp now u AuthMethod.oauth_browser a o s =
    metered-IsOauthShape stamp now u a s
metered-IsWellShaped parse_url stamp now u AuthMethod.oauth_device a o s =
    metered-IsOauthShape stamp now u a s
metered-IsWellShaped parse_url stamp now u AuthMethod.oauth_import a o s =
    metered-IsOauthShape stamp now u a s
metered-IsWellShaped parse_url stamp now u AuthMethod.api_key a o s = cc
metered-IsWellShaped parse_url stamp now u (AuthMethod.unknown t) a o s = absurd s

details_where-id :
    (id : ℤ) (p : AccountDetailsPatch) (read a : UpstreamAccount)
    → details_where id p read a ≡ true
    → a.id ≡ id
details_where-id id p read a h = (eq_ℤ_iff a.id id).0 (ground (arith, h))

module _ {S : Type 0} (e : Engine S) (rows : S → List UpstreamAccount) (laws : EngineLaws e rows)
    (parse_url : String → Option Url) where
  -- The rows of an id, all of OAuth accounts.
  abbrev pub IsOauthId : ℤ → S → Type 0
  IsOauthId id s =
      (a : UpstreamAccount) → In a (rows s) → a.id ≡ id → method_is_oauth a.auth_method ≡ true

  whatever_count-inv :
      (r : Result DbError (ℕ × S)) (s' : S)
      → whatever_count e parse_url r ≡ ok s'
      → (n : ℕ) × (r ≡ ok (n, s'))
  whatever_count-inv (err d) s' h = cc
  whatever_count-inv (ok (n, s)) s' h = (n, ap (λ t. ok (n, t)) (ok-eq h))

  pub update_usage-IsTable :
      (now : ℕ) (id : ℤ) (u : UsageSnapshot) (s s' : S)
      → update_usage e parse_url now id u s ≡ ok s'
      → IsOauthId id s
      → IsTable parse_url (rows s)
      → IsTable parse_url (rows s')
  unfolding update_usage
  update_usage-IsTable now id u s s' h oauth t =
      let (n, ran) =
        whatever_count-inv (e.update (has_row_id id) (set_usage e.stamp now u) s) s' h in
      rw (laws.updated (has_row_id id) (set_usage e.stamp now u) s s' n ran).0 (
        update_rows-IsTable parse_url (has_row_id id) (set_usage e.stamp now u) (rows s) (λ a. refl)
          (λ a at hit.
            metered-IsWellShaped parse_url e.stamp now u a.auth_method a
              (oauth a at ((eq_ℤ_iff a.id id).0 hit)) (t.shaped a at))
          t)

  unless_named-IsTable :
      (o : Option UpstreamAccount) (row : UpstreamAccount) (s s' : S) (id : ℤ)
      → validate parse_url row ≡ none
      → unless_named e parse_url o row s ≡ ok (id, s')
      → IsTable parse_url (rows s)
      → IsTable parse_url (rows s')
  unless_named-IsTable (some existing) row s s' id fine h t =
      subst (λ s. IsTable parse_url (rows s)) (ap (λ (p : ℤ × S). p.1) (ok-eq h)) t
  unless_named-IsTable none row s s' id fine h t =
      insert_valid-IsTable e rows laws parse_url row s s' id none fine h t

  insert_named-IsTable :
      (verdict : Option ShapeError) (row : UpstreamAccount) (s s' : S) (id : ℤ)
      → validate parse_url row ≡ verdict
      → insert_named e parse_url verdict row s ≡ ok (id, s')
      → IsTable parse_url (rows s)
      → IsTable parse_url (rows s')
  insert_named-IsTable (some problem) row s s' id fine h t = cc
  insert_named-IsTable none row s s' id fine h t =
      let (o, read, ran) =
        >>=-eq-ok (map_err engine_failed (e.find (λ a. str_eq a.name row.name) s))
          (λ existing. unless_named e parse_url existing row s) h in
      unless_named-IsTable o row s s' id fine ran t

  pub create_idempotent_by_name-IsTable :
      (a : UpstreamAccount) (s s' : S) (id : ℤ)
      → create_idempotent_by_name e parse_url a s ≡ ok (id, s')
      → IsTable parse_url (rows s)
      → IsTable parse_url (rows s')
  unfolding create_idempotent_by_name
  create_idempotent_by_name-IsTable a s s' id h t =
      let row = normalise_api_key_shape e parse_url a in
      let (is_key, ran) =
        guard_not-eq-ok (str_eq (method_text row.auth_method) "api_key") not_an_api_key_row h in
      insert_named-IsTable (validate parse_url row) row s s' id refl ran t

  -- The row of the id is the one that was read and validated with the patch.
  after_details-IsTable :
      (now : ℕ) (id : ℤ) (p : AccountDetailsPatch) (read : UpstreamAccount) (s : S)
      → In read (rows s)
      → read.id ≡ id
      → validate parse_url (applied p read) ≡ none
      → IsTable parse_url (rows s)
      → (r : Result DbError (ℕ × S)) → e.update (details_where id p read) (set_details now p) s ≡ r
      → IsTable parse_url (rows (after_details e parse_url id p read s r).1)
  after_details-IsTable now id p read s at own fine t (err d) ran = t
  after_details-IsTable now id p read s at own fine t (ok (n, s')) ran =
      let good =
        administered-IsWellShaped parse_url read.status read.use_proxy now read.auth_method
          (applied p read) ((validate_iff_IsWellShaped parse_url (applied p read)).0 fine) in
      rw (laws.updated (details_where id p read) (set_details now p) s s' n ran).0 (
        update_rows-IsTable parse_url (details_where id p read) (set_details now p) (rows s)
          (λ a. refl)
          (λ a in_rows hit.
            let same_row = t.keyed a read in_rows at (details_where-id id p read a hit ∙ sym own) in
            subst
              (λ (b : UpstreamAccount). IsWellShaped parse_url b.auth_method (set_details now p b))
              (sym same_row) good)
          t)

  details_of_valid-IsTable :
      (now : ℕ) (id : ℤ) (p : AccountDetailsPatch) (read : UpstreamAccount) (s : S)
      → In read (rows s)
      → read.id ≡ id
      → IsTable parse_url (rows s)
      → (verdict : Option ShapeError) → validate parse_url (applied p read) ≡ verdict
      → IsTable parse_url (rows (details_of_valid e parse_url now id p read verdict s).1)
  details_of_valid-IsTable now id p read s at own t (some problem) fine = t
  details_of_valid-IsTable now id p read s at own t none fine =
      after_details-IsTable now id p read s at own fine t
        (e.update (details_where id p read) (set_details now p) s) refl

  -- What GetByID answers is a row of the id.
  get_by_id-In :
      (id : ℤ) (s : S) (a : UpstreamAccount) → get_by_id e id s ≡ ok a → In a (rows s) × (a.id ≡ id)
  unfolding get_by_id
  get_by_id-In id s a h =
      let (o, read, answered) =
        >>=-eq-ok (map_err engine_failed (e.find (has_row_id id) s)) (or_not_found e) h in
      let first = sym (
        laws.found (has_row_id id) s o
          (map_err-eq-ok engine_failed (e.find (has_row_id id) s) read)) in
      let (at, same_id) =
        first_row-In (has_row_id id) (rows s) a (first ∙ answered_row o answered) in
      (at, (eq_ℤ_iff a.id id).0 same_id)
    where
      answered_row : (o : Option UpstreamAccount) → or_not_found e o ≡ ok a → o ≡ some a
      answered_row none h = cc
      answered_row (some b) h = ap some (ok-eq h)

  details_of-IsTable :
      (now : ℕ) (id : ℤ) (p : AccountDetailsPatch) (s : S)
      → IsTable parse_url (rows s)
      → (r : Result StoreError UpstreamAccount) → get_by_id e id s ≡ r
      → IsTable parse_url (rows (details_of e parse_url now id p r s).1)
  details_of-IsTable now id p s t (err problem) got = t
  details_of-IsTable now id p s t (ok read) got =
      let (at, own) = get_by_id-In id s read got in
      if_intro (λ (x : Result DetailsError UpstreamAccount × S). IsTable parse_url (rows x.1))
        (is_deleted read.status) (λ gone. t)
        (λ there.
          if_intro (λ (x : Result DetailsError UpstreamAccount × S). IsTable parse_url (rows x.1))
            (not (str_eq (method_text read.auth_method) "api_key")) (λ other. t)
            (λ key_row.
              if_intro
                (λ (x : Result DetailsError UpstreamAccount × S). IsTable parse_url (rows x.1))
                (is_empty_patch p) (λ nothing. t)
                (λ something.
                  details_of_valid-IsTable now id p read s at own t
                    (validate parse_url (applied p read)) refl)))

  pub update_details-IsTable :
      (now : ℕ) (id : ℤ) (p : AccountDetailsPatch) (s : S)
      → IsTable parse_url (rows s)
      → IsTable parse_url (rows (update_details e parse_url now id p s).1)
  unfolding update_details
  update_details-IsTable now id p s t = details_of-IsTable now id p s t (get_by_id e id s) refl
