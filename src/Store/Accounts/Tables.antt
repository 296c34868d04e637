-- ===== src/Store/Accounts/Tables.antt =====
-- internal/store/accounts.go: operations keep the table a table of well shaped rows.
use one_llm_router.Prelude.{
  ℕ, ◌≡◌, ◌≢◌, In, In-append, inl, inr, refl, sym, ap, ◌∙◌, subst, String, Bool, true, Option, none,
  some, List, [], ◌∷◌, ◌++◌, arith, str_eq, if_intro,
}
use one_llm_router.Prelude.Int.{ℤ, eq_ℤ_iff}
use one_llm_router.Prelude.Result.{ok}
use one_llm_router.Domain.Account.{UpstreamAccount, Status, method_is_oauth}
use one_llm_router.Domain.BaseUrl.{Url}
use one_llm_router.Domain.Shape.{validate}
use one_llm_router.Domain.Shape.Laws.{IsWellShaped, validate_iff_IsWellShaped}
use one_llm_router.Store.Engine.{Engine, EngineLaws, Where, Set, stored_row, update_rows}
use one_llm_router.Store.Rows.{In-update_rows, first_row-In, row_after, row_of-update_rows}
use one_llm_router.Store.Accounts.{
  CredentialPatch, StoreError, patch_fits, method_text, has_row_id, credential_where,
  set_credentials, update_credentials,
}
use one_llm_router.Store.Accounts.Written.{update_credentials-Written, after_update-ok}
use one_llm_router.Store.Accounts.Shapes.{
  method_text-eq, set_credentials-IsWellShaped, stored_row-IsWellShaped, administered-IsWellShaped,
}
use one_llm_router.Store.Accounts.{
  update_status_if_current, create, normalise_api_key_shape, insert_valid, after_update,
  conflict_or_missing, engine_failed, not_an_api_key_row,
}
use one_llm_router.Prelude.Result.{map_err-eq-ok, guard_not-eq-ok}
use one_llm_router.Domain.Shape.{ShapeError}

-- A table whose rows are well shaped and have different ids.
pub record IsTable (parse_url : String → Option Url) (rows : List UpstreamAccount) : Type 0 where
  pub shaped : (a : UpstreamAccount) → In a rows → IsWellShaped parse_url a.auth_method a
  pub keyed : (a b : UpstreamAccount) → In a rows → In b rows → a.id ≡ b.id → a ≡ b

set_credentials-id :
    (stamp : ℕ → ℕ) (now : ℕ) (p : CredentialPatch) (a : UpstreamAccount)
    → (set_credentials stamp now p a).id ≡ a.id
set_credentials-id stamp now p a =
    if_intro (λ (x : UpstreamAccount). x.id ≡ a.id) (method_is_oauth p.auth_method) (λ t. refl)
      (λ f. refl)

set_credentials-method :
    (stamp : ℕ → ℕ) (now : ℕ) (p : CredentialPatch) (a : UpstreamAccount)
    → (set_credentials stamp now p a).auth_method ≡ a.auth_method
set_credentials-method stamp now p a =
    if_intro (λ (x : UpstreamAccount). x.auth_method ≡ a.auth_method)
      (method_is_oauth p.auth_method) (λ t. refl) (λ f. refl)

pub credential_where-id :
    (stamp : ℕ → ℕ) (id : ℤ) (p : CredentialPatch) (a : UpstreamAccount)
    → credential_where stamp id p a ≡ true
    → a.id ≡ id
credential_where-id stamp id p a h = (eq_ℤ_iff a.id id).0 (ground (arith, h))

row_after-id :
    (w : Where) (f : Set) (a : UpstreamAccount)
    → ((x : UpstreamAccount) → (f x).id ≡ x.id)
    → (row_after w f a).id ≡ a.id
row_after-id w f a same_id =
    if_intro (λ (x : UpstreamAccount). x.id ≡ a.id) (w a) (λ t. same_id a) (λ n. refl)

-- An update that keeps ids and sign-in methods, and the shape of every row that it writes.
pub update_rows-IsTable :
    (parse_url : String → Option Url) (w : Where) (f : Set) (rows : List UpstreamAccount)
    → ((a : UpstreamAccount) → (f a).id ≡ a.id)
    → ((a : UpstreamAccount)
        → In a rows
        → w a ≡ true
        → IsWellShaped parse_url (f a).auth_method (f a))
    → IsTable parse_url rows
    → IsTable parse_url (update_rows w f rows)
update_rows-IsTable parse_url w f rows same_id writes t = record {
  shaped = λ b i.
      let (a, at, how) = In-update_rows w f rows b i in
      elim how [ inl (hit, e) ↦ rw e (writes a at hit) | inr (miss, e) ↦ rw e (t.shaped a at) ];
  keyed = λ b b' i i' e.
      let (a, at, made) = row_of-update_rows w f rows b i in
      let (a', at', made') = row_of-update_rows w f rows b' i' in
      let same_row = t.keyed a a' at at' (
        sym (row_after-id w f a same_id)
        ∙ sym (ap (λ x. x.id) made)
        ∙ e
        ∙ ap (λ x. x.id) made'
        ∙ row_after-id w f a' same_id) in
      made ∙ ap (row_after w f) same_row ∙ sym made';
}

module _ {S : Type 0} (e : Engine S) (rows : S → List UpstreamAccount) (laws : EngineLaws e rows)
    (parse_url : String → Option Url) where
  pub update_credentials-IsTable :
      (now : ℕ) (id : ℤ) (p : CredentialPatch) (s s' : S)
      → update_credentials e now id p s ≡ ok s'
      → IsTable parse_url (rows s)
      → IsTable parse_url (rows s')
  update_credentials-IsTable now id p s s' h t =
      let w = update_credentials-Written e rows laws now id p s s' h in
      let (at, same_id) = first_row-In (has_row_id id) (rows s) w.existing w.found in
      let same =
        method_text-eq parse_url w.existing.auth_method p.auth_method w.existing p
          (t.shaped w.existing at) w.fits w.same_method in
      rw w.result (
        update_rows-IsTable parse_url (credential_where e.stamp id p)
          (set_credentials e.stamp now p) (rows s) (set_credentials-id e.stamp now p)
          (λ a in_rows hit.
            let same_row = t.keyed a w.existing in_rows at (
              credential_where-id e.stamp id p a hit
              ∙ sym ((eq_ℤ_iff w.existing.id id).0 same_id)) in
            let own = ap (λ x. x.auth_method) same_row ∙ same in
            subst (λ m. IsWellShaped parse_url m (set_credentials e.stamp now p a))
              (sym (set_credentials-method e.stamp now p a))
              (set_credentials-IsWellShaped parse_url e.stamp now p a.auth_method a (sym own)
                (subst (λ m. patch_fits m p ≡ true) (sym own) w.fits) (t.shaped a in_rows)))
          t)

  -- An update of the columns of an administrator.
  pub administered-IsTable :
      (w : Where) (status : UpstreamAccount → Status) (use_proxy : UpstreamAccount → Bool) (now : ℕ)
      (s s' : S) (missed : StoreError)
      → after_update e
          (e.update w
            (λ a. record a { status = status a; use_proxy = use_proxy a; updated_at = now })
            s)
          missed
        ≡ ok s'
      → IsTable parse_url (rows s)
      → IsTable parse_url (rows s')
  administered-IsTable w status use_proxy now s s' missed h t =
      rw
        (after_update-ok e rows laws w
          (λ a. record a { status = status a; use_proxy = use_proxy a; updated_at = now }) s s'
          missed h).0
        (update_rows-IsTable parse_url w _ (rows s) (λ a. refl)
          (λ a at hit.
            administered-IsWellShaped parse_url (status a) (use_proxy a) now a.auth_method a
              (t.shaped a at))
          t)

  pub update_status_if_current-IsTable :
      (now : ℕ) (id : ℤ) (status : Status) (expected : ℕ) (s s' : S)
      → update_status_if_current e now id status expected s ≡ ok s'
      → IsTable parse_url (rows s)
      → IsTable parse_url (rows s')
  unfolding update_status_if_current
  update_status_if_current-IsTable now id status expected s s' h t =
      administered-IsTable _ (λ a. status) (λ a. a.use_proxy) now s s'
        (conflict_or_missing e (e.find (has_row_id id) s)) h t

  -- A new row with an id of its own.
  pushed-IsTable :
      (a : UpstreamAccount) (old : List UpstreamAccount)
      → IsWellShaped parse_url a.auth_method a
      → ((b : UpstreamAccount) → In b old → b.id ≢ a.id)
      → IsTable parse_url old
      → IsTable parse_url (old ++ a ∷ [])
  pushed-IsTable a old good apart t = record {
    shaped = λ b i. elim (In-append b old (a ∷ []) i) [
      | inl before ↦ t.shaped b before
      | inr own ↦ elim own [ inl e ↦ rw e good | inr nobody ↦ absurd nobody ]
    ];
    keyed = λ b b' i i' e. elim (In-append b old (a ∷ []) i) [
      | inl before ↦ elim (In-append b' old (a ∷ []) i') [
        | inl before' ↦ t.keyed b b' before before' e
        | inr own' ↦ elim own' [
          | inl o' ↦ absurd (apart b before (e ∙ ap (λ x. x.id) o'))
          | inr nobody ↦ absurd nobody
        ]
      ]
      | inr own ↦ elim own [
        | inl o ↦ elim (In-append b' old (a ∷ []) i') [
          | inl before' ↦ absurd (apart b' before' (sym e ∙ ap (λ x. x.id) o))
          | inr own' ↦ elim own' [ inl o' ↦ o ∙ sym o' | inr nobody ↦ absurd nobody ]
        ]
        | inr nobody ↦ absurd nobody
      ]
    ];
  }

  pub insert_valid-IsTable :
      (a : UpstreamAccount) (s s' : S) (id : ℤ) (verdict : Option ShapeError)
      → validate parse_url a ≡ verdict
      → insert_valid e parse_url verdict a s ≡ ok (id, s')
      → IsTable parse_url (rows s)
      → IsTable parse_url (rows s')
  insert_valid-IsTable a s s' id (some problem) judged h t = cc
  insert_valid-IsTable a s s' id none judged h t =
      let ran = map_err-eq-ok engine_failed (e.insert a s) h in
      let (created, updated, grown) = laws.inserted a s s' id ran in
      rw grown (
        pushed-IsTable (stored_row e.stamp id created updated a) (rows s)
          (stored_row-IsWellShaped parse_url e.stamp id created updated a.auth_method a
            ((validate_iff_IsWellShaped parse_url a).0 judged))
          (laws.fresh a s s' id ran) t)

  pub create-IsTable :
      (a : UpstreamAccount) (s s' : S) (id : ℤ)
      → create e parse_url a s ≡ ok (id, s')
      → IsTable parse_url (rows s)
      → IsTable parse_url (rows s')
  unfolding create
  create-IsTable a s s' id h t =
      let row = normalise_api_key_shape e parse_url a in
      let (is_key, ran) =
        guard_not-eq-ok (str_eq (method_text row.auth_method) "api_key") not_an_api_key_row h in
      insert_valid-IsTable row s s' id (validate parse_url row) refl ran t
