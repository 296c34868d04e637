-- ===== src/Store/Accounts/Written.antt =====
-- internal/store/accounts.go: what an update that succeeds has found and written.
use one_llm_router.Prelude.{
  ℕ, ◌≡◌, ◌≢◌, sym, ap, true, false, Option, none, some, List, arith, str_eq, ◌==◌,
}
use one_llm_router.Prelude.Int.{ℤ}
use one_llm_router.Prelude.Result.{
  Result, ok, err, >>=-eq-ok, ok-eq, guard-eq-ok, guard_not-eq-ok, map_err, map_err-eq-ok,
}
use one_llm_router.Domain.Account.{UpstreamAccount}
use one_llm_router.Store.Engine.{
  Engine, EngineLaws, DbError, Where, Set, first_row, update_rows, count_rows,
}
use one_llm_router.Store.Accounts.{
  CredentialPatch, StoreError, patch_fits, is_deleted, stored_method, method_text, has_row_id,
  credential_where, set_credentials, update_existing, update_credentials, after_update,
  engine_failed, miss_reason, is_conditional, account_not_found, auth_method_mismatch,
  malformed_patch,
}

after_update-inv :
    {S : Type 0} (e : Engine S) (r : Result DbError (ℕ × S)) (missed : StoreError) (s' : S)
    → after_update e r missed ≡ ok s'
    → (n : ℕ) × (r ≡ ok (n, s')) × (n ≢ 0)
after_update-inv e (err d) missed s' h = cc
after_update-inv e (ok (n, s)) missed s' h =
    let (nz, same) = guard-eq-ok (n == 0) missed h in
    (n, ap (λ t. ok (n, t)) (ok-eq same), λ z. ground (arith, nz))

-- What an update of credentials that succeeds has read, and what it leaves.
pub record Written {S : Type 0} (e : Engine S) (rows : S → List UpstreamAccount) (now : ℕ) (id : ℤ)
    (p : CredentialPatch) (s s' : S) : Type 0 where
  pub fits : patch_fits p.auth_method p ≡ true
  pub existing : UpstreamAccount
  pub found : first_row (has_row_id id) (rows s) ≡ some existing
  pub kept : is_deleted existing.status ≡ false
  pub same_method : str_eq (stored_method existing.auth_method) (method_text p.auth_method) ≡ true
  pub result :
      rows s' ≡ update_rows (credential_where e.stamp id p) (set_credentials e.stamp now p) (rows s)
  pub matched : count_rows (credential_where e.stamp id p) (rows s) ≢ 0

module _ {S : Type 0} (e : Engine S) (rows : S → List UpstreamAccount)
    (laws : EngineLaws e rows) where
  pub after_update-ok :
      (w : Where) (f : Set) (s s' : S) (missed : StoreError)
      → after_update e (e.update w f s) missed ≡ ok s'
      → (rows s' ≡ update_rows w f (rows s)) × (count_rows w (rows s) ≢ 0)
  after_update-ok w f s s' missed h =
      let (n, ran, nz) = after_update-inv e (e.update w f s) missed s' h in
      let (written, at_most, idle) = laws.updated w f s s' n ran in
      (written, λ z. nz (omega (arith, at_most, z)))

  update_existing-Written :
      (now : ℕ) (id : ℤ) (p : CredentialPatch) (s s' : S)
      → patch_fits p.auth_method p ≡ true
      → (o : Option UpstreamAccount) → first_row (has_row_id id) (rows s) ≡ o
      → update_existing e now id p o s ≡ ok s'
      → Written e rows now id p s s'
  update_existing-Written now id p s s' fits none found h = cc
  update_existing-Written now id p s s' fits (some a) found h =
      let (kept, second) = guard-eq-ok (is_deleted a.status) account_not_found h in
      let (same, third) =
        guard_not-eq-ok (str_eq (stored_method a.auth_method) (method_text p.auth_method))
          auth_method_mismatch second in
      let (written, hit) =
        after_update-ok (credential_where e.stamp id p) (set_credentials e.stamp now p) s s'
          (miss_reason e (e.find (has_row_id id) s) (is_conditional e p)) third in
      record {
        fits = fits;
        existing = a;
        found = found;
        kept = kept;
        same_method = same;
        result = written;
        matched = hit;
      }

  pub update_credentials-Written :
      (now : ℕ) (id : ℤ) (p : CredentialPatch) (s s' : S)
      → update_credentials e now id p s ≡ ok s'
      → Written e rows now id p s s'
  unfolding update_credentials
  update_credentials-Written now id p s s' h =
      let (fits, ran) = guard_not-eq-ok (patch_fits p.auth_method p) malformed_patch h in
      let (o, read, written) =
        >>=-eq-ok (map_err engine_failed (e.find (has_row_id id) s))
          (λ existing. update_existing e now id p existing s) ran in
      update_existing-Written now id p s s' fits o
        (sym (
          laws.found (has_row_id id) s o
            (map_err-eq-ok engine_failed (e.find (has_row_id id) s) read)))
        written
