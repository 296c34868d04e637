-- ===== src/Store/Accounts/Locks.antt =====
-- internal/store/accounts.go: the condition on last_refresh as an optimistic lock.
use one_llm_router.Prelude.{
  ℕ, ◌≡◌, ◌≢◌, inl, inr, In, ◌⊎◌, sym, ap, ◌∙◌, subst, true, false, ◌&&◌, Option, none, some, List,
  arith, ==_iff, if◌then◌else◌,
}
use one_llm_router.Prelude.Int.{ℤ, eq_ℤ, eq_ℤ_iff}
use one_llm_router.Prelude.Result.{ok}
use one_llm_router.Domain.Account.{UpstreamAccount, Status, method_is_oauth}
use one_llm_router.Store.Engine.{Engine, EngineLaws, Where, Set, count_rows}
use one_llm_router.Store.Rows.{count-update_rows, count_rows-positive, In-update_rows}
use one_llm_router.Store.Accounts.{
  CredentialPatch, credential_where, set_credentials, update_credentials, update_status_if_current,
  conflict_or_missing, has_row_id, is_kept, is_active, was_refreshed_at, matches_expected,
}
use one_llm_router.Store.Accounts.Written.{update_credentials-Written, after_update-ok}

module _ (stamp : ℕ → ℕ) (id : ℤ) (now seen set : ℕ) (moved : stamp set ≢ stamp seen)
    (p q : CredentialPatch) (p_oauth : method_is_oauth p.auth_method ≡ true)
    (q_oauth : method_is_oauth q.auth_method ≡ true) (p_seen : p.expected_last_refresh ≡ some seen)
    (q_seen : q.expected_last_refresh ≡ some seen) (p_set : p.last_refresh ≡ some set) where
  -- The row that was written is not the row that the other writer has seen.
  written_miss :
      (a : UpstreamAccount)
      → credential_where stamp id p a ≡ true
      → credential_where stamp id q (set_credentials stamp now p a) ≡ false
  written_miss a h = rw (p_oauth, q_oauth, q_seen, p_set) (ground (arith, moved))

  other_miss :
      (a : UpstreamAccount)
      → credential_where stamp id p a ≡ false
      → credential_where stamp id q a ≡ false
  other_miss a h =
      rw (q_oauth, q_seen)
        (subst (λ o. (is_kept id a && matches_expected stamp o a) ≡ false) p_seen
          (subst
            (λ b.
              (if b
                then is_kept id a && matches_expected stamp p.expected_last_refresh a
                else is_kept id a)
              ≡ false)
            p_oauth h))

-- Two writers have read the same row. Once one of them has stored new tokens for it, the other's update
-- does not succeed: where both patches are of OAuth and expect the same last_refresh, and the first has
-- set one that the database tells from it. So no refresh overwrites another that it has not seen.
pub no_lost_update :
    {S : Type 0} (e : Engine S) (rows : S → List UpstreamAccount) (laws : EngineLaws e rows)
    (now later seen set : ℕ) (id : ℤ) (p q : CredentialPatch) (s s' s'' : S)
    → method_is_oauth p.auth_method ≡ true
    → method_is_oauth q.auth_method ≡ true
    → p.expected_last_refresh ≡ some seen
    → q.expected_last_refresh ≡ some seen
    → p.last_refresh ≡ some set
    → e.stamp set ≢ e.stamp seen
    → update_credentials e now id p s ≡ ok s'
    → update_credentials e later id q s' ≢ ok s''
no_lost_update e rows laws now later seen set id p q s s' s'' p_oauth q_oauth p_seen q_seen p_set
      moved first second =
    let won = update_credentials-Written e rows laws now id p s s' first in
    let lost = update_credentials-Written e rows laws later id q s' s'' second in
    lost.matched (
      ap (count_rows (credential_where e.stamp id q)) won.result
      ∙ count-update_rows (credential_where e.stamp id p) (credential_where e.stamp id q)
          (set_credentials e.stamp now p)
          (written_miss e.stamp id now seen set moved p q p_oauth q_oauth p_seen q_seen p_set)
          (other_miss e.stamp id now seen set moved p q p_oauth q_oauth p_seen q_seen p_set)
          (rows s))

was_refreshed_at-some : (o : Option ℕ) (t : ℕ) → was_refreshed_at o t ≡ true → o ≡ some t
was_refreshed_at-some none t h = cc
was_refreshed_at-some (some r) t h = ap some ((==_iff r t).0 h)

lock_row :
    (stamp : ℕ → ℕ) (id : ℤ) (expected : ℕ) (a : UpstreamAccount)
    → (eq_ℤ a.id id && is_active a.status && was_refreshed_at a.last_refresh (stamp expected))
      ≡ true
    → (a.id ≡ id) × (is_active a.status ≡ true) × (a.last_refresh ≡ some (stamp expected))
lock_row stamp id expected a h = (
  (eq_ℤ_iff a.id id).0 (ground (arith, h)),
  ground (arith, h),
  was_refreshed_at-some a.last_refresh (stamp expected) (ground (arith, h)),
)

-- A change of status behind the lock that succeeds has found an active row of this id with the
-- last_refresh that was expected, and writes no other rows than those.
pub status_behind_lock :
    {S : Type 0} (e : Engine S) (rows : S → List UpstreamAccount) (laws : EngineLaws e rows)
    (now expected : ℕ) (id : ℤ) (status : Status) (s s' : S)
    → update_status_if_current e now id status expected s ≡ ok s'
    → ((a : UpstreamAccount) × In a (rows s)
        × (a.id ≡ id)
        × (is_active a.status ≡ true)
        × (a.last_refresh ≡ some (e.stamp expected)))
      × ((b : UpstreamAccount)
          → In b (rows s')
          → In b (rows s)
            ⊎ ((b.id ≡ id) × (b.status ≡ status) × (b.last_refresh ≡ some (e.stamp expected))))
unfolding update_status_if_current
status_behind_lock e rows laws now expected id status s s' h =
    let w : Where = λ a.
      eq_ℤ a.id id && is_active a.status && was_refreshed_at a.last_refresh (e.stamp expected) in
    let f : Set = λ a. record a { status = status; updated_at = now } in
    let (written, hit) =
      after_update-ok e rows laws w f s s' (conflict_or_missing e (e.find (has_row_id id) s)) h in
    let (a, at, t) = count_rows-positive w (rows s) hit in
    let (same_id, was_active, same_time) = lock_row e.stamp id expected a t in
    (
      (a, at, same_id, was_active, same_time),
      λ b i.
          let (x, from, how) = In-update_rows w f (rows s) b (subst (In b) written i) in
          elim how [
            | inl changed ↦
                let (same_id, was_active, same_time) = lock_row e.stamp id expected x changed.0 in
                inr (
                  ap (λ y. y.id) changed.1 ∙ same_id,
                  ap (λ y. y.status) changed.1,
                  ap (λ y. y.last_refresh) changed.1 ∙ same_time,
                )
            | inr same ↦ inl (subst (λ y. In y (rows s)) (sym same.1) from)
          ],
    )
