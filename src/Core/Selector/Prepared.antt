-- ===== src/Core/Selector/Prepared.antt =====
-- internal/core/account_selector.go: what a prepared account comes with.
use one_llm_router.Prelude.{
  ◌≡◌, ◌≢◌, refl, ap, subst, sym, ◌∙◌, Bool, true, Option, none, some, List, [], ◌∷◌, map, arith,
  eq_iff, filter, Bool-cases, inl, inr,
}
use one_llm_router.Prelude.Int.{ℤ, is_positive}
use one_llm_router.Prelude.Result.{Result, ok, map_err, >>=-eq-ok, map_err-eq-ok}
use one_llm_router.Domain.Account.{UpstreamAccount, Status, Bytes}
use one_llm_router.Core.Selector.{
  nonempty, AccountSelector, Eligible, PreForward, SelectError, GetError, Token, of_key, of_bytes,
  Prepared, hook_token, prepare_token, with_token, passes, prepare_all, list_eligible_prepared,
  select_by_id_eligible, require_active, get_error,
}

-- A credential that holds something.
abbrev pub IsUsable : Token → Type 0
IsUsable (of_key k) = k ≢ ""
IsUsable (of_bytes b) = b ≢ []

hook_token-IsUsable :
    (b : Bytes) (f : Bool) (t : Token) (g : Bool) → hook_token b f ≡ ok (t, g) → IsUsable t
unfolding hook_token
hook_token-IsUsable none f t g h = cc
hook_token-IsUsable (some []) f t g h = cc
hook_token-IsUsable (some (x ∷ b)) f (of_key k) g h = ground arith
hook_token-IsUsable (some (x ∷ b)) f (of_bytes c) g h = ground arith

prepare_token-IsUsable :
    (hook : Option PreForward) (a : UpstreamAccount) (t : Token) (g : Bool)
    → prepare_token hook a ≡ ok (t, g)
    → IsUsable t
unfolding prepare_token
prepare_token-IsUsable none a (of_key k) g h = ground (arith, eq_iff a.api_key "")
prepare_token-IsUsable none a (of_bytes c) g h = ground arith
prepare_token-IsUsable (some hook) a t g h =
    let ((b, f), answered, rest) = >>=-eq-ok (map_err SelectError.refresh_failed (hook a)) _ h in
    hook_token-IsUsable b f t g rest

with_token_lem :
    (hook : Option PreForward) (a : UpstreamAccount) (p : Prepared)
    → with_token hook a ≡ ok p
    → (p.0 ≡ a) × IsUsable p.1
unfolding with_token
with_token_lem hook a p h =
    let ((t, g), prepared, rest) = >>=-eq-ok (prepare_token hook a) _ h in
    (ground arith, subst IsUsable (ground arith) (prepare_token-IsUsable hook a t g prepared))

abbrev pub AllUsable : List Prepared → Type 0
AllUsable [] = Unit
AllUsable (p ∷ ps) = IsUsable p.1 × AllUsable ps

-- The accounts that pass the filter, in order, each with a credential.
abbrev pub Serves : Eligible → List UpstreamAccount → List Prepared → Type 0
Serves e l ps = (map (λ (p : Prepared). p.0) ps ≡ filter (passes e) l) × AllUsable ps

prepare_all-Serves :
    (hook : Option PreForward) (e : Eligible) (l : List UpstreamAccount) (ps : List Prepared)
    → prepare_all hook e l ≡ ok ps
    → Serves e l ps
unfolding prepare_all
prepare_all-Serves hook e [] ps h = subst (Serves e []) {x = []} (ground arith) (refl, tt)
prepare_all-Serves hook e (a ∷ l) ps h = elim (Bool-cases (passes e a)) [
  | inl t ↦
      let (p, made, rest) = >>=-eq-ok (with_token hook a) _ (rw t at h) in
      let (qs, others, whole) = >>=-eq-ok (prepare_all hook e l) _ rest in
      let (same, usable) = with_token_lem hook a p made in
      let (order, all_usable) = prepare_all-Serves hook e l qs others in
      subst (Serves e (a ∷ l)) {x = p ∷ qs} (ground arith)
        (rw t (cc (same, order)), (usable, all_usable))
  | inr f ↦ rw f (prepare_all-Serves hook e l ps (rw f at h))
]

nonempty_lem : (ps qs : List Prepared) → nonempty ps ≡ ok qs → ps ≡ qs
nonempty_lem [] qs h = cc
nonempty_lem (p ∷ ps) qs h = ground arith

-- When ListEligiblePrepared succeeds it returns every listed account that passes the filter, in the
-- listed order, and each has a credential that is not empty.
pub list_eligible_prepared-Serves :
    (s : AccountSelector) (e : Eligible) (l : List UpstreamAccount) (ps : List Prepared)
    → list_eligible_prepared s e (ok l) ≡ ok ps
    → Serves e l ps
unfolding list_eligible_prepared
list_eligible_prepared-Serves s e l ps h =
    let (qs, made, rest) = >>=-eq-ok (prepare_all s.pre_forward e l) _ h in
    prepare_all-Serves s.pre_forward e l ps (made ∙ ap ok (nonempty_lem qs ps rest))

require_active_lem :
    (id : ℤ) (status : Status) (u : Unit {0})
    → require_active id status ≡ ok u
    → status ≡ Status.active
unfolding require_active
require_active_lem id Status.active u h = refl
require_active_lem id Status.disabled u h = cc
require_active_lem id Status.deleted u h = cc
require_active_lem id (Status.other s) u h = cc

-- SelectByIDEligible returns an account only for a positive id, and then the stored one: active,
-- passing the filter, with a credential that is not empty.
pub select_by_id_lem :
    (s : AccountSelector) (id : ℤ) (e : Eligible) (found : Result GetError UpstreamAccount)
    (p : Prepared)
    → select_by_id_eligible s id e found ≡ ok p
    → (is_positive id ≡ true)
      × (found ≡ ok p.0)
      × (p.0.status ≡ Status.active)
      × (passes e p.0 ≡ true)
      × IsUsable p.1
unfolding select_by_id_eligible
select_by_id_lem s id e found p h = elim (Bool-cases (is_positive id)) [
  | inr f ↦ absurd (cc (rw f at h))
  | inl t ↦
      let (a, got, rest) = >>=-eq-ok (map_err (get_error id) found) _ (rw t at h) in
      let (u, live, last) = >>=-eq-ok (require_active id a.status) _ rest in
      elim (Bool-cases (passes e a)) [
        | inr f ↦ absurd (cc (rw f at last))
        | inl pass ↦
            let (same, usable) = with_token_lem s.pre_forward a p (rw pass at last) in
            (
              t,
              map_err-eq-ok (get_error id) found got ∙ ap ok (sym same),
              rw same (require_active_lem id a.status u live),
              rw same pass,
              usable,
            )
      ]
]
