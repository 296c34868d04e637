-- ===== src/Core/Selector.antt =====
-- internal/core/account_selector.go. What the repository and the pre-forward hook answer, and the
-- session router, are arguments; the counter is the only state that a call changes.
pub mod Compact
pub mod Pick
pub mod Prepared
use one_llm_router.Prelude.{
  ℕ, zero, suc, ◌+◌, ◌-◌, ◌%◌, ◌^◌, String, Bool, true, false, not, ◌&&◌, Option, none, some, List,
  [], ◌∷◌, length, get_elem?, set, take, str_eq, if◌then◌else◌,
}
use one_llm_router.Prelude.Int.{ℤ, is_positive}
use one_llm_router.Prelude.Result.{Result, ok, err, ◌>>=◌, ◌>>◌, map_err}
use one_llm_router.Domain.Account.{UpstreamAccount, Status, Bytes, bytes_empty, system_one_only}

pub data Reason : Type 0 where
  missing deleted disabled ineligible credential_unavailable : Reason

-- The errors that a selection returns; an error from outside keeps its text.
pub data SelectError : Type 0 where
  list_failed : String → SelectError
  no_capacity : SelectError
  account_unavailable : ℤ → Reason → SelectError
  get_failed : ℤ → String → SelectError
  refresh_failed : String → SelectError
  empty_token : SelectError
  index_out_of_range : SelectError

-- What AccountRepository.GetByID returns when it fails.
pub data GetError : Type 0 where
  account_not_found : GetError
  store_error : String → GetError

abbrev pub Eligible : Type 0
Eligible = Option (UpstreamAccount → Bool)

abbrev pub Router : Type 0
Router = String → List UpstreamAccount → Result SelectError UpstreamAccount

-- PreForward: the token, which may be nil, and whether it is a fallback
abbrev pub PreForward : Type 0
PreForward = UpstreamAccount → Result String (Bytes × Bool)

pub record AccountSelector : Type 0 where
  pub session_router : Option Router
  pub counter : ℕ
  pub pre_forward : Option PreForward

-- for _, acct := range active { if eligible(acct) { filtered = append(filtered, acct) } }, where
-- `filtered` is active[:0] and so writes into the array that the loop reads: `i` is the read
-- position and `j` the length of `filtered`
unfoldable pub compact : {A : Type 0} → (A → Bool) → ℕ → ℕ → ℕ → List A → List A
compact p zero i j array = take j array
compact p (suc left) i j array = elim (get_elem? array i) [
  | none ↦ take j array
  | some a ↦
      let kept = compact p left (suc i) (suc j) (set array j a) in
      let passed = compact p left (suc i) j array in if p a then kept else passed
]

unfoldable pub filter_in_place : {A : Type 0} → (A → Bool) → List A → List A
unfolding compact
filter_in_place p active = compact p (length active) 0 0 active

unfoldable pub narrow : Eligible → List UpstreamAccount → List UpstreamAccount
narrow none active = active
narrow (some eligible) active = filter_in_place eligible active

abbrev pub u64_mod : ℕ
u64_mod = 2 ^ 64

-- s.counter.Add(1)
unfoldable pub bump : AccountSelector → AccountSelector
bump s = record s { counter = (s.counter + 1) % u64_mod }

-- s.counter.Add(1) - 1
unfoldable pub ticket : AccountSelector → ℕ
ticket s = ((s.counter + 1) % u64_mod + u64_mod - 1) % u64_mod

abbrev pub at : List UpstreamAccount → ℕ → Result SelectError UpstreamAccount
at active i = elim (get_elem? active i) [ none ↦ err index_out_of_range | some a ↦ ok a ]

unfoldable pub round_robin :
    AccountSelector → List UpstreamAccount → Result SelectError UpstreamAccount × AccountSelector
unfolding bump ticket
round_robin s active = (at active (ticket s % length active), bump s)

unfoldable pub choose :
    Option Router
    → String
    → AccountSelector
    → List UpstreamAccount
    → Result SelectError UpstreamAccount × AccountSelector
choose router key s [] = (err no_capacity, s)
choose none key s (a ∷ active) = round_robin s (a ∷ active)
choose (some route) key s (a ∷ active) =
    if not (str_eq key "") then (route key (a ∷ active), s) else round_robin s (a ∷ active)

unfoldable pub pick :
    AccountSelector
    → String
    → Eligible
    → Result String (List UpstreamAccount)
    → Result SelectError UpstreamAccount × AccountSelector
pick s key eligible (err e) = (err (list_failed e), s)
pick s key eligible (ok active) = choose s.session_router key s (narrow eligible active)

-- SelectAccount
pub select_account :
    AccountSelector
    → String
    → Result String (List UpstreamAccount)
    → Result SelectError UpstreamAccount × AccountSelector
select_account s key listed = pick s key (some (λ a. not (system_one_only a))) listed

-- A credential handed to the forwarder: `[]byte(acct.APIKey)`, or the bytes that the hook returned.
pub data Token : Type 0 where
  of_key : String → Token
  of_bytes : List ℕ → Token

abbrev pub Prepared : Type 0
Prepared = UpstreamAccount × Token × Bool

-- `if len(token) == 0`, else cloneBytes(token)
unfoldable pub hook_token : Bytes → Bool → Result SelectError (Token × Bool)
hook_token none fallback = err empty_token
hook_token (some []) fallback = err empty_token
hook_token (some (b ∷ bytes)) fallback = ok (of_bytes (b ∷ bytes), fallback)

-- prepareToken
unfoldable pub prepare_token :
    Option PreForward → UpstreamAccount → Result SelectError (Token × Bool)
prepare_token none a =
    if str_eq a.api_key ""
    then err (account_unavailable a.id credential_unavailable)
    else ok (of_key a.api_key, false)
prepare_token (some hook) a = do
  (token, fallback) ← map_err refresh_failed (hook a)
  hook_token token fallback

unfoldable pub with_token : Option PreForward → UpstreamAccount → Result SelectError Prepared
with_token hook a = do (token, fallback) ← prepare_token hook a; ok (a, token, fallback)

-- SelectEligible; Select is the case of no filter
pub select_eligible :
    AccountSelector
    → String
    → Eligible
    → Result String (List UpstreamAccount)
    → Result SelectError Prepared × AccountSelector
select_eligible s key eligible listed =
    let (picked, s') = pick s key eligible listed in (picked >>= with_token s.pre_forward, s')

abbrev pub passes : Eligible → UpstreamAccount → Bool
passes none a = true
passes (some eligible) a = eligible a

-- the loop of ListEligiblePrepared
unfoldable pub prepare_all :
    Option PreForward → Eligible → List UpstreamAccount → Result SelectError (List Prepared)
prepare_all hook eligible [] = ok []
prepare_all hook eligible (a ∷ active) =
    let rest = prepare_all hook eligible active in
    if not (passes eligible a)
    then rest
    else do prepared ← with_token hook a; others ← rest; ok (prepared ∷ others)

abbrev pub nonempty : {A : Type 0} → List A → Result SelectError (List A)
nonempty [] = err no_capacity
nonempty (a ∷ l) = ok (a ∷ l)

-- ListEligiblePrepared
unfoldable pub list_eligible_prepared :
    AccountSelector
    → Eligible
    → Result String (List UpstreamAccount)
    → Result SelectError (List Prepared)
list_eligible_prepared s eligible listed = do
  active ← map_err list_failed listed
  prepared ← prepare_all s.pre_forward eligible active
  nonempty prepared

-- the loop of ListEligibleAccounts
pub eligible_of : Eligible → List UpstreamAccount → List UpstreamAccount
eligible_of eligible [] = []
eligible_of eligible (a ∷ active) =
    let rest = eligible_of eligible active in if not (passes eligible a) then rest else a ∷ rest

-- ListEligibleAccounts
pub list_eligible_accounts :
    Eligible → Result String (List UpstreamAccount) → Result SelectError (List UpstreamAccount)
list_eligible_accounts eligible listed = do
  active ← map_err list_failed listed
  nonempty (eligible_of eligible active)

unfoldable pub get_error : ℤ → GetError → SelectError
get_error id account_not_found = account_unavailable id missing
get_error id (store_error e) = get_failed id e

-- the switch on acct.Status
unfoldable pub require_active : ℤ → Status → Result SelectError (Unit {0})
require_active id Status.active = ok tt
require_active id Status.disabled = err (account_unavailable id disabled)
require_active id Status.deleted = err (account_unavailable id deleted)
require_active id (Status.other s) = err (account_unavailable id ineligible)

-- SelectByIDEligible, given what GetByID answers; SelectByID is the case of no filter
unfoldable pub select_by_id_eligible :
    AccountSelector → ℤ → Eligible → Result GetError UpstreamAccount → Result SelectError Prepared
select_by_id_eligible s id eligible found =
    if not (is_positive id) then err (account_unavailable id missing) else do
      a ← map_err (get_error id) found
      require_active id a.status
      if not (passes eligible a)
          then err (account_unavailable id ineligible)
          else with_token s.pre_forward a
