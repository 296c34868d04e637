-- ===== src/Oauth/Requests.antt =====
-- internal/oauth/coordinator.go: what a request is answered before it contends for a flow.
pub mod Replies
use one_llm_router.Prelude.{
  ℕ, String, Bool, true, false, not, ◌&&◌, ◌||◌, Option, none, some, List, [], ◌∷◌, ltb, leb,
  str_eq, get_elem?, if◌then◌else◌,
}
use one_llm_router.Prelude.Result.{Result, ok, err}
use one_llm_router.Oauth.Flow.{Flow, Rail, FlowStatus, is_unknown}
use one_llm_router.Oauth.Coordinator.{Coordinator}

-- ErrFlowNotFound, ErrStateMismatch, ErrAlreadyConsumed, ErrFlowExpired, a provider error that does
-- not cancel, and the error of readWinnerRail.
pub data Refusal : Type 0 where
  flow_not_found state_mismatch already_consumed flow_expired : Refusal
  cannot_cancel winner_not_published : Refusal

-- loadReleasedFlow
abbrev pub find_released : List (String × ℕ) → String → Option ℕ
find_released [] id = none
find_released ((key, k) ∷ released) id = if str_eq key id then some k else find_released released id

abbrev pub load_released_flow : List (String × ℕ) → String → Option ℕ
load_released_flow released id = if str_eq id "" then none else find_released released id

abbrev pub has_id : Option Flow → String → Bool
has_id none id = false
has_id (some f) id = str_eq f.id id

abbrev pub points_to : Coordinator → Option ℕ → String → Bool
points_to c none id = false
points_to c (some k) id = has_id (get_elem? c.flows k) id

-- lookupFlow
unfoldable pub lookup_flow : Coordinator → String → Option ℕ
lookup_flow c id =
    if c.closed
    then none
    else if points_to c c.current id
    then c.current
    else load_released_flow c.released_flows id

abbrev pub is_error : FlowStatus → Bool
is_error FlowStatus.error = true
is_error FlowStatus.success = false
is_error FlowStatus.idle = false
is_error FlowStatus.pending = false

abbrev pub is_success : FlowStatus → Bool
is_success FlowStatus.success = true
is_success FlowStatus.error = false
is_success FlowStatus.idle = false
is_success FlowStatus.pending = false

-- rejectConsumedRail, where nothing is written between its two looks for the winner
unfoldable pub reject_consumed_rail : Flow → Refusal
reject_consumed_rail f =
    if is_unknown f.consumed_by && not (is_error f.status)
    then winner_not_published
    else already_consumed

-- classifyConsumedFlow
unfoldable pub classify_consumed_flow : Flow → ℕ → Refusal
classify_consumed_flow f now =
    if not (is_unknown f.consumed_by) || is_success f.status || not (ltb f.expires_at now)
    then reject_consumed_rail f
    else flow_expired

-- ConsumeCode up to the compare-and-swap
unfoldable pub check_consume : Flow → String → ℕ → Option Refusal
check_consume f state now =
    if f.consumed
    then (if not (str_eq f.state state)
        then some state_mismatch
        else some (classify_consumed_flow f now))
    else if ltb f.expires_at now
    then some flow_expired
    else if not (str_eq f.state state)
    then some state_mismatch
    else none

-- cancelFromRail up to the compare-and-swap
unfoldable pub check_deny : Flow → String → ℕ → Option Refusal
check_deny f provider_error now =
    if not (str_eq provider_error "access_denied")
    then some cannot_cancel
    else if f.consumed
    then some (classify_consumed_flow f now)
    else if ltb f.expires_at now
    then some flow_expired
    else none

-- cancel up to the compare-and-swap: only the current flow can be cancelled
unfoldable pub check_cancel : Coordinator → String → Option ℕ
check_cancel c id = if points_to c c.current id then c.current else none
