-- ===== src/Oauth/Machine/Winners.antt =====
-- internal/oauth/coordinator.go: who settles a flow, and how it ends.
use one_llm_router.Prelude.{
  ℕ, ◌+◌, ◌≤◌, ◌≡◌, Bool, true, false, some, List, [], ◌∷◌, ◌++◌, refl, arith, get_elem?,
}
use one_llm_router.Oauth.Flow.{Flow, is_terminal}
use one_llm_router.Oauth.Requests.{is_success}
use one_llm_router.Oauth.Coordinator.{Coordinator, new_coordinator}
use one_llm_router.Oauth.Machine.{Event, run, step}
use one_llm_router.Oauth.Machine.Weights.{weight, stores, tally, stores-le-weight}
use one_llm_router.Oauth.Machine.Claims.{if_one, IsBalanced}
use one_llm_router.Oauth.Machine.Balance.{load, found-IsBalanced}
use one_llm_router.Oauth.Machine.Steps.{reached-AllBalanced}
use one_llm_router.Oauth.Machine.Settled.{Settlement, settlement, run_settled}

reached :
    (es : List Event) (k : ℕ) (f : Flow)
    → get_elem? (run es new_coordinator).flows k ≡ some f
    → IsBalanced f
        (load k (run es new_coordinator).calls)
        (tally k (run es new_coordinator).inserted)
        (run es new_coordinator).closed
reached es k f found = found-IsBalanced (run es new_coordinator) k f found (reached-AllBalanced es)

if_one-most : (b : Bool) → if_one b ≤ 1
if_one-most true = omega arith
if_one-most false = omega arith

-- In every state that the coordinator reaches, at most one goroutine has claimed a flow and not
-- settled it yet, and none has when the flow is settled.
pub single_winner :
    (es : List Event) (k : ℕ) (f : Flow)
    → get_elem? (run es new_coordinator).flows k ≡ some f
    → weight k (run es new_coordinator).calls + if_one (is_terminal f.status) ≤ 1
single_winner es k f found = omega (arith, (reached es k f found).at_most, if_one-most f.consumed)

-- While the coordinator is not closed, a flow is consumed exactly if one goroutine has claimed it and
-- not settled it yet or it is settled: no claim is lost, and a flow that nobody claimed has not ended.
pub claim_kept :
    (es : List Event) (k : ℕ) (f : Flow)
    → get_elem? (run es new_coordinator).flows k ≡ some f
    → (run es new_coordinator).closed ≡ false
    → weight k (run es new_coordinator).calls + if_one (is_terminal f.status) ≡ if_one f.consumed
claim_kept es k f found open_still = (reached es k f found).exactly open_still

-- In every state that the coordinator reaches, the number of accounts stored for a flow is at most one.
-- It is one exactly if the flow has succeeded or one goroutine has inserted an account and not set
-- the status of the flow yet, and never both: a flow that has failed, or that no such goroutine is at
-- work on and that has not succeeded, has no account.
pub stored_once :
    (es : List Event) (k : ℕ) (f : Flow)
    → get_elem? (run es new_coordinator).flows k ≡ some f
    → (tally k (run es new_coordinator).inserted
        ≡ if_one (is_success f.status) + stores k (run es new_coordinator).calls)
      × (stores k (run es new_coordinator).calls + if_one (is_terminal f.status) ≤ 1)
stored_once es k f found = (
  (reached es k f found).stores,
  omega (arith, single_winner es k f found, stores-le-weight k (run es new_coordinator).calls),
)

run-append : (es later : List Event) (c : Coordinator) → run (es ++ later) c ≡ run later (run es c)
unfolding run
run-append [] later c = refl
run-append (e ∷ es) later c = run-append es later (step e c)

-- A flow that has ended keeps its status, its account and its error, whatever steps follow.
pub settlement_final :
    (es later : List Event) (k : ℕ) (r : Settlement)
    → settlement (get_elem? (run es new_coordinator).flows k) ≡ some r
    → settlement (get_elem? (run (es ++ later) new_coordinator).flows k) ≡ some r
settlement_final es later k r h =
    rw (run-append es later new_coordinator)
      (run_settled later (run es new_coordinator) (reached-AllBalanced es) k r h)
