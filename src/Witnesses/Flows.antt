-- ===== src/Witnesses/Flows.antt =====
-- A browser flow that a callback wins against a cancellation, and a device flow that is polled.
use one_llm_router.Prelude.{
  ◌+◌, ◌-◌, ◌*◌, ◌≤◌, ◌≡◌, refl, true, false, none, some, List, [], ◌∷◌, ◌++◌, arith, get_elem?,
}
use one_llm_router.Core.HashRing.{zero_account}
use one_llm_router.Oauth.Flow.{
  Flow, Rail, FlowMethod, FlowStatus, clone_account, snapshot_locked, validate_snapshot,
}
use one_llm_router.Oauth.Coordinator.{FlowSeed, new_coordinator, completed, complete_flow}
use one_llm_router.Oauth.Requests.{lookup_flow, check_consume}
use one_llm_router.Oauth.Machine.{
  Event, new_flow, run, step, start, install, consume, cancel, claim, settle,
}
use one_llm_router.Oauth.Machine.Weights.{weight, stores, tally}
use one_llm_router.Oauth.Machine.Settled.{Settlement, settlement}
use one_llm_router.Oauth.Machine.Winners.{single_winner, stored_once, settlement_final}
use one_llm_router.Oauth.DevicePoll.{
  Turn, schedule_device_poll, token_exchange, next_device_poll_interval,
}
use one_llm_router.Oauth.DevicePoll.Bounds.{asked_bounded}

abbrev seed : FlowSeed
seed = record {
  id = "flow";
  method = FlowMethod.browser;
  listener_bound = true;
  state = "state";
  user_code = "";
  verification_url = "";
  expires_at = 1000;
  created_at = 1;
  poll_interval = 0;
}

-- The callback and the cancellation contend; the callback claims the flow, stores an account and
-- publishes it.
abbrev race : List Event
race =
    start seed
    ∷ install
    ∷ consume "flow" "state" Rail.loopback 10
    ∷ cancel "flow"
    ∷ claim 0
    ∷ settle 0 (completed zero_account)
    ∷ settle 0 (completed zero_account)
    ∷ []

abbrev won : Flow
won =
    complete_flow zero_account
      record (new_flow seed) { consumed = true; consumed_by = Rail.loopback }

race-won : get_elem? (run race new_coordinator).flows 0 ≡ some won
unfolding run step lookup_flow check_consume
race-won = refl

race_open : (run race new_coordinator).closed ≡ false
unfolding run step lookup_flow check_consume
race_open = refl

race_current : (run race new_coordinator).current ≡ some 0
unfolding run step lookup_flow check_consume
race_current = refl

single_winner_example : weight 0 (run race new_coordinator).calls + 1 ≤ 1
single_winner_example = single_winner race 0 won race-won

stored_once_example :
    (tally 0 (run race new_coordinator).inserted ≡ 1 + stores 0 (run race new_coordinator).calls)
    × (stores 0 (run race new_coordinator).calls + 1 ≤ 1)
stored_once_example = stored_once race 0 won race-won

-- The account is stored before the flow has succeeded.
abbrev stored_first : List Event
stored_first =
    start seed
    ∷ install
    ∷ consume "flow" "state" Rail.loopback 10
    ∷ claim 0
    ∷ settle 0 (completed zero_account)
    ∷ []

stored_first-run :
    (tally 0 (run stored_first new_coordinator).inserted ≡ 1)
    × (stores 0 (run stored_first new_coordinator).calls ≡ 1)
    × (get_elem? (run stored_first new_coordinator).flows 0
        ≡ some (record (new_flow seed) { consumed = true; consumed_by = Rail.loopback }))
unfolding run step lookup_flow check_consume
stored_first-run = (refl, refl, refl)

abbrev success : Settlement
success = record {
  status = FlowStatus.success;
  account = some (clone_account zero_account);
  error = none;
}

race_settled : settlement (get_elem? (run race new_coordinator).flows 0) ≡ some success
unfolding run step lookup_flow check_consume
race_settled = refl

settlement_final_example :
    settlement (get_elem? (run (race ++ claim 1 ∷ []) new_coordinator).flows 0) ≡ some success
settlement_final_example = settlement_final race (claim 1 ∷ []) 0 success race_settled

won_valid : validate_snapshot (snapshot_locked won) ≡ true
unfolding validate_snapshot snapshot_locked
won_valid = refl

slowed_down :
    next_device_poll_interval 5000000000 (token_exchange "slow_down" 400) ≡ some 10000000000
unfolding next_device_poll_interval
slowed_down = refl

abbrev two_turns : List Turn
two_turns =
    record { late = 0; stopped = false; answer = some (token_exchange "authorization_pending" 400) }
    ∷ record { late = 3; stopped = false; answer = none }
    ∷ []

asked_bounded_example :
    schedule_device_poll two_turns 20000000000 0 5000000000 * 5000000000 ≤ 20000000000 - 0
asked_bounded_example =
    asked_bounded 5000000000 (ground arith) (ground arith) two_turns 20000000000 0 5000000000
      (ground arith) (ground arith)
