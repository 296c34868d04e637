-- ===== src/Oauth/Coordinator.antt =====
-- internal/oauth/coordinator.go: the coordinator of the flows, by the steps of the goroutines that
-- contend for a flow. A flow is named by its place in `flows`, as a pointer names it; `current` is
-- flowPtr. Each contender reads (`check`, or the guard of its event), claims the flow by the
-- compare-and-swap of Consumed, settles it, and releases it; other steps may come between.
use one_llm_router.Prelude.{
  ℕ, String, Bool, true, false, Option, none, some, List, [], ◌∷◌, get_elem?, set, if◌then◌else◌,
}
use one_llm_router.Domain.Account.{UpstreamAccount}
use one_llm_router.Oauth.Flow.{
  Flow, FlowMethod, Rail, FlowStatus, FlowTerminalError, is_unknown, clone_account, browser, device,
  flow_expired_error, expired_token_error, access_denied_error, cancelled_error,
}

-- What PollDeviceCode answers when it does not ask to go on polling.
pub data Poll : Type 0 where
  got_tokens denied_by_user token_expired : Poll
  poll_failed : FlowTerminalError → Poll

-- Who wants to settle a flow: a call of ConsumeCode, a call of CancelFromProviderError, a call of
-- Cancel, the expiry timer, and the device poller with what it was answered.
pub data Contender : Type 0 where
  consumer denier : Rail → Contender
  canceller reaper : Contender
  poller : Poll → Contender

-- Where a goroutine stands: before its compare-and-swap, before it settles the flow, with an error
-- to settle it by, with an account that is inserted and not yet published, and before ReleaseFlow.
pub data Phase : Type 0 where
  claiming working : Contender → Phase
  failing : FlowTerminalError → Phase
  storing : UpstreamAccount → Phase
  releasing : Phase

-- What StartBrowser and StartDevice make; the rest of a new flow is fixed.
pub record FlowSeed : Type 0 where
  pub id : String
  pub method : FlowMethod
  pub listener_bound : Bool
  pub state : String
  pub user_code : String
  pub verification_url : String
  pub expires_at : ℕ
  pub created_at : ℕ
  pub poll_interval : ℕ

pub record Coordinator : Type 0 where
  -- what the call that holds startMu is about to start
  pub starting : Option FlowSeed
  pub current : Option ℕ
  pub closed : Bool
  pub flows : List Flow
  pub released_flows : List (String × ℕ)
  pub latest_released_flow_id : String
  pub calls : List (ℕ × Phase)
  -- the flows for which InsertUpstreamAccount has succeeded, once for each success
  pub inserted : List ℕ

abbrev pub new_coordinator : Coordinator
new_coordinator = record {
  starting = none;
  current = none;
  closed = false;
  flows = [];
  released_flows = [];
  latest_released_flow_id = "";
  calls = [];
  inserted = [];
}

-- How the code exchange and persistConsumedFlow end.
pub data Outcome : Type 0 where
  completed : UpstreamAccount → Outcome
  failed : FlowTerminalError → Outcome

abbrev pub unpublished_error : FlowTerminalError
unpublished_error = record {
  code = "oauth_internal_error";
  message = "consumed winner rail already published";
}

abbrev pub drop_at : {A : Type 0} → List A → ℕ → List A
drop_at [] i = []
drop_at (x ∷ xs) ℕ.zero = xs
drop_at (x ∷ xs) (ℕ.suc i) = x ∷ drop_at xs i

-- the calls after call `i` has gone on to a phase, or ended
abbrev pub move_call : List (ℕ × Phase) → ℕ → ℕ → Option Phase → List (ℕ × Phase)
move_call calls i k none = drop_at calls i
move_call calls i k (some phase) = set calls i (k, phase)

abbrev pub fail_flow : FlowTerminalError → Flow → Flow
fail_flow e f = record f { status = FlowStatus.error; terminal_error = some e; signalled = true }

-- the compare-and-swap of each contender, with what it writes before it lets go of flow.mu
abbrev pub claim_won : Contender → Flow → Flow × Phase
claim_won (consumer rail) f =
    if is_unknown f.consumed_by
    then (record f { consumed = true; consumed_by = rail }, working (consumer rail))
    else (record f { consumed = true }, failing unpublished_error)
claim_won (denier rail) f =
    if is_unknown f.consumed_by
    then (
      fail_flow access_denied_error (record f { consumed = true; consumed_by = rail }),
      releasing,
    )
    else (record f { consumed = true }, failing unpublished_error)
claim_won canceller f = (record f { consumed = true }, working canceller)
claim_won reaper f = (record f { consumed = true }, working reaper)
claim_won (poller poll) f = (record f { consumed = true }, working (poller poll))

-- finishDeviceFailure looks at `closed` before it claims.
abbrev pub gives_up : Bool → Contender → Bool
gives_up closed (poller got_tokens) = false
gives_up closed (poller denied_by_user) = closed
gives_up closed (poller token_expired) = closed
gives_up closed (poller (poll_failed e)) = closed
gives_up closed (consumer rail) = false
gives_up closed (denier rail) = false
gives_up closed canceller = false
gives_up closed reaper = false

abbrev pub claimed : Bool → Contender → Flow → Flow × Option Phase
claimed closed who f =
    if gives_up closed who
    then (f, some releasing)
    else if f.consumed
    then (f, none)
    else (let (f', phase) = claim_won who f in (f', some phase))

abbrev pub claim_flow : ℕ → ℕ → Contender → Option Flow → Coordinator → Coordinator
claim_flow i k who none c = c
claim_flow i k who (some f) c =
    let (f', phase) = claimed c.closed who f in
    record c { flows = set c.flows k f'; calls = move_call c.calls i k phase }

abbrev pub claim_call : ℕ → Option (ℕ × Phase) → Coordinator → Coordinator
claim_call i (some (k, claiming who)) c = claim_flow i k who (get_elem? c.flows k) c
claim_call i (some (k, working who)) c = c
claim_call i (some (k, failing e)) c = c
claim_call i (some (k, storing a)) c = c
claim_call i (some (k, releasing)) c = c
claim_call i none c = c

abbrev pub expiry_error : FlowMethod → FlowTerminalError
expiry_error device = expired_token_error
expiry_error browser = flow_expired_error

abbrev pub complete_flow : UpstreamAccount → Flow → Flow
complete_flow a f = record f {
  status = FlowStatus.success;
  terminal_account = some (clone_account a);
  signalled = true;
}

-- what ConsumeCode and finishDeviceSuccess do about the answer of persistConsumedFlow: an account
-- that is inserted leaves the flow pending, an error fails it
abbrev pub finish : Outcome → Flow → Flow
finish (completed a) f = f
finish (failed e) f = fail_flow e f

abbrev pub finished : Outcome → Phase
finished (completed a) = storing a
finished (failed e) = releasing

abbrev pub inserts : ℕ → Outcome → List ℕ → List ℕ
inserts k (completed a) inserted = k ∷ inserted
inserts k (failed e) inserted = inserted

-- finishDeviceSuccess looks at `closed` first. A denier settles the flow as it claims it.
abbrev pub settled : Bool → Contender → Outcome → Flow → Flow
settled closed (consumer rail) outcome f = finish outcome f
settled closed (denier rail) outcome f = fail_flow access_denied_error f
settled closed canceller outcome f = fail_flow cancelled_error f
settled closed reaper outcome f = fail_flow (expiry_error f.method) f
settled closed (poller got_tokens) outcome f = if closed then f else finish outcome f
settled closed (poller denied_by_user) outcome f = fail_flow access_denied_error f
settled closed (poller token_expired) outcome f = fail_flow expired_token_error f
settled closed (poller (poll_failed e)) outcome f = fail_flow e f

abbrev pub after_settling : Bool → Contender → Outcome → Phase
after_settling closed (consumer rail) outcome = finished outcome
after_settling closed (poller got_tokens) outcome = if closed then releasing else finished outcome
after_settling closed (poller denied_by_user) outcome = releasing
after_settling closed (poller token_expired) outcome = releasing
after_settling closed (poller (poll_failed e)) outcome = releasing
after_settling closed (denier rail) outcome = releasing
after_settling closed canceller outcome = releasing
after_settling closed reaper outcome = releasing

abbrev pub stored_accounts : Bool → ℕ → Contender → Outcome → List ℕ → List ℕ
stored_accounts closed k (consumer rail) outcome inserted = inserts k outcome inserted
stored_accounts closed k (poller got_tokens) outcome inserted =
    if closed then inserted else inserts k outcome inserted
stored_accounts closed k (poller denied_by_user) outcome inserted = inserted
stored_accounts closed k (poller token_expired) outcome inserted = inserted
stored_accounts closed k (poller (poll_failed e)) outcome inserted = inserted
stored_accounts closed k (denier rail) outcome inserted = inserted
stored_accounts closed k canceller outcome inserted = inserted
stored_accounts closed k reaper outcome inserted = inserted

abbrev pub settle_flow : ℕ → ℕ → Contender → Outcome → Option Flow → Coordinator → Coordinator
settle_flow i k who outcome none c = c
settle_flow i k who outcome (some f) c = record c {
  flows = set c.flows k (settled c.closed who outcome f);
  calls = set c.calls i (k, after_settling c.closed who outcome);
  inserted = stored_accounts c.closed k who outcome c.inserted;
}

-- failFlow behind a winner rail that was published before
abbrev pub fail_call : ℕ → ℕ → FlowTerminalError → Option Flow → Coordinator → Coordinator
fail_call i k e none c = c
fail_call i k e (some f) c = record c {
  flows = set c.flows k (fail_flow e f);
  calls = set c.calls i (k, releasing);
}

-- the end of ConsumeCode and of finishDeviceSuccess: the status of a flow whose account is inserted
abbrev pub publish_flow : ℕ → ℕ → UpstreamAccount → Option Flow → Coordinator → Coordinator
publish_flow i k a none c = c
publish_flow i k a (some f) c = record c {
  flows = set c.flows k (complete_flow a f);
  calls = set c.calls i (k, releasing);
}

abbrev pub settle_call : ℕ → Outcome → Option (ℕ × Phase) → Coordinator → Coordinator
settle_call i outcome (some (k, working who)) c =
    settle_flow i k who outcome (get_elem? c.flows k) c
settle_call i outcome (some (k, failing e)) c = fail_call i k e (get_elem? c.flows k) c
settle_call i outcome (some (k, storing a)) c = publish_flow i k a (get_elem? c.flows k) c
settle_call i outcome (some (k, claiming who)) c = c
settle_call i outcome (some (k, releasing)) c = c
settle_call i outcome none c = c
