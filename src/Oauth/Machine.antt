-- ===== src/Oauth/Machine.antt =====
-- internal/oauth/coordinator.go: the coordinator as a machine. An event is one step of a goroutine;
-- an order of events is an interleaving.
pub mod Weights
pub mod Claims
pub mod Balance
pub mod Contested
pub mod Steps
pub mod Unchanged
pub mod Settled
pub mod Winners
use one_llm_router.Prelude.{
  ℕ, String, Bool, true, false, not, ◌&&◌, ◌||◌, Option, none, some, List, [], ◌∷◌, ◌++◌, ltb, leb,
  str_eq, length, get_elem?, set, is_some, is_none, if◌then◌else◌,
}
use one_llm_router.Oauth.Flow.{Flow, Rail, FlowStatus, FlowMethod}
use one_llm_router.Oauth.Coordinator.{
  FlowSeed, Coordinator, Contender, Poll, Phase, Outcome, new_coordinator, consumer, denier,
  canceller, reaper, poller, claiming, working, failing, storing, releasing, drop_at, claim_call,
  settle_call,
}
use one_llm_router.Oauth.Requests.{
  find_released, points_to, lookup_flow, check_consume, check_deny, check_cancel,
}

abbrev pub new_flow : FlowSeed → Flow
new_flow seed = record {
  id = seed.id;
  method = seed.method;
  listener_bound = seed.listener_bound;
  consumed = false;
  consumed_by = Rail.unknown;
  state = seed.state;
  user_code = seed.user_code;
  verification_url = seed.verification_url;
  expires_at = seed.expires_at;
  created_at = seed.created_at;
  poll_interval = seed.poll_interval;
  status = FlowStatus.pending;
  signalled = false;
  terminal_account = none;
  terminal_error = none;
  terminal_reported = false;
}

pub data Event : Type 0 where
  -- the tests of StartBrowser and StartDevice under startMu, and TryStartFlow behind them
  start : FlowSeed → Event
  install abandon : Event
  -- the ReleaseFlow of StartBrowser, where the provider refuses the redirect URL
  retract : String → Event
  -- flow id, state, rail, now
  consume : String → String → Rail → ℕ → Event
  -- flow id, provider error, rail, now
  deny : String → String → Rail → ℕ → Event
  cancel : String → Event
  -- flow, now
  expire : ℕ → ℕ → Event
  poll : ℕ → Poll → ℕ → Event
  claim release : ℕ → Event
  settle : ℕ → Outcome → Event
  unbind report : ℕ → Event
  shutdown : Event

abbrev pub is_bound : Option Flow → Bool
is_bound none = false
is_bound (some f) = f.listener_bound

-- cleanupReleasedFlowsOnStart
abbrev pub keep_bound : List Flow → List (String × ℕ) → List (String × ℕ)
keep_bound flows [] = []
keep_bound flows ((id, k) ∷ released) =
    let rest = keep_bound flows released in
    if is_bound (get_elem? flows k) then (id, k) ∷ rest else rest

abbrev pub keep_latest : List (String × ℕ) → String → String
keep_latest released id = if is_some (find_released released id) then id else ""

-- StartBrowser and StartDevice, up to what they make of the flow; startMu lets one of them in
abbrev pub begin_start : Option FlowSeed → Option ℕ → FlowSeed → Coordinator → Coordinator
begin_start (some other) current seed c = c
begin_start none (some k) seed c = c
begin_start none none seed c = if c.closed then c else record c { starting = some seed }

-- TryStartFlow; other steps may have come between
abbrev pub start_flow : Option FlowSeed → Option ℕ → Coordinator → Coordinator
start_flow none current c = c
start_flow (some seed) (some k) c = record c { starting = none }
start_flow (some seed) none c = record c {
  starting = none;
  current = some (length c.flows);
  flows = c.flows ++ new_flow seed ∷ [];
  released_flows = keep_bound c.flows c.released_flows;
  latest_released_flow_id =
      keep_latest (keep_bound c.flows c.released_flows) c.latest_released_flow_id;
}

abbrev pub contend : ℕ → Contender → Coordinator → Coordinator
contend k who c = record c { calls = c.calls ++ (k, claiming who) ∷ [] }

abbrev pub contend_unless : {A : Type 0} → Option A → ℕ → Contender → Coordinator → Coordinator
contend_unless (some refused) k who c = c
contend_unless none k who c = contend k who c

abbrev pub consume_code : Option ℕ → Option Flow → String → Rail → ℕ → Coordinator → Coordinator
consume_code (some k) (some f) state rail now c =
    contend_unless (check_consume f state now) k (consumer rail) c
consume_code (some k) none state rail now c = c
consume_code none o state rail now c = c

abbrev pub deny_flow : Option ℕ → Option Flow → String → Rail → ℕ → Coordinator → Coordinator
deny_flow (some k) (some f) provider_error rail now c =
    contend_unless (check_deny f provider_error now) k (denier rail) c
deny_flow (some k) none provider_error rail now c = c
deny_flow none o provider_error rail now c = c

abbrev pub cancel_flow : Option ℕ → Coordinator → Coordinator
cancel_flow none c = c
cancel_flow (some k) c = contend k canceller c

-- the timer of startExpiryReaper
abbrev pub expire_flow : ℕ → Option Flow → ℕ → Coordinator → Coordinator
expire_flow k none now c = c
expire_flow k (some f) now c =
    if not c.closed && leb f.expires_at now then contend k reaper c else c

-- the timer of scheduleDevicePoll, when the provider does not ask to go on
abbrev pub poll_flow : ℕ → Option Flow → Poll → ℕ → Coordinator → Coordinator
poll_flow k none answer now c = c
poll_flow k (some f) answer now c =
    if c.closed || f.consumed || not (ltb now f.expires_at) then c else contend k (poller answer) c

abbrev pub flow_at : Option ℕ → List Flow → Option Flow
flow_at none flows = none
flow_at (some k) flows = get_elem? flows k

abbrev pub without : String → List (String × ℕ) → List (String × ℕ)
without id [] = []
without id ((key, k) ∷ released) =
    let rest = without id released in if str_eq key id then rest else (key, k) ∷ rest

abbrev pub let_go : Option ℕ → Option Flow → String → Coordinator → Coordinator
let_go none o id c = c
let_go (some k) none id c = c
let_go (some k) (some f) id c =
    if not (str_eq f.id id) then c else if c.closed then record c { current = none } else record c {
      current = none;
      released_flows = (f.id, k) ∷ without f.id c.released_flows;
      latest_released_flow_id = f.id;
    }

-- ReleaseFlow
abbrev pub release_flow : String → Coordinator → Coordinator
release_flow id c = let_go c.current (flow_at c.current c.flows) id c

abbrev pub release_of : ℕ → Option Flow → Coordinator → Coordinator
release_of i none c = c
release_of i (some f) c = release_flow f.id record c { calls = drop_at c.calls i }

abbrev pub release_call : ℕ → Option (ℕ × Phase) → Coordinator → Coordinator
release_call i (some (k, releasing)) c = release_of i (get_elem? c.flows k) c
release_call i (some (k, claiming who)) c = c
release_call i (some (k, working who)) c = c
release_call i (some (k, failing e)) c = c
release_call i (some (k, storing a)) c = c
release_call i none c = c

-- the goroutine that shuts the callback server of a released flow
abbrev pub unbind_flow : ℕ → Option Flow → Coordinator → Coordinator
unbind_flow k none c = c
unbind_flow k (some f) c = record c { flows = set c.flows k (record f { listener_bound = false }) }

-- GetFlow reports a terminal flow once.
abbrev pub report_flow : ℕ → Option Flow → Coordinator → Coordinator
report_flow k none c = c
report_flow k (some f) c = record c {
  flows = set c.flows k (record f { terminal_reported = true });
}

abbrev pub release_current : Option Flow → Coordinator → Coordinator
release_current none c = c
release_current (some f) c = release_flow f.id c

abbrev pub forget_released : Coordinator → Coordinator
forget_released c = record c { released_flows = []; latest_released_flow_id = "" }

-- Shutdown
abbrev pub shut_down : Coordinator → Coordinator
shut_down c =
    forget_released (release_current (flow_at c.current c.flows) record c { closed = true })

unfoldable pub step : Event → Coordinator → Coordinator
unfolding lookup_flow check_cancel
step (start seed) c = begin_start c.starting c.current seed c
step install c = start_flow c.starting c.current c
step abandon c = record c { starting = none }
step (retract id) c = release_flow id c
step (consume id state rail now) c =
    consume_code (lookup_flow c id) (flow_at (lookup_flow c id) c.flows) state rail now c
step (deny id provider_error rail now) c =
    deny_flow (lookup_flow c id) (flow_at (lookup_flow c id) c.flows) provider_error rail now c
step (cancel id) c = cancel_flow (check_cancel c id) c
step (expire k now) c = expire_flow k (get_elem? c.flows k) now c
step (poll k answer now) c = poll_flow k (get_elem? c.flows k) answer now c
step (claim i) c = claim_call i (get_elem? c.calls i) c
step (settle i outcome) c = settle_call i outcome (get_elem? c.calls i) c
step (release i) c = release_call i (get_elem? c.calls i) c
step (unbind k) c = unbind_flow k (get_elem? c.flows k) c
step (report k) c = report_flow k (get_elem? c.flows k) c
step shutdown c = shut_down c

unfoldable pub run : List Event → Coordinator → Coordinator
run [] c = c
run (e ∷ es) c = run es (step e c)
