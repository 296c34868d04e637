-- ===== src/Lib.antt =====
-- one-llm-router is a gateway in front of LLM providers. A request is classified by its method and
-- path (internal/api/proxy_routes.go), an account is selected for it
-- (internal/core/account_selector.go, with internal/core/session_router.go for sticky sessions), a
-- bridge is looked up for the operation and the kind of credential (internal/provider/bridge.go,
-- internal/provider/openai/bridge.go, internal/provider/systemone/bridge.go), and what happened is
-- recorded, without its secrets (internal/core/redaction.go) and without making the client wait
-- (internal/core/request_recorder.go). The body of a request to Codex is rewritten on its way
-- (internal/provider/openai/codex_request.go). The accounts are rows whose shape is checked before
-- they are stored (internal/domain/account.go, internal/domain/base_url.go).
--
-- Domain models internal/domain. Domain/Account is the row and the facts derived from it (IsOAuth,
-- SystemOneOnly, EffectiveBaseURL), Domain/Capability is ValidateCapabilities and
-- HasCapabilityFor, Domain/BaseUrl is ValidateBaseURL over what url.Parse returns, and
-- Domain/Shape is Validate with the list of offending fields. A `[]byte` is an optional list, so
-- that nil and empty differ as they do in the code; an instant is a number; a float is its bit
-- pattern.
--
-- Core/Selector models AccountSelector: `pick`, SelectEligible, ListEligiblePrepared,
-- ListEligibleAccounts, SelectByIDEligible and prepareToken. What the repository and the
-- pre-forward hook answer are arguments; the counter, with its wrap-around at 2 ^ 64, is the state
-- that a call passes on. The filter of `pick` writes into the array that it reads, and so does
-- `filter_in_place`. Core/HashRing models Route of ConsistentHashRouter. CRC-32 and sort.Slice are
-- parameters; of the sort it is assumed that it keeps the points and orders them by hash, and
-- nothing about points of one hash. The binary search of sort.Search runs on fuel: n for a ring of
-- n points, which is enough since each step makes the interval shorter.
--
-- Core/Recorder models RequestRecorder by the steps of its goroutines, and an order of steps is
-- one interleaving. A call of Record takes the read lock and tests `closed`, then sends and
-- releases the lock, and may then insert by itself; an insert succeeds or fails, which the code
-- only logs; Close takes four steps under closeOnce. A step that would have to wait is `waiting`,
-- and a panic of the runtime (a send on a closed channel, a second close) is `panicked`. The write
-- lock of the code also keeps new readers out while Close waits for it, so the model has every
-- interleaving of the code. Start is called once, as the application does.
--
-- Core/Cleanup models the loop of CleanupWorker.cleanup over DeleteBefore of
-- internal/store/records.go. The table is the list of its rows in the order of their ids; which
-- calls fail is a parameter. The loop runs on fuel: one round more than the old rows fill batches
-- of 1000 is enough.
--
-- Gateway models the route table and the bridges. Gateway/Paths is the normalisation of paths and
-- the patterns of blocked and unsupported ones, Gateway/Routes the routes of fixed paths and of
-- WebSocket upgrades, Gateway/Classify the paths with variable segments and classifyGatewayRoute,
-- Gateway/Names the constants of internal/provider/openai/contracts.go, Gateway/Bridges the table
-- of bridges, Gateway/Registry the registry, and Gateway/Served and Gateway/Consistent the
-- registry that the handler uses, against the routes.
--
-- Gateway/Upstream has the path and the URL that a bridge sends a request to.
--
-- Setup models the gate of internal/setup/gate.go before every handler, with the marker of
-- internal/setup/state.go: Setup/Gate is the latch and its calls, in the order in which they take
-- effect, each probe with what os.Stat would find, and Setup/Answers what Wrap answers a request.
--
-- Oauth models internal/oauth. Oauth/Flow is a flow and the snapshots of it (flow.go, status.go).
-- Oauth/Coordinator and Oauth/Machine are the coordinator of coordinator.go as a machine: a flow
-- is named by its place in a list, as a pointer names it, and a call of ConsumeCode,
-- CancelFromProviderError or Cancel, the expiry timer and the device poller are contenders that
-- take the steps of the code, the compare-and-swap of Consumed, the settlement (where an account
-- is stored, first its insert and then the new status of the flow) and ReleaseFlow, between which
-- any other step may come. A start of a flow is the tests under startMu and then the swap of
-- flowPtr, with the clearing of released flows behind it; Shutdown may come between.
-- Oauth/Requests is what a request is answered before it contends. Oauth/DevicePoll has the
-- intervals of the device poller, by the 64 bits of a duration. Oauth/Refresh is RefreshIfStale
-- for one caller of singleflight, over the account table; the clock, the provider, the decoding of
-- claims and the other writers of the table are parameters. Oauth/Persist is persistConsumedFlow.
--
-- Store models internal/store/accounts.go. Store/Engine is the interface to the database: find,
-- update and insert, with what they are documented to do to the rows; the count of an update is
-- that of the matched rows, or of the changed ones as MySQL counts, and the engine sets the
-- instants of a new row. Store/Accounts has the operations over it, Store/Accounts/Calls
-- CreateIdempotentByName, UpdateUsage, UpdateDetails and a sequence of calls, each of which is one
-- step of the table. `stamp` is how the database keeps an instant, which is to the second in
-- SQLite. Store/Models is internal/store/account_models.go over the list of the rows.
--
-- Stream models ForwardSSE of internal/api/sse.go over the lines that its scanner finds.
--
-- Json models what encoding/json decodes into an `any`: an object is the list of its entries, each
-- key once, since the code never depends on the order of a map.
--
-- Codex models internal/provider/openai/codex_request.go over Json: Codex/Aliases the other names
-- of fields, Codex/Checks what the fields have to be, Codex/Tools the tools and their order,
-- Codex/Items the sanitising of input items, Codex/Messages the messages of
-- internal/provider/openai/forwarder.go as instructions and input, and Codex/Request the whole,
-- with what a request is between the steps in Codex/Request/Stages. What the code does to a map in
-- place is a new map here. The JSON codec and fmt.Sprint are parameters; an error is its text.
--
-- Core/Redaction models internal/core/redaction.go over Json; its six regular expressions are
-- parameters.
--
-- Prelude has what the parts share: tests and lists over native numbers, texts, integers, results.
-- Witnesses applies the theorems to concrete rows, requests and orders of steps.
--
-- Not modelled: the rest of the stores (SQL), HTTP handlers and transport, the chat adapter of
-- internal/provider/openai, the wire exchange of OAuth, the set-up wizard, configuration and
-- wiring, generated code and the web front end.
pub mod Prelude
pub mod Domain
pub mod Core
pub mod Gateway
pub mod Setup
pub mod Oauth
pub mod Store
pub mod Stream
pub mod Json
pub mod Codex
mod Witnesses
