-- ===== src/Oauth/Flow.antt =====
-- internal/oauth/flow.go and internal/oauth/status.go: a flow, and what is shown of it.
pub mod Polls
use one_llm_router.Prelude.{
  ℕ, String, Bool, true, false, not, ◌&&◌, ◌||◌, Option, none, some, List, [], ◌∷◌, ◌==◌, str_eq,
  is_none, if◌then◌else◌,
}
use one_llm_router.Domain.Account.{UpstreamAccount}

pub data FlowMethod : Type 0 where
  browser device : FlowMethod

pub data Rail : Type 0 where
  unknown loopback manual_paste : Rail

pub data FlowStatus : Type 0 where
  idle pending success error : FlowStatus

pub record FlowTerminalError : Type 0 where
  pub code : String
  pub message : String

-- A flow. `signalled` says whether the terminal channel is closed; instants are nanoseconds, and
-- zero is the zero time.
pub record Flow : Type 0 where
  pub id : String
  pub method : FlowMethod
  pub listener_bound : Bool
  pub consumed : Bool
  pub consumed_by : Rail
  pub state : String
  pub user_code : String
  pub verification_url : String
  pub expires_at : ℕ
  pub created_at : ℕ
  pub poll_interval : ℕ
  pub status : FlowStatus
  pub signalled : Bool
  pub terminal_account : Option UpstreamAccount
  pub terminal_error : Option FlowTerminalError
  pub terminal_reported : Bool

abbrev pub flow_expired_error : FlowTerminalError
flow_expired_error = record { code = "flow_expired"; message = "Authentication expired" }

abbrev pub access_denied_error : FlowTerminalError
access_denied_error = record { code = "access_denied"; message = "User denied consent" }

abbrev pub expired_token_error : FlowTerminalError
expired_token_error = record { code = "expired_token"; message = "Device code expired" }

-- cancelledFlowError
abbrev pub cancelled_error : FlowTerminalError
cancelled_error = record { code = "cancelled"; message = "Authentication cancelled" }

abbrev pub is_unknown : Rail → Bool
is_unknown unknown = true
is_unknown loopback = false
is_unknown manual_paste = false

abbrev pub is_terminal : FlowStatus → Bool
is_terminal success = true
is_terminal error = true
is_terminal idle = false
is_terminal pending = false

-- cloneAccountForFlowSnapshot
abbrev pub clone_account : UpstreamAccount → UpstreamAccount
clone_account a = record a {
  api_key = "";
  access_token = none;
  refresh_token = none;
  id_token = none;
}

abbrev pub clone_option : Option UpstreamAccount → Option UpstreamAccount
clone_option none = none
clone_option (some a) = some (clone_account a)

pub record FlowSnapshot : Type 0 where
  pub status : FlowStatus
  pub method : Option FlowMethod
  pub flow_id : String
  pub listener_bound : Bool
  pub expires_at : ℕ
  pub created_at : ℕ
  pub user_code : String
  pub verification_url : String
  pub rail : Rail
  pub account : Option UpstreamAccount
  pub error : Option FlowTerminalError

-- idleFlowSnapshot; a method that is not there is the empty text
abbrev pub idle_flow_snapshot : FlowSnapshot
idle_flow_snapshot = record {
  status = idle;
  method = none;
  flow_id = "";
  listener_bound = false;
  expires_at = 0;
  created_at = 0;
  user_code = "";
  verification_url = "";
  rail = unknown;
  account = none;
  error = none;
}

-- snapshotLocked
unfoldable pub snapshot_locked : Flow → FlowSnapshot
snapshot_locked f = record {
  status = f.status;
  method = some f.method;
  flow_id = f.id;
  listener_bound = f.listener_bound;
  expires_at = f.expires_at;
  created_at = f.created_at;
  user_code = f.user_code;
  verification_url = f.verification_url;
  rail = f.consumed_by;
  account = clone_option f.terminal_account;
  error = f.terminal_error;
}

abbrev valid_pending : Option FlowMethod → FlowSnapshot → Bool
valid_pending none s = false
valid_pending (some browser) s = true
valid_pending (some device) s = not (str_eq s.user_code "") && not (str_eq s.verification_url "")

abbrev valid_success : Option FlowMethod → FlowSnapshot → Bool
valid_success none s = false
valid_success (some browser) s = not (is_unknown s.rail)
valid_success (some device) s = true

abbrev valid_error : Option FlowTerminalError → Bool
valid_error none = false
valid_error (some e) = not (str_eq e.code "") && not (str_eq e.message "")

abbrev valid_at : FlowStatus → FlowSnapshot → Bool
valid_at idle s = true
valid_at pending s =
    not (str_eq s.flow_id "")
    && not (s.created_at == 0)
    && not (s.expires_at == 0)
    && valid_pending s.method s
valid_at success s =
    not (str_eq s.flow_id "") && not (is_none s.account) && valid_success s.method s
valid_at error s = not (str_eq s.flow_id "") && valid_error s.error && not (is_none s.method)

-- Validate; `true` is a nil error
unfoldable pub validate_snapshot : FlowSnapshot → Bool
validate_snapshot s = valid_at s.status s

-- What GetFlow returns: a snapshot with the verdict of Validate, and the flow as it is left.
pub record Polled : Type 0 where
  pub snapshot : Option FlowSnapshot
  pub is_valid : Bool
  pub flow : Flow

abbrev snapshot_of : Flow → Polled
snapshot_of f = record {
  snapshot = some (snapshot_locked f);
  is_valid = validate_snapshot (snapshot_locked f);
  flow = f;
}

-- snapshotTerminalFlowForPoll
unfoldable pub snapshot_terminal_flow_for_poll : Flow → Polled
snapshot_terminal_flow_for_poll f =
    if not (is_terminal f.status)
    then snapshot_of f
    else if f.terminal_reported
    then record { snapshot = some idle_flow_snapshot; is_valid = true; flow = f }
    else if not (validate_snapshot (snapshot_locked f))
    then record { snapshot = none; is_valid = false; flow = f }
    else record {
      snapshot = some (snapshot_locked f);
      is_valid = true;
      flow = record f { terminal_reported = true };
    }

-- snapshotCurrentFlow, where no other goroutine settles the flow between its two locks
unfoldable pub snapshot_current_flow : Flow → Polled
snapshot_current_flow f =
    if is_terminal f.status then snapshot_terminal_flow_for_poll f else snapshot_of f
