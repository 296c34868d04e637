-- ===== src/Oauth/DevicePoll.antt =====
-- internal/oauth/coordinator.go: how long the device poller waits, and when it stops. A duration is
-- the 64 bits of a signed number of nanoseconds.
pub mod Bounds
use one_llm_router.Prelude.{
  ℕ, ◌+◌, ◌*◌, ◌%◌, ◌^◌, String, Bool, true, false, not, ◌&&◌, ◌||◌, Option, none, some, List, [],
  ◌∷◌, ◌==◌, ltb, leb, str_eq, if◌then◌else◌,
}

abbrev pub second : ℕ
second = 1000000000

abbrev pub default_device_poll_interval : ℕ
default_device_poll_interval = 5 * second

abbrev pub max_device_poll_interval : ℕ
max_device_poll_interval = 60 * second

abbrev pub half : ℕ
half = 9223372036854775808

abbrev pub is_positive_duration : ℕ → Bool
is_positive_duration d = ltb 0 d && ltb d half

-- The order of signed numbers, by their bits.
abbrev pub signed_less : ℕ → ℕ → Bool
signed_less d e = ltb ((d + half) % (2 * half)) ((e + half) % (2 * half))

-- An error of PollDeviceCode: a TokenExchangeError with its code and its HTTP status, or another one.
pub data PollError : Type 0 where
  token_exchange : String → ℕ → PollError
  other_error : PollError

-- isTransientDevicePollTransport
unfoldable pub is_transient_device_poll_transport : String → ℕ → Bool
is_transient_device_poll_transport code http_status =
    if str_eq code "http_403"
    then http_status == 403
    else if str_eq code "http_404"
    then http_status == 404
    else false

abbrev pub raised_to : ℕ → ℕ → ℕ
raised_to low d = if signed_less d low then low else d

abbrev pub lowered_to : ℕ → ℕ → ℕ
lowered_to high d = if signed_less high d then high else d

-- the doubled interval of slow_down, unless it overflows, within its limits
abbrev pub slowed : ℕ → ℕ
slowed current =
    let next = current * 2 % (2 * half) in
    lowered_to max_device_poll_interval (
      raised_to default_device_poll_interval
        (if not (is_positive_duration next) then current else next))

-- nextDevicePollInterval; none where the error ends the polling
unfoldable pub next_device_poll_interval : ℕ → PollError → Option ℕ
next_device_poll_interval current other_error = none
next_device_poll_interval current (token_exchange code http_status) =
    if str_eq code "authorization_pending"
    then some current
    else if str_eq code "slow_down"
    then some (slowed current)
    else if is_transient_device_poll_transport code http_status
    then some current
    else none

-- the interval that scheduleDevicePoll sets its timer to
abbrev pub scheduled : ℕ → ℕ
scheduled interval =
    if is_positive_duration interval then interval else default_device_poll_interval

-- What happens as a timer goes off: how late it is, whether the coordinator is closed or the flow
-- consumed by then, and what the provider answers; none is a set of tokens.
pub record Turn : Type 0 where
  pub late : ℕ
  pub stopped : Bool
  pub answer : Option PollError

-- How often the provider is asked, from an instant and an interval on, while the turns last.
abbrev pub asked_next : Option ℕ → (ℕ → ℕ) → ℕ
asked_next none again = 0
asked_next (some next) again = again next

abbrev pub asked_after : Option PollError → ℕ → (ℕ → ℕ) → ℕ
asked_after none interval again = 0
asked_after (some e) interval again = asked_next (next_device_poll_interval interval e) again

-- scheduleDevicePoll, and the calls of PollDeviceCode that its timers make
unfoldable pub schedule_device_poll : List Turn → ℕ → ℕ → ℕ → ℕ
schedule_device_poll [] expires_at now interval = 0
schedule_device_poll (turn ∷ turns) expires_at now interval =
    let wait = scheduled interval in
    let fired = now + wait + turn.late in
    let rest = asked_after turn.answer wait (schedule_device_poll turns expires_at fired) in
    if turn.stopped || not (ltb fired expires_at) then 0 else 1 + rest
