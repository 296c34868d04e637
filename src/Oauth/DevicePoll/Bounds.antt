-- ===== src/Oauth/DevicePoll/Bounds.antt =====
-- internal/oauth/coordinator.go: the limits of the interval, and of the number of polls.
use one_llm_router.Prelude.{
  ℕ, ◌-◌, ◌+◌, ◌*◌, ◌%◌, ◌≤◌, ◌<◌, ◌≡◌, refl, not, ◌||◌, Option, none, some, List, [], ◌∷◌, ltb,
  arith, if_intro,
}
use one_llm_router.Oauth.DevicePoll.{
  half, default_device_poll_interval, max_device_poll_interval, is_positive_duration, raised_to,
  lowered_to, slowed, scheduled, PollError, Turn, next_device_poll_interval, schedule_device_poll,
  asked_next, asked_after, token_exchange, other_error,
}

raised_to_lem :
    (d : ℕ)
    → d < 2 * half
    → (5000000000 ≤ raised_to default_device_poll_interval d)
      × (raised_to default_device_poll_interval d < half)
raised_to_lem d h = ground arith

lowered_to_lem :
    (d : ℕ)
    → 5000000000 ≤ d
    → d < half
    → (5000000000 ≤ lowered_to max_device_poll_interval d)
      × (lowered_to max_device_poll_interval d ≤ 60000000000)
lowered_to_lem d h h' = ground arith

slowed_lem :
    (current : ℕ)
    → current < 2 * half
    → (default_device_poll_interval ≤ slowed current) × (slowed current ≤ max_device_poll_interval)
slowed_lem current h =
    if_intro
      (λ d.
        (5000000000
          ≤ lowered_to max_device_poll_interval (raised_to default_device_poll_interval d))
        × (lowered_to max_device_poll_interval (raised_to default_device_poll_interval d)
            ≤ 60000000000))
      (not (is_positive_duration (current * 2 % (2 * half))))
      (λ t. let (low, high) = raised_to_lem current h in lowered_to_lem _ low high)
      (λ f.
        let (low, high) = raised_to_lem (current * 2 % (2 * half)) (ground arith) in
        lowered_to_lem _ low high)

-- What a poller goes on with after slow_down lies between 5 s and 60 s, whatever it waited before, and
-- also where twice that does not fit into 64 bits.
pub slow_down_bounded :
    (current http_status : ℕ)
    → current < 2 * half
    → (next : ℕ)
    → next_device_poll_interval current (token_exchange "slow_down" http_status) ≡ some next
    → (5000000000 ≤ next) × (next ≤ 60000000000)
unfolding next_device_poll_interval
slow_down_bounded current http_status h next is_next = ground (arith, is_next, slowed_lem current h)

-- An interval that stays above a lower limit that is not over 60 s.
module _ (low : ℕ) (some_wait : 0 < low) (not_over : low ≤ max_device_poll_interval) where
  slowed-keeps :
      (current : ℕ)
      → low ≤ current
      → current < half
      → (low ≤ slowed current) × (slowed current < half)
  slowed-keeps current above below =
      if_intro
        (λ d.
          (low ≤ lowered_to max_device_poll_interval (raised_to default_device_poll_interval d))
          × (lowered_to max_device_poll_interval (raised_to default_device_poll_interval d) < half))
        (not (is_positive_duration (current * 2 % (2 * half)))) (λ t. ground arith)
        (λ f. ground arith)

  next-keeps :
      (current : ℕ) (e : PollError) (next : ℕ)
      → low ≤ current
      → current < half
      → next_device_poll_interval current e ≡ some next
      → (low ≤ next) × (next < half)
  unfolding next_device_poll_interval
  next-keeps current other_error next above below h = ground arith
  next-keeps current (token_exchange code http_status) next above below h =
      ground (arith, slowed-keeps current above below)

  asked_next-bounded :
      (o : Option ℕ) (again : ℕ → ℕ) (budget : ℕ)
      → ((next : ℕ) → o ≡ some next → again next * low ≤ budget)
      → asked_next o again * low ≤ budget
  asked_next-bounded none again budget bounded = omega arith
  asked_next-bounded (some next) again budget bounded = bounded next refl

  asked_after-bounded :
      (answer : Option PollError) (current : ℕ) (again : ℕ → ℕ) (budget : ℕ)
      → low ≤ current
      → current < half
      → ((next : ℕ) → low ≤ next → next < half → again next * low ≤ budget)
      → asked_after answer current again * low ≤ budget
  asked_after-bounded none current again budget above below bounded = omega arith
  asked_after-bounded (some e) current again budget above below bounded =
      asked_next-bounded (next_device_poll_interval current e) again budget (λ next h.
        let (above', below') = next-keeps current e next above below h in
        bounded next above' below')

  scheduled-same : (interval : ℕ) → low ≤ interval → interval < half → scheduled interval ≡ interval
  scheduled-same interval above below = ground (arith, some_wait)

  -- From a wait of at least `low` on, the provider is asked at most once for each `low` nanoseconds that
  -- are left until the flow expires: where `low` is over zero and not over 60 s, whatever the provider
  -- answers and however late the timers are, the polls take no longer than that time.
  pub asked_bounded :
      (turns : List Turn) (expires_at now interval : ℕ)
      → low ≤ interval
      → interval < half
      → schedule_device_poll turns expires_at now interval * low ≤ expires_at - now
  unfolding schedule_device_poll
  asked_bounded [] expires_at now interval above below = omega arith
  asked_bounded (turn ∷ turns) expires_at now interval above below =
      if_intro (λ n. n * low ≤ expires_at - now)
        (turn.stopped || not (ltb (now + scheduled interval + turn.late) expires_at))
        (λ t. omega arith)
        (λ go.
          let same = scheduled-same interval above below in
          let fired = now + scheduled interval + turn.late in
          let rest : asked_after turn.answer (scheduled interval)
                  (schedule_device_poll turns expires_at fired)
                * low
              ≤ expires_at - fired =
            asked_after-bounded turn.answer (scheduled interval)
              (schedule_device_poll turns expires_at fired) (expires_at - fired)
              (omega (arith, same)) (omega (arith, same)) (asked_bounded turns expires_at fired) in
          ground (arith, same, rest))
