-- ===== src/Oauth/Flow/Polls.antt =====
-- internal/oauth/status.go: what GetFlow shows of a flow, time after time.
use one_llm_router.Prelude.{ℕ, ◌≡◌, ap, ◌∙◌, refl, true, false, Option, some, arith, suc, zero}
use one_llm_router.Oauth.Flow.{
  Flow, FlowSnapshot, is_terminal, snapshot_current_flow, snapshot_terminal_flow_for_poll,
  snapshot_locked, validate_snapshot, idle_flow_snapshot,
}

-- What GetFlow shows of a flow after it was asked a number of times.
abbrev pub polled : ℕ → Flow → Option FlowSnapshot
polled zero f = (snapshot_current_flow f).snapshot
polled (suc n) f = polled n (snapshot_current_flow f).flow

poll_reported :
    (f : Flow)
    → is_terminal f.status ≡ true
    → f.terminal_reported ≡ true
    → snapshot_current_flow f
      ≡ record { snapshot = some idle_flow_snapshot; is_valid = true; flow = f }
unfolding snapshot_current_flow snapshot_terminal_flow_for_poll
poll_reported f ended shown = ground (arith, ended, shown)

poll_fresh :
    (f : Flow)
    → is_terminal f.status ≡ true
    → f.terminal_reported ≡ false
    → validate_snapshot (snapshot_locked f) ≡ true
    → snapshot_current_flow f ≡ record {
      snapshot = some (snapshot_locked f);
      is_valid = true;
      flow = record f { terminal_reported = true };
    }
unfolding snapshot_current_flow snapshot_terminal_flow_for_poll
poll_fresh f ended fresh valid = ground (arith, ended, fresh, valid)

reported-idle :
    (n : ℕ) (f : Flow)
    → is_terminal f.status ≡ true
    → f.terminal_reported ≡ true
    → polled n f ≡ some idle_flow_snapshot
reported-idle zero f ended shown = ap (λ p. p.snapshot) (poll_reported f ended shown)
reported-idle (suc n) f ended shown =
    ap (λ p. polled n p.flow) (poll_reported f ended shown) ∙ reported-idle n f ended shown

-- A flow that has ended, was not shown yet and whose snapshot validates is shown the first time GetFlow
-- is asked, and never again: from then on the answer is that there is no flow.
pub reported_once :
    (n : ℕ) (f : Flow)
    → is_terminal f.status ≡ true
    → f.terminal_reported ≡ false
    → validate_snapshot (snapshot_locked f) ≡ true
    → (polled 0 f ≡ some (snapshot_locked f)) × (polled (suc n) f ≡ some idle_flow_snapshot)
reported_once n f ended fresh valid = (
  ap (λ p. p.snapshot) (poll_fresh f ended fresh valid),
  ap (λ p. polled n p.flow) (poll_fresh f ended fresh valid)
      ∙ reported-idle n (record f { terminal_reported = true }) ended refl,
)
