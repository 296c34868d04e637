-- ===== src/Oauth/Machine/Settled.antt =====
-- internal/oauth/coordinator.go: a flow that is settled stays as it is.
use one_llm_router.Prelude.{
  ℕ, ◌≡◌, ◌≢◌, ◌⊎◌, refl, subst, ap, ◌∙◌, Bool, true, false, Option, none, some, List, [], ◌∷◌,
  ◌++◌, arith, get_elem?, set, if◌then◌else◌, if_intro, inl, inr, Bool-cases,
}
use one_llm_router.Domain.Account.{UpstreamAccount}
use one_llm_router.Oauth.Flow.{Flow, FlowStatus, FlowTerminalError, is_terminal}
use one_llm_router.Oauth.Coordinator.{
  Coordinator, Contender, Phase, Outcome, claiming, working, failing, storing, releasing, FlowSeed,
  publish_flow, claimed, gives_up, claim_flow, claim_call, settle_flow, fail_call, settle_call,
}
use one_llm_router.Oauth.Requests.{lookup_flow, check_cancel}
use one_llm_router.Oauth.Machine.{
  Event, step, run, new_flow, start, install, abandon, retract, begin_start, consume, deny, cancel,
  expire, poll, claim, release, settle, unbind, report, shutdown, start_flow, unbind_flow,
  report_flow, flow_at,
}
use one_llm_router.Oauth.Machine.Weights.{tally, get_elem?-set_own, get_elem?-set_other, occupied}
use one_llm_router.Oauth.Machine.Claims.{Load, IsBalanced, unsettled, at_work-unsettled}
use one_llm_router.Oauth.Machine.Balance.{
  load, AllBalanced, found-IsBalanced, at_work-alone, nat_cases,
}
use one_llm_router.Oauth.Machine.Steps.{get_elem?-push, step-AllBalanced}
use one_llm_router.Oauth.Machine.Unchanged.{
  consume_code-flows, deny_flow-flows, cancel_flow-flows, expire_flow-flows, poll_flow-flows,
  let_go-flows, release_current-flows, release_call-flows,
}

-- How a flow ended: its status, the account it stored, and the error it failed by.
pub record Settlement : Type 0 where
  pub status : FlowStatus
  pub account : Option UpstreamAccount
  pub error : Option FlowTerminalError

abbrev pub settlement : Option Flow → Option Settlement
settlement none = none
settlement (some f) =
    if is_terminal f.status
    then some record { status = f.status; account = f.terminal_account; error = f.terminal_error }
    else none

abbrev pub KeepsSettled : List Flow → List Flow → Type 0
KeepsSettled before after =
    (k : ℕ) (r : Settlement)
    → settlement (get_elem? before k) ≡ some r
    → settlement (get_elem? after k) ≡ some r

same_settled : (flows : List Flow) → KeepsSettled flows flows
same_settled flows k r h = h

settlement-open :
    (f : Flow) (r : Settlement) → is_terminal f.status ≡ false → settlement (some f) ≢ some r
settlement-open f r open_still h = ground (arith, open_still)

-- One flow changes, and it was not settled, or ends as it was.
module _ (flows : List Flow) (j : ℕ) (f f' : Flow) (found : get_elem? flows j ≡ some f)
    (change : (is_terminal f.status ≡ false) ⊎ (settlement (some f') ≡ settlement (some f))) where
  update_own : (r : Settlement) → settlement (some f) ≡ some r → settlement (some f') ≡ some r
  update_own r own = elim change [
    | inl open_still ↦ absurd (settlement-open f r open_still own)
    | inr same ↦ same ∙ own
  ]

  update_settled : KeepsSettled flows (set flows j f')
  update_settled k r h = elim (nat_cases k j) [
    | inr apart ↦ ap settlement (get_elem?-set_other flows j k f' apart) ∙ h
    | inl e ↦
        rw (e, get_elem?-set_own flows j f f' found)
          (update_own r (subst (λ o. settlement o ≡ some r) (ap (get_elem? flows) e ∙ found) h))
  ]

claimed-taken :
    (closed : Bool) (who : Contender) (f : Flow) → f.consumed ≡ true → (claimed closed who f).0 ≡ f
claimed-taken closed who f taken =
    if_intro (λ (p : Flow × Option Phase). p.0 ≡ f) (gives_up closed who) (λ t. refl)
      (λ go.
        if_intro (λ (p : Flow × Option Phase). p.0 ≡ f) f.consumed (λ t. refl)
          (λ free. ground (arith, taken)))

-- A claim leaves a settled flow alone, since it is consumed.
claimed_settled :
    (closed : Bool) (who : Contender) (f : Flow) (w : Load) (n : ℕ)
    → IsBalanced f w n closed
    → (is_terminal f.status ≡ false)
      ⊎ (settlement (some (claimed closed who f).0) ≡ settlement (some f))
claimed_settled closed who f w n balanced = elim (Bool-cases f.consumed) [
  | inl taken ↦ inr (ap (λ g. settlement (some g)) (claimed-taken closed who f taken))
  | inr free ↦ inl (ground (arith, unsettled f w n closed balanced free))
]

module _ (c : Coordinator) (all : AllBalanced c) where
  claim_flow_settled :
      (i k : ℕ) (who : Contender) (o : Option Flow)
      → get_elem? c.flows k ≡ o
      → KeepsSettled c.flows (claim_flow i k who o c).flows
  claim_flow_settled i k who none found = same_settled c.flows
  claim_flow_settled i k who (some f) found =
      update_settled c.flows k f (claimed c.closed who f).0 found (
        claimed_settled c.closed who f (load k c.calls) (tally k c.inserted)
          (found-IsBalanced c k f found all))

  claim_call_settled :
      (i : ℕ) (o : Option (ℕ × Phase)) → KeepsSettled c.flows (claim_call i o c).flows
  claim_call_settled i none = same_settled c.flows
  claim_call_settled i (some (k, claiming who)) =
      claim_flow_settled i k who (get_elem? c.flows k) refl
  claim_call_settled i (some (k, working who)) = same_settled c.flows
  claim_call_settled i (some (k, failing e)) = same_settled c.flows
  claim_call_settled i (some (k, storing a)) = same_settled c.flows
  claim_call_settled i (some (k, releasing)) = same_settled c.flows

  -- A flow that a goroutine is at work on is not settled.
  at_work_settled :
      (i k : ℕ) (old : Phase) (f f' : Flow)
      → get_elem? c.calls i ≡ some (k, old)
      → occupied old ≡ 1
      → get_elem? c.flows k ≡ some f
      → KeepsSettled c.flows (set c.flows k f')
  at_work_settled i k old f f' call busy found =
      let balanced = found-IsBalanced c k f found all in
      update_settled c.flows k f f' found (
        inl
          (at_work-unsettled f (load k c.calls) (tally k c.inserted) c.closed balanced
            (at_work-alone c i k old f call busy balanced)).1)

  settle_flow_settled :
      (i k : ℕ) (who : Contender) (outcome : Outcome)
      → get_elem? c.calls i ≡ some (k, working who)
      → (o : Option Flow) → get_elem? c.flows k ≡ o
      → KeepsSettled c.flows (settle_flow i k who outcome o c).flows
  settle_flow_settled i k who outcome call none found = same_settled c.flows
  settle_flow_settled i k who outcome call (some f) found =
      at_work_settled i k (working who) f _ call refl found

  fail_call_settled :
      (i k : ℕ) (e : FlowTerminalError)
      → get_elem? c.calls i ≡ some (k, failing e)
      → (o : Option Flow) → get_elem? c.flows k ≡ o
      → KeepsSettled c.flows (fail_call i k e o c).flows
  fail_call_settled i k e call none found = same_settled c.flows
  fail_call_settled i k e call (some f) found = at_work_settled i k (failing e) f _ call refl found

  publish_flow_settled :
      (i k : ℕ) (a : UpstreamAccount)
      → get_elem? c.calls i ≡ some (k, storing a)
      → (o : Option Flow) → get_elem? c.flows k ≡ o
      → KeepsSettled c.flows (publish_flow i k a o c).flows
  publish_flow_settled i k a call none found = same_settled c.flows
  publish_flow_settled i k a call (some f) found =
      at_work_settled i k (storing a) f _ call refl found

  settle_call_settled :
      (i : ℕ) (outcome : Outcome) (o : Option (ℕ × Phase))
      → get_elem? c.calls i ≡ o
      → KeepsSettled c.flows (settle_call i outcome o c).flows
  settle_call_settled i outcome none call = same_settled c.flows
  settle_call_settled i outcome (some (k, claiming who)) call = same_settled c.flows
  settle_call_settled i outcome (some (k, working who)) call =
      settle_flow_settled i k who outcome call (get_elem? c.flows k) refl
  settle_call_settled i outcome (some (k, failing e)) call =
      fail_call_settled i k e call (get_elem? c.flows k) refl
  settle_call_settled i outcome (some (k, storing a)) call =
      publish_flow_settled i k a call (get_elem? c.flows k) refl
  settle_call_settled i outcome (some (k, releasing)) call = same_settled c.flows

pushed_settled : (flows : List Flow) (f : Flow) → KeepsSettled flows (flows ++ f ∷ [])
pushed_settled flows f k r h = elim (get_elem?-push flows f k) [
  | inl same ↦ ap settlement same ∙ h
  | inr nobody ↦ ground (arith, ap settlement nobody.0, h)
]

unchanged_settled : {before after : List Flow} → after ≡ before → KeepsSettled before after
unchanged_settled same k r h = ap (λ flows. settlement (get_elem? flows k)) same ∙ h

module _ (c : Coordinator) where
  begin_start_settled :
      (other : Option FlowSeed) (o : Option ℕ) (seed : FlowSeed)
      → KeepsSettled c.flows (begin_start other o seed c).flows
  begin_start_settled (some other) o seed = same_settled c.flows
  begin_start_settled none (some k) seed = same_settled c.flows
  begin_start_settled none none seed =
      if_intro (λ (d : Coordinator). KeepsSettled c.flows d.flows) c.closed
        (λ t. same_settled c.flows) (λ running. same_settled c.flows)

  start_flow_settled :
      (starting : Option FlowSeed) (o : Option ℕ)
      → KeepsSettled c.flows (start_flow starting o c).flows
  start_flow_settled none o = same_settled c.flows
  start_flow_settled (some seed) (some k) = same_settled c.flows
  start_flow_settled (some seed) none = pushed_settled c.flows (new_flow seed)

  unbind_flow_settled :
      (k : ℕ) (o : Option Flow)
      → get_elem? c.flows k ≡ o
      → KeepsSettled c.flows (unbind_flow k o c).flows
  unbind_flow_settled k none found = same_settled c.flows
  unbind_flow_settled k (some f) found = update_settled c.flows k f _ found (inr refl)

  report_flow_settled :
      (k : ℕ) (o : Option Flow)
      → get_elem? c.flows k ≡ o
      → KeepsSettled c.flows (report_flow k o c).flows
  report_flow_settled k none found = same_settled c.flows
  report_flow_settled k (some f) found = update_settled c.flows k f _ found (inr refl)

step_settled : (e : Event) (c : Coordinator) → AllBalanced c → KeepsSettled c.flows (step e c).flows
unfolding step lookup_flow check_cancel
step_settled (start seed) c all = begin_start_settled c c.starting c.current seed
step_settled install c all = start_flow_settled c c.starting c.current
step_settled abandon c all = same_settled c.flows
step_settled (retract id) c all =
    unchanged_settled (let_go-flows c c.current (flow_at c.current c.flows) id)
step_settled (consume id state rail now) c all =
    unchanged_settled
      (consume_code-flows c (lookup_flow c id) (flow_at (lookup_flow c id) c.flows) state rail now)
step_settled (deny id provider_error rail now) c all = unchanged_settled (
    deny_flow-flows c (lookup_flow c id) (flow_at (lookup_flow c id) c.flows) provider_error rail
      now)
step_settled (cancel id) c all = unchanged_settled (cancel_flow-flows c (check_cancel c id))
step_settled (expire k now) c all =
    unchanged_settled (expire_flow-flows c k (get_elem? c.flows k) now)
step_settled (poll k answer now) c all =
    unchanged_settled (poll_flow-flows c k (get_elem? c.flows k) answer now)
step_settled (claim i) c all = claim_call_settled c all i (get_elem? c.calls i)
step_settled (settle i outcome) c all =
    settle_call_settled c all i outcome (get_elem? c.calls i) refl
step_settled (release i) c all = unchanged_settled (release_call-flows c i (get_elem? c.calls i))
step_settled (unbind k) c all = unbind_flow_settled c k (get_elem? c.flows k) refl
step_settled (report k) c all = report_flow_settled c k (get_elem? c.flows k) refl
step_settled shutdown c all =
    unchanged_settled (release_current-flows record c { closed = true } (flow_at c.current c.flows))

pub run_settled :
    (es : List Event) (c : Coordinator) → AllBalanced c → KeepsSettled c.flows (run es c).flows
unfolding run
run_settled [] c all k r h = h
run_settled (e ∷ es) c all k r h =
    run_settled es (step e c) (step-AllBalanced e c all) k r (step_settled e c all k r h)
