-- ===== src/Oauth/Machine/Contested.antt =====
-- internal/oauth/coordinator.go: claims and settlements keep the flows balanced.
use one_llm_router.Prelude.{
  ℕ, ◌+◌, ◌≡◌, ◌≢◌, refl, subst, Bool, true, false, Option, none, some, List, arith, get_elem?, set,
  if_intro,
}
use one_llm_router.Domain.Account.{UpstreamAccount}
use one_llm_router.Oauth.Flow.{Flow, FlowTerminalError}
use one_llm_router.Oauth.Coordinator.{
  Coordinator, Contender, Phase, Outcome, consumer, denier, canceller, reaper, poller, got_tokens,
  denied_by_user, token_expired, poll_failed, completed, failed, inserts, claiming, working,
  failing, storing, releasing, publish_flow, complete_flow, after_settling, claim_call, claim_flow,
  settle_call, settle_flow, fail_call, fail_flow, claimed, claim_won, gives_up, settled,
  stored_accounts, move_call,
}
use one_llm_router.Oauth.Machine.Weights.{
  weight, stores, tally, occupied, is_storing, option_by, stores-le-weight, weigh-move_call_own,
}
use one_llm_router.Oauth.Machine.Claims.{
  IsBalanced, published-IsBalanced, claimed-IsBalanced, settled-IsBalanced, failed-IsBalanced,
}
use one_llm_router.Oauth.Machine.Balance.{
  load, AllBalanced, found-IsBalanced, update_balanced, at_work-alone, none_held, goes_on,
  other_load,
}

claim_won_stores : (who : Contender) (f : Flow) → is_storing (claim_won who f).1 ≡ 0
claim_won_stores (consumer rail) f = ground arith
claim_won_stores (denier rail) f = ground arith
claim_won_stores canceller f = refl
claim_won_stores reaper f = refl
claim_won_stores (poller poll) f = refl

-- A claim stores no account.
claimed_stores :
    (closed : Bool) (who : Contender) (f : Flow) → option_by is_storing (claimed closed who f).1 ≡ 0
claimed_stores closed who f =
    if_intro (λ (p : Flow × Option Phase). option_by is_storing p.1 ≡ 0) (gives_up closed who)
      (λ t. refl)
      (λ go.
        if_intro (λ (p : Flow × Option Phase). option_by is_storing p.1 ≡ 0) f.consumed (λ t. refl)
          (λ free. claim_won_stores who f))

tally-inserts :
    (j k : ℕ) (outcome : Outcome) (inserted : List ℕ)
    → j ≢ k
    → tally j (inserts k outcome inserted) ≡ tally j inserted
tally-inserts j k (completed a) inserted apart = ground arith
tally-inserts j k (failed e) inserted apart = refl

tally-stored_accounts :
    (closed : Bool) (j k : ℕ) (who : Contender) (outcome : Outcome) (inserted : List ℕ)
    → j ≢ k
    → tally j (stored_accounts closed k who outcome inserted) ≡ tally j inserted
tally-stored_accounts closed j k (consumer rail) outcome inserted apart =
    tally-inserts j k outcome inserted apart
tally-stored_accounts closed j k (denier rail) outcome inserted apart = refl
tally-stored_accounts closed j k canceller outcome inserted apart = refl
tally-stored_accounts closed j k reaper outcome inserted apart = refl
tally-stored_accounts true j k (poller got_tokens) outcome inserted apart = refl
tally-stored_accounts false j k (poller got_tokens) outcome inserted apart =
    tally-inserts j k outcome inserted apart
tally-stored_accounts closed j k (poller denied_by_user) outcome inserted apart = refl
tally-stored_accounts closed j k (poller token_expired) outcome inserted apart = refl
tally-stored_accounts closed j k (poller (poll_failed e)) outcome inserted apart = refl

module _ (c : Coordinator) (all : AllBalanced c) where
  claim_flow-AllBalanced :
      (i k : ℕ) (who : Contender)
      → get_elem? c.calls i ≡ some (k, claiming who)
      → (o : Option Flow) → get_elem? c.flows k ≡ o
      → AllBalanced (claim_flow i k who o c)
  claim_flow-AllBalanced i k who call none found = all
  claim_flow-AllBalanced i k who call (some f) found =
      let (f', phase) = claimed c.closed who f in
      let balanced = found-IsBalanced c k f found all in
      let busy : weight k c.calls + option_by occupied phase
          ≡ weight k (move_call c.calls i k phase) =
        omega (arith, weigh-move_call_own occupied c.calls i k (claiming who) call phase) in
      let held : stores k c.calls ≡ stores k (move_call c.calls i k phase) = omega (
        arith,
        weigh-move_call_own is_storing c.calls i k (claiming who) call phase,
        claimed_stores c.closed who f,
      ) in
      update_balanced c k f f' (move_call c.calls i k phase) c.inserted found
        (λ j apart.
          let (w, v) = other_load c.calls i k (claiming who) call j phase apart in (w, v, refl))
        (subst
          (λ w.
            IsBalanced f' (w, stores k (move_call c.calls i k phase)) (tally k c.inserted) c.closed)
          busy
          (subst
            (λ v.
              IsBalanced f' (weight k c.calls + option_by occupied phase, v) (tally k c.inserted)
                c.closed)
            held
            (claimed-IsBalanced f (load k c.calls) (tally k c.inserted) c.closed balanced who
              (stores-le-weight k c.calls))))
        all

  pub claim_call-AllBalanced :
      (i : ℕ) (o : Option (ℕ × Phase)) → get_elem? c.calls i ≡ o → AllBalanced (claim_call i o c)
  claim_call-AllBalanced i none call = all
  claim_call-AllBalanced i (some (k, claiming who)) call =
      claim_flow-AllBalanced i k who call (get_elem? c.flows k) refl
  claim_call-AllBalanced i (some (k, working who)) call = all
  claim_call-AllBalanced i (some (k, failing e)) call = all
  claim_call-AllBalanced i (some (k, storing a)) call = all
  claim_call-AllBalanced i (some (k, releasing)) call = all

  settle_flow-AllBalanced :
      (i k : ℕ) (who : Contender) (outcome : Outcome)
      → get_elem? c.calls i ≡ some (k, working who)
      → (o : Option Flow) → get_elem? c.flows k ≡ o
      → AllBalanced (settle_flow i k who outcome o c)
  settle_flow-AllBalanced i k who outcome call none found = all
  settle_flow-AllBalanced i k who outcome call (some f) found =
      let balanced = found-IsBalanced c k f found all in
      let phase = after_settling c.closed who outcome in
      let (w, v) = goes_on c i k (working who) f call refl phase balanced in
      update_balanced c k f (settled c.closed who outcome f) (set c.calls i (k, phase))
        (stored_accounts c.closed k who outcome c.inserted) found
        (λ j apart.
          let (w', v') = other_load c.calls i k (working who) call j (some phase) apart in
          (w', v', tally-stored_accounts c.closed j k who outcome c.inserted apart))
        (rw (w, v)
          (settled-IsBalanced f (load k c.calls) (tally k c.inserted) c.closed balanced k who
            outcome c.inserted (at_work-alone c i k (working who) f call refl balanced)
            (none_held c i k (working who) f call refl balanced) refl))
        all

  fail_call-AllBalanced :
      (i k : ℕ) (e : FlowTerminalError)
      → get_elem? c.calls i ≡ some (k, failing e)
      → (o : Option Flow) → get_elem? c.flows k ≡ o
      → AllBalanced (fail_call i k e o c)
  fail_call-AllBalanced i k e call none found = all
  fail_call-AllBalanced i k e call (some f) found =
      let balanced = found-IsBalanced c k f found all in
      let (w, v) = goes_on c i k (failing e) f call refl releasing balanced in
      update_balanced c k f (fail_flow e f) (set c.calls i (k, releasing)) c.inserted found
        (λ j apart.
          let (w', v') = other_load c.calls i k (failing e) call j (some releasing) apart in
          (w', v', refl))
        (rw (w, v)
          (failed-IsBalanced f (load k c.calls) (tally k c.inserted) c.closed balanced e
            (at_work-alone c i k (failing e) f call refl balanced)
            (none_held c i k (failing e) f call refl balanced)))
        all

  publish_flow-AllBalanced :
      (i k : ℕ) (a : UpstreamAccount)
      → get_elem? c.calls i ≡ some (k, storing a)
      → (o : Option Flow) → get_elem? c.flows k ≡ o
      → AllBalanced (publish_flow i k a o c)
  publish_flow-AllBalanced i k a call none found = all
  publish_flow-AllBalanced i k a call (some f) found =
      let balanced = found-IsBalanced c k f found all in
      let (w, v) = goes_on c i k (storing a) f call refl releasing balanced in
      update_balanced c k f (complete_flow a f) (set c.calls i (k, releasing)) c.inserted found
        (λ j apart.
          let (w', v') = other_load c.calls i k (storing a) call j (some releasing) apart in
          (w', v', refl))
        (rw (w, v)
          (published-IsBalanced f (load k c.calls) (tally k c.inserted) c.closed balanced a
            (at_work-alone c i k (storing a) f call refl balanced)
            (none_held c i k (storing a) f call refl balanced)))
        all

  pub settle_call-AllBalanced :
      (i : ℕ) (outcome : Outcome) (o : Option (ℕ × Phase))
      → get_elem? c.calls i ≡ o
      → AllBalanced (settle_call i outcome o c)
  settle_call-AllBalanced i outcome none call = all
  settle_call-AllBalanced i outcome (some (k, claiming who)) call = all
  settle_call-AllBalanced i outcome (some (k, working who)) call =
      settle_flow-AllBalanced i k who outcome call (get_elem? c.flows k) refl
  settle_call-AllBalanced i outcome (some (k, failing e)) call =
      fail_call-AllBalanced i k e call (get_elem? c.flows k) refl
  settle_call-AllBalanced i outcome (some (k, releasing)) call = all
  settle_call-AllBalanced i outcome (some (k, storing a)) call =
      publish_flow-AllBalanced i k a call (get_elem? c.flows k) refl
