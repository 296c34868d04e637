-- ===== src/Oauth/Machine/Steps.antt =====
-- internal/oauth/coordinator.go: every step keeps the flows balanced.
use one_llm_router.Prelude.{
  ℕ, zero, suc, ◌≡◌, ◌⊎◌, refl, ap, ◌∙◌, sym, subst, String, Bool, true, false, not, Option, none,
  some, List, [], ◌∷◌, ◌++◌, arith, get_elem?, if_intro, inl, inr, str_eq,
}
use one_llm_router.Oauth.Flow.{Flow, Rail}
use one_llm_router.Oauth.Coordinator.{
  Coordinator, Contender, Phase, claiming, working, failing, storing, releasing, FlowSeed,
  new_coordinator, drop_at, canceller, reaper, poller, consumer, denier, Poll,
}
use one_llm_router.Oauth.Requests.{check_consume, check_deny, lookup_flow, check_cancel}
use one_llm_router.Oauth.Machine.{
  Event, step, run, new_flow, start, install, abandon, retract, consume, begin_start, deny, cancel,
  expire, poll, claim, release, settle, unbind, report, shutdown, start_flow, contend,
  contend_unless, consume_code, deny_flow, cancel_flow, expire_flow, poll_flow, let_go, release_of,
  release_call, unbind_flow, report_flow, release_current, shut_down, flow_at,
}
use one_llm_router.Oauth.Machine.Weights.{
  occupied, is_storing, weigh, tally, weigh-append, weigh-move_call_own, weigh-move_call_other,
}
use one_llm_router.Oauth.Machine.Claims.{Load, IsBalanced, IsBalanced-closed}
use one_llm_router.Oauth.Machine.Contested.{claim_call-AllBalanced, settle_call-AllBalanced}
use one_llm_router.Oauth.Machine.Balance.{
  load, Balanced, AllBalanced, found-IsBalanced, update_balanced, nat_cases,
}

pub get_elem?-push :
    (xs : List Flow) (x : Flow) (k : ℕ)
    → (get_elem? (xs ++ x ∷ []) k ≡ get_elem? xs k)
      ⊎ ((get_elem? xs k ≡ none) × (get_elem? (xs ++ x ∷ []) k ≡ some x))
get_elem?-push [] x zero = inr (refl, refl)
get_elem?-push [] x (suc k) = inl refl
get_elem?-push (y ∷ xs) x zero = inl refl
get_elem?-push (y ∷ xs) x (suc k) = get_elem?-push xs x k

new_flow-IsBalanced : (seed : FlowSeed) (closed : Bool) → IsBalanced (new_flow seed) (0, 0) 0 closed
new_flow-IsBalanced seed closed = record {
  at_most = omega arith;
  exactly = λ h. refl;
  stores = refl;
  fresh = λ h. refl;
  account = refl;
}

-- What a flow keeps besides does not count.
noted-IsBalanced :
    {f : Flow} {w : Load} {n : ℕ} {closed : Bool} (bound reported : Bool)
    → IsBalanced f w n closed
    → IsBalanced (record f { listener_bound = bound; terminal_reported = reported }) w n closed
noted-IsBalanced bound reported s = record {
  at_most = s.at_most;
  exactly = s.exactly;
  stores = s.stores;
  fresh = s.fresh;
  account = s.account;
}

closed-Balanced :
    (o : Option Flow) (w : Load) (n : ℕ) (closed : Bool)
    → Balanced o w n closed
    → Balanced o w n true
closed-Balanced none w n closed b = b
closed-Balanced (some f) w n closed b = IsBalanced-closed b

same_load : {w w' v v' : ℕ} → w ≡ w' → v ≡ v' → ◌≡◌ {A = Load} (w, v) (w', v')
same_load {w = w} {v' = v'} a b = ap (λ v. (w, v)) b ∙ ap (λ w. (w, v')) a

module _ (c : Coordinator) where
  -- A goroutine that only begins to contend is not at work.
  contend_load :
      (j k : ℕ) (who : Contender) → load j c.calls ≡ load j (c.calls ++ (k, claiming who) ∷ [])
  contend_load j k who =
      same_load (ground (arith, weigh-append occupied j c.calls (k, claiming who)))
        (ground (arith, weigh-append is_storing j c.calls (k, claiming who)))

  -- One that lets go of its flow is not at work either.
  dropped :
      (m : Phase → ℕ)
      → m releasing ≡ 0
      → (j i k : ℕ) → get_elem? c.calls i ≡ some (k, releasing)
      → weigh m j c.calls ≡ weigh m j (drop_at c.calls i)
  dropped m idle j i k call = elim (nat_cases j k) [
    | inl e ↦ rw e (omega (arith, idle, weigh-move_call_own m c.calls i k releasing call none))
    | inr apart ↦ sym (weigh-move_call_other m c.calls i k releasing call j none apart)
  ]

  drop_load :
      (j i k : ℕ)
      → get_elem? c.calls i ≡ some (k, releasing)
      → load j c.calls ≡ load j (drop_at c.calls i)
  drop_load j i k call =
      same_load (dropped occupied refl j i k call) (dropped is_storing refl j i k call)

module _ (c : Coordinator) (all : AllBalanced c) where
  starting-AllBalanced : (starting : Option FlowSeed) → AllBalanced record c { starting = starting }
  unfolding AllBalanced
  starting-AllBalanced starting = all

  begin_start-AllBalanced :
      (other : Option FlowSeed) (o : Option ℕ) (seed : FlowSeed)
      → AllBalanced (begin_start other o seed c)
  begin_start-AllBalanced (some other) o seed = all
  begin_start-AllBalanced none (some k) seed = all
  begin_start-AllBalanced none none seed =
      if_intro AllBalanced c.closed (λ t. all) (λ running. starting-AllBalanced (some seed))

  start_flow-AllBalanced :
      (starting : Option FlowSeed) (o : Option ℕ) → AllBalanced (start_flow starting o c)
  unfolding AllBalanced
  start_flow-AllBalanced none o = all
  start_flow-AllBalanced (some seed) (some k) = starting-AllBalanced none
  start_flow-AllBalanced (some seed) none = λ k. elim (get_elem?-push c.flows (new_flow seed) k) [
    | inl same ↦ rw same (all k)
    | inr (nobody, own) ↦
        let (w, v, n) =
          subst (λ o. Balanced o (load k c.calls) (tally k c.inserted) c.closed) nobody (all k) in
        rw (own, w, v, n) (new_flow-IsBalanced seed c.closed)
  ]

  contend-AllBalanced : (k : ℕ) (who : Contender) → AllBalanced (contend k who c)
  unfolding AllBalanced
  contend-AllBalanced k who j =
      subst (λ w. Balanced (get_elem? c.flows j) w (tally j c.inserted) c.closed)
        (contend_load c j k who) (all j)

  contend_unless-AllBalanced :
      {A : Type 0} (o : Option A) (k : ℕ) (who : Contender) → AllBalanced (contend_unless o k who c)
  contend_unless-AllBalanced none k who = contend-AllBalanced k who
  contend_unless-AllBalanced (some refused) k who = all

  consume_code-AllBalanced :
      (at : Option ℕ) (o : Option Flow) (state : String) (rail : Rail) (now : ℕ)
      → AllBalanced (consume_code at o state rail now c)
  consume_code-AllBalanced none o state rail now = all
  consume_code-AllBalanced (some k) none state rail now = all
  consume_code-AllBalanced (some k) (some f) state rail now =
      contend_unless-AllBalanced (check_consume f state now) k (consumer rail)

  deny_flow-AllBalanced :
      (at : Option ℕ) (o : Option Flow) (provider_error : String) (rail : Rail) (now : ℕ)
      → AllBalanced (deny_flow at o provider_error rail now c)
  deny_flow-AllBalanced none o provider_error rail now = all
  deny_flow-AllBalanced (some k) none provider_error rail now = all
  deny_flow-AllBalanced (some k) (some f) provider_error rail now =
      contend_unless-AllBalanced (check_deny f provider_error now) k (denier rail)

  cancel_flow-AllBalanced : (o : Option ℕ) → AllBalanced (cancel_flow o c)
  cancel_flow-AllBalanced none = all
  cancel_flow-AllBalanced (some k) = contend-AllBalanced k canceller

  expire_flow-AllBalanced :
      (k : ℕ) (o : Option Flow) (now : ℕ) → AllBalanced (expire_flow k o now c)
  expire_flow-AllBalanced k none now = all
  expire_flow-AllBalanced k (some f) now =
      if_intro AllBalanced _ (λ t. contend-AllBalanced k reaper) (λ f. all)

  poll_flow-AllBalanced :
      (k : ℕ) (o : Option Flow) (answer : Poll) (now : ℕ) → AllBalanced (poll_flow k o answer now c)
  poll_flow-AllBalanced k none answer now = all
  poll_flow-AllBalanced k (some f) answer now =
      if_intro AllBalanced _ (λ t. all) (λ f. contend-AllBalanced k (poller answer))

  -- The flow that is current and the flows that were released do not count.
  relisted-AllBalanced :
      (current : Option ℕ) (released : List (String × ℕ)) (latest : String)
      → AllBalanced record c {
        current = current;
        released_flows = released;
        latest_released_flow_id = latest;
      }
  unfolding AllBalanced
  relisted-AllBalanced current released latest = all

  let_go-AllBalanced :
      (at : Option ℕ) (o : Option Flow) (id : String) → AllBalanced (let_go at o id c)
  let_go-AllBalanced none o id = all
  let_go-AllBalanced (some k) none id = all
  let_go-AllBalanced (some k) (some f) id =
      if_intro AllBalanced (not (str_eq f.id id)) (λ t. all)
        (λ same.
          if_intro AllBalanced c.closed (λ t. relisted-AllBalanced none _ _)
            (λ running. relisted-AllBalanced none _ _))

  release_current-AllBalanced : (o : Option Flow) → AllBalanced (release_current o c)
  release_current-AllBalanced none = all
  release_current-AllBalanced (some f) =
      let_go-AllBalanced c.current (flow_at c.current c.flows) f.id

  unbind_flow-AllBalanced :
      (k : ℕ) (o : Option Flow) → get_elem? c.flows k ≡ o → AllBalanced (unbind_flow k o c)
  unbind_flow-AllBalanced k none found = all
  unbind_flow-AllBalanced k (some f) found =
      update_balanced c k f _ c.calls c.inserted found (λ j apart. (refl, refl, refl))
        (noted-IsBalanced false f.terminal_reported (found-IsBalanced c k f found all)) all

  report_flow-AllBalanced :
      (k : ℕ) (o : Option Flow) → get_elem? c.flows k ≡ o → AllBalanced (report_flow k o c)
  report_flow-AllBalanced k none found = all
  report_flow-AllBalanced k (some f) found =
      update_balanced c k f _ c.calls c.inserted found (λ j apart. (refl, refl, refl))
        (noted-IsBalanced f.listener_bound true (found-IsBalanced c k f found all)) all

  drop_at-AllBalanced :
      (i k : ℕ)
      → get_elem? c.calls i ≡ some (k, releasing)
      → AllBalanced record c { calls = drop_at c.calls i }
  unfolding AllBalanced
  drop_at-AllBalanced i k call j =
      subst (λ w. Balanced (get_elem? c.flows j) w (tally j c.inserted) c.closed)
        (drop_load c j i k call) (all j)

  close-AllBalanced : AllBalanced record c { closed = true }
  unfolding AllBalanced
  close-AllBalanced j =
      closed-Balanced (get_elem? c.flows j) (load j c.calls) (tally j c.inserted) c.closed (all j)

release_of-AllBalanced :
    (c : Coordinator)
    → AllBalanced c
    → (i k : ℕ) → get_elem? c.calls i ≡ some (k, releasing)
    → (o : Option Flow) → AllBalanced (release_of i o c)
release_of-AllBalanced c all i k call none = all
release_of-AllBalanced c all i k call (some f) =
    let_go-AllBalanced record c { calls = drop_at c.calls i } (drop_at-AllBalanced c all i k call)
      c.current (flow_at c.current c.flows) f.id

release_call-AllBalanced :
    (c : Coordinator)
    → AllBalanced c
    → (i : ℕ) (o : Option (ℕ × Phase)) → get_elem? c.calls i ≡ o
    → AllBalanced (release_call i o c)
release_call-AllBalanced c all i none call = all
release_call-AllBalanced c all i (some (k, claiming who)) call = all
release_call-AllBalanced c all i (some (k, working who)) call = all
release_call-AllBalanced c all i (some (k, failing e)) call = all
release_call-AllBalanced c all i (some (k, storing a)) call = all
release_call-AllBalanced c all i (some (k, releasing)) call =
    release_of-AllBalanced c all i k call (get_elem? c.flows k)

shut_down-AllBalanced : (c : Coordinator) → AllBalanced c → AllBalanced (shut_down c)
unfolding AllBalanced
shut_down-AllBalanced c all =
    release_current-AllBalanced record c { closed = true } (close-AllBalanced c all)
      (flow_at c.current c.flows)

pub step-AllBalanced : (e : Event) (c : Coordinator) → AllBalanced c → AllBalanced (step e c)
unfolding step lookup_flow check_cancel
step-AllBalanced (start seed) c all = begin_start-AllBalanced c all c.starting c.current seed
step-AllBalanced install c all = start_flow-AllBalanced c all c.starting c.current
step-AllBalanced abandon c all = starting-AllBalanced c all none
step-AllBalanced (retract id) c all =
    let_go-AllBalanced c all c.current (flow_at c.current c.flows) id
step-AllBalanced (consume id state rail now) c all =
    consume_code-AllBalanced c all (lookup_flow c id) (flow_at (lookup_flow c id) c.flows) state
      rail now
step-AllBalanced (deny id provider_error rail now) c all =
    deny_flow-AllBalanced c all (lookup_flow c id) (flow_at (lookup_flow c id) c.flows)
      provider_error rail now
step-AllBalanced (cancel id) c all = cancel_flow-AllBalanced c all (check_cancel c id)
step-AllBalanced (expire k now) c all = expire_flow-AllBalanced c all k (get_elem? c.flows k) now
step-AllBalanced (poll k answer now) c all =
    poll_flow-AllBalanced c all k (get_elem? c.flows k) answer now
step-AllBalanced (claim i) c all = claim_call-AllBalanced c all i (get_elem? c.calls i) refl
step-AllBalanced (settle i outcome) c all =
    settle_call-AllBalanced c all i outcome (get_elem? c.calls i) refl
step-AllBalanced (release i) c all = release_call-AllBalanced c all i (get_elem? c.calls i) refl
step-AllBalanced (unbind k) c all = unbind_flow-AllBalanced c all k (get_elem? c.flows k) refl
step-AllBalanced (report k) c all = report_flow-AllBalanced c all k (get_elem? c.flows k) refl
step-AllBalanced shutdown c all = shut_down-AllBalanced c all

new_coordinator-AllBalanced : AllBalanced new_coordinator
unfolding AllBalanced
new_coordinator-AllBalanced k = (refl, refl, refl)

run-AllBalanced : (es : List Event) (c : Coordinator) → AllBalanced c → AllBalanced (run es c)
unfolding run
run-AllBalanced [] c all = all
run-AllBalanced (e ∷ es) c all = run-AllBalanced es (step e c) (step-AllBalanced e c all)

-- Every state that the coordinator reaches is balanced.
pub reached-AllBalanced : (es : List Event) → AllBalanced (run es new_coordinator)
reached-AllBalanced es = run-AllBalanced es new_coordinator new_coordinator-AllBalanced
