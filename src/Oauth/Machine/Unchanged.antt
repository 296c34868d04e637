-- ===== src/Oauth/Machine/Unchanged.antt =====
-- internal/oauth/coordinator.go: the steps that leave every flow as it is.
use one_llm_router.Prelude.{ℕ, ◌≡◌, refl, String, Option, none, some, arith, get_elem?}
use one_llm_router.Oauth.Flow.{Flow, Rail}
use one_llm_router.Oauth.Coordinator.{
  Coordinator, Contender, Phase, claiming, working, failing, storing, releasing, drop_at, consumer,
  denier, Poll,
}
use one_llm_router.Oauth.Requests.{check_consume, check_deny}
use one_llm_router.Oauth.Machine.{
  contend_unless, consume_code, deny_flow, cancel_flow, expire_flow, poll_flow, let_go, release_of,
  release_call, release_current, flow_at,
}

module _ (c : Coordinator) where
  pub contend_unless-flows :
      {A : Type 0} (o : Option A) (k : ℕ) (who : Contender)
      → (contend_unless o k who c).flows ≡ c.flows
  contend_unless-flows none k who = refl
  contend_unless-flows (some refused) k who = refl

  pub consume_code-flows :
      (at : Option ℕ) (o : Option Flow) (state : String) (rail : Rail) (now : ℕ)
      → (consume_code at o state rail now c).flows ≡ c.flows
  consume_code-flows none o state rail now = refl
  consume_code-flows (some k) none state rail now = refl
  consume_code-flows (some k) (some f) state rail now =
      contend_unless-flows (check_consume f state now) k (consumer rail)

  pub deny_flow-flows :
      (at : Option ℕ) (o : Option Flow) (provider_error : String) (rail : Rail) (now : ℕ)
      → (deny_flow at o provider_error rail now c).flows ≡ c.flows
  deny_flow-flows none o provider_error rail now = refl
  deny_flow-flows (some k) none provider_error rail now = refl
  deny_flow-flows (some k) (some f) provider_error rail now =
      contend_unless-flows (check_deny f provider_error now) k (denier rail)

  pub cancel_flow-flows : (o : Option ℕ) → (cancel_flow o c).flows ≡ c.flows
  cancel_flow-flows none = refl
  cancel_flow-flows (some k) = refl

  pub expire_flow-flows :
      (k : ℕ) (o : Option Flow) (now : ℕ) → (expire_flow k o now c).flows ≡ c.flows
  expire_flow-flows k none now = refl
  expire_flow-flows k (some f) now = ground arith

  pub poll_flow-flows :
      (k : ℕ) (o : Option Flow) (answer : Poll) (now : ℕ)
      → (poll_flow k o answer now c).flows ≡ c.flows
  poll_flow-flows k none answer now = refl
  poll_flow-flows k (some f) answer now = ground arith

  pub let_go-flows :
      (at : Option ℕ) (o : Option Flow) (id : String) → (let_go at o id c).flows ≡ c.flows
  let_go-flows none o id = refl
  let_go-flows (some k) none id = refl
  let_go-flows (some k) (some f) id = ground arith

  pub release_current-flows : (o : Option Flow) → (release_current o c).flows ≡ c.flows
  release_current-flows none = refl
  release_current-flows (some f) = let_go-flows c.current (flow_at c.current c.flows) f.id

pub release_of-flows :
    (c : Coordinator) (i : ℕ) (o : Option Flow) → (release_of i o c).flows ≡ c.flows
release_of-flows c i none = refl
release_of-flows c i (some f) =
    let_go-flows record c { calls = drop_at c.calls i } c.current (flow_at c.current c.flows) f.id

pub release_call-flows :
    (c : Coordinator) (i : ℕ) (o : Option (ℕ × Phase)) → (release_call i o c).flows ≡ c.flows
release_call-flows c i none = refl
release_call-flows c i (some (k, claiming who)) = refl
release_call-flows c i (some (k, working who)) = refl
release_call-flows c i (some (k, failing e)) = refl
release_call-flows c i (some (k, storing a)) = refl
release_call-flows c i (some (k, releasing)) = release_of-flows c i (get_elem? c.flows k)
