-- ===== src/Oauth/Requests/Replies.antt =====
-- internal/oauth/coordinator.go: which requests go on to claim a flow, and which flow an id names.
use one_llm_router.Prelude.{
  ℕ, ◌≡◌, ◌↔◌, eq_iff, refl, String, true, false, not, ◌||◌, none, some, arith, ltb, str_eq,
  get_elem?,
}
use one_llm_router.Oauth.Flow.{Flow}
use one_llm_router.Oauth.Requests.{check_consume, lookup_flow}
use one_llm_router.Oauth.Coordinator.{Coordinator}
use one_llm_router.Oauth.Machine.{release_flow}

-- ConsumeCode goes on to claim a flow exactly if nobody has claimed it, it has not expired, and the
-- request carries the state of the flow.
pub consume_admitted :
    (f : Flow) (state : String) (now : ℕ)
    → check_consume f state now ≡ none
      ↔ (f.consumed || ltb f.expires_at now || not (str_eq f.state state)) ≡ false
unfolding check_consume
consume_admitted f state now = (λ h. ground arith, λ h. ground arith)

str_eq_refl : (s : String) → str_eq s s ≡ true
str_eq_refl s = (eq_iff s s).1 refl

-- A flow that was current and is released is found under its id still, where the coordinator is not
-- closed and the id is not empty: it is the flow that was found before.
pub released_found :
    (c : Coordinator) (k : ℕ) (f : Flow)
    → c.closed ≡ false
    → c.current ≡ some k
    → get_elem? c.flows k ≡ some f
    → str_eq f.id "" ≡ false
    → (lookup_flow c f.id ≡ some k) × (lookup_flow (release_flow f.id c) f.id ≡ some k)
unfolding lookup_flow
released_found c k f running at found named = (
  rw (running, at, found, str_eq_refl f.id) refl,
  rw (at, found, str_eq_refl f.id, running, named, str_eq_refl f.id) refl,
)
