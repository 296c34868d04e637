-- ===== src/Oauth/Machine/Balance.antt =====
-- internal/oauth/coordinator.go: what holds of every flow after any steps.
use one_llm_router.Prelude.{
  ℕ, ◌≡◌, ◌≢◌, ◌⊎◌, subst, Bool, Option, none, some, List, ◌==◌, arith, get_elem?, set, Bool-cases,
  inl, inr,
}
use one_llm_router.Oauth.Flow.{Flow}
use one_llm_router.Oauth.Coordinator.{Coordinator, Phase, drop_at, move_call}
use one_llm_router.Oauth.Machine.Weights.{
  weight, stores, tally, occupied, is_storing, stores-le-weight, weigh-move_call_own,
  weigh-move_call_other, get_elem?-set_own, get_elem?-set_other,
}
use one_llm_router.Oauth.Machine.Claims.{Load, IsBalanced}

abbrev pub load : ℕ → List (ℕ × Phase) → Load
load k calls = (weight k calls, stores k calls)

-- What is said of a place in the list of flows, also of one that is not taken yet.
abbrev pub Balanced : Option Flow → Load → ℕ → Bool → Type 0
Balanced none w n closed = (w.0 ≡ 0) × (w.1 ≡ 0) × (n ≡ 0)
Balanced (some f) w n closed = IsBalanced f w n closed

abbrev pub BalancedAt : ℕ → Coordinator → Type 0
BalancedAt k c = Balanced (get_elem? c.flows k) (load k c.calls) (tally k c.inserted) c.closed

unfoldable pub AllBalanced : Coordinator → Type 0
AllBalanced c = (k : ℕ) → BalancedAt k c

pub nat_cases : (k j : ℕ) → (k ≡ j) ⊎ (k ≢ j)
nat_cases k j = elim (Bool-cases (k == j)) [
  | inl t ↦ inl (ground arith)
  | inr f ↦ inr (λ e. ground arith)
]

pub found-IsBalanced :
    (c : Coordinator) (j : ℕ) (f : Flow)
    → get_elem? c.flows j ≡ some f
    → AllBalanced c
    → IsBalanced f (load j c.calls) (tally j c.inserted) c.closed
unfolding AllBalanced
found-IsBalanced c j f found all =
    subst (λ o. Balanced o (load j c.calls) (tally j c.inserted) c.closed) found (all j)

-- One goroutine changes one flow.
module _ (c : Coordinator) (j : ℕ) (f f' : Flow) (calls' : List (ℕ × Phase))
    (inserted' : List ℕ) where
  pub update_balanced :
      get_elem? c.flows j ≡ some f
      → ((k : ℕ)
          → k ≢ j
          → (weight k calls' ≡ weight k c.calls)
            × (stores k calls' ≡ stores k c.calls)
            × (tally k inserted' ≡ tally k c.inserted))
      → IsBalanced f' (load j calls') (tally j inserted') c.closed
      → AllBalanced c
      → AllBalanced record c { flows = set c.flows j f'; calls = calls'; inserted = inserted' }
  unfolding AllBalanced
  update_balanced found others own all k = elim (nat_cases k j) [
    | inl e ↦ rw (e, get_elem?-set_own c.flows j f f' found) own
    | inr apart ↦
        let (w, v, n) = others k apart in
        rw (get_elem?-set_other c.flows j k f' apart, w, v, n) (all k)
  ]

-- A goroutine at work on a flow is the only one, and leaves none behind.
module _ (c : Coordinator) (i k : ℕ) (old : Phase) (f : Flow)
    (call : get_elem? c.calls i ≡ some (k, old)) (busy : occupied old ≡ 1) where
  pub at_work-alone :
      IsBalanced f (load k c.calls) (tally k c.inserted) c.closed → weight k c.calls ≡ 1
  at_work-alone balanced =
      ground (arith, balanced.at_most, weigh-move_call_own occupied c.calls i k old call none, busy)

  -- None but this one can hold an account.
  pub none_held :
      IsBalanced f (load k c.calls) (tally k c.inserted) c.closed
      → stores k c.calls ≡ is_storing old
  none_held balanced = omega (
    arith,
    at_work-alone balanced,
    busy,
    weigh-move_call_own occupied c.calls i k old call none,
    weigh-move_call_own is_storing c.calls i k old call none,
    stores-le-weight k (drop_at c.calls i),
  )

  -- What it goes on to is the load of the flow.
  pub goes_on :
      (phase : Phase)
      → IsBalanced f (load k c.calls) (tally k c.inserted) c.closed
      → (weight k (set c.calls i (k, phase)) ≡ occupied phase)
        × (stores k (set c.calls i (k, phase)) ≡ is_storing phase)
  goes_on phase balanced = (
    omega (
      arith,
      weigh-move_call_own occupied c.calls i k old call (some phase),
      at_work-alone balanced,
      busy,
    ),
    omega (
      arith,
      weigh-move_call_own is_storing c.calls i k old call (some phase),
      none_held balanced,
    ),
  )

-- The other flows keep their loads.
pub other_load :
    (calls : List (ℕ × Phase)) (i k : ℕ) (old : Phase)
    → get_elem? calls i ≡ some (k, old)
    → (j : ℕ) (phase : Option Phase) → j ≢ k
    → (weight j (move_call calls i k phase) ≡ weight j calls)
      × (stores j (move_call calls i k phase) ≡ stores j calls)
other_load calls i k old call j phase apart = (
  weigh-move_call_other occupied calls i k old call j phase apart,
  weigh-move_call_other is_storing calls i k old call j phase apart,
)
