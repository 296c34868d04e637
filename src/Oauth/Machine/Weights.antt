-- ===== src/Oauth/Machine/Weights.antt =====
-- internal/oauth/coordinator.go: how many goroutines are at work on a flow.
use one_llm_router.Prelude.{
  ℕ, zero, suc, ◌+◌, ◌≤◌, ◌≡◌, ◌≢◌, refl, ap, some-eq, Option, none, some, List, [], ◌∷◌, ◌++◌,
  ◌==◌, arith, get_elem?, set, if◌then◌else◌,
}
use one_llm_router.Oauth.Coordinator.{
  Phase, claiming, working, failing, storing, releasing, drop_at, move_call,
}

-- A goroutine that has claimed a flow and not settled it.
abbrev pub occupied : Phase → ℕ
occupied (working who) = 1
occupied (failing e) = 1
occupied (storing a) = 1
occupied (claiming who) = 0
occupied releasing = 0

-- One that has inserted an account and not published it.
abbrev pub is_storing : Phase → ℕ
is_storing (storing a) = 1
is_storing (working who) = 0
is_storing (failing e) = 0
is_storing (claiming who) = 0
is_storing releasing = 0

pub is_storing-le-occupied : (phase : Phase) → is_storing phase ≤ occupied phase
is_storing-le-occupied (storing a) = omega arith
is_storing-le-occupied (working who) = omega arith
is_storing-le-occupied (failing e) = omega arith
is_storing-le-occupied (claiming who) = omega arith
is_storing-le-occupied releasing = omega arith

-- How often a flow stands in a list.
abbrev pub tally : ℕ → List ℕ → ℕ
tally k [] = 0
tally k (j ∷ inserted) = (if k == j then 1 else 0) + tally k inserted

module _ (m : Phase → ℕ) where
  abbrev pub option_by : Option Phase → ℕ
  option_by none = 0
  option_by (some phase) = m phase

  abbrev pub hit : ℕ → ℕ × Phase → ℕ
  hit k (j, phase) = if k == j then m phase else 0

  -- The calls on a flow, each with its measure.
  abbrev pub weigh : ℕ → List (ℕ × Phase) → ℕ
  weigh k [] = 0
  weigh k (call ∷ calls) = hit k call + weigh k calls

  pub weigh-append :
      (k : ℕ) (calls : List (ℕ × Phase)) (call : ℕ × Phase)
      → weigh k (calls ++ call ∷ []) ≡ weigh k calls + hit k call
  weigh-append k [] call = omega arith
  weigh-append k (x ∷ calls) call = omega (arith, weigh-append k calls call)

  weigh-set :
      (k : ℕ) (calls : List (ℕ × Phase)) (i : ℕ) (old new : ℕ × Phase)
      → get_elem? calls i ≡ some old
      → weigh k (set calls i new) + hit k old ≡ weigh k calls + hit k new
  weigh-set k [] i old new h = ground arith
  weigh-set k (x ∷ calls) zero old new h = omega (arith, ap (hit k) (some-eq h))
  weigh-set k (x ∷ calls) (suc i) old new h = omega (arith, weigh-set k calls i old new h)

  weigh-drop_at :
      (k : ℕ) (calls : List (ℕ × Phase)) (i : ℕ) (old : ℕ × Phase)
      → get_elem? calls i ≡ some old
      → weigh k (drop_at calls i) + hit k old ≡ weigh k calls
  weigh-drop_at k [] i old h = ground arith
  weigh-drop_at k (x ∷ calls) zero old h = omega (arith, ap (hit k) (some-eq h))
  weigh-drop_at k (x ∷ calls) (suc i) old h = omega (arith, weigh-drop_at k calls i old h)

  hit-own : (j : ℕ) (phase : Phase) → hit j (j, phase) ≡ m phase
  hit-own j phase = ground arith

  hit-other : (k j : ℕ) (phase : Phase) → k ≢ j → hit k (j, phase) ≡ 0
  hit-other k j phase apart = ground arith

  module _ (calls : List (ℕ × Phase)) (i j : ℕ) (old : Phase)
      (found : get_elem? calls i ≡ some (j, old)) where
    -- A goroutine that goes on changes the count of its own flow only.
    pub weigh-move_call_own :
        (phase : Option Phase)
        → weigh j (move_call calls i j phase) + m old ≡ weigh j calls + option_by phase
    weigh-move_call_own none = omega (arith, weigh-drop_at j calls i (j, old) found, hit-own j old)
    weigh-move_call_own (some phase) =
        omega (arith, weigh-set j calls i (j, old) (j, phase) found, hit-own j old, hit-own j phase)

    pub weigh-move_call_other :
        (k : ℕ) (phase : Option Phase) → k ≢ j → weigh k (move_call calls i j phase) ≡ weigh k calls
    weigh-move_call_other k none apart =
        omega (arith, weigh-drop_at k calls i (j, old) found, hit-other k j old apart)
    weigh-move_call_other k (some phase) apart = omega (
      arith,
      weigh-set k calls i (j, old) (j, phase) found,
      hit-other k j old apart,
      hit-other k j phase apart,
    )

-- The goroutines at work on a flow, and those of them that have inserted an account.
abbrev pub weight : ℕ → List (ℕ × Phase) → ℕ
weight k calls = weigh occupied k calls

abbrev pub stores : ℕ → List (ℕ × Phase) → ℕ
stores k calls = weigh is_storing k calls

hit-le : (k : ℕ) (call : ℕ × Phase) → hit is_storing k call ≤ hit occupied k call
hit-le k (j, phase) = ground (arith, is_storing-le-occupied phase)

pub stores-le-weight : (k : ℕ) (calls : List (ℕ × Phase)) → stores k calls ≤ weight k calls
stores-le-weight k [] = omega arith
stores-le-weight k (call ∷ calls) = omega (arith, hit-le k call, stores-le-weight k calls)

pub get_elem?-set_own :
    {A : Type 0} (xs : List A) (k : ℕ) (x y : A)
    → get_elem? xs k ≡ some x
    → get_elem? (set xs k y) k ≡ some y
get_elem?-set_own [] k x y h = ground arith
get_elem?-set_own (z ∷ xs) zero x y h = refl
get_elem?-set_own (z ∷ xs) (suc k) x y h = get_elem?-set_own xs k x y h

pub get_elem?-set_other :
    {A : Type 0} (xs : List A) (j k : ℕ) (y : A) → k ≢ j → get_elem? (set xs j y) k ≡ get_elem? xs k
get_elem?-set_other [] j k y apart = refl
get_elem?-set_other (z ∷ xs) zero zero y apart = absurd (apart refl)
get_elem?-set_other (z ∷ xs) zero (suc k) y apart = refl
get_elem?-set_other (z ∷ xs) (suc j) zero y apart = refl
get_elem?-set_other (z ∷ xs) (suc j) (suc k) y apart =
    get_elem?-set_other xs j k y (λ e. apart (omega arith))
