-- ===== src/Core/Selector/Pick.antt =====
-- internal/core/account_selector.go: what `pick` returns, and how its counter shares out the load.
use native.Mathlib.Nat.{mod-add-mod, mod-eq_of_lt, mod-lt, add-mod_right}
use one_llm_router.Prelude.{
  get_elem?_of_lt, ◌⊎◌, ℕ, zero, suc, ◌+◌, ◌-◌, ◌%◌, ◌≤◌, ◌<◌, String, ◌≡◌, refl, sym, ap, ◌∙◌,
  Bool, true, Option, none, some, List, [], ◌∷◌, arith, length, get_elem?, filter, In, In_get_elem?,
  In-filter, Bool-cases, inl, inr, leb, leb→le, leb→gt,
}
use one_llm_router.Prelude.Result.{ok, err}
use one_llm_router.Domain.Account.{UpstreamAccount}
use one_llm_router.Core.Selector.{
  no_capacity, AccountSelector, Eligible, Router, narrow, passes, bump, ticket, u64_mod, at,
  round_robin, choose, pick,
}
use one_llm_router.Core.Selector.Compact.{filter_in_place-eq-filter}

abbrev everyone : UpstreamAccount → Bool
everyone a = true

filter_everyone : (l : List UpstreamAccount) → filter (passes none) l ≡ l
filter_everyone [] = refl
filter_everyone (a ∷ l) = ap (λ t. a ∷ t) (filter_everyone l)

pub narrow-eq-filter : (e : Eligible) (l : List UpstreamAccount) → narrow e l ≡ filter (passes e) l
unfolding narrow
narrow-eq-filter none l = sym (filter_everyone l)
narrow-eq-filter (some eligible) l = filter_in_place-eq-filter eligible l

-- A session router that answers only with accounts that it was given.
abbrev pub AnswersWithin : Option Router → Type 0
AnswersWithin none = Unit
AnswersWithin (some route) =
    (key : String) (l : List UpstreamAccount) (a : UpstreamAccount) → route key l ≡ ok a → In a l

round_robin-In :
    (s : AccountSelector) (l : List UpstreamAccount) (a : UpstreamAccount)
    → (round_robin s l).0 ≡ ok a
    → In a l
unfolding round_robin
round_robin-In s l a h = In_get_elem? a l (ticket s % length l) (ground arith)

choose-In :
    (r : Option Router) (key : String) (s : AccountSelector) (l : List UpstreamAccount)
    (a : UpstreamAccount)
    → AnswersWithin r
    → (choose r key s l).0 ≡ ok a
    → In a l
unfolding choose
choose-In r key s [] a within h = cc
choose-In none key s (b ∷ l) a within h = round_robin-In s (b ∷ l) a h
choose-In (some route) key s (b ∷ l) a within h =
    ground (arith, round_robin-In s (b ∷ l) a, within key (b ∷ l) a)

-- A picked account is one of the listed ones and passes the filter, whichever way it was picked.
pub pick-In :
    (s : AccountSelector) (key : String) (e : Eligible) (l : List UpstreamAccount)
    (a : UpstreamAccount)
    → AnswersWithin s.session_router
    → (pick s key e (ok l)).0 ≡ ok a
    → In a l × (passes e a ≡ true)
unfolding pick
pick-In s key e l a within h =
    In-filter (passes e) a l
      (rw narrow-eq-filter at (choose-In s.session_router key s (narrow e l) a within h))

-- The step that leads from `c` to the residue `i`.
modulo : (c n i : ℕ) → i < n → (k : ℕ) × (k < n) × ((c + k) % n ≡ i)
modulo c n i h = elim (Bool-cases (leb (c % n) i)) [
  | inl le ↦ (
    i - c % n,
    omega (arith, leb→le (c % n) i le),
    sym (mod-add-mod c n (i - c % n))
        ∙ ap (λ (t : ℕ). t % n) (omega (arith, leb→le (c % n) i le))
        ∙ mod-eq_of_lt h,
  )
  | inr gt ↦ (
    i + n - c % n,
    omega (arith, leb→gt (c % n) i gt, mod-lt c {m = n} (omega arith)),
    sym (mod-add-mod c n (i + n - c % n))
        ∙ ap (λ (t : ℕ). t % n) (omega (arith, mod-lt c {m = n} (omega arith)))
        ∙ add-mod_right i n
        ∙ mod-eq_of_lt h,
  )
]

ticket_lem : (s : AccountSelector) → s.counter < u64_mod → ticket s ≡ s.counter
unfolding ticket
ticket_lem s h = omega arith

choose_plain :
    (r : Option Router) (key : String) (s : AccountSelector) (m : List UpstreamAccount)
    → r ≡ none
    → 0 < length m
    → choose r key s m ≡ (at m (ticket s % length m), bump s)
unfolding choose round_robin
choose_plain r key s [] plain h = elim h [ ]
choose_plain none key s (a ∷ m) plain h = refl
choose_plain (some route) key s (a ∷ m) plain h = cc

module _ (key : String) (e : Eligible) (l : List UpstreamAccount) where
  -- The state after `k` picks, whatever they returned.
  abbrev pub after : ℕ → AccountSelector → AccountSelector
  after zero s = s
  after (suc k) s = (pick (after k s) key e (ok l)).1

  pick_plain :
      (s : AccountSelector) (m : List UpstreamAccount)
      → s.session_router ≡ none
      → narrow e l ≡ m
      → 0 < length m
      → pick s key e (ok l) ≡ (at m (ticket s % length m), bump s)
  unfolding pick
  pick_plain s m plain narrowed h =
      ap (λ t. choose s.session_router key s t) narrowed
      ∙ choose_plain s.session_router key s m plain h

  module _ (s : AccountSelector) (plain : s.session_router ≡ none) where
    -- The counter moves by one with each pick.
    after_lem :
        (k : ℕ)
        → 0 < length (filter (passes e) l)
        → s.counter + k < u64_mod
        → ((after k s).session_router ≡ none) × ((after k s).counter ≡ s.counter + k)
    unfolding bump
    after_lem zero some_left h = (plain, omega arith)
    after_lem (suc k) some_left h =
        let (still, counted) = after_lem k some_left (omega arith) in
        rw (after, pick_plain (after k s) _ still (narrow-eq-filter e l) some_left)
          (still, omega arith)

    -- Among any `n` picks in a row over the same `n` eligible accounts, with no session router and
    -- the counter not at its wrap-around, every eligible account is picked.
    pub every_account_served :
        (i : ℕ) (a : UpstreamAccount)
        → get_elem? (filter (passes e) l) i ≡ some a
        → i < length (filter (passes e) l)
        → s.counter + length (filter (passes e) l) ≤ u64_mod
        → (k : ℕ) × (k < length (filter (passes e) l)) × ((pick (after k s) key e (ok l)).0 ≡ ok a)
    every_account_served i a found inside room =
        let (k, fewer, lands) = modulo s.counter (length (filter (passes e) l)) i inside in
        let (still, counted) = after_lem k (omega arith) (omega arith) in
        (
          k,
          fewer,
          rw (pick_plain (after k s) _ still (narrow-eq-filter e l) (omega arith))
              (rw (ticket_lem (after k s) (omega arith), counted, lands) (ground (arith, found))),
        )

at_lem :
    (l : List UpstreamAccount) (i : ℕ) (a : UpstreamAccount)
    → get_elem? l i ≡ some a
    → at l i ≡ ok a
at_lem l i a h = ground arith

pick_empty :
    (s : AccountSelector) (key : String) (e : Eligible) (l : List UpstreamAccount)
    → narrow e l ≡ []
    → pick s key e (ok l) ≡ (err no_capacity, s)
unfolding pick choose
pick_empty s key e l h = ap (λ t. choose s.session_router key s t) h

-- With no session router, a pick finds no capacity exactly when no listed account passes the filter,
-- and in every other case it returns one of the listed accounts that pass.
pub pick_no_capacity_iff :
    (s : AccountSelector) (key : String) (e : Eligible) (l : List UpstreamAccount)
    → s.session_router ≡ none
    → ((filter (passes e) l ≡ []) × ((pick s key e (ok l)).0 ≡ err no_capacity))
      ⊎ ((a : UpstreamAccount) × In a (filter (passes e) l) × ((pick s key e (ok l)).0 ≡ ok a))
pick_no_capacity_iff s key e l plain = outcome (filter (passes e) l) (narrow-eq-filter e l)
  where
    outcome :
        (m : List UpstreamAccount)
        → narrow e l ≡ m
        → ((m ≡ []) × ((pick s key e (ok l)).0 ≡ err no_capacity))
          ⊎ ((a : UpstreamAccount) × In a m × ((pick s key e (ok l)).0 ≡ ok a))
    outcome [] h = inl (refl, ap (λ t. t.0) (pick_empty s key e l h))
    outcome (b ∷ m) h =
        let (a, found) =
          get_elem?_of_lt (b ∷ m) (ticket s % length (b ∷ m)) (mod-lt _ (omega arith)) in
        inr (
          a,
          In_get_elem? a (b ∷ m) _ found,
          rw (pick_plain key e l s (b ∷ m) plain h (omega arith)) (at_lem (b ∷ m) _ a found),
        )
