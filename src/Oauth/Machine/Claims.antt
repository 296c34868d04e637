-- ===== src/Oauth/Machine/Claims.antt =====
-- internal/oauth/coordinator.go: what a claim and a settlement do to one flow.
use one_llm_router.Prelude.{
  ℕ, ◌+◌, ◌≤◌, ◌≡◌, refl, ap, sym, ◌∙◌, subst, Bool, true, false, Option, List, arith, is_some,
  if_intro, Bool-cases, inl, inr,
}
use one_llm_router.Domain.Account.{UpstreamAccount}
use one_llm_router.Oauth.Flow.{Flow, Rail, FlowStatus, FlowTerminalError, is_terminal, is_unknown}
use one_llm_router.Oauth.Requests.{is_success}
use one_llm_router.Oauth.Coordinator.{
  Contender, Phase, Outcome, consumer, denier, canceller, reaper, poller, completed, failed,
  claim_won, claimed, gives_up, settled, finished, after_settling, complete_flow, stored_accounts,
  fail_flow, finish, inserts, got_tokens, denied_by_user, token_expired, poll_failed,
}
use one_llm_router.Oauth.Machine.Weights.{occupied, is_storing, option_by, tally}

abbrev pub if_one : Bool → ℕ
if_one true = 1
if_one false = 0

-- The goroutines at work on a flow, and those of them that hold an account for it.
abbrev pub Load : Type 0
Load = ℕ × ℕ

abbrev pub loaded : Phase → Load
loaded phase = (occupied phase, is_storing phase)

-- A flow against the goroutines at work on it, and the accounts stored for it: it is consumed
-- exactly if one goroutine is at work on it or it is settled (a poller that finds the coordinator
-- closed lets go of it unsettled); an account was stored for it exactly if it has succeeded or a
-- goroutine holds one to publish.
pub record IsBalanced (f : Flow) (load : Load) (stored_for : ℕ) (closed : Bool) : Type 0 where
  pub at_most : load.0 + if_one (is_terminal f.status) ≤ if_one f.consumed
  pub exactly : closed ≡ false → load.0 + if_one (is_terminal f.status) ≡ if_one f.consumed
  pub stores : stored_for ≡ if_one (is_success f.status) + load.1
  pub fresh : f.consumed ≡ false → is_unknown f.consumed_by ≡ true
  pub account : is_success f.status ≡ is_some f.terminal_account

-- A closed coordinator asks for less.
pub IsBalanced-closed :
    {f : Flow} {w : Load} {n : ℕ} {closed : Bool} → IsBalanced f w n closed → IsBalanced f w n true
IsBalanced-closed s = record {
  at_most = s.at_most;
  exactly = λ h. ground arith;
  stores = s.stores;
  fresh = s.fresh;
  account = s.account;
}

not_success : (status : FlowStatus) → is_terminal status ≡ false → is_success status ≡ false
not_success FlowStatus.idle h = refl
not_success FlowStatus.pending h = refl
not_success FlowStatus.error h = refl
not_success FlowStatus.success h = h

-- Failing a flow that is consumed and for which no account was stored.
fail_flow-IsBalanced :
    (f : Flow) (n : ℕ) (closed : Bool) (e : FlowTerminalError)
    → f.consumed ≡ true
    → (n ≡ 0) × (is_some f.terminal_account ≡ false)
    → IsBalanced (fail_flow e f) (0, 0) n closed
fail_flow-IsBalanced f n closed e taken (none_stored, no_account) = record {
  at_most = omega (arith, ap if_one taken);
  exactly = λ h. omega (arith, ap if_one taken);
  stores = omega (arith, none_stored);
  fresh = λ h. ground arith;
  account = sym no_account;
}

module _ (f : Flow) (w : Load) (n : ℕ) (closed : Bool) (s : IsBalanced f w n closed) where
  pub unsettled : f.consumed ≡ false → (w.0 ≡ 0) × (if_one (is_terminal f.status) ≡ 0)
  unsettled free =
      (omega (arith, s.at_most, ap if_one free), omega (arith, s.at_most, ap if_one free))

  -- One goroutine at work means that the flow is consumed and not settled.
  pub at_work-unsettled : w.0 ≡ 1 → (f.consumed ≡ true) × (is_terminal f.status ≡ false)
  at_work-unsettled busy = (ground (arith, s.at_most), ground (arith, s.at_most))

  no_account :
      is_terminal f.status ≡ false → w.1 ≡ 0 → (n ≡ 0) × (is_some f.terminal_account ≡ false)
  no_account open_still none_held =
      let no_success = not_success f.status open_still in
      (omega (arith, s.stores, ap if_one no_success, none_held), sym s.account ∙ no_success)

  -- A goroutine is put to work by a claim.
  works-IsBalanced :
      (rail : Rail)
      → f.consumed ≡ false
      → IsBalanced (record f { consumed = true; consumed_by = rail }) (w.0 + 1, w.1) n closed
  works-IsBalanced rail free =
      let (none_yet, open_still) = unsettled free in
      record {
        at_most = omega (arith, none_yet, open_still);
        exactly = λ h. omega (arith, none_yet, open_still);
        stores = s.stores;
        fresh = λ h. ground arith;
        account = s.account;
      }

  -- A claim that is won puts one goroutine to work, or settles the flow.
  claim_won-IsBalanced :
      (who : Contender)
      → w.1 ≤ w.0
      → f.consumed ≡ false
      → IsBalanced (claim_won who f).0 (w.0 + occupied (claim_won who f).1, w.1) n closed
  claim_won-IsBalanced canceller most free = works-IsBalanced f.consumed_by free
  claim_won-IsBalanced reaper most free = works-IsBalanced f.consumed_by free
  claim_won-IsBalanced (poller poll) most free = works-IsBalanced f.consumed_by free
  claim_won-IsBalanced (consumer rail) most free = rw (s.fresh free) (works-IsBalanced rail free)
  claim_won-IsBalanced (denier rail) most free =
      let (none_yet, open_still) = unsettled free in
      let none_held : w.1 ≡ 0 = omega (arith, most, none_yet) in
      rw (s.fresh free, none_yet, none_held)
        (fail_flow-IsBalanced (record f { consumed = true; consumed_by = rail }) n closed _ refl
          (no_account (ground (arith, open_still)) none_held))

  idle-IsBalanced : IsBalanced f (w.0 + 0, w.1) n closed
  idle-IsBalanced =
      subst (λ t. IsBalanced f (t, w.1) n closed) {x = w.0} {y = w.0 + 0} (omega arith) s

  pub claimed-IsBalanced :
      (who : Contender)
      → w.1 ≤ w.0
      → IsBalanced
          (claimed closed who f).0
          (w.0 + option_by occupied (claimed closed who f).1, w.1)
          n
          closed
  claimed-IsBalanced who most =
      if_intro
        (λ (p : Flow × Option Phase). IsBalanced p.0 (w.0 + option_by occupied p.1, w.1) n closed)
        (gives_up closed who) (λ t. idle-IsBalanced)
        (λ go.
          if_intro
            (λ (p : Flow × Option Phase).
              IsBalanced p.0 (w.0 + option_by occupied p.1, w.1) n closed)
            f.consumed (λ t. idle-IsBalanced) (λ free. claim_won-IsBalanced who most free))

  -- The goroutine at work fails the flow.
  pub failed-IsBalanced :
      (e : FlowTerminalError) → w.0 ≡ 1 → w.1 ≡ 0 → IsBalanced (fail_flow e f) (0, 0) n closed
  failed-IsBalanced e busy none_held =
      let (taken, open_still) = at_work-unsettled busy in
      fail_flow-IsBalanced f n closed e taken (no_account open_still none_held)

  -- The goroutine at work goes on to publish an account that it inserted, or fails the flow.
  finish-IsBalanced :
      (k : ℕ) (outcome : Outcome) (inserted : List ℕ)
      → w.0 ≡ 1
      → w.1 ≡ 0
      → tally k inserted ≡ n
      → IsBalanced
          (finish outcome f)
          (loaded (finished outcome))
          (tally k (inserts k outcome inserted))
          closed
  finish-IsBalanced k (failed e) inserted busy none_held same =
      rw same (failed-IsBalanced e busy none_held)
  finish-IsBalanced k (completed a) inserted busy none_held same = record {
    at_most = omega (arith, s.at_most, busy);
    exactly = λ h. omega (arith, s.exactly h, busy);
    stores = ground (arith, same, s.stores, none_held);
    fresh = s.fresh;
    account = s.account;
  }

  -- The goroutine at work settles the flow, or has inserted an account for it.
  pub settled-IsBalanced :
      (k : ℕ) (who : Contender) (outcome : Outcome) (inserted : List ℕ)
      → w.0 ≡ 1
      → w.1 ≡ 0
      → tally k inserted ≡ n
      → IsBalanced
          (settled closed who outcome f)
          (loaded (after_settling closed who outcome))
          (tally k (stored_accounts closed k who outcome inserted))
          closed
  settled-IsBalanced k (consumer rail) outcome inserted busy none_held same =
      finish-IsBalanced k outcome inserted busy none_held same
  settled-IsBalanced k (denier rail) outcome inserted busy none_held same =
      rw same (failed-IsBalanced _ busy none_held)
  settled-IsBalanced k canceller outcome inserted busy none_held same =
      rw same (failed-IsBalanced _ busy none_held)
  settled-IsBalanced k reaper outcome inserted busy none_held same =
      rw same (failed-IsBalanced _ busy none_held)
  settled-IsBalanced k (poller denied_by_user) outcome inserted busy none_held same =
      rw same (failed-IsBalanced _ busy none_held)
  settled-IsBalanced k (poller token_expired) outcome inserted busy none_held same =
      rw same (failed-IsBalanced _ busy none_held)
  settled-IsBalanced k (poller (poll_failed e)) outcome inserted busy none_held same =
      rw same (failed-IsBalanced _ busy none_held)
  settled-IsBalanced k (poller got_tokens) outcome inserted busy none_held same =
      elim (Bool-cases closed) [
        | inl shut ↦ rw shut (record {
          at_most = omega (arith, s.at_most);
          exactly = λ h. ground arith;
          stores = omega (arith, same, s.stores, none_held);
          fresh = s.fresh;
          account = s.account;
        })
        | inr running ↦ rw running (
            subst
              (λ c.
                IsBalanced (finish outcome f) (loaded (finished outcome))
                  (tally k (inserts k outcome inserted)) c)
              running (finish-IsBalanced k outcome inserted busy none_held same))
      ]

  -- The goroutine that has inserted an account publishes it.
  pub published-IsBalanced :
      (a : UpstreamAccount) → w.0 ≡ 1 → w.1 ≡ 1 → IsBalanced (complete_flow a f) (0, 0) n closed
  published-IsBalanced a busy held =
      let (taken, open_still) = at_work-unsettled busy in
      record {
        at_most = omega (arith, ap if_one taken);
        exactly = λ h. omega (arith, ap if_one taken);
        stores = omega (arith, s.stores, held, ap if_one (not_success f.status open_still));
        fresh = λ h. ground (arith, taken);
        account = refl;
      }
