-- ===== src/Setup/Gate/Latch.antt =====
-- internal/setup/gate.go: what opens the gate, and that nothing closes it.
use one_llm_router.Prelude.{
  String, ◌≡◌, refl, sym, ◌++◌, ap, ◌∙◌, Bool, true, false, not, ◌&&◌, ◌||◌, List, [], ◌∷◌, arith,
  str_eq, Bool-cases, inl, inr,
}
use one_llm_router.Prelude.Result.{Result, ok, err}
use one_llm_router.Setup.Gate.{
  Stat, regular_file, directory, not_exist, unreadable, StateError, Gate, is_done, observe, probe,
  opened, Call, marks, disables, probes, after_call, after_calls,
}

-- config.json is a regular file, at a path that is not empty.
abbrev pub finds : String → Stat → Bool
finds path regular_file = not (str_eq path "")
finds path directory = false
finds path not_exist = false
finds path (unreadable e) = false

-- Whether one of the calls opens a closed gate: MarkOpen always does, a probe only where it finds
-- config.json and the observer has not been disabled before.
abbrev pub opens : String → Bool → List Call → Bool
opens path disabled [] = false
opens path disabled (marks ∷ cs) = true
opens path disabled (disables ∷ cs) = opens path true cs
opens path disabled (probes stat ∷ cs) = (not disabled && finds path stat) || opens path disabled cs

done_after : Gate → Stat → Bool
done_after g stat = g.done || (not g.observer_disabled && finds g.config_path stat)

abbrev gate : String → Bool → Bool → Gate
gate p done disabled = record { config_path = p; done = done; observer_disabled = disabled }

probe-gate :
    (p : String) (done disabled : Bool) (stat : Stat)
    → (probe (gate p done disabled) stat).1
      ≡ gate p (done || (not disabled && finds p stat)) disabled
unfolding probe is_done
probe-gate p true disabled stat = refl
probe-gate p false true stat = refl
probe-gate p false false regular_file = elim (Bool-cases (str_eq p "")) [
  | inl t ↦ rw t refl
  | inr f ↦ rw f refl
]
probe-gate p false false directory = elim (Bool-cases (str_eq p "")) [
  | inl t ↦ rw t refl
  | inr f ↦ rw f refl
]
probe-gate p false false not_exist = elim (Bool-cases (str_eq p "")) [
  | inl t ↦ rw t refl
  | inr f ↦ rw f refl
]
probe-gate p false false (unreadable e) = elim (Bool-cases (str_eq p "")) [
  | inl t ↦ rw t refl
  | inr f ↦ rw f refl
]

-- A probe changes the latch only.
probe_lem : (g : Gate) (stat : Stat) → (probe g stat).1 ≡ record g { done = done_after g stat }
unfolding done_after
probe_lem g stat = probe-gate g.config_path g.done g.observer_disabled stat

or_assoc : (a b c : Bool) → ((a || b) || c) ≡ (a || (b || c))
or_assoc true b c = refl
or_assoc false b c = refl

-- After any calls a gate is open exactly if it was open before or one of the calls opened it, so
-- that an open gate stays open, and that a gate whose observer is disabled waits for MarkOpen.
pub after_calls-done :
    (cs : List Call) (g : Gate)
    → (after_calls cs g).done ≡ (g.done || opens g.config_path g.observer_disabled cs)
unfolding done_after
after_calls-done [] g = ground arith
after_calls-done (marks ∷ cs) g = ground (arith, after_calls-done cs (after_call marks g))
after_calls-done (disables ∷ cs) g = after_calls-done cs (after_call disables g)
after_calls-done (probes stat ∷ cs) g =
    ap (λ (g' : Gate). (after_calls cs g').done) (probe_lem g stat)
    ∙ after_calls-done cs record g { done = done_after g stat }
    ∙ or_assoc g.done _ _

observe-done :
    (r : Result StateError Bool) (g : Gate)
    → g.done ≡ false
    → opened (observe r g).0 ≡ (observe r g).1.done
observe-done (err e) g h = sym h
observe-done (ok true) g h = refl
observe-done (ok false) g h = sym h

opened-gate :
    (p : String) (done disabled : Bool) (stat : Stat)
    → opened (probe (gate p done disabled) stat).0 ≡ (probe (gate p done disabled) stat).1.done
unfolding probe
opened-gate p true disabled stat = refl
opened-gate p false true stat = refl
opened-gate p false false stat = observe-done (is_done p stat) (gate p false false) refl

-- A probe reports what the latch is afterwards.
pub opened-done : (g : Gate) (stat : Stat) → opened (probe g stat).0 ≡ (probe g stat).1.done
opened-done g stat = opened-gate g.config_path g.done g.observer_disabled stat

after_calls-append :
    (cs : List Call) (stat : Stat) (g : Gate)
    → after_calls (cs ++ probes stat ∷ []) g ≡ (probe (after_calls cs g) stat).1
after_calls-append [] stat g = refl
after_calls-append (c ∷ cs) stat g = after_calls-append cs stat (after_call c g)

-- What a request after some calls is told is whether those calls or its own probe open the gate.
pub opened_after :
    (cs : List Call) (stat : Stat) (g : Gate)
    → opened (probe (after_calls cs g) stat).0
      ≡ (g.done || opens g.config_path g.observer_disabled (cs ++ probes stat ∷ []))
opened_after cs stat g =
    opened-done (after_calls cs g) stat
    ∙ ap (λ (g' : Gate). g'.done) (sym (after_calls-append cs stat g))
    ∙ after_calls-done (cs ++ probes stat ∷ []) g
