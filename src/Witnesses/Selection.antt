-- ===== src/Witnesses/Selection.antt =====
-- A selector without a session router, over two eligible rows and one for System One only.
use one_llm_router.Prelude.{
  ℕ, ◌≡◌, ◌≤◌, ◌<◌, ◌+◌, refl, ap, Bool, true, not, none, some, List, [], ◌∷◌, filter, length,
  get_elem?, arith,
}
use one_llm_router.Prelude.Int.{pos, is_positive}
use one_llm_router.Prelude.Result.{Result, ok}
use one_llm_router.Domain.Account.{UpstreamAccount, Status, system_one_only, is_oauth}
use one_llm_router.Core.Selector
use one_llm_router.Core.Selector.Pick.{after, every_account_served}
use one_llm_router.Core.Selector.Compact.{filter_in_place-eq-filter}
use one_llm_router.Core.Selector.Prepared.{
  IsUsable, Serves, list_eligible_prepared-Serves, select_by_id_lem,
}
use one_llm_router.Witnesses.{key_account, system_one_account}

abbrev selector : Selector.AccountSelector
selector = record { session_router = none; counter = 5; pre_forward = none }

abbrev forwards : UpstreamAccount → Bool
forwards a = not (system_one_only a)

abbrev listed : List UpstreamAccount
listed = key_account (pos 1) ∷ system_one_account ∷ key_account (pos 2) ∷ []

forwarded : filter forwards listed ≡ key_account (pos 1) ∷ key_account (pos 2) ∷ []
unfolding system_one_only is_oauth
forwarded = refl

first_forwarded : get_elem? (filter forwards listed) 0 ≡ some (key_account (pos 1))
unfolding system_one_only is_oauth
first_forwarded = refl

some_forwarded : 0 < length (filter forwards listed)
some_forwarded = omega (arith, ap length forwarded)

room : 5 + length (filter forwards listed) ≤ Selector.u64_mod
room = omega (arith, ap length forwarded)

picked : (Selector.pick selector "" (some forwards) (ok listed)).0 ≡ ok (key_account (pos 2))
unfolding Selector.pick Selector.choose Selector.narrow Selector.filter_in_place Selector.compact
    Selector.round_robin Selector.ticket Selector.bump system_one_only is_oauth
picked = refl

every_account_served_example :
    (k : ℕ) × (k < length (filter forwards listed))
    × ((Selector.pick (after "" (some forwards) listed k selector) "" (some forwards) (ok listed)).0
        ≡ ok (key_account (pos 1)))
every_account_served_example =
    every_account_served "" (some forwards) listed selector refl 0 (key_account (pos 1))
      first_forwarded some_forwarded room

filter_in_place-eq-filter_example :
    Selector.filter_in_place forwards listed ≡ filter forwards listed
filter_in_place-eq-filter_example = filter_in_place-eq-filter forwards listed

abbrev prepared : List Selector.Prepared
prepared =
    (key_account (pos 1), Selector.of_key "sk-test", Bool.false)
    ∷ (key_account (pos 2), Selector.of_key "sk-test", Bool.false)
    ∷ []

both_prepared : Selector.list_eligible_prepared selector (some forwards) (ok listed) ≡ ok prepared
unfolding Selector.list_eligible_prepared Selector.prepare_all Selector.with_token
    Selector.prepare_token system_one_only is_oauth
both_prepared = refl

list_eligible_prepared-Serves_example : Serves (some forwards) listed prepared
list_eligible_prepared-Serves_example =
    list_eligible_prepared-Serves selector (some forwards) listed prepared both_prepared

abbrev stored : Result Selector.GetError UpstreamAccount
stored = ok (key_account (pos 1))

first_selected :
    Selector.select_by_id_eligible selector (pos 1) none (ok (key_account (pos 1)))
    ≡ ok (key_account (pos 1), Selector.of_key "sk-test", Bool.false)
unfolding Selector.select_by_id_eligible Selector.with_token Selector.prepare_token
    Selector.require_active
first_selected = refl

select_by_id_lem_example :
    (is_positive (pos 1) ≡ true)
    × (stored ≡ ok (key_account (pos 1)))
    × (Status.active ≡ Status.active)
    × (true ≡ true)
    × IsUsable (Selector.of_key "sk-test")
select_by_id_lem_example =
    select_by_id_lem selector (pos 1) none stored
      (key_account (pos 1), Selector.of_key "sk-test", Bool.false) first_selected
