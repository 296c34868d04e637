-- ===== src/Witnesses/Storing.antt =====
-- A table in memory, with an OAuth row that two writers have read.
use one_llm_router.Prelude.{
  ℕ, ◌+◌, ◌<◌, ◌≡◌, ◌≢◌, In, inl, inr, refl, sym, ap, ◌∙◌, true, Option, none, some, List, [], ◌∷◌,
  ◌++◌, suc, arith, String, Bool, Bool-cases, subst, if◌then◌else◌,
}
use one_llm_router.Prelude.Int.{ℤ, pos, negsuc}
use one_llm_router.Prelude.Result.{ok, ok-eq}
use one_llm_router.Domain.Account.{UpstreamAccount, Status, AuthMethod, method_is_oauth}
use one_llm_router.Domain.BaseUrl.{Url}
use one_llm_router.Domain.Shape.Laws.{IsOauthShape}
use one_llm_router.Core.HashRing.{zero_account}
use one_llm_router.Store.Engine.{Engine, EngineLaws, first_row, update_rows, count_rows, stored_row}
use one_llm_router.Store.Accounts.{CredentialPatch, update_credentials, update_status_if_current}
use one_llm_router.Store.Accounts.Calls.{
  UsageSnapshot, AccountDetailsPatch, Write, write_credentials, write_status, write_usage,
  write_details, write_named_row, apply_all,
}
use one_llm_router.Store.Accounts.Locks.{no_lost_update}
use one_llm_router.Store.Accounts.Tables.{IsTable}
use one_llm_router.Store.Accounts.Writes.{AllMeterOauth, apply_all-IsTable}

abbrev size : ℤ → ℕ
size (pos n) = n
size (negsuc n) = 0

abbrev next_id : List UpstreamAccount → ℕ
next_id [] = 1
next_id (a ∷ rows) = suc (size a.id) + next_id rows

next_id-fresh :
    (rows : List UpstreamAccount) (b : UpstreamAccount) → In b rows → size b.id < next_id rows
next_id-fresh [] b i = absurd i
next_id-fresh (a ∷ rows) b (inl e) = ground (arith, ap (λ (x : UpstreamAccount). size x.id) e)
next_id-fresh (a ∷ rows) b (inr i) = ground (arith, next_id-fresh rows b i)

abbrev pub memory_engine : Engine (List UpstreamAccount)
memory_engine = record {
  find = λ w s. ok (first_row w s);
  update = λ w f s. ok (count_rows w s, update_rows w f s);
  insert = λ a s. ok (pos (next_id s), s ++ stored_row (λ t. t) (pos (next_id s)) 50 50 a ∷ []);
  stamp = λ t. t;
}

abbrev pub all_rows : List UpstreamAccount → List UpstreamAccount
all_rows s = s

-- An update that matches no row changes none.
update_rows-none :
    (w : UpstreamAccount → Bool) (f : UpstreamAccount → UpstreamAccount) (s : List UpstreamAccount)
    → count_rows w s ≡ 0
    → update_rows w f s ≡ s
update_rows-none w f [] h = refl
update_rows-none w f (a ∷ s) h = elim (Bool-cases (w a)) [
  | inl t ↦ ground (arith, t, h)
  | inr n ↦ rw n (
      ap (λ rest. a ∷ rest)
        (update_rows-none w f s
          (subst (λ b. (if b then 1 + count_rows w s else count_rows w s) ≡ 0) n h)))
]

pub memory_laws : EngineLaws memory_engine all_rows
memory_laws = record {
  found = λ w s o h. sym (ok-eq h);
  updated = λ w f s s' n h. (
    sym (ap (λ (p : ℕ × List UpstreamAccount). p.1) (ok-eq h)),
    omega (arith, ap (λ (p : ℕ × List UpstreamAccount). p.0) (ok-eq h)),
    λ z.
        sym (ap (λ (p : ℕ × List UpstreamAccount). p.1) (ok-eq h))
        ∙ update_rows-none w f s (ap (λ (p : ℕ × List UpstreamAccount). p.0) (ok-eq h) ∙ z),
  );
  inserted = λ a s s' id h.
      let same = ok-eq h in
      (
        50,
        50,
        sym (ap (λ (p : ℤ × List UpstreamAccount). p.1) same)
            ∙ ap (λ i. s ++ stored_row (λ t. t) i 50 50 a ∷ [])
                (ap (λ (p : ℤ × List UpstreamAccount). p.0) same),
      );
  fresh = λ a s s' id h b i e.
      let same = ap (λ (p : ℤ × List UpstreamAccount). p.0) (ok-eq h) in
      ground (arith, ap size (e ∙ sym same), next_id-fresh s b i);
}

abbrev pub oauth_row : UpstreamAccount
oauth_row = record zero_account {
  id = pos 7;
  provider = "openai";
  status = Status.active;
  auth_method = AuthMethod.oauth_device;
  access_token = some (1 ∷ []);
  refresh_token = some (2 ∷ []);
  id_token = some (3 ∷ []);
  last_refresh = some 100;
  access_expires_at = some 300;
}

abbrev rotation : ℕ → ℕ → CredentialPatch
rotation token at = record {
  auth_method = AuthMethod.oauth_device;
  api_key = "";
  access_token = some (token ∷ []);
  refresh_token = some (2 ∷ []);
  id_token = some (3 ∷ []);
  last_refresh = some at;
  expected_last_refresh = some 100;
  access_expires_at = some 900;
  email = none;
  plan_type = none;
  chatgpt_account_id = none;
}

abbrev rotated : List UpstreamAccount
rotated =
    record oauth_row {
      access_token = some (5 ∷ []);
      last_refresh = some 400;
      access_expires_at = some 900;
      updated_at = 400;
    }
    ∷ []

first_wins :
    update_credentials memory_engine 400 (pos 7) (rotation 5 400) (oauth_row ∷ []) ≡ ok rotated
unfolding update_credentials
first_wins = refl

no_lost_update_example :
    update_credentials memory_engine 401 (pos 7) (rotation 6 401) rotated ≢ ok (oauth_row ∷ [])
no_lost_update_example =
    no_lost_update memory_engine all_rows memory_laws 400 401 100 400 (pos 7) (rotation 5 400)
      (rotation 6 401) (oauth_row ∷ []) rotated (oauth_row ∷ []) refl refl refl refl refl
      (λ e. ground arith) first_wins

abbrev disabled_rows : List UpstreamAccount
disabled_rows = record oauth_row { status = Status.disabled; updated_at = 500 } ∷ []

disabling :
    update_status_if_current memory_engine 500 (pos 7) Status.disabled 100 (oauth_row ∷ [])
    ≡ ok disabled_rows
unfolding update_status_if_current
disabling = refl

abbrev pub no_url : String → Option Url
no_url raw = none

oauth_row-IsOauthShape : IsOauthShape oauth_row
oauth_row-IsOauthShape = record {
  no_key = refl;
  has_access = refl;
  has_refresh = refl;
  has_id_token = refl;
  refreshed = λ e. ground (arith, e);
  expires = λ e. ground (arith, e);
  no_system_one = λ i. i;
}

pub one_row : IsTable no_url (oauth_row ∷ [])
one_row = record {
  shaped = λ a i. elim i [ inl e ↦ rw e oauth_row-IsOauthShape | inr nobody ↦ absurd nobody ];
  keyed = λ a b i j e. elim i [
    | inl x ↦ elim j [ inl y ↦ x ∙ sym y | inr nobody ↦ absurd nobody ]
    | inr nobody ↦ absurd nobody
  ];
}

abbrev usage : UsageSnapshot
usage = record {
  primary_used_percent = some 40;
  secondary_used_percent = none;
  primary_reset_at = some 900;
  secondary_reset_at = none;
  primary_window_seconds = some (pos 18000);
  secondary_window_seconds = none;
}

abbrev renaming : AccountDetailsPatch
renaming = record { name = some "b"; api_key = none; base_url = none; capabilities = none }

abbrev several : List Write
several =
    write_usage 300 (pos 7) usage
    ∷ write_credentials 400 (pos 7) (rotation 5 400)
    ∷ write_status 500 (pos 7) Status.disabled
    ∷ write_details 600 (pos 7) renaming
    ∷ write_named_row oauth_row
    ∷ []

-- The usage is that of the OAuth row.
several-metered :
    (a : UpstreamAccount)
    → In a (oauth_row ∷ [])
    → a.id ≡ pos 7
    → method_is_oauth a.auth_method ≡ true
several-metered a i e = elim i [ inl x ↦ rw x refl | inr nobody ↦ absurd nobody ]

apply_all-IsTable_example : IsTable no_url (apply_all memory_engine no_url several (oauth_row ∷ []))
unfolding AllMeterOauth
apply_all-IsTable_example =
    apply_all-IsTable memory_engine all_rows memory_laws no_url several (oauth_row ∷ [])
      (several-metered, (tt, (tt, (tt, (tt, tt))))) one_row
