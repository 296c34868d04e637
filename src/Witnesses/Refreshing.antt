-- ===== src/Witnesses/Refreshing.antt =====
-- A stale row whose provider answers with new tokens.
use one_llm_router.Prelude.{ℕ, ◌≤◌, ◌≡◌, ◌≢◌, In, refl, true, false, some, List, [], ◌∷◌, arith}
use one_llm_router.Prelude.Int.{pos}
use one_llm_router.Prelude.Result.{ok}
use one_llm_router.Domain.Account.{UpstreamAccount}
use one_llm_router.Oauth.Refresh.{
  World, access_token, clone_bytes, refresh_if_stale, refresh_if_stale_once, is_refresh_conflict,
}
use one_llm_router.Oauth.Refresh.{Tokens, Claims, reload_refresh_conflict_account}
use one_llm_router.Oauth.Flow.{FlowMethod}
use one_llm_router.Domain.Shape.Laws.{IsOauthShape}
use one_llm_router.Oauth.Persist.{account_of, derive_oauth_account_name, persist_consumed_flow}
use one_llm_router.Oauth.Persist.Rows.{persisted_row}
use one_llm_router.Oauth.Refresh.Attempts.{IsStale}
use one_llm_router.Oauth.Refresh.Calls.{asked_at_most_twice}
use one_llm_router.Oauth.Refresh.Stored.{answered_token_stored}
use one_llm_router.Store.Accounts.{insert_upstream_account, update_credentials}
use one_llm_router.Domain.Shape.{validate, validate_oauth_shape, verdict, collect}
use one_llm_router.Witnesses.Storing.{memory_engine, all_rows, memory_laws, oauth_row, no_url}

abbrev quiet_world : World (List UpstreamAccount)
quiet_world = record {
  now = λ n. 250;
  refreshed_at = λ n. 400;
  answer = λ n. ok record {
    access_token = some (8 ∷ []);
    refresh_token = some (9 ∷ []);
    id_token = some (3 ∷ []);
    expires_in = 1000;
  };
  extract_claims =
      λ token. some record { email = "a@b.example"; plan_type = ""; chatgpt_account_id = "" };
  meanwhile = λ n s. s;
}

asked_at_most_twice_example :
    ((refresh_if_stale memory_engine no_url quiet_world oauth_row (oauth_row ∷ [])).calls ≤ 2)
    × ((refresh_if_stale memory_engine no_url quiet_world oauth_row (oauth_row ∷ [])).calls ≢ 0
        → IsStale no_url quiet_world 0 oauth_row)
    × (is_refresh_conflict memory_engine no_url quiet_world
            (refresh_if_stale memory_engine no_url quiet_world oauth_row (oauth_row ∷ [])).reply
          ≡ true
        → (refresh_if_stale memory_engine no_url quiet_world oauth_row (oauth_row ∷ [])).calls ≡ 2)
    × ((refresh_if_stale memory_engine no_url quiet_world oauth_row (oauth_row ∷ [])).calls ≡ 2
        → (latest : UpstreamAccount) × (reload_refresh_conflict_account memory_engine no_url
              quiet_world oauth_row.id
              (refresh_if_stale_once memory_engine no_url quiet_world 0 oauth_row
                (oauth_row ∷ [])).table
            ≡ ok latest)
          × IsStale no_url quiet_world 1 latest)
asked_at_most_twice_example =
    asked_at_most_twice memory_engine no_url quiet_world oauth_row (oauth_row ∷ [])

answered :
    (refresh_if_stale memory_engine no_url quiet_world oauth_row (oauth_row ∷ [])).reply
    ≡ ok (access_token (some (8 ∷ [])) false)
unfolding refresh_if_stale refresh_if_stale_once update_credentials validate validate_oauth_shape
    verdict collect
answered = refl

called : (refresh_if_stale memory_engine no_url quiet_world oauth_row (oauth_row ∷ [])).calls ≡ 1
unfolding refresh_if_stale refresh_if_stale_once update_credentials validate validate_oauth_shape
    verdict collect
called = refl

answered_token_stored_example :
    (row : UpstreamAccount) × In row
      (refresh_if_stale memory_engine no_url quiet_world oauth_row (oauth_row ∷ [])).table
    × (row.id ≡ pos 7)
    × (clone_bytes row.access_token ≡ some (8 ∷ []))
answered_token_stored_example =
    answered_token_stored memory_engine all_rows memory_laws no_url quiet_world oauth_row
      (oauth_row ∷ []) (some (8 ∷ [])) answered (λ none_called. ground (arith, called, none_called))

abbrev new_tokens : Tokens
new_tokens = record {
  access_token = some (8 ∷ []);
  refresh_token = some (9 ∷ []);
  id_token = some (3 ∷ []);
  expires_in = 1000;
}

abbrev new_claims : Claims
new_claims = record { email = "a@b.example"; plan_type = ""; chatgpt_account_id = "" }

abbrev new_account : UpstreamAccount
new_account = record (account_of FlowMethod.device new_tokens 400 new_claims "a@b.example") {
  id = pos 1;
}

-- The row that the engine makes of it.
abbrev new_row : UpstreamAccount
new_row = record new_account { created_at = 50; updated_at = 50 }

persisted :
    persist_consumed_flow memory_engine no_url FlowMethod.device new_tokens 400 new_claims []
    ≡ ok (new_account, new_row ∷ [])
unfolding persist_consumed_flow derive_oauth_account_name insert_upstream_account validate
    validate_oauth_shape verdict collect
persisted = refl

persisted_row_example :
    (new_account.name ≢ "")
    × (created : ℕ) × (updated : ℕ) × IsOauthShape
        (record new_account { created_at = created; updated_at = updated })
    × In (record new_account { created_at = created; updated_at = updated }) (new_row ∷ [])
persisted_row_example =
    persisted_row memory_engine all_rows memory_laws no_url FlowMethod.device new_tokens 400
      new_claims [] (new_row ∷ []) new_account persisted
