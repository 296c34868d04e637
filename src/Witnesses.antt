-- ===== src/Witnesses.antt =====
-- The theorems at work on concrete rows, requests and orders of steps.
mod Sort
mod Routing
mod Selection
mod Accounts
mod Gateways
mod Recording
mod Cleaning
mod SettingUp
mod Storing
mod Refreshing
mod Flows
mod Streams
mod Requests
mod Redacting
use one_llm_router.Prelude.{ℕ, String, Option, none, some, List, [], ◌∷◌}
use one_llm_router.Prelude.Int.{ℤ, pos}
use one_llm_router.Domain.Account.{UpstreamAccount, Status, AuthMethod}
use one_llm_router.Core.HashRing.{zero_account}

-- An active row with an API key.
abbrev key_account : ℤ → UpstreamAccount
key_account id = record zero_account {
  id = id;
  provider = "openai";
  api_key = "sk-test";
  status = Status.active;
  auth_method = AuthMethod.api_key;
}

abbrev system_one_account : UpstreamAccount
system_one_account = record (key_account (pos 4)) {
  capabilities = "op.systemone" ∷ [];
  base_url = some "https://one.example";
}
