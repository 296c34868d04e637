-- ===== src/Witnesses/Accounts.antt =====
-- Rows of both shapes.
use one_llm_router.Prelude.{◌≡◌, ◌↔◌, refl, String, true, Option, none, some}
use one_llm_router.Prelude.Text.{has_prefix}
use one_llm_router.Domain.Account.{is_oauth, system_one_only}
use one_llm_router.Domain.BaseUrl.{Url, Accepted, validate_base_url, validate_base_url_iff_Accepted}
use one_llm_router.Domain.Capability.{
  governed_prefixes, covers, has_capability_for, validate_capabilities, system_one_only_isolated,
}
use one_llm_router.Domain.Shape.{validate}
use one_llm_router.Domain.Shape.Laws.{IsApiKeyShape, validate_iff_IsWellShaped}
use one_llm_router.Witnesses.{system_one_account}

abbrev parse_url : String → Option Url
parse_url raw =
    some record {
      is_abs = true;
      scheme = "https";
      host = "one.example";
      raw_query = "";
      fragment = "";
    }

validate_iff_IsWellShaped_example :
    (validate parse_url system_one_account ≡ none) ↔ IsApiKeyShape parse_url system_one_account
validate_iff_IsWellShaped_example = validate_iff_IsWellShaped parse_url system_one_account

only : system_one_only system_one_account ≡ true
unfolding system_one_only is_oauth
only = refl

known : validate_capabilities system_one_account.capabilities ≡ none
unfolding validate_capabilities
known = refl

governed : covers governed_prefixes "op.systemone.create" ≡ true
unfolding has_prefix
governed = refl

offered : has_capability_for system_one_account "op.systemone.create" ≡ true
unfolding has_capability_for is_oauth has_prefix
offered = refl

system_one_only_isolated_example : has_prefix "op.systemone.create" "op.systemone." ≡ true
system_one_only_isolated_example =
    system_one_only_isolated system_one_account "op.systemone.create" only known governed offered

validate_base_url_iff_Accepted_example :
    (validate_base_url parse_url "https://one.example" ≡ none)
    ↔ Accepted parse_url "https://one.example"
validate_base_url_iff_Accepted_example =
    validate_base_url_iff_Accepted parse_url "https://one.example"
