-- ===== src/Domain/Shape/Laws.antt =====
-- internal/domain/account.go: the rows that Validate accepts, against an independent description.
use one_llm_router.Prelude.{
  String, ◌≡◌, ◌≢◌, ◌↔◌, inl, inr, refl, Bool, true, false, Option, none, some, List, [], ◌∷◌, ◌++◌,
  arith, eq_iff, In, In-contains, contains-In, contains, trim_space, Bool-cases,
}
use one_llm_router.Domain.Account.{UpstreamAccount, AuthMethod, bytes_empty, capability_system_one}
use one_llm_router.Domain.BaseUrl.{
  Url, Accepted, validate_base_url-Accepted, Accepted-validate_base_url,
}
use one_llm_router.Domain.Capability.{governed_prefixes}
use one_llm_router.Domain.Shape.{
  Offender, collect, unknown_capabilities, api_key_rows, usage_rows, oauth_rows, verdict,
  validate_oauth_shape, system_one_base_url, validate_api_key_shape, validate, shape_of,
}

-- The row of an account that signs in with an API key.
pub record IsApiKeyShape (parse_url : String → Option Url) (a : UpstreamAccount) : Type 0 where
  pub has_key : a.api_key ≢ ""
  pub no_access : a.access_token ≡ none
  pub no_refresh : a.refresh_token ≡ none
  pub no_id_token : a.id_token ≡ none
  pub no_last_refresh : a.last_refresh ≡ none
  pub no_expiry : a.access_expires_at ≡ none
  pub no_email : a.email ≡ none
  pub no_plan : a.plan_type ≡ none
  pub no_chatgpt_account : a.chatgpt_account_id ≡ none
  pub no_primary_used : a.primary_used_percent ≡ none
  pub no_secondary_used : a.secondary_used_percent ≡ none
  pub no_usage_time : a.usage_updated_at ≡ none
  pub no_primary_reset : a.primary_reset_at ≡ none
  pub no_secondary_reset : a.secondary_reset_at ≡ none
  pub no_primary_window : a.primary_window_seconds ≡ none
  pub no_secondary_window : a.secondary_window_seconds ≡ none
  pub known : (c : String) → In c a.capabilities → In c governed_prefixes
  pub system_one :
      In capability_system_one a.capabilities
      → (u : String) × (a.base_url ≡ some u) × (trim_space u ≢ "") × Accepted parse_url u

-- The row of an account that signed in through OAuth.
pub record IsOauthShape (a : UpstreamAccount) : Type 0 where
  pub no_key : a.api_key ≡ ""
  pub has_access : bytes_empty a.access_token ≡ false
  pub has_refresh : bytes_empty a.refresh_token ≡ false
  pub has_id_token : bytes_empty a.id_token ≡ false
  pub refreshed : a.last_refresh ≢ none
  pub expires : a.access_expires_at ≢ none
  pub no_system_one : ¬ In capability_system_one a.capabilities

abbrev pub IsWellShaped : (String → Option Url) → AuthMethod → UpstreamAccount → Type 0
IsWellShaped parse_url AuthMethod.api_key a = IsApiKeyShape parse_url a
IsWellShaped parse_url AuthMethod.oauth_browser a = IsOauthShape a
IsWellShaped parse_url AuthMethod.oauth_device a = IsOauthShape a
IsWellShaped parse_url AuthMethod.oauth_import a = IsOauthShape a
IsWellShaped parse_url (AuthMethod.unknown m) a = ⊥

abbrev Clean : List (Bool × String) → Type 0
Clean [] = Unit
Clean ((bad, text) ∷ rows) = (bad ≡ false) × Clean rows

collect-Clean : (rows : List (Bool × String)) → collect rows ≡ [] → Clean rows
unfolding collect
collect-Clean [] h = tt
collect-Clean ((true, text) ∷ rows) h = cc
collect-Clean ((false, text) ∷ rows) h = (refl, collect-Clean rows h)

Clean-collect : (rows : List (Bool × String)) → Clean rows → collect rows ≡ []
unfolding collect
Clean-collect [] h = refl
Clean-collect ((bad, text) ∷ rows) (good, h) = rw good (Clean-collect rows h)

unknown_capabilities-In :
    (caps : List String)
    → unknown_capabilities caps ≡ []
    → (c : String) → In c caps
    → In c governed_prefixes
unfolding unknown_capabilities
unknown_capabilities-In [] h c i = elim i [ ]
unknown_capabilities-In (d ∷ caps) h c (inl e) =
    rw e (contains-In governed_prefixes d (ground arith))
unknown_capabilities-In (d ∷ caps) h c (inr i) = unknown_capabilities-In caps (ground arith) c i

In-unknown_capabilities :
    (caps : List String)
    → ((c : String) → In c caps → In c governed_prefixes)
    → unknown_capabilities caps ≡ []
unfolding unknown_capabilities
In-unknown_capabilities [] h = refl
In-unknown_capabilities (d ∷ caps) h =
    rw (In-contains governed_prefixes d (h d (inl refl)))
      (In-unknown_capabilities caps (λ c i. h c (inr i)))

verdict-none :
    (m : AuthMethod) (offenders : List Offender) → verdict m offenders ≡ none → offenders ≡ []
unfolding verdict
verdict-none m [] h = refl
verdict-none m (o ∷ offenders) h = cc

verdict_nil :
    (m : AuthMethod) (offenders : List Offender) → offenders ≡ [] → verdict m offenders ≡ none
unfolding verdict
verdict_nil m [] h = refl
verdict_nil m (o ∷ offenders) h = cc

append_nil : (xs ys : List Offender) → xs ++ ys ≡ [] → (xs ≡ []) × (ys ≡ [])
append_nil [] ys h = (refl, h)
append_nil (x ∷ xs) ys h = cc

validate_oauth_shape-IsOauthShape :
    (a : UpstreamAccount) → validate_oauth_shape a ≡ none → IsOauthShape a
unfolding validate_oauth_shape
validate_oauth_shape-IsOauthShape a h =
    let rows = collect-Clean (oauth_rows a) (verdict-none a.auth_method _ h) in
    record {
      no_key = ground (arith, eq_iff a.api_key "");
      has_access = rows.1.1.0;
      has_refresh = ground arith;
      has_id_token = ground arith;
      refreshed = ground arith;
      expires = ground arith;
      no_system_one = λ i. cc (rows.0, In-contains a.capabilities capability_system_one i);
    }

not-contains : (list : List String) (s : String) → ¬ In s list → contains list s ≡ false
not-contains list s n = elim (Bool-cases (contains list s)) [
  | inl y ↦ absurd (n (contains-In list s y))
  | inr e ↦ e
]

IsOauthShape-validate_oauth_shape :
    (a : UpstreamAccount) → IsOauthShape a → validate_oauth_shape a ≡ none
unfolding validate_oauth_shape
IsOauthShape-validate_oauth_shape a s = verdict_nil a.auth_method _ (
    Clean-collect (oauth_rows a) (
      ground (
        arith,
        not-contains a.capabilities capability_system_one s.no_system_one,
        eq_iff a.api_key "",
        s.no_key,
        s.refreshed,
        s.expires,
      )))

module _ (parse_url : String → Option Url) where
  system_one_base_url-Accepted :
      (o : Option String)
      → system_one_base_url parse_url o ≡ none
      → (u : String) × (o ≡ some u) × (trim_space u ≢ "") × Accepted parse_url u
  unfolding system_one_base_url
  system_one_base_url-Accepted none h = cc
  system_one_base_url-Accepted (some u) h = (
    u,
    refl,
    ground (arith, eq_iff (trim_space u) ""),
    validate_base_url-Accepted parse_url u (ground arith),
  )

  Accepted-system_one_base_url :
      (u : String)
      → trim_space u ≢ ""
      → Accepted parse_url u
      → system_one_base_url parse_url (some u) ≡ none
  unfolding system_one_base_url
  Accepted-system_one_base_url u n good =
      ground (arith, eq_iff (trim_space u) "", Accepted-validate_base_url parse_url u good)

  validate_api_key_shape-IsApiKeyShape :
      (a : UpstreamAccount) → validate_api_key_shape parse_url a ≡ none → IsApiKeyShape parse_url a
  unfolding validate_api_key_shape
  validate_api_key_shape-IsApiKeyShape a h =
      let listed : verdict AuthMethod.api_key (
            collect (api_key_rows a)
            ++ (unknown_capabilities a.capabilities ++ collect (usage_rows a)))
          ≡ none =
        ground arith in
      let (first, others) =
        append_nil (collect (api_key_rows a)) _ (verdict-none AuthMethod.api_key _ listed) in
      let (caps, last) = append_nil (unknown_capabilities a.capabilities) _ others in
      let keys = collect-Clean (api_key_rows a) first in
      let usage = collect-Clean (usage_rows a) last in
      record {
        has_key = ground (arith, eq_iff a.api_key "");
        no_access = ground arith;
        no_refresh = ground arith;
        no_id_token = ground arith;
        no_last_refresh = ground arith;
        no_expiry = ground arith;
        no_email = ground arith;
        no_plan = ground arith;
        no_chatgpt_account = ground arith;
        no_primary_used = ground arith;
        no_secondary_used = ground arith;
        no_usage_time = ground arith;
        no_primary_reset = ground arith;
        no_secondary_reset = ground arith;
        no_primary_window = ground arith;
        no_secondary_window = ground arith;
        known = unknown_capabilities-In a.capabilities caps;
        system_one = λ i.
            system_one_base_url-Accepted a.base_url
              (ground (arith, In-contains a.capabilities capability_system_one i));
      }

  system_one_clear :
      (a : UpstreamAccount)
      → IsApiKeyShape parse_url a
      → contains a.capabilities capability_system_one ≡ true
      → system_one_base_url parse_url a.base_url ≡ none
  system_one_clear a s c =
      let (u, e, n, good) = s.system_one (contains-In a.capabilities capability_system_one c) in
      rw e (Accepted-system_one_base_url u n good)

  IsApiKeyShape-validate_api_key_shape :
      (a : UpstreamAccount) → IsApiKeyShape parse_url a → validate_api_key_shape parse_url a ≡ none
  unfolding validate_api_key_shape
  IsApiKeyShape-validate_api_key_shape a s =
      let keys : collect (api_key_rows a) ≡ [] =
        Clean-collect (api_key_rows a) (ground (arith, eq_iff a.api_key "", s.has_key)) in
      let usage : collect (usage_rows a) ≡ [] = Clean-collect (usage_rows a) (ground arith) in
      let caps = In-unknown_capabilities a.capabilities s.known in
      let listed : verdict AuthMethod.api_key (
            collect (api_key_rows a)
            ++ (unknown_capabilities a.capabilities ++ collect (usage_rows a)))
          ≡ none =
        rw (keys, usage, caps) (verdict_nil AuthMethod.api_key [] refl) in
      ground (arith, listed, system_one_clear a s)

  shape_cases :
      (m : AuthMethod) (a : UpstreamAccount)
      → (shape_of parse_url m a ≡ none) ↔ IsWellShaped parse_url m a
  unfolding shape_of
  shape_cases AuthMethod.api_key a =
      (validate_api_key_shape-IsApiKeyShape a, IsApiKeyShape-validate_api_key_shape a)
  shape_cases (AuthMethod.unknown m) a = (λ h. cc, λ h. absurd h)
  shape_cases AuthMethod.oauth_browser a =
      (validate_oauth_shape-IsOauthShape a, IsOauthShape-validate_oauth_shape a)
  shape_cases AuthMethod.oauth_device a =
      (validate_oauth_shape-IsOauthShape a, IsOauthShape-validate_oauth_shape a)
  shape_cases AuthMethod.oauth_import a =
      (validate_oauth_shape-IsOauthShape a, IsOauthShape-validate_oauth_shape a)

  -- Validate returns no error exactly on the rows of the shape that their sign-in method asks for:
  -- a key and no OAuth field with known capabilities and, for System One, an accepted base URL; or
  -- no key, the three tokens, both instants and no System One; and never on an unknown method.
  pub validate_iff_IsWellShaped :
      (a : UpstreamAccount) → (validate parse_url a ≡ none) ↔ IsWellShaped parse_url a.auth_method a
  unfolding validate
  validate_iff_IsWellShaped a = shape_cases a.auth_method a
