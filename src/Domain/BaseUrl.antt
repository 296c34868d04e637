-- ===== src/Domain/BaseUrl.antt =====
-- internal/domain/base_url.go: the checks on an operator's base URL, over what url.Parse returns.
use Prim.Native.String.{len}
use one_llm_router.Prelude.{
  ℕ, ◌≤◌, String, ◌≡◌, ◌≢◌, ◌⊎◌, ◌↔◌, Bool, true, not, ◌&&◌, ◌||◌, Option, none, some, arith,
  eq_iff, Option-cases, inl, inr, refl, ltb, str_eq, lower_eq, if◌then◌else◌,
}

-- The fields of `*url.URL` that the checks read.
pub record Url : Type 0 where
  pub is_abs : Bool
  pub scheme : String
  pub host : String
  pub raw_query : String
  pub fragment : String

pub data BaseUrlError : Type 0 where
  too_long invalid_url not_absolute bad_scheme no_host query_or_fragment : BaseUrlError

abbrev pub base_url_max_len : ℕ
base_url_max_len = 256

unfoldable pub check_parsed : Option Url → Option BaseUrlError
check_parsed none = some invalid_url
check_parsed (some parsed) =
    if not parsed.is_abs
    then some not_absolute
    else if not (lower_eq parsed.scheme "http") && not (lower_eq parsed.scheme "https")
    then some bad_scheme
    else if str_eq parsed.host ""
    then some no_host
    else if not (str_eq parsed.raw_query "") || not (str_eq parsed.fragment "")
    then some query_or_fragment
    else none

-- What an accepted URL looks like.
pub record IsBaseUrl (u : Url) : Type 0 where
  pub absolute : u.is_abs ≡ true
  pub web_scheme : (lower_eq u.scheme "http" ≡ true) ⊎ (lower_eq u.scheme "https" ≡ true)
  pub has_host : u.host ≢ ""
  pub no_query : u.raw_query ≡ ""
  pub no_fragment : u.fragment ≡ ""

pub check_parsed-IsBaseUrl : (u : Url) → check_parsed (some u) ≡ none → IsBaseUrl u
unfolding check_parsed
check_parsed-IsBaseUrl u h =
    ground (arith, eq_iff u.host "", eq_iff u.raw_query "", eq_iff u.fragment "")

pub IsBaseUrl-check_parsed : (u : Url) → IsBaseUrl u → check_parsed (some u) ≡ none
unfolding check_parsed
IsBaseUrl-check_parsed u h =
    ground (arith, eq_iff u.host "", eq_iff u.raw_query "", eq_iff u.fragment "")

check_parsed_refused : check_parsed none ≡ some invalid_url
unfolding check_parsed
check_parsed_refused = refl

module _ (parse_url : String → Option Url) where
  -- ValidateBaseURL; `none` is a nil error
  unfoldable pub validate_base_url : String → Option BaseUrlError
  validate_base_url raw =
      if ltb base_url_max_len (len raw) then some too_long else check_parsed (parse_url raw)

  abbrev pub Accepted : String → Type 0
  Accepted raw = (len raw ≤ 256) × (u : Url) × (parse_url raw ≡ some u) × IsBaseUrl u

  room : (raw : String) → validate_base_url raw ≡ none → check_parsed (parse_url raw) ≡ none
  unfolding validate_base_url
  room raw h = ground arith

  pub validate_base_url-Accepted : (raw : String) → validate_base_url raw ≡ none → Accepted raw
  unfolding validate_base_url
  validate_base_url-Accepted raw h = elim (Option-cases (parse_url raw)) [
    | inl e ↦ absurd (cc (check_parsed_refused, e, room raw h))
    | inr (u, e) ↦ (ground arith, u, e, check_parsed-IsBaseUrl u (ground arith))
  ]

  pub Accepted-validate_base_url : (raw : String) → Accepted raw → validate_base_url raw ≡ none
  unfolding validate_base_url
  Accepted-validate_base_url raw (short, u, e, good) = ground (arith, IsBaseUrl-check_parsed u good)

  -- The check passes exactly on the texts of at most 256 bytes that parse, to an absolute URL whose
  -- scheme is http or https in any case, with a host, no query and no fragment.
  pub validate_base_url_iff_Accepted :
      (raw : String) → (validate_base_url raw ≡ none) ↔ Accepted raw
  validate_base_url_iff_Accepted raw =
      (validate_base_url-Accepted raw, Accepted-validate_base_url raw)
