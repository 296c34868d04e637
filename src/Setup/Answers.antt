-- ===== src/Setup/Answers.antt =====
-- internal/setup/gate.go: what a request gets before the set-up is done, and after.
pub mod Refusals
use one_llm_router.Prelude.{
  String, Bool, true, false, not, ◌&&◌, ◌||◌, str_eq, has_prefix, if◌then◌else◌,
}
use one_llm_router.Setup.Gate.{Stat, Gate, probe, opened}

-- The handler behind the gate, a redirect that is not stored, the refusal of the admin API, and the
-- error 503 of the data plane.
pub data Answer : Type 0 where
  next setup_required service_unavailable : Answer
  redirect : String → Answer

-- isSetupPendingDataPlanePath
unfoldable pub is_setup_pending_data_plane_path : String → Bool
is_setup_pending_data_plane_path path =
    has_prefix path "/v1/" || str_eq path "/backend-api" || has_prefix path "/backend-api/"

-- serveSetupPending
unfoldable pub serve_setup_pending : String → Answer
serve_setup_pending path =
    if str_eq path "/setup" || has_prefix path "/setup/"
    then next
    else if has_prefix path "/api/setup/"
    then next
    else if str_eq path "/api/admin/health"
    then next
    else if str_eq path "/" || str_eq path "/admin" || has_prefix path "/admin/"
    then redirect "/setup/"
    else if has_prefix path "/api/admin/"
    then setup_required
    else if is_setup_pending_data_plane_path path
    then service_unavailable
    else next

abbrev is_safe : String → Bool
is_safe method = str_eq method "GET" || str_eq method "HEAD"

-- isRootHTMLPath
abbrev pub is_root_html_path : String → String → Bool
is_root_html_path method path = is_safe method && str_eq path "/"

-- isSetupHTMLPath
unfoldable pub is_setup_html_path : String → String → Bool
is_setup_html_path method path =
    if not (is_safe method)
    then false
    else if str_eq path "/setup"
    then true
    else if not (has_prefix path "/setup/")
    then false
    else not (has_prefix path "/api/setup/")

abbrev pub serve_open : String → String → Answer
serve_open method path =
    if is_root_html_path method path || is_setup_html_path method path
    then redirect "/admin/"
    else next

-- The handler of Wrap, with what a probe of the gate would find on disk.
unfoldable pub wrap : Gate → Stat → String → String → Answer
wrap g stat method path =
    if opened (probe g stat).0 then serve_open method path else serve_setup_pending path
