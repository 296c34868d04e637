-- ===== src/Setup/Answers/Refusals.antt =====
-- internal/setup/gate.go: the data plane before and after the set-up.
use Prim.Native.Char.{code}
use one_llm_router.Prelude.{
  String, ◌≡◌, refl, sym, subst, Bool, true, false, ◌&&◌, ◌||◌, arith, eq_iff, str_eq, Bool-cases,
  inl, inr, if◌then◌else◌, List, [], ◌∷◌, ◌++◌,
}
use one_llm_router.Prelude.Text.{has_prefix}
use one_llm_router.Prelude.Tests.{◌==◌}
use one_llm_router.Setup.Gate.{Stat, new_gate, Call, probes, after_calls}
use one_llm_router.Setup.Gate.Latch.{opens, opened_after}
use one_llm_router.Setup.Answers.{
  next, service_unavailable, is_setup_pending_data_plane_path, serve_setup_pending, wrap,
  is_setup_html_path, serve_open,
}

-- One text can begin with both.
compatible : String → String → Bool
compatible String.[] q = true
compatible (String.◌∷◌ c p) String.[] = true
compatible (String.◌∷◌ c p) (String.◌∷◌ d q) = (code c == code d) && compatible p q

has_prefix-compatible :
    (s p q : String) → has_prefix s p ≡ true → has_prefix s q ≡ true → compatible p q ≡ true
unfolding has_prefix compatible
has_prefix-compatible s String.[] q h k = refl
has_prefix-compatible s (String.◌∷◌ c p) String.[] h k = refl
has_prefix-compatible String.[] (String.◌∷◌ c p) (String.◌∷◌ d q) h k = ground arith
has_prefix-compatible (String.◌∷◌ e s) (String.◌∷◌ c p) (String.◌∷◌ d q) h k =
    ground (arith, has_prefix-compatible s p q)

has_prefix-none :
    (s p q : String) → has_prefix s p ≡ true → compatible p q ≡ false → has_prefix s q ≡ false
has_prefix-none s p q h apart = elim (Bool-cases (has_prefix s q)) [
  | inr f ↦ f
  | inl t ↦ absurd (cc (has_prefix-compatible s p q h t, apart))
]

str_eq-eq : (s t : String) → str_eq s t ≡ true → s ≡ t
str_eq-eq s t e = ground (arith, eq_iff s t)

has_prefix_trans :
    (s p q : String) → has_prefix s p ≡ true → has_prefix p q ≡ true → has_prefix s q ≡ true
unfolding has_prefix
has_prefix_trans s p String.[] h k = refl
has_prefix_trans s String.[] (String.◌∷◌ d q) h k = ground arith
has_prefix_trans String.[] (String.◌∷◌ c p) (String.◌∷◌ d q) h k = ground arith
has_prefix_trans (String.◌∷◌ e s) (String.◌∷◌ c p) (String.◌∷◌ d q) h k =
    ground (arith, has_prefix_trans s p q)

str_eq-none : (s p t : String) → has_prefix s p ≡ true → has_prefix t p ≡ false → str_eq s t ≡ false
str_eq-none s p t h apart = elim (Bool-cases (str_eq s t)) [
  | inr f ↦ f
  | inl e ↦ absurd (cc (h, apart, str_eq-eq s t e))
]

-- Beginnings that no page or API of the set-up, the health check or the admin portal has.
record IsApart (p : String) : Type 0 where
  setup_page : has_prefix "/setup" p ≡ false
  setup_pages : compatible p "/setup/" ≡ false
  setup_api : compatible p "/api/setup/" ≡ false
  health : has_prefix "/api/admin/health" p ≡ false
  root : has_prefix "/" p ≡ false
  admin_page : has_prefix "/admin" p ≡ false
  admin_pages : compatible p "/admin/" ≡ false
  admin_api : compatible p "/api/admin/" ≡ false

v1-IsApart : IsApart "/v1/"
unfolding compatible has_prefix
v1-IsApart = record {
  setup_page = refl;
  setup_pages = refl;
  setup_api = refl;
  health = refl;
  root = refl;
  admin_page = refl;
  admin_pages = refl;
  admin_api = refl;
}

backend-IsApart : IsApart "/backend-api"
unfolding compatible has_prefix
backend-IsApart = record {
  setup_page = refl;
  setup_pages = refl;
  setup_api = refl;
  health = refl;
  root = refl;
  admin_page = refl;
  admin_pages = refl;
  admin_api = refl;
}

refused_under :
    (path p : String)
    → IsApart p
    → has_prefix path p ≡ true
    → is_setup_pending_data_plane_path path ≡ true
    → serve_setup_pending path ≡ service_unavailable
unfolding serve_setup_pending
refused_under path p a h t =
    rw
      (
        str_eq-none path p "/setup" h a.setup_page,
        has_prefix-none path p "/setup/" h a.setup_pages,
        has_prefix-none path p "/api/setup/" h a.setup_api,
        str_eq-none path p "/api/admin/health" h a.health,
        str_eq-none path p "/" h a.root,
        str_eq-none path p "/admin" h a.admin_page,
        has_prefix-none path p "/admin/" h a.admin_pages,
        has_prefix-none path p "/api/admin/" h a.admin_api,
        t,
      )
      refl

under_backend :
    (path : String) (v1 : Bool)
    → v1 ≡ false
    → (v1 || str_eq path "/backend-api" || has_prefix path "/backend-api/") ≡ true
    → has_prefix path "/backend-api" ≡ true
unfolding has_prefix
under_backend path v1 f t = elim (Bool-cases (str_eq path "/backend-api")) [
  | inl e ↦
      subst (λ (s : String). has_prefix s "/backend-api" ≡ true) (sym (str_eq-eq path _ e)) refl
  | inr n ↦ has_prefix_trans path "/backend-api/" "/backend-api" (ground arith) refl
]

-- Every path of the data plane begins with one of two texts.
data_plane_under :
    (path : String)
    → is_setup_pending_data_plane_path path ≡ true
    → (p : String) × IsApart p × (has_prefix path p ≡ true)
unfolding is_setup_pending_data_plane_path
data_plane_under path t = elim (Bool-cases (has_prefix path "/v1/")) [
  | inl v ↦ ("/v1/", v1-IsApart, v)
  | inr f ↦ ("/backend-api", backend-IsApart, under_backend path (has_prefix path "/v1/") f t)
]

pending_answer :
    (path : String)
    → is_setup_pending_data_plane_path path ≡ true
    → serve_setup_pending path ≡ service_unavailable
pending_answer path t =
    let (p, apart, h) = data_plane_under path t in refused_under path p apart h t

open_answer :
    (method path : String)
    → is_setup_pending_data_plane_path path ≡ true
    → serve_open method path ≡ next
unfolding is_setup_html_path
open_answer method path t =
    let (p, a, h) = data_plane_under path t in
    let root = str_eq-none path p "/" h a.root in
    let page = str_eq-none path p "/setup" h a.setup_page in
    let pages = has_prefix-none path p "/setup/" h a.setup_pages in
    ground (arith, root, page, pages)

-- As long as neither a call so far nor the probe of the request itself opens a new gate (MarkOpen
-- does, and a probe that finds config.json with the observer not disabled), a request of the data
-- plane gets the error 503 and is not passed on; and from then on it is passed on.
pub data_plane_lem :
    (config_path : String) (cs : List Call) (stat : Stat) (method path : String)
    → is_setup_pending_data_plane_path path ≡ true
    → wrap (after_calls cs (new_gate config_path)) stat method path
      ≡ (if opens config_path false (cs ++ probes stat ∷ []) then next else service_unavailable)
unfolding wrap
data_plane_lem config_path cs stat method path t =
    rw
      (
        opened_after cs stat (new_gate config_path),
        open_answer method path t,
        pending_answer path t,
      )
      refl
