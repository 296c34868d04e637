-- ===== src/Witnesses/SettingUp.antt =====
-- A gate whose observer is disabled while config.json appears.
use one_llm_router.Prelude.{◌≡◌, ◌||◌, refl, true, false, List, [], ◌∷◌, ◌++◌, if◌then◌else◌}
use one_llm_router.Prelude.Text.{has_prefix}
use one_llm_router.Setup.Gate.{
  regular_file, not_exist, new_gate, Call, disables, probes, after_calls,
}
use one_llm_router.Setup.Gate.Latch.{opens, after_calls-done}
use one_llm_router.Setup.Answers.{next, service_unavailable, is_setup_pending_data_plane_path, wrap}
use one_llm_router.Setup.Answers.Refusals.{data_plane_lem}

abbrev calls : List Call
calls = probes not_exist ∷ disables ∷ []

data_plane : is_setup_pending_data_plane_path "/v1/responses" ≡ true
unfolding is_setup_pending_data_plane_path has_prefix
data_plane = refl

data_plane_lem_example :
    wrap (after_calls calls (new_gate "config.json")) regular_file "POST" "/v1/responses" ≡ (
      if opens "config.json" false (calls ++ probes regular_file ∷ [])
      then next
      else service_unavailable)
data_plane_lem_example =
    data_plane_lem "config.json" calls regular_file "POST" "/v1/responses" data_plane

after_calls-done_example :
    (after_calls calls (new_gate "config.json")).done
    ≡ ((new_gate "config.json").done || opens "config.json" false calls)
after_calls-done_example = after_calls-done calls (new_gate "config.json")
