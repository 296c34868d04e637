-- ===== src/Witnesses/Streams.antt =====
-- A stream with an event that is too long, and a refresh of the models of an account.
use one_llm_router.Prelude.{
  ℕ, ◌≡◌, ◌||◌, ◌&&◌, not, In, inl, refl, none, some, List, [], ◌∷◌, str_eq, contains,
}
use one_llm_router.Prelude.Int.{pos, eq_ℤ}
use one_llm_router.Stream.{Line, forward_sse, forward_lines, forward_line, sse_field}
use one_llm_router.Stream.Events.{read_events, forward_sse_lem}
use one_llm_router.Store.Models.{
  AccountModel, AccountModelDraft, manual, upstream, has_model, delete_rows, is_replaced,
  replace_upstream_models,
}
use one_llm_router.Store.Models.Replaced.{draft_ids, replaced_models}

abbrev data_line : List ℕ → Line
data_line value = 100 ∷ 97 ∷ 116 ∷ 97 ∷ 58 ∷ 32 ∷ value

-- an event of two bytes, and one of four
abbrev two_events : List Line
two_events = data_line (65 ∷ 66 ∷ []) ∷ [] ∷ data_line (65 ∷ 66 ∷ 67 ∷ 68 ∷ []) ∷ [] ∷ []

one_read : (forward_sse 3 two_events).processed ≡ (65 ∷ 66 ∷ []) ∷ []
unfolding forward_sse forward_lines forward_line sse_field
one_read = refl

in_read : In (65 ∷ 66 ∷ []) (forward_sse 3 two_events).processed
in_read = rw one_read (inl refl)

forward_sse_lem_example : (forward_sse 3 two_events).processed ≡ read_events 3 [] two_events
forward_sse_lem_example = forward_sse_lem 3 two_events

abbrev models : List AccountModel
models =
    record { account_id = pos 1; model_id = "mine"; source = manual; metadata = none }
    ∷ record { account_id = pos 1; model_id = "old"; source = upstream; metadata = none }
    ∷ []

abbrev drafts : List AccountModelDraft
drafts =
    record { id = "new"; metadata = some "{}" } ∷ record { id = "mine"; metadata = some "{}" } ∷ []

replaced_models_example :
    has_model (pos 1) "new" (replace_upstream_models (pos 1) drafts models).rows
    ≡ has_model (pos 1) "new" (delete_rows (is_replaced (pos 1)) models)
      || (eq_ℤ (pos 1) (pos 1) && not (str_eq "new" "") && contains (draft_ids drafts) "new")
replaced_models_example = replaced_models (pos 1) (pos 1) "new" drafts models
