-- ===== src/Store/Models.antt =====
-- internal/store/account_models.go: the models of the accounts. The table is the list of its rows; a
-- transaction of which a statement fails leaves it as it is.
pub mod Replaced
use one_llm_router.Prelude.{
  ℕ, String, Bool, true, false, not, ◌&&◌, ◌||◌, Option, none, some, List, [], ◌∷◌, ◌++◌, map,
  str_eq, contains, length, if◌then◌else◌,
}
use one_llm_router.Prelude.Int.{ℤ, eq_ℤ}
use one_llm_router.Prelude.Result.{Result, ok, err}

pub data Source : Type 0 where
  manual upstream : Source
  other_source : String → Source

pub record AccountModel : Type 0 where
  pub account_id : ℤ
  pub model_id : String
  pub source : Source
  pub metadata : Option String

-- A draft; its metadata is the text of the raw JSON, none where that is empty.
pub record AccountModelDraft : Type 0 where
  pub id : String
  pub metadata : Option String

abbrev pub is_manual : Source → Bool
is_manual manual = true
is_manual upstream = false
is_manual (other_source s) = false

abbrev pub is_upstream : Source → Bool
is_upstream upstream = true
is_upstream manual = false
is_upstream (other_source s) = false

-- account_id = ? AND model_id = ?
abbrev pub is_model_row : ℤ → String → AccountModel → Bool
is_model_row account id row = eq_ℤ row.account_id account && str_eq row.model_id id

abbrev pub any_row : (AccountModel → Bool) → List AccountModel → Bool
any_row p [] = false
any_row p (row ∷ rows) = p row || any_row p rows

-- HasModel
unfoldable pub has_model : ℤ → String → List AccountModel → Bool
has_model account id rows = if str_eq id "" then false else any_row (is_model_row account id) rows

-- Delete
abbrev pub delete_rows : (AccountModel → Bool) → List AccountModel → List AccountModel
delete_rows p [] = []
delete_rows p (row ∷ rows) = let rest = delete_rows p rows in if p row then rest else row ∷ rest

unfoldable pub delete_model : ℤ → String → List AccountModel → List AccountModel
delete_model account id rows = delete_rows (is_model_row account id) rows

abbrev pub manual_ids : ℤ → List AccountModel → List String
manual_ids account [] = []
manual_ids account (row ∷ rows) =
    let rest = manual_ids account rows in
    if eq_ℤ row.account_id account && is_manual row.source then row.model_id ∷ rest else rest

abbrev pub is_replaced : ℤ → AccountModel → Bool
is_replaced account row = eq_ℤ row.account_id account && is_upstream row.source

abbrev pub deduped : List String → List AccountModelDraft → List AccountModelDraft
deduped seen [] = []
deduped seen (draft ∷ drafts) =
    let skipped = deduped seen drafts in
    let kept = draft ∷ deduped (draft.id ∷ seen) drafts in
    if str_eq draft.id "" || contains seen draft.id then skipped else kept

abbrev pub set_metadata : ℤ → String → Option String → List AccountModel → List AccountModel
set_metadata account id none rows = rows
set_metadata account id (some meta) [] = []
set_metadata account id (some meta) (row ∷ rows) =
    let rest = set_metadata account id (some meta) rows in
    if is_model_row account id row && is_manual row.source
    then record row { metadata = some meta } ∷ rest
    else row ∷ rest

-- the loop that splits the drafts: the rows that are there, and those to insert
abbrev pub split_drafts :
    ℤ
    → List String
    → List AccountModelDraft
    → List AccountModel
    → List AccountModel
    → List AccountModel × List AccountModel
split_drafts account manuals [] rows to_insert = (rows, to_insert)
split_drafts account manuals (draft ∷ drafts) rows to_insert =
    let present =
      split_drafts account manuals drafts (set_metadata account draft.id draft.metadata rows)
        to_insert in
    let absent = split_drafts account manuals drafts rows (
      to_insert
      ++ record {
        account_id = account;
        model_id = draft.id;
        source = upstream;
        metadata = draft.metadata;
      }
        ∷ []) in
    if contains manuals draft.id then present else absent

pub record Replacement : Type 0 where
  pub rows : List AccountModel
  pub added : ℕ
  pub kept_manual : ℕ

-- ReplaceUpstreamModels, where no statement fails
unfoldable pub replace_upstream_models :
    ℤ → List AccountModelDraft → List AccountModel → Replacement
replace_upstream_models account drafts rows =
    let manuals = manual_ids account rows in
    let (kept, to_insert) =
      split_drafts account manuals (deduped [] drafts) (delete_rows (is_replaced account) rows)
        [] in
    record { rows = kept ++ to_insert; added = length to_insert; kept_manual = length manuals }
