-- ===== src/Core/Cleanup.antt =====
-- internal/core/cleanup.go, and DeleteBefore of internal/store/records.go over a table in the order
-- of its ids.
pub mod Batch
pub mod Loop
use one_llm_router.Prelude.{
  ℕ, zero, suc, ◌+◌, ◌-◌, Bool, true, false, not, List, [], ◌∷◌, arith, ltb, length, take, any,
  if◌then◌else◌,
}
use one_llm_router.Prelude.Int.{ℤ, eq_ℤ}

-- The columns of a request record that are read here.
pub record RequestRecord : Type 0 where
  pub id : ℤ
  pub created_at : ℕ

-- cleanupBatchSize
abbrev pub cleanup_batch_size : ℕ
cleanup_batch_size = 1000

module _ (before : ℕ) where
  abbrev pub is_old : RequestRecord → Bool
  is_old r = ltb r.created_at before

  -- the ids of the rows `created_at < before`, in order
  abbrev pub old_ids : List RequestRecord → List ℤ
  old_ids [] = []
  old_ids (r ∷ rows) = let rest = old_ids rows in if is_old r then r.id ∷ rest else rest

abbrev pub has_id : ℤ → List ℤ → Bool
has_id id ids = any (λ i. eq_ℤ i id) ids

-- In("id", ids).Delete
abbrev pub delete_ids : List ℤ → List RequestRecord → List RequestRecord
delete_ids ids [] = []
delete_ids ids (r ∷ rows) =
    let rest = delete_ids ids rows in if has_id r.id ids then rest else r ∷ rest

-- DeleteBefore, when both statements succeed: the rows left, and the number of those affected
unfoldable pub delete_before : ℕ → List RequestRecord → List RequestRecord × ℕ
delete_before before rows =
    let left = delete_ids (take 1000 (old_ids before rows)) rows in
    (left, length rows - length left)

-- the loop of cleanup, with fuel; the calls for which `fails` holds return an error, and then no
-- row is deleted
unfoldable pub cleanup_loop :
    (ℕ → Bool) → ℕ → ℕ → ℕ → List RequestRecord → ℕ → List RequestRecord × ℕ
cleanup_loop fails before zero call rows total_deleted = (rows, total_deleted)
cleanup_loop fails before (suc fuel) call rows total_deleted =
    let (left, deleted) = delete_before before rows in
    let rest = cleanup_loop fails before fuel (suc call) left (total_deleted + deleted) in
    if fails call
    then (rows, total_deleted)
    else if ltb deleted cleanup_batch_size
    then (left, total_deleted + deleted)
    else rest
