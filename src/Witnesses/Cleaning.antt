-- ===== src/Witnesses/Cleaning.antt =====
-- A table with two old rows and one recent row.
use one_llm_router.Prelude.{ℕ, ◌≡◌, ◌+◌, ◌<◌, ◌*◌, refl, Bool, false, List, [], ◌∷◌, arith}
use one_llm_router.Prelude.Int.{pos}
use one_llm_router.Core.Cleanup.{RequestRecord, cleanup_loop}
use one_llm_router.Core.Cleanup.Batch.{HasDistinctIds, recent, count_old}
use one_llm_router.Core.Cleanup.Loop.{recent-cleanup_loop, cleanup_loop_lem}

abbrev never_fails : ℕ → Bool
never_fails n = false

abbrev table : List RequestRecord
table =
    record { id = pos 1; created_at = 5 }
    ∷ record { id = pos 2; created_at = 50 }
    ∷ record { id = pos 3; created_at = 7 }
    ∷ []

table-HasDistinctIds : HasDistinctIds table
table-HasDistinctIds = (refl, (refl, (refl, tt)))

recent-cleanup_loop_example :
    recent 10 (cleanup_loop never_fails 10 1 0 table 0).0 ≡ recent 10 table
recent-cleanup_loop_example = recent-cleanup_loop 10 never_fails 1 0 table 0 table-HasDistinctIds

table_fits : count_old 10 table < 1 * 1000
table_fits = omega arith

cleanup_loop_lem_example :
    cleanup_loop never_fails 10 1 0 table 0 ≡ (recent 10 table, 0 + count_old 10 table)
cleanup_loop_lem_example =
    cleanup_loop_lem 10 never_fails 1 0 table 0 table-HasDistinctIds (λ n. refl) table_fits
