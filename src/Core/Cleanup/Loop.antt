-- ===== src/Core/Cleanup/Loop.antt =====
-- internal/core/cleanup.go: the loop over the batches.
use one_llm_router.Prelude.{
  ℕ, zero, suc, ◌+◌, ◌-◌, ◌*◌, ◌≤◌, ◌<◌, ◌≡◌, refl, ap, ◌∙◌, Bool, false, List, [], ◌∷◌, arith, ltb,
  ltb→lt, min, if◌then◌else◌, if_intro,
}
use one_llm_router.Core.Cleanup.{RequestRecord, cleanup_loop}
use one_llm_router.Core.Cleanup.Batch.{
  HasDistinctIds, drop_old, recent, count_old, drop_old-recent, count_old-drop_old,
  drop_old-HasDistinctIds, delete_before_lem,
}

pair-eq : {A : Type 0} {a b : A} {m n : ℕ} → a ≡ b → m ≡ n → ◌≡◌ {A = A × ℕ} (a, m) (b, n)
pair-eq e f = cc (e, f)

module _ (before : ℕ) where
  recent_all : (rows : List RequestRecord) → count_old before rows ≡ 0 → rows ≡ recent before rows
  recent_all [] h = refl
  recent_all (r ∷ rows) h = ground (arith, recent_all rows)

  module _ (fails : ℕ → Bool) where
    cleanup_step :
        (fuel call : ℕ) (rows : List RequestRecord) (total : ℕ)
        → HasDistinctIds rows
        → cleanup_loop fails before (suc fuel) call rows total ≡ (
            if fails call
            then (rows, total)
            else if ltb (min 1000 (count_old before rows)) 1000
            then (drop_old before 1000 rows, total + min 1000 (count_old before rows))
            else cleanup_loop fails before fuel
                (suc call)
                (drop_old before 1000 rows)
                (total + min 1000 (count_old before rows)))
    unfolding cleanup_loop
    cleanup_step fuel call rows total h =
        ap
          (λ (p : List RequestRecord × ℕ).
            if fails call
            then (rows, total)
            else if ltb p.1 1000
            then (p.0, total + p.1)
            else cleanup_loop fails before fuel (suc call) p.0 (total + p.1))
          (delete_before_lem before rows h)

    -- Whatever calls fail, and however long the loop runs, no row that is not old is deleted, and
    -- their order stays, in a table where no id stands twice.
    pub recent-cleanup_loop :
        (fuel call : ℕ) (rows : List RequestRecord) (total : ℕ)
        → HasDistinctIds rows
        → recent before (cleanup_loop fails before fuel call rows total).0 ≡ recent before rows
    unfolding cleanup_loop
    recent-cleanup_loop zero call rows total h = refl
    recent-cleanup_loop (suc fuel) call rows total h =
        ap (λ (p : List RequestRecord × ℕ). recent before p.0) (cleanup_step fuel call rows total h)
        ∙ if_intro (λ (p : List RequestRecord × ℕ). recent before p.0 ≡ recent before rows)
            (fails call) (λ t. refl)
            (λ f.
              if_intro (λ (p : List RequestRecord × ℕ). recent before p.0 ≡ recent before rows)
                (ltb (min 1000 (count_old before rows)) 1000)
                (λ t. drop_old-recent before 1000 rows)
                (λ g.
                  recent-cleanup_loop fuel (suc call) (drop_old before 1000 rows) _
                    (drop_old-HasDistinctIds before 1000 rows h)
                  ∙ drop_old-recent before 1000 rows))

    -- With one more round than the old rows fill batches, and no call that fails, the loop ends with
    -- the rows that are not old, and has counted the old ones, in a table where no id stands twice.
    pub cleanup_loop_lem :
        (fuel call : ℕ) (rows : List RequestRecord) (total : ℕ)
        → HasDistinctIds rows
        → ((n : ℕ) → fails n ≡ false)
        → count_old before rows < fuel * 1000
        → cleanup_loop fails before fuel call rows total
          ≡ (recent before rows, total + count_old before rows)
    cleanup_loop_lem zero call rows total h works enough = absurd (omega arith)
    cleanup_loop_lem (suc fuel) call rows total h works enough =
        cleanup_step fuel call rows total h
        ∙ ap (λ b. if b then (rows, total) else next) (works call)
        ∙ if_intro
            (λ (p : List RequestRecord × ℕ).
              p ≡ (recent before rows, total + count_old before rows))
            (ltb (min 1000 (count_old before rows)) 1000)
            (λ t.
              pair-eq (last_batch (ltb→lt _ _ t))
                (omega (arith, ltb→lt (min 1000 (count_old before rows)) 1000 t)))
            (λ g.
              cleanup_loop_lem fuel (suc call) (drop_old before 1000 rows)
                (total + min 1000 (count_old before rows))
                (drop_old-HasDistinctIds before 1000 rows h) works (omega (arith, left, full g))
              ∙ pair-eq (drop_old-recent before 1000 rows) (omega (arith, left, full g)))
      where
        left : count_old before (drop_old before 1000 rows) ≡ count_old before rows - 1000
        left = count_old-drop_old before 1000 rows

        next : List RequestRecord × ℕ
        next =
            if ltb (min 1000 (count_old before rows)) 1000
            then (drop_old before 1000 rows, total + min 1000 (count_old before rows))
            else cleanup_loop fails before fuel (suc call) (drop_old before 1000 rows)
                (total + min 1000 (count_old before rows))

        full : ltb (min 1000 (count_old before rows)) 1000 ≡ false → 1000 ≤ count_old before rows
        full g = ground (arith, g)

        last_batch :
            min 1000 (count_old before rows) < 1000 → drop_old before 1000 rows ≡ recent before rows
        last_batch few =
            recent_all (drop_old before 1000 rows) (omega (arith, left, few))
            ∙ drop_old-recent before 1000 rows
