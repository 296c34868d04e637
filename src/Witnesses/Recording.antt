-- ===== src/Witnesses/Recording.antt =====
-- An order of steps: two records, of which the second is lost in an insert that fails, the worker between them, Close, and the worker again.
use one_llm_router.Prelude.{ℕ, ◌≡◌, ◌≢◌, ◌+◌, ◌==◌, ◌&&◌, Bool, refl, List, [], ◌∷◌}
use one_llm_router.Core.Recorder.{
  Worker, Stage, Recorder, Event, Outcome, new_request_recorder, step, run,
}
use one_llm_router.Core.Recorder.Invariant.{never_panics}
use one_llm_router.Core.Recorder.Conservation.{count, total, submitted, conserved}
use one_llm_router.Core.Recorder.Drain.{drain, close_drains}

abbrev shutdown : List (Event ℕ)
shutdown =
    Event.start
    ∷ Event.enter 7
    ∷ Event.send 0
    ∷ Event.enter 8
    ∷ Event.send 0
    ∷ Event.receive
    ∷ Event.insert Bool.true
    ∷ Event.close
    ∷ Event.close
    ∷ Event.close
    ∷ Event.close
    ∷ Event.enter 9
    ∷ []

abbrev closing : Recorder ℕ
closing = record {
  queue = 8 ∷ [];
  channel_open = Bool.false;
  closed = Bool.true;
  stage = Stage.finished;
  worker = Worker.receiving;
  readers = [];
  syncing = [];
  inserted = 7 ∷ [];
  failed = [];
  dropped = 9 ∷ [];
}

shutdown-run : run shutdown new_request_recorder ≡ Outcome.next closing
unfolding run step
shutdown-run = refl

never_panics_example : run shutdown new_request_recorder ≢ Outcome.panicked
never_panics_example = never_panics shutdown

conserved_example : total (λ n. n == 8) closing ≡ count (λ n. n == 8) (submitted shutdown)
conserved_example = conserved (λ n. n == 8) shutdown closing shutdown-run

close_drains_example :
    (r' : Recorder ℕ) × (run (drain (λ n. n == 9) closing.queue) closing ≡ Outcome.next r')
    × (r'.worker ≡ Worker.stopped)
    × ((p : ℕ → Bool)
        → count p r'.inserted + count p r'.failed + count p r'.dropped
          ≡ count p (submitted shutdown))
    × ((p : ℕ → Bool)
        → count p r'.inserted ≡ count (λ n. p n && (n == 9)) (8 ∷ []) + count p (7 ∷ []))
close_drains_example = close_drains shutdown closing shutdown-run refl refl refl (λ n. n == 9)
