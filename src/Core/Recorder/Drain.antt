-- ===== src/Core/Recorder/Drain.antt =====
-- internal/core/request_recorder.go: what Close waits for. The worker empties the channel and ends.
use one_llm_router.Prelude.{
  ◌+◌, ◌≡◌, refl, ap, ◌∙◌, Bool, false, not, ◌&&◌, Bool-cases, inl, inr, List, [], ◌∷◌, arith,
}
use one_llm_router.Core.Recorder.{
  Stage, Worker, Recorder, Event, Outcome, new_request_recorder, step, run, keep_if,
}
use one_llm_router.Core.Recorder.Stages.{begun, shut}
use one_llm_router.Core.Recorder.Invariant.{reachable-IsSound}
use one_llm_router.Core.Recorder.Conservation.{count, hit, held, submitted, conserved}

module _ {A : Type 0} where
  -- The steps of the worker over a channel of this length.
  abbrev pub drain : (A → Bool) → List A → List (Event A)
  drain succeeds [] = Event.receive ∷ []
  drain succeeds (rec ∷ queue) = Event.receive ∷ Event.insert (succeeds rec) ∷ drain succeeds queue

  -- The records of the channel that pass a test, before those of a list.
  abbrev pub keep_all : (A → Bool) → List A → List A → List A
  keep_all test [] records = records
  keep_all test (rec ∷ queue) records = keep_all test queue (keep_if (test rec) rec records)

  drain-run :
      (succeeds : A → Bool) (queue : List A) (r : Recorder A)
      → r.queue ≡ queue
      → r.worker ≡ Worker.receiving
      → r.channel_open ≡ false
      → run (drain succeeds queue) r
        ≡ Outcome.next record r {
          queue = [];
          worker = Worker.stopped;
          inserted = keep_all succeeds queue r.inserted;
          failed = keep_all (λ rec. not (succeeds rec)) queue r.failed;
        }
  unfolding run step
  drain-run succeeds [] r q w f = rw (q, w, f) refl
  drain-run succeeds (rec ∷ queue) r q w f =
      rw (q, w)
        (drain-run succeeds queue
          record r {
            queue = queue;
            worker = Worker.receiving;
            inserted = keep_if (succeeds rec) rec r.inserted;
            failed = keep_if (not (succeeds rec)) rec r.failed;
          }
          refl refl f)

  count-keep_if :
      (p test : A → Bool) (rec : A) (records : List A)
      → count p (keep_if (test rec) rec records) ≡ hit (λ x. p x && test x) rec + count p records
  count-keep_if p test rec records = elim (Bool-cases (test rec)) [
    | inl t ↦ rw t (ground arith)
    | inr f ↦ rw f (ground arith)
  ]

  count-keep_all :
      (p test : A → Bool) (queue records : List A)
      → count p (keep_all test queue records) ≡ count (λ x. p x && test x) queue + count p records
  count-keep_all p test [] records = omega arith
  count-keep_all p test (rec ∷ queue) records = omega (
    arith,
    count-keep_all p test queue (keep_if (test rec) rec records),
    count-keep_if p test rec records,
  )

  -- A record passes a test or does not.
  count-split :
      (p test : A → Bool) (queue : List A)
      → count (λ x. p x && test x) queue + count (λ x. p x && not (test x)) queue ≡ count p queue
  count-split p test [] = refl
  count-split p test (rec ∷ queue) = elim (Bool-cases (test rec)) [
    | inl t ↦ rw t (ground (arith, count-split p test queue))
    | inr f ↦ rw f (ground (arith, count-split p test queue))
  ]

  -- In a state that any order of steps leads to, where Close has let go of the lock, the worker is at
  -- the channel and no call of Record is inserting by itself, and whichever inserts succeed: the worker
  -- can take one step to receive and one to insert for each record of the channel and then ends. Every
  -- record submitted has then been inserted, was dropped, or is lost in an insert that failed; the
  -- records of the channel that are inserted are those whose insert succeeds.
  pub close_drains :
      (events : List (Event A)) (r : Recorder A)
      → run events new_request_recorder ≡ Outcome.next r
      → r.stage ≡ Stage.finished
      → r.worker ≡ Worker.receiving
      → r.syncing ≡ []
      → (succeeds : A → Bool)
      → (r' : Recorder A) × (run (drain succeeds r.queue) r ≡ Outcome.next r')
        × (r'.worker ≡ Worker.stopped)
        × ((p : A → Bool)
            → count p r'.inserted + count p r'.failed + count p r'.dropped
              ≡ count p (submitted events))
        × ((p : A → Bool)
            → count p r'.inserted ≡ count (λ x. p x && succeeds x) r.queue + count p r.inserted)
  close_drains events r h stage w s succeeds =
      let sound = reachable-IsSound events r h in
      let nobody = sound.alone (ap begun stage) in
      (
        record r {
          queue = [];
          worker = Worker.stopped;
          inserted = keep_all succeeds r.queue r.inserted;
          failed = keep_all (λ rec. not (succeeds rec)) r.queue r.failed;
        },
        drain-run succeeds r.queue r refl w (sound.open_at ∙ ap (λ x. not (shut x)) stage),
        refl,
        λ p. omega (
          arith,
          conserved p events r h,
          count-keep_all p succeeds r.queue r.inserted,
          count-keep_all p (λ rec. not (succeeds rec)) r.queue r.failed,
          count-split p succeeds r.queue,
          ap (held p) w,
          ap (count p) s,
          ap (count p) nobody,
        ),
        λ p. count-keep_all p succeeds r.queue r.inserted,
      )
