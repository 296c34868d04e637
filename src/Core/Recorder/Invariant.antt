-- ===== src/Core/Recorder/Invariant.antt =====
-- internal/core/request_recorder.go: what holds in every state of the recorder.
use one_llm_router.Prelude.{
  ℕ, ◌≤◌, ◌≡◌, ◌≢◌, refl, Bool, true, false, not, Option, none, some, List, [], ◌∷◌, arith, ap, ◌∙◌,
  sym, ltb, ltb→lt, Bool-cases, subst, inl, inr, if_intro, length, get_elem?, length-append,
}
use one_llm_router.Core.Recorder.{
  Stage, Worker, Recorder, Event, Outcome, new_request_recorder, recorder_buffer_size, step, run,
  start_worker, receive_from, insert_received, close_recorder, enter_record, send_record,
  insert_record, is_empty, and_then, write_locked,
}
use one_llm_router.Core.Recorder.Stages.{
  begun, marked, shut, is_stopped, open_again, begun-shut, unlocked-begun,
}

module _ {A : Type 0} where
  pub record IsSound (r : Recorder A) : Type 0 where
    pub alone : begun r.stage ≡ true → r.readers ≡ []
    pub closed_at : r.closed ≡ marked r.stage
    pub open_at : r.channel_open ≡ not (shut r.stage)
    pub bounded : length r.queue ≤ recorder_buffer_size
    pub drained : is_stopped r.worker ≡ true → r.queue ≡ [] × r.channel_open ≡ false
    pub kept : r.closed ≡ false → r.dropped ≡ []

  -- What a step leads to is sound, and it is not a panic.
  pub Keeps : Outcome A → Type 0
  Keeps (Outcome.next r) = IsSound r
  Keeps Outcome.waiting = Unit
  Keeps Outcome.panicked = ⊥

  pub new-IsSound : IsSound (new_request_recorder {A = A})
  new-IsSound = record {
    alone = λ h. refl;
    closed_at = refl;
    open_at = refl;
    bounded = omega arith;
    drained = λ h. ground arith;
    kept = λ h. refl;
  }

  is_empty-eq : (xs : List A) → is_empty xs ≡ true → xs ≡ []
  is_empty-eq [] t = refl
  is_empty-eq (x ∷ xs) t = ground arith

  nobody : {P : Type 0} (xs : List A) (i : ℕ) {rec : A} → xs ≡ [] → get_elem? xs i ≡ some rec → P
  nobody [] i h g = ground arith
  nobody (x ∷ xs) i h g = ground arith

  -- While a call is about to send, Close waits for the lock.
  reader-begun :
      (r : Recorder A) (i : ℕ) {rec : A}
      → get_elem? r.readers i ≡ some rec
      → IsSound r
      → begun r.stage ≡ false
  reader-begun r i e s = elim (Bool-cases (begun r.stage)) [
    | inl t ↦ nobody r.readers i (s.alone t) e
    | inr f ↦ f
  ]

  start_worker-Keeps :
      (w : Worker A) (r : Recorder A) → r.worker ≡ w → IsSound r → Keeps (start_worker w r)
  unfolding Keeps
  start_worker-Keeps Worker.not_started r e s = record {
    alone = s.alone;
    closed_at = s.closed_at;
    open_at = s.open_at;
    bounded = s.bounded;
    drained = λ h. ground arith;
    kept = s.kept;
  }
  start_worker-Keeps Worker.receiving r e s = tt
  start_worker-Keeps Worker.stopped r e s = tt
  start_worker-Keeps (Worker.inserting rec) r e s = tt

  receive_from-Keeps :
      (queue : List A) (w : Worker A) (r : Recorder A)
      → r.queue ≡ queue
      → r.worker ≡ w
      → IsSound r
      → Keeps (receive_from queue w r)
  unfolding Keeps
  receive_from-Keeps (rec ∷ rest) Worker.receiving r q e s = record {
    alone = s.alone;
    closed_at = s.closed_at;
    open_at = s.open_at;
    bounded = omega (arith, s.bounded, ap length q);
    drained = λ h. ground arith;
    kept = s.kept;
  }
  receive_from-Keeps [] Worker.receiving r q e s =
      if_intro Keeps r.channel_open (λ t. tt)
        (λ f. record {
          alone = s.alone;
          closed_at = s.closed_at;
          open_at = s.open_at;
          bounded = s.bounded;
          drained = λ h. (q, f);
          kept = s.kept;
        })
  receive_from-Keeps [] Worker.not_started r q e s = tt
  receive_from-Keeps (x ∷ xs) Worker.not_started r q e s = tt
  receive_from-Keeps [] Worker.stopped r q e s = tt
  receive_from-Keeps (x ∷ xs) Worker.stopped r q e s = tt
  receive_from-Keeps [] (Worker.inserting rec) r q e s = tt
  receive_from-Keeps (x ∷ xs) (Worker.inserting rec) r q e s = tt

  insert_received-Keeps :
      (stored : Bool) (w : Worker A) (r : Recorder A)
      → r.worker ≡ w
      → IsSound r
      → Keeps (insert_received stored w r)
  unfolding Keeps
  insert_received-Keeps stored (Worker.inserting rec) r e s = record {
    alone = s.alone;
    closed_at = s.closed_at;
    open_at = s.open_at;
    bounded = s.bounded;
    drained = λ h. ground arith;
    kept = s.kept;
  }
  insert_received-Keeps stored Worker.not_started r e s = tt
  insert_received-Keeps stored Worker.receiving r e s = tt
  insert_received-Keeps stored Worker.stopped r e s = tt

  close_recorder-Keeps :
      (stage : Stage) (r : Recorder A)
      → r.stage ≡ stage
      → IsSound r
      → Keeps (close_recorder stage r)
  unfolding Keeps
  close_recorder-Keeps Stage.before_lock r e s =
      if_intro Keeps (is_empty r.readers)
        (λ t. record {
          alone = λ h. is_empty-eq r.readers t;
          closed_at = s.closed_at ∙ ap marked e;
          open_at = s.open_at ∙ ap (λ x. not (shut x)) e;
          bounded = s.bounded;
          drained = s.drained;
          kept = s.kept;
        })
        (λ f. tt)
  close_recorder-Keeps Stage.before_mark r e s = record {
    alone = λ h. s.alone (ap begun e);
    closed_at = refl;
    open_at = s.open_at ∙ ap (λ x. not (shut x)) e;
    bounded = s.bounded;
    drained = s.drained;
    kept = λ h. ground arith;
  }
  close_recorder-Keeps Stage.before_shut r e s =
      if_intro Keeps r.channel_open
        (λ t. record {
          alone = λ h. s.alone (ap begun e);
          closed_at = s.closed_at ∙ ap marked e;
          open_at = refl;
          bounded = s.bounded;
          drained = λ h. let (none_left, f) = s.drained h in (none_left, refl);
          kept = s.kept;
        })
        (λ f. open_again f (s.open_at ∙ ap (λ x. not (shut x)) e))
  close_recorder-Keeps Stage.before_unlock r e s = record {
    alone = λ h. s.alone (ap begun e);
    closed_at = s.closed_at ∙ ap marked e;
    open_at = s.open_at ∙ ap (λ x. not (shut x)) e;
    bounded = s.bounded;
    drained = s.drained;
    kept = s.kept;
  }
  close_recorder-Keeps Stage.finished r e s = s

  enter_record-Keeps : (rec : A) (r : Recorder A) → IsSound r → Keeps (enter_record rec r)
  unfolding Keeps
  enter_record-Keeps rec r s =
      if_intro Keeps (write_locked r.stage) (λ t. tt)
        (λ unlocked.
          if_intro Keeps r.closed
            (λ c. record {
              alone = s.alone;
              closed_at = s.closed_at;
              open_at = s.open_at;
              bounded = s.bounded;
              drained = s.drained;
              kept = λ h. open_again h c;
            })
            (λ c. record {
              alone = λ h. open_again (unlocked-begun r.stage unlocked (sym s.closed_at ∙ c)) h;
              closed_at = s.closed_at;
              open_at = s.open_at;
              bounded = s.bounded;
              drained = s.drained;
              kept = s.kept;
            }))

  send_record-Keeps :
      (i : ℕ) (o : Option A) (r : Recorder A)
      → get_elem? r.readers i ≡ o
      → IsSound r
      → Keeps (send_record i o r)
  unfolding Keeps
  send_record-Keeps i none r e s = tt
  send_record-Keeps i (some rec) r e s =
      let not_begun = reader-begun r i e s in
      let is_open = s.open_at ∙ begun-shut r.stage not_begun in
      if_intro Keeps (not r.channel_open) (λ shut_now. ground arith)
        (λ still_open.
          if_intro Keeps (ltb (length r.queue) recorder_buffer_size)
            (λ room. record {
              alone = λ h. open_again not_begun h;
              closed_at = s.closed_at;
              open_at = s.open_at;
              bounded = omega (arith, ltb→lt _ _ room, length-append r.queue (rec ∷ []));
              drained = λ h. let (none_left, f) = s.drained h in open_again f is_open;
              kept = s.kept;
            })
            (λ full. record {
              alone = λ h. open_again not_begun h;
              closed_at = s.closed_at;
              open_at = s.open_at;
              bounded = s.bounded;
              drained = s.drained;
              kept = s.kept;
            }))

  insert_record-Keeps :
      (stored : Bool) (i : ℕ) (o : Option A) (r : Recorder A)
      → IsSound r
      → Keeps (insert_record stored i o r)
  unfolding Keeps
  insert_record-Keeps stored i none r s = tt
  insert_record-Keeps stored i (some rec) r s = record {
    alone = s.alone;
    closed_at = s.closed_at;
    open_at = s.open_at;
    bounded = s.bounded;
    drained = s.drained;
    kept = s.kept;
  }

  step-Keeps : (e : Event A) (r : Recorder A) → IsSound r → Keeps (step e r)
  unfolding step
  step-Keeps Event.start r s = start_worker-Keeps r.worker r refl s
  step-Keeps Event.receive r s = receive_from-Keeps r.queue r.worker r refl refl s
  step-Keeps (Event.insert stored) r s = insert_received-Keeps stored r.worker r refl s
  step-Keeps Event.close r s = close_recorder-Keeps r.stage r refl s
  step-Keeps (Event.enter rec) r s = enter_record-Keeps rec r s
  step-Keeps (Event.send i) r s = send_record-Keeps i _ r refl s
  step-Keeps (Event.insert_now i stored) r s = insert_record-Keeps stored i _ r s

  and_then-Keeps :
      (o : Outcome A) (k : Recorder A → Outcome A)
      → Keeps o
      → ((r : Recorder A) → IsSound r → Keeps (k r))
      → Keeps (and_then o k)
  unfolding Keeps
  and_then-Keeps (Outcome.next r) k s f = f r s
  and_then-Keeps Outcome.waiting k s f = tt
  and_then-Keeps Outcome.panicked k s f = s

  -- In every order of the steps of the goroutines, from a new recorder: no step panics (no send on
  -- the closed channel, no second close of it), and the recorder stays sound.
  pub run-Keeps : (events : List (Event A)) (r : Recorder A) → IsSound r → Keeps (run events r)
  unfolding run Keeps
  run-Keeps [] r s = s
  run-Keeps (e ∷ events) r s =
      and_then-Keeps (step e r) (λ r'. run events r') (step-Keeps e r s)
        (λ r' s'. run-Keeps events r' s')

  -- From a new recorder, whatever the order in which calls of Record, the worker and Close take
  -- their steps, none of them panics: there is no send on the closed channel and no second close.
  pub never_panics : (events : List (Event A)) → run events new_request_recorder ≢ Outcome.panicked
  unfolding Keeps
  never_panics events h =
      subst Keeps {x = run events new_request_recorder} h
        (run-Keeps events new_request_recorder new-IsSound)

  pub reachable-IsSound :
      (events : List (Event A)) (r : Recorder A)
      → run events new_request_recorder ≡ Outcome.next r
      → IsSound r
  unfolding Keeps
  reachable-IsSound events r h =
      subst Keeps {x = run events new_request_recorder} h
        (run-Keeps events new_request_recorder new-IsSound)
