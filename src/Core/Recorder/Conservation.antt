-- ===== src/Core/Recorder/Conservation.antt =====
-- internal/core/request_recorder.go: where the records are.
use one_llm_router.Prelude.{
  ℕ, zero, suc, ◌+◌, ◌≡◌, refl, ap, subst, Bool, true, false, not, Option, none, some, List, [],
  ◌∷◌, ◌++◌, arith, length, get_elem?, if_intro, if◌then◌else◌, ltb,
}
use one_llm_router.Core.Recorder.{
  Stage, Worker, Recorder, Event, Outcome, new_request_recorder, recorder_buffer_size, step, run,
  and_then, is_empty, keep_if, remove_at, write_locked, start_worker, receive_from, insert_received,
  close_recorder, enter_record, send_record, insert_record,
}

module _ {A : Type 0} where
  -- The records that Record was called with, of those events in which a call got the read lock.
  abbrev pub submitted : List (Event A) → List A
  submitted [] = []
  submitted (Event.enter rec ∷ es) = rec ∷ submitted es
  submitted (Event.start ∷ es) = submitted es
  submitted (Event.receive ∷ es) = submitted es
  submitted (Event.insert stored ∷ es) = submitted es
  submitted (Event.close ∷ es) = submitted es
  submitted (Event.send i ∷ es) = submitted es
  submitted (Event.insert_now i stored ∷ es) = submitted es

  module _ (p : A → Bool) where
    abbrev pub hit : A → ℕ
    hit rec = if p rec then 1 else 0

    -- How many records pass the test.
    abbrev pub count : List A → ℕ
    count [] = 0
    count (x ∷ xs) = hit x + count xs

    abbrev pub held : Worker A → ℕ
    held (Worker.inserting rec) = hit rec
    held Worker.not_started = 0
    held Worker.receiving = 0
    held Worker.stopped = 0

    -- The records of a recorder, wherever they are.
    abbrev pub total : Recorder A → ℕ
    total r =
        count r.inserted
        + count r.failed
        + count r.dropped
        + count r.queue
        + count r.readers
        + count r.syncing
        + held r.worker

    count-append : (xs ys : List A) → count (xs ++ ys) ≡ count xs + count ys
    count-append [] ys = omega arith
    count-append (x ∷ xs) ys = omega (arith, count-append xs ys)

    count-remove_at :
        (xs : List A) (i : ℕ) (rec : A)
        → get_elem? xs i ≡ some rec
        → count xs ≡ hit rec + count (remove_at xs i)
    count-remove_at [] i rec h = ground arith
    count-remove_at (x ∷ xs) zero rec h = ground arith
    count-remove_at (x ∷ xs) (suc i) rec h = omega (arith, count-remove_at xs i rec h)

    HasTotal : ℕ → Outcome A → Type 0
    HasTotal n (Outcome.next r) = total r ≡ n
    HasTotal n Outcome.waiting = Unit
    HasTotal n Outcome.panicked = Unit

    start_worker-total :
        (w : Worker A) (r : Recorder A) → r.worker ≡ w → HasTotal (total r) (start_worker w r)
    unfolding HasTotal
    start_worker-total Worker.not_started r e = omega (arith, ap held e)
    start_worker-total Worker.receiving r e = tt
    start_worker-total Worker.stopped r e = tt
    start_worker-total (Worker.inserting rec) r e = tt

    receive_from-total :
        (queue : List A) (w : Worker A) (r : Recorder A)
        → r.queue ≡ queue
        → r.worker ≡ w
        → HasTotal (total r) (receive_from queue w r)
    unfolding HasTotal
    receive_from-total (rec ∷ rest) Worker.receiving r q e = omega (arith, ap count q, ap held e)
    receive_from-total [] Worker.receiving r q e =
        if_intro (HasTotal (total r)) r.channel_open (λ t. tt) (λ f. omega (arith, ap held e))
    receive_from-total [] Worker.not_started r q e = tt
    receive_from-total (x ∷ xs) Worker.not_started r q e = tt
    receive_from-total [] Worker.stopped r q e = tt
    receive_from-total (x ∷ xs) Worker.stopped r q e = tt
    receive_from-total [] (Worker.inserting rec) r q e = tt
    receive_from-total (x ∷ xs) (Worker.inserting rec) r q e = tt

    -- An insert puts its record with those stored or with those lost.
    insert-total :
        (stored : Bool) (rec : A) (inserted failed : List A)
        → count (keep_if stored rec inserted) + count (keep_if (not stored) rec failed)
          ≡ hit rec + count inserted + count failed
    insert-total true rec inserted failed = omega arith
    insert-total false rec inserted failed = omega arith

    insert_received-total :
        (stored : Bool) (w : Worker A) (r : Recorder A)
        → r.worker ≡ w
        → HasTotal (total r) (insert_received stored w r)
    unfolding HasTotal
    insert_received-total stored (Worker.inserting rec) r e =
        omega (arith, ap held e, insert-total stored rec r.inserted r.failed)
    insert_received-total stored Worker.not_started r e = tt
    insert_received-total stored Worker.receiving r e = tt
    insert_received-total stored Worker.stopped r e = tt

    close_recorder-total :
        (stage : Stage) (r : Recorder A) → HasTotal (total r) (close_recorder stage r)
    unfolding HasTotal
    close_recorder-total Stage.before_lock r =
        if_intro (HasTotal (total r)) (is_empty r.readers) (λ t. refl) (λ f. tt)
    close_recorder-total Stage.before_mark r = refl
    close_recorder-total Stage.before_shut r =
        if_intro (HasTotal (total r)) r.channel_open (λ t. refl) (λ f. tt)
    close_recorder-total Stage.before_unlock r = refl
    close_recorder-total Stage.finished r = refl

    enter_record-total :
        (rec : A) (r : Recorder A) → HasTotal (hit rec + total r) (enter_record rec r)
    unfolding HasTotal
    enter_record-total rec r =
        if_intro (HasTotal (hit rec + total r)) (write_locked r.stage) (λ t. tt)
          (λ f.
            if_intro (HasTotal (hit rec + total r)) r.closed (λ t. omega arith) (λ g. omega arith))

    send_record-total :
        (i : ℕ) (o : Option A) (r : Recorder A)
        → get_elem? r.readers i ≡ o
        → HasTotal (total r) (send_record i o r)
    unfolding HasTotal
    send_record-total i none r e = tt
    send_record-total i (some rec) r e =
        let moved = count-remove_at r.readers i rec e in
        if_intro (HasTotal (total r)) (not r.channel_open) (λ t. tt)
          (λ f.
            if_intro (HasTotal (total r)) (ltb (length r.queue) recorder_buffer_size)
              (λ room. omega (arith, moved, count-append r.queue (rec ∷ [])))
              (λ full. omega (arith, moved)))

    insert_record-total :
        (stored : Bool) (i : ℕ) (o : Option A) (r : Recorder A)
        → get_elem? r.syncing i ≡ o
        → HasTotal (total r) (insert_record stored i o r)
    unfolding HasTotal
    insert_record-total stored i none r e = tt
    insert_record-total stored i (some rec) r e =
        omega
          (arith, count-remove_at r.syncing i rec e, insert-total stored rec r.inserted r.failed)

    and_then-total :
        (o : Outcome A) (k : Recorder A → Outcome A) (m n : ℕ)
        → HasTotal m o
        → ((r : Recorder A) → total r ≡ m → HasTotal n (k r))
        → HasTotal n (and_then o k)
    unfolding HasTotal
    and_then-total (Outcome.next r) k m n h f = f r h
    and_then-total Outcome.waiting k m n h f = tt
    and_then-total Outcome.panicked k m n h f = tt

    -- The rest of an order is run from a total that the first step led to.
    run-total :
        (events : List (Event A)) (r : Recorder A) (n : ℕ)
        → total r + count (submitted events) ≡ n
        → HasTotal n (run events r)
    unfolding run step HasTotal
    run-total [] r n h = omega (arith, h)
    run-total (Event.start ∷ es) r n h =
        and_then-total _ _ (total r) n (start_worker-total r.worker r refl)
          (λ r' h'. run-total es r' n (omega (arith, h, h')))
    run-total (Event.receive ∷ es) r n h =
        and_then-total _ _ (total r) n (receive_from-total r.queue r.worker r refl refl)
          (λ r' h'. run-total es r' n (omega (arith, h, h')))
    run-total (Event.insert stored ∷ es) r n h =
        and_then-total _ _ (total r) n (insert_received-total stored r.worker r refl)
          (λ r' h'. run-total es r' n (omega (arith, h, h')))
    run-total (Event.close ∷ es) r n h =
        and_then-total _ _ (total r) n (close_recorder-total r.stage r)
          (λ r' h'. run-total es r' n (omega (arith, h, h')))
    run-total (Event.enter rec ∷ es) r n h =
        and_then-total _ _ (hit rec + total r) n (enter_record-total rec r)
          (λ r' h'. run-total es r' n (omega (arith, h, h')))
    run-total (Event.send i ∷ es) r n h =
        and_then-total _ _ (total r) n (send_record-total i _ r refl)
          (λ r' h'. run-total es r' n (omega (arith, h, h')))
    run-total (Event.insert_now i stored ∷ es) r n h =
        and_then-total _ _ (total r) n (insert_record-total stored i _ r refl)
          (λ r' h'. run-total es r' n (omega (arith, h, h')))

    -- Of the records that pass a test, as many were submitted as are now in the channel, with the
    -- worker, with a call of Record, inserted, dropped, or passed to an insert that failed: none is
    -- lost in another way, and none is doubled.
    pub conserved :
        (events : List (Event A)) (r : Recorder A)
        → run events new_request_recorder ≡ Outcome.next r
        → total r ≡ count (submitted events)
    unfolding HasTotal
    conserved events r h =
        subst (HasTotal (count (submitted events))) {x = run events new_request_recorder} h
          (run-total events new_request_recorder _ (omega arith))
