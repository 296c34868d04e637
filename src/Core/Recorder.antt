-- ===== src/Core/Recorder.antt =====
-- internal/core/request_recorder.go: the asynchronous recorder, as the steps that its goroutines take.
-- A call of Record takes the read lock and reads `closed` (`enter`), tries to send and releases the
-- lock (`send`), and may insert by itself (`insert_now`). The worker receives and inserts. Close
-- takes its four steps under closeOnce. An order of events is an interleaving of the goroutines.
pub mod Stages
pub mod Invariant
pub mod Conservation
pub mod Drain
use one_llm_router.Prelude.{
  ℕ, zero, suc, Bool, true, false, not, Option, none, some, List, [], ◌∷◌, ◌++◌, arith, ltb, length,
  get_elem?, if◌then◌else◌,
}

-- recorderBufferSize
abbrev pub recorder_buffer_size : ℕ
recorder_buffer_size = 1024

-- Where the function under closeOnce stands: before r.mu.Lock(), before `r.closed = true`, before
-- close(r.ch), before r.mu.Unlock(), or behind it.
pub data Stage : Type 0 where
  before_lock before_mark before_shut before_unlock finished : Stage

pub data Worker (A : Type 0) : Type 0 where
  not_started receiving stopped : Worker A
  inserting : A → Worker A

pub record Recorder (A : Type 0) : Type 0 where
  pub queue : List A
  pub channel_open : Bool
  pub closed : Bool
  pub stage : Stage
  pub worker : Worker A
  -- the records of the calls that hold the read lock and have seen `closed` false
  pub readers : List A
  -- the records of the calls that insert by themselves
  pub syncing : List A
  -- the records that repo.Insert stored, those that it failed to, and those that Record dropped
  pub inserted : List A
  pub failed : List A
  pub dropped : List A

pub data Event (A : Type 0) : Type 0 where
  start receive close : Event A
  -- whether repo.Insert stores the record, or fails, which is only logged
  insert : Bool → Event A
  enter : A → Event A
  send : ℕ → Event A
  insert_now : ℕ → Bool → Event A

-- A step that is taken, one that has to wait, and a panic of the runtime.
pub data Outcome (A : Type 0) : Type 0 where
  next : Recorder A → Outcome A
  waiting panicked : Outcome A

-- NewRequestRecorder
abbrev pub new_request_recorder : {A : Type 0} → Recorder A
new_request_recorder = record {
  queue = [];
  channel_open = true;
  closed = false;
  stage = before_lock;
  worker = not_started;
  readers = [];
  syncing = [];
  inserted = [];
  failed = [];
  dropped = [];
}

-- Close holds the write lock.
abbrev pub write_locked : Stage → Bool
write_locked before_lock = false
write_locked before_mark = true
write_locked before_shut = true
write_locked before_unlock = true
write_locked finished = false

module _ {A : Type 0} where
  abbrev pub is_empty : List A → Bool
  is_empty [] = true
  is_empty (x ∷ xs) = false

  abbrev pub remove_at : List A → ℕ → List A
  remove_at [] i = []
  remove_at (x ∷ xs) zero = xs
  remove_at (x ∷ xs) (suc i) = x ∷ remove_at xs i

  abbrev pub keep_if : Bool → A → List A → List A
  keep_if keep rec records = if keep then rec ∷ records else records

  -- r.mu.RLock() and the test of r.closed
  abbrev pub enter_record : A → Recorder A → Outcome A
  enter_record rec r =
      if write_locked r.stage
      then waiting
      else if r.closed
      then next record r { dropped = rec ∷ r.dropped }
      else next record r { readers = rec ∷ r.readers }

  -- the select of Record: a send, which panics on a closed channel, or the default
  abbrev pub send_record : ℕ → Option A → Recorder A → Outcome A
  send_record i none r = waiting
  send_record i (some rec) r =
      if not r.channel_open
      then panicked
      else if ltb (length r.queue) recorder_buffer_size
      then next record r { readers = remove_at r.readers i; queue = r.queue ++ rec ∷ [] }
      else next record r { readers = remove_at r.readers i; syncing = rec ∷ r.syncing }

  -- insertBounded behind the select
  abbrev pub insert_record : Bool → ℕ → Option A → Recorder A → Outcome A
  insert_record stored i none r = waiting
  insert_record stored i (some rec) r = next record r {
    syncing = remove_at r.syncing i;
    inserted = keep_if stored rec r.inserted;
    failed = keep_if (not stored) rec r.failed;
  }

  -- for rec := range r.ch
  abbrev pub receive_from : List A → Worker A → Recorder A → Outcome A
  receive_from (rec ∷ rest) receiving r = next record r { queue = rest; worker = inserting rec }
  receive_from [] receiving r =
      if r.channel_open then waiting else next record r { worker = stopped }
  receive_from queue not_started r = waiting
  receive_from queue stopped r = waiting
  receive_from queue (inserting rec) r = waiting

  -- insertBounded of the worker
  abbrev pub insert_received : Bool → Worker A → Recorder A → Outcome A
  insert_received stored (inserting rec) r = next record r {
    worker = receiving;
    inserted = keep_if stored rec r.inserted;
    failed = keep_if (not stored) rec r.failed;
  }
  insert_received stored not_started r = waiting
  insert_received stored receiving r = waiting
  insert_received stored stopped r = waiting

  -- Start
  abbrev pub start_worker : Worker A → Recorder A → Outcome A
  start_worker not_started r = next record r { worker = receiving }
  start_worker receiving r = waiting
  start_worker stopped r = waiting
  start_worker (inserting rec) r = waiting

  -- Close, up to wg.Wait
  abbrev pub close_recorder : Stage → Recorder A → Outcome A
  close_recorder before_lock r =
      if is_empty r.readers then next record r { stage = before_mark } else waiting
  close_recorder before_mark r = next record r { closed = true; stage = before_shut }
  close_recorder before_shut r =
      if r.channel_open
      then next record r { channel_open = false; stage = before_unlock }
      else panicked
  close_recorder before_unlock r = next record r { stage = finished }
  close_recorder finished r = next r

  unfoldable pub step : Event A → Recorder A → Outcome A
  step start r = start_worker r.worker r
  step receive r = receive_from r.queue r.worker r
  step (insert stored) r = insert_received stored r.worker r
  step close r = close_recorder r.stage r
  step (enter rec) r = enter_record rec r
  step (send i) r = send_record i (get_elem? r.readers i) r
  step (insert_now i stored) r = insert_record stored i (get_elem? r.syncing i) r

  abbrev pub and_then : Outcome A → (Recorder A → Outcome A) → Outcome A
  and_then (next r) k = k r
  and_then waiting k = waiting
  and_then panicked k = panicked

  -- The steps in the order given; `waiting` if one of them has to wait.
  unfoldable pub run : List (Event A) → Recorder A → Outcome A
  run [] r = next r
  run (e ∷ es) r = and_then (step e r) (λ r'. run es r')
