-- ===== src/Core/Recorder/Stages.antt =====
-- internal/core/request_recorder.go: how far Close has come.
use one_llm_router.Prelude.{◌≡◌, refl, Bool, true, false, not, arith, sym}
use one_llm_router.Core.Recorder.{Stage, Worker, write_locked}

-- Close has the lock, or had it.
abbrev pub begun : Stage → Bool
begun Stage.before_lock = false
begun Stage.before_mark = true
begun Stage.before_shut = true
begun Stage.before_unlock = true
begun Stage.finished = true

abbrev pub marked : Stage → Bool
marked Stage.before_lock = false
marked Stage.before_mark = false
marked Stage.before_shut = true
marked Stage.before_unlock = true
marked Stage.finished = true

abbrev pub shut : Stage → Bool
shut Stage.before_lock = false
shut Stage.before_mark = false
shut Stage.before_shut = false
shut Stage.before_unlock = true
shut Stage.finished = true

abbrev pub is_stopped : {A : Type 0} → Worker A → Bool
is_stopped Worker.not_started = false
is_stopped Worker.receiving = false
is_stopped Worker.stopped = true
is_stopped (Worker.inserting rec) = false

pub open_again : {P : Type 0} {b : Bool} → b ≡ false → b ≡ true → P
open_again f t = ground arith

pub begun-shut : (stage : Stage) → begun stage ≡ false → not (shut stage) ≡ true
begun-shut Stage.before_lock h = refl
begun-shut Stage.before_mark h = refl
begun-shut Stage.before_shut h = refl
begun-shut Stage.before_unlock h = sym h
begun-shut Stage.finished h = sym h

-- The write lock is free and `closed` is not set: Close has not begun.
pub unlocked-begun :
    (stage : Stage) → write_locked stage ≡ false → marked stage ≡ false → begun stage ≡ false
unlocked-begun Stage.before_lock f g = refl
unlocked-begun Stage.before_mark f g = f
unlocked-begun Stage.before_shut f g = f
unlocked-begun Stage.before_unlock f g = f
unlocked-begun Stage.finished f g = g
