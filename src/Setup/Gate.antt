-- ===== src/Setup/Gate.antt =====
-- internal/setup/state.go and internal/setup/gate.go: the latch.
pub mod Latch
use one_llm_router.Prelude.{
  String, Bool, true, false, not, ◌||◌, Option, none, some, List, [], ◌∷◌, str_eq, if◌then◌else◌,
}
use one_llm_router.Prelude.Result.{Result, ok, err}

-- What os.Stat finds at the path of config.json.
pub data Stat : Type 0 where
  regular_file directory not_exist : Stat
  unreadable : String → Stat

pub data StateError : Type 0 where
  empty_path is_directory : StateError
  stat_failed : String → StateError

abbrev pub is_done_at : Stat → Result StateError Bool
is_done_at regular_file = ok true
is_done_at directory = err is_directory
is_done_at not_exist = ok false
is_done_at (unreadable e) = err (stat_failed e)

-- StateReader.IsDone, given what os.Stat answers
unfoldable pub is_done : String → Stat → Result StateError Bool
is_done path stat = if str_eq path "" then err empty_path else is_done_at stat

pub record Gate : Type 0 where
  pub config_path : String
  pub done : Bool
  pub observer_disabled : Bool

-- NewGate
abbrev pub new_gate : String → Gate
new_gate path = record { config_path = path; done = false; observer_disabled = false }

abbrev pub observe : Result StateError Bool → Gate → Result StateError Bool × Gate
observe (err e) g = (err e, g)
observe (ok true) g = (ok true, record g { done = true })
observe (ok false) g = (ok false, g)

-- probe, which ProbeState, IsOpen and isDone call; an error stands for (false, err)
unfoldable pub probe : Gate → Stat → Result StateError Bool × Gate
unfolding is_done
probe g stat =
    if g.done
    then (ok true, g)
    else if g.observer_disabled
    then (ok false, g)
    else observe (is_done g.config_path stat) g

abbrev pub opened : Result StateError Bool → Bool
opened (ok b) = b
opened (err e) = false

-- MarkOpen
abbrev pub mark_open : Gate → Gate
mark_open g = record g { done = true }

-- DisableFilesystemObserver
abbrev pub disable_filesystem_observer : Gate → Gate
disable_filesystem_observer g = record g { observer_disabled = true }

-- What is called on a gate; a probe comes with what it would find on disk.
pub data Call : Type 0 where
  marks disables : Call
  probes : Stat → Call

abbrev pub after_call : Call → Gate → Gate
after_call marks g = mark_open g
after_call disables g = disable_filesystem_observer g
after_call (probes stat) g = (probe g stat).1

abbrev pub after_calls : List Call → Gate → Gate
after_calls [] g = g
after_calls (c ∷ cs) g = after_calls cs (after_call c g)
