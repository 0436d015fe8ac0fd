-- ===== src/Scheduler/CRoutine.antt =====
-- cyber/croutine/croutine.h and croutine.cc, `class CRoutine`: the state of a coroutine. The switch of
-- stacks is left out; what a routine does while it runs is its state when it comes back. Names are numbers
-- here: they are only compared and hashed.
use cyberrt_on_rpi.Base.{Option, none, ℕ, Bool, true, false, not, ◌&&◌, ltb, if◌then◌else◌, ◌+◌}

pub data RoutineState : Type 0 where
  ready : RoutineState
  finished : RoutineState
  sleep : RoutineState
  io_wait : RoutineState
  data_wait : RoutineState

abbrev pub is_ready : RoutineState → Bool
is_ready ready = true
is_ready _ = false

abbrev pub is_sleep : RoutineState → Bool
is_sleep sleep = true
is_sleep _ = false

abbrev pub is_waiting : RoutineState → Bool
is_waiting data_wait = true
is_waiting io_wait = true
is_waiting _ = false

-- `lock` and `updated` are the atomic flags, true where they are set.
pub record CRoutine : Type 0 where
  pub id : ℕ
  pub priority : ℕ
  pub state : RoutineState
  pub lock : Bool
  pub updated : Bool
  pub wake_time : ℕ
  pub force_stop : Bool
  -- The number of the processor that it is bound to; none stands for -1.
  pub processor_id : Option ℕ
  pub name : ℕ
  pub group_name : ℕ

unfoldable pub init_routine : ℕ → ℕ → CRoutine
init_routine id priority = record {
  id = id;
  priority = priority;
  state = ready;
  lock = false;
  updated = true;
  wake_time = 0;
  force_stop = false;
  processor_id = none;
  name = 0;
  group_name = 0;
}

unfoldable pub acquire : CRoutine → CRoutine × Bool
acquire cr = (record cr { lock = true }, not cr.lock)

unfoldable pub release : CRoutine → CRoutine
release cr = record cr { lock = false }

unfoldable pub set_update_flag : CRoutine → CRoutine
set_update_flag cr = record cr { updated = false }

unfoldable pub stop : CRoutine → CRoutine
stop cr = record cr { force_stop = true }

unfoldable pub wake : CRoutine → CRoutine
wake cr = record cr { state = ready }

unfoldable pub hang_up : CRoutine → CRoutine
hang_up cr = record cr { state = data_wait }

unfoldable pub sleep_for : ℕ → ℕ → CRoutine → CRoutine
sleep_for now sleep_duration cr = record cr { wake_time = now + sleep_duration; state = sleep }

-- `now` is the time that the clock shows.
unfoldable pub update_state : ℕ → CRoutine → CRoutine
update_state now cr =
    if is_sleep cr.state && ltb cr.wake_time now
    then record cr { state = ready }
    else if not cr.updated && is_waiting cr.state
    then record cr { updated = true; state = ready }
    else record cr { updated = true }

-- `run` is what the routine does until it yields.
unfoldable pub resume : (CRoutine → CRoutine) → CRoutine → CRoutine
resume run cr =
    if cr.force_stop
    then record cr { state = finished }
    else if not (is_ready cr.state)
    then cr
    else run cr
