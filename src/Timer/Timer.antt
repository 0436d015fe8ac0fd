-- ===== src/Timer/Timer.antt =====
-- cyber/timer/timer.{h,cc}: `class Timer`, which puts its task on the wheel and takes it off, and the
-- callback of a repeating timer, which sets the time to the next start and adds its task again.
pub mod Starting
pub mod Stopping
pub mod Waiting
pub mod Repeating
use cyberrt_on_rpi.Base.{
  ℕ, zero, suc, ◌+◌, ◌-◌, ◌*◌, ◌/◌, ◌%◌, ◌^◌, Bool, true, false, Option, none, some, leb, ltb, ◌==◌,
  if◌then◌else◌, update, sub64, not, ◌&&◌,
}
use cyberrt_on_rpi.Base.Int.{ℤ, pos, negsuc, leb_ℤ, ◌-ℤ◌, signed64, pattern64}
use cyberrt_on_rpi.Timer.Wheel.{TimingWheel, TimerTask, add_task, timer_max_interval_ms}

-- The callback is known by the task's address.
pub record TimerOption : Type 0 where
  pub period : ℕ
  pub oneshot : Bool

-- `task` is the address of the object that `task_` owns.
pub record Timer : Type 0 where
  pub timer_id : ℕ
  pub timer_opt : TimerOption
  pub task : Option ℕ
  pub started : Bool

-- `holders` counts the callbacks of the task at an address that run, and hold a shared pointer to it. (The
-- pointer that `Tick` holds while it copies the callback is gone at the end of its step.)
pub record World : Type 0 where
  pub timer : Timer
  pub wheel : TimingWheel
  pub holders : ℕ → ℕ

unfoldable pub set_timer_option : TimerOption → Timer → Timer
set_timer_option opt timer = record timer { timer_opt = opt }

-- `task_.reset()`: the object dies, unless a callback of it runs.
unfoldable pub release : (ℕ → ℕ) → Option ℕ → (ℕ → Option TimerTask) → ℕ → Option TimerTask
release holders none tasks = tasks
release holders (some old) tasks = if holders old == 0 then update tasks old none else tasks

-- `new TimerTask(timer_id_)` with its two durations set
abbrev pub new_task : Timer → TimerTask
new_task timer = record {
  timer_id = timer.timer_id;
  interval_ms = timer.timer_opt.period;
  remainder_interval_ms = 0;
  next_fire_duration_ms = timer.timer_opt.period;
  accumulated_error_ns = 0;
  last_execute_time_ns = 0;
}

-- `fresh` is the address that `new` returns.
unfoldable pub init_timer_task : ℕ → World → World × Bool
unfolding release
init_timer_task fresh s =
    if s.timer.timer_opt.period == 0
    then (s, false)
    else if leb timer_max_interval_ms s.timer.timer_opt.period
    then (s, false)
    else (
      record s {
        timer = record s.timer { task = some fresh };
        wheel = record s.wheel {
          tasks =
              update (release s.holders s.timer.task s.wheel.tasks) fresh (some (new_task s.timer));
        };
      },
      true,
    )

-- `if (InitTimerTask()) timing_wheel_->AddTask(task_);`
unfoldable pub add_if : ℕ → World × Bool → World
add_if fresh (s, true) = record s { wheel = add_task fresh s.wheel }
add_if fresh (s, false) = s

-- `reality` is `GlobalData::IsRealityMode()`.
unfoldable pub start : Bool → ℕ → World → World
unfolding init_timer_task add_if
start reality fresh s =
    if reality
    then if s.timer.started
      then s
      else add_if fresh
          (init_timer_task fresh (record s { timer = record s.timer { started = true } }))
    else s

unfoldable pub stop : World → World
unfolding release
stop s =
    if s.timer.started
    then record s {
      timer = record s.timer { started = false; task = none };
      wheel = record s.wheel { tasks = release s.holders s.timer.task s.wheel.tasks };
    }
    else s

-- `llround(ns / 1000000.0)`: to the nearest millisecond, halves away from zero. The division is taken
-- to be exact.
unfoldable pub round_ms : ℕ → ℕ
round_ms ns = (ns + 500000) / 1000000

unfoldable pub round_ms_ℤ : ℤ → ℤ
unfolding round_ms
round_ms_ℤ (pos n) = pos (round_ms n)
round_ms_ℤ (negsuc n) = elim (round_ms (n + 1)) [ zero ↦ pos 0 | suc k ↦ negsuc k ]

-- The error that the callback of a repeating timer carries on: how much later than planned it started.
unfoldable pub next_error : ℕ → TimerTask → ℕ
next_error begin task =
    if task.last_execute_time_ns == 0
    then task.accumulated_error_ns
    else (task.accumulated_error_ns
        + sub64 (sub64 begin task.last_execute_time_ns) (task.interval_ms * 1000000 % 2 ^ 64))
      % 2 ^ 64

-- The time from the end of the callback to its next start, from the milliseconds that it ran and the
-- error.
unfoldable pub next_duration : ℕ → ℕ → ℕ → ℕ
unfolding round_ms_ℤ
next_duration interval_ms execute_time_ms accumulated_error_ns =
    if leb interval_ms execute_time_ms
    then 1
    else let accumulated_error_ms = round_ms_ℤ (signed64 accumulated_error_ns) in
      if leb_ℤ accumulated_error_ms (signed64 (interval_ms - execute_time_ms - 1))
      then pattern64 (pos (interval_ms - execute_time_ms) -ℤ accumulated_error_ms)
      else 1

-- The callback of a repeating timer: it ran from `begin` to `end`, by the clock in nanoseconds. A task
-- that is gone does nothing.
unfoldable pub repeat_task : ℕ → ℕ → TimerTask → TimerTask
unfolding next_error next_duration round_ms
repeat_task begin end task =
    let error = next_error begin task in
    record task {
      accumulated_error_ns = error;
      last_execute_time_ns = begin;
      next_fire_duration_ms = next_duration task.interval_ms (round_ms (sub64 end begin)) error;
    }

unfoldable pub repeat : ℕ → ℕ → ℕ → TimingWheel → TimingWheel
unfolding repeat_task
repeat t begin end w = elim (w.tasks t) [
  | none ↦ w
  | some task ↦
      add_task t (record w { tasks = update w.tasks t (some (repeat_task begin end task)) })
]

-- A callback of a repeating timer that `Async` runs begins by `task_weak_ptr.lock()`, and returns at once if
-- the task is gone.
unfoldable pub lock_found : Option TimerTask → ℕ → World → World × Bool
lock_found none t s = (s, false)
lock_found (some task) t s = (record s { holders = update s.holders t (s.holders t + 1) }, true)

unfoldable pub begin_callback : ℕ → World → World × Bool
begin_callback t s = lock_found (s.wheel.tasks t) t s

unfoldable pub owns : Option ℕ → ℕ → Bool
owns none t = false
owns (some u) t = u == t

-- The end of a callback of the timer's task: it adds the task again, and lets go of it; the object dies if
-- nobody holds it any more.
unfoldable pub end_callback : ℕ → ℕ → ℕ → World → World
unfolding owns
end_callback t begin end s =
    let w = repeat t begin end s.wheel in
    let left = s.holders t - 1 in
    record s {
      wheel = record w {
        tasks = if left == 0 && not (owns s.timer.task t) then update w.tasks t none else w.tasks;
      };
      holders = update s.holders t left;
    }
