-- ===== src/Timer/Timer/Starting.antt =====
-- cyber/timer/timer.cc, `Timer::Start` and `Timer::Stop`: when the callback of a timer runs.
use cyberrt_on_rpi.Base.{
  ℕ, ◌+◌, ◌<◌, ◌≤◌, ◌≡◌, ◌⊎◌, refl, true, false, none, some, List, [], ◌∷◌, if◌then◌else◌, arith,
  update,
}
use cyberrt_on_rpi.Timer.Wheel.{add_task, timer_max_interval_ms}
use cyberrt_on_rpi.Timer.Wheel.Due.{IsInRange, IsAbsent}
use cyberrt_on_rpi.Timer.Loop.{Phase, Event, run, passed, Spares}
use cyberrt_on_rpi.Timer.Deadline.{on_time}
use cyberrt_on_rpi.Timer.Timer.{World, TimerOption, set_timer_option, start, release, new_task}

-- What `Start` leaves of an idle timer with a period that the wheel can hold.
start_lem :
    (fresh : ℕ) (s : World)
    → s.timer.started ≡ false
    → 0 < s.timer.timer_opt.period
    → s.timer.timer_opt.period < timer_max_interval_ms
    → start true fresh s ≡ record s {
      timer = record s.timer { started = true; task = some fresh };
      wheel = add_task fresh (record s.wheel {
        tasks =
            update (release s.holders s.timer.task s.wheel.tasks) fresh (some (new_task s.timer));
      });
    }
unfolding start
start_lem fresh s idle lo hi = ground arith

-- `Start` in reality mode on an idle timer, with a period of 1 to 32767 milliseconds that is at most 512 or
-- reaches the second round of the wheel, and with its new task in no bucket: if nobody stops the task or adds
-- it again meanwhile, then it is handed to `Async` exactly once, when the period is over, whatever is done
-- with other tasks; the timer counts as started.
pub start-on_time :
    (fresh : ℕ) (s : World) (p : Phase) (now : ℕ) (es : List Event)
    → IsInRange s.wheel
    → IsAbsent fresh s.wheel
    → s.timer.started ≡ false
    → 0 < s.timer.timer_opt.period
    → s.timer.timer_opt.period < timer_max_interval_ms
    → (s.timer.timer_opt.period ≤ 512)
      ⊎ (1024 ≤ s.wheel.current_work_wheel_index + s.timer.timer_opt.period)
    → Spares fresh es
    → let s' = start true fresh s in
      let (l, times) = run fresh es (record { wheel = s'.wheel; phase = p; now = now }) in
      let m = now + s.timer.timer_opt.period in
      (times ≡ (if passed m l then m ∷ [] else []))
      × (s'.timer.started ≡ true)
      × (s'.timer.task ≡ some fresh)
start-on_time fresh s p now es r h idle lo hi far spared = rw (start_lem fresh s idle lo hi) (
  on_time fresh
      (record s.wheel {
        tasks =
            update (release s.holders s.timer.task s.wheel.tasks) fresh (some (new_task s.timer));
      })
      (new_task s.timer) p now es (record { work_in = r.work_in; assistant_in = r.assistant_in })
      (record { not_work = h.not_work; not_assistant = h.not_assistant }) (ground arith) lo hi
      spared far,
  refl,
  refl,
)

-- With a period of 0 or of 32768 and more `Start` puts no task on the wheel, and marks the timer as
-- started all the same: a later `Start` finds it started and changes nothing. Outside reality mode
-- `Start` does nothing.
pub start_refused :
    (fresh : ℕ) (s : World)
    → (s.timer.timer_opt.period ≡ 0) ⊎ (timer_max_interval_ms ≤ s.timer.timer_opt.period)
    → (start true fresh s ≡ record s { timer = record s.timer { started = true } })
      × (start false fresh s ≡ s)
unfolding start
start_refused fresh s bad = (ground arith, ground arith)

-- A timer that was started with a period that the wheel cannot hold stays without a task when it is
-- given another option and started again.
pub start_after_refused :
    (fresh other : ℕ) (opt : TimerOption) (s : World)
    → s.timer.task ≡ none
    → (s.timer.timer_opt.period ≡ 0) ⊎ (timer_max_interval_ms ≤ s.timer.timer_opt.period)
    → let tried = start true fresh s in
      (start true other (record tried { timer = set_timer_option opt tried.timer })).timer.task
      ≡ none
unfolding start set_timer_option
start_after_refused fresh other opt s h bad = ground arith
