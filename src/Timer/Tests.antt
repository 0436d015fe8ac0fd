-- ===== src/Timer/Tests.antt =====
-- Runs of the wheel on small inputs, and the theorems of cyber/timer at inputs that meet their
-- hypotheses.
use cyberrt_on_rpi.Base.{
  ℕ, zero, suc, ◌+◌, ◌-◌, ◌≡◌, refl, inl, true, false, none, some, List, [], ◌∷◌, count, arith,
  if◌then◌else◌, update, ◌*◌, ◌==◌,
}
use cyberrt_on_rpi.Base.Int.{◌-ℤ◌}
use cyberrt_on_rpi.Timer.Wheel.{TimingWheel, TimerTask, init, add_task, place, awake, tick, advance}
use cyberrt_on_rpi.Timer.Wheel.Due.{IsInRange, IsAbsent}
use cyberrt_on_rpi.Timer.Loop.{ready, sleeping, Event, turn, arm, disarm, run, passed}
use cyberrt_on_rpi.Timer.Deadline.{on_time, fires_early, stopped_never_fires}
use cyberrt_on_rpi.Timer.Timer.{
  lock_found, end_callback, World, start, stop, begin_callback, next_error, next_duration,
  repeat_task, round_ms, round_ms_ℤ,
}
use cyberrt_on_rpi.Timer.Timer.Starting.{start-on_time}
use cyberrt_on_rpi.Timer.Timer.Stopping.{Call, begins, ends, calls, stop_stops}
use cyberrt_on_rpi.Timer.Timer.Waiting.{IsPlanned}
use cyberrt_on_rpi.Timer.Timer.Repeating.{due, repeat_all, AreTimes, no_drift}

abbrev sample : ℕ → TimerTask
sample d = record {
  timer_id = 7;
  interval_ms = d;
  remainder_interval_ms = 0;
  next_fire_duration_ms = d;
  accumulated_error_ns = 0;
  last_execute_time_ns = 0;
}

abbrev fresh_wheel : ℕ → TimingWheel
unfolding init
fresh_wheel d = record init { tasks = update init.tasks 3 (some (sample d)) }

-- Two turns of the loop are one tick.
abbrev turns : ℕ → List Event
turns zero = []
turns (suc n) = turn ∷ turn ∷ turns n

abbrev other_calls : List Event
other_calls = turn ∷ arm 4 (sample 1) ∷ turn ∷ turn ∷ disarm 4 ∷ turn ∷ turn ∷ turn ∷ turn ∷ []

runs_on_time :
    (run 3 other_calls (record { wheel = add_task 3 (fresh_wheel 2); phase = ready; now = 0 })).1
    ≡ 2 ∷ []
unfolding run init add_task place awake tick advance count
runs_on_time = refl

fresh_wheel-IsInRange : (d : ℕ) → IsInRange (fresh_wheel d)
unfolding init
fresh_wheel-IsInRange d = omega arith

fresh_wheel-IsAbsent : (d : ℕ) → IsAbsent 3 (fresh_wheel d)
unfolding init count
fresh_wheel-IsAbsent d = record { not_work = λ i. refl; not_assistant = λ i. refl }

on_time_example :
    let (l, times) =
      run 3 other_calls (record { wheel = add_task 3 (fresh_wheel 2); phase = ready; now = 0 }) in
    times ≡ (if passed (0 + 2) l then (0 + 2) ∷ [] else [])
unfolding init
on_time_example =
    on_time 3 (fresh_wheel 2) (sample 2) ready 0 other_calls (fresh_wheel-IsInRange 2)
      (fresh_wheel-IsAbsent 2) refl (omega arith) (omega arith) (omega arith) (inl (omega arith))

fires_early_example :
    let (l, times) =
      run 3 (turns 2) (record { wheel = add_task 3 (fresh_wheel 513); phase = ready; now = 0 }) in
    times ≡ (if passed (0 + (513 - 512)) l then (0 + (513 - 512)) ∷ [] else [])
unfolding init
fires_early_example =
    fires_early 3 (fresh_wheel 513) (sample 513) ready 0 (turns 2) (fresh_wheel-IsInRange 513)
      (fresh_wheel-IsAbsent 513) refl (omega arith) (omega arith) (omega arith) (omega arith)
      (omega arith)

-- Of a period of 513 milliseconds one is waited for.
runs_early :
    (run 3 (turns 2) (record { wheel = add_task 3 (fresh_wheel 513); phase = ready; now = 0 })).1
    ≡ 1 ∷ []
unfolding run init add_task place awake tick advance count
runs_early = refl

stopped_never_fires_example :
    (run 3 (turns 2) (record { wheel = init; phase = ready; now = 0 })).1 ≡ []
unfolding init
stopped_never_fires_example = stopped_never_fires 3 (turns 2) init ready 0 refl tt

abbrev idle : ℕ → World
idle period = record {
  timer = record {
    timer_id = 7;
    timer_opt = record { period = period; oneshot = true };
    task = none;
    started = false;
  };
  wheel = fresh_wheel 1;
  holders = λ _. 0;
}

start-on_time_example :
    let s' = start true 3 (idle 40) in
    let (l, times) = run 3 other_calls (record { wheel = s'.wheel; phase = sleeping; now = 5 }) in
    let m = 5 + 40 in
    (times ≡ (if passed m l then m ∷ [] else []))
    × (s'.timer.started ≡ true)
    × (s'.timer.task ≡ some 3)
unfolding init
start-on_time_example =
    start-on_time 3 (idle 40) sleeping 5 other_calls (omega arith)
      (record {
        not_work = (fresh_wheel-IsAbsent 1).not_work;
        not_assistant = (fresh_wheel-IsAbsent 1).not_assistant;
      })
      refl (omega arith) (omega arith) (inl (omega arith)) (omega arith)

-- A callback of the task runs.
abbrev going : World
going = record (idle 9) {
  timer = record (idle 9).timer { started = true; task = some 3 };
  holders = λ t. if t == 3 then 1 else 0;
}

-- A second one begins after `Stop`, before the first has ended.
abbrev two_calls : List Call
two_calls = begins ∷ ends (λ w. w) 5000000 7000000 ∷ ends (λ w. w) 6000000 8000000 ∷ []

both_end : (calls 3 two_calls (stop going)).holders 3 ≡ 0
unfolding calls begin_callback lock_found end_callback stop fresh_wheel
both_end = refl

stop_stops_example :
    let s' = calls 3 two_calls (stop going) in
    ((run 3 other_calls (record { wheel = s'.wheel; phase = ready; now = 0 })).1 ≡ [])
    × ((begin_callback 3 s').1 ≡ false)
    × (s'.timer.started ≡ false)
    × (s'.timer.task ≡ none)
stop_stops_example =
    stop_stops 3 going two_calls ready 0 other_calls refl refl both_end (omega arith)

-- Every 10 milliseconds from 5: the second start was 3 milliseconds late, the third is 1 late.
abbrev first_runs : List (ℕ × ℕ)
first_runs = (18000000, 20000000) ∷ []

no_drift_example :
    let task =
      repeat_task 26000000 28000000 (repeat_all ((5000000, 6000000) ∷ first_runs) (sample 10)) in
    let planned = 28000000 + task.next_fire_duration_ms * 1000000 in
    let next = due 5000000 10 3 in IsPlanned 28000000 next planned
unfolding AreTimes due
no_drift_example =
    no_drift 10 5000000 6000000 26000000 28000000 first_runs (sample 10) refl refl refl
      (omega arith) (omega arith, omega arith, (omega arith, omega arith, tt)) (omega arith)
      (omega arith) (omega arith) (omega arith) (omega arith)

-- It is planned at 35 milliseconds.
plans :
    (repeat_task 26000000 28000000
      (repeat_all ((5000000, 6000000) ∷ first_runs) (sample 10))).next_fire_duration_ms
    ≡ 7
unfolding repeat_task repeat_all next_error next_duration round_ms round_ms_ℤ ◌-ℤ◌
plans = refl
