-- ===== src/Timer/Loop.antt =====
-- cyber/timer/timing_wheel.cc, `TimingWheel::TickFunc`: the thread that turns the wheel, with the
-- calls that other threads make between its steps (`Timer::Start`, `Timer::Stop`, and the callbacks,
-- which call `AddTask` again).
pub mod OnTime
use cyberrt_on_rpi.Base.{
  ℕ, ◌+◌, ◌≡◌, ◌≢◌, Bool, true, false, ◌&&◌, ◌||◌, Option, none, some, List, [], ◌∷◌, ◌++◌, count,
  ltb, ◌==◌, if◌then◌else◌, update, replicate,
}
use cyberrt_on_rpi.Timer.Wheel.{TimingWheel, TimerTask, tick, advance, add_task}

-- Before `Tick()`, or in `rate.Sleep()` behind it.
pub data Phase : Type 0 where
  ready sleeping : Phase

-- `now` counts the sleeps of a tick's length that are over; the source has no such counter.
pub record Loop : Type 0 where
  pub wheel : TimingWheel
  pub phase : Phase
  pub now : ℕ

-- What can happen next: the thread makes its next step, a task object is written and added, or the
-- last shared pointer to a task is dropped.
pub data Event : Type 0 where
  turn : Event
  arm : ℕ → TimerTask → Event
  disarm : ℕ → Event

-- The steps of the loop of `TickFunc`, with the tasks whose callbacks go to `Async`.
unfoldable pub tick_func : Phase → Loop → Loop × List ℕ
tick_func ready l =
    let (w, fired) = tick l.wheel in
    if l.wheel.running then (record l { wheel = w; phase = sleeping }, fired) else (l, [])
tick_func sleeping l = (record l { wheel = advance l.wheel; phase = ready; now = l.now + 1 }, [])

-- The other threads' calls.
unfoldable pub call : Event → TimingWheel → TimingWheel
call turn w = w
call (arm b task) w = add_task b (record w { tasks = update w.tasks b (some task) })
call (disarm b) w = record w { tasks = update w.tasks b none }

unfoldable pub step : Event → Loop → Loop × List ℕ
unfolding tick_func call
step turn l = tick_func l.phase l
step (arm b task) l = (record l { wheel = call (arm b task) l.wheel }, [])
step (disarm b) l = (record l { wheel = call (disarm b) l.wheel }, [])

-- The state behind a sequence of events, and the times at which the task `t` fired on the way.
unfoldable pub run : ℕ → List Event → Loop → Loop × List ℕ
unfolding step
run t [] l = (l, [])
run t (e ∷ es) l =
    let (l', fired) = step e l in
    let (l'', times) = run t es l' in (l'', replicate (count t fired) l.now ++ times)

-- The time `m` has come and its `Tick` is over.
unfoldable pub passed : ℕ → Loop → Bool
passed m l = ltb m l.now || (m == l.now && elim l.phase [ ready ↦ false | sleeping ↦ true ])

-- No event of the sequence is about the task `t`.
abbrev pub Spares : ℕ → List Event → Type 0
Spares t [] = Unit
Spares t (turn ∷ es) = Spares t es
Spares t (arm b task ∷ es) = (t ≢ b) × Spares t es
Spares t (disarm b ∷ es) = (t ≢ b) × Spares t es
