-- ===== src/Timer/Deadline.antt =====
-- cyber/timer/timing_wheel.cc: when a task that `AddTask` has placed is handed to `Async`, whatever
-- the other threads do with other tasks in the meantime.
use cyberrt_on_rpi.Base.{
  ℕ, ◌+◌, ◌-◌, ◌<◌, ◌≤◌, ◌≡◌, ◌⊎◌, refl, some, none, Option, List, [], ◌∷◌, count, if◌then◌else◌,
  arith, ◌∙◌, Bool-cases, inl, inr,
}
use cyberrt_on_rpi.Timer.Wheel.{
  TimingWheel, TimerTask, add_task, alive, tick, advance, timer_max_interval_ms,
}
use cyberrt_on_rpi.Timer.Wheel.Due.{IsInRange, IsAbsent}
use cyberrt_on_rpi.Timer.Wheel.Adding.{delay}
use cyberrt_on_rpi.Timer.Loop.{
  Phase, ready, sleeping, Event, turn, arm, disarm, run, passed, call, Spares,
}
use cyberrt_on_rpi.Timer.Loop.OnTime.{fires_after_delay, call-IsUntouched}

module _ (t : ℕ) (w : TimingWheel) (task : TimerTask) (p : Phase) (now : ℕ) (es : List Event)
    (r : IsInRange w) (h : IsAbsent t w) (a : w.tasks t ≡ some task)
    (lo : 0 < task.next_fire_duration_ms) (hi : task.next_fire_duration_ms < timer_max_interval_ms)
    (s : Spares t es) where
  -- A task that stands in no bucket is placed by `AddTask` with a duration of 1 to 32767 ticks. If the
  -- duration is at most 512, or reaches the second round of the work wheel or later, then the task
  -- fires exactly once, when that many ticks have passed, and at no other time, for every sequence of
  -- steps of the tick thread and of calls that start and stop other tasks.
  pub on_time :
      (task.next_fire_duration_ms ≤ 512)
        ⊎ (1024 ≤ w.current_work_wheel_index + task.next_fire_duration_ms)
      → let (l, times) = run t es (record { wheel = add_task t w; phase = p; now = now }) in
        let m = now + task.next_fire_duration_ms in times ≡ (if passed m l then m ∷ [] else [])
  unfolding delay
  on_time far = ground (arith, fires_after_delay t w task p now es r h a lo hi s)

  -- With a duration of more than 512 ticks that ends before the second round of the work wheel, the
  -- task fires exactly once, but 512 ticks before its time.
  pub fires_early :
      512 < task.next_fire_duration_ms
      → w.current_work_wheel_index + task.next_fire_duration_ms < 1024
      → let (l, times) = run t es (record { wheel = add_task t w; phase = p; now = now }) in
        let m = now + (task.next_fire_duration_ms - 512) in
        times ≡ (if passed m l then m ∷ [] else [])
  unfolding delay
  fires_early long once = ground (arith, fires_after_delay t w task p now es r h a lo hi s)

count-alive_gone :
    (tasks : ℕ → Option TimerTask) (t : ℕ)
    → tasks t ≡ none
    → (ts : List ℕ) → count t (alive tasks ts) ≡ 0
unfolding alive count
count-alive_gone tasks t gone [] = refl
count-alive_gone tasks t gone (b ∷ ts) = ground (arith, count-alive_gone tasks t gone ts)

fired_gone : (t : ℕ) (w : TimingWheel) → w.tasks t ≡ none → count t (tick w).1 ≡ 0
unfolding tick
fired_gone t w gone = count-alive_gone w.tasks t gone (w.work_wheel w.current_work_wheel_index)

tasks-tick : (t : ℕ) (w : TimingWheel) → (tick w).0.tasks t ≡ w.tasks t
unfolding tick
tasks-tick t w = refl

tasks-advance : (t : ℕ) (w : TimingWheel) → (advance w).tasks t ≡ w.tasks t
unfolding advance
tasks-advance t w = ground arith

-- A task whose last shared pointer is gone never fires, wherever the buckets still point to it and
-- whatever the other threads do, until a task object is made at its address again.
pub stopped_never_fires :
    (t : ℕ) (es : List Event) (w : TimingWheel) (p : Phase) (now : ℕ)
    → w.tasks t ≡ none
    → Spares t es
    → (run t es (record { wheel = w; phase = p; now = now })).1 ≡ []
unfolding run count
stopped_never_fires t [] w p now gone s = refl
stopped_never_fires t (arm b task ∷ es) w p now gone s =
    stopped_never_fires t es (call (arm b task) w) p now
      ((call-IsUntouched t (arm b task) (s.0, tt) w).task ∙ gone) s.1
stopped_never_fires t (disarm b ∷ es) w p now gone s =
    stopped_never_fires t es (call (disarm b) w) p now
      ((call-IsUntouched t (disarm b) (s.0, tt) w).task ∙ gone) s.1
stopped_never_fires t (turn ∷ es) w ready now gone s = elim (Bool-cases w.running) [
  | inl on ↦
      simp (on, fired_gone t w gone)
        (stopped_never_fires t es (tick w).0 sleeping now (tasks-tick t w ∙ gone) s)
  | inr off ↦ simp off (stopped_never_fires t es w ready now gone s)
]
stopped_never_fires t (turn ∷ es) w sleeping now gone s =
    stopped_never_fires t es (advance w) ready (now + 1) (tasks-advance t w ∙ gone) s
