-- ===== src/Timer/Loop/OnTime.antt =====
-- `TimingWheel::TickFunc`: a task that is due fires at its time, once, and at no other.
use cyberrt_on_rpi.Base.{
  ℕ, suc, ◌+◌, ◌-◌, ◌<◌, ◌≤◌, ◌≡◌, inl, inr, refl, true, false, List, [], ◌∷◌, count, ◌==◌,
  Bool-cases, if◌then◌else◌, arith, some, update, ◌∙◌, ap, sym,
}
use cyberrt_on_rpi.Timer.Wheel.{
  TimingWheel, TimerTask, add_task, awake, timer_max_interval_ms, tick, advance,
}
use cyberrt_on_rpi.Timer.Wheel.Due.{IsInRange, IsAbsent, IsDue}
use cyberrt_on_rpi.Timer.Wheel.Adding.{add_task-IsDue, delay, add_task_lem, running-awake}
use cyberrt_on_rpi.Timer.Wheel.Others.{
  running-place, add_task-IsInRange, IsUntouched, running-add_task, untouched-IsInRange,
  untouched-IsAbsent, untouched-IsDue, add_task-IsUntouched,
}
use cyberrt_on_rpi.Timer.Wheel.Ticking.{
  running-tick, tick-IsInRange, tick-IsAbsent, tick_due, tick_later,
}
use cyberrt_on_rpi.Timer.Wheel.Turning.{
  running-advance, advance-IsInRange, advance-IsAbsent, advance-IsDue,
}
use cyberrt_on_rpi.Timer.Loop.{
  Phase, ready, sleeping, Event, turn, arm, disarm, call, run, passed, Spares,
}

-- The time `m` is still to come: its `Tick` is not over.
abbrev IsAhead : ℕ → Phase → ℕ → Type 0
IsAhead m ready now = now ≤ m
IsAhead m sleeping now = now < m

abbrev IsBehind : ℕ → Phase → ℕ → Type 0
IsBehind m ready now = m < now
IsBehind m sleeping now = m ≤ now

-- The loop runs, and its task is to fire at the time `m`.
record IsWaiting (t m : ℕ) (w : TimingWheel) (p : Phase) (now : ℕ) : Type 0 where
  runs : w.running ≡ true
  in_range : IsInRange w
  ahead : IsAhead m p now
  due : IsDue t (m - now) w

-- The task has fired at the time `m`, and stands on no wheel.
record IsOver (t m : ℕ) (w : TimingWheel) (p : Phase) (now : ℕ) : Type 0 where
  runs : w.running ≡ true
  in_range : IsInRange w
  behind : IsBehind m p now
  absent : IsAbsent t w

not_passed :
    (m : ℕ) (p : Phase) (w : TimingWheel) (now : ℕ)
    → IsAhead m p now
    → passed m (record { wheel = w; phase = p; now = now }) ≡ false
unfolding passed
not_passed m ready w now h = ground arith
not_passed m sleeping w now h = ground arith

is_passed :
    (m : ℕ) (p : Phase) (w : TimingWheel) (now : ℕ)
    → IsBehind m p now
    → passed m (record { wheel = w; phase = p; now = now }) ≡ true
unfolding passed
is_passed m ready w now h = ground arith
is_passed m sleeping w now h = ground arith

-- The calls about other tasks leave a task alone, and the wheel running.
pub call-IsUntouched :
    (t : ℕ) (e : Event) → Spares t (e ∷ []) → (w : TimingWheel) → IsUntouched t w (call e w)
unfolding call
call-IsUntouched t turn h w = record {
  work_index = refl;
  assistant_index = refl;
  task = refl;
  work = λ i. refl;
  assistant = λ i. refl;
}
call-IsUntouched t (arm b task) h w =
    let u = add_task-IsUntouched t b (record w { tasks = update w.tasks b (some task) }) h.0 in
    record {
      work_index = u.work_index;
      assistant_index = u.assistant_index;
      task = ground (arith, u.task, h.0);
      work = u.work;
      assistant = u.assistant;
    }
call-IsUntouched t (disarm b) h w = record {
  work_index = refl;
  assistant_index = refl;
  task = ground (arith, h.0);
  work = λ i. refl;
  assistant = λ i. refl;
}

running-call : (e : Event) (w : TimingWheel) → w.running ≡ true → (call e w).running ≡ true
unfolding call
running-call turn w h = h
running-call (arm b task) w h =
    running-add_task b (record w { tasks = update w.tasks b (some task) }) h
running-call (disarm b) w h = h

module _ (t m : ℕ) (e : Event) (other : Spares t (e ∷ [])) (w : TimingWheel) (p : Phase)
    (now : ℕ) where
  call-IsWaiting : IsWaiting t m w p now → IsWaiting t m (call e w) p now
  call-IsWaiting h = record {
    runs = running-call e w h.runs;
    in_range = untouched-IsInRange t w (call e w) (call-IsUntouched t e other w) h.in_range;
    ahead = h.ahead;
    due = untouched-IsDue t w (call e w) (call-IsUntouched t e other w) (m - now) h.due;
  }

  call-IsOver : IsOver t m w p now → IsOver t m (call e w) p now
  call-IsOver h = record {
    runs = running-call e w h.runs;
    in_range = untouched-IsInRange t w (call e w) (call-IsUntouched t e other w) h.in_range;
    behind = h.behind;
    absent = untouched-IsAbsent t w (call e w) (call-IsUntouched t e other w) h.absent;
  }

IsAhead-of_positive : (p : Phase) (now k : ℕ) → 0 < k → IsAhead (now + k) p now
IsAhead-of_positive ready now k h = omega arith
IsAhead-of_positive sleeping now k h = omega arith

-- What is fired at the time `m` is one entry, and nothing before and after.
over_run :
    (t m : ℕ) (es : List Event)
    → Spares t es
    → (w : TimingWheel) (p : Phase) (now : ℕ) → IsOver t m w p now
    → let (l, times) = run t es (record { wheel = w; phase = p; now = now }) in
      (times ≡ []) × (passed m l ≡ true)
unfolding run count
over_run t m [] s w p now h = (refl, is_passed m p w now h.behind)
over_run t m (arm b task ∷ es) s w p now h =
    over_run t m es s.1 (call (arm b task) w) p now
      (call-IsOver t m (arm b task) (s.0, tt) w p now h)
over_run t m (disarm b ∷ es) s w p now h =
    over_run t m es s.1 (call (disarm b) w) p now (call-IsOver t m (disarm b) (s.0, tt) w p now h)
over_run t m (turn ∷ es) s w ready now h =
    let (none_fired, absent) = tick-IsAbsent t w h.absent in
    simp (h.runs, none_fired)
      (over_run t m es s (tick w).0 sleeping now (record {
        runs = running-tick w ∙ h.runs;
        in_range = tick-IsInRange t w h.in_range;
        behind = omega arith;
        absent = absent;
      }))
over_run t m (turn ∷ es) s w sleeping now h =
    over_run t m es s (advance w) ready (now + 1) (record {
      runs = running-advance w ∙ h.runs;
      in_range = advance-IsInRange w h.in_range;
      behind = omega arith;
      absent = advance-IsAbsent t w h.in_range h.absent;
    })

-- The task fires at the time `m` if that time comes, and at no other.
waiting_run :
    (t m : ℕ) (es : List Event)
    → Spares t es
    → (w : TimingWheel) (p : Phase) (now : ℕ) → IsWaiting t m w p now
    → let (l, times) = run t es (record { wheel = w; phase = p; now = now }) in
      times ≡ (if passed m l then m ∷ [] else [])
unfolding run count
waiting_run t m [] s w p now h = rw (not_passed m p w now h.ahead)
waiting_run t m (arm b task ∷ es) s w p now h =
    waiting_run t m es s.1 (call (arm b task) w) p now
      (call-IsWaiting t m (arm b task) (s.0, tt) w p now h)
waiting_run t m (disarm b ∷ es) s w p now h =
    waiting_run t m es s.1 (call (disarm b) w) p now
      (call-IsWaiting t m (disarm b) (s.0, tt) w p now h)
waiting_run t m (turn ∷ es) s w ready now h = elim (Bool-cases (m == now)) [
  | inl comes ↦
      let e : m ≡ now = ground arith in
      let (fired, absent) =
        tick_due t w h.in_range (let e0 : m - now ≡ 0 = ground arith in rw e0 at h.due) in
      let (nothing, over) = over_run t m es s (tick w).0 sleeping now (record {
        runs = running-tick w ∙ h.runs;
        in_range = tick-IsInRange t w h.in_range;
        behind = omega arith;
        absent = absent;
      }) in
      simp (h.runs, fired, nothing, over) (ap (λ (k : ℕ). k ∷ []) (sym e))
  | inr later ↦
      let (none_fired, due) = tick_later t w (m - now) h.in_range (ground arith) h.due in
      simp (h.runs, none_fired)
        (waiting_run t m es s (tick w).0 sleeping now (record {
          runs = running-tick w ∙ h.runs;
          in_range = tick-IsInRange t w h.in_range;
          ahead = ground arith;
          due = due;
        }))
]
waiting_run t m (turn ∷ es) s w sleeping now h =
    waiting_run t m es s (advance w) ready (now + 1) (record {
      runs = running-advance w ∙ h.runs;
      in_range = advance-IsInRange w h.in_range;
      ahead = omega arith;
      due =
          advance-IsDue t w h.in_range (m - (now + 1))
            (let e : m - now ≡ suc (m - (now + 1)) = omega arith in rw e at h.due);
    })

-- A task that `AddTask` has placed fires `delay` ticks later.
pub fires_after_delay :
    (t : ℕ) (w : TimingWheel) (task : TimerTask) (p : Phase) (now : ℕ) (es : List Event)
    → IsInRange w
    → IsAbsent t w
    → w.tasks t ≡ some task
    → 0 < task.next_fire_duration_ms
    → task.next_fire_duration_ms < timer_max_interval_ms
    → Spares t es
    → let (l, times) = run t es (record { wheel = add_task t w; phase = p; now = now }) in
      let m = now + delay w.current_work_wheel_index task.next_fire_duration_ms in
      times ≡ (if passed m l then m ∷ [] else [])
unfolding delay
fires_after_delay t w task p now es r h a lo hi s =
    let k = delay w.current_work_wheel_index task.next_fire_duration_ms in
    let positive : 0 < k = ground arith in
    waiting_run t (now + k) es s (add_task t w) p now (record {
      runs =
          rw (add_task_lem w t task a)
            (running-place t task w.current_work_wheel_index (awake w) ∙ running-awake w);
      in_range = add_task-IsInRange t w r;
      ahead = IsAhead-of_positive p now k positive;
      due = let e : now + k - now ≡ k = omega arith in rw e (add_task-IsDue t w task r h a lo hi);
    })
