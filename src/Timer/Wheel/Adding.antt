-- ===== src/Timer/Wheel/Adding.antt =====
-- `TimingWheel::AddTask`: after how many ticks the task that it places is due.
use cyberrt_on_rpi.Base.{
  ℕ, ◌+◌, ◌-◌, ◌/◌, ◌%◌, ◌≤◌, ◌<◌, ◌≡◌, ◌≢◌, ◌⊎◌, inl, inr, none, some, count, count-append, ◌==◌,
  ltb, ◌&&◌, if◌then◌else◌, arith, and_511, and_63, refl, sym, true, List, [], ◌∷◌, Bool-cases,
}
use cyberrt_on_rpi.Timer.Wheel.{
  TimingWheel, TimerTask, add_task, place, awake, push_back, get_work_wheel_index,
  get_assistant_wheel_index,
}
use cyberrt_on_rpi.Timer.Wheel.Due.{IsInRange, IsAbsent, IsDue}

pub count-push_back :
    (wheel : ℕ → List ℕ) (i t j : ℕ)
    → count t (push_back wheel i t j) ≡ count t (wheel j) + (if j == i then 1 else 0)
unfolding push_back count
count-push_back wheel i t j = ground (arith, count-append t (wheel j) (t ∷ []))

pub count-push_back_ne :
    (wheel : ℕ → List ℕ) (i t b j : ℕ) → t ≢ b → count t (push_back wheel i b j) ≡ count t (wheel j)
unfolding push_back count
count-push_back_ne wheel i t b j h = ground (arith, count-append t (wheel j) (b ∷ []))

pub get_work_wheel_index_lem : (i : ℕ) → get_work_wheel_index i ≡ i % 512
unfolding get_work_wheel_index
get_work_wheel_index_lem i = and_511 i

pub get_assistant_wheel_index_lem : (i : ℕ) → get_assistant_wheel_index i ≡ i % 64
unfolding get_assistant_wheel_index
get_assistant_wheel_index_lem i = and_63 i

-- The ticks that pass before a task of duration `d` fires, if the work wheel stands at `c`.
unfoldable pub delay : ℕ → ℕ → ℕ
delay c d = if ltb 512 d && ltb (c + d) 1024 then d - 512 else d

module _ (t : ℕ) (w : TimingWheel) (task : TimerTask) (c d : ℕ) (r : IsInRange w) (h : IsAbsent t w)
    (at : c ≡ w.current_work_wheel_index) (dur : d ≡ task.next_fire_duration_ms) (lo : 0 < d)
    (hi : d < 32768) (a : w.tasks t ≡ some task) where
  place_near : c + d < 512 → IsDue t d (place t task c w)
  unfolding place
  place_near near = record {
    task = task;
    is_alive = ground arith;
    placed = inl (record {
      near = omega arith;
      once = λ i. ground (arith, h.not_work i, count-push_back w.work_wheel (c + d) t i);
      not_assistant = λ i. ground (arith, h.not_assistant i);
    });
  }

  place_wrap : 512 ≤ c + d → c + d < 1024 → d ≢ 512 → IsDue t (delay c d) (place t task c w)
  unfolding place delay
  place_wrap wraps once other = record {
    task = record task { remainder_interval_ms = (c + d) % 512 };
    is_alive = ground (arith, get_work_wheel_index_lem (c + d));
    placed = inl (record {
      near = ground arith;
      once = λ i. ground (
        arith,
        h.not_work i,
        get_work_wheel_index_lem (c + d),
        count-push_back w.work_wheel ((c + d) % 512) t i,
      );
      not_assistant = λ i. ground (arith, h.not_assistant i, get_work_wheel_index_lem (c + d));
    });
  }

  place_far : (1024 ≤ c + d) ⊎ (d ≡ 512) → IsDue t d (place t task c w)
  unfolding place
  place_far far = record {
    task = record task { remainder_interval_ms = (c + d) % 512 };
    is_alive = ground (arith, get_work_wheel_index_lem (c + d));
    placed = inr (record {
      wraps = ground arith;
      reached = ground arith;
      remainder = ground arith;
      not_work = λ i. ground (arith, h.not_work i, get_work_wheel_index_lem (c + d));
      once = λ i. ground (
        arith,
        h.not_assistant i,
        get_work_wheel_index_lem (c + d),
        get_assistant_wheel_index_lem (w.current_assistant_wheel_index + (c + d) / 512),
        count-push_back w.assistant_wheel ((w.current_assistant_wheel_index + (c + d) / 512) % 64) t
            i,
      );
    });
  }

  place-IsDue : IsDue t (delay c d) (place t task c w)
  unfolding delay
  place-IsDue = elim (Bool-cases (ltb (c + d) 512)) [
    | inl near ↦ let e : delay c d ≡ d = ground arith in rw e (place_near (ground arith))
    | inr not_near ↦ elim (Bool-cases (ltb (c + d) 1024)) [
      | inl once ↦ elim (Bool-cases (d == 512)) [
        | inl same ↦ let e : delay c d ≡ d = ground arith in rw e (place_far (ground arith))
        | inr other ↦ place_wrap (ground arith) (ground arith) (ground arith)
      ]
      | inr far ↦ let e : delay c d ≡ d = ground arith in rw e (place_far (ground arith))
    ]
  ]

-- `Start` changes nothing but that the wheel runs.
module _ (w : TimingWheel) where
  pub running-awake : (awake w).running ≡ true
  unfolding awake
  running-awake = ground arith

  pub awake_lem :
      ((awake w).work_wheel ≡ w.work_wheel)
      × ((awake w).assistant_wheel ≡ w.assistant_wheel)
      × ((awake w).current_work_wheel_index ≡ w.current_work_wheel_index)
      × ((awake w).current_assistant_wheel_index ≡ w.current_assistant_wheel_index)
      × ((awake w).tasks ≡ w.tasks)
  unfolding awake
  awake_lem = ground arith

  awake-IsInRange : IsInRange w → IsInRange (awake w)
  awake-IsInRange r = ground (arith, awake_lem)

  awake-IsAbsent : (t : ℕ) → IsAbsent t w → IsAbsent t (awake w)
  awake-IsAbsent t h = record {
    not_work = λ i. rw (awake_lem.0) (h.not_work i);
    not_assistant = λ i. rw (awake_lem.1) (h.not_assistant i);
  }

  pub add_task_lem :
      (t : ℕ) (task : TimerTask)
      → w.tasks t ≡ some task
      → add_task t w ≡ place t task w.current_work_wheel_index (awake w)
  unfolding add_task
  add_task_lem t task a = ground arith

  pub add_task_gone : (t : ℕ) → w.tasks t ≡ none → add_task t w ≡ w
  unfolding add_task
  add_task_gone t a = ground arith

-- `AddTask` on a task that stands in no bucket: it is due after `delay` ticks.
pub add_task-IsDue :
    (t : ℕ) (w : TimingWheel) (task : TimerTask)
    → IsInRange w
    → IsAbsent t w
    → w.tasks t ≡ some task
    → 0 < task.next_fire_duration_ms
    → task.next_fire_duration_ms < 32768
    → IsDue t (delay w.current_work_wheel_index task.next_fire_duration_ms) (add_task t w)
add_task-IsDue t w task r h a lo hi = rw (add_task_lem w t task a) (
    place-IsDue t (awake w) task w.current_work_wheel_index task.next_fire_duration_ms
      (awake-IsInRange w r) (awake-IsAbsent w t h) (sym (awake_lem w).2) refl lo hi
      (rw (awake_lem w).4 a))
