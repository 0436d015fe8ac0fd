-- ===== src/Timer/Wheel/Others.antt =====
-- What the calls about other tasks leave alone: where a task stands, and when it is due.
use cyberrt_on_rpi.Base.{ℕ, add64, ◌/◌, ◌≡◌, ◌≢◌, refl, inl, inr, count, true, arith, Option-cases}
use cyberrt_on_rpi.Timer.Wheel.{
  TimingWheel, TimerTask, add_task, place, awake, get_work_wheel_index, get_assistant_wheel_index,
}
use cyberrt_on_rpi.Timer.Wheel.Due.{IsInRange, IsAbsent, InWork, InAssistant, IsDue}
use cyberrt_on_rpi.Timer.Wheel.Adding.{count-push_back_ne, awake_lem, add_task_lem, add_task_gone}

-- `w'` has the indices of `w`, and the task `t` where it stands in `w`.
pub record IsUntouched (t : ℕ) (w w' : TimingWheel) : Type 0 where
  pub work_index : w'.current_work_wheel_index ≡ w.current_work_wheel_index
  pub assistant_index : w'.current_assistant_wheel_index ≡ w.current_assistant_wheel_index
  pub task : w'.tasks t ≡ w.tasks t
  pub work : (i : ℕ) → count t (w'.work_wheel i) ≡ count t (w.work_wheel i)
  pub assistant : (i : ℕ) → count t (w'.assistant_wheel i) ≡ count t (w.assistant_wheel i)

module _ (t : ℕ) (w w' : TimingWheel) (u : IsUntouched t w w') where
  pub untouched-IsInRange : IsInRange w → IsInRange w'
  untouched-IsInRange r = ground arith

  pub untouched-IsAbsent : IsAbsent t w → IsAbsent t w'
  untouched-IsAbsent h = record {
    not_work = λ i. ground (arith, u.work i, h.not_work i);
    not_assistant = λ i. ground (arith, u.assistant i, h.not_assistant i);
  }

  untouched-InWork : (k : ℕ) → InWork t k w → InWork t k w'
  untouched-InWork k h = record {
    near = h.near;
    once = λ i. ground (arith, u.work i, h.once i);
    not_assistant = λ i. ground (arith, u.assistant i, h.not_assistant i);
  }

  untouched-InAssistant :
      (k : ℕ) (task : TimerTask) → InAssistant t k task w → InAssistant t k task w'
  untouched-InAssistant k task h = record {
    wraps = ground arith;
    reached = ground arith;
    remainder = ground arith;
    not_work = λ i. ground (arith, u.work i, h.not_work i);
    once = λ i. ground (arith, u.assistant i, h.once i);
  }

  pub untouched-IsDue : (k : ℕ) → IsDue t k w → IsDue t k w'
  untouched-IsDue k h = record {
    task = h.task;
    is_alive = ground arith;
    placed = elim h.placed [
      | inl p ↦ inl (untouched-InWork k p)
      | inr p ↦ inr (untouched-InAssistant k h.task p)
    ];
  }

module _ (b : ℕ) (task : TimerTask) (c : ℕ) (w : TimingWheel) where
  place_indices :
      ((place b task c w).current_work_wheel_index ≡ w.current_work_wheel_index)
      × ((place b task c w).current_assistant_wheel_index ≡ w.current_assistant_wheel_index)
  unfolding place
  place_indices = ground arith

  module _ (t : ℕ) (ne : t ≢ b) where
    place_tasks : (place b task c w).tasks t ≡ w.tasks t
    unfolding place
    place_tasks = ground arith

    place_work : (i : ℕ) → count t ((place b task c w).work_wheel i) ≡ count t (w.work_wheel i)
    unfolding place
    place_work i =
        let d = add64 c task.next_fire_duration_ms in
        ground (
          arith,
          count-push_back_ne w.work_wheel d t b i ne,
          count-push_back_ne w.work_wheel (get_work_wheel_index d) t b i ne,
        )

    place_assistant :
        (i : ℕ) → count t ((place b task c w).assistant_wheel i) ≡ count t (w.assistant_wheel i)
    unfolding place
    place_assistant i =
        let d = add64 c task.next_fire_duration_ms in
        ground (
          arith,
          count-push_back_ne w.assistant_wheel
              (get_assistant_wheel_index (add64 w.current_assistant_wheel_index (d / 512))) t b i
              ne,
        )

    place-IsUntouched : IsUntouched t w (place b task c w)
    place-IsUntouched = record {
      work_index = place_indices.0;
      assistant_index = place_indices.1;
      task = place_tasks;
      work = place_work;
      assistant = place_assistant;
    }

-- Any call of `AddTask` leaves the other tasks alone.
pub add_task-IsUntouched : (t b : ℕ) (w : TimingWheel) → t ≢ b → IsUntouched t w (add_task b w)
add_task-IsUntouched t b w ne = elim (Option-cases (w.tasks b)) [
  | inl gone ↦ rw (add_task_gone w b gone) (record {
    work_index = refl;
    assistant_index = refl;
    task = refl;
    work = λ i. refl;
    assistant = λ i. refl;
  })
  | inr (task, a) ↦ rw (add_task_lem w b task a) (
      let u = place-IsUntouched b task w.current_work_wheel_index (awake w) t ne in
      record {
        work_index = ground (arith, awake_lem w);
        assistant_index = ground (arith, awake_lem w);
        task = ground (arith, awake_lem w);
        work = λ i. ground (arith, awake_lem w, u.work i);
        assistant = λ i. ground (arith, awake_lem w, u.assistant i);
      })
]

pub running-add_task : (b : ℕ) (w : TimingWheel) → w.running ≡ true → (add_task b w).running ≡ true
unfolding add_task place awake
running-add_task b w h = ground arith

pub running-place :
    (b : ℕ) (task : TimerTask) (c : ℕ) (w : TimingWheel) → (place b task c w).running ≡ w.running
unfolding place
running-place b task c w = ground arith

pub add_task-IsInRange : (b : ℕ) (w : TimingWheel) → IsInRange w → IsInRange (add_task b w)
unfolding add_task place awake
add_task-IsInRange b w r = ground arith
