-- ===== src/Timer/Wheel/Due.antt =====
-- Where a task stands on the two wheels, and after how many ticks it is due there.
use cyberrt_on_rpi.Base.{ℕ, ◌+◌, ◌/◌, ◌%◌, ◌≤◌, ◌<◌, ◌≡◌, ◌⊎◌, some, count, ◌==◌, if◌then◌else◌}
use cyberrt_on_rpi.Timer.Wheel.{TimingWheel, TimerTask}

-- The two indices are in range.
pub record IsInRange (w : TimingWheel) : Type 0 where
  pub work_in : w.current_work_wheel_index < 512
  pub assistant_in : w.current_assistant_wheel_index < 64

-- A task stands in no bucket.
pub record IsAbsent (t : ℕ) (w : TimingWheel) : Type 0 where
  pub not_work : (i : ℕ) → count t (w.work_wheel i) ≡ 0
  pub not_assistant : (i : ℕ) → count t (w.assistant_wheel i) ≡ 0

-- A task that is alive stands once on the work wheel, `k` buckets ahead of the current one.
pub record InWork (t k : ℕ) (w : TimingWheel) : Type 0 where
  pub near : k < 512
  pub once :
      (i : ℕ)
      → count t (w.work_wheel i) ≡ (if i == (w.current_work_wheel_index + k) % 512 then 1 else 0)
  pub not_assistant : (i : ℕ) → count t (w.assistant_wheel i) ≡ 0

-- A task that is alive stands once on the assistant wheel, in the bucket that is moved to the work
-- wheel at the last wrap before its time, with the place that it is to have there.
pub record InAssistant (t k : ℕ) (task : TimerTask) (w : TimingWheel) : Type 0 where
  pub wraps : 512 ≤ w.current_work_wheel_index + k
  pub reached : (w.current_work_wheel_index + k) / 512 ≤ 64
  pub remainder : task.remainder_interval_ms ≡ (w.current_work_wheel_index + k) % 512
  pub not_work : (i : ℕ) → count t (w.work_wheel i) ≡ 0
  pub once :
      (i : ℕ)
      → count t (w.assistant_wheel i) ≡ (
          if i == (w.current_assistant_wheel_index + (w.current_work_wheel_index + k) / 512) % 64
          then 1
          else 0)

-- The task is alive, and due in `k` ticks.
pub record IsDue (t k : ℕ) (w : TimingWheel) : Type 0 where
  pub task : TimerTask
  pub is_alive : w.tasks t ≡ some task
  pub placed : InWork t k w ⊎ InAssistant t k task w
