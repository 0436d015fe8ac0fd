-- ===== src/Timer/Wheel/Ticking.antt =====
-- `TimingWheel::Tick`: a due task fires, and the others stay where they are.
use cyberrt_on_rpi.Base.{
  ℕ, ◌<◌, ◌≤◌, ◌≡◌, refl, inl, inr, some, Option, List, [], ◌∷◌, count, arith,
}
use cyberrt_on_rpi.Timer.Wheel.{TimingWheel, TimerTask, alive, tick}
use cyberrt_on_rpi.Timer.Wheel.Due.{IsInRange, IsAbsent, IsDue}

module _ (tasks : ℕ → Option TimerTask) (t : ℕ) where
  count-alive-le : (ts : List ℕ) → count t (alive tasks ts) ≤ count t ts
  unfolding alive count
  count-alive-le [] = omega arith
  count-alive-le (b ∷ ts) = ground (arith, count-alive-le ts)

  count-alive :
      (task : TimerTask)
      → tasks t ≡ some task
      → (ts : List ℕ) → count t (alive tasks ts) ≡ count t ts
  unfolding alive count
  count-alive task a [] = refl
  count-alive task a (b ∷ ts) = ground (arith, count-alive task a ts)

module _ (t : ℕ) (w : TimingWheel) where
  pub tick-IsInRange : IsInRange w → IsInRange (tick w).0
  unfolding tick
  tick-IsInRange r = ground arith

  -- A task that stands nowhere does not fire.
  pub tick-IsAbsent : IsAbsent t w → (count t (tick w).1 ≡ 0) × IsAbsent t (tick w).0
  unfolding tick count
  tick-IsAbsent h = (
    let bucket = w.work_wheel w.current_work_wheel_index in
        omega (arith, count-alive-le w.tasks t bucket, h.not_work w.current_work_wheel_index),
    record { not_work = λ i. ground (arith, h.not_work i); not_assistant = h.not_assistant },
  )

  -- A task that is due now fires, once, and leaves the wheels.
  pub tick_due : IsInRange w → IsDue t 0 w → (count t (tick w).1 ≡ 1) × IsAbsent t (tick w).0
  unfolding tick count
  tick_due r h = elim h.placed [
    | inl p ↦ (
      ground (
        arith,
        p.once w.current_work_wheel_index,
        count-alive w.tasks t h.task h.is_alive (w.work_wheel w.current_work_wheel_index),
      ),
      record { not_work = λ i. ground (arith, p.once i); not_assistant = p.not_assistant },
    )
    | inr p ↦ absurd (omega arith)
  ]

  -- A task that is due later does not fire, and stays where it is.
  pub tick_later :
      (k : ℕ) → IsInRange w → 0 < k → IsDue t k w → (count t (tick w).1 ≡ 0) × IsDue t k (tick w).0
  unfolding tick count
  tick_later k r lo h = elim h.placed [
    | inl p ↦ (
      ground (
        arith,
        p.once w.current_work_wheel_index,
        count-alive w.tasks t h.task h.is_alive (w.work_wheel w.current_work_wheel_index),
      ),
      record {
        task = h.task;
        is_alive = h.is_alive;
        placed = inl (record {
          near = p.near;
          once = λ i. ground (arith, p.once i);
          not_assistant = p.not_assistant;
        });
      },
    )
    | inr p ↦ (
      ground (
        arith,
        p.not_work w.current_work_wheel_index,
        count-alive w.tasks t h.task h.is_alive (w.work_wheel w.current_work_wheel_index),
      ),
      record {
        task = h.task;
        is_alive = h.is_alive;
        placed = inr (record {
          wraps = p.wraps;
          reached = p.reached;
          remainder = p.remainder;
          once = p.once;
          not_work = λ i. ground (arith, p.not_work i);
        });
      },
    )
  ]

pub running-tick : (w : TimingWheel) → (tick w).0.running ≡ w.running
unfolding tick
running-tick w = refl
