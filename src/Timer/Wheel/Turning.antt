-- ===== src/Timer/Wheel/Turning.antt =====
-- `TimingWheel::Cascade` and the advance of the indices: a due task comes one tick nearer.
use cyberrt_on_rpi.Base.{
  ℕ, suc, ◌+◌, ◌%◌, ◌<◌, ◌≡◌, refl, inl, inr, some, Option, List, [], ◌∷◌, count, arith, ◌==◌,
  if◌then◌else◌, ltb, Option-cases, Bool-cases,
}
use cyberrt_on_rpi.Timer.Wheel.{TimingWheel, TimerTask, cascade_tasks, cascade, advance, push_back}
use cyberrt_on_rpi.Timer.Wheel.Due.{IsInRange, IsAbsent, IsDue}
use cyberrt_on_rpi.Timer.Wheel.Adding.{
  count-push_back, count-push_back_ne, get_work_wheel_index_lem, get_assistant_wheel_index_lem,
}

module _ (tasks : ℕ → Option TimerTask) (t : ℕ) where
  count-cascade_absent :
      (ts : List ℕ) (work : ℕ → List ℕ) (i : ℕ)
      → count t ts ≡ 0
      → count t (cascade_tasks tasks ts work i) ≡ count t (work i)
  unfolding cascade_tasks count
  count-cascade_absent [] work i h = refl
  count-cascade_absent (b ∷ ts) work i h = elim (Option-cases (tasks b)) [
    | inl gone ↦ rw gone (count-cascade_absent ts work i (ground arith))
    | inr (task, a) ↦ ground (
      arith,
      count-cascade_absent ts (push_back work task.remainder_interval_ms b) i,
      count-push_back_ne work task.remainder_interval_ms t b i,
    )
  ]

  count-cascade :
      (task : TimerTask)
      → tasks t ≡ some task
      → (ts : List ℕ) (work : ℕ → List ℕ) (i : ℕ)
      → count t (cascade_tasks tasks ts work i)
        ≡ count t (work i) + (if i == task.remainder_interval_ms then count t ts else 0)
  unfolding cascade_tasks count
  count-cascade task a [] work i = ground arith
  count-cascade task a (b ∷ ts) work i = elim (Bool-cases (t == b)) [
    | inl same ↦ ground (
      arith,
      count-cascade task a ts (push_back work task.remainder_interval_ms b) i,
      count-push_back work task.remainder_interval_ms b i,
    )
    | inr other ↦ elim (Option-cases (tasks b)) [
      | inl gone ↦ ground (arith, count-cascade task a ts work i)
      | inr (task', a') ↦ ground (
        arith,
        count-cascade task a ts (push_back work task'.remainder_interval_ms b) i,
        count-push_back_ne work task'.remainder_interval_ms t b i,
      )
    ]
  ]

-- The indices after one turn.
module _ (w : TimingWheel) (r : IsInRange w) where
  pub advance-IsInRange : IsInRange (advance w)
  unfolding advance
  advance-IsInRange = ground (
    arith,
    get_work_wheel_index_lem (w.current_work_wheel_index + 1),
    get_assistant_wheel_index_lem (w.current_assistant_wheel_index + 1),
  )

  -- Inside a round of the work wheel only its index moves.
  advance_inside :
      w.current_work_wheel_index < 511
      → advance w ≡ record w { current_work_wheel_index = w.current_work_wheel_index + 1 }
  unfolding advance
  advance_inside h = ground (arith, get_work_wheel_index_lem (w.current_work_wheel_index + 1))

  -- At the end of a round the next bucket of the assistant wheel is emptied onto the work wheel.
  advance_round :
      w.current_work_wheel_index ≡ 511
      → advance w
        ≡ cascade ((w.current_assistant_wheel_index + 1) % 64) (record w {
          current_work_wheel_index = 0;
          current_assistant_wheel_index = (w.current_assistant_wheel_index + 1) % 64;
        })
  unfolding advance
  advance_round h = ground (
    arith,
    get_work_wheel_index_lem (w.current_work_wheel_index + 1),
    get_assistant_wheel_index_lem (w.current_assistant_wheel_index + 1),
  )

module _ (t : ℕ) (w : TimingWheel) (r : IsInRange w) where
  pub advance-IsAbsent : IsAbsent t w → IsAbsent t (advance w)
  unfolding cascade count
  advance-IsAbsent h = elim (Bool-cases (w.current_work_wheel_index == 511)) [
    | inl last ↦ rw (advance_round w r (ground arith)) (
        let a = (w.current_assistant_wheel_index + 1) % 64 in
        record {
          not_work = λ i. ground (
            arith,
            h.not_work i,
            h.not_assistant a,
            count-cascade_absent w.tasks t (w.assistant_wheel a) w.work_wheel i,
          );
          not_assistant = λ i. ground (arith, h.not_assistant i);
        })
    | inr inside ↦
        rw (advance_inside w r (ground arith))
          (record { not_work = h.not_work; not_assistant = h.not_assistant })
  ]

  -- A task that is due in one tick more is due in `k` after the turn.
  pub advance-IsDue : (k : ℕ) → IsDue t (suc k) w → IsDue t k (advance w)
  unfolding cascade count
  advance-IsDue k h =
      let a = (w.current_assistant_wheel_index + 1) % 64 in
      elim (Bool-cases (w.current_work_wheel_index == 511)) [
        | inl last ↦ rw (advance_round w r (ground arith)) (record {
          task = h.task;
          is_alive = h.is_alive;
          placed = elim h.placed [
            | inl p ↦ inl (record {
              near = omega arith;
              once = λ i. ground (
                arith,
                p.once i,
                p.not_assistant a,
                count-cascade_absent w.tasks t (w.assistant_wheel a) w.work_wheel i,
              );
              not_assistant = λ i. ground (arith, p.not_assistant i);
            })
            | inr p ↦ elim (Bool-cases (ltb k 512)) [
              | inl near ↦ inl (record {
                near = ground arith;
                once = λ i. ground (
                  arith,
                  p.not_work i,
                  p.once a,
                  count-cascade w.tasks t h.task h.is_alive (w.assistant_wheel a) w.work_wheel i,
                );
                not_assistant = λ i. ground (arith, p.once i);
              })
              | inr far ↦ inr (record {
                wraps = ground arith;
                reached = ground arith;
                remainder = ground arith;
                not_work = λ i. ground (
                  arith,
                  p.not_work i,
                  p.once a,
                  count-cascade w.tasks t h.task h.is_alive (w.assistant_wheel a) w.work_wheel i,
                );
                once = λ i. ground (arith, p.once i);
              })
            ]
          ];
        })
        | inr inside ↦ rw (advance_inside w r (ground arith)) (record {
          task = h.task;
          is_alive = h.is_alive;
          placed = elim h.placed [
            | inl p ↦ inl (record {
              near = omega arith;
              once = λ i. ground (arith, p.once i);
              not_assistant = p.not_assistant;
            })
            | inr p ↦ elim (Bool-cases (ltb (w.current_work_wheel_index + 1 + k) 512)) [
              | inl near ↦ absurd (ground arith)
              | inr far ↦ inr (record {
                wraps = ground arith;
                reached = ground arith;
                remainder = ground arith;
                not_work = p.not_work;
                once = λ i. ground (arith, p.once i);
              })
            ]
          ];
        })
      ]

pub running-advance : (w : TimingWheel) → (advance w).running ≡ w.running
unfolding advance
running-advance w = ground arith
