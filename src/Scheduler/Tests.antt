-- ===== src/Scheduler/Tests.antt =====
-- A choice on two queues.
use cyberrt_on_rpi.Base.{
  ℕ, ◌≤◌, arith, count, ◌≡◌, refl, false, none, some, [], ◌∷◌, if◌then◌else◌, ◌==◌,
}
use cyberrt_on_rpi.Scheduler.CRoutine.{
  CRoutine, init_routine, hang_up, set_update_flag, sleep_for, update_state, acquire, release,
}
use cyberrt_on_rpi.Scheduler.Context.{
  ClassicContext, next_routine, next_below, scan, after_scan, visit, after_visit, note_sleep,
  max_prio,
}
use cyberrt_on_rpi.Scheduler.Context.Highest.{highest_ready, times, is_it, LeftAs}
use cyberrt_on_rpi.Scheduler.Context.Choosing.{next_routine_lem}

-- At priority 7 the routine 1 waits for data; at priority 3 the routine 2 sleeps, and 3 was notified.
abbrev routines : ℕ → CRoutine
unfolding init_routine hang_up set_update_flag sleep_for
routines x =
    if x == 1
    then hang_up (init_routine 1 7)
    else if x == 2
    then sleep_for 100 50 (init_routine 2 3)
    else set_update_flag (hang_up (init_routine x 3))

abbrev context : ClassicContext
context = record {
  stop = false;
  sleep = record { need_sleep = false; wake_time = 0 };
  multi_pri_rq = λ i. if i == 7 then 1 ∷ [] else if i == 3 then 2 ∷ 3 ∷ [] else [];
  routines = routines;
}

context_runs : (next_routine (λ _. λ _. 120) context).1 ≡ some 3
unfolding next_routine next_below scan after_scan visit after_visit note_sleep update_state acquire
    release init_routine hang_up set_update_flag sleep_for
context_runs = refl

-- Later the routine 2 has to wake up.
context_wakes : (next_routine (λ _. λ _. 151) context).1 ≡ some 2
unfolding next_routine next_below scan after_scan visit after_visit note_sleep update_state acquire
    release init_routine hang_up set_update_flag sleep_for
context_wakes = refl

context_once : (x : ℕ) → times x max_prio context.multi_pri_rq ≤ 1
unfolding times count
context_once x = ground arith

next_routine_lem_example :
    let (c', o) = next_routine (λ _. λ _. 151) context in
    (o ≡ (
      if context.stop
      then none
      else highest_ready (λ _. λ _. 151) max_prio context.multi_pri_rq context.routines))
    × LeftAs (is_it 2 o) (context.routines 2) (c'.routines 2)
    × (c'.multi_pri_rq ≡ context.multi_pri_rq)
next_routine_lem_example = next_routine_lem (λ _. λ _. 151) context 2 context_once
