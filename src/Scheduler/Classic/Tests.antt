-- ===== src/Scheduler/Classic/Tests.antt =====
-- Three tasks of two groups: created, notified and removed.
use cyberrt_on_rpi.Base.{
  update, ℕ, ◌+◌, ◌≤◌, ◌≡◌, refl, true, false, Option, none, some, is_some, [], ◌∷◌, ◌++◌, ◌==◌,
  ◌&&◌, ltb, if◌then◌else◌, count,
}
use cyberrt_on_rpi.Scheduler.CRoutine.{CRoutine, init_routine, hang_up, stop}
use cyberrt_on_rpi.Scheduler.Context.{max_prio, next_routine, Sleep}
use cyberrt_on_rpi.Scheduler.Classic.{
  ClassicTask, SchedulerClassic, find_id, find_queued, create_task, dispatch_task, dispatch_if,
  dispatch_new, configure, limit_priority, notify_group, notify_task, remove_croutine, remove_found,
  remove_queued, take_out, acquired, remove_task,
}
use cyberrt_on_rpi.Scheduler.Classic.Scheduled.{IsScheduled}
use cyberrt_on_rpi.Scheduler.Classic.Scheduled.Lookup.{pointers}
use cyberrt_on_rpi.Scheduler.Classic.Scheduled.Preserved.{SamePlace}
use cyberrt_on_rpi.Scheduler.Classic.Scheduled.Removed.{KeepsPlace}
use cyberrt_on_rpi.Scheduler.Classic.Scheduled.Reached.{
  Reach, here, next, dispatches, runs, init_scheduler, scheduled, refers, Reach-IsScheduled,
  init_scheduler-IsScheduled,
}
use cyberrt_on_rpi.Scheduler.Classic.Waking.{context_of, notified_runs}

-- The task with the name 5 has the priority 30 in the group 2; the others are in the first group.
abbrev confs : ℕ → Option ClassicTask
confs n = if n == 5 then some (record { prio = 30; group_name = 2 }) else none

abbrev hash : ℕ → ℕ
hash n = n + 1000

abbrev start : SchedulerClassic
start = init_scheduler confs 1

-- The task 5 at the address 8 and the task 6 at the address 9.
abbrev with_tasks : SchedulerClassic
with_tasks = (create_task hash 9 6 (create_task hash 8 5 start).0).0

with_tasks_queues :
    (with_tasks.cr_group 2 19 ≡ 8 ∷ [])
    × (with_tasks.cr_group 1 0 ≡ 9 ∷ [])
    × (with_tasks.notified ≡ 2 ∷ 1 ∷ [])
unfolding find_id dispatch_if dispatch_new configure limit_priority notify_group init_routine
    create_task dispatch_task init_scheduler
with_tasks_queues = (refl, refl, refl)

created_twice : (create_task hash 10 6 with_tasks).1 ≡ false
unfolding find_id dispatch_if dispatch_new configure limit_priority notify_group init_routine
    create_task dispatch_task init_scheduler
created_twice = refl

removed : (remove_task hash [] 5 with_tasks).1 ≡ some true
unfolding find_id dispatch_if dispatch_new configure limit_priority notify_group init_routine
    remove_task remove_croutine remove_found remove_queued find_queued take_out acquired stop
    create_task dispatch_task init_scheduler
removed = refl

abbrev task_five : CRoutine
task_five = record (init_routine 1005 0) { name = 5 }

abbrev dispatched : SchedulerClassic
dispatched = (dispatch_task 8 task_five start).0

-- The task has run, and waits for data.
abbrev asleep : SchedulerClassic
asleep = record dispatched {
  routines = update dispatched.routines 8 (hang_up (dispatched.routines 8));
}

reached : Reach start asleep
unfolding pointers init_scheduler KeepsPlace SamePlace hang_up
reached =
    next (next here (dispatches start 8 task_five refl))
      (runs dispatched 8 hang_up (λ cr. (refl, refl, refl)))

asleep-IsScheduled : IsScheduled asleep
asleep-IsScheduled = Reach-IsScheduled (init_scheduler-IsScheduled confs 1) reached

scheduled_example :
    (count 8 (asleep.cr_group 2 19) ≡ (
      if (asleep.routines 8).group_name == 2
        && (asleep.routines 8).priority == 19
        && refers 8 (find_id (asleep.routines 8).id asleep.id_cr)
      then 1
      else 0))
    × (count 8 (asleep.cr_group 2 19) ≤ (if ltb 19 max_prio then 1 else 0))
    × ((if refers 8 (find_id 1005 asleep.id_cr) then (asleep.routines 8).id else 1005) ≡ 1005)
scheduled_example = scheduled confs 1 8 2 19 1005 reached

abbrev no_sleep : Sleep
no_sleep = record { need_sleep = false; wake_time = 0 }

notified_runs_example :
    ((notify_task 1005 asleep).1 ≡ true)
    × ((notify_task 1005 asleep).0.notified
        ≡ asleep.notified ++ ((asleep.routines 8).group_name ∷ []))
    × (is_some
          (next_routine
            (λ _. λ _. 77)
            (context_of (asleep.routines 8).group_name no_sleep (notify_task 1005 asleep).0)).1
        ≡ true)
unfolding find_id dispatch_if dispatch_new configure limit_priority notify_group init_routine
    dispatch_task init_scheduler hang_up
notified_runs_example =
    notified_runs (λ _. λ _. 77) 1005 8 no_sleep asleep asleep-IsScheduled refl refl refl refl
