-- ===== src/Scheduler/Choreography/Tests.antt =====
-- Four routines on a processor of its own, and a task for a processor that there is not.
use cyberrt_on_rpi.Base.{
  ℕ, ◌≤◌, ◌≡◌, refl, Bool, true, false, Option, none, some, List, [], ◌∷◌, ◌==◌, if◌then◌else◌,
  arith, count, All,
}
use cyberrt_on_rpi.Scheduler.CRoutine.{CRoutine, init_routine, hang_up, stop, update_state, acquire}
use cyberrt_on_rpi.Scheduler.Context.Highest.{can_run}
use cyberrt_on_rpi.Scheduler.Classic.{find_id, find_queued, acquired}
use cyberrt_on_rpi.Scheduler.Choreography.{
  ChoreographyContext, ChoreographyTask, SchedulerChoreography, Outcome, returned, undefined,
  enqueue, next_routine, assign, has_processor, enqueue_at, dispatch_new, dispatch_if,
  dispatch_task, notify_processor, take_out, remove_queued, addresses, remove_at, remove_found,
  remove_croutine,
}
use cyberrt_on_rpi.Scheduler.Choreography.Choice.{
  IsDescending, of_priority, enqueue_all, first_ready, choreographed,
}
use cyberrt_on_rpi.Scheduler.Choreography.Misplaced.{misplaced}

-- The routine 1 waits for data, the others are ready.
abbrev routines : ℕ → CRoutine
routines x = if x == 1 then hang_up (init_routine x 0) else init_routine x 0

abbrev puts : List (ℕ × ℕ)
puts = (4, 3) ∷ (9, 1) ∷ (9, 2) ∷ (4, 0) ∷ []

once : (x : ℕ) → count x (addresses (enqueue_all puts [])) ≤ 1
unfolding enqueue_all enqueue addresses count
once x = ground arith

queue_of : enqueue_all puts [] ≡ (9, 1) ∷ (9, 2) ∷ (4, 3) ∷ (4, 0) ∷ []
unfolding enqueue_all enqueue
queue_of = refl

second : first_ready (λ _. 7) (enqueue_all puts []) routines ≡ some 2
unfolding enqueue_all enqueue first_ready can_run update_state acquire hang_up init_routine
second = refl

choreographed_example :
    IsDescending 9 (enqueue_all puts [])
    × (of_priority 4 (enqueue_all puts []) ≡ of_priority 4 puts)
    × ((next_routine
          (λ _. 7)
          (record { stopped = false; notified = true; cr_queue = enqueue_all puts [] })
          routines).2
        ≡ first_ready (λ _. 7) (enqueue_all puts []) routines)
unfolding All
choreographed_example =
    choreographed (λ _. 7) puts false true routines 9 4
      (omega arith, (omega arith, (omega arith, (omega arith, tt)))) once

-- Two processors of their own; the task 6 is configured for the processor 1, the task 7 for the processor 3.
abbrev confs : ℕ → Option ChoreographyTask
confs n =
    if n == 6
    then some (record { prio = 5; processor = some 1 })
    else if n == 7
    then some (record { prio = 25; processor = some 3 })
    else none

abbrev no_context : ChoreographyContext
no_context = record { stopped = false; notified = false; cr_queue = [] }

abbrev start : SchedulerChoreography
start = record {
  stopped = false;
  proc_num = 2;
  cr_confs = confs;
  id_cr = [];
  pctxs = λ _. no_context;
  pool = λ _. [];
  routines = routines;
  woken = [];
}

abbrev task : ℕ → CRoutine
task n = record (init_routine n 0) { name = n }

placed : ((dispatch_task 20 (task 6) start).0.pctxs 1).cr_queue ≡ (5, 20) ∷ []
unfolding dispatch_task dispatch_if dispatch_new assign has_processor enqueue_at enqueue find_id
    init_routine
placed = refl

abbrev is_returned : Outcome → Bool
is_returned (returned s b) = b
is_returned other = false

removed : is_returned (remove_croutine [] 6 (dispatch_task 20 (task 6) start).0) ≡ true
unfolding dispatch_task dispatch_if dispatch_new assign has_processor enqueue_at enqueue find_id
    init_routine remove_croutine remove_found remove_at remove_queued take_out find_queued addresses
    acquired stop acquire
removed = refl

misplaced_example :
    ((dispatch_task 20 (task 7) start).1 ≡ true)
    × ((dispatch_task 20 (task 7) start).0.pool 19 ≡ 20 ∷ [])
    × (notify_processor 7 (dispatch_task 20 (task 7) start).0 ≡ undefined)
    × (remove_croutine [] 7 (dispatch_task 20 (task 7) start).0 ≡ undefined)
unfolding find_id init_routine
misplaced_example = misplaced 20 (task 7) 25 3 [] start refl refl refl (omega arith)
