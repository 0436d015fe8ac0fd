-- ===== src/Scheduler/Classic.antt =====
-- cyber/scheduler/policy/scheduler_classic.cc, `class SchedulerClassic`, and what it takes from
-- cyber/scheduler/scheduler.cc: tasks are created, notified and removed. A routine is an object that the
-- table of the ids and the queue of its group and priority share; both hold its address, and `routines`
-- gives the object. The mutex of an id makes each method one step.
pub mod Scheduled
pub mod Waking
mod Tests
use cyberrt_on_rpi.Base.{
  ℕ, ◌-◌, Bool, true, false, Option, none, some, List, [], ◌∷◌, ◌++◌, ◌==◌, leb, if◌then◌else◌,
  update,
}
use cyberrt_on_rpi.Scheduler.CRoutine.{
  CRoutine, init_routine, is_waiting, release, set_update_flag, stop,
}
use cyberrt_on_rpi.Scheduler.Context.{max_prio}

pub record ClassicTask : Type 0 where
  pub prio : ℕ
  pub group_name : ℕ

-- `cr_group` has the queues by group and priority, `first_group` is the name of the first configured
-- group, and `notified` lists the groups that were notified.
pub record SchedulerClassic : Type 0 where
  pub stopped : Bool
  pub cr_confs : ℕ → Option ClassicTask
  pub first_group : ℕ
  pub id_cr : List (ℕ × ℕ)
  pub cr_group : ℕ → ℕ → List ℕ
  pub routines : ℕ → CRoutine
  pub notified : List ℕ

unfoldable pub find_id : ℕ → List (ℕ × ℕ) → Option ℕ
find_id crid [] = none
find_id crid ((id, cr) ∷ rest) =
    let later = find_id crid rest in if id == crid then some cr else later

unfoldable pub erase_id : ℕ → List (ℕ × ℕ) → List (ℕ × ℕ)
erase_id crid [] = []
erase_id crid ((id, cr) ∷ rest) =
    let later = erase_id crid rest in if id == crid then rest else (id, cr) ∷ later

-- One queue is written anew.
abbrev pub update_queue : (ℕ → ℕ → List ℕ) → ℕ → ℕ → List ℕ → ℕ → ℕ → List ℕ
update_queue queues group prio queue = update queues group (update (queues group) prio queue)

unfoldable pub configure : Option ClassicTask → ℕ → CRoutine → CRoutine
configure (some task) first_group cr = record cr {
  priority = task.prio;
  group_name = task.group_name;
}
configure none first_group cr = record cr { group_name = first_group }

unfoldable pub limit_priority : CRoutine → CRoutine
limit_priority cr = if leb max_prio cr.priority then record cr { priority = max_prio - 1 } else cr

-- `ClassicContext::Notify`
unfoldable pub notify_group : ℕ → SchedulerClassic → SchedulerClassic
notify_group group s = record s { notified = s.notified ++ (group ∷ []) }

-- The routine, which is the object at `address`, is new.
unfoldable pub dispatch_new : ℕ → CRoutine → SchedulerClassic → SchedulerClassic
dispatch_new address cr s =
    let cr' = limit_priority (configure (s.cr_confs cr.name) s.first_group cr) in
    let queue = s.cr_group cr'.group_name cr'.priority in
    notify_group cr'.group_name (record s {
      id_cr = (cr.id, address) ∷ s.id_cr;
      routines = update s.routines address cr';
      cr_group = update_queue s.cr_group cr'.group_name cr'.priority (queue ++ (address ∷ []));
    })

unfoldable pub dispatch_if : Option ℕ → ℕ → CRoutine → SchedulerClassic → SchedulerClassic × Bool
dispatch_if (some other) address cr s = (s, false)
dispatch_if none address cr s = (dispatch_new address cr s, true)

unfoldable pub dispatch_task : ℕ → CRoutine → SchedulerClassic → SchedulerClassic × Bool
dispatch_task address cr s = dispatch_if (find_id cr.id s.id_cr) address cr s

-- `CreateTask`: the id is that of the name.
unfoldable pub create_task : (ℕ → ℕ) → ℕ → ℕ → SchedulerClassic → SchedulerClassic × Bool
create_task register_task_name address name s =
    if s.stopped
    then (s, false)
    else dispatch_task address (record (init_routine (register_task_name name) 0) { name = name }) s

unfoldable pub flagged : CRoutine → CRoutine
flagged cr = if is_waiting cr.state then set_update_flag cr else cr

unfoldable pub notify_found : Option ℕ → SchedulerClassic → SchedulerClassic × Bool
notify_found none s = (s, false)
notify_found (some cr) s = (
  notify_group (s.routines cr).group_name
      (record s { routines = update s.routines cr (flagged (s.routines cr)) }),
  true,
)

unfoldable pub notify_processor : ℕ → SchedulerClassic → SchedulerClassic × Bool
notify_processor crid s = if s.stopped then (s, true) else notify_found (find_id crid s.id_cr) s

unfoldable pub notify_task : ℕ → SchedulerClassic → SchedulerClassic × Bool
notify_task crid s = if s.stopped then (s, true) else notify_processor crid s

-- The first routine of a queue that has the id.
unfoldable pub find_queued : ℕ → (ℕ → CRoutine) → List ℕ → Option ℕ
find_queued crid routines [] = none
find_queued crid routines (cr ∷ queue) =
    let later = find_queued crid routines queue in
    if (routines cr).id == crid then some cr else later

unfoldable pub erase_queued : ℕ → (ℕ → CRoutine) → List ℕ → List ℕ
erase_queued crid routines [] = []
erase_queued crid routines (cr ∷ queue) =
    let later = erase_queued crid routines queue in
    if (routines cr).id == crid then queue else cr ∷ later

-- The loop of `Acquire`, over what others do to the routine before each further try; none while it waits.
unfoldable pub acquired : List (CRoutine → CRoutine) → CRoutine → Option CRoutine
acquired [] cr = if cr.lock then none else some (record cr { lock = true })
acquired (others ∷ rounds) cr =
    let later = acquired rounds (others cr) in
    if cr.lock then later else some (record cr { lock = true })

unfoldable pub take_out :
    Option CRoutine → ℕ → ℕ → CRoutine → SchedulerClassic → SchedulerClassic × Option Bool
take_out none crid address cr s = (s, none)
take_out (some locked) crid address cr s =
    let queue = erase_queued crid s.routines (s.cr_group cr.group_name cr.priority) in
    (
      record s {
        cr_group = update_queue s.cr_group cr.group_name cr.priority queue;
        routines = update s.routines address (release locked);
      },
      some true,
    )

-- `cr` is the routine of the id, as it was registered.
unfoldable pub remove_queued :
    List (CRoutine → CRoutine)
    → ℕ
    → CRoutine
    → Option ℕ
    → SchedulerClassic
    → SchedulerClassic × Option Bool
remove_queued rounds crid cr none s = (s, some false)
remove_queued rounds crid cr (some address) s =
    let s' = record s { routines = update s.routines address (stop (s.routines address)) } in
    take_out (acquired rounds (s'.routines address)) crid address cr s'

unfoldable pub remove_found :
    List (CRoutine → CRoutine) → ℕ → Option ℕ → SchedulerClassic → SchedulerClassic × Option Bool
remove_found rounds crid none s = (s, some false)
remove_found rounds crid (some address) s =
    let cr = s.routines address in
    let s' = record s {
      routines = update s.routines address (stop cr);
      id_cr = erase_id crid s.id_cr;
    } in
    remove_queued rounds crid cr
      (find_queued crid s'.routines (s'.cr_group cr.group_name cr.priority)) s'

unfoldable pub remove_croutine :
    List (CRoutine → CRoutine) → ℕ → SchedulerClassic → SchedulerClassic × Option Bool
remove_croutine rounds crid s = remove_found rounds crid (find_id crid s.id_cr) s

unfoldable pub remove_task :
    (ℕ → ℕ) → List (CRoutine → CRoutine) → ℕ → SchedulerClassic → SchedulerClassic × Option Bool
remove_task generate_hash_id rounds name s =
    if s.stopped then (s, some true) else remove_croutine rounds (generate_hash_id name) s
