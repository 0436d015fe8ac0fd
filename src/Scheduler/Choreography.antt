-- ===== src/Scheduler/Choreography.antt =====
-- cyber/scheduler/policy/choreography_context.cc and scheduler_choreography.cc: processors with a queue of
-- their own each, and a pool of processors that share the queues of the default group. A routine is an object
-- that the table of the ids and a queue share, by its address. A context that is not there, or is not of the
-- class that the code casts it to, makes the outcome of a call undefined.
pub mod Choice
pub mod Misplaced
mod Tests
use cyberrt_on_rpi.Base.{
  ℕ, Bool, true, false, not, Option, none, some, List, [], ◌∷◌, ◌++◌, ◌==◌, leb, ltb, if◌then◌else◌,
  length, map, update,
}
use cyberrt_on_rpi.Scheduler.CRoutine.{CRoutine, is_ready, acquire, release, stop, update_state}
use cyberrt_on_rpi.Scheduler.Classic.{
  find_id, erase_id, find_queued, erase_queued, limit_priority, flagged, acquired,
}

-- `cr_queue` has the routines with the priorities under which they were put, as the multimap lists them.
pub record ChoreographyContext : Type 0 where
  pub stopped : Bool
  pub notified : Bool
  pub cr_queue : List (ℕ × ℕ)

-- A processor that is configured is not negative.
pub record ChoreographyTask : Type 0 where
  pub prio : ℕ
  pub processor : Option ℕ

-- The first `proc_num` contexts are `pctxs`; `pool` has the queues of the default group by priority, and
-- `woken` lists the calls of `notify_one`, by processor, or none for the pool.
pub record SchedulerChoreography : Type 0 where
  pub stopped : Bool
  pub proc_num : ℕ
  pub cr_confs : ℕ → Option ChoreographyTask
  pub id_cr : List (ℕ × ℕ)
  pub pctxs : ℕ → ChoreographyContext
  pub pool : ℕ → List ℕ
  pub routines : ℕ → CRoutine
  pub woken : List (Option ℕ)

-- A call returns, still waits for a routine, or is undefined.
pub data Outcome : Type 0 where
  returned : SchedulerChoreography → Bool → Outcome
  waiting : SchedulerChoreography → Outcome
  undefined : Outcome

-- `cr_queue_.emplace`: behind the routines of the same priority.
unfoldable pub enqueue : ℕ → ℕ → List (ℕ × ℕ) → List (ℕ × ℕ)
enqueue priority cr [] = (priority, cr) ∷ []
enqueue priority cr ((p, x) ∷ queue) =
    let later = enqueue priority cr queue in
    if leb priority p then (p, x) ∷ later else (priority, cr) ∷ (p, x) ∷ queue

-- The loop of `NextRoutine`; `now` gives the time at which the clock is read, by the number of routines
-- behind.
unfoldable pub choose : (ℕ → ℕ) → List (ℕ × ℕ) → (ℕ → CRoutine) → (ℕ → CRoutine) × Option ℕ
choose now [] routines = (routines, none)
choose now ((p, x) ∷ queue) routines =
    let cr = update_state (now (length queue)) (acquire (routines x)).0 in
    let passed = choose now queue routines in
    let waits = choose now queue (update routines x (release cr)) in
    if (routines x).lock
    then passed
    else if is_ready cr.state
    then (update routines x cr, some x)
    else waits

unfoldable pub clear_if_none : Option ℕ → ChoreographyContext → ChoreographyContext
clear_if_none (some cr) c = c
clear_if_none none c = record c { notified = false }

unfoldable pub next_routine :
    (ℕ → ℕ) → ChoreographyContext → (ℕ → CRoutine) → ChoreographyContext × (ℕ → CRoutine) × Option ℕ
next_routine now c routines =
    let (routines', cr) = choose now c.cr_queue routines in
    if c.stopped then (c, routines, none) else (clear_if_none cr c, routines', cr)

unfoldable pub assign : Option ChoreographyTask → CRoutine → CRoutine
assign none cr = cr
assign (some task) cr = elim task.processor [
  | none ↦ record cr { priority = task.prio }
  | some pid ↦ record cr { priority = task.prio; processor_id = some pid }
]

-- `pid < proc_num_`, where -1 is the largest number.
unfoldable pub has_processor : Option ℕ → ℕ → Bool
has_processor none proc_num = false
has_processor (some pid) proc_num = ltb pid proc_num

unfoldable pub enqueue_at : Option ℕ → ℕ → ℕ → (ℕ → ChoreographyContext) → ℕ → ChoreographyContext
enqueue_at none priority cr pctxs = pctxs
enqueue_at (some pid) priority cr pctxs =
    update pctxs pid (record (pctxs pid) { cr_queue = enqueue priority cr (pctxs pid).cr_queue })

-- The routine, with its configuration, is registered and put into the queue of its processor or the pool.
-- The default group has the name 0.
unfoldable pub dispatch_new : ℕ → CRoutine → SchedulerChoreography → SchedulerChoreography
dispatch_new address cr s =
    let pooled = record (limit_priority cr) { group_name = 0 } in
    if has_processor cr.processor_id s.proc_num
    then record s {
      id_cr = (cr.id, address) ∷ s.id_cr;
      routines = update s.routines address cr;
      pctxs = enqueue_at cr.processor_id cr.priority address s.pctxs;
    }
    else record s {
      id_cr = (cr.id, address) ∷ s.id_cr;
      routines = update s.routines address pooled;
      pool = update s.pool pooled.priority (s.pool pooled.priority ++ (address ∷ []));
    }

unfoldable pub dispatch_if :
    Option ℕ → ℕ → CRoutine → SchedulerChoreography → SchedulerChoreography × Bool
dispatch_if (some other) address cr s = (s, false)
dispatch_if none address cr s = (dispatch_new address (assign (s.cr_confs cr.name) cr) s, true)

unfoldable pub dispatch_task : ℕ → CRoutine → SchedulerChoreography → SchedulerChoreography × Bool
dispatch_task address cr s = dispatch_if (find_id cr.id s.id_cr) address cr s

-- `ChoreographyContext::Notify` of a processor
unfoldable pub notify_context : ℕ → SchedulerChoreography → SchedulerChoreography
notify_context pid s = if (s.pctxs pid).notified then s else record s {
  pctxs = update s.pctxs pid (record (s.pctxs pid) { notified = true });
  woken = s.woken ++ (some pid ∷ []);
}

unfoldable pub notify_at : Option ℕ → SchedulerChoreography → Outcome
notify_at none s = returned (record s { woken = s.woken ++ (none ∷ []) }) true
notify_at (some pid) s =
    if ltb pid s.proc_num then returned (notify_context pid s) true else undefined

unfoldable pub notify_found : Option ℕ → SchedulerChoreography → Outcome
notify_found none s = returned s false
notify_found (some cr) s =
    notify_at (s.routines cr).processor_id
      (record s { routines = update s.routines cr (flagged (s.routines cr)) })

unfoldable pub notify_processor : ℕ → SchedulerChoreography → Outcome
notify_processor crid s =
    if s.stopped then returned s true else notify_found (find_id crid s.id_cr) s

-- The routine of a queue is stopped and waited for; `erase` takes it out.
unfoldable pub take_out :
    Option CRoutine → ℕ → SchedulerChoreography → SchedulerChoreography → Outcome
take_out none address s erased = waiting s
take_out (some locked) address s erased =
    returned (record erased { routines = update s.routines address (release locked) }) true

unfoldable pub remove_queued :
    List (CRoutine → CRoutine)
    → Option ℕ
    → Bool
    → SchedulerChoreography
    → SchedulerChoreography
    → Outcome
remove_queued rounds none missing s erased = returned s missing
remove_queued rounds (some address) missing s erased =
    let s' = record s { routines = update s.routines address (stop (s.routines address)) } in
    take_out (acquired rounds (s'.routines address)) address s' erased

unfoldable pub addresses : List (ℕ × ℕ) → List ℕ
addresses [] = []
addresses ((p, x) ∷ queue) = x ∷ addresses queue

unfoldable pub erase_entry : ℕ → (ℕ → CRoutine) → List (ℕ × ℕ) → List (ℕ × ℕ)
erase_entry crid routines [] = []
erase_entry crid routines ((p, x) ∷ queue) =
    let later = erase_entry crid routines queue in
    if (routines x).id == crid then queue else (p, x) ∷ later

-- Out of the pool, or out of the queue of a processor, whose removal always counts as done.
unfoldable pub remove_at :
    List (CRoutine → CRoutine) → ℕ → CRoutine → Option ℕ → SchedulerChoreography → Outcome
remove_at rounds crid cr none s =
    let queue = s.pool cr.priority in
    remove_queued rounds (find_queued crid s.routines queue) false s
      (record s { pool = update s.pool cr.priority (erase_queued crid s.routines queue) })
remove_at rounds crid cr (some pid) s =
    let c = s.pctxs pid in
    if ltb pid s.proc_num
    then remove_queued rounds (find_queued crid s.routines (addresses c.cr_queue)) true s
        (record s {
          pctxs =
              update s.pctxs pid (record c { cr_queue = erase_entry crid s.routines c.cr_queue });
        })
    else undefined

unfoldable pub remove_found :
    List (CRoutine → CRoutine) → ℕ → Option ℕ → SchedulerChoreography → Outcome
remove_found rounds crid none s = returned s false
remove_found rounds crid (some address) s =
    let cr = s.routines address in
    remove_at rounds crid cr cr.processor_id
      (record s { routines = update s.routines address (stop cr); id_cr = erase_id crid s.id_cr })

unfoldable pub remove_croutine : List (CRoutine → CRoutine) → ℕ → SchedulerChoreography → Outcome
remove_croutine rounds crid s = remove_found rounds crid (find_id crid s.id_cr) s

unfoldable pub remove_task :
    (ℕ → ℕ) → List (CRoutine → CRoutine) → ℕ → SchedulerChoreography → Outcome
remove_task hash rounds name s =
    if s.stopped then returned s true else remove_croutine rounds (hash name) s
