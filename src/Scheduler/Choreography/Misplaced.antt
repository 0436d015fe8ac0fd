-- ===== src/Scheduler/Choreography/Misplaced.antt =====
-- A task that is configured for a processor that there is not.
use cyberrt_on_rpi.Base.{
  ℕ, ◌-◌, ◌≤◌, ◌≡◌, refl, true, false, none, some, List, [], ◌∷◌, ◌++◌, ◌==◌, leb, ltb,
  if◌then◌else◌, arith, ap, ◌∙◌, not-lt→ltb, subst,
}
use cyberrt_on_rpi.Scheduler.CRoutine.{CRoutine}
use cyberrt_on_rpi.Scheduler.Context.{max_prio}
use cyberrt_on_rpi.Scheduler.Classic.{find_id, limit_priority}
use cyberrt_on_rpi.Scheduler.Choreography.{
  SchedulerChoreography, ChoreographyTask, undefined, dispatch_task, dispatch_if, dispatch_new,
  assign, has_processor, notify_processor, notify_found, notify_at, remove_croutine, remove_found,
  remove_at,
}

self : (n : ℕ) → (n == n) ≡ true
self n = ground arith

pooled_priority :
    (cr : CRoutine)
    → (limit_priority cr).priority
      ≡ (if leb max_prio cr.priority then max_prio - 1 else cr.priority)
unfolding limit_priority
pooled_priority cr = ground arith

pooled_processor : (cr : CRoutine) → (limit_priority cr).processor_id ≡ cr.processor_id
unfolding limit_priority
pooled_processor cr = ground arith

dispatch_task_lem :
    (a : ℕ) (cr : CRoutine) (task : ChoreographyTask) (s : SchedulerChoreography)
    → find_id cr.id s.id_cr ≡ none
    → s.cr_confs cr.name ≡ some task
    → dispatch_task a cr s ≡ (dispatch_new a (assign (some task) cr) s, true)
unfolding dispatch_task dispatch_if
dispatch_task_lem a cr task s new conf = rw (new, conf) refl

notify_processor_lem :
    (crid a pid : ℕ) (s : SchedulerChoreography)
    → s.stopped ≡ false
    → find_id crid s.id_cr ≡ some a
    → (s.routines a).processor_id ≡ some pid
    → ltb pid s.proc_num ≡ false
    → notify_processor crid s ≡ undefined
unfolding notify_processor notify_found notify_at
notify_processor_lem crid a pid s runs found placed none_there =
    simp (runs, found, placed, none_there)

remove_croutine_lem :
    (rounds : List (CRoutine → CRoutine)) (crid a pid : ℕ) (s : SchedulerChoreography)
    → find_id crid s.id_cr ≡ some a
    → (s.routines a).processor_id ≡ some pid
    → ltb pid s.proc_num ≡ false
    → remove_croutine rounds crid s ≡ undefined
unfolding remove_croutine remove_found remove_at
remove_croutine_lem rounds crid a pid s found placed none_there = simp (found, placed, none_there)

-- What a task for a processor that there is not leaves behind.
dispatch_new_lem :
    (a pid : ℕ) (cr : CRoutine) (s : SchedulerChoreography)
    → cr.processor_id ≡ some pid
    → ltb pid s.proc_num ≡ false
    → let s' = dispatch_new a cr s in
      let queue = (limit_priority cr).priority in
      (s'.pool queue ≡ s.pool queue ++ (a ∷ []))
      × (find_id cr.id s'.id_cr ≡ some a)
      × ((s'.routines a).processor_id ≡ some pid)
      × (s'.stopped ≡ s.stopped)
      × (s'.proc_num ≡ s.proc_num)
unfolding dispatch_new has_processor find_id
dispatch_new_lem a pid cr s placed none_there =
    simp (placed, none_there, self, pooled_processor) (refl, refl, refl, refl, refl)

-- A new task that is configured for a processor that there is not (`proc_num` or above) is dispatched, into
-- the pool; but to notify it or to remove it then casts a context of the pool, or memory behind the contexts,
-- to the class that it is not of, so both are undefined.
pub misplaced :
    (a : ℕ) (cr : CRoutine) (prio pid : ℕ) (rounds : List (CRoutine → CRoutine))
    (s : SchedulerChoreography)
    → s.stopped ≡ false
    → find_id cr.id s.id_cr ≡ none
    → s.cr_confs cr.name ≡ some (record { prio = prio; processor = some pid })
    → s.proc_num ≤ pid
    → let (s', done) = dispatch_task a cr s in
      let queue = if leb max_prio prio then max_prio - 1 else prio in
      (done ≡ true)
      × (s'.pool queue ≡ s.pool queue ++ (a ∷ []))
      × (notify_processor cr.id s' ≡ undefined)
      × (remove_croutine rounds cr.id s' ≡ undefined)
unfolding assign
misplaced a cr prio pid rounds s runs new conf high =
    let none_there = not-lt→ltb pid s.proc_num high in
    let cr' : CRoutine = record cr { priority = prio; processor_id = some pid } in
    let s' = dispatch_new a cr' s in
    let (pooled, found, placed, runs', same) = dispatch_new_lem a pid cr' s refl none_there in
    let none_there' = ap (λ n. ltb pid n) same ∙ none_there in
    let limited = pooled_priority cr' in
    rw (dispatch_task_lem a cr (record { prio = prio; processor = some pid }) s new conf) (
      refl,
      subst (λ q. s'.pool q ≡ s.pool q ++ (a ∷ [])) limited pooled,
      notify_processor_lem cr.id a pid s' (runs' ∙ runs) found placed none_there',
      remove_croutine_lem rounds cr.id a pid s' found placed none_there',
    )
