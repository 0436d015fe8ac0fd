-- ===== src/Scheduler/Classic/Scheduled/Reached.antt =====
-- The states that a scheduler can reach by its calls and the work of its processors.
use cyberrt_on_rpi.Base.{
  ◌⊎◌, ◌≢◌, Bool, ltb, Bool-cases, Option-cases, inl, inr, ap, ◌∙◌, sym, ==_iff, ℕ, ◌≤◌, ◌<◌, ◌≡◌,
  refl, false, none, some, List, [], ◌∷◌, ◌++◌, All, update, Option, arith, count, ◌==◌,
  if◌then◌else◌, ◌&&◌,
}
use mathlib.Core.Option.{some-injective}
use cyberrt_on_rpi.Scheduler.CRoutine.{CRoutine, init_routine}
use cyberrt_on_rpi.Scheduler.Context.{max_prio}
use cyberrt_on_rpi.Scheduler.Classic.{
  SchedulerClassic, ClassicTask, dispatch_task, notify_processor, remove_croutine, find_id,
}
use cyberrt_on_rpi.Scheduler.Classic.Scheduled.{IsScheduled}
use cyberrt_on_rpi.Scheduler.Classic.Scheduled.Lookup.{
  pointers, entries, HasId, le-entries, find_id-pointers, find_id-some, HasId-find_id,
}
use cyberrt_on_rpi.Scheduler.Classic.Scheduled.Preserved.{
  IsScheduled-same, changed, dispatch_task-IsScheduled, notify_processor-IsScheduled,
}
use cyberrt_on_rpi.Scheduler.Classic.Scheduled.Removed.{KeepsPlace, remove_croutine-Removes}

-- A call of the scheduler, or a processor that changes the state of a routine. A dispatched routine is a
-- new object, and a routine that is waited for is given back in the end.
pub data Step : SchedulerClassic → SchedulerClassic → Type 0 where
  dispatches :
      (s : SchedulerClassic) (a : ℕ) (cr : CRoutine)
      → pointers a s.id_cr ≡ 0
      → Step s (dispatch_task a cr s).0
  notifies : (s : SchedulerClassic) (crid : ℕ) → Step s (notify_processor crid s).0
  removes :
      (s : SchedulerClassic) (rounds : List (CRoutine → CRoutine)) (f : CRoutine → CRoutine)
      (crid : ℕ)
      → All KeepsPlace (rounds ++ (f ∷ []))
      → ((c : CRoutine) → (f c).lock ≡ false)
      → Step s (remove_croutine (rounds ++ (f ∷ [])) crid s).0
  runs :
      (s : SchedulerClassic) (a : ℕ) (f : CRoutine → CRoutine)
      → KeepsPlace f
      → Step s (record s { routines = update s.routines a (f (s.routines a)) })

pub data Reach (s : SchedulerClassic) : SchedulerClassic → Type 0 where
  here : Reach s s
  next : {t u : SchedulerClassic} → Reach s t → Step t u → Reach s u

Step-IsScheduled : {s t : SchedulerClassic} → Step s t → IsScheduled s → IsScheduled t
unfolding KeepsPlace
Step-IsScheduled (dispatches s a cr fresh) h = dispatch_task-IsScheduled a cr s fresh h
Step-IsScheduled (notifies s crid) h = notify_processor-IsScheduled crid s h
Step-IsScheduled (removes s rounds f crid keep free) h =
    (remove_croutine-Removes rounds f crid s keep free h).keeps
Step-IsScheduled (runs s a f keep) h =
    IsScheduled-same s (update s.routines a (f (s.routines a)))
      (changed s.routines a (f (s.routines a)) (keep (s.routines a))) h

pub Reach-IsScheduled : {s t : SchedulerClassic} → IsScheduled s → Reach s t → IsScheduled t
Reach-IsScheduled h here = h
Reach-IsScheduled h (next r st) = Step-IsScheduled st (Reach-IsScheduled h r)

-- A scheduler before its first task.
unfoldable pub init_scheduler : (ℕ → Option ClassicTask) → ℕ → SchedulerClassic
init_scheduler cr_confs first_group = record {
  stopped = false;
  cr_confs = cr_confs;
  first_group = first_group;
  id_cr = [];
  cr_group = λ _. λ _. [];
  routines = λ _. init_routine 0 0;
  notified = [];
}

pub init_scheduler-IsScheduled :
    (cr_confs : ℕ → Option ClassicTask) (first_group : ℕ)
    → IsScheduled (init_scheduler cr_confs first_group)
unfolding init_scheduler All entries pointers count
init_scheduler-IsScheduled cr_confs first_group = record {
  ids = tt;
  unique = λ id. omega arith;
  queues = λ g p a. ground arith;
}

-- What was found is the address `a`.
unfoldable pub refers : ℕ → Option ℕ → Bool
refers a none = false
refers a (some b) = b == a

distinct : (b a : ℕ) → (b == a) ≡ false → b ≢ a
distinct b a h = ground arith

none_left : (n : ℕ) → ¬ (1 ≤ n) → n ≡ 0
none_left n h = ground arith

some_or_none : (n : ℕ) → (n ≡ 0) ⊎ (1 ≤ n)
some_or_none n = ground arith

pointers-refers :
    (a : ℕ) (s : SchedulerClassic)
    → IsScheduled s
    → pointers a s.id_cr ≡ (if refers a (find_id (s.routines a).id s.id_cr) then 1 else 0)
unfolding refers
pointers-refers a s h =
    let few = le-entries s.routines a s.id_cr h.ids in
    let one = h.unique (s.routines a).id in
    let found = find_id-pointers s.routines a s.id_cr h.ids one in
    elim (Option-cases (find_id (s.routines a).id s.id_cr)) [
      | inl missing ↦ rw missing (ground arith)
      | inr (b, e) ↦ rw e (elim (Bool-cases (b == a)) [
        | inl same ↦
            let k : find_id (s.routines a).id s.id_cr ≡ some a =
              e ∙ ap some ((==_iff b a).0 same) in
            let some_one = find_id-some (s.routines a).id a s.id_cr k in rw same (omega arith)
        | inr other ↦
            let absent = λ (k : 1 ≤ pointers a s.id_cr).
              distinct b a other (some-injective b a (sym e ∙ found k)) in
            rw other (none_left (pointers a s.id_cr) absent)
      ])
    ]

has_own_id :
    (crid a : ℕ) (s : SchedulerClassic)
    → IsScheduled s
    → (if refers a (find_id crid s.id_cr) then (s.routines a).id else crid) ≡ crid
unfolding refers HasId
has_own_id crid a s h = elim (Option-cases (find_id crid s.id_cr)) [
  | inl missing ↦ rw missing refl
  | inr (b, e) ↦ rw e (elim (Bool-cases (b == a)) [
    | inl same ↦
        let k : find_id crid s.id_cr ≡ some a = e ∙ ap some ((==_iff b a).0 same) in
        rw same (HasId-find_id s.routines crid a s.id_cr h.ids k).0
    | inr other ↦ rw other refl
  ])
]

low_queue :
    (n ptr own prio max : ℕ) (same : Bool)
    → n ≡ (if same && own == prio then ptr else 0)
    → ptr ≤ 1
    → (ptr ≡ 0) ⊎ (own < max)
    → n ≤ (if ltb prio max then 1 else 0)
low_queue n ptr own prio max same e few low = ground arith

both :
    (n ptr : ℕ) (t u : Bool)
    → n ≡ (if t then ptr else 0)
    → ptr ≡ (if u then 1 else 0)
    → n ≡ (if t && u then 1 else 0)
both n ptr t u e f = ground arith

all_three :
    (g p u : Bool) (n : ℕ)
    → n ≡ (if (g && p) && u then 1 else 0)
    → n ≡ (if g && p && u then 1 else 0)
all_three g p u n e = ground arith

-- No routine stands in a queue that there is not.
few_priorities :
    (a group prio : ℕ) (s : SchedulerClassic)
    → IsScheduled s
    → count a (s.cr_group group prio) ≤ (if ltb prio max_prio then 1 else 0)
unfolding HasId
few_priorities a group prio s h =
    let cr = s.routines a in
    let ptr = pointers a s.id_cr in
    let few = le-entries s.routines a s.id_cr h.ids in
    let one = h.unique cr.id in
    let found = find_id-pointers s.routines a s.id_cr h.ids one in
    let low : (ptr ≡ 0) ⊎ (cr.priority < max_prio) = elim (some_or_none ptr) [
      | inl out ↦ inl out
      | inr listed ↦ inr (HasId-find_id s.routines cr.id a s.id_cr h.ids (found listed)).1
    ] in
    low_queue (count a (s.cr_group group prio)) ptr cr.priority prio max_prio
      (cr.group_name == group) (h.queues group prio a) (omega arith) low

-- Whatever calls and processors have done, from a scheduler without tasks: the queue of a group and a
-- priority has a routine once if it is the routine that is registered under its id and has that group and
-- that priority, and not at all otherwise; only priorities below 20 have queues with routines; and the
-- routine that is found under an id has that id.
pub scheduled :
    (confs : ℕ → Option ClassicTask) (first : ℕ) {s : SchedulerClassic} (a group prio crid : ℕ)
    → Reach (init_scheduler confs first) s
    → let cr = s.routines a in
      (count a (s.cr_group group prio) ≡ (
        if cr.group_name == group && cr.priority == prio && refers a (find_id cr.id s.id_cr)
        then 1
        else 0))
      × (count a (s.cr_group group prio) ≤ (if ltb prio max_prio then 1 else 0))
      × ((if refers a (find_id crid s.id_cr) then cr.id else crid) ≡ crid)
scheduled confs first {s} a group prio crid r =
    let h = Reach-IsScheduled (init_scheduler-IsScheduled confs first) r in
    let cr = s.routines a in
    let refer = refers a (find_id cr.id s.id_cr) in
    let stands =
      both (count a (s.cr_group group prio)) (pointers a s.id_cr)
        (cr.group_name == group && cr.priority == prio) refer (h.queues group prio a)
        (pointers-refers a s h) in
    (
      all_three (cr.group_name == group) (cr.priority == prio) refer _ stands,
      few_priorities a group prio s h,
      has_own_id crid a s h,
    )
