-- ===== src/Scheduler/Classic/Scheduled/Preserved.antt =====
-- Dispatching, notifying and removing keep the table and the queues in agreement.
use cyberrt_on_rpi.Base.{
  ℕ, ◌+◌, ◌<◌, ◌≡◌, refl, Bool, true, false, Option, none, some, List, [], ◌∷◌, ◌++◌, ◌==◌, ◌&&◌,
  if◌then◌else◌, arith, All, All-map, count, count-append, update, ==_iff, subst, Bool-cases, inl,
  inr, sym, ◌∙◌, ap,
}
use cyberrt_on_rpi.Scheduler.CRoutine.{CRoutine, set_update_flag}
use cyberrt_on_rpi.Scheduler.Context.{max_prio}
use cyberrt_on_rpi.Scheduler.Classic.{
  ClassicTask, SchedulerClassic, find_id, dispatch_task, dispatch_if, dispatch_new, limit_priority,
  configure, notify_group, notify_processor, notify_found, flagged, update_queue,
}
use cyberrt_on_rpi.Scheduler.Classic.Scheduled.{IsScheduled}
use cyberrt_on_rpi.Scheduler.Classic.Scheduled.Lookup.{entries, pointers, HasId, find_id-none}

-- The two routines have the same id and belong to the same queue.
unfoldable pub SamePlace : CRoutine → CRoutine → Type 0
SamePlace c d = (c.id ≡ d.id) × (c.priority ≡ d.priority) × (c.group_name ≡ d.group_name)

pub same_queue :
    (r r' : ℕ → CRoutine) (group prio a n : ℕ)
    → SamePlace (r' a) (r a)
    → (if (r a).group_name == group && (r a).priority == prio then n else 0)
      ≡ (if (r' a).group_name == group && (r' a).priority == prio then n else 0)
unfolding SamePlace
same_queue r r' group prio a n (i, p, g) = simp (p, g) refl

-- The states of the routines do not matter.
pub IsScheduled-same :
    (s : SchedulerClassic) (r : ℕ → CRoutine)
    → ((a : ℕ) → SamePlace (r a) (s.routines a))
    → IsScheduled s
    → IsScheduled (record s { routines = r })
unfolding HasId SamePlace
IsScheduled-same s r same h = record {
  ids =
      All-map (HasId s.routines) (HasId r) s.id_cr
        (λ e k. ((same e.1).0 ∙ k.0, omega (arith, k.1, (same e.1).1))) h.ids;
  unique = h.unique;
  queues = λ g p a. h.queues g p a ∙ same_queue s.routines r g p a (pointers a s.id_cr) (same a);
}

-- One routine is changed in its place.
pub changed :
    (r : ℕ → CRoutine) (a : ℕ) (cr : CRoutine)
    → SamePlace cr (r a)
    → (b : ℕ) → SamePlace (update r a cr b) (r b)
unfolding SamePlace
changed r a cr h b = elim (Bool-cases (b == a)) [
  | inl same ↦ rw same (subst (λ x. SamePlace cr (r x)) (sym ((==_iff b a).0 same)) h)
  | inr other ↦ rw other (refl, refl, refl)
]

notify_group-IsScheduled :
    (group : ℕ) (s : SchedulerClassic) → IsScheduled s → IsScheduled (notify_group group s)
unfolding notify_group
notify_group-IsScheduled group s h = record { ids = h.ids; unique = h.unique; queues = h.queues }

flagged-SamePlace : (cr : CRoutine) → SamePlace (flagged cr) cr
unfolding SamePlace flagged set_update_flag
flagged-SamePlace cr = ground arith

notify_found-IsScheduled :
    (o : Option ℕ) (s : SchedulerClassic) → IsScheduled s → IsScheduled (notify_found o s).0
unfolding notify_found
notify_found-IsScheduled none s h = h
notify_found-IsScheduled (some a) s h =
    let r = update s.routines a (flagged (s.routines a)) in
    notify_group-IsScheduled (s.routines a).group_name (record s { routines = r })
      (IsScheduled-same s r
        (changed s.routines a (flagged (s.routines a)) (flagged-SamePlace (s.routines a))) h)

pub notify_processor-IsScheduled :
    (crid : ℕ) (s : SchedulerClassic) → IsScheduled s → IsScheduled (notify_processor crid s).0
unfolding notify_processor
notify_processor-IsScheduled crid s h = elim (Bool-cases s.stopped) [
  | inl stopped ↦ simp stopped h
  | inr runs ↦ simp runs (notify_found-IsScheduled (find_id crid s.id_cr) s h)
]

pub self : (a : ℕ) → (a == a) ≡ true
self a = ground arith

update_queue-hit : (q : ℕ → ℕ → List ℕ) (g p : ℕ) (v : List ℕ) → update_queue q g p v g p ≡ v
update_queue-hit q g p v = rw (self g, self p) refl

update_queue-miss :
    (q : ℕ → ℕ → List ℕ) (g' p' g p : ℕ) (v : List ℕ)
    → (g' == g && p' == p) ≡ false
    → update_queue q g' p' v g p ≡ q g p
update_queue-miss q g' p' g p v h = elim (Bool-cases (g == g')) [
  | inl here ↦
      let other : (p == p') ≡ false = ground arith in
      let e = (==_iff g g').0 here in rw (here, other) (ap (λ x. q x p) (sym e))
  | inr there ↦ rw there refl
]

-- What the queues hold of `b`, when the queue of `g'` and `p'` is written anew with `n` for `b`.
pub count-update_queue :
    (q : ℕ → ℕ → List ℕ) (g' p' g p b n m : ℕ) (v : List ℕ)
    → count b v + m ≡ count b (q g' p') + n
    → count b (update_queue q g' p' v g p) + (if g' == g && p' == p then m else 0)
      ≡ count b (q g p) + (if g' == g && p' == p then n else 0)
count-update_queue q g' p' g p b n m v h = elim (Bool-cases (g' == g && p' == p)) [
  | inl here ↦
      let eg : g' ≡ g = ground arith in
      let ep : p' ≡ p = ground arith in
      let hit = subst (λ x. update_queue q g' p' v x p' ≡ v) eg (update_queue-hit q g' p' v) in
      let hit' = subst (λ y. update_queue q g' p' v g y ≡ v) ep hit in
      let was : q g p ≡ q g' p' = ap (λ x. q x p) (sym eg) ∙ ap (q g') (sym ep) in
      rw (here, hit', was) h
  | inr there ↦ rw (there, update_queue-miss q g' p' g p v there) refl
]

limit_priority-lt : (cr : CRoutine) → (limit_priority cr).priority < max_prio
unfolding limit_priority
limit_priority-lt cr = ground arith

configured_id :
    (o : Option ClassicTask) (first : ℕ) (cr : CRoutine)
    → (limit_priority (configure o first cr)).id ≡ cr.id
unfolding limit_priority configure
configured_id none first cr = ground arith
configured_id (some t) first cr = ground arith

All-fresh :
    (r : ℕ → CRoutine) (a : ℕ) (cr : CRoutine) (l : List (ℕ × ℕ))
    → pointers a l ≡ 0
    → All (HasId r) l
    → All (HasId (update r a cr)) l
unfolding All HasId pointers
All-fresh r a cr [] h k = k
All-fresh r a cr ((id, x) ∷ l) h (k, ks) =
    let other : (x == a) ≡ false = ground arith in
    rw other (k, All-fresh r a cr l (ground arith) ks)

one_more :
    (n c ptr : ℕ) (t u : Bool)
    → n + (if t then 0 else 0) ≡ c + (if t then 1 else 0)
    → c ≡ (if u then ptr else 0)
    → ptr ≡ 0
    → n ≡ (if t then 1 + ptr else 0)
one_more n c ptr t u e was none' = ground arith

no_more :
    (n c ptr : ℕ) (t u : Bool)
    → n + (if t then 0 else 0) ≡ c + (if t then 0 else 0)
    → c ≡ (if u then ptr else 0)
    → n ≡ (if u then 0 + ptr else 0)
no_more n c ptr t u e was = ground arith

-- A new object, which the table does not have, is registered.
dispatch_new-IsScheduled :
    (a : ℕ) (cr : CRoutine) (s : SchedulerClassic)
    → pointers a s.id_cr ≡ 0
    → entries cr.id s.id_cr ≡ 0
    → IsScheduled s
    → IsScheduled (dispatch_new a cr s)
unfolding dispatch_new notify_group All HasId entries pointers count
dispatch_new-IsScheduled a cr s fresh free h =
    let cr' = limit_priority (configure (s.cr_confs cr.name) s.first_group cr) in
    let r = update s.routines a cr' in
    let v = s.cr_group cr'.group_name cr'.priority ++ (a ∷ []) in
    record {
      ids = rw (self a) (
        (
          configured_id (s.cr_confs cr.name) s.first_group cr,
          limit_priority-lt (configure (s.cr_confs cr.name) s.first_group cr),
        ),
        All-fresh s.routines a cr' s.id_cr fresh h.ids,
      );
      unique = λ id. let u = h.unique id in ground arith;
      queues = λ g p b.
          let was = h.queues g p b in
          let q = s.cr_group cr'.group_name cr'.priority in
          let here = cr'.group_name == g && cr'.priority == p in
          let there = (s.routines b).group_name == g && (s.routines b).priority == p in
          let pushed = count-append b q (a ∷ []) in
          let now = λ (n : ℕ) (e : count b (a ∷ []) ≡ n).
            count-update_queue s.cr_group cr'.group_name cr'.priority g p b n 0 v
              (omega (arith, pushed, e)) in
          elim (Bool-cases (b == a)) [
            | inl same ↦
                let none' = ap (λ x. pointers x s.id_cr) ((==_iff b a).0 same) ∙ fresh in
                rw same (
                  one_more (count b (update_queue s.cr_group cr'.group_name cr'.priority v g p))
                    (count b (s.cr_group g p)) (pointers b s.id_cr) here there
                    (now 1 (rw same refl)) was none')
            | inr other ↦ rw other (
                no_more (count b (update_queue s.cr_group cr'.group_name cr'.priority v g p))
                  (count b (s.cr_group g p)) (pointers b s.id_cr) here there (now 0 (rw other refl))
                  was)
          ];
    }

dispatch_if-IsScheduled :
    (o : Option ℕ) (a : ℕ) (cr : CRoutine) (s : SchedulerClassic)
    → find_id cr.id s.id_cr ≡ o
    → pointers a s.id_cr ≡ 0
    → IsScheduled s
    → IsScheduled (dispatch_if o a cr s).0
unfolding dispatch_if
dispatch_if-IsScheduled (some other) a cr s e fresh h = h
dispatch_if-IsScheduled none a cr s e fresh h =
    dispatch_new-IsScheduled a cr s fresh (find_id-none cr.id s.id_cr e) h

-- `DispatchTask` with a new object.
pub dispatch_task-IsScheduled :
    (a : ℕ) (cr : CRoutine) (s : SchedulerClassic)
    → pointers a s.id_cr ≡ 0
    → IsScheduled s
    → IsScheduled (dispatch_task a cr s).0
unfolding dispatch_task
dispatch_task-IsScheduled a cr s fresh h =
    dispatch_if-IsScheduled (find_id cr.id s.id_cr) a cr s refl fresh h
