-- ===== src/Scheduler/Classic/Waking.antt =====
-- A routine that waits for data is notified, and can be chosen by a processor of its group.
use cyberrt_on_rpi.Base.{
  ◌⊎◌, ◌||◌, ℕ, zero, suc, ◌+◌, ◌≤◌, ◌<◌, ◌≡◌, refl, Bool, true, false, Option, none, some, is_some,
  List, [], ◌∷◌, ◌++◌, ◌==◌, if◌then◌else◌, arith, count, update, Bool-cases, inl, inr, ap, sym,
  ◌∙◌, ==_iff, subst, length, ◌&&◌, ltb,
}
use cyberrt_on_rpi.Scheduler.CRoutine.{CRoutine, is_waiting, update_state, set_update_flag}
use cyberrt_on_rpi.Scheduler.Context.{ClassicContext, Sleep, next_routine, max_prio}
use cyberrt_on_rpi.Scheduler.Context.Highest.{can_run, first_ready, highest_ready, or_else, times}
use cyberrt_on_rpi.Scheduler.Context.Choosing.{next_routine_lem}
use cyberrt_on_rpi.Scheduler.Classic.{
  SchedulerClassic, find_id, notify_task, notify_processor, notify_found, notify_group, flagged,
}
use cyberrt_on_rpi.Scheduler.Classic.Scheduled.{IsScheduled}
use cyberrt_on_rpi.Scheduler.Classic.Scheduled.Preserved.{self}
use cyberrt_on_rpi.Scheduler.Classic.Scheduled.TakenOut.{own_queue}
use cyberrt_on_rpi.Scheduler.Classic.Scheduled.Lookup.{
  le-entries, pointers, HasId, HasId-find_id, find_id-some,
}

-- A context of a group that runs, as its processor sees the queues.
unfoldable pub context_of : ℕ → Sleep → SchedulerClassic → ClassicContext
context_of group sleep s = record {
  stop = false;
  sleep = sleep;
  multi_pri_rq = s.cr_group group;
  routines = s.routines;
}

can_run-flagged :
    (now : ℕ) (cr : CRoutine)
    → is_waiting cr.state ≡ true
    → cr.lock ≡ false
    → can_run now (flagged cr) ≡ true
unfolding can_run flagged set_update_flag update_state
can_run-flagged now cr waits free = ground arith

cannot : (same can : Bool) → can ≡ false → (same ≡ true → can ≡ true) → same ≡ false
cannot true can h k = sym (k refl) ∙ h
cannot false can h k = refl

counted : (same : Bool) (n : ℕ) → same ≡ false → 1 ≤ (if same then 1 else 0) + n → 1 ≤ n
counted same n e h = ground arith

first_ready-some :
    (now : ℕ → ℕ) (r : ℕ → CRoutine) (a : ℕ) (q : List ℕ)
    → ((t : ℕ) → can_run t (r a) ≡ true)
    → 1 ≤ count a q
    → is_some (first_ready now q r) ≡ true
unfolding first_ready count
first_ready-some now r a [] can h = absurd (omega arith)
first_ready-some now r a (x ∷ q) can h =
    let rest = first_ready-some now r a q can in
    elim (Bool-cases (can_run (now (length q)) (r x))) [
      | inl chosen ↦ rw chosen refl
      | inr passed ↦
          let other = cannot (a == x) (can_run (now (length q)) (r x)) passed (λ e.
            ap (λ y. can_run (now (length q)) (r y)) (sym ((==_iff a x).0 e))
            ∙ can (now (length q))) in
          rw passed (rest (counted (a == x) (count a q) other h))
    ]

or_else-some : (o later : Option ℕ) → is_some (or_else o later) ≡ (is_some o || is_some later)
unfolding or_else
or_else-some (some x) later = refl
or_else-some none later = refl

below_top : (prio n : ℕ) → prio < suc n → (prio == n) ≡ false → prio < n
below_top prio n l h = ground arith

either : (b c : Bool) → (b ≡ true) ⊎ (c ≡ true) → (b || c) ≡ true
either b c h = ground arith

highest_ready-some :
    (now : ℕ → ℕ → ℕ) (queues : ℕ → List ℕ) (r : ℕ → CRoutine) (n prio : ℕ)
    → prio < n
    → is_some (first_ready (now prio) (queues prio) r) ≡ true
    → is_some (highest_ready now n queues r) ≡ true
unfolding highest_ready or_else
highest_ready-some now queues r zero prio l h = absurd (omega arith)
highest_ready-some now queues r (suc n) prio l h =
    let first = first_ready (now n) (queues n) r in
    or_else-some first (highest_ready now n queues r)
    ∙ either (is_some first) (is_some (highest_ready now n queues r))
        (elim (Bool-cases (prio == n)) [
          | inl same ↦ inl (
              subst (λ i. is_some (first_ready (now i) (queues i) r) ≡ true)
                ((==_iff prio n).0 same) h)
          | inr other ↦ inr (highest_ready-some now queues r n prio (below_top prio n l other) h)
        ])

at_most :
    (n ptr entry : ℕ) (b : Bool) → n ≤ (if b then ptr else 0) → ptr ≤ entry → entry ≤ 1 → n ≤ 1
at_most n ptr entry b h k l = ground arith

times-queues :
    (x n group ptr : ℕ) (cr : CRoutine) (queues : ℕ → List ℕ)
    → ((prio : ℕ)
        → count x (queues prio)
          ≡ (if cr.group_name == group && cr.priority == prio then ptr else 0))
    → times x n queues ≤ (if ltb cr.priority n then ptr else 0)
unfolding times
times-queues x zero group ptr cr queues h = omega arith
times-queues x (suc n) group ptr cr queues h =
    let rest = times-queues x n group ptr cr queues h in let here = h n in ground arith

-- A routine stands in the queues of a group once at most.
once :
    (group : ℕ) (s : SchedulerClassic)
    → IsScheduled s
    → (x : ℕ) → times x max_prio (s.cr_group group) ≤ 1
once group s h x =
    let cr = s.routines x in
    let few = le-entries s.routines x s.id_cr h.ids in
    let one = h.unique cr.id in
    let all =
      times-queues x max_prio group (pointers x s.id_cr) cr (s.cr_group group)
        (λ prio. h.queues group prio x) in
    at_most (times x max_prio (s.cr_group group)) (pointers x s.id_cr) _ (ltb cr.priority max_prio)
      all few one

-- A routine that is registered, waits for data or input, and is held by nobody: after it is notified, its
-- group has been notified last, and a context of its group that runs finds a routine to run, whatever the
-- clock shows.
pub notified_runs :
    (now : ℕ → ℕ → ℕ) (crid a : ℕ) (sleep : Sleep) (s : SchedulerClassic)
    → IsScheduled s
    → s.stopped ≡ false
    → find_id crid s.id_cr ≡ some a
    → is_waiting (s.routines a).state ≡ true
    → (s.routines a).lock ≡ false
    → let (s', found) = notify_task crid s in
      let group = (s.routines a).group_name in
      (found ≡ true)
      × (s'.notified ≡ s.notified ++ (group ∷ []))
      × (is_some (next_routine now (context_of group sleep s')).1 ≡ true)
unfolding notify_task notify_processor notify_found notify_group context_of HasId
notified_runs now crid a sleep s h runs e waits free =
    let cr = s.routines a in
    let r = update s.routines a (flagged cr) in
    let q = s.cr_group cr.group_name cr.priority in
    let low = (HasId-find_id s.routines crid a s.id_cr h.ids e).1 in
    let listed = find_id-some crid a s.id_cr e in
    let here =
      own_queue (count a q) (pointers a s.id_cr) cr.group_name cr.priority
        (h.queues cr.group_name cr.priority a) in
    let is : r a ≡ flagged cr = rw (self a) refl in
    let can = λ (t : ℕ). ap (can_run t) is ∙ can_run-flagged t cr waits free in
    let found = λ (t : ℕ → ℕ). first_ready-some t r a q can (omega (arith, listed, here)) in
    let chosen =
      highest_ready-some now (s.cr_group cr.group_name) r max_prio cr.priority low
        (found (now cr.priority)) in
    let c : ClassicContext = record {
      stop = false;
      sleep = sleep;
      multi_pri_rq = s.cr_group cr.group_name;
      routines = r;
    } in
    simp (runs, e)
      (refl, refl, ap is_some (next_routine_lem now c a (once cr.group_name s h)).0 ∙ chosen)
