-- ===== src/Scheduler/Choreography/Choice.antt =====
-- The routine that a processor of its own takes next.
use cyberrt_on_rpi.Base.{
  ◌+◌, All, append_assoc, leb→le, append-nil, subst, ℕ, ◌≤◌, ◌≡◌, refl, Bool, true, false, Option,
  none, some, List, [], ◌∷◌, ◌++◌, ◌==◌, leb, if◌then◌else◌, arith, length, update, Bool-cases, inl,
  inr, ap, sym, ◌∙◌, count, ==_iff,
}
use cyberrt_on_rpi.Scheduler.CRoutine.{CRoutine, is_ready, acquire, release, update_state}
use cyberrt_on_rpi.Scheduler.Context.Highest.{can_run, can_run_lem}
use cyberrt_on_rpi.Scheduler.Choreography.{
  ChoreographyContext, enqueue, choose, next_routine, addresses,
}

-- The priorities of a queue do not grow, and none is above `high`.
unfoldable pub IsDescending : ℕ → List (ℕ × ℕ) → Type 0
IsDescending high [] = Unit
IsDescending high ((p, x) ∷ queue) = (p ≤ high) × IsDescending p queue

-- The routines of a priority, in their order.
unfoldable pub of_priority : ℕ → List (ℕ × ℕ) → List ℕ
of_priority priority [] = []
of_priority priority ((p, x) ∷ queue) =
    let later = of_priority priority queue in if p == priority then x ∷ later else later

-- The routines that were put into an empty queue, in turn.
unfoldable pub enqueue_all : List (ℕ × ℕ) → List (ℕ × ℕ) → List (ℕ × ℕ)
enqueue_all [] queue = queue
enqueue_all ((p, x) ∷ more) queue = enqueue_all more (enqueue p x queue)

enqueue-IsDescending :
    (priority x high : ℕ) (queue : List (ℕ × ℕ))
    → priority ≤ high
    → IsDescending high queue
    → IsDescending high (enqueue priority x queue)
unfolding enqueue IsDescending
enqueue-IsDescending priority x high [] l h = (l, tt)
enqueue-IsDescending priority x high ((p, y) ∷ queue) l (m, h) =
    elim (Bool-cases (leb priority p)) [
      | inl below ↦
          rw below (m, enqueue-IsDescending priority x p queue (leb→le priority p below) h)
      | inr above ↦ rw above (l, (ground arith, h))
    ]

none_above :
    (priority p : ℕ) (queue : List (ℕ × ℕ))
    → IsDescending p queue
    → leb priority p ≡ false
    → of_priority priority queue ≡ []
unfolding of_priority IsDescending
none_above priority p [] h l = refl
none_above priority p ((q, y) ∷ queue) (m, h) l =
    let rest = none_above priority q queue h in ground arith

if-append :
    (b : Bool) (y : ℕ) (l m : List ℕ)
    → (if b then y ∷ (l ++ m) else l ++ m) ≡ (if b then y ∷ l else l) ++ m
if-append true y l m = refl
if-append false y l m = refl

put_first :
    (b : Bool) (x : ℕ) (l : List ℕ) → (if b then x ∷ [] else []) ++ l ≡ (if b then x ∷ l else l)
put_first true x l = refl
put_first false x l = refl

of_priority-enqueue :
    (q priority x high : ℕ) (queue : List (ℕ × ℕ))
    → IsDescending high queue
    → of_priority q (enqueue priority x queue)
      ≡ of_priority q queue ++ (if priority == q then x ∷ [] else [])
unfolding enqueue of_priority IsDescending
of_priority-enqueue q priority x high [] h = ground arith
of_priority-enqueue q priority x high ((p, y) ∷ queue) (m, h) =
    let rest = of_priority-enqueue q priority x p queue h in
    elim (Bool-cases (leb priority p)) [
      | inl below ↦ rw below (
          ap (λ l. if p == q then y ∷ l else l) rest
          ∙ if-append (p == q) y (of_priority q queue) (if priority == q then x ∷ [] else []))
      | inr above ↦ rw above (elim (Bool-cases (priority == q)) [
        | inl same ↦
            let e = (==_iff priority q).0 same in
            let empty =
              subst (λ n. of_priority n queue ≡ []) e (none_above priority p queue h above) in
            let other : (p == q) ≡ false = ground arith in rw (same, other, empty) refl
        | inr other ↦ rw other (sym (append-nil _))
      ])
    ]

-- The first routine of a queue that can be locked and is ready.
unfoldable pub first_ready : (ℕ → ℕ) → List (ℕ × ℕ) → (ℕ → CRoutine) → Option ℕ
first_ready now [] routines = none
first_ready now ((p, x) ∷ queue) routines =
    let later = first_ready now queue routines in
    if can_run (now (length queue)) (routines x) then some x else later

first_ready-update :
    (now : ℕ → ℕ) (queue : List (ℕ × ℕ)) (r : ℕ → CRoutine) (x : ℕ) (cr : CRoutine)
    → count x (addresses queue) ≡ 0
    → first_ready now queue (update r x cr) ≡ first_ready now queue r
unfolding first_ready addresses count
first_ready-update now [] r x cr h = refl
first_ready-update now ((p, y) ∷ queue) r x cr h =
    let rest = first_ready-update now queue r x cr in
    let other : (y == x) ≡ false = ground arith in rw (other, rest (ground arith)) refl

ready_locked :
    (t : ℕ) (cr : CRoutine)
    → is_ready (update_state t (acquire cr).0).state ≡ is_ready (update_state t cr).state
unfolding update_state acquire
ready_locked t cr = ground arith

fewer : (same : Bool) (n : ℕ) → (if same then 1 else 0) + n ≤ 1 → n ≤ 1
fewer same n h = ground arith

only : (x n : ℕ) → (if x == x then 1 else 0) + n ≤ 1 → n ≡ 0
only x n h = ground arith

choose_lem :
    (now : ℕ → ℕ) (queue : List (ℕ × ℕ)) (r : ℕ → CRoutine)
    → ((x : ℕ) → count x (addresses queue) ≤ 1)
    → (choose now queue r).1 ≡ first_ready now queue r
unfolding choose first_ready addresses count
choose_lem now [] r once = refl
choose_lem now ((p, x) ∷ queue) r once =
    let t = now (length queue) in
    let cr = update_state t (acquire (r x)).0 in
    let alone = only x (count x (addresses queue)) (once x) in
    let later = λ (y : ℕ). fewer (y == x) (count y (addresses queue)) (once y) in
    rw (can_run_lem t (r x)) (elim (Bool-cases (r x).lock) [
      | inl held ↦ rw held (choose_lem now queue r later)
      | inr free ↦ elim (Bool-cases (is_ready cr.state)) [
        | inl ready ↦ let ready' = sym (ready_locked t (r x)) ∙ ready in simp (free, ready, ready')
        | inr waits ↦
            let waits' = sym (ready_locked t (r x)) ∙ waits in
            simp (free, waits, waits')
              (choose_lem now queue (update r x (release cr)) later
                ∙ first_ready-update now queue r x (release cr) alone)
      ]
    ])

enqueue_all-IsDescending :
    (puts : List (ℕ × ℕ)) (queue : List (ℕ × ℕ)) (high : ℕ)
    → All (λ e. e.0 ≤ high) puts
    → IsDescending high queue
    → IsDescending high (enqueue_all puts queue)
unfolding enqueue_all All
enqueue_all-IsDescending [] queue high l h = h
enqueue_all-IsDescending ((p, x) ∷ puts) queue high (l, ls) h =
    enqueue_all-IsDescending puts (enqueue p x queue) high ls
      (enqueue-IsDescending p x high queue l h)

of_priority-enqueue_all :
    (puts : List (ℕ × ℕ)) (queue : List (ℕ × ℕ)) (high q : ℕ)
    → All (λ e. e.0 ≤ high) puts
    → IsDescending high queue
    → of_priority q (enqueue_all puts queue) ≡ of_priority q queue ++ of_priority q puts
unfolding enqueue_all All of_priority
of_priority-enqueue_all [] queue high q l h = sym (append-nil (of_priority q queue))
of_priority-enqueue_all ((p, x) ∷ puts) queue high q (l, ls) h =
    of_priority-enqueue_all puts (enqueue p x queue) high q ls
      (enqueue-IsDescending p x high queue l h)
    ∙ ap (λ m. m ++ of_priority q puts) (of_priority-enqueue q p x high queue h)
    ∙ append_assoc (of_priority q queue) (if p == q then x ∷ [] else []) (of_priority q puts)
    ∙ ap (λ m. of_priority q queue ++ m) (put_first (p == q) x (of_priority q puts))

-- The queue of a processor's own context lists the routines that were put into it from the highest priority
-- down, and those of one priority in the order in which they came; `NextRoutine` takes the first of the
-- queue that can be locked and is ready, and none on a stopped context (a queue has a routine once, and
-- `high` bounds the priorities).
pub choreographed :
    (now : ℕ → ℕ) (puts : List (ℕ × ℕ)) (stopped notified : Bool) (r : ℕ → CRoutine) (high q : ℕ)
    → All (λ e. e.0 ≤ high) puts
    → ((x : ℕ) → count x (addresses (enqueue_all puts [])) ≤ 1)
    → let queue = enqueue_all puts [] in
      let c : ChoreographyContext = record {
        stopped = stopped;
        notified = notified;
        cr_queue = queue;
      } in
      IsDescending high queue
      × (of_priority q queue ≡ of_priority q puts)
      × ((next_routine now c r).2 ≡ (if stopped then none else first_ready now queue r))
unfolding next_routine of_priority IsDescending
choreographed now puts true notified r high q l once =
    (enqueue_all-IsDescending puts [] high l tt, of_priority-enqueue_all puts [] high q l tt, refl)
choreographed now puts false notified r high q l once = (
  enqueue_all-IsDescending puts [] high l tt,
  of_priority-enqueue_all puts [] high q l tt,
  choose_lem now (enqueue_all puts []) r once,
)
