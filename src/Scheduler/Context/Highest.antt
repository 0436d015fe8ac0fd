-- ===== src/Scheduler/Context/Highest.antt =====
-- The routine that is chosen is the first that can run, and the only one that is locked.
use cyberrt_on_rpi.Base.{
  ℕ, zero, suc, ◌+◌, ◌≤◌, ◌≡◌, refl, Bool, true, false, not, ◌&&◌, ◌||◌, inl, inr, Option, none,
  some, List, [], ◌∷◌, length, arith, if◌then◌else◌, ◌∙◌, ap, sym, subst, Bool-cases, update, ◌==◌,
  ltb, count, ==_iff, ==_refl,
}
use cyberrt_on_rpi.Scheduler.CRoutine.{
  CRoutine, RoutineState, ready, is_ready, is_sleep, is_waiting, acquire, release, update_state,
}
use cyberrt_on_rpi.Scheduler.Context.{Sleep, visit, after_visit, scan}

-- The routine is held by nobody, and is ready, or sleeps and its time has come before `now`, or waits and has
-- been notified.
unfoldable pub can_run : ℕ → CRoutine → Bool
can_run now cr =
    not cr.lock
    && (is_ready cr.state
        || (is_sleep cr.state && ltb cr.wake_time now)
        || (is_waiting cr.state && not cr.updated))

pub can_run_lem :
    (now : ℕ) (cr : CRoutine)
    → can_run now cr ≡ (not cr.lock && is_ready (update_state now cr).state)
unfolding can_run update_state
can_run_lem now cr = ground arith

-- The first of a queue that can run.
unfoldable pub first_ready : (ℕ → ℕ) → List ℕ → (ℕ → CRoutine) → Option ℕ
first_ready now [] routines = none
first_ready now (x ∷ xs) routines =
    let later = first_ready now xs routines in
    if can_run (now (length xs)) (routines x) then some x else later

unfoldable pub or_else : Option ℕ → Option ℕ → Option ℕ
or_else (some x) later = some x
or_else none later = later

-- The first of the queues below `n`, the highest first.
unfoldable pub highest_ready : (ℕ → ℕ → ℕ) → ℕ → (ℕ → List ℕ) → (ℕ → CRoutine) → Option ℕ
highest_ready now zero queues routines = none
highest_ready now (suc i) queues routines =
    or_else (first_ready (now i) (queues i) routines) (highest_ready now i queues routines)

-- How often a routine stands in the queues below `n`.
unfoldable pub times : ℕ → ℕ → (ℕ → List ℕ) → ℕ
times x zero queues = 0
times x (suc i) queues = count x (queues i) + times x i queues

abbrev pub is_it : ℕ → Option ℕ → Bool
is_it x none = false
is_it x (some y) = x == y

-- What is left of a routine: it is locked if it was, or if it has been chosen, and then it is ready.
abbrev pub LeftAs : Bool → CRoutine → CRoutine → Type 0
LeftAs chosen cr cr' =
    (cr'.lock ≡ (cr.lock || chosen))
    × (cr'.state ≡ (if chosen then ready else cr.state))
    × (cr'.id ≡ cr.id)

visit-chosen : (now : ℕ) (cr : CRoutine) (s : Sleep) → (visit now cr s).2 ≡ can_run now cr
unfolding visit can_run update_state acquire
visit-chosen now cr s = ground arith

ready_state : (st : RoutineState) → is_ready st ≡ true → st ≡ ready
ready_state st h = ground arith

visit-LeftAs :
    (now : ℕ) (cr : CRoutine) (s : Sleep) → LeftAs (visit now cr s).2 cr (visit now cr s).0
unfolding visit update_state acquire release
visit-LeftAs now cr s = (ground arith, ground arith, ground arith)

-- The queue behind its first routine.
head_count : (x y n : ℕ) → (if y == x then 1 else 0) + n ≤ 1 → n ≤ 1
head_count x y n h = ground arith

none_behind : (x n : ℕ) → (if x == x then 1 else 0) + n ≤ 1 → n ≡ 0
none_behind x n h = ground arith

not_head : (x y n : ℕ) → (if y == x then 1 else 0) + n ≡ 0 → ((y == x) ≡ false) × (n ≡ 0)
not_head x y n h = ground arith

after_visit-away :
    (x y : ℕ) (v : CRoutine × Sleep × Bool) (r : ℕ → CRoutine)
    (go_on : (ℕ → CRoutine) → Sleep → (ℕ → CRoutine) × Sleep × Option ℕ)
    → (y == x) ≡ false
    → ((r' : ℕ → CRoutine) (s : Sleep)
        → ((go_on r' s).0 y ≡ r' y) × (is_it y (go_on r' s).2 ≡ false))
    → let res = after_visit x v r go_on in (res.0 y ≡ r y) × (is_it y res.2 ≡ false)
unfolding after_visit
after_visit-away x y (cr, s, true) r go_on other h = (rw other refl, other)
after_visit-away x y (cr, s, false) r go_on other h =
    let (e, n) = h (update r x cr) s in (e ∙ rw other refl, n)

-- A routine that is not in the queue.
pub scan-away :
    (now : ℕ → ℕ) (xs : List ℕ) (y : ℕ) (r : ℕ → CRoutine) (s : Sleep)
    → count y xs ≡ 0
    → let res = scan now xs r s in (res.0 y ≡ r y) × (is_it y res.2 ≡ false)
unfolding scan count
scan-away now [] y r s h = (refl, refl)
scan-away now (x ∷ xs) y r s h =
    let (other, rest) = not_head x y (count y xs) h in
    after_visit-away x y (visit (now (length xs)) (r x) s) r (scan now xs) other
      (λ r' s'. scan-away now xs y r' s' rest)

pub left_alone : (cr : CRoutine) → LeftAs false cr cr
left_alone cr = (ground arith, refl, refl)

after_visit-LeftAs :
    (x y : ℕ) (v : CRoutine × Sleep × Bool) (r : ℕ → CRoutine)
    (go_on : (ℕ → CRoutine) → Sleep → (ℕ → CRoutine) × Sleep × Option ℕ)
    → LeftAs v.2 (r x) v.0
    → ((r' : ℕ → CRoutine) (s : Sleep)
        → ((go_on r' s).0 x ≡ r' x) × (is_it x (go_on r' s).2 ≡ false))
    → ((r' : ℕ → CRoutine) (s : Sleep) → LeftAs (is_it y (go_on r' s).2) (r' y) ((go_on r' s).0 y))
    → let res = after_visit x v r go_on in LeftAs (is_it y res.2) (r y) (res.0 y)
unfolding after_visit
after_visit-LeftAs x y (cr, s, true) r go_on left away rest = elim (Bool-cases (y == x)) [
  | inl same ↦ rw (same, (==_iff y x).0 same) left
  | inr other ↦ rw other (left_alone (r y))
]
after_visit-LeftAs x y (cr, s, false) r go_on left away rest = elim (Bool-cases (y == x)) [
  | inl same ↦
      let e = (==_iff y x).0 same in
      let (kept, n) = away (update r x cr) s in
      let res = go_on (update r x cr) s in
      let kept' : res.0 x ≡ cr = kept ∙ rw (==_refl x) refl in
      subst (λ z. LeftAs (is_it z res.2) (r z) (res.0 z)) (sym e)
        (subst (λ b. LeftAs b (r x) (res.0 x)) (sym n)
          (subst (λ c. LeftAs false (r x) c) (sym kept') left))
  | inr other ↦
      let res = go_on (update r x cr) s in
      let same : update r x cr y ≡ r y = rw other refl in
      subst (λ c. LeftAs (is_it y res.2) c (res.0 y)) same (rest (update r x cr) s)
]

-- What a search leaves of every routine.
pub scan-LeftAs :
    (now : ℕ → ℕ) (xs : List ℕ) (y : ℕ) (r : ℕ → CRoutine) (s : Sleep)
    → ((x : ℕ) → count x xs ≤ 1)
    → let res = scan now xs r s in LeftAs (is_it y res.2) (r y) (res.0 y)
unfolding scan count
scan-LeftAs now [] y r s once = left_alone (r y)
scan-LeftAs now (x ∷ xs) y r s once =
    after_visit-LeftAs x y (visit (now (length xs)) (r x) s) r (scan now xs)
      (visit-LeftAs (now (length xs)) (r x) s)
      (λ r' s'. scan-away now xs x r' s' (none_behind x (count x xs) (once x)))
      (λ r' s'. scan-LeftAs now xs y r' s' (λ z. head_count x z (count z xs) (once z)))

after_visit_lem :
    (x : ℕ) (v : CRoutine × Sleep × Bool) (r : ℕ → CRoutine)
    (go_on : (ℕ → CRoutine) → Sleep → (ℕ → CRoutine) × Sleep × Option ℕ)
    → (after_visit x v r go_on).2 ≡ (if v.2 then some x else (go_on (update r x v.0) v.1).2)
unfolding after_visit
after_visit_lem x (cr, s, true) r go_on = refl
after_visit_lem x (cr, s, false) r go_on = refl

-- Only the routines of a queue matter for it.
pub first_ready-same :
    (now : ℕ → ℕ) (xs : List ℕ) (r r' : ℕ → CRoutine)
    → ((y : ℕ) → 1 ≤ count y xs → r y ≡ r' y)
    → first_ready now xs r ≡ first_ready now xs r'
unfolding first_ready count
first_ready-same now [] r r' h = refl
first_ready-same now (x ∷ xs) r r' h =
    let e = h x (ground arith) in
    rw (e, first_ready-same now xs r r' (λ y n. h y (ground arith))) refl

away_update :
    (x y n : ℕ) (r : ℕ → CRoutine) (cr : CRoutine) (m : ℕ)
    → m ≡ 0
    → (x ≡ y → n ≡ m)
    → 1 ≤ n
    → update r x cr y ≡ r y
away_update x y n r cr m e h l = elim (Bool-cases (y == x)) [
  | inl same ↦ absurd (omega (arith, e, l, h (sym ((==_iff y x).0 same))))
  | inr other ↦ rw other refl
]

pub scan_lem :
    (now : ℕ → ℕ) (xs : List ℕ) (r : ℕ → CRoutine) (s : Sleep)
    → ((x : ℕ) → count x xs ≤ 1)
    → (scan now xs r s).2 ≡ first_ready now xs r
unfolding scan first_ready count
scan_lem now [] r s once = refl
scan_lem now (x ∷ xs) r s once =
    let t = now (length xs) in
    let v = visit t (r x) s in
    let first = after_visit_lem x v r (scan now xs) in
    let chosen = visit-chosen t (r x) s in
    let behind = none_behind x (count x xs) (once x) in
    elim (Bool-cases (can_run t (r x))) [
      | inl can ↦ first ∙ rw (chosen ∙ can, can) refl
      | inr cannot ↦
          first
          ∙ rw (chosen ∙ cannot, cannot)
              (scan_lem now xs (update r x v.0) v.1 (λ z. head_count x z (count z xs) (once z))
                ∙ first_ready-same now xs (update r x v.0) r (λ y n.
                  away_update x y (count y xs) r v.0 (count x xs) behind
                    (λ e. ap (λ z. count z xs) (sym e)) n))
    ]
