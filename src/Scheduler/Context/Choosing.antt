-- ===== src/Scheduler/Context/Choosing.antt =====
-- What `NextRoutine` chooses from the queues of all priorities, and what it leaves.
use cyberrt_on_rpi.Base.{
  ℕ, zero, suc, ◌+◌, ◌≤◌, ◌≡◌, ◌⊎◌, refl, false, inl, inr, Option, none, some, List, arith,
  if◌then◌else◌, ◌∙◌, sym, subst, Bool-cases, count,
}
use cyberrt_on_rpi.Scheduler.CRoutine.{CRoutine}
use cyberrt_on_rpi.Scheduler.Context.{
  ClassicContext, Sleep, scan, after_scan, next_below, next_routine, max_prio,
}
use cyberrt_on_rpi.Scheduler.Context.Highest.{
  or_else, highest_ready, times, is_it, LeftAs, left_alone, first_ready-same, scan_lem, scan-LeftAs,
  scan-away,
}

after_scan_lem :
    (res : (ℕ → CRoutine) × Sleep × Option ℕ) (c : ClassicContext)
    (lower : ClassicContext → ClassicContext × Option ℕ)
    → (after_scan res c lower).1
      ≡ or_else res.2 (lower (record c { sleep = res.1; routines = res.0 })).1
unfolding after_scan or_else
after_scan_lem (r, s, some x) c lower = refl
after_scan_lem (r, s, none) c lower = refl

first_count : (m n : ℕ) → m + n ≤ 1 → m ≤ 1
first_count m n h = omega (arith, h)

later_count : (m n : ℕ) → m + n ≤ 1 → n ≤ 1
later_count m n h = omega (arith, h)

one_of : (m n : ℕ) → m + n ≤ 1 → (m ≡ 0) ⊎ (n ≡ 0)
one_of m n h = ground arith

other_none : (m n : ℕ) → m + n ≤ 1 → 1 ≤ n → m ≡ 0
other_none m n h l = omega (arith, h, l)

-- Only the routines of the queues matter for what is chosen.
highest_ready-same :
    (now : ℕ → ℕ → ℕ) (n : ℕ) (queues : ℕ → List ℕ) (r r' : ℕ → CRoutine)
    → ((y : ℕ) → 1 ≤ times y n queues → r y ≡ r' y)
    → highest_ready now n queues r ≡ highest_ready now n queues r'
unfolding highest_ready times
highest_ready-same now zero queues r r' h = refl
highest_ready-same now (suc i) queues r r' h =
    rw
      (
        first_ready-same (now i) (queues i) r r' (λ y l. h y (omega (arith, l))),
        highest_ready-same now i queues r r' (λ y l. h y (omega (arith, l))),
      )
      refl

-- What holds of the lower priorities, with a routine that stands nowhere.
after_scan-away :
    (y : ℕ) (res : (ℕ → CRoutine) × Sleep × Option ℕ) (c : ClassicContext)
    (lower : ClassicContext → ClassicContext × Option ℕ)
    → (res.0 y ≡ c.routines y) × (is_it y res.2 ≡ false)
    → (let below = lower (record c { sleep = res.1; routines = res.0 }) in
        (below.0.routines y ≡ res.0 y) × (is_it y below.1 ≡ false))
    → let all = after_scan res c lower in
      (all.0.routines y ≡ c.routines y) × (is_it y all.1 ≡ false)
unfolding after_scan
after_scan-away y (r, s, some x) c lower h below = h
after_scan-away y (r, s, none) c lower h below = (below.0 ∙ h.0, below.1)

next_below-away :
    (now : ℕ → ℕ → ℕ) (n y : ℕ) (c : ClassicContext)
    → times y n c.multi_pri_rq ≡ 0
    → let res = next_below now n c in (res.0.routines y ≡ c.routines y) × (is_it y res.1 ≡ false)
unfolding next_below times
next_below-away now zero y c h = (refl, refl)
next_below-away now (suc i) y c h =
    let res = scan (now i) (c.multi_pri_rq i) c.routines c.sleep in
    after_scan-away y res c (next_below now i)
      (scan-away (now i) (c.multi_pri_rq i) y c.routines c.sleep (omega (arith, h)))
      (next_below-away now i y (record c { sleep = res.1; routines = res.0 }) (omega (arith, h)))

after_scan-LeftAs :
    (y : ℕ) (res : (ℕ → CRoutine) × Sleep × Option ℕ) (c : ClassicContext)
    (lower : ClassicContext → ClassicContext × Option ℕ)
    → LeftAs (is_it y res.2) (c.routines y) (res.0 y)
    → (res.2 ≡ none
        → let below = lower (record c { sleep = res.1; routines = res.0 }) in
          LeftAs (is_it y below.1) (c.routines y) (below.0.routines y))
    → let all = after_scan res c lower in LeftAs (is_it y all.1) (c.routines y) (all.0.routines y)
unfolding after_scan
after_scan-LeftAs y (r, s, some x) c lower h below = h
after_scan-LeftAs y (r, s, none) c lower h below = below refl

next_below-LeftAs :
    (now : ℕ → ℕ → ℕ) (n y : ℕ) (c : ClassicContext)
    → ((x : ℕ) → times x n c.multi_pri_rq ≤ 1)
    → let res = next_below now n c in LeftAs (is_it y res.1) (c.routines y) (res.0.routines y)
unfolding next_below times
next_below-LeftAs now zero y c once = left_alone (c.routines y)
next_below-LeftAs now (suc i) y c once =
    let q = c.multi_pri_rq i in
    let res = scan (now i) q c.routines c.sleep in
    let c' = record c { sleep = res.1; routines = res.0 } in
    let below = next_below now i c' in
    let here =
      scan-LeftAs (now i) q y c.routines c.sleep (λ x. first_count (count x q) _ (once x)) in
    after_scan-LeftAs y res c (next_below now i) here (λ e. elim (one_of _ _ (once y)) [
      | inl away ↦
          subst (λ cr. LeftAs (is_it y below.1) cr (below.0.routines y))
            (scan-away (now i) q y c.routines c.sleep away).0
            (next_below-LeftAs now i y c' (λ x. later_count (count x q) _ (once x)))
      | inr out ↦
          let (kept, n) = next_below-away now i y c' out in
          subst (λ b. LeftAs b (c.routines y) (below.0.routines y)) (sym n)
            (subst (λ cr. LeftAs false (c.routines y) cr) (sym kept)
              (subst (λ o. LeftAs (is_it y o) (c.routines y) (res.0 y)) e here))
    ])

next_below_lem :
    (now : ℕ → ℕ → ℕ) (n : ℕ) (c : ClassicContext)
    → ((x : ℕ) → times x n c.multi_pri_rq ≤ 1)
    → (next_below now n c).1 ≡ highest_ready now n c.multi_pri_rq c.routines
unfolding next_below highest_ready times
next_below_lem now zero c once = refl
next_below_lem now (suc i) c once =
    let q = c.multi_pri_rq i in
    let res = scan (now i) q c.routines c.sleep in
    let c' = record c { sleep = res.1; routines = res.0 } in
    let later =
      next_below_lem now i c' (λ x. later_count (count x q) _ (once x))
      ∙ highest_ready-same now i c.multi_pri_rq res.0 c.routines (λ y l.
        (scan-away (now i) q y c.routines c.sleep (other_none (count y q) _ (once y) l)).0) in
    after_scan_lem res c (next_below now i)
    ∙ rw (scan_lem (now i) q c.routines c.sleep (λ x. first_count (count x q) _ (once x)), later)
        refl

after_scan-queues :
    (res : (ℕ → CRoutine) × Sleep × Option ℕ) (c : ClassicContext)
    (lower : ClassicContext → ClassicContext × Option ℕ)
    → ((c' : ClassicContext) → (lower c').0.multi_pri_rq ≡ c'.multi_pri_rq)
    → (after_scan res c lower).0.multi_pri_rq ≡ c.multi_pri_rq
unfolding after_scan
after_scan-queues (r, s, some x) c lower h = refl
after_scan-queues (r, s, none) c lower h = h _

next_below-queues :
    (now : ℕ → ℕ → ℕ) (n : ℕ) (c : ClassicContext)
    → (next_below now n c).0.multi_pri_rq ≡ c.multi_pri_rq
unfolding next_below
next_below-queues now zero c = refl
next_below-queues now (suc i) c =
    after_scan-queues (scan (now i) (c.multi_pri_rq i) c.routines c.sleep) c (next_below now i)
      (next_below-queues now i)

-- `NextRoutine` on a context in whose queues a routine stands once at most. It gives the first routine, from
-- the highest priority down and in the order of each queue, that nobody holds and that is ready, or sleeps and
-- has to wake up, or waits and has been notified; none if there is none, or on a stopped context. Afterwards
-- the routine that it gives is locked and ready, every other is locked if it was before and in the state that
-- it was in, and the queues are the same.
pub next_routine_lem :
    (now : ℕ → ℕ → ℕ) (c : ClassicContext) (y : ℕ)
    → ((x : ℕ) → times x max_prio c.multi_pri_rq ≤ 1)
    → let (c', o) = next_routine now c in
      (o ≡ (if c.stop then none else highest_ready now max_prio c.multi_pri_rq c.routines))
      × LeftAs (is_it y o) (c.routines y) (c'.routines y)
      × (c'.multi_pri_rq ≡ c.multi_pri_rq)
unfolding next_routine
next_routine_lem now c y once = elim (Bool-cases c.stop) [
  | inl stopped ↦ simp stopped (refl, left_alone (c.routines y), refl)
  | inr runs ↦ simp runs (
    next_below_lem now max_prio c once,
    next_below-LeftAs now max_prio y c once,
    next_below-queues now max_prio c,
  )
]
