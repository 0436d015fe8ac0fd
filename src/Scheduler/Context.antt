-- ===== src/Scheduler/Context.antt =====
-- cyber/scheduler/policy/classic_context.cc, `ClassicContext::NextRoutine`: the search for a routine to
-- run, by priority and then in the order of the queues.
pub mod Highest
pub mod Choosing
use cyberrt_on_rpi.Base.{
  ℕ, zero, suc, ◌-◌, ◌+◌, Bool, true, false, not, ◌&&◌, ◌||◌, Option, none, some, List, [], ◌∷◌,
  ltb, if◌then◌else◌, length, update,
}
use cyberrt_on_rpi.Scheduler.CRoutine.{
  CRoutine, RoutineState, is_ready, is_sleep, acquire, release, update_state,
}

abbrev pub max_prio : ℕ
max_prio = 20

pub record Sleep : Type 0 where
  pub need_sleep : Bool
  pub wake_time : ℕ

-- The queues of the context's group, by priority, have the routines by their addresses; `routines` has the
-- objects, which the scheduler and the other processors share.
pub record ClassicContext : Type 0 where
  pub stop : Bool
  pub sleep : Sleep
  pub multi_pri_rq : ℕ → List ℕ
  pub routines : ℕ → CRoutine

-- A routine that is not ready may be the next one to wake.
unfoldable pub note_sleep : CRoutine → Sleep → Sleep
note_sleep cr s =
    if is_sleep cr.state && (not s.need_sleep || ltb cr.wake_time s.wake_time)
    then record { need_sleep = true; wake_time = cr.wake_time }
    else s

-- The body of the inner loop: the routine as it is left behind, the noted sleep, and whether it is chosen.
unfoldable pub visit : ℕ → CRoutine → Sleep → CRoutine × Sleep × Bool
visit now cr s =
    let cr' = update_state now (acquire cr).0 in
    if cr.lock
    then (cr, s, false)
    else if is_ready cr'.state
    then (cr', s, true)
    else (release cr', note_sleep cr' s, false)

unfoldable pub after_visit :
    ℕ
    → CRoutine × Sleep × Bool
    → (ℕ → CRoutine)
    → ((ℕ → CRoutine) → Sleep → (ℕ → CRoutine) × Sleep × Option ℕ)
    → (ℕ → CRoutine) × Sleep × Option ℕ
after_visit x (cr, s, true) routines go_on = (update routines x cr, s, some x)
after_visit x (cr, s, false) routines go_on = go_on (update routines x cr) s

-- One queue; `now` gives the time at which the clock is read, by the number of routines behind.
unfoldable pub scan : (ℕ → ℕ) → List ℕ → (ℕ → CRoutine) → Sleep → (ℕ → CRoutine) × Sleep × Option ℕ
scan now [] routines s = (routines, s, none)
scan now (x ∷ xs) routines s =
    after_visit x (visit (now (length xs)) (routines x) s) routines (scan now xs)

unfoldable pub after_scan :
    (ℕ → CRoutine) × Sleep × Option ℕ
    → ClassicContext
    → (ClassicContext → ClassicContext × Option ℕ)
    → ClassicContext × Option ℕ
after_scan (routines, s, some x) c lower = (record c { sleep = s; routines = routines }, some x)
after_scan (routines, s, none) c lower = lower (record c { sleep = s; routines = routines })

-- The priorities below `n`, from the highest down.
unfoldable pub next_below : (ℕ → ℕ → ℕ) → ℕ → ClassicContext → ClassicContext × Option ℕ
next_below now zero c = (c, none)
next_below now (suc i) c =
    after_scan (scan (now i) (c.multi_pri_rq i) c.routines c.sleep) c (next_below now i)

unfoldable pub next_routine : (ℕ → ℕ → ℕ) → ClassicContext → ClassicContext × Option ℕ
next_routine now c = if c.stop then (c, none) else next_below now max_prio c
