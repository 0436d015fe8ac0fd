-- ===== src/Timer/Timer/Stopping.antt =====
-- cyber/timer/timer.cc, `Timer::Stop`, with callbacks that may run at the time.
use cyberrt_on_rpi.Base.{
  ◌+◌, subst, ◌∙◌, ℕ, ◌≡◌, refl, true, false, none, some, List, [], ◌∷◌, ◌==◌, ◌-◌, ap, Bool, ◌&&◌,
  Option, ==_refl, if◌then◌else◌, arith, update,
}
use cyberrt_on_rpi.Timer.Wheel.{TimingWheel, TimerTask}
use cyberrt_on_rpi.Timer.Loop.{Phase, Event, run, Spares}
use cyberrt_on_rpi.Timer.Deadline.{stopped_never_fires}
use cyberrt_on_rpi.Timer.Timer.{
  World, stop, release, begin_callback, lock_found, owns, end_callback, repeat,
}

-- What callbacks of the task do, each in its own thread: one that was handed to `Async` begins, or one that
-- runs ends, the wheel having become what it may by then.
pub data Call : Type 0 where
  begins : Call
  ends : (meanwhile : TimingWheel → TimingWheel) (begin end : ℕ) → Call

unfoldable pub calls : ℕ → List Call → World → World
calls t [] s = s
calls t (begins ∷ cs) s = calls t cs (begin_callback t s).0
calls t (ends meanwhile begin end ∷ cs) s =
    calls t cs (end_callback t begin end (record s { wheel = meanwhile s.wheel }))

both_gone :
    (b : Bool) (tasks : ℕ → Option TimerTask) (t : ℕ)
    → (if b then (if b && true then update tasks t none else tasks) t else none) ≡ none
both_gone true tasks t = rw (==_refl t) refl
both_gone false tasks t = refl

end_callback-gone :
    (t begin end : ℕ) (s : World)
    → s.timer.task ≡ none
    → let s' = end_callback t begin end s in
      (if s'.holders t == 0 then s'.wheel.tasks t else none) ≡ none
unfolding end_callback owns
end_callback-gone t begin end s e =
    let w = repeat t begin end s.wheel in
    rw (==_refl t, e) (both_gone (s.holders t - 1 == 0) w.tasks t)

-- The task is gone once nobody holds it.
abbrev IsLetGo : ℕ → World → Type 0
IsLetGo t s = (if s.holders t == 0 then s.wheel.tasks t else none) ≡ none

lock_found-IsLetGo :
    (o : Option TimerTask) (t : ℕ) (s : World) → IsLetGo t s → IsLetGo t (lock_found o t s).0
unfolding lock_found
lock_found-IsLetGo none t s h = h
lock_found-IsLetGo (some task) t s h =
    let held : (s.holders t + 1 == 0) ≡ false = ground arith in rw (==_refl t, held) refl

same_timer : (o : Option TimerTask) (t : ℕ) (s : World) → (lock_found o t s).0.timer ≡ s.timer
unfolding lock_found
same_timer none t s = refl
same_timer (some task) t s = refl

calls_lem :
    (t : ℕ) (cs : List Call) (s : World)
    → s.timer.task ≡ none
    → IsLetGo t s
    → (calls t cs s).holders t ≡ 0
    → let s' = calls t cs s in (s'.wheel.tasks t ≡ none) × (s'.timer ≡ s.timer)
unfolding calls end_callback begin_callback
calls_lem t [] s e gone over = (ground arith, refl)
calls_lem t (begins ∷ cs) s e gone over =
    let o = s.wheel.tasks t in
    let kept = same_timer o t s in
    let (gone', same) =
      calls_lem t cs (lock_found o t s).0 (ap (λ x. x.task) kept ∙ e)
        (lock_found-IsLetGo o t s gone) over in
    (gone', same ∙ kept)
calls_lem t (ends meanwhile begin end ∷ cs) s e gone over =
    let s₁ = record s { wheel = meanwhile s.wheel } in
    calls_lem t cs (end_callback t begin end s₁) e (end_callback-gone t begin end s₁ e) over

stop_lem :
    (t : ℕ) (s : World)
    → s.timer.started ≡ true
    → s.timer.task ≡ some t
    → stop s ≡ record s {
      timer = record s.timer { started = false; task = none };
      wheel = record s.wheel {
        tasks = if s.holders t == 0 then update s.wheel.tasks t none else s.wheel.tasks;
      };
    }
unfolding stop release
stop_lem t s on h = simp (on, h)

stopped_gone :
    (b : Bool) (tasks : ℕ → Option TimerTask) (t : ℕ)
    → (if b then (if b then update tasks t none else tasks) t else none) ≡ none
stopped_gone true tasks t = rw (==_refl t) refl
stopped_gone false tasks t = refl

begin_gone : (t : ℕ) (s : World) → s.wheel.tasks t ≡ none → (begin_callback t s).1 ≡ false
unfolding begin_callback lock_found
begin_gone t s gone = rw gone refl

-- `Stop` on a started timer, and then callbacks of its task that begin and end in any order, whatever becomes
-- of the wheel meanwhile: once none of them runs any more, the task is not handed to `Async`, whatever is
-- done with other tasks, although the buckets may still point to it, and a repeating callback that was handed
-- before returns at once. (A callback that begins before then still runs, and that of a timer that does not
-- repeat runs in any case when it was handed before.) The timer can be started again.
pub stop_stops :
    (t : ℕ) (s : World) (cs : List Call) (p : Phase) (now : ℕ) (es : List Event)
    → s.timer.started ≡ true
    → s.timer.task ≡ some t
    → (calls t cs (stop s)).holders t ≡ 0
    → Spares t es
    → let s' = calls t cs (stop s) in
      ((run t es (record { wheel = s'.wheel; phase = p; now = now })).1 ≡ [])
      × ((begin_callback t s').1 ≡ false)
      × (s'.timer.started ≡ false)
      × (s'.timer.task ≡ none)
stop_stops t s cs p now es on h over spared =
    let s₁ = record s {
      timer = record s.timer { started = false; task = none };
      wheel = record s.wheel {
        tasks = if s.holders t == 0 then update s.wheel.tasks t none else s.wheel.tasks;
      };
    } in
    let e = stop_lem t s on h in
    let (gone, same) =
      calls_lem t cs s₁ refl (stopped_gone (s.holders t == 0) s.wheel.tasks t)
        (subst (λ x. (calls t cs x).holders t ≡ 0) e over) in
    rw e (
      stopped_never_fires t es _ p now gone spared,
      begin_gone t _ gone,
      ap (λ x. x.started) same,
      ap (λ x. x.task) same,
    )
