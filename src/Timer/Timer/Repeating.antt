-- ===== src/Timer/Timer/Repeating.antt =====
-- cyber/timer/timer.cc, the callback of a repeating timer: the starts keep to the schedule.
use cyberrt_on_rpi.Base.{
  ℕ, zero, suc, ◌+◌, ◌-◌, ◌*◌, ◌%◌, ◌^◌, ◌<◌, ◌≤◌, ◌≡◌, ◌∙◌, ap, refl, List, [], ◌∷◌, length, arith,
  sub64, sym, subst, ◌==◌, false,
}
use cyberrt_on_rpi.Timer.Wheel.{TimerTask}
use cyberrt_on_rpi.Timer.Timer.{next_duration, next_error, repeat_task, round_ms}
use cyberrt_on_rpi.Timer.Timer.Waiting.{IsPlanned, on_schedule, round_run}

-- The n-th start of the schedule behind the first one, in nanoseconds.
unfoldable pub due : ℕ → ℕ → ℕ → ℕ
due first period zero = first
due first period (suc n) = due first period n + period * 1000000

-- The callback runs, from these times to those.
unfoldable pub repeat_all : List (ℕ × ℕ) → TimerTask → TimerTask
repeat_all [] task = task
repeat_all ((begin, end) ∷ runs) task = repeat_all runs (repeat_task begin end task)

-- The clock shows no time 0 and none after some 146 years.
unfoldable pub AreTimes : List (ℕ × ℕ) → Type 0
AreTimes [] = Unit
AreTimes ((begin, end) ∷ runs) = (0 < begin) × (begin < 2 ^ 62) × AreTimes runs

-- The error says how far the last start was from the n-th of the schedule.
record IsMeasured (first period n : ℕ) (task : TimerTask) : Type 0 where
  length_lem : task.interval_ms ≡ period
  began : 0 < task.last_execute_time_ns
  small : task.last_execute_time_ns < 2 ^ 62
  error :
      task.accumulated_error_ns ≡ (task.last_execute_time_ns + 2 ^ 64 - due first period n) % 2 ^ 64

next_error-IsMeasured :
    (acc last period sched begin : ℕ)
    → acc ≡ (last + 2 ^ 64 - sched) % 2 ^ 64
    → last < 2 ^ 62
    → begin < 2 ^ 62
    → sched < 2 ^ 62
    → period < 32768
    → (acc + sub64 (sub64 begin last) (period * 1000000 % 2 ^ 64)) % 2 ^ 64
      ≡ (begin + 2 ^ 64 - (sched + period * 1000000)) % 2 ^ 64
next_error-IsMeasured acc last period sched begin e l b s p = omega arith

next_error_lem :
    (begin : ℕ) (task : TimerTask)
    → 0 < task.last_execute_time_ns
    → next_error begin task
      ≡ (task.accumulated_error_ns
          + sub64 (sub64 begin task.last_execute_time_ns) (task.interval_ms * 1000000 % 2 ^ 64))
        % 2 ^ 64
unfolding next_error
next_error_lem begin task h =
    let n : (task.last_execute_time_ns == 0) ≡ false = ground arith in rw n refl

repeat_task-IsMeasured :
    (first period n begin end : ℕ) (task : TimerTask)
    → period < 32768
    → 0 < begin
    → begin < 2 ^ 62
    → due first period n < 2 ^ 62
    → IsMeasured first period n task
    → IsMeasured first period (suc n) (repeat_task begin end task)
unfolding repeat_task due
repeat_task-IsMeasured first period n begin end task hi began small near h = record {
  length_lem = h.length_lem;
  began = began;
  small = small;
  error =
      next_error_lem begin task h.began
      ∙ rw h.length_lem (
          next_error-IsMeasured task.accumulated_error_ns task.last_execute_time_ns period
            (due first period n) begin h.error h.small small near hi);
}

due-le : (first period n m : ℕ) → due first period n ≤ due first period (m + n)
unfolding due
due-le first period n zero =
    let e : n ≡ 0 + n = omega arith in
    subst (λ k. due first period n ≤ due first period k) e (omega arith)
due-le first period n (suc m) =
    let e : suc (m + n) ≡ suc m + n = omega arith in
    subst (λ k. due first period n ≤ due first period k) e (omega (arith, due-le first period n m))

repeat_all-IsMeasured :
    (first period n : ℕ) (runs : List (ℕ × ℕ)) (task : TimerTask)
    → period < 32768
    → AreTimes runs
    → due first period (length runs + n) < 2 ^ 62
    → IsMeasured first period n task
    → IsMeasured first period (length runs + n) (repeat_all runs task)
unfolding repeat_all AreTimes
repeat_all-IsMeasured first period n [] task hi times near h =
    let e : n ≡ 0 + n = omega arith in subst (λ k. IsMeasured first period k task) e h
repeat_all-IsMeasured first period n ((begin, end) ∷ runs) task hi (began, small, times) near h =
    let below = due-le first period n (suc (length runs)) in
    let step =
      repeat_task-IsMeasured first period n begin end task hi began small
        (omega (arith, below, near)) h in
    let e : length runs + suc n ≡ suc (length runs) + n = omega arith in
    subst (λ k. IsMeasured first period k (repeat_all runs (repeat_task begin end task))) e
      (repeat_all-IsMeasured first period (suc n) runs (repeat_task begin end task) hi times
        (subst (λ k. due first period k < 2 ^ 62) (sym e) near) step)

first_error :
    (begin : ℕ) (task : TimerTask)
    → task.last_execute_time_ns ≡ 0
    → next_error begin task ≡ task.accumulated_error_ns
unfolding next_error
first_error begin task l = rw l refl

first-IsMeasured :
    (first first_end period : ℕ) (task : TimerTask)
    → 0 < first
    → first < 2 ^ 62
    → task.interval_ms ≡ period
    → task.last_execute_time_ns ≡ 0
    → task.accumulated_error_ns ≡ 0
    → IsMeasured first period 0 (repeat_task first first_end task)
unfolding repeat_task due
first-IsMeasured first first_end period task began small e l a = record {
  length_lem = e;
  began = began;
  small = small;
  error = first_error first task l ∙ a ∙ omega (arith, small);
}

sub_two : (first period k : ℕ) → due first period (2 + k) ≡ due first period (suc (suc k))
sub_two first period k = let e : 2 + k ≡ suc (suc k) = omega arith in ap (due first period) e

shift : (begin d p : ℕ) → begin + 2 ^ 64 - d ≡ begin + p + 2 ^ 64 - (d + p)
shift begin d p = omega arith

next_fire_lem :
    (begin end : ℕ) (t : TimerTask)
    → (repeat_task begin end t).next_fire_duration_ms
      ≡ next_duration t.interval_ms (round_ms (sub64 end begin)) (next_error begin t)
unfolding repeat_task next_duration next_error round_ms
next_fire_lem begin end t = refl

planned_lem :
    (period begin end next : ℕ) (t : TimerTask)
    → t.interval_ms ≡ period
    → begin ≤ end
    → end < 2 ^ 62
    → IsPlanned end next
        (end + next_duration period (round_ms (end - begin)) (next_error begin t) * 1000000)
    → IsPlanned end next (end + (repeat_task begin end t).next_fire_duration_ms * 1000000)
planned_lem period begin end next t e order near h =
    let fire =
      next_fire_lem begin end t
      ∙ ap (λ p. next_duration p (round_ms (sub64 end begin)) (next_error begin t)) e
      ∙ ap (λ ran. next_duration period (round_ms ran) (next_error begin t))
          (round_run begin end order near) in
    subst (λ d. IsPlanned end next (end + d * 1000000)) (sym fire) h

-- The callback of a repeating timer with a period below 32768 milliseconds has run at `first`, then as `runs`
-- says, and now from `begin` to `end`, however late or early and however long before; this run took less than
-- the period by a millisecond at least. Then the next start is planned within a millisecond of the time that
-- is due by the schedule, a whole number of periods after the first start, so the delays do not add up; where
-- that time has passed it is planned a millisecond ahead, and it is never planned less than that ahead. (The
-- clock shows times above 0 and below 2^62 nanoseconds, rounding is exact.)
pub no_drift :
    (period first first_end begin end : ℕ) (runs : List (ℕ × ℕ)) (task : TimerTask)
    → task.interval_ms ≡ period
    → task.last_execute_time_ns ≡ 0
    → task.accumulated_error_ns ≡ 0
    → period < 32768
    → AreTimes ((first, first_end) ∷ runs)
    → 0 < begin
    → begin ≤ end
    → end < 2 ^ 62
    → due first period (suc (suc (length runs))) < 2 ^ 62
    → end + 1000000 ≤ begin + period * 1000000
    → let task' = repeat_task begin end (repeat_all ((first, first_end) ∷ runs) task) in
      let planned = end + task'.next_fire_duration_ms * 1000000 in
      let next = due first period (suc (suc (length runs))) in IsPlanned end next planned
unfolding AreTimes repeat_all due repeat_task
no_drift period first first_end begin end runs task e l a hi (began, small, times) now order near
      far short =
    let k = length runs in
    let next = due first period (suc (suc k)) in
    let task₁ = repeat_task first first_end task in
    let t = repeat_all runs task₁ in
    let e₀ : k + 0 ≡ k = omega arith in
    let far₀ : due first period k < 2 ^ 62 =
      omega (arith, far, due-le first period k 2, sub_two first period k) in
    let h =
      subst (λ n. IsMeasured first period n t) e₀
        (repeat_all-IsMeasured first period 0 runs task₁ hi times
          (subst (λ n. due first period n < 2 ^ 62) (sym e₀) far₀)
          (first-IsMeasured first first_end period task began small e l a)) in
    let h' =
      repeat_task-IsMeasured first period k begin end t hi now (omega (arith, order, near)) far₀
        h in
    let error =
      h'.error ∙ ap (λ x. x % 2 ^ 64) (shift begin (due first period (suc k)) (period * 1000000)) in
    planned_lem period begin end next t h.length_lem order near
      (on_schedule period begin end next (next_error begin t) error hi order near far short)
