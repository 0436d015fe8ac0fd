-- ===== src/Timer/Timer/Waiting.antt =====
-- cyber/timer/timer.cc, the callback of a repeating timer: how long it waits for the next start.
use cyberrt_on_rpi.Base.{
  ℕ, ◌+◌, ◌-◌, ◌*◌, ◌%◌, ◌^◌, ◌<◌, ◌≤◌, ◌≡◌, ◌∙◌, ap, inl, inr, arith, Bool-cases, leb, leb→le,
  leb-false, if◌then◌else◌, sub64,
}
use cyberrt_on_rpi.Base.Int.{◌-ℤ◌}
use cyberrt_on_rpi.Timer.Timer.{next_duration, round_ms, round_ms_ℤ}

-- A callback that began late, by `late` nanoseconds.
wait_late :
    (interval execute late : ℕ)
    → interval < 32768
    → late < 2 ^ 62 + 2 ^ 40
    → execute + round_ms late + 1 ≤ interval
    → next_duration interval execute late ≡ interval - execute - round_ms late
unfolding next_duration round_ms_ℤ ◌-ℤ◌
wait_late interval execute late hi lo fits = ground arith

-- A callback that began early.
wait_early :
    (interval execute early : ℕ)
    → interval < 32768
    → 0 < early
    → early < 2 ^ 62
    → execute + 1 ≤ interval
    → next_duration interval execute (2 ^ 64 - early) ≡ interval - execute + round_ms early
unfolding next_duration round_ms_ℤ round_ms ◌-ℤ◌
wait_early interval execute early hi some lo fits = ground arith

pub round_run : (begin end : ℕ) → begin ≤ end → end < 2 ^ 62 → sub64 end begin ≡ end - begin
round_run begin end h l = omega (arith, h, l)

-- A callback that began so late, and ran so long, that nothing is left of the period.
wait_over :
    (interval execute late : ℕ)
    → interval < 32768
    → late < 2 ^ 62 + 2 ^ 40
    → execute + 1 ≤ interval
    → interval < execute + round_ms late + 1
    → next_duration interval execute late ≡ 1
unfolding next_duration round_ms_ℤ
wait_over interval execute late hi lo some over = ground arith

-- The start is planned a millisecond behind the end at least, within a millisecond of the time `next` if it
-- can be, and no later.
abbrev pub IsPlanned : ℕ → ℕ → ℕ → Type 0
IsPlanned end next planned =
    (end + 1000000 ≤ planned)
    × (next ≤ planned + 1000000)
    × (planned ≤ (if leb next end then end else next) + 1000000)

later_of : (n m : ℕ) → (n ≤ (if leb n m then m else n)) × (m ≤ (if leb n m then m else n))
later_of n m = (ground arith, ground arith)

-- The error says how far `begin` was from the time a period before `next`.
pub on_schedule :
    (period begin end next error : ℕ)
    → error ≡ (begin + period * 1000000 + 2 ^ 64 - next) % 2 ^ 64
    → period < 32768
    → begin ≤ end
    → end < 2 ^ 62
    → next < 2 ^ 62
    → end + 1000000 ≤ begin + period * 1000000
    → IsPlanned end next (end + next_duration period (round_ms (end - begin)) error * 1000000)
unfolding round_ms
on_schedule period begin end next error e hi order small near short =
    let ran = round_ms (end - begin) in
    let (n, m) = later_of next end in
    elim (Bool-cases (leb next (begin + period * 1000000))) [
      | inl is_late ↦
          let late = begin + period * 1000000 - next in
          let l : next ≤ begin + period * 1000000 = ground arith in
          let same : error ≡ late = omega (arith, e, l, small, near, order, hi) in
          elim (Bool-cases (leb (ran + round_ms late + 1) period)) [
            | inl fits ↦
                rw
                  (ap (next_duration period ran) same
                    ∙ wait_late period ran late hi (omega arith)
                        (leb→le (ran + round_ms late + 1) period fits))
                  (let f = leb→le (ran + round_ms late + 1) period fits in
                    (omega (arith, f), omega (arith, f), omega (arith, f, n, m)))
            | inr over ↦
                let f = leb-false (ran + round_ms late + 1) period over in
                rw
                  (ap (next_duration period ran) same
                    ∙ wait_over period ran late hi (omega arith) (omega arith) f)
                  (omega arith, omega (arith, f), omega (arith, m))
          ]
      | inr is_early ↦
          let early = next - (begin + period * 1000000) in
          let l : begin + period * 1000000 < next = ground arith in
          let same : error ≡ 2 ^ 64 - early = omega (arith, e, l, small, near, order, hi) in
          rw
            (ap (next_duration period ran) same
              ∙ wait_early period ran early hi (omega arith) (omega arith) (omega arith))
            (omega arith, omega arith, omega (arith, n, m))
    ]
