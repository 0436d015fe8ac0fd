-- ===== src/Io/Poller/Polling/Waiting.antt =====
-- How long the polling thread waits.
use cyberrt_on_rpi.Base.{
  ℕ, ◌≤◌, ◌≡◌, ◌∙◌, ap, sym, inl, inr, some, List, [], ◌∷◌, ◌==◌, arith, Bool-cases,
}
use mathlib.Core.Option.{some-injective}
use cyberrt_on_rpi.Base.Int.{ℤ, pos, negsuc}
use cyberrt_on_rpi.Io.Poller.{PollRequest, Poller, find, shorter, shortest, get_timeout_ms}
use cyberrt_on_rpi.Io.Poller.Polling.Expiring.{if_same, if_other}

shorter-le : (t : ℤ) (m : ℕ) → shorter t m ≤ m
unfolding shorter
shorter-le (pos t) m = ground arith
shorter-le (negsuc n) m = omega arith

shortest-le : (l : List (ℕ × PollRequest)) (m : ℕ) → shortest l m ≤ m
unfolding shortest
shortest-le [] m = omega arith
shortest-le ((f, req) ∷ l) m =
    omega (arith, shortest-le l (shorter req.timeout_ms m), shorter-le req.timeout_ms m)

shorter-le_timeout : (t m : ℕ) (o : ℤ) → o ≡ pos t → shorter o m ≤ t
unfolding shorter
shorter-le_timeout t m o e = rw e (ground arith)

soonest :
    (l : List (ℕ × PollRequest)) (m fd t : ℕ) (req : PollRequest)
    → find fd l ≡ some req
    → req.timeout_ms ≡ pos t
    → shortest l m ≤ t
unfolding shortest find
soonest [] m fd t req h e = absurd (cc h)
soonest ((f, r) ∷ l) m fd t req h e = elim (Bool-cases (f == fd)) [
  | inl same ↦
      let q : r ≡ req = some-injective r req (sym (if_same (f == fd) r (find fd l) same) ∙ h) in
      omega (
        arith,
        shortest-le l (shorter r.timeout_ms m),
        shorter-le_timeout t m r.timeout_ms (ap (λ x. x.timeout_ms) q ∙ e),
      )
  | inr other ↦
      soonest l (shorter r.timeout_ms m) fd t req (sym (if_other (f == fd) r (find fd l) other) ∙ h)
        e
]

-- The thread does not wait longer than until the first timeout, and than 100 milliseconds.
pub get_timeout_ms-le :
    (fd t : ℕ) (req : PollRequest) (s : Poller)
    → find fd s.requests ≡ some req
    → req.timeout_ms ≡ pos t
    → (get_timeout_ms s ≤ t) × (get_timeout_ms s ≤ 100)
unfolding get_timeout_ms
get_timeout_ms-le fd t req s found e =
    (soonest s.requests 100 fd t req found e, shortest-le s.requests 100)
