-- ===== src/Io/Poller/Polling.antt =====
-- Whom `Poll` calls, and when a request times out.
pub mod Expiring
pub mod Responding
pub mod Rounds
pub mod Waiting
use cyberrt_on_rpi.Base.{
  ℕ, suc, ◌+◌, ◌-◌, ◌≤◌, ◌≡◌, ◌∙◌, ap, refl, sym, subst, inl, inr, Bool, true, false, ◌&&◌, not,
  Option, none, some, is_some, List, [], ◌∷◌, ◌++◌, ◌==◌, ltb, leb, if◌then◌else◌, arith,
  Bool-cases, Option-cases, ==_iff, ==_refl, count, append-nil, append_assoc,
}
use mathlib.Core.Option.{some-injective}
use cyberrt_on_rpi.Base.Int.{ℤ, pos, negsuc}
use cyberrt_on_rpi.Io.Poller.{
  PollRequest, PollCtrlParam, Poller, find, assign, has_param, interval, count_down, expire,
  erase_response, add_ready, respond_found, respond, respond_all, poll,
}
use cyberrt_on_rpi.Io.Poller.Watching.{find-assign}

abbrev pub keys : List (ℕ × PollRequest) → List ℕ
keys [] = []
keys ((f, req) ∷ l) = f ∷ keys l

-- The events of the responses to a descriptor.
unfoldable pub events_to : ℕ → List (ℕ × ℕ) → List ℕ
events_to fd [] = []
events_to fd ((f, e) ∷ l) = let rest = events_to fd l in if f == fd then e ∷ rest else rest

abbrev pub later : Option ℕ → Option ℕ → Option ℕ
later none o = o
later (some e) o = some e

-- The events with which a descriptor was found ready, at last.
unfoldable pub ready_events : ℕ → List (ℕ × ℕ) → Option ℕ
ready_events fd [] = none
ready_events fd ((f, e) ∷ l) = later (ready_events fd l) (if f == fd then some e else none)

-- The response to a request, if there is one, and the response that it is ready in its place.
abbrev pub timed_out : Bool → List ℕ
timed_out over = if over then 0 ∷ [] else []

abbrev pub answer : Option ℕ → List ℕ → List ℕ
answer none events = events
answer (some e) events = e ∷ []

abbrev pub reset_if : List ℕ → PollRequest → PollRequest
reset_if [] req = req
reset_if (e ∷ es) req = record req { timeout_ms = negsuc 0 }

-- What a response with these events leaves of a request.
abbrev pub Responded : ℕ → List ℕ → PollRequest → Poller → Poller → Type 0
Responded fd events req s s' =
    (events_to fd s'.calls ≡ events_to fd s.calls ++ events)
    × (find fd s'.requests ≡ some (reset_if events req))
    × (keys s'.requests ≡ keys s.requests)
    × (s'.ctrl_params ≡ s.ctrl_params)
