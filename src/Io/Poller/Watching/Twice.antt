-- ===== src/Io/Poller/Watching/Twice.antt =====
-- A descriptor that is registered twice before the poller takes the first registration.
use cyberrt_on_rpi.Base.{
  ℕ, ◌≡◌, refl, inl, inr, true, false, Option, none, some, is_some, List, [], ◌∷◌, ◌==◌, Bool-cases,
  ==_refl,
}
use cyberrt_on_rpi.Base.Int.{pos}
use cyberrt_on_rpi.Io.Poller.{
  Control, PollRequest, PollCtrlParam, Poller, find, erase_param, set_param, notify, register_found,
  register_valid, register,
}
use cyberrt_on_rpi.Io.Poller.Watching.{IsEpoll, Event, run, wanted, wanted-assign}
use cyberrt_on_rpi.Io.Poller.Watching.Lost.{no_adds, AllKeep, IsLost, run-IsLost}

no_adds-erase_param_self : (fd : ℕ) (l : List PollCtrlParam) → no_adds fd (erase_param fd l) ≡ true
unfolding no_adds erase_param
no_adds-erase_param_self fd [] = refl
no_adds-erase_param_self fd (p ∷ l) = elim (Bool-cases (p.fd == fd)) [
  | inl same ↦ rw same (no_adds-erase_param_self fd l)
  | inr other ↦ rw (other, other) (no_adds-erase_param_self fd l)
]

register_lem :
    (fd c : ℕ) (req : PollRequest) (o : Option PollRequest) (s : Poller)
    → s.is_shutdown ≡ false
    → req.callback ≡ some c
    → find fd s.requests ≡ o
    → register (pos fd) req s ≡ (notify (register_found o fd req s), true)
unfolding register register_valid
register_lem fd c req o s on callback found = simp (on, callback, found)

second-IsLost :
    (fd : ℕ) (old req : PollRequest) (s : Poller)
    → find fd s.requests ≡ some old
    → s.watched fd ≡ none
    → no_adds fd s.local_params ≡ true
    → IsLost fd (notify (register_found (some old) fd req s))
unfolding notify register_found set_param no_adds
second-IsLost fd old req s found free none_local = record {
  asked = rw (wanted-assign fd fd req old s.requests found, ==_refl fd) refl;
  unwatched = free;
  no_ctrl = rw (==_refl fd) (no_adds-erase_param_self fd s.ctrl_params);
  no_local = none_local;
}

first_found :
    (fd : ℕ) (req : PollRequest) (s : Poller)
    → find fd (notify (register_found none fd req s)).requests ≡ some req
unfolding notify register_found find
first_found fd req s = rw (==_refl fd) refl

-- A descriptor that is neither registered nor watched is registered twice before the poller takes the first
-- registration: both calls give true, but the second replaces the change that adds the descriptor by one that
-- only changes its events. From then on the descriptor is not watched, while its request stands, whatever is
-- registered, also this descriptor once more, and whatever the poller does, until it is unregistered.
pub lost :
    (control : Control) (fd c c' : ℕ) (req req' : PollRequest) (es : List Event) (s : Poller)
    → IsEpoll control
    → s.is_shutdown ≡ false
    → req.callback ≡ some c
    → req'.callback ≡ some c'
    → find fd s.requests ≡ none
    → s.watched fd ≡ none
    → no_adds fd s.local_params ≡ true
    → AllKeep fd es
    → let (s₁, done) = register (pos fd) req s in
      let (s₂, done') = register (pos fd) req' s₁ in
      let s' = run control es s₂ in
      (done ≡ true)
      × (done' ≡ true)
      × (s'.watched fd ≡ none)
      × (is_some (wanted fd s'.requests) ≡ true)
unfolding notify register_found
lost control fd c c' req req' es s epoll on callback callback' free unwatched none_local keeps =
    let s₁ = notify (register_found none fd req s) in
    let first = register_lem fd c req none s on callback free in
    let second = register_lem fd c' req' (some req) s₁ on callback' (first_found fd req s) in
    let h =
      run-IsLost control epoll fd es (notify (register_found (some req) fd req' s₁)) keeps
        (second-IsLost fd req req' s₁ (first_found fd req s) unwatched none_local) in
    rw (first, second) (refl, refl, h.unwatched, h.asked)
