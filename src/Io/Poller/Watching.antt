-- ===== src/Io/Poller/Watching.antt =====
-- Which descriptors epoll watches for the poller, and with which events.
pub mod InStep
pub mod Handled
pub mod Lost
pub mod Twice
use cyberrt_on_rpi.Base.{
  ℕ, ◌≡◌, ◌∙◌, ap, refl, sym, subst, ◌⊎◌, inl, inr, Bool, true, false, ◌||◌, ◌&&◌, Option, none,
  some, is_some, List, [], ◌∷◌, ◌++◌, ◌==◌, if◌then◌else◌, arith, update, Bool-cases, Option-cases,
  ==_iff, ==_refl,
}
use cyberrt_on_rpi.Base.Int.{ℤ, pos, negsuc}
use cyberrt_on_rpi.Io.Poller.{
  Operation, epoll_ctl_add, epoll_ctl_mod, epoll_ctl_del, Control, PollRequest, PollCtrlParam,
  Poller, find, erase, assign, erase_param, set_param, has_param, notify, register_found,
  register_valid, register, unregister_found, unregister_valid, unregister, init, take_changes,
  control_one, control_all, handle_changes, expire, respond_found, respond,
}

-- What `epoll_ctl` is documented to do, for descriptors that can be watched: to add fails where a descriptor
-- is watched, and to change its events where it is not.
pub record IsEpoll (control : Control) : Type 0 where
  pub adds : (e : ℕ) → control epoll_ctl_add e none ≡ some e
  pub adds_once : (e o : ℕ) → control epoll_ctl_add e (some o) ≡ some o
  pub changes : (e o : ℕ) → control epoll_ctl_mod e (some o) ≡ some e
  pub changes_none : (e : ℕ) → control epoll_ctl_mod e none ≡ none
  pub drops : (e : ℕ) (k : Option ℕ) → control epoll_ctl_del e k ≡ none

-- What the other threads and the polling thread do, each step under the lock or one call of `epoll_ctl`.
pub data Event : Type 0 where
  registers : ℤ → PollRequest → Event
  unregisters : ℤ → PollRequest → Event
  takes : Event
  controls : Event
  expires : ℕ → Event
  responds : ℕ → ℕ → Event

-- The changes are taken when those that were taken before are handed over.
unfoldable pub take_if_done : List PollCtrlParam → Poller → Poller
take_if_done [] s = take_changes s
take_if_done (p ∷ params) s = s

unfoldable pub control_next : Control → List PollCtrlParam → Poller → Poller
control_next control [] s = s
control_next control (p ∷ params) s = record s {
  local_params = params;
  watched = control_one control p s.watched;
}

unfoldable pub happen : Control → Event → Poller → Poller
happen control (registers fd req) s = (register fd req s).0
happen control (unregisters fd req) s = (unregister fd req s).0
happen control takes s = take_if_done s.local_params s
happen control controls s = control_next control s.local_params s
happen control (expires interval_ms) s = record s {
  requests = (expire s.ctrl_params interval_ms s.requests).0;
}
happen control (responds fd events) s = respond fd events s

unfoldable pub run : Control → List Event → Poller → Poller
run control [] s = s
run control (e ∷ es) s = run control es (happen control e s)

-- The events for which a descriptor is watched when changes have been handed over.
unfoldable pub after : Control → List PollCtrlParam → ℕ → Option ℕ → Option ℕ
after control [] fd k = k
after control (p ∷ params) fd k =
    after control params fd (if p.fd == fd then control p.operation p.events k else k)

abbrev pub events_of : Option PollRequest → Option ℕ
events_of none = none
events_of (some req) = some req.events

-- The events that are asked for.
unfoldable pub wanted : ℕ → List (ℕ × PollRequest) → Option ℕ
wanted fd requests = events_of (find fd requests)

find-erase :
    (g fd : ℕ) (l : List (ℕ × PollRequest))
    → find g (erase fd l) ≡ (if g == fd then none else find g l)
unfolding find erase
find-erase g fd [] = ground arith
find-erase g fd ((f, req) ∷ l) = let rest = find-erase g fd l in ground arith

pub find-assign :
    (g fd : ℕ) (req : PollRequest) (l : List (ℕ × PollRequest))
    → find g (assign fd req l) ≡ (if g == fd && is_some (find g l) then some req else find g l)
unfolding find assign
find-assign g fd req [] = ground arith
find-assign g fd req ((f, old) ∷ l) = let rest = find-assign g fd req l in ground arith

pub after-erase_param :
    (control : Control) (fd g : ℕ) (params : List PollCtrlParam) (k : Option ℕ)
    → after control (erase_param fd params) g k ≡ (if fd == g then k else after control params g k)
unfolding after erase_param
after-erase_param control fd g [] k = ground arith
after-erase_param control fd g (p ∷ params) k =
    let rest = after-erase_param control fd g params in
    elim (Bool-cases (p.fd == fd)) [
      | inl same ↦
          let e = (==_iff p.fd fd).0 same in
          rw (same, rest k, e)
            (elim (Bool-cases (fd == g)) [ inl h ↦ rw h refl | inr h ↦ rw h refl ])
      | inr other ↦
          rw (other, rest (if p.fd == g then control p.operation p.events k else k))
            (elim (Bool-cases (fd == g)) [
              | inl h ↦
                  let n : (p.fd == g) ≡ false =
                    subst (λ x. (p.fd == x) ≡ false) ((==_iff fd g).0 h) other in
                  rw (h, n) refl
              | inr h ↦ rw h refl
            ])
    ]

pub control_one_lem :
    (control : Control) (p : PollCtrlParam) (watched : ℕ → Option ℕ) (fd : ℕ)
    → control_one control p watched fd
      ≡ (if p.fd == fd then control p.operation p.events (watched fd) else watched fd)
unfolding control_one
control_one_lem control p watched fd = elim (Bool-cases (p.fd == fd)) [
  | inl same ↦ let e = (==_iff p.fd fd).0 same in rw (same, e, ==_refl fd) refl
  | inr other ↦ rw other (let n : (fd == p.fd) ≡ false = ground arith in rw n refl)
]

pub after-control_all :
    (control : Control) (params : List PollCtrlParam) (watched : ℕ → Option ℕ) (fd : ℕ)
    → control_all control params watched fd ≡ after control params fd (watched fd)
unfolding control_all after
after-control_all control [] watched fd = refl
after-control_all control (p ∷ params) watched fd =
    after-control_all control params (control_one control p watched) fd
    ∙ ap (after control params fd) (control_one_lem control p watched fd)

pub wanted-expire :
    (params : List PollCtrlParam) (interval_ms fd : ℕ) (l : List (ℕ × PollRequest))
    → wanted fd (expire params interval_ms l).0 ≡ wanted fd l
unfolding wanted find expire
wanted-expire params interval_ms fd [] = refl
wanted-expire params interval_ms fd ((f, req) ∷ l) =
    let rest = wanted-expire params interval_ms fd l in
    elim (Bool-cases (has_param f params)) [
      | inl h ↦ rw h (elim (Bool-cases (f == fd)) [ inl e ↦ rw e refl | inr e ↦ rw e rest ])
      | inr h ↦ rw h (elim (Bool-cases (f == fd)) [ inl e ↦ rw e refl | inr e ↦ rw e rest ])
    ]

pub wanted-assign :
    (g fd : ℕ) (req old : PollRequest) (l : List (ℕ × PollRequest))
    → find fd l ≡ some old
    → wanted g (assign fd req l) ≡ (if fd == g then some req.events else wanted g l)
unfolding wanted
wanted-assign g fd req old l h = rw (find-assign g fd req l) (elim (Bool-cases (fd == g)) [
  | inl same ↦ let e = sym ((==_iff fd g).0 same) in rw (e, ==_refl fd, h) refl
  | inr other ↦ let n : (g == fd) ≡ false = ground arith in rw (n, other) refl
])

pub wanted-erase :
    (g fd : ℕ) (l : List (ℕ × PollRequest))
    → wanted g (erase fd l) ≡ (if fd == g then none else wanted g l)
unfolding wanted
wanted-erase g fd l = rw (find-erase g fd l) (elim (Bool-cases (fd == g)) [
  | inl same ↦ let e = sym ((==_iff fd g).0 same) in rw (e, ==_refl fd) refl
  | inr other ↦ let n : (g == fd) ≡ false = ground arith in rw (n, other) refl
])

pub wanted-respond :
    (g fd events : ℕ) (s : Poller) → wanted g (respond fd events s).requests ≡ wanted g s.requests
unfolding respond respond_found wanted
wanted-respond g fd events s = elim (Option-cases (find fd s.requests)) [
  | inl h ↦ rw h refl
  | inr (req, h) ↦ rw h (
      wanted-assign g fd (record req { timeout_ms = negsuc 0 }) req s.requests h
      ∙ elim (Bool-cases (fd == g)) [
        | inl same ↦ let e = sym ((==_iff fd g).0 same) in rw (e, ==_refl fd, h) refl
        | inr other ↦ rw other refl
      ])
]

-- What `Poll` does to a request leaves the changes alone.
pub respond_lem :
    (fd events : ℕ) (s : Poller)
    → let s' = respond fd events s in
      (s'.ctrl_params ≡ s.ctrl_params)
      × (s'.local_params ≡ s.local_params)
      × (s'.watched ≡ s.watched)
      × (s'.is_shutdown ≡ s.is_shutdown)
unfolding respond respond_found
respond_lem fd events s = elim (Option-cases (find fd s.requests)) [
  | inl h ↦ rw h (refl, refl, refl, refl)
  | inr (req, h) ↦ rw h (refl, refl, refl, refl)
]

pub wanted-add :
    (fd g : ℕ) (req : PollRequest) (l : List (ℕ × PollRequest))
    → wanted g ((fd, req) ∷ l) ≡ (if fd == g then some req.events else wanted g l)
unfolding wanted find
wanted-add fd g req l = ground arith

pub wanted-is_some :
    (fd : ℕ) (l : List (ℕ × PollRequest)) → is_some (wanted fd l) ≡ is_some (find fd l)
unfolding wanted
wanted-is_some fd l = elim (Option-cases (find fd l)) [
  | inl h ↦ rw h refl
  | inr (req, h) ↦ rw h refl
]
