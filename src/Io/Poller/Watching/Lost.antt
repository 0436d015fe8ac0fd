-- ===== src/Io/Poller/Watching/Lost.antt =====
-- A descriptor that is asked for and that epoll will not watch.
use cyberrt_on_rpi.Base.{
  ℕ, ◌≡◌, ◌∙◌, ap, refl, sym, subst, inl, inr, Bool, true, false, ◌&&◌, not, Option, none, some,
  is_some, List, [], ◌∷◌, ◌==◌, if◌then◌else◌, arith, Bool-cases, ==_iff,
}
use cyberrt_on_rpi.Base.Int.{ℤ, pos, negsuc}
use cyberrt_on_rpi.Io.Poller.{
  Operation, epoll_ctl_add, epoll_ctl_mod, epoll_ctl_del, Control, PollRequest, PollCtrlParam,
  Poller, find, erase_param, set_param, notify, register_found, register_valid, register,
  unregister_found, unregister_valid, unregister, take_changes,
}
use cyberrt_on_rpi.Io.Poller.Watching.{
  IsEpoll, Event, registers, unregisters, takes, controls, expires, responds, take_if_done,
  control_next, happen, run, wanted, control_one_lem, wanted-expire, wanted-respond, wanted-erase,
  wanted-assign, wanted-add, wanted-is_some, respond_lem,
}

abbrev pub is_add : Operation → Bool
is_add epoll_ctl_add = true
is_add epoll_ctl_mod = false
is_add epoll_ctl_del = false

-- No change is collected that adds the descriptor.
unfoldable pub no_adds : ℕ → List PollCtrlParam → Bool
no_adds fd [] = true
no_adds fd (p ∷ params) =
    let rest = no_adds fd params in if p.fd == fd then not (is_add p.operation) && rest else rest

-- The descriptor is never unregistered.
abbrev pub Keeps : ℕ → Event → Type 0
Keeps fd (registers f req) = Unit
Keeps fd (unregisters (pos f) req) = (f == fd) ≡ false
Keeps fd (unregisters (negsuc n) req) = Unit
Keeps fd takes = Unit
Keeps fd controls = Unit
Keeps fd (expires interval_ms) = Unit
Keeps fd (responds f events) = Unit

unfoldable pub AllKeep : ℕ → List Event → Type 0
AllKeep fd [] = Unit
AllKeep fd (e ∷ es) = Keeps fd e × AllKeep fd es

-- The descriptor is asked for and not watched, and no change will add it.
pub record IsLost (fd : ℕ) (s : Poller) : Type 0 where
  pub asked : is_some (wanted fd s.requests) ≡ true
  pub unwatched : s.watched fd ≡ none
  pub no_ctrl : no_adds fd s.ctrl_params ≡ true
  pub no_local : no_adds fd s.local_params ≡ true

head_rest :
    (same a rest : Bool)
    → (if same then not a && rest else rest) ≡ true
    → (rest ≡ true) × (same ≡ true → a ≡ false)
head_rest same a rest h = ground arith

no_adds-erase_param :
    (fd f : ℕ) (l : List PollCtrlParam) → no_adds fd l ≡ true → no_adds fd (erase_param f l) ≡ true
unfolding no_adds erase_param
no_adds-erase_param fd f [] h = refl
no_adds-erase_param fd f (p ∷ l) h =
    let (r, a) = head_rest (p.fd == fd) (is_add p.operation) (no_adds fd l) h in
    let rest = no_adds-erase_param fd f l r in ground arith

no_adds-set_param :
    (fd : ℕ) (p : PollCtrlParam) (l : List PollCtrlParam)
    → ((p.fd == fd) ≡ true → is_add p.operation ≡ false)
    → no_adds fd l ≡ true
    → no_adds fd (set_param p l) ≡ true
unfolding set_param no_adds
no_adds-set_param fd p l a h =
    let rest = no_adds-erase_param fd p.fd l h in
    elim (Bool-cases (p.fd == fd)) [ inl same ↦ rw (same, a same) rest | inr other ↦ rw other rest ]

control_none :
    (control : Control)
    → IsEpoll control
    → (op : Operation) (e : ℕ) → is_add op ≡ false
    → control op e none ≡ none
control_none control epoll epoll_ctl_add e h = absurd (cc h)
control_none control epoll epoll_ctl_mod e h = epoll.changes_none e
control_none control epoll epoll_ctl_del e h = epoll.drops e none

not_asked :
    (f fd : ℕ) (l : List (ℕ × PollRequest))
    → find f l ≡ none
    → (f == fd) ≡ true
    → is_some (wanted fd l) ≡ true
    → ⊥
not_asked f fd l h same asked =
    let e = ap is_some (subst (λ x. find x l ≡ none) ((==_iff f fd).0 same) h) in
    let asked' = sym (wanted-is_some fd l) ∙ asked in cc

if_some :
    (b : Bool) (e : ℕ) (o : Option ℕ) → is_some o ≡ true → is_some (if b then some e else o) ≡ true
if_some true e o h = refl
if_some false e o h = h

module _ (control : Control) (epoll : IsEpoll control) (fd : ℕ) where
  register_found-IsLost :
      (o : Option PollRequest) (f : ℕ) (req : PollRequest) (s : Poller)
      → find f s.requests ≡ o
      → IsLost fd s
      → IsLost fd (register_found o f req s)
  unfolding register_found
  register_found-IsLost none f req s found h = record {
    asked =
        rw (wanted-add f fd req s.requests)
          (if_some (f == fd) req.events (wanted fd s.requests) h.asked);
    unwatched = h.unwatched;
    no_ctrl =
        no_adds-set_param fd (record { operation = epoll_ctl_add; fd = f; events = req.events })
          s.ctrl_params (λ same. absurd (not_asked f fd s.requests found same h.asked)) h.no_ctrl;
    no_local = h.no_local;
  }
  register_found-IsLost (some old) f req s found h = record {
    asked =
        rw (wanted-assign fd f req old s.requests found)
          (if_some (f == fd) req.events (wanted fd s.requests) h.asked);
    unwatched = h.unwatched;
    no_ctrl =
        no_adds-set_param fd (record { operation = epoll_ctl_mod; fd = f; events = req.events })
          s.ctrl_params (λ _. refl) h.no_ctrl;
    no_local = h.no_local;
  }

  unregister_found-IsLost :
      (o : Option PollRequest) (f : ℕ) (s : Poller)
      → (f == fd) ≡ false
      → IsLost fd s
      → IsLost fd (unregister_found o f s).0
  unfolding unregister_found notify
  unregister_found-IsLost none f s other h = h
  unregister_found-IsLost (some req) f s other h = record {
    asked = rw (wanted-erase fd f s.requests, other) h.asked;
    unwatched = h.unwatched;
    no_ctrl =
        no_adds-set_param fd (record { operation = epoll_ctl_del; fd = f; events = 0 })
          s.ctrl_params (λ _. refl) h.no_ctrl;
    no_local = h.no_local;
  }

  register_valid-IsLost :
      (f : ℤ) (req : PollRequest) (o : Option ℕ) (s : Poller)
      → IsLost fd s
      → IsLost fd (register_valid f o req s).0
  unfolding register_valid notify
  register_valid-IsLost (pos f) req (some c) s h =
      let h' = register_found-IsLost (find f s.requests) f req s refl h in
      record {
        asked = h'.asked;
        unwatched = h'.unwatched;
        no_ctrl = h'.no_ctrl;
        no_local = h'.no_local;
      }
  register_valid-IsLost (pos f) req none s h = h
  register_valid-IsLost (negsuc n) req c s h = h

  unregister_valid-IsLost :
      (f : ℤ) (req : PollRequest) (o : Option ℕ) (s : Poller)
      → Keeps fd (unregisters f req)
      → IsLost fd s
      → IsLost fd (unregister_valid f o s).0
  unfolding unregister_valid
  unregister_valid-IsLost (pos f) req (some c) s keeps h =
      unregister_found-IsLost (find f s.requests) f s keeps h
  unregister_valid-IsLost (pos f) req none s keeps h = h
  unregister_valid-IsLost (negsuc n) req c s keeps h = h

  take_if_done-IsLost :
      (l : List PollCtrlParam) (s : Poller) → IsLost fd s → IsLost fd (take_if_done l s)
  unfolding take_if_done take_changes no_adds
  take_if_done-IsLost [] s h = record {
    asked = h.asked;
    unwatched = h.unwatched;
    no_ctrl = refl;
    no_local = h.no_ctrl;
  }
  take_if_done-IsLost (p ∷ l) s h = h

  control_next-IsLost :
      (l : List PollCtrlParam) (s : Poller)
      → s.local_params ≡ l
      → IsLost fd s
      → IsLost fd (control_next control l s)
  unfolding control_next no_adds
  control_next-IsLost [] s e h = h
  control_next-IsLost (p ∷ l) s e h =
      let (rest, a) =
        head_rest (p.fd == fd) (is_add p.operation) (no_adds fd l)
          (ap (no_adds fd) (sym e) ∙ h.no_local) in
      record {
        asked = h.asked;
        unwatched = control_one_lem control p s.watched fd ∙ elim (Bool-cases (p.fd == fd)) [
          | inl same ↦
              rw (same, h.unwatched) (control_none control epoll p.operation p.events (a same))
          | inr other ↦ rw other h.unwatched
        ];
        no_ctrl = h.no_ctrl;
        no_local = rest;
      }

  either-IsLost :
      (b : Bool) (t u : Poller × Bool)
      → IsLost fd t.0
      → IsLost fd u.0
      → IsLost fd (if b then t else u).0
  either-IsLost true t u h h' = h
  either-IsLost false t u h h' = h'

  happen-IsLost :
      (e : Event) (s : Poller) → Keeps fd e → IsLost fd s → IsLost fd (happen control e s)
  unfolding happen register unregister
  happen-IsLost (registers f req) s keeps h =
      either-IsLost s.is_shutdown (s, false) (register_valid f req.callback req s) h
        (register_valid-IsLost f req req.callback s h)
  happen-IsLost (unregisters f req) s keeps h =
      either-IsLost s.is_shutdown (s, false) (unregister_valid f req.callback s) h
        (unregister_valid-IsLost f req req.callback s keeps h)
  happen-IsLost takes s keeps h = take_if_done-IsLost s.local_params s h
  happen-IsLost controls s keeps h = control_next-IsLost s.local_params s refl h
  happen-IsLost (expires interval_ms) s keeps h = record {
    asked = rw (wanted-expire s.ctrl_params interval_ms fd s.requests) h.asked;
    unwatched = h.unwatched;
    no_ctrl = h.no_ctrl;
    no_local = h.no_local;
  }
  happen-IsLost (responds f events) s keeps h =
      let (e, e', e'', _) = respond_lem f events s in
      record {
        asked = ap is_some (wanted-respond fd f events s) ∙ h.asked;
        unwatched = ap (λ w. w fd) e'' ∙ h.unwatched;
        no_ctrl = ap (no_adds fd) e ∙ h.no_ctrl;
        no_local = ap (no_adds fd) e' ∙ h.no_local;
      }

  pub run-IsLost :
      (es : List Event) (s : Poller) → AllKeep fd es → IsLost fd s → IsLost fd (run control es s)
  unfolding run AllKeep
  run-IsLost [] s keeps h = h
  run-IsLost (e ∷ es) s (keep, keeps) h =
      run-IsLost es (happen control e s) keeps (happen-IsLost e s keep h)
