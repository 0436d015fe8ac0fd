-- ===== src/Io/Poller/Watching/Handled.antt =====
-- What epoll watches after `HandleChanges`.
use cyberrt_on_rpi.Base.{
  ℕ, ◌≡◌, ◌∙◌, ap, refl, sym, inl, inr, Bool, true, false, Option, none, some, List, [], ◌∷◌, ◌==◌,
  if◌then◌else◌, Bool-cases,
}
use cyberrt_on_rpi.Io.Poller.{
  Control, PollCtrlParam, Poller, find, register_valid, register, unregister_valid, unregister,
  init, take_changes, handle_changes, respond,
}
use cyberrt_on_rpi.Io.Poller.Watching.{
  IsEpoll, Event, registers, unregisters, takes, controls, expires, responds, take_if_done,
  control_next, happen, run, after, wanted, control_one_lem, after-control_all, wanted-expire,
  wanted-respond, respond_lem,
}
use cyberrt_on_rpi.Io.Poller.Watching.InStep.{
  Spaced, AllSpaced, IsInStep, register_valid-IsInStep, unregister_valid-IsInStep,
}

module _ (control : Control) (epoll : IsEpoll control) where
  take_if_done-IsInStep :
      (l : List PollCtrlParam) (s : Poller)
      → s.local_params ≡ l
      → IsInStep control s
      → IsInStep control (take_if_done l s)
  unfolding take_if_done take_changes IsInStep after
  take_if_done-IsInStep [] s e h g =
      ap (λ l. after control s.ctrl_params g (after control l g (s.watched g))) (sym e) ∙ h g
  take_if_done-IsInStep (p ∷ l) s e h g = h g

  control_next-IsInStep :
      (l : List PollCtrlParam) (s : Poller)
      → s.local_params ≡ l
      → IsInStep control s
      → IsInStep control (control_next control l s)
  unfolding control_next IsInStep after
  control_next-IsInStep [] s e h g = h g
  control_next-IsInStep (p ∷ l) s e h g =
      ap (λ k. after control s.ctrl_params g (after control l g k))
        (control_one_lem control p s.watched g)
      ∙ ap (λ l'. after control s.ctrl_params g (after control l' g (s.watched g))) (sym e)
      ∙ h g

  either-IsInStep :
      (b : Bool) (t u : Poller × Bool)
      → IsInStep control t.0
      → IsInStep control u.0
      → IsInStep control (if b then t else u).0
  either-IsInStep true t u h h' = h
  either-IsInStep false t u h h' = h'

  expire-IsInStep :
      (interval_ms : ℕ) (s : Poller)
      → IsInStep control s
      → IsInStep control (happen control (expires interval_ms) s)
  unfolding IsInStep happen
  expire-IsInStep interval_ms s h g =
      h g ∙ sym (wanted-expire s.ctrl_params interval_ms g s.requests)

  respond-IsInStep :
      (fd events : ℕ) (s : Poller) → IsInStep control s → IsInStep control (respond fd events s)
  unfolding IsInStep
  respond-IsInStep fd events s h g =
      let (e, e', e'', _) = respond_lem fd events s in
      rw (e, e', e'') (h g ∙ sym (wanted-respond g fd events s))

  happen-IsInStep :
      (e : Event) (s : Poller)
      → Spaced e s
      → IsInStep control s
      → IsInStep control (happen control e s)
  unfolding happen register unregister
  happen-IsInStep (registers fd req) s spaced h =
      either-IsInStep s.is_shutdown (s, false) (register_valid fd req.callback req s) h
        (register_valid-IsInStep control epoll fd req req.callback s spaced h)
  happen-IsInStep (unregisters fd req) s spaced h =
      either-IsInStep s.is_shutdown (s, false) (unregister_valid fd req.callback s) h
        (unregister_valid-IsInStep control epoll fd req.callback s h)
  happen-IsInStep takes s spaced h = take_if_done-IsInStep s.local_params s refl h
  happen-IsInStep controls s spaced h = control_next-IsInStep s.local_params s refl h
  happen-IsInStep (expires interval_ms) s spaced h = expire-IsInStep interval_ms s h
  happen-IsInStep (responds fd events) s spaced h = respond-IsInStep fd events s h

  run-IsInStep :
      (es : List Event) (s : Poller)
      → AllSpaced control es s
      → IsInStep control s
      → IsInStep control (run control es s)
  unfolding run AllSpaced
  run-IsInStep [] s spaced h = h
  run-IsInStep (e ∷ es) s (spaced, more) h =
      run-IsInStep es (happen control e s) more (happen-IsInStep e s spaced h)

  init-IsInStep : (epoll_fd pipe : Option ℕ) → IsInStep control (init epoll_fd pipe)
  unfolding init IsInStep after wanted find
  init-IsInStep none pipe g = refl
  init-IsInStep (some epoll_fd) none g = refl
  init-IsInStep (some epoll_fd) (some pipe) g = elim (Bool-cases (pipe == g)) [
    | inl same ↦ rw same (epoll.adds 1)
    | inr other ↦ rw other refl
  ]

-- The poller since it was made, whatever is registered and unregistered by other threads between the steps
-- of the polling thread, where a descriptor is not registered again before the poller has taken that it was
-- registered first or unregistered: once the changes that were taken are handed over, `HandleChanges` makes
-- epoll watch the descriptors that are asked for, each with the events of its last request, and no others.
pub watched :
    (control : Control) (epoll_fd pipe : Option ℕ) (es : List Event) (fd : ℕ)
    → IsEpoll control
    → AllSpaced control es (init epoll_fd pipe)
    → (run control es (init epoll_fd pipe)).local_params ≡ []
    → let s = handle_changes control (run control es (init epoll_fd pipe)) in
      s.watched fd ≡ wanted fd s.requests
unfolding handle_changes IsInStep after
watched control epoll_fd pipe es fd epoll spaced done =
    let s = run control es (init epoll_fd pipe) in
    let h =
      run-IsInStep control epoll es (init epoll_fd pipe) spaced
        (init-IsInStep control epoll epoll_fd pipe) in
    after-control_all control s.ctrl_params s.watched fd
    ∙ ap (λ l. after control s.ctrl_params fd (after control l fd (s.watched fd))) (sym done)
    ∙ h fd
