-- ===== src/Io/Poller/Tests.antt =====
-- A poller with two descriptors.
use cyberrt_on_rpi.Base.{
  ℕ, ◌≡◌, refl, true, false, none, some, is_some, List, [], ◌∷◌, ◌++◌, arith, count,
}
use cyberrt_on_rpi.Base.Int.{ℤ, pos, negsuc}
use cyberrt_on_rpi.Io.Poller.{
  epoll_ctl_add, epoll_ctl_mod, epoll_ctl_del, Control, PollRequest, Poller, find, erase, assign,
  erase_param, set_param, has_param, notify, register_found, register_valid, register,
  unregister_found, unregister_valid, unregister, init, take_changes, control_one, control_all,
  handle_changes, expire, respond_found, respond, count_down, get_timeout_ms, shortest, shorter,
}
use cyberrt_on_rpi.Io.Poller.Watching.{
  IsEpoll, Event, registers, unregisters, takes, controls, expires, responds, take_if_done,
  control_next, happen, run, wanted,
}
use cyberrt_on_rpi.Io.Poller.Watching.InStep.{AllSpaced, only_mods}
use cyberrt_on_rpi.Io.Poller.Watching.Handled.{watched}
use cyberrt_on_rpi.Io.Poller.Watching.Lost.{AllKeep, no_adds}
use cyberrt_on_rpi.Io.Poller.Watching.Twice.{lost}
use cyberrt_on_rpi.Io.Poller.Polling.{events_to, ready_events, timed_out}
use cyberrt_on_rpi.Io.Poller.Polling.Rounds.{poll_all, is_over, NotReady, times_out}

abbrev epoll : Control
epoll epoll_ctl_add e none = some e
epoll epoll_ctl_add e (some o) = some o
epoll epoll_ctl_mod e none = none
epoll epoll_ctl_mod e (some o) = some e
epoll epoll_ctl_del e k = none

epoll-IsEpoll : IsEpoll epoll
epoll-IsEpoll = record {
  adds = λ e. refl;
  adds_once = λ e o. refl;
  changes = λ e o. refl;
  changes_none = λ e. refl;
  drops = λ e k. refl;
}

abbrev request : ℕ → ℤ → PollRequest
request events t = record { events = events; timeout_ms = t; callback = some 5 }

-- The descriptor 7 is registered, then with other events, and unregistered and registered once more.
abbrev calm : List Event
calm =
    takes
    ∷ controls
    ∷ registers (pos 7) (request 1 (negsuc 0))
    ∷ takes
    ∷ controls
    ∷ registers (pos 7) (request 4 (negsuc 0))
    ∷ expires 3
    ∷ responds 7 4
    ∷ takes
    ∷ controls
    ∷ unregisters (pos 7) (request 4 (negsuc 0))
    ∷ takes
    ∷ controls
    ∷ registers (pos 7) (request 2 (negsuc 0))
    ∷ []

abbrev calm_poller : Poller
calm_poller = run epoll calm (init (some 3) (some 4))

calm_poller-AllSpaced : AllSpaced epoll calm (init (some 3) (some 4))
unfolding run happen register register_valid register_found find notify set_param erase_param init
    take_if_done take_changes control_next control_one unregister unregister_valid unregister_found
    erase expire has_param count_down respond respond_found assign AllSpaced only_mods
calm_poller-AllSpaced =
    (tt, (tt, (refl, (tt, (tt, (refl, (tt, (tt, (tt, (tt, (tt, (tt, (tt, (refl, tt))))))))))))))

calm_poller_done : calm_poller.local_params ≡ []
unfolding run happen register register_valid register_found find notify set_param erase_param init
    take_if_done take_changes control_next control_one unregister unregister_valid unregister_found
    erase expire has_param count_down respond respond_found assign
calm_poller_done = refl

calm_poller_watches : (handle_changes epoll calm_poller).watched 7 ≡ some 2
unfolding run happen register register_valid register_found find notify set_param erase_param init
    take_if_done take_changes control_next control_one unregister unregister_valid unregister_found
    erase expire has_param count_down respond respond_found assign handle_changes control_all
calm_poller_watches = refl

watched_example :
    (handle_changes epoll calm_poller).watched 7
    ≡ wanted 7 (handle_changes epoll calm_poller).requests
watched_example =
    watched epoll (some 3) (some 4) calm 7 epoll-IsEpoll calm_poller-AllSpaced calm_poller_done

-- The descriptor 7 is registered twice before the thread takes the changes, and a third time afterwards.
abbrev hasty : List Event
hasty =
    takes ∷ controls ∷ controls ∷ registers (pos 7) (request 1 (negsuc 0)) ∷ takes ∷ controls ∷ []

abbrev twice : Poller
twice =
    (register (pos 7) (request 4 (pos 30))
      (register (pos 7) (request 1 (negsuc 0)) (init (some 3) (some 4))).0).0

lost_example :
    ((register (pos 7) (request 1 (negsuc 0)) (init (some 3) (some 4))).1 ≡ true)
    × ((register
          (pos 7)
          (request 4 (pos 30))
          (register (pos 7) (request 1 (negsuc 0)) (init (some 3) (some 4))).0).1
        ≡ true)
    × ((run epoll hasty twice).watched 7 ≡ none)
    × (is_some (wanted 7 (run epoll hasty twice).requests) ≡ true)
unfolding init find no_adds AllKeep
lost_example =
    lost epoll 7 5 5 (request 1 (negsuc 0)) (request 4 (pos 30)) hasty (init (some 3) (some 4))
      epoll-IsEpoll refl refl refl refl refl refl (tt, (tt, (tt, (tt, (tt, (tt, tt))))))

-- The descriptor 7 with a timeout of 30 milliseconds, and the descriptor 8.
abbrev waiting : Poller
waiting = record {
  is_shutdown = false;
  requests = (7, request 1 (pos 30)) ∷ (8, request 1 (negsuc 0)) ∷ [];
  ctrl_params = [];
  local_params = [];
  watched = λ fd. none;
  written = 0;
  calls = [];
}

-- The descriptor 8 is ready twice.
abbrev rounds : List (ℕ × List (ℕ × ℕ))
rounds = (20, (8, 1) ∷ []) ∷ (0, []) ∷ (9, (8, 1) ∷ []) ∷ (40, []) ∷ []

waits_for : get_timeout_ms waiting ≡ 30
unfolding get_timeout_ms shortest shorter
waits_for = refl

times_out_example :
    events_to 7 (poll_all rounds waiting).calls
    ≡ events_to 7 waiting.calls ++ timed_out (is_over 30 rounds)
unfolding has_param count find NotReady ready_events
times_out_example =
    times_out rounds 7 30 (request 1 (pos 30)) waiting refl refl (omega arith) refl
      (refl, (refl, (refl, (refl, tt))))
