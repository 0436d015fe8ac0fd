-- ===== src/Io/Poller/Watching/InStep.antt =====
-- When what epoll watches and what is asked for agree.
use cyberrt_on_rpi.Base.{
  ℕ, ◌≡◌, ◌∙◌, ap, refl, sym, subst, inl, inr, Bool, true, false, ◌&&◌, Option, none, some, is_some,
  List, [], ◌∷◌, ◌==◌, if◌then◌else◌, arith, Bool-cases, ==_iff,
}
use cyberrt_on_rpi.Base.Int.{ℤ, pos, negsuc}
use cyberrt_on_rpi.Io.Poller.{
  Operation, epoll_ctl_add, epoll_ctl_mod, epoll_ctl_del, Control, PollRequest, PollCtrlParam,
  Poller, find, set_param, notify, register_found, register_valid, unregister_found,
  unregister_valid,
}
use cyberrt_on_rpi.Io.Poller.Watching.{
  IsEpoll, Event, registers, unregisters, takes, controls, expires, responds, happen, after, wanted,
  after-erase_param, wanted-assign, wanted-erase, wanted-add, wanted-is_some,
}

abbrev is_mod : Operation → Bool
is_mod epoll_ctl_add = false
is_mod epoll_ctl_mod = true
is_mod epoll_ctl_del = false

-- The changes of a descriptor that are collected change its events, and no more.
unfoldable pub only_mods : ℕ → List PollCtrlParam → Bool
only_mods fd [] = true
only_mods fd (p ∷ params) =
    let rest = only_mods fd params in if p.fd == fd then is_mod p.operation && rest else rest

-- A call of Register comes when the poller has taken the call before for the same descriptor by which it
-- was registered first or unregistered.
abbrev pub Spaced : Event → Poller → Type 0
Spaced (registers (pos fd) req) s = only_mods fd s.ctrl_params ≡ true
Spaced (registers (negsuc n) req) s = Unit
Spaced (unregisters fd req) s = Unit
Spaced takes s = Unit
Spaced controls s = Unit
Spaced (expires interval_ms) s = Unit
Spaced (responds fd events) s = Unit

unfoldable pub AllSpaced : Control → List Event → Poller → Type 0
AllSpaced control [] s = Unit
AllSpaced control (e ∷ es) s = Spaced e s × AllSpaced control es (happen control e s)

-- When all changes have been handed over, every descriptor is watched as it is asked for.
unfoldable pub IsInStep : Control → Poller → Type 0
IsInStep control s =
    (fd : ℕ)
    → after control s.ctrl_params fd (after control s.local_params fd (s.watched fd))
      ≡ wanted fd s.requests

control_mod-some :
    (control : Control)
    → IsEpoll control
    → (op : Operation) (e : ℕ) (k : Option ℕ) → is_mod op ≡ true
    → is_some (control op e k) ≡ is_some k
control_mod-some control epoll epoll_ctl_add e k h = absurd (cc h)
control_mod-some control epoll epoll_ctl_mod e none h = rw (epoll.changes_none e) refl
control_mod-some control epoll epoll_ctl_mod e (some o) h = rw (epoll.changes e o) refl
control_mod-some control epoll epoll_ctl_del e k h = absurd (cc h)

both : (a b : Bool) → (a && b) ≡ true → (a ≡ true) × (b ≡ true)
both a b h = ground arith

only_same : (same m l : Bool) → same ≡ true → (if same then m && l else l) ≡ (m && l)
only_same same m l h = ground arith

only_other : (same m l : Bool) → same ≡ false → (if same then m && l else l) ≡ l
only_other same m l h = ground arith

after-is_some :
    (control : Control)
    → IsEpoll control
    → (params : List PollCtrlParam) (fd : ℕ) (k : Option ℕ) → only_mods fd params ≡ true
    → is_some (after control params fd k) ≡ is_some k
unfolding after only_mods
after-is_some control epoll [] fd k h = refl
after-is_some control epoll (p ∷ params) fd k h = elim (Bool-cases (p.fd == fd)) [
  | inl same ↦
      let (m, l) =
        both (is_mod p.operation) (only_mods fd params)
          (sym (only_same (p.fd == fd) (is_mod p.operation) (only_mods fd params) same) ∙ h) in
      rw same (
        after-is_some control epoll params fd (control p.operation p.events k) l
        ∙ control_mod-some control epoll p.operation p.events k m)
  | inr other ↦ rw other (
      after-is_some control epoll params fd k
        (sym (only_other (p.fd == fd) (is_mod p.operation) (only_mods fd params) other) ∙ h))
]

set_param_lem :
    (control : Control) (p : PollCtrlParam) (params : List PollCtrlParam) (g : ℕ) (k : Option ℕ)
    → after control (set_param p params) g k
      ≡ (if p.fd == g then control p.operation p.events k else after control params g k)
unfolding set_param after
set_param_lem control p params g k = elim (Bool-cases (p.fd == g)) [
  | inl same ↦
      rw
        (
          after-erase_param control p.fd g params
              (if p.fd == g then control p.operation p.events k else k),
          same,
        )
        refl
  | inr other ↦
      rw
        (
          after-erase_param control p.fd g params
              (if p.fd == g then control p.operation p.events k else k),
          other,
        )
        refl
]

add_none :
    (control : Control)
    → IsEpoll control
    → (e : ℕ) (k : Option ℕ) → is_some k ≡ false
    → control epoll_ctl_add e k ≡ some e
add_none control epoll e none h = epoll.adds e
add_none control epoll e (some o) h = absurd (cc h)

mod_some :
    (control : Control)
    → IsEpoll control
    → (e : ℕ) (k : Option ℕ) → is_some k ≡ true
    → control epoll_ctl_mod e k ≡ some e
mod_some control epoll e none h = absurd (cc h)
mod_some control epoll e (some o) h = epoll.changes e o

module _ (control : Control) (epoll : IsEpoll control) where
  coming-is_some :
      (fd : ℕ) (s : Poller)
      → only_mods fd s.ctrl_params ≡ true
      → IsInStep control s
      → is_some (after control s.local_params fd (s.watched fd)) ≡ is_some (find fd s.requests)
  unfolding IsInStep
  coming-is_some fd s mods h =
      sym (
        after-is_some control epoll s.ctrl_params fd
          (after control s.local_params fd (s.watched fd)) mods)
      ∙ ap is_some (h fd)
      ∙ wanted-is_some fd s.requests

  register_found-IsInStep :
      (o : Option PollRequest) (fd : ℕ) (req : PollRequest) (s : Poller)
      → find fd s.requests ≡ o
      → only_mods fd s.ctrl_params ≡ true
      → IsInStep control s
      → IsInStep control (register_found o fd req s)
  unfolding IsInStep register_found
  register_found-IsInStep none fd req s found mods h g =
      let k = after control s.local_params g (s.watched g) in
      let p : PollCtrlParam = record { operation = epoll_ctl_add; fd = fd; events = req.events } in
      set_param_lem control p s.ctrl_params g k ∙ elim (Bool-cases (fd == g)) [
        | inl same ↦
            let free =
              subst (λ x. is_some (after control s.local_params x (s.watched x)) ≡ false)
                ((==_iff fd g).0 same) (coming-is_some fd s mods h ∙ ap is_some found) in
            rw (wanted-add fd g req s.requests, same) (add_none control epoll req.events k free)
        | inr other ↦ rw (wanted-add fd g req s.requests, other) (h g)
      ]
  register_found-IsInStep (some old) fd req s found mods h g =
      let k = after control s.local_params g (s.watched g) in
      let p : PollCtrlParam = record { operation = epoll_ctl_mod; fd = fd; events = req.events } in
      set_param_lem control p s.ctrl_params g k ∙ elim (Bool-cases (fd == g)) [
        | inl same ↦
            let taken =
              subst (λ x. is_some (after control s.local_params x (s.watched x)) ≡ true)
                ((==_iff fd g).0 same) (coming-is_some fd s mods h ∙ ap is_some found) in
            rw (wanted-assign g fd req old s.requests found, same)
              (mod_some control epoll req.events k taken)
        | inr other ↦ rw (wanted-assign g fd req old s.requests found, other) (h g)
      ]

  unregister_found-IsInStep :
      (o : Option PollRequest) (fd : ℕ) (s : Poller)
      → IsInStep control s
      → IsInStep control (unregister_found o fd s).0
  unfolding IsInStep unregister_found notify
  unregister_found-IsInStep none fd s h = λ g. h g
  unregister_found-IsInStep (some req) fd s h = λ g.
      let k = after control s.local_params g (s.watched g) in
      let p : PollCtrlParam = record { operation = epoll_ctl_del; fd = fd; events = 0 } in
      set_param_lem control p s.ctrl_params g k ∙ elim (Bool-cases (fd == g)) [
        | inl same ↦ rw (wanted-erase g fd s.requests, same) (epoll.drops 0 k)
        | inr other ↦ rw (wanted-erase g fd s.requests, other) (h g)
      ]

  pub register_valid-IsInStep :
      (fd : ℤ) (req : PollRequest) (o : Option ℕ) (s : Poller)
      → Spaced (registers fd req) s
      → IsInStep control s
      → IsInStep control (register_valid fd o req s).0
  unfolding register_valid notify IsInStep
  register_valid-IsInStep (pos fd) req (some c) s spaced h =
      register_found-IsInStep (find fd s.requests) fd req s refl spaced h
  register_valid-IsInStep (pos fd) req none s spaced h = h
  register_valid-IsInStep (negsuc n) req c s spaced h = h

  pub unregister_valid-IsInStep :
      (fd : ℤ) (o : Option ℕ) (s : Poller)
      → IsInStep control s
      → IsInStep control (unregister_valid fd o s).0
  unfolding unregister_valid
  unregister_valid-IsInStep (pos fd) (some c) s h =
      unregister_found-IsInStep (find fd s.requests) fd s h
  unregister_valid-IsInStep (pos fd) none s h = h
  unregister_valid-IsInStep (negsuc n) c s h = h
