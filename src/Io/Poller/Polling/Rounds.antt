-- ===== src/Io/Poller/Polling/Rounds.antt =====
-- `Poll`, once and round after round.
use cyberrt_on_rpi.Base.{
  ℕ, ◌+◌, ◌-◌, ◌≤◌, ◌≡◌, ◌∙◌, ap, refl, sym, subst, inl, inr, Bool, true, false, none, some, List,
  [], ◌∷◌, ◌++◌, ltb, leb, arith, Bool-cases, count, append-nil,
}
use cyberrt_on_rpi.Base.Int.{ℤ, pos, negsuc}
use cyberrt_on_rpi.Io.Poller.{
  PollRequest, Poller, find, has_param, interval, count_down, expire, add_ready, poll,
}
use cyberrt_on_rpi.Io.Poller.Polling.{
  keys, events_to, ready_events, timed_out, answer, reset_if, Responded,
}
use cyberrt_on_rpi.Io.Poller.Polling.Expiring.{expire_lem, keys-expire}
use cyberrt_on_rpi.Io.Poller.Polling.Responding.{events_to-add_ready, respond_all_lem}

-- `Poll` on a request that stands once in the map and is not changed in this round: its callback is called
-- once, with the events with which the descriptor was found ready last, if it was, or without events if its
-- time is over; otherwise it is not called. A request that was called waits for ever then, and another one has
-- the rest of its time left.
pub poll_lem :
    (elapsed_ms : ℕ) (ready : List (ℕ × ℕ)) (fd : ℕ) (req : PollRequest) (s : Poller)
    → has_param fd s.ctrl_params ≡ false
    → count fd (keys s.requests) ≤ 1
    → find fd s.requests ≡ some req
    → let (timeout_ms, over) = count_down (interval elapsed_ms) req.timeout_ms in
      let events = answer (ready_events fd ready) (timed_out over) in
      Responded fd events (record req { timeout_ms = timeout_ms }) s (poll elapsed_ms ready s)
unfolding poll
poll_lem elapsed_ms ready fd req s free once found =
    let i = interval elapsed_ms in
    let responses = (expire s.ctrl_params i s.requests).1 in
    let s₁ = record s { requests = (expire s.ctrl_params i s.requests).0 } in
    let (timeout_ms, over) = count_down i req.timeout_ms in
    let (left, answers) = expire_lem s.ctrl_params i fd req s.requests free once found in
    let events =
      events_to-add_ready fd ready responses ∙ ap (answer (ready_events fd ready)) answers in
    let (called, left', same, same') =
      respond_all_lem (add_ready ready responses) fd (record req { timeout_ms = timeout_ms }) s₁
        left in
    (
      called ∙ ap (λ l. events_to fd s.calls ++ l) events,
      left' ∙ ap (λ l. some (reset_if l (record req { timeout_ms = timeout_ms }))) events,
      same ∙ keys-expire s.ctrl_params i s.requests,
      same',
    )

-- Rounds of the poller, with the milliseconds that each took and what was ready in it.
unfoldable pub poll_all : List (ℕ × List (ℕ × ℕ)) → Poller → Poller
poll_all [] s = s
poll_all ((elapsed_ms, ready) ∷ rounds) s = poll_all rounds (poll elapsed_ms ready s)

unfoldable pub NotReady : ℕ → List (ℕ × List (ℕ × ℕ)) → Type 0
NotReady fd [] = Unit
NotReady fd ((elapsed_ms, ready) ∷ rounds) = (ready_events fd ready ≡ none) × NotReady fd rounds

-- Rounds count for a millisecond at least.
unfoldable pub total : List (ℕ × List (ℕ × ℕ)) → ℕ
total [] = 0
total ((elapsed_ms, ready) ∷ rounds) = interval elapsed_ms + total rounds

-- Whether the time is over after these rounds.
abbrev pub is_over : ℕ → List (ℕ × List (ℕ × ℕ)) → Bool
is_over t [] = false
is_over t (r ∷ rounds) = leb t (total (r ∷ rounds))

-- A round in which the descriptor is not ready.
quiet_round :
    (elapsed_ms : ℕ) (ready : List (ℕ × ℕ)) (fd : ℕ) (t : ℤ) (req : PollRequest) (s : Poller)
    → req.timeout_ms ≡ t
    → has_param fd s.ctrl_params ≡ false
    → count fd (keys s.requests) ≤ 1
    → find fd s.requests ≡ some req
    → ready_events fd ready ≡ none
    → let (timeout_ms, over) = count_down (interval elapsed_ms) t in
      Responded fd
        (timed_out over)
        (record req { timeout_ms = timeout_ms })
        s
        (poll elapsed_ms ready s)
quiet_round elapsed_ms ready fd t req s e free once found h =
    let i = interval elapsed_ms in
    let s' = poll elapsed_ms ready s in
    subst
      (λ x.
        Responded fd (timed_out (count_down i x).1) (record req { timeout_ms = (count_down i x).0 })
          s s')
      e
      (subst
        (λ o.
          Responded fd (answer o (timed_out (count_down i req.timeout_ms).1))
            (record req { timeout_ms = (count_down i req.timeout_ms).0 }) s s')
        h (poll_lem elapsed_ms ready fd req s free once found))

count_down_before : (i t : ℕ) → ltb i t ≡ true → count_down i (pos t) ≡ (pos (t - i), false)
unfolding count_down
count_down_before i t h = rw h refl

count_down_now : (i t : ℕ) → ltb i t ≡ false → count_down i (pos t) ≡ (negsuc 0, true)
unfolding count_down
count_down_now i t h = rw h refl

is_over-sub :
    (t i : ℕ) (r : ℕ × List (ℕ × ℕ)) (rounds : List (ℕ × List (ℕ × ℕ)))
    → interval r.0 ≡ i
    → ltb i t ≡ true
    → is_over (t - i) rounds ≡ is_over t (r ∷ rounds)
unfolding total
is_over-sub t i r [] e l = ground arith
is_over-sub t i r (r' ∷ rounds) e l = ground arith

is_over_now :
    (t i : ℕ) (r : ℕ × List (ℕ × ℕ)) (rounds : List (ℕ × List (ℕ × ℕ)))
    → interval r.0 ≡ i
    → ltb i t ≡ false
    → is_over t (r ∷ rounds) ≡ true
unfolding total
is_over_now t i r rounds e l = ground arith

waits :
    (rounds : List (ℕ × List (ℕ × ℕ))) (fd : ℕ) (req : PollRequest) (n : ℕ) (s : Poller)
    → req.timeout_ms ≡ negsuc n
    → has_param fd s.ctrl_params ≡ false
    → count fd (keys s.requests) ≤ 1
    → find fd s.requests ≡ some req
    → NotReady fd rounds
    → events_to fd (poll_all rounds s).calls ≡ events_to fd s.calls
unfolding poll_all NotReady count_down
waits [] fd req n s e free once found h = refl
waits ((elapsed_ms, ready) ∷ rounds) fd req n s e free once found (h, hs) =
    let s' = poll elapsed_ms ready s in
    let (called, left, same, same') =
      quiet_round elapsed_ms ready fd (negsuc n) req s e free once found h in
    waits rounds fd (record req { timeout_ms = negsuc n }) n s' refl
      (ap (has_param fd) same' ∙ free) (subst (λ k. count fd k ≤ 1) (sym same) once) left hs
    ∙ called
    ∙ append-nil (events_to fd s.calls)

-- A request with a timeout, whose descriptor stands once in the map, is not changed and never found ready, is
-- called once, without events, in the round in which the rounds since then have lasted as long as its timeout,
-- and in no other round (each round counts for a millisecond at least, and at least one round is needed).
pub times_out :
    (rounds : List (ℕ × List (ℕ × ℕ))) (fd t : ℕ) (req : PollRequest) (s : Poller)
    → req.timeout_ms ≡ pos t
    → has_param fd s.ctrl_params ≡ false
    → count fd (keys s.requests) ≤ 1
    → find fd s.requests ≡ some req
    → NotReady fd rounds
    → events_to fd (poll_all rounds s).calls ≡ events_to fd s.calls ++ timed_out (is_over t rounds)
unfolding poll_all NotReady
times_out [] fd t req s e free once found h = sym (append-nil _)
times_out ((elapsed_ms, ready) ∷ rounds) fd t req s e free once found (h, hs) =
    let i = interval elapsed_ms in
    let s' = poll elapsed_ms ready s in
    let r : ℕ × List (ℕ × ℕ) = (elapsed_ms, ready) in
    let quiet = quiet_round elapsed_ms ready fd (pos t) req s e free once found h in
    let step = λ (x : ℤ × Bool). λ (p : count_down i (pos t) ≡ x).
      subst (λ y. Responded fd (timed_out y.1) (record req { timeout_ms = y.0 }) s s') p quiet in
    elim (Bool-cases (ltb i t)) [
      | inl before ↦
          let (called, left, same, same') =
            step (pos (t - i), false) (count_down_before i t before) in
          times_out rounds fd (t - i) (record req { timeout_ms = pos (t - i) }) s' refl
            (ap (has_param fd) same' ∙ free) (subst (λ k. count fd k ≤ 1) (sym same) once) left hs
          ∙ ap (λ l. l ++ timed_out (is_over (t - i) rounds))
              (called ∙ append-nil (events_to fd s.calls))
          ∙ ap (λ b. events_to fd s.calls ++ timed_out b) (is_over-sub t i r rounds refl before)
      | inr now ↦
          let (called, left, same, same') = step (negsuc 0, true) (count_down_now i t now) in
          waits rounds fd (record req { timeout_ms = negsuc 0 }) 0 s' refl
            (ap (has_param fd) same' ∙ free) (subst (λ k. count fd k ≤ 1) (sym same) once) left hs
          ∙ called
          ∙ ap (λ b. events_to fd s.calls ++ timed_out b) (sym (is_over_now t i r rounds refl now))
    ]
