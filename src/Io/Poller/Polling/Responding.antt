-- ===== src/Io/Poller/Polling/Responding.antt =====
-- The second part of `Poll`: the responses to what is ready or timed out.
use cyberrt_on_rpi.Base.{
  ℕ, ◌≡◌, ◌∙◌, ap, refl, sym, subst, inl, inr, false, Option, none, some, List, [], ◌∷◌, ◌++◌, ◌==◌,
  if◌then◌else◌, arith, Bool-cases, Option-cases, ==_iff, ==_refl, append-nil, append_assoc,
}
use cyberrt_on_rpi.Base.Int.{negsuc}
use cyberrt_on_rpi.Io.Poller.{
  PollRequest, Poller, find, assign, erase_response, add_ready, respond_found, respond, respond_all,
}
use cyberrt_on_rpi.Io.Poller.Watching.{find-assign}
use cyberrt_on_rpi.Io.Poller.Polling.{
  keys, events_to, later, ready_events, answer, reset_if, Responded,
}

keys-assign :
    (fd : ℕ) (req : PollRequest) (l : List (ℕ × PollRequest)) → keys (assign fd req l) ≡ keys l
unfolding assign
keys-assign fd req [] = refl
keys-assign fd req ((f, old) ∷ l) = ap (λ k. f ∷ k) (keys-assign fd req l)

events_to-erase_response :
    (g fd : ℕ) (l : List (ℕ × ℕ))
    → events_to g (erase_response fd l) ≡ (if fd == g then [] else events_to g l)
unfolding events_to erase_response
events_to-erase_response g fd [] = ground arith
events_to-erase_response g fd ((f, e) ∷ l) =
    let rest = events_to-erase_response g fd l in ground arith

answer-later :
    (o : Option ℕ) (f e fd : ℕ) (l : List (ℕ × ℕ))
    → answer o (events_to fd ((f, e) ∷ erase_response f l))
      ≡ answer (later o (if f == fd then some e else none)) (events_to fd l)
unfolding events_to
answer-later (some e') f e fd l = refl
answer-later none f e fd l =
    rw (events_to-erase_response fd f l)
      (elim (Bool-cases (f == fd)) [ inl same ↦ rw same refl | inr other ↦ rw other refl ])

pub events_to-add_ready :
    (fd : ℕ) (ready responses : List (ℕ × ℕ))
    → events_to fd (add_ready ready responses)
      ≡ answer (ready_events fd ready) (events_to fd responses)
unfolding add_ready ready_events
events_to-add_ready fd [] responses = refl
events_to-add_ready fd ((f, e) ∷ ready) responses =
    events_to-add_ready fd ready ((f, e) ∷ erase_response f responses)
    ∙ answer-later (ready_events fd ready) f e fd responses

events_to-append :
    (fd : ℕ) (l m : List (ℕ × ℕ)) → events_to fd (l ++ m) ≡ events_to fd l ++ events_to fd m
unfolding events_to
events_to-append fd [] m = refl
events_to-append fd ((f, e) ∷ l) m = let rest = events_to-append fd l m in ground arith

respond_self :
    (e fd : ℕ) (req : PollRequest) (s : Poller)
    → find fd s.requests ≡ some req
    → Responded fd (e ∷ []) req s (respond fd e s)
unfolding respond respond_found events_to
respond_self e fd req s found =
    let req' = record req { timeout_ms = negsuc 0 } in
    rw found (
      events_to-append fd s.calls ((fd, e) ∷ []) ∙ rw (==_refl fd) refl,
      find-assign fd fd req' s.requests ∙ rw (==_refl fd, found) refl,
      keys-assign fd req' s.requests,
      refl,
    )

respond_other :
    (f e fd : ℕ) (req : PollRequest) (s : Poller)
    → (f == fd) ≡ false
    → find fd s.requests ≡ some req
    → Responded fd [] req s (respond f e s)
unfolding respond respond_found events_to
respond_other f e fd req s other found =
    let other' : (fd == f) ≡ false = ground arith in
    elim (Option-cases (find f s.requests)) [
      | inl h ↦ rw h (sym (append-nil _), found, refl, refl)
      | inr (r, h) ↦
          let r' = record r { timeout_ms = negsuc 0 } in
          rw h (
            events_to-append fd s.calls ((f, e) ∷ []) ∙ rw other refl,
            find-assign fd f r' s.requests ∙ rw other' found,
            keys-assign f r' s.requests,
            refl,
          )
    ]

respond_one :
    (f e fd : ℕ) (req : PollRequest) (s : Poller)
    → find fd s.requests ≡ some req
    → Responded fd (events_to fd ((f, e) ∷ [])) req s (respond f e s)
unfolding events_to
respond_one f e fd req s found = elim (Bool-cases (f == fd)) [
  | inl same ↦ rw same (
      subst (λ x. Responded fd (e ∷ []) req s (respond x e s)) (sym ((==_iff f fd).0 same))
        (respond_self e fd req s found))
  | inr other ↦ rw other (respond_other f e fd req s other found)
]

reset_twice :
    (l m : List ℕ) (req : PollRequest) → reset_if m (reset_if l req) ≡ reset_if (l ++ m) req
reset_twice [] m req = refl
reset_twice (e ∷ l) [] req = refl
reset_twice (e ∷ l) (e' ∷ m) req = refl

pub respond_all_lem :
    (responses : List (ℕ × ℕ)) (fd : ℕ) (req : PollRequest) (s : Poller)
    → find fd s.requests ≡ some req
    → Responded fd (events_to fd responses) req s (respond_all responses s)
unfolding respond_all events_to
respond_all_lem [] fd req s found = (sym (append-nil _), found, refl, refl)
respond_all_lem ((f, e) ∷ responses) fd req s found =
    let first = events_to fd ((f, e) ∷ []) in
    let (called, left, same, same') = respond_one f e fd req s found in
    let (called', left', kept, kept') =
      respond_all_lem responses fd (reset_if first req) (respond f e s) left in
    let all = sym (events_to-append fd ((f, e) ∷ []) responses) in
    (
      called'
          ∙ ap (λ l. l ++ events_to fd responses) called
          ∙ append_assoc (events_to fd s.calls) first (events_to fd responses)
          ∙ ap (λ l. events_to fd s.calls ++ l) all,
      left'
          ∙ ap some (reset_twice first (events_to fd responses) req ∙ ap (λ l. reset_if l req) all),
      kept ∙ same,
      kept' ∙ same',
    )
