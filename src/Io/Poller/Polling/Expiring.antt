-- ===== src/Io/Poller/Polling/Expiring.antt =====
-- The first part of `Poll`: the requests whose time is over.
use cyberrt_on_rpi.Base.{
  ℕ, ◌+◌, ◌≤◌, ◌≡◌, ◌∙◌, ap, refl, sym, subst, inl, inr, Bool, true, false, Option, none, some,
  List, [], ◌∷◌, ◌==◌, if◌then◌else◌, arith, Bool-cases, ==_iff, count,
}
use mathlib.Core.Option.{some-injective}
use cyberrt_on_rpi.Io.Poller.{PollRequest, PollCtrlParam, find, has_param, count_down, expire}
use cyberrt_on_rpi.Io.Poller.Polling.{keys, events_to, timed_out}

not_found : (fd : ℕ) (l : List (ℕ × PollRequest)) → count fd (keys l) ≡ 0 → find fd l ≡ none
unfolding find count
not_found fd [] h = refl
not_found fd ((f, req) ∷ l) h = let rest = not_found fd l in ground arith

no_answer :
    (params : List PollCtrlParam) (i fd : ℕ) (l : List (ℕ × PollRequest))
    → count fd (keys l) ≡ 0
    → events_to fd (expire params i l).1 ≡ []
unfolding expire events_to count
no_answer params i fd [] h = refl
no_answer params i fd ((f, req) ∷ l) h =
    let rest = no_answer params i fd l (ground arith) in
    let other : (f == fd) ≡ false = ground arith in
    elim (Bool-cases (has_param f params)) [
      | inl p ↦ rw p rest
      | inr p ↦ elim (Bool-cases (count_down i req.timeout_ms).1) [
        | inl o ↦ rw (p, o, other) rest
        | inr o ↦ rw (p, o) rest
      ]
    ]

pub keys-expire :
    (params : List PollCtrlParam) (i : ℕ) (l : List (ℕ × PollRequest))
    → keys (expire params i l).0 ≡ keys l
unfolding expire
keys-expire params i [] = refl
keys-expire params i ((f, req) ∷ l) = elim (Bool-cases (has_param f params)) [
  | inl p ↦ rw p (ap (λ k. f ∷ k) (keys-expire params i l))
  | inr p ↦ rw p (ap (λ k. f ∷ k) (keys-expire params i l))
]

pub if_same :
    (b : Bool) (r : PollRequest) (o : Option PollRequest)
    → b ≡ true
    → (if b then some r else o) ≡ some r
if_same b r o h = rw h refl

pub if_other :
    (b : Bool) (r : PollRequest) (o : Option PollRequest)
    → b ≡ false
    → (if b then some r else o) ≡ o
if_other b r o h = rw h refl

first_only : (f fd n : ℕ) → (f == fd) ≡ true → (if fd == f then 1 else 0) + n ≤ 1 → n ≡ 0
first_only f fd n h l = ground arith

not_first : (f fd n : ℕ) → (if fd == f then 1 else 0) + n ≤ 1 → n ≤ 1
not_first f fd n l = ground arith

over_answer :
    (over : Bool) (f fd : ℕ) (l : List (ℕ × ℕ))
    → (f == fd) ≡ true
    → events_to fd l ≡ []
    → events_to fd (if over then (f, 0) ∷ l else l) ≡ timed_out over
unfolding events_to
over_answer true f fd l same h = rw (same, h) refl
over_answer false f fd l same h = h

pub expire_lem :
    (params : List PollCtrlParam) (i fd : ℕ) (req : PollRequest) (l : List (ℕ × PollRequest))
    → has_param fd params ≡ false
    → count fd (keys l) ≤ 1
    → find fd l ≡ some req
    → let (timeout_ms, over) = count_down i req.timeout_ms in
      (find fd (expire params i l).0 ≡ some (record req { timeout_ms = timeout_ms }))
      × (events_to fd (expire params i l).1 ≡ timed_out over)
unfolding expire find events_to count
expire_lem params i fd req [] free once found = absurd (cc found)
expire_lem params i fd req ((f, r) ∷ l) free once found = elim (Bool-cases (f == fd)) [
  | inl same ↦
      let e = (==_iff f fd).0 same in
      let free' = subst (λ x. has_param x params ≡ false) (sym e) free in
      let q = some-injective r req (sym (if_same (f == fd) r (find fd l) same) ∙ found) in
      let none_left = no_answer params i fd l (first_only f fd (count fd (keys l)) same once) in
      let after_r = expire params i ((f, r) ∷ l) in
      subst
        (λ x.
          (find fd after_r.0 ≡ some (record x { timeout_ms = (count_down i x.timeout_ms).0 }))
          × (events_to fd after_r.1 ≡ timed_out (count_down i x.timeout_ms).1))
        q
        (rw (free', same)
          (
            refl,
            over_answer (count_down i r.timeout_ms).1 f fd (expire params i l).1 same none_left,
          ))
  | inr other ↦
      let rest =
        expire_lem params i fd req l free (not_first f fd (count fd (keys l)) once)
          (sym (if_other (f == fd) r (find fd l) other) ∙ found) in
      elim (Bool-cases (has_param f params)) [
        | inl p ↦ rw (p, other) rest
        | inr p ↦ elim (Bool-cases (count_down i r.timeout_ms).1) [
          | inl o ↦ rw (p, o, other) rest
          | inr o ↦ rw (p, o, other) rest
        ]
      ]
]
