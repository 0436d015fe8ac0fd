-- ===== src/Transport/ConditionNotifier/Ring.antt =====
-- What a listener gets from the ring, near the writers and too far behind them.
use cyberrt_on_rpi.Base.{
  ℕ, ◌+◌, ◌-◌, ◌%◌, ◌^◌, ◌≤◌, ◌<◌, ◌≡◌, refl, true, false, inl, inr, none, some, List, [], ◌∷◌,
  ◌++◌, ◌==◌, ltb, ◌||◌, length, get_or, arith, if◌then◌else◌, Bool-cases, length-append,
  get_or-append_left, get_or-append_last, ◌∙◌, sym, add64, append_assoc, append-nil,
}
use cyberrt_on_rpi.Transport.ReadableInfo.{ReadableInfo, init}
use cyberrt_on_rpi.Transport.ConditionNotifier.{
  Indicator, init_indicator, notify_open, notify_all, look,
}

-- `h` lists all notifications, the oldest first; the ring holds the last 4096 of them, each with its
-- number.
pub record Rings (s : Indicator) (h : List ReadableInfo) : Type 0 where
  pub next_lem : s.next_seq ≡ length h
  pub info_lem : (i : ℕ) → i < length h → length h ≤ i + 4096 → s.infos (i % 4096) ≡ get_or h i init
  pub seq_lem : (i : ℕ) → i < length h → length h ≤ i + 4096 → s.seqs (i % 4096) ≡ i

pub init-Rings : Rings init_indicator []
unfolding init_indicator
init-Rings = record {
  next_lem = refl;
  info_lem = λ i lt _. absurd (omega arith);
  seq_lem = λ i lt _. absurd (omega arith);
}

module _ (s : Indicator) (h : List ReadableInfo) (info : ReadableInfo) (rings : Rings s h)
    (few : length h + 1 < 2 ^ 64) where
  length_more : length (h ++ (info ∷ [])) ≡ length h + 1
  length_more = length-append h (info ∷ [])

  info_new :
      (i : ℕ)
      → i < length h + 1
      → length h + 1 ≤ i + 4096
      → (notify_open info s).infos (i % 4096) ≡ get_or (h ++ (info ∷ [])) i init
  unfolding notify_open
  info_new i lt near = elim (Bool-cases (i == length h)) [
    | inl new ↦
        let e : i ≡ length h = ground arith in
        let here : (i % 4096 == s.next_seq % 4096) ≡ true = ground (arith, rings.next_lem) in
        rw (here, e) (sym (get_or-append_last h info init))
    | inr old ↦
        let lt' : i < length h = ground arith in
        let other : (i % 4096 == s.next_seq % 4096) ≡ false = ground (arith, rings.next_lem) in
        rw other
          (rings.info_lem i lt' (omega arith) ∙ sym (get_or-append_left h (info ∷ []) i init lt'))
  ]

  seq_new :
      (i : ℕ)
      → i < length h + 1
      → length h + 1 ≤ i + 4096
      → (notify_open info s).seqs (i % 4096) ≡ i
  unfolding notify_open
  seq_new i lt near = ground (arith, rings.next_lem, rings.seq_lem i)

  next_new : (notify_open info s).next_seq ≡ length (h ++ (info ∷ []))
  unfolding notify_open
  next_new = omega (arith, rings.next_lem, length_more)

  pub notify-Rings : Rings (notify_open info s) (h ++ (info ∷ []))
  notify-Rings = record {
    next_lem = next_new;
    info_lem =
        λ i lt near. info_new i (omega (arith, lt, length_more)) (omega (arith, near, length_more));
    seq_lem =
        λ i lt near. seq_new i (omega (arith, lt, length_more)) (omega (arith, near, length_more));
  }

pub notify_all-Rings :
    (infos : List ReadableInfo) (s : Indicator) (h : List ReadableInfo)
    → Rings s h
    → length h + length infos < 2 ^ 64
    → Rings (notify_all infos s) (h ++ infos)
unfolding notify_all
notify_all-Rings [] s h rings few = rw (append-nil h) rings
notify_all-Rings (info ∷ infos) s h rings few =
    let now = notify-Rings s h info rings (omega (arith, few)) in
    let all =
      notify_all-Rings infos (notify_open info s) (h ++ (info ∷ [])) now
        (omega (arith, few, length-append h (info ∷ []))) in
    rw⁻¹ (append_assoc h (info ∷ []) infos) all

-- The last number that stands in the same place.
last_there : ℕ → ℕ → ℕ
last_there len next_seq = len - 1 - (len - 1 - next_seq) % 4096

-- A round of `Listen`, for a listener that has had the first `next_seq` notifications: nothing is there
-- yet, or it gets the next one, or its place was written over and it gets nothing.
pub look_lem :
    (s : Indicator) (h : List ReadableInfo) (next_seq : ℕ)
    → Rings s h
    → length h < 2 ^ 64
    → next_seq ≤ length h
    → look s next_seq ≡ (
        if next_seq == length h || ltb (next_seq + 4096) (length h)
        then none
        else some (get_or h next_seq init, next_seq + 1))
unfolding look last_there
look_lem s h next_seq rings few le = elim (Bool-cases (next_seq == length h)) [
  | inl none_new ↦
      let e : (s.next_seq == next_seq) ≡ true = ground (arith, rings.next_lem) in
      rw (none_new, e) refl
  | inr new ↦
      let e : (s.next_seq == next_seq) ≡ false = ground (arith, rings.next_lem) in
      elim (Bool-cases (ltb (next_seq + 4096) (length h))) [
        | inl lapped ↦
            let i = last_there (length h) next_seq in
            let same : i % 4096 ≡ next_seq % 4096 = ground arith in
            let seq : s.seqs (i % 4096) ≡ i = rings.seq_lem i (ground arith) (ground arith) in
            let other : (s.seqs (next_seq % 4096) == next_seq) ≡ false = ground arith in
            rw (new, e, lapped, other) refl
        | inr near ↦
            let lt : next_seq < length h = ground arith in
            let close : length h ≤ next_seq + 4096 = ground arith in
            let more : add64 next_seq 1 ≡ next_seq + 1 = omega (arith, lt, few) in
            let seq : (s.seqs (next_seq % 4096) == next_seq) ≡ true =
              ground (arith, rings.seq_lem next_seq lt close) in
            rw (new, e, near, seq, rings.info_lem next_seq lt close, more) refl
      ]
]
