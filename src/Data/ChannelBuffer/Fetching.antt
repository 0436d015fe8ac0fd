-- ===== src/Data/ChannelBuffer/Fetching.antt =====
-- `ChannelBuffer`: the methods on a buffer that holds the last values of a history.
use cyberrt_on_rpi.Base.{
  ℕ, zero, suc, ◌+◌, ◌-◌, ◌<◌, ◌≤◌, ◌≡◌, true, false, Option, none, some, List, ◌∷◌, ltb, ◌==◌, ◌⊎◌,
  ◌||◌, if◌then◌else◌, ◌⊎◌, ◌||◌, add64, sub64, min, length, get_or, drop, drop_of_length-le,
  drop-eq-cons, sym, arith, Bool-cases, ap, ◌∙◌, inl, inr,
}
use cyberrt_on_rpi.Data.CacheBuffer.{CacheBuffer, at, back, is_empty, first}
use cyberrt_on_rpi.Data.CacheBuffer.Holds.{Holds, at_lem, accessors}
use cyberrt_on_rpi.Data.ChannelBuffer.{fetch, latest, fetch_from, fetch_multi}

module _ {ℓ} {A : Type ℓ} (null : A) (b : CacheBuffer A) (h : List A) (holds : Holds null b h) where
  -- The number of the oldest value that the buffer has.
  abbrev pub oldest : ℕ
  oldest = length h - (b.capacity - 1) + 1

  tests_lem : (is_empty b ≡ (length h == 0)) × (add64 b.tail 1 ≡ length h + 1) × (first b ≡ oldest)
  tests_lem = (
    (accessors null b h holds).2,
    omega (arith, holds.tail_lem, holds.few),
    (accessors null b h holds).1,
  )

  at_tail : 0 < length h → 1 < b.capacity → at null b b.tail ≡ get_or h (length h - 1) null
  at_tail there roomy =
      simp holds.tail_lem (at_lem null b h holds (length h) (omega arith) (omega arith))

  -- On a buffer that has never been filled `Fetch` fails and leaves the index.
  pub fetch_empty : (index : ℕ) → length h ≡ 0 → fetch null b index ≡ (index, none)
  unfolding fetch
  fetch_empty index e = let no : (length h == 0) ≡ true = ground arith in rw (tests_lem.0, no)

  -- A reader that is new, or that waited until its next message was gone, gets the newest message.
  pub fetch_newest :
      (index : ℕ)
      → 0 < length h
      → 1 < b.capacity
      → (index ≡ 0) ⊎ (index < oldest)
      → fetch null b index ≡ (length h, some (get_or h (length h - 1) null))
  unfolding fetch
  fetch_newest index there roomy behind =
      let there' : (length h == 0) ≡ false = ground arith in
      let not_next : (index == length h + 1) ≡ false = ground arith in
      let newest : ◌≡◌ {A = ℕ × Option A} (b.tail, some (at null b b.tail))
          (length h, some (get_or h (length h - 1) null)) =
        cc (holds.tail_lem, at_tail there roomy) in
      elim (Bool-cases (index == 0)) [
        | inl new ↦ rw (tests_lem.0, there', new) newest
        | inr old ↦
            let gone : ltb index oldest ≡ true = ground arith in
            rw (tests_lem.0, there', old, tests_lem.1, not_next, tests_lem.2, gone) newest
      ]

  -- A reader that has the newest message gets nothing.
  pub fetch_nothing : (index : ℕ) → index ≡ length h + 1 → fetch null b index ≡ (index, none)
  unfolding fetch
  fetch_nothing index e = elim (Bool-cases (length h == 0)) [
    | inl never ↦ rw (tests_lem.0, never)
    | inr there ↦
        let old : (index == 0) ≡ false = ground arith in
        let next : (index == length h + 1) ≡ true = ground arith in
        rw (tests_lem.0, there, old, tests_lem.1, next)
  ]

  -- Any other reader gets the message that it asked for.
  pub fetch_next :
      (index : ℕ)
      → 0 < index
      → oldest ≤ index
      → index ≤ length h
      → fetch null b index ≡ (index, some (get_or h (index - 1) null))
  unfolding fetch
  fetch_next index lo in_window hi =
      let there : (length h == 0) ≡ false = ground arith in
      let old : (index == 0) ≡ false = ground arith in
      let not_next : (index == length h + 1) ≡ false = ground arith in
      let not_gone : ltb index oldest ≡ false = ground arith in
      rw (tests_lem.0, there, old, tests_lem.1, not_next, tests_lem.2, not_gone)
        (rw (at_lem null b h holds index (omega arith) hi))

  -- `Latest` gives the newest message, if there has been one.
  pub latest_lem :
      1 < b.capacity
      → latest null b ≡ (if length h == 0 then none else some (get_or h (length h - 1) null))
  unfolding latest back
  latest_lem roomy = elim (Bool-cases (length h == 0)) [
    | inl never ↦ rw (tests_lem.0, never)
    | inr there ↦ rw (tests_lem.0, there) (ap some (at_tail (ground arith) roomy))
  ]

  fetch_from_lem :
      (n index : ℕ)
      → length h - (b.capacity - 1) < index
      → index + n ≡ length h + 1
      → fetch_from null b index n ≡ drop (index - 1) h
  unfolding fetch_from
  fetch_from_lem zero index lo e = sym (drop_of_length-le (index - 1) h (omega arith))
  fetch_from_lem (suc n) index lo e =
      let next : add64 index 1 ≡ index + 1 = omega (arith, holds.few) in
      let same : suc (index - 1) ≡ index + 1 - 1 = omega arith in
      rw
        (
          next,
          at_lem null b h holds index lo (omega arith),
          fetch_from_lem n (index + 1) (omega arith) (omega arith),
        )
        (ap (λ k. get_or h (index - 1) null ∷ drop k h) (sym same)
          ∙ sym (drop-eq-cons (index - 1) h null (omega arith)))

  -- `FetchMulti` gives the last messages in the order in which they came: as many as were asked for, or
  -- as the buffer has. It fails only if there never was a message.
  pub fetch_multi_lem :
      (n : ℕ)
      → fetch_multi null b n ≡ (
          if length h == 0
          then none
          else some (drop (length h - min (min (length h) (b.capacity - 1)) n) h))
  unfolding fetch_multi
  fetch_multi_lem n = elim (Bool-cases (length h == 0)) [
    | inl never ↦ rw (tests_lem.0, never)
    | inr there ↦
        let num = min (min (length h) (b.capacity - 1)) n in
        let from : add64 (sub64 b.tail num) 1 ≡ length h - num + 1 =
          omega (arith, holds.tail_lem, holds.few) in
        let back_one : length h - num + 1 - 1 ≡ length h - num = omega arith in
        rw (
          tests_lem.0,
          there,
          (accessors null b h holds).0,
          from,
          fetch_from_lem num (length h - num + 1) (omega arith) (omega arith),
          back_one,
        )
  ]

  -- `Fetch` on a buffer that holds a history, for a reader whose index is 0 or leads to a message that has
  -- come or is the next to come. It fails, and leaves the index, if no message ever came or none is new. It
  -- gives the newest message, and moves the index to it, to a reader that is new or whose next message is
  -- gone. Otherwise it gives the message at the index.
  pub fetch_lem :
      (index : ℕ)
      → 1 < b.capacity
      → index ≤ length h + 1
      → fetch null b index ≡ (
          if length h == 0 || index == length h + 1
          then (index, none)
          else if index == 0 || ltb index oldest
          then (length h, some (get_or h (length h - 1) null))
          else (index, some (get_or h (index - 1) null)))
  fetch_lem index roomy hi = elim (Bool-cases (length h == 0 || index == length h + 1)) [
    | inl nothing ↦ rw nothing (elim (Bool-cases (length h == 0)) [
      | inl never ↦ fetch_empty index (ground arith)
      | inr there ↦ fetch_nothing index (ground arith)
    ])
    | inr more ↦ rw more (elim (Bool-cases (index == 0 || ltb index oldest)) [
      | inl behind ↦ rw behind (fetch_newest index (ground arith) roomy (ground arith))
      | inr next ↦ rw next (fetch_next index (ground arith) (ground arith) (ground arith))
    ])
  ]
