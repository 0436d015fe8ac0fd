-- ===== src/Data/Visitor/Reading.antt =====
-- `DataVisitor::TryFetch`, among any messages of the writers: what a reader gets, and in which order.
use cyberrt_on_rpi.Base.{
  ℕ, ◌+◌, ◌-◌, ◌^◌, ◌<◌, ◌≤◌, ◌≡◌, refl, none, some, List, [], ◌∷◌, ◌++◌, ltb, ◌==◌, ◌||◌, ◌⊎◌, sym,
  add64, sub64, length, get_or, arith, Bool-cases, inl, inr, length-append, append_assoc,
  get_or-append_left,
}
use cyberrt_on_rpi.Data.CacheBuffer.{store}
use cyberrt_on_rpi.Data.CacheBuffer.Holds.{Holds, store-Holds, capacity-store}
use cyberrt_on_rpi.Data.ChannelBuffer.Fetching.{
  fetch_empty, fetch_newest, fetch_next, fetch_nothing, oldest,
}
use cyberrt_on_rpi.Data.Visitor.{Visitor, Event, post, take_next, try_fetch, run}

module _ {ℓ} {A : Type ℓ} where
  -- The messages of the writers among the events, in order.
  unfoldable pub posted : List (Event A) → List A
  posted [] = []
  posted (post m ∷ es) = m ∷ posted es
  posted (take_next ∷ es) = posted es

  -- Deliveries with ascending numbers, from a number on, each the message of that number.
  abbrev pub InOrder : A → List A → ℕ → List (ℕ × A) → Type ℓ
  InOrder null all from [] = Unit
  InOrder null all from ((i, m) ∷ rest) =
      (from ≤ i)
      × (0 < i)
      × (i ≤ length all)
      × (m ≡ get_or all (i - 1) null)
      × InOrder null all (i + 1) rest

  module _ (null : A) (h : List A) (v : Visitor A) (holds : Holds null v.buffer h) where
    pub try_nothing :
        (length h ≡ 0) ⊎ (v.next_msg_index ≡ length h + 1) → try_fetch null v ≡ (v, none)
    unfolding try_fetch
    try_nothing (inl never) = rw (fetch_empty null v.buffer h holds v.next_msg_index never)
    try_nothing (inr next) = rw (fetch_nothing null v.buffer h holds v.next_msg_index next)

    pub try_newest :
        0 < length h
        → 1 < v.buffer.capacity
        → (v.next_msg_index ≡ 0) ⊎ (v.next_msg_index < oldest null v.buffer h holds)
        → try_fetch null v
          ≡ (record v { next_msg_index = length h + 1 }, some (get_or h (length h - 1) null))
    unfolding try_fetch
    try_newest there roomy behind =
        let next : add64 (length h) 1 ≡ length h + 1 = omega (arith, holds.few) in
        rw (fetch_newest null v.buffer h holds v.next_msg_index there roomy behind, next)

    pub try_next :
        0 < v.next_msg_index
        → oldest null v.buffer h holds ≤ v.next_msg_index
        → v.next_msg_index ≤ length h
        → try_fetch null v ≡ (
          record v { next_msg_index = v.next_msg_index + 1 },
          some (get_or h (v.next_msg_index - 1) null),
        )
    unfolding try_fetch
    try_next lo in_window hi =
        let next : add64 v.next_msg_index 1 ≡ v.next_msg_index + 1 = omega (arith, holds.few) in
        rw (fetch_next null v.buffer h holds v.next_msg_index lo in_window hi, next)

  pub run_got :
      (null : A) (es : List (Event A)) (v : Visitor A) (i : ℕ) (m : A)
      → i + 1 < 2 ^ 64
      → try_fetch null v ≡ (record v { next_msg_index = i + 1 }, some m)
      → run null (take_next ∷ es) v ≡ (i, m) ∷ run null es (record v { next_msg_index = i + 1 })
  unfolding run
  run_got null es v i m small e =
      let number : sub64 (i + 1) 1 ≡ i = omega arith in rw (e, run) (rw number)

  pub run-none :
      (null : A) (es : List (Event A)) (v : Visitor A)
      → try_fetch null v ≡ (v, none)
      → run null (take_next ∷ es) v ≡ run null es v
  unfolding run
  run-none null es v e = rw (e, run)

  pub run_post :
      (null : A) (es : List (Event A)) (v : Visitor A) (m : A)
      → run null (post m ∷ es) v ≡ run null es (record v { buffer = store v.buffer m })
  unfolding run
  run_post null es v m = refl

  pub run_nil : (null : A) (v : Visitor A) → run null [] v ≡ []
  unfolding run
  run_nil null v = refl

  module _ (null : A) where
    -- Deliveries in order, one first.
    deliver :
        (all : List A) (i j : ℕ) (m : A) (rest : List (ℕ × A))
        → i ≤ j
        → 0 < j
        → j ≤ length all
        → m ≡ get_or all (j - 1) null
        → InOrder null all (j + 1) rest
        → InOrder null all i ((j, m) ∷ rest)
    deliver all i j m rest a b c d e = (a, b, c, d, e)

    -- A reader on one channel gets its messages in the order in which they were written, none twice and
    -- each the one that was written under its number, for every sequence of writes and calls of
    -- `TryFetch`. `h` lists the messages that came before; fewer than 2^63 messages are ever written, the
    -- queue size is not 0, and the reader has not run ahead of the writers.
    pub in_order :
        (es : List (Event A)) (h : List A) (v : Visitor A)
        → Holds null v.buffer h
        → 1 < v.buffer.capacity
        → v.next_msg_index ≤ length h + 1
        → length h + length es < 2 ^ 63
        → InOrder null (h ++ posted es) v.next_msg_index (run null es v)
    unfolding posted
    in_order [] h v holds roomy reach few = rw run_nil tt
    in_order (post m ∷ es) h v holds roomy reach few =
        rw (← append_assoc h (m ∷ []) (posted es), run_post)
          (in_order es (h ++ (m ∷ [])) (record v { buffer = store v.buffer m })
            (store-Holds null v.buffer h m holds (omega arith)) (rw capacity-store roomy)
            (omega (arith, length-append h (m ∷ []))) (omega (arith, length-append h (m ∷ []))))
    in_order (take_next ∷ es) h v holds roomy reach few =
        elim (Bool-cases (length h == 0 || v.next_msg_index == length h + 1)) [
          | inl nothing ↦
              rw (run-none null es v (try_nothing null h v holds (ground arith)))
                (in_order es h v holds roomy reach (omega arith))
          | inr more ↦
              elim (Bool-cases
                (v.next_msg_index == 0 || ltb v.next_msg_index (oldest null v.buffer h holds))) [
                  | inl behind ↦
                      rw
                        (run_got null es v (length h) _ (omega arith)
                          (try_newest null h v holds (ground arith) roomy (ground arith)))
                        (deliver (h ++ posted es) v.next_msg_index (length h) _ _ (ground arith)
                          (ground arith) (omega (arith, length-append h (posted es)))
                          (sym
                            (get_or-append_left h (posted es) (length h - 1) null (ground arith)))
                          (in_order es h (record v { next_msg_index = length h + 1 }) holds roomy
                            (omega arith) (omega arith)))
                  | inr next ↦
                      let come : v.next_msg_index ≤ length h = ground arith in
                      rw
                        (run_got null es v v.next_msg_index _ (omega arith)
                          (try_next null h v holds (ground arith) (ground arith) (ground arith)))
                        (deliver (h ++ posted es) v.next_msg_index v.next_msg_index _ _
                          (omega arith) (ground arith) (omega (arith, length-append h (posted es)))
                          (sym (
                            get_or-append_left h (posted es) (v.next_msg_index - 1) null
                              (ground arith)))
                          (in_order es h (record v { next_msg_index = v.next_msg_index + 1 }) holds
                            roomy (omega arith) (omega arith)))
                ]
        ]
