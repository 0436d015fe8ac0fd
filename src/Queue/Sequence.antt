-- ===== src/Queue/Sequence.antt =====
-- A bounded queue answers every sequence of calls as a list with a bound does.
use cyberrt_on_rpi.Base.{
  ℕ, ◌+◌, ◌-◌, ◌^◌, ◌<◌, ◌≡◌, refl, Bool, true, false, inl, inr, Option, none, some, List, [], ◌∷◌,
  set, ◌%◌, ◌++◌, ◌==◌, if◌then◌else◌, length, arith, ap, Bool-cases,
}
use cyberrt_on_rpi.Queue.{BoundedQueue, enqueue, dequeue}
use cyberrt_on_rpi.Queue.Fifo.{
  Queues, enqueue_full, enqueue_room, put-Queues, dequeue_empty, dequeue_first, rest-Queues,
}

pub data Call {ℓ} (T : Type ℓ) : Type ℓ where
  push : T → Call T
  pop : Call T

pub data Answer {ℓ} (T : Type ℓ) : Type ℓ where
  pushed : Bool → Answer T
  popped : Option T → Answer T

module _ {ℓ} {T : Type ℓ} (null : T) where
  unfoldable pub call : Call T → BoundedQueue T → BoundedQueue T × Answer T
  call (push x) q = let (q', ok) = enqueue null x q in (q', pushed ok)
  call pop q = let (q', o) = dequeue null q in (q', popped o)

  unfoldable pub answers : List (Call T) → BoundedQueue T → List (Answer T)
  answers [] q = []
  answers (c ∷ cs) q = let (q', a) = call c q in a ∷ answers cs q'

module _ {ℓ} {T : Type ℓ} where
  -- The same with a list that holds at most `capacity` elements.
  unfoldable pub first_of : List T → Option T
  first_of [] = none
  first_of (x ∷ xs) = some x

  unfoldable pub behind : List T → List T
  behind [] = []
  behind (x ∷ xs) = xs

  unfoldable pub list_answers : ℕ → List (Call T) → List T → List (Answer T)
  unfolding first_of behind
  list_answers capacity [] xs = []
  list_answers capacity (push x ∷ cs) xs =
      let refused = list_answers capacity cs xs in
      let kept = list_answers capacity cs (xs ++ (x ∷ [])) in
      if length xs == capacity then pushed false ∷ refused else pushed true ∷ kept
  list_answers capacity (pop ∷ cs) xs = popped (first_of xs) ∷ list_answers capacity cs (behind xs)

module _ {ℓ} {T : Type ℓ} (null : T) where
  -- Calls that come one after the other are answered in the order of a queue: `Enqueue` gives false
  -- exactly when as many elements are there as the queue was made for, and `Dequeue` gives the oldest
  -- element (fewer than 2^64 elements are ever queued).
  pub answers_lem :
      (cs : List (Call T)) (q : BoundedQueue T) (xs : List T)
      → Queues null q xs
      → q.tail + length cs < 2 ^ 64
      → answers null cs q ≡ list_answers (q.pool_size - 2) cs xs
  unfolding answers list_answers call
  answers_lem [] q xs h few = refl
  answers_lem (push x ∷ cs) q xs h few =
      let few' : q.tail + 1 < 2 ^ 64 = omega (arith, few) in
      elim (Bool-cases (length xs + 2 == q.pool_size)) [
        | inl full ↦
            let same : (length xs == q.pool_size - 2) ≡ true = ground arith in
            rw (enqueue_full null q xs h x few' full, same)
              (ap (◌∷◌ (pushed false)) (answers_lem cs q xs h (omega (arith, few))))
        | inr room ↦
            let other : (length xs == q.pool_size - 2) ≡ false = ground (arith, h.bound) in
            let q' = record q {
              tail = q.tail + 1;
              pool = set q.pool (q.tail % q.pool_size) x;
              commit = q.tail + 1;
            } in
            rw (enqueue_room null q xs h x few' room, other)
              (ap (◌∷◌ (pushed true)) (
                answers_lem cs q' (xs ++ (x ∷ [])) (put-Queues null q xs h x few' room)
                  (omega (arith, few))))
      ]
  answers_lem (pop ∷ cs) q [] h few =
      rw (dequeue_empty null q (omega (arith, few)) h)
        (ap (◌∷◌ (popped none)) (answers_lem cs q [] h (omega (arith, few))))
  answers_lem (pop ∷ cs) q (x ∷ xs) h few = rw (dequeue_first null q (omega (arith, few)) x xs h) (
      ap (◌∷◌ (popped (some x))) (
        answers_lem cs (record q { head = q.head + 1 }) xs
          (rest-Queues null q (omega (arith, few)) x xs h) (omega (arith, few))))
