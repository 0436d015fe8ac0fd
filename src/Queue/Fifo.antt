-- ===== src/Queue/Fifo.antt =====
-- One after the other, the operations of a bounded queue are those of a list with a bound.
use cyberrt_on_rpi.Base.{
  ℕ, suc, ◌+◌, ◌%◌, ◌^◌, ◌≤◌, ◌<◌, ◌≡◌, refl, true, false, inl, inr, none, some, List, [], ◌∷◌,
  ◌++◌, ◌==◌, length, get_or, set, arith, ◌∙◌, sym, ap, length-append, length-set, length-replicate,
  get_or-set_self, get_or-set_ne, Bool-cases, get_or-append_left, get_or-append_last, ==_refl,
  add64,
}
use native.Mathlib.Nat.{mod-lt, add-mod_right, mod-eq-sub-div-mul}
use cyberrt_on_rpi.Base.Remainders.{mod-ne}
use cyberrt_on_rpi.Queue.{BoundedQueue, init, get_index, enqueue, dequeue}

module _ {ℓ} {T : Type ℓ} (null : T) where
  get_index_lem : (q : BoundedQueue T) (num : ℕ) → get_index null q num ≡ num % q.pool_size
  unfolding get_index
  get_index_lem q num = sym (mod-eq-sub-div-mul num q.pool_size)

  -- `xs` lists the elements, the oldest first: they stand behind the head, which has a place of its own.
  -- (Fewer than 2^64 elements are ever queued.)
  pub record Queues (q : BoundedQueue T) (xs : List T) : Type ℓ where
    pub some_room : 2 ≤ q.pool_size
    pub length_pool : length q.pool ≡ q.pool_size
    pub tail_lem : q.tail ≡ q.head + 1 + length xs
    pub commit_lem : q.commit ≡ q.tail
    pub bound : length xs + 2 ≤ q.pool_size
    pub content :
        (i : ℕ)
        → i < length xs
        → get_or q.pool ((q.head + 1 + i) % q.pool_size) null ≡ get_or xs i null

  pub init-Queues : (n : ℕ) → n < 2 ^ 63 → Queues (init null n) []
  unfolding init
  init-Queues n small = record {
    some_room = omega arith;
    length_pool = length-replicate (add64 n 2) null;
    tail_lem = refl;
    commit_lem = refl;
    bound = omega arith;
    content = λ i lt. absurd (omega arith);
  }

  module _ (q : BoundedQueue T) (xs : List T) (h : Queues q xs) (x : T)
      (few : q.tail + 1 < 2 ^ 64) where
    -- The test for a free place.
    full_lem :
        (get_index null q (add64 q.tail 1) == get_index null q q.head)
        ≡ (length xs + 2 == q.pool_size)
    full_lem = elim (Bool-cases (length xs + 2 == q.pool_size)) [
      | inl full ↦
          let e : length xs + 2 ≡ q.pool_size = ground arith in
          let ahead : add64 q.tail 1 ≡ q.head + q.pool_size = omega (arith, h.tail_lem, few, e) in
          let same : (q.head + q.pool_size) % q.pool_size ≡ q.head % q.pool_size =
            add-mod_right q.head q.pool_size in
          rw (full, get_index_lem, get_index_lem, ahead, same) (==_refl _)
      | inr room ↦
          let less : length xs + 2 < q.pool_size = ground (arith, h.bound) in
          let ahead : add64 q.tail 1 ≡ q.tail + 1 = omega (arith, few) in
          let apart =
            mod-ne q.head (q.tail + 1) q.pool_size (omega (arith, h.tail_lem))
              (omega (arith, h.tail_lem, less)) in
          rw (room, get_index_lem, get_index_lem, ahead) (ground (arith, apart))
    ]

    content_new :
        length xs + 2 < q.pool_size
        → (i : ℕ) → i < length xs + 1
        → get_or (set q.pool (q.tail % q.pool_size) x) ((q.head + 1 + i) % q.pool_size) null
          ≡ get_or (xs ++ (x ∷ [])) i null
    content_new room i lt = elim (Bool-cases (i == length xs)) [
      | inl new ↦
          let e : i ≡ length xs = ground arith in
          let place : q.head + 1 + length xs ≡ q.tail = omega (arith, h.tail_lem) in
          rw (e, place, get_or-append_last)
            (get_or-set_self q.pool (q.tail % q.pool_size) x null (
              omega (
                arith,
                h.some_room,
                h.length_pool,
                mod-lt q.tail {m = q.pool_size} (omega (arith, h.some_room)),
              )))
      | inr old ↦
          let lt' : i < length xs = ground arith in
          get_or-set_ne q.pool (q.tail % q.pool_size) ((q.head + 1 + i) % q.pool_size) x null (λ e.
            mod-ne (q.head + 1 + i) q.tail q.pool_size (omega (arith, h.tail_lem, lt'))
              (omega (arith, h.tail_lem, room)) (sym e))
          ∙ h.content i lt'
          ∙ sym (get_or-append_left xs (x ∷ []) i null lt')
    ]

    pub enqueue_full : (length xs + 2 == q.pool_size) ≡ true → enqueue null x q ≡ (q, false)
    unfolding enqueue
    enqueue_full full = rw (full_lem, full) refl

    pub enqueue_room :
        (length xs + 2 == q.pool_size) ≡ false
        → enqueue null x q ≡ (
          record q {
            tail = q.tail + 1;
            pool = set q.pool (q.tail % q.pool_size) x;
            commit = q.tail + 1;
          },
          true,
        )
    unfolding enqueue
    enqueue_room room =
        let ahead : add64 q.tail 1 ≡ q.tail + 1 = omega (arith, few) in
        rw (full_lem, room, get_index_lem, ahead) refl

    pub put-Queues :
        (length xs + 2 == q.pool_size) ≡ false
        → Queues
            (record q {
              tail = q.tail + 1;
              pool = set q.pool (q.tail % q.pool_size) x;
              commit = q.tail + 1;
            })
            (xs ++ (x ∷ []))
    put-Queues room =
        let less : length xs + 2 < q.pool_size = ground (arith, h.bound) in
        let len = length-append xs (x ∷ []) in
        record {
          some_room = h.some_room;
          length_pool = length-set q.pool (q.tail % q.pool_size) x ∙ h.length_pool;
          tail_lem = omega (arith, h.tail_lem, len);
          commit_lem = refl;
          bound = omega (arith, less, len);
          content = λ i lt. content_new less i (omega (arith, lt, len));
        }

  module _ (q : BoundedQueue T) (few : q.tail < 2 ^ 64) where
    pub dequeue_empty : Queues q [] → dequeue null q ≡ (q, none)
    unfolding dequeue
    dequeue_empty h =
        let e : (add64 q.head 1 == q.commit) ≡ true = ground (arith, h.tail_lem, h.commit_lem) in
        rw e refl

    pub dequeue_first :
        (x : T) (xs : List T)
        → Queues q (x ∷ xs)
        → dequeue null q ≡ (record q { head = q.head + 1 }, some x)
    unfolding dequeue
    dequeue_first x xs h =
        let e : (add64 q.head 1 == q.commit) ≡ false = ground (arith, h.tail_lem, h.commit_lem) in
        let ahead : add64 q.head 1 ≡ q.head + 1 = omega (arith, h.tail_lem, few) in
        let place : q.head + 1 + 0 ≡ q.head + 1 = omega arith in
        let there : get_or q.pool ((q.head + 1) % q.pool_size) null ≡ x =
          ap (λ n. get_or q.pool (n % q.pool_size) null) (sym place) ∙ h.content 0 (omega arith) in
        rw (e, get_index_lem, ahead, there) refl

    pub rest-Queues :
        (x : T) (xs : List T) → Queues q (x ∷ xs) → Queues (record q { head = q.head + 1 }) xs
    rest-Queues x xs h = record {
      some_room = h.some_room;
      length_pool = h.length_pool;
      tail_lem = omega (arith, h.tail_lem);
      commit_lem = h.commit_lem;
      bound = omega (arith, h.bound);
      content = λ i lt.
          let place : q.head + 1 + 1 + i ≡ q.head + 1 + suc i = omega arith in
          ap (λ n. get_or q.pool (n % q.pool_size) null) place
          ∙ h.content (suc i) (omega (arith, lt));
    }
