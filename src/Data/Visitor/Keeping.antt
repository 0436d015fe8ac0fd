-- ===== src/Data/Visitor/Keeping.antt =====
-- `DataVisitor::TryFetch`: a reader that keeps up loses nothing.
use cyberrt_on_rpi.Base.{
  ℕ, suc, ◌+◌, ◌-◌, ◌^◌, ◌<◌, ◌≤◌, ◌≡◌, some, List, [], ◌∷◌, ◌++◌, inr, map, length, get_or, drop,
  arith, ap, ◌∙◌, sym, length-append, length-drop, drop-append, drop-eq-cons,
}
use cyberrt_on_rpi.Data.CacheBuffer.{store}
use cyberrt_on_rpi.Data.CacheBuffer.Holds.{Holds, store-Holds, capacity-store}
use cyberrt_on_rpi.Data.Visitor.{Visitor, Event, post, take_next, try_fetch, run}
use cyberrt_on_rpi.Data.Visitor.Reading.{
  try_nothing, try_next, run_got, run-none, run_post, run_nil,
}

-- A reader that keeps up, as a queue without a bound: `q` lists the messages that it has not got yet.
module _ {ℓ} {A : Type ℓ} where
  unfoldable pub queue_run : List (Event A) → List A → List A
  queue_run [] q = []
  queue_run (post m ∷ es) q = queue_run es (q ++ (m ∷ []))
  queue_run (take_next ∷ es) [] = queue_run es []
  queue_run (take_next ∷ es) (x ∷ q) = x ∷ queue_run es q

  -- Whenever a message comes, fewer than `n` are waiting.
  abbrev pub KeepsUp : ℕ → List (Event A) → List A → Type 0
  KeepsUp n [] q = Unit
  KeepsUp n (post m ∷ es) q = (length q < n) × KeepsUp n es (q ++ (m ∷ []))
  KeepsUp n (take_next ∷ es) [] = KeepsUp n es []
  KeepsUp n (take_next ∷ es) (x ∷ q) = KeepsUp n es q

  -- Whether the reader's index leads to the first message that waits, and the buffer has that.
  pub record Waits (null : A) (h q : List A) (v : Visitor A) : Type ℓ where
    pub holds : Holds null v.buffer h
    pub roomy : 1 < v.buffer.capacity
    pub begun : 0 < v.next_msg_index
    pub reach : v.next_msg_index ≤ length h + 1
    pub waiting : q ≡ drop (v.next_msg_index - 1) h
    pub short : length q ≤ v.buffer.capacity - 1

  Waits-post :
      (null : A) (h q : List A) (v : Visitor A) (m : A)
      → Waits null h q v
      → length h + 1 < 2 ^ 63
      → length q < v.buffer.capacity - 1
      → Waits null (h ++ (m ∷ [])) (q ++ (m ∷ [])) (record v { buffer = store v.buffer m })
  Waits-post null h q v m w few room = record {
    holds = store-Holds null v.buffer h m w.holds few;
    roomy = rw capacity-store w.roomy;
    begun = w.begun;
    reach = omega (arith, length-append h (m ∷ []), w.reach);
    waiting =
        ap (λ l. l ++ (m ∷ [])) w.waiting
        ∙ sym (drop-append (v.next_msg_index - 1) h (m ∷ []) (omega (arith, w.reach)));
    short = rw capacity-store (omega (arith, length-append q (m ∷ [])));
  }

  -- Nothing waits: the index leads to the message that comes next.
  next_of_empty :
      (null : A) (h : List A) (v : Visitor A) → Waits null h [] v → v.next_msg_index ≡ length h + 1
  next_of_empty null h v w =
      omega (arith, ap length w.waiting, length-drop (v.next_msg_index - 1) h, w.reach, w.begun)

  -- Something waits: it is the message at the index.
  module _ (null : A) (h : List A) (x : A) (q : List A) (v : Visitor A)
      (w : Waits null h (x ∷ q) v) where
    come : v.next_msg_index ≤ length h
    come = omega (arith, ap length w.waiting, length-drop (v.next_msg_index - 1) h, w.begun)

    first_waits :
        (x ∷ q) ≡ (get_or h (v.next_msg_index - 1) null ∷ drop (suc (v.next_msg_index - 1)) h)
    first_waits =
        w.waiting ∙ drop-eq-cons (v.next_msg_index - 1) h null (omega (arith, come, w.begun))

    Waits-next : Waits null h q (record v { next_msg_index = v.next_msg_index + 1 })
    Waits-next = record {
      holds = w.holds;
      roomy = w.roomy;
      begun = omega arith;
      reach = omega (arith, come);
      waiting =
          let e : suc (v.next_msg_index - 1) ≡ v.next_msg_index + 1 - 1 = omega (arith, w.begun) in
          rw (← e) (cc first_waits);
      short = omega (arith, w.short);
    }

    got_next : try_fetch null v ≡ (record v { next_msg_index = v.next_msg_index + 1 }, some x)
    got_next =
        let e : x ≡ get_or h (v.next_msg_index - 1) null = cc first_waits in
        rw e (
          try_next null h v w.holds w.begun
            (omega
              (arith, w.short, ap length w.waiting, length-drop (v.next_msg_index - 1) h, w.begun))
            come)

  -- A reader that has begun to read, and that has fewer messages waiting than its queue size whenever one
  -- comes, gets what a queue without a bound would give it: every message, in order, whenever it asks and
  -- one is there. `h` lists the messages that came before, and `q` those of them that wait.
  pub keeps_up :
      (null : A) (es : List (Event A)) (h q : List A) (v : Visitor A)
      → Waits null h q v
      → length h + length es < 2 ^ 63
      → KeepsUp (v.buffer.capacity - 1) es q
      → map (λ d. d.1) (run null es v) ≡ queue_run es q
  unfolding queue_run
  keeps_up null [] h q v w few k = rw run_nil
  keeps_up null (post m ∷ es) h q v w few k = rw run_post (
      keeps_up null es (h ++ (m ∷ [])) (q ++ (m ∷ [])) (record v { buffer = store v.buffer m })
        (Waits-post null h q v m w (omega arith) k.0) (omega (arith, length-append h (m ∷ [])))
        (rw capacity-store k.1))
  keeps_up null (take_next ∷ es) h [] v w few k =
      rw (run-none null es v (try_nothing null h v w.holds (inr (next_of_empty null h v w))))
        (keeps_up null es h [] v w (omega arith) k)
  keeps_up null (take_next ∷ es) h (x ∷ q) v w few k =
      rw
        (run_got null es v v.next_msg_index x (omega (arith, come null h x q v w))
          (got_next null h x q v w))
        (ap (◌∷◌ x) (
          keeps_up null es h q (record v { next_msg_index = v.next_msg_index + 1 })
            (Waits-next null h x q v w) (omega arith) k))
