-- ===== src/RwLock/Exclusion.antt =====
-- A writer is alone, and the waiting writers are counted, whatever the order of the threads' steps.
use cyberrt_on_rpi.Base.{
  ℕ, ◌+◌, ◌^◌, ◌*◌, ◌≤◌, ◌<◌, ◌≡◌, ◌⊎◌, inl, inr, refl, Option, none, some, List, [], ◌∷◌, ◌==◌,
  length, get_elem?, set, arith, sum_by, sum_by-set, le-sum_by, sum_by-le_length, length-set,
  if◌then◌else◌, leb,
}
use cyberrt_on_rpi.RwLock.{
  Thread, idle, testing, loading, exchanging, reading, waiting, entering, writing, AtomicRwLock,
  Choice, System, thread_step, moved, take_turns, write_exclusive,
}

unfoldable pub reads : Thread → ℕ
reads reading = 1
reads _ = 0

-- The thread has the lock to write.
unfoldable pub writes : Thread → ℕ
writes entering = 1
writes writing = 1
writes _ = 0

-- The thread counts as a writer that waits.
unfoldable pub waits : Thread → ℕ
waits waiting = 1
waits entering = 1
waits _ = 0

-- A reader that would count itself in from a negative number: there is never one.
unfoldable pub strays : Thread → ℕ
strays (exchanging seen) = if leb (2 ^ 31) seen then 1 else 0
strays _ = 0

-- What the lock says of `r` readers, `w` writers that have it, and `v` that count as waiting.
unfoldable pub Agrees : AtomicRwLock → ℕ → ℕ → ℕ → Type 0
Agrees l r w v =
    (((w ≡ 0) × (l.lock_num ≡ r)) ⊎ ((w ≡ 1) × (r ≡ 0) × (l.lock_num ≡ write_exclusive)))
    × (l.write_lock_wait_num ≡ v)

module _ (c : Choice) (l : AtomicRwLock) (r w v r' w' v' : ℕ) (few : r < 2 ^ 31) (few' : v < 2 ^ 31)
    (h : Agrees l r w v) where
  thread_step-Agrees :
      (p : Thread)
      → strays p ≡ 0
      → reads p ≤ r
      → writes p ≤ w
      → waits p ≤ v
      → r' + reads p ≡ r + reads (thread_step c p l).0
      → w' + writes p ≡ w + writes (thread_step c p l).0
      → v' + waits p ≡ v + waits (thread_step c p l).0
      → (strays (thread_step c p l).0 ≡ 0) × Agrees (thread_step c p l).1 r' w' v'
  unfolding Agrees thread_step reads writes waits strays
  thread_step-Agrees idle sane in_r in_w in_v re we ve = ground arith
  thread_step-Agrees (testing seen) sane in_r in_w in_v re we ve = ground arith
  thread_step-Agrees loading sane in_r in_w in_v re we ve = ground arith
  thread_step-Agrees (exchanging seen) sane in_r in_w in_v re we ve = ground arith
  thread_step-Agrees reading sane in_r in_w in_v re we ve = ground arith
  thread_step-Agrees waiting sane in_r in_w in_v re we ve = ground arith
  thread_step-Agrees entering sane in_r in_w in_v re we ve = ground arith
  thread_step-Agrees writing sane in_r in_w in_v re we ve = ground arith

pub record IsConsistent (s : System) : Type 0 where
  pub few : length s.threads < 2 ^ 31
  pub sane : sum_by strays s.threads ≡ 0
  pub agrees :
      Agrees s.lock (sum_by reads s.threads) (sum_by writes s.threads) (sum_by waits s.threads)

reads-le_one : (p : Thread) → reads p ≤ 1
unfolding reads
reads-le_one p = ground arith

waits-le_one : (p : Thread) → waits p ≤ 1
unfolding waits
waits-le_one p = ground arith

moved-IsConsistent :
    (i : ℕ) (c : Choice) (o : Option Thread) (s : System)
    → get_elem? s.threads i ≡ o
    → IsConsistent s
    → IsConsistent (moved i c o s)
unfolding moved
moved-IsConsistent i c none s e h = h
moved-IsConsistent i c (some p) s e h =
    let ts = s.threads in
    let p' = (thread_step c p s.lock).0 in
    let few : sum_by reads ts < 2 ^ 31 =
      omega (arith, h.few, sum_by-le_length reads ts reads-le_one) in
    let few' : sum_by waits ts < 2 ^ 31 =
      omega (arith, h.few, sum_by-le_length waits ts waits-le_one) in
    let was_sane : strays p ≡ 0 = omega (arith, h.sane, le-sum_by strays ts i p e) in
    let (sane, agrees) =
      thread_step-Agrees c s.lock (sum_by reads ts) (sum_by writes ts) (sum_by waits ts)
        (sum_by reads (set ts i p')) (sum_by writes (set ts i p')) (sum_by waits (set ts i p')) few
        few' h.agrees p was_sane (le-sum_by reads ts i p e) (le-sum_by writes ts i p e)
        (le-sum_by waits ts i p e) (sum_by-set reads ts i p' p e) (sum_by-set writes ts i p' p e)
        (sum_by-set waits ts i p' p e) in
    record {
      few = omega (arith, h.few, length-set ts i p');
      sane = omega (arith, h.sane, sane, sum_by-set strays ts i p' p e);
      agrees = agrees;
    }

take_turns-IsConsistent :
    (ts : List (ℕ × Choice)) (s : System) → IsConsistent s → IsConsistent (take_turns ts s)
unfolding take_turns
take_turns-IsConsistent [] s h = h
take_turns-IsConsistent ((i, c) ∷ ts) s h =
    take_turns-IsConsistent ts (moved i c (get_elem? s.threads i) s)
      (moved-IsConsistent i c _ s refl h)

-- However the threads take turns, and whatever the weak exchanges do: at most one thread has the lock to
-- write, then none reads, the lock's number is free when nobody has it, the number of the readers, or the
-- mark of a writer, and `write_lock_wait_num_` is the number of the writers that wait or are entering
-- (fewer than 2^31 threads use the lock).
pub one_writing :
    (ts : List (ℕ × Choice)) (s : System)
    → IsConsistent s
    → let s' = take_turns ts s in
      let readers = sum_by reads s'.threads in
      let writers = sum_by writes s'.threads in
      (writers ≤ 1)
      × (writers * readers ≡ 0)
      × (s'.lock.lock_num ≡ (if writers == 0 then readers else write_exclusive))
      × (s'.lock.write_lock_wait_num ≡ sum_by waits s'.threads)
unfolding Agrees
one_writing ts s h =
    let (holders, waiters) = (take_turns-IsConsistent ts s h).agrees in
    elim holders [
      | inl (w, l) ↦ (omega (arith, w), ground arith, rw w l, waiters)
      | inr (w, r, l) ↦ (omega (arith, w), ground arith, rw w l, waiters)
    ]
