-- ===== src/Transport/Block/Exclusion.antt =====
-- A writer of a block is alone, whatever the order of the threads' steps.
use cyberrt_on_rpi.Base.{
  ℕ, ◌+◌, ◌*◌, ◌==◌, ◌^◌, ◌≤◌, ◌<◌, ◌≡◌, ◌⊎◌, inl, inr, refl, Bool, Option, none, some, List, [],
  ◌∷◌, length, get_elem?, set, arith, if◌then◌else◌, sum_by, sum_by-set, le-sum_by,
  sum_by-le_length, length-set,
}
use cyberrt_on_rpi.Transport.Block.{
  Thread, idle, trying, reloading, reading, writing, Block, Turn, thread_step, take_turn,
  take_turns, write_exclusive, moved, is_negative,
}

unfoldable pub reads : Thread → ℕ
reads reading = 1
reads _ = 0

unfoldable pub writes : Thread → ℕ
writes writing = 1
writes _ = 0

-- What the lock's number says of the readers and the writers that hold it.
unfoldable pub Agrees : ℕ → ℕ → ℕ → Type 0
Agrees lock_num readers writers =
    ((writers ≡ 0) × (lock_num ≡ readers))
    ⊎ ((writers ≡ 1) × (readers ≡ 0) × (lock_num ≡ write_exclusive))

-- A thread that will count itself in from a negative number: no thread ever does.
unfoldable pub strays : Thread → ℕ
strays (trying seen n) = if is_negative seen then 1 else 0
strays _ = 0

-- `r` and `w` count the readers and the writers before the step, `r'` and `w'` behind it.
module _ (to_write spurious : Bool) (l r w r' w' : ℕ) (few : r < 2 ^ 31) (h : Agrees l r w) where
  thread_step-Agrees :
      (p : Thread)
      → strays p ≡ 0
      → reads p ≤ r
      → writes p ≤ w
      → r' + reads p ≡ r + reads (thread_step to_write spurious p l).0
      → w' + writes p ≡ w + writes (thread_step to_write spurious p l).0
      → (strays (thread_step to_write spurious p l).0 ≡ 0)
        × Agrees (thread_step to_write spurious p l).1 r' w'
  unfolding Agrees thread_step reads writes strays
  thread_step-Agrees idle sane in_r in_w re we = ground arith
  thread_step-Agrees (trying seen n) sane in_r in_w re we = ground arith
  thread_step-Agrees (reloading n) sane in_r in_w re we = ground arith
  thread_step-Agrees reading sane in_r in_w re we = ground arith
  thread_step-Agrees writing sane in_r in_w re we = ground arith

pub record IsConsistent (b : Block) : Type 0 where
  pub few : length b.threads < 2 ^ 31
  pub sane : sum_by strays b.threads ≡ 0
  pub agrees : Agrees b.lock_num (sum_by reads b.threads) (sum_by writes b.threads)

reads-le_one : (p : Thread) → reads p ≤ 1
unfolding reads
reads-le_one p = ground arith

moved-IsConsistent :
    (t : Turn) (o : Option Thread) (b : Block)
    → get_elem? b.threads t.thread ≡ o
    → IsConsistent b
    → IsConsistent (moved t o b)
unfolding moved
moved-IsConsistent t none b e h = h
moved-IsConsistent t (some p) b e h =
    let i = t.thread in
    let p' = (thread_step t.to_write t.spurious p b.lock_num).0 in
    let few : sum_by reads b.threads < 2 ^ 31 =
      omega (arith, h.few, sum_by-le_length reads b.threads reads-le_one) in
    let was_sane : strays p ≡ 0 = omega (arith, h.sane, le-sum_by strays b.threads i p e) in
    let (sane, agrees) =
      thread_step-Agrees t.to_write t.spurious b.lock_num (sum_by reads b.threads)
        (sum_by writes b.threads) (sum_by reads (set b.threads i p'))
        (sum_by writes (set b.threads i p')) few h.agrees p was_sane
        (le-sum_by reads b.threads i p e) (le-sum_by writes b.threads i p e)
        (sum_by-set reads b.threads i p' p e) (sum_by-set writes b.threads i p' p e) in
    record {
      few = omega (arith, h.few, length-set b.threads i p');
      sane = omega (arith, h.sane, sane, sum_by-set strays b.threads i p' p e);
      agrees = agrees;
    }

pub take_turn-IsConsistent : (t : Turn) (b : Block) → IsConsistent b → IsConsistent (take_turn t b)
unfolding take_turn
take_turn-IsConsistent t b h = moved-IsConsistent t _ b refl h

pub take_turns-IsConsistent :
    (ts : List Turn) (b : Block) → IsConsistent b → IsConsistent (take_turns ts b)
unfolding take_turns
take_turns-IsConsistent [] b h = h
take_turns-IsConsistent (t ∷ ts) b h =
    take_turns-IsConsistent ts (take_turn t b) (take_turn-IsConsistent t b h)

-- However the threads take turns, and whatever the weak exchanges do: at most one thread holds the lock
-- to write, then none holds it to read, and the lock's number is free when nobody holds it, the number of
-- the readers, or the mark of a writer (fewer than 2^31 threads use the block).
pub one_writer :
    (ts : List Turn) (b : Block)
    → IsConsistent b
    → let b' = take_turns ts b in
      let readers = sum_by reads b'.threads in
      let writers = sum_by writes b'.threads in
      (writers ≤ 1)
      × (writers * readers ≡ 0)
      × (b'.lock_num ≡ (if writers == 0 then readers else write_exclusive))
unfolding Agrees
one_writer ts b h = elim (take_turns-IsConsistent ts b h).agrees [
  | inl (w, l) ↦ (omega (arith, w), ground arith, rw w l)
  | inr (w, r, l) ↦ (omega (arith, w), ground arith, rw w l)
]
