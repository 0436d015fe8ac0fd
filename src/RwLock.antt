-- ===== src/RwLock.antt =====
-- cyber/base/atomic_rw_lock.h, `class AtomicRWLock`, as the atomic operations of the threads that use it.
pub mod Exclusion
mod Tests
use cyberrt_on_rpi.Base.{
  ℕ, ◌+◌, ◌-◌, ◌^◌, Bool, true, false, not, ◌&&◌, ◌||◌, Option, none, some, List, [], ◌∷◌, ◌==◌,
  leb, ltb, if◌then◌else◌, get_elem?, set, add32, sub32,
}

abbrev pub rw_lock_free : ℕ
rw_lock_free = 0

-- -1, as the pattern of an int32_t.
abbrev pub write_exclusive : ℕ
write_exclusive = 2 ^ 32 - 1

-- Where a thread stands. A reader tests the number that it has seen, loads another, or is about to
-- exchange; a writer waits for the lock, or has it and still counts as one that waits. (The yields change
-- nothing, and are left out.)
pub data Thread : Type 0 where
  idle : Thread
  testing : (lock_num : ℕ) → Thread
  loading : Thread
  exchanging : (lock_num : ℕ) → Thread
  reading : Thread
  waiting : Thread
  entering : Thread
  writing : Thread

pub record AtomicRwLock : Type 0 where
  pub write_lock_wait_num : ℕ
  pub lock_num : ℕ
  pub write_first : Bool

-- A choice of a thread: whether an idle one writes, and whether its weak exchange fails without a reason.
pub record Choice : Type 0 where
  pub to_write : Bool
  pub spurious : Bool

-- The condition of the inner loop of `ReadLock`.
unfoldable pub must_wait : ℕ → AtomicRwLock → Bool
must_wait seen l = leb (2 ^ 31) seen || (l.write_first && ltb 0 l.write_lock_wait_num)

unfoldable pub read_exchange : Bool → ℕ → AtomicRwLock → Thread × AtomicRwLock
read_exchange spurious seen l =
    if l.lock_num == seen && not spurious
    then (reading, record l { lock_num = add32 seen 1 })
    else (testing l.lock_num, l)

unfoldable pub write_exchange : Bool → AtomicRwLock → Thread × AtomicRwLock
write_exchange spurious l =
    if l.lock_num == rw_lock_free && not spurious
    then (entering, record l { lock_num = write_exclusive })
    else (waiting, l)

unfoldable pub read_unlock : AtomicRwLock → AtomicRwLock
read_unlock l = record l { lock_num = sub32 l.lock_num 1 }

unfoldable pub write_unlock : AtomicRwLock → AtomicRwLock
write_unlock l = record l { lock_num = add32 l.lock_num 1 }

unfoldable pub count_writer : AtomicRwLock → AtomicRwLock
count_writer l = record l { write_lock_wait_num = add32 l.write_lock_wait_num 1 }

unfoldable pub uncount_writer : AtomicRwLock → AtomicRwLock
uncount_writer l = record l { write_lock_wait_num = sub32 l.write_lock_wait_num 1 }

-- The next atomic operation of a thread.
unfoldable pub thread_step : Choice → Thread → AtomicRwLock → Thread × AtomicRwLock
unfolding must_wait read_exchange write_exchange read_unlock write_unlock count_writer
    uncount_writer
thread_step c idle l = if c.to_write then (waiting, count_writer l) else (testing l.lock_num, l)
thread_step c (testing seen) l = if must_wait seen l then (loading, l) else (exchanging seen, l)
thread_step c loading l = (testing l.lock_num, l)
thread_step c (exchanging seen) l = read_exchange c.spurious seen l
thread_step c reading l = (idle, read_unlock l)
thread_step c waiting l = write_exchange c.spurious l
thread_step c entering l = (writing, uncount_writer l)
thread_step c writing l = (idle, write_unlock l)

pub record System : Type 0 where
  pub lock : AtomicRwLock
  pub threads : List Thread

unfoldable pub moved : ℕ → Choice → Option Thread → System → System
unfolding thread_step
moved i c none s = s
moved i c (some p) s =
    let (p', l) = thread_step c p s.lock in record { lock = l; threads = set s.threads i p' }

unfoldable pub take_turns : List (ℕ × Choice) → System → System
unfolding moved
take_turns [] s = s
take_turns ((i, c) ∷ ts) s = take_turns ts (moved i c (get_elem? s.threads i) s)
