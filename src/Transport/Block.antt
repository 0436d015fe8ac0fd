-- ===== src/Transport/Block.antt =====
-- cyber/transport/shm/block.cc and block.h, `class Block`: the lock of a block in shared memory, which
-- several processes read and one writes, as the steps that its atomic operations make.
pub mod Exclusion
pub mod Trying
use cyberrt_on_rpi.Base.{
  ℕ, ◌+◌, ◌-◌, ◌^◌, Bool, true, false, not, ◌&&◌, Option, none, some, List, [], ◌∷◌, ◌==◌, leb,
  if◌then◌else◌, get_elem?, set, add32, sub32,
}

abbrev pub rw_lock_free : ℕ
rw_lock_free = 0

-- -1, as the pattern of an int32_t.
abbrev pub write_exclusive : ℕ
write_exclusive = 2 ^ 32 - 1

abbrev pub max_try_lock_times : ℕ
max_try_lock_times = 5

abbrev pub is_negative : ℕ → Bool
is_negative pattern = leb (2 ^ 31) pattern

-- Where a thread stands: in `TryLockForRead` before a compare_exchange, with the number that it has seen
-- and its tries so far, or before the load that follows one; or it holds the lock.
pub data Thread : Type 0 where
  idle : Thread
  trying : (lock_num try_times : ℕ) → Thread
  reloading : (try_times : ℕ) → Thread
  reading : Thread
  writing : Thread

-- `TryLockForWrite` is one compare_exchange_weak, which can fail without a reason.
unfoldable pub try_lock_for_write : Bool → ℕ → Thread × ℕ
try_lock_for_write spurious lock_num =
    if lock_num == rw_lock_free && not spurious
    then (writing, write_exclusive)
    else (idle, lock_num)

-- A load of `TryLockForRead`, and the test behind it.
unfoldable pub load_for_read : ℕ → ℕ → Thread × ℕ
load_for_read try_times lock_num =
    if is_negative lock_num then (idle, lock_num) else (trying lock_num try_times, lock_num)

-- The compare_exchange_weak of `TryLockForRead`, and the count of the tries.
unfoldable pub exchange_for_read : Bool → ℕ → ℕ → ℕ → Thread × ℕ
exchange_for_read spurious seen try_times lock_num =
    if lock_num == seen && not spurious
    then (reading, add32 seen 1)
    else if try_times + 1 == max_try_lock_times
    then (idle, lock_num)
    else (reloading (try_times + 1), lock_num)

unfoldable pub release_write_lock : ℕ → Thread × ℕ
release_write_lock lock_num = (idle, add32 lock_num 1)

unfoldable pub release_read_lock : ℕ → Thread × ℕ
release_read_lock lock_num = (idle, sub32 lock_num 1)

-- The next atomic operation of a thread; an idle one begins to write or to read.
unfoldable pub thread_step : Bool → Bool → Thread → ℕ → Thread × ℕ
unfolding try_lock_for_write load_for_read exchange_for_read release_write_lock release_read_lock
thread_step to_write spurious idle l =
    if to_write then try_lock_for_write spurious l else load_for_read 0 l
thread_step to_write spurious (trying seen n) l = exchange_for_read spurious seen n l
thread_step to_write spurious (reloading n) l = load_for_read n l
thread_step to_write spurious reading l = release_read_lock l
thread_step to_write spurious writing l = release_write_lock l

pub record Block : Type 0 where
  pub lock_num : ℕ
  pub threads : List Thread

pub record Turn : Type 0 where
  pub thread : ℕ
  pub to_write : Bool
  pub spurious : Bool

unfoldable pub moved : Turn → Option Thread → Block → Block
unfolding thread_step
moved t none b = b
moved t (some p) b =
    let (p', lock_num) = thread_step t.to_write t.spurious p b.lock_num in
    record b { lock_num = lock_num; threads = set b.threads t.thread p' }

unfoldable pub take_turn : Turn → Block → Block
unfolding moved
take_turn t b = moved t (get_elem? b.threads t.thread) b

unfoldable pub take_turns : List Turn → Block → Block
take_turns [] b = b
take_turns (t ∷ ts) b = take_turns ts (take_turn t b)
