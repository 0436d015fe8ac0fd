-- ===== src/ReentrantLock.antt =====
-- cyber/base/reentrant_rw_lock.h, `class ReentrantRWLock`, as the operations of the threads that use it: the
-- atomic ones, and those on the plain variable write_thread_id_. A thread has guards, the last one first.
pub mod Stuck
pub mod Cleared
mod Tests
use cyberrt_on_rpi.Base.{
  ℕ, ◌+◌, ◌-◌, ◌^◌, Bool, true, false, not, ◌&&◌, ◌||◌, Option, none, some, List, [], ◌∷◌, ◌==◌,
  leb, ltb, if◌then◌else◌, update, add32, sub32,
}

abbrev pub rw_lock_free : ℕ
rw_lock_free = 0

-- -1, as the pattern of an int32_t.
abbrev pub write_exclusive : ℕ
write_exclusive = 2 ^ 32 - 1

pub record ReentrantRwLock : Type 0 where
  pub write_thread_id : Option ℕ
  pub write_lock_wait_num : ℕ
  pub lock_num : ℕ
  pub write_first : Bool

pub data Guard : Type 0 where
  reads : Guard
  writes : Guard

-- Where a thread stands: outside the calls; in `ReadLock`, where it loads the number, tests the one that it
-- has seen, or is about to exchange it; in `WriteLock`, where it enters again, counts itself, waits for the
-- lock, has it and is about to write its id, or still counts as one that waits; in `ReadUnlock`, where it is
-- about to leave; or in `WriteUnlock`, where it has freed the lock and is about to clear the id. (The yields
-- change nothing, and are left out.)
pub data Place : Type 0 where
  outside : Place
  loading : Place
  testing : (lock_num : ℕ) → Place
  exchanging : (lock_num : ℕ) → Place
  reentering : Place
  counting : Place
  waiting : Place
  owning : Place
  uncounting : Place
  leaving : Place
  clearing : Place

pub record Thread : Type 0 where
  pub stage : Place
  pub guards : List Guard

-- What a thread outside the calls does next.
pub data Action : Type 0 where
  read_lock : Action
  write_lock : Action
  unlock : Action

-- A choice of a thread: what it does next, and whether its weak exchange fails without a reason.
pub record Choice : Type 0 where
  pub action : Action
  pub spurious : Bool

-- `write_thread_id_ == std::this_thread::get_id()`
unfoldable pub is_owner : ℕ → ReentrantRwLock → Bool
is_owner i l = elim l.write_thread_id [ none ↦ false | some j ↦ j == i ]

-- The condition of the inner loops of `ReadLock`.
unfoldable pub must_wait : ℕ → ReentrantRwLock → Bool
must_wait seen l = leb (2 ^ 31) seen || (l.write_first && ltb 0 l.write_lock_wait_num)

unfoldable pub at : Place → Thread → Thread
at p t = record t { stage = p }

unfoldable pub push : Guard → Thread → Thread
push g t = record { stage = outside; guards = g ∷ t.guards }

unfoldable pub tail : List Guard → List Guard
tail [] = []
tail (g ∷ gs) = gs

unfoldable pub pop : Place → Thread → Thread
pop p t = record { stage = p; guards = tail t.guards }

-- The begin of `ReadUnlock` and of `WriteUnlock`.
unfoldable pub unlock_guard : List Guard → ℕ → Thread → ReentrantRwLock → Thread × ReentrantRwLock
unlock_guard [] i t l = (t, l)
unlock_guard (reads ∷ gs) i t l = if is_owner i l then (pop outside t, l) else (at leaving t, l)
unlock_guard (writes ∷ gs) i t l =
    let l' = record l { lock_num = add32 l.lock_num 1 } in
    if l.lock_num == write_exclusive then (pop clearing t, l') else (pop outside t, l')

unfoldable pub begin : Action → ℕ → Thread → ReentrantRwLock → Thread × ReentrantRwLock
begin read_lock i t l = if is_owner i l then (push reads t, l) else (at loading t, l)
begin write_lock i t l = if is_owner i l then (at reentering t, l) else (at counting t, l)
begin unlock i t l = unlock_guard t.guards i t l

-- The next operation of the thread `i`.
unfoldable pub thread_step :
    ℕ → Choice → Place → Thread → ReentrantRwLock → Thread × ReentrantRwLock
thread_step i c outside t l = begin c.action i t l
thread_step i c loading t l = (at (testing l.lock_num) t, l)
thread_step i c (testing seen) t l =
    if must_wait seen l then (at loading t, l) else (at (exchanging seen) t, l)
thread_step i c (exchanging seen) t l =
    if l.lock_num == seen && not c.spurious
    then (push reads t, record l { lock_num = add32 seen 1 })
    else (at (testing l.lock_num) t, l)
thread_step i c reentering t l = (push writes t, record l { lock_num = sub32 l.lock_num 1 })
thread_step i c counting t l =
    (at waiting t, record l { write_lock_wait_num = add32 l.write_lock_wait_num 1 })
thread_step i c waiting t l =
    if l.lock_num == rw_lock_free && not c.spurious
    then (at owning t, record l { lock_num = write_exclusive })
    else (t, l)
thread_step i c owning t l = (at uncounting t, record l { write_thread_id = some i })
thread_step i c uncounting t l =
    (push writes t, record l { write_lock_wait_num = sub32 l.write_lock_wait_num 1 })
thread_step i c leaving t l = (pop outside t, record l { lock_num = sub32 l.lock_num 1 })
thread_step i c clearing t l = (at outside t, record l { write_thread_id = none })

pub record System : Type 0 where
  pub lock : ReentrantRwLock
  pub threads : ℕ → Thread

unfoldable pub moved : ℕ → Choice → System → System
moved i c s =
    let (t, l) = thread_step i c (s.threads i).stage (s.threads i) s.lock in
    record { lock = l; threads = update s.threads i t }

unfoldable pub take_turns : List (ℕ × Choice) → System → System
take_turns [] s = s
take_turns ((i, c) ∷ ts) s = take_turns ts (moved i c s)

-- A new lock, which no thread has used.
unfoldable pub init : Bool → System
init write_first = record {
  lock = record {
    write_thread_id = none;
    write_lock_wait_num = 0;
    lock_num = rw_lock_free;
    write_first = write_first;
  };
  threads = λ i. record { stage = outside; guards = [] };
}
