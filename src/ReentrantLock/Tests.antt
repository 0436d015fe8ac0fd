-- ===== src/ReentrantLock/Tests.antt =====
-- Three threads on a reentrant lock.
use cyberrt_on_rpi.Base.{arith, ℕ, ◌≡◌, refl, true, false, none, List, [], ◌++◌, replicate}
use cyberrt_on_rpi.ReentrantLock.{
  write_exclusive, waiting, Action, read_lock, write_lock, unlock, Choice, is_owner, at, push, pop,
  tail, unlock_guard, begin, thread_step, moved, take_turns, init,
}
use cyberrt_on_rpi.ReentrantLock.Cleared.{race, cleared}

abbrev turns : ℕ → ℕ → Action → List (ℕ × Choice)
turns n i a = replicate n (i, record { action = a; spurious = false })

-- A thread takes the lock to write, twice, and to read, and gives everything back.
abbrev nested : List (ℕ × Choice)
nested = turns 5 1 write_lock ++ turns 2 1 write_lock ++ turns 1 1 read_lock ++ turns 4 1 unlock

nested_free :
    let s = take_turns nested (init true) in
    (s.lock.lock_num ≡ 0) × (s.lock.write_thread_id ≡ none) × ((s.threads 1).guards ≡ [])
unfolding take_turns moved thread_step begin is_owner unlock_guard at push pop tail init
nested_free = (refl, refl, refl)

-- The third thread wants to read, and the first to write.
abbrev later : List (ℕ × Choice)
later = turns 4 3 read_lock ++ turns 3 1 write_lock ++ turns 2 2 unlock

cleared_example :
    let s = take_turns later (take_turns (race 1 2) (init true)) in
    ((s.threads 2).stage ≡ waiting)
    × ((s.threads 3).guards ≡ [])
    × (s.lock.lock_num ≡ write_exclusive)
cleared_example = cleared 1 2 true later 3 (omega arith) (omega arith)
