-- ===== src/RwLock/Tests.antt =====
-- Two threads at a lock.
use cyberrt_on_rpi.Base.{
  ℕ, ◌*◌, ◌≤◌, ◌≡◌, refl, inl, true, false, List, [], ◌∷◌, arith, if◌then◌else◌, ◌==◌, sum_by,
}
use cyberrt_on_rpi.RwLock.{
  System, Choice, idle, writing, take_turns, moved, thread_step, write_exclusive,
}
use cyberrt_on_rpi.RwLock.Exclusion.{
  IsConsistent, reads, writes, waits, strays, Agrees, one_writing,
}

abbrev two : System
two = record {
  lock = record { write_lock_wait_num = 0; lock_num = 0; write_first = true };
  threads = idle ∷ idle ∷ [];
}

abbrev reader : ℕ × Choice
reader = (0, record { to_write = false; spurious = false })

abbrev writer : ℕ × Choice
writer = (1, record { to_write = true; spurious = false })

-- The writer comes while the reader reads, and gets the lock behind it.
abbrev turns : List (ℕ × Choice)
turns = reader ∷ reader ∷ reader ∷ writer ∷ writer ∷ reader ∷ writer ∷ writer ∷ []

turns_run : (take_turns turns two).threads ≡ idle ∷ writing ∷ []
unfolding take_turns moved thread_step
turns_run = refl

two-IsConsistent : IsConsistent two
unfolding sum_by reads writes waits strays Agrees
two-IsConsistent = record { few = omega arith; sane = refl; agrees = (inl (refl, refl), refl) }

one_writing_example :
    let s = take_turns turns two in
    (sum_by writes s.threads ≤ 1)
    × (sum_by writes s.threads * sum_by reads s.threads ≡ 0)
    × (s.lock.lock_num
        ≡ (if sum_by writes s.threads == 0 then sum_by reads s.threads else write_exclusive))
    × (s.lock.write_lock_wait_num ≡ sum_by waits s.threads)
one_writing_example = one_writing turns two two-IsConsistent
