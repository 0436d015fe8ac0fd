-- ===== src/Transport/Block/Trying.antt =====
-- `TryLockForRead` ends, whatever the other threads do to the lock.
use cyberrt_on_rpi.Base.{
  ℕ, ◌+◌, ◌-◌, ◌*◌, ◌≤◌, ◌<◌, ◌≡◌, refl, Bool, true, false, List, [], ◌∷◌, length, arith,
  if◌then◌else◌,
}
use cyberrt_on_rpi.Transport.Block.{
  Thread, idle, trying, reloading, reading, writing, thread_step, load_for_read, exchange_for_read,
}

-- The thread is between the first load and the result.
unfoldable pub is_trying : Thread → Bool
is_trying (trying seen n) = true
is_trying (reloading n) = true
is_trying _ = false

-- Its steps, with the lock's number that each meets, and whether its exchange fails without a reason.
unfoldable pub try_on : List (ℕ × Bool) → Thread → Thread
unfolding is_trying thread_step
try_on [] p = p
try_on ((lock_num, spurious) ∷ ts) p =
    let rest = try_on ts (thread_step false spurious p lock_num).0 in
    if is_trying p then rest else p

-- The steps that are left at most.
unfoldable left : Thread → ℕ
left (trying seen n) = 2 * (5 - n)
left (reloading n) = 2 * (5 - n) + 1
left _ = 0

-- The count of the tries stays below its limit.
unfoldable counts : Thread → ℕ
counts (trying seen n) = n
counts (reloading n) = n
counts _ = 0

try_on_done : (ts : List (ℕ × Bool)) (p : Thread) → is_trying p ≡ false → try_on ts p ≡ p
unfolding try_on
try_on_done [] p h = refl
try_on_done ((k, s) ∷ ts) p h = rw h refl

try_on-ends :
    (ts : List (ℕ × Bool)) (p : Thread)
    → counts p < 5
    → left p ≤ length ts
    → is_trying (try_on ts p) ≡ false
unfolding try_on is_trying left counts thread_step load_for_read exchange_for_read
try_on-ends ts idle c l = rw (try_on_done ts idle refl) refl
try_on-ends [] (trying seen n) c l = absurd (omega arith)
try_on-ends [] (reloading n) c l = absurd (omega arith)
try_on-ends ((k, s) ∷ ts) (trying seen n) c l = ground (
  arith,
  try_on-ends ts (reloading (n + 1)),
  try_on_done ts idle refl,
  try_on_done ts reading refl,
)
try_on-ends ((k, s) ∷ ts) (reloading n) c l =
    ground (arith, try_on-ends ts (trying k n), try_on_done ts idle refl)
try_on-ends ts reading c l = rw (try_on_done ts reading refl) refl
try_on-ends ts writing c l = rw (try_on_done ts writing refl) refl

-- `TryLockForRead` comes to a result within eleven of its own atomic operations, whatever number the lock
-- has at each of them and whenever an exchange fails without a reason.
pub try_lock_for_read-ends :
    (lock_num : ℕ) (ts : List (ℕ × Bool))
    → 10 ≤ length ts
    → is_trying (try_on ts (load_for_read 0 lock_num).0) ≡ false
unfolding load_for_read is_trying left counts
try_lock_for_read-ends lock_num ts h =
    ground (arith, try_on-ends ts (trying lock_num 0), try_on_done ts idle refl)
