-- ===== src/Queue.antt =====
-- cyber/base/bounded_queue.h, `class BoundedQueue`: a queue in a ring. The operations here run one after
-- the other; the exchanges then succeed when they are tried again.
pub mod Fifo
pub mod Sequence
mod Tests
use cyberrt_on_rpi.Base.{
  ℕ, zero, suc, ◌+◌, ◌-◌, ◌*◌, ◌/◌, Bool, true, false, Option, none, some, List, [], ◌∷◌, ◌==◌,
  if◌then◌else◌, get_or, set, replicate, add64, sub64,
}

pub record BoundedQueue {ℓ} (T : Type ℓ) : Type ℓ where
  pub head : ℕ
  pub tail : ℕ
  pub commit : ℕ
  pub pool_size : ℕ
  pub pool : List T
  pub break_all_wait : Bool

module _ {ℓ} {T : Type ℓ} (null : T) where
  -- A new queue, and `Init`, where `calloc` gives the memory. `null` is `T()`.
  unfoldable pub init : ℕ → BoundedQueue T
  init size = record {
    head = 0;
    tail = 1;
    commit = 1;
    pool_size = add64 size 2;
    pool = replicate (add64 size 2) null;
    break_all_wait = false;
  }

  unfoldable pub get_index : BoundedQueue T → ℕ → ℕ
  get_index q num = num - num / q.pool_size * q.pool_size

  -- The new queue, and the result.
  unfoldable pub enqueue : T → BoundedQueue T → BoundedQueue T × Bool
  enqueue element q =
      let old_tail = q.tail in
      let new_tail = add64 old_tail 1 in
      if get_index q new_tail == get_index q q.head then (q, false) else (
        record q {
          tail = new_tail;
          pool = set q.pool (get_index q old_tail) element;
          commit = new_tail;
        },
        true,
      )

  -- The element, unless the result is false.
  unfoldable pub dequeue : BoundedQueue T → BoundedQueue T × Option T
  dequeue q =
      let new_head = add64 q.head 1 in
      if new_head == q.commit
      then (q, none)
      else (record q { head = new_head }, some (get_or q.pool (get_index q new_head) null))

  unfoldable pub size : BoundedQueue T → ℕ
  size q = sub64 (sub64 q.tail q.head) 1

  unfoldable pub is_empty : BoundedQueue T → Bool
  unfolding size
  is_empty q = size q == 0

  unfoldable pub break_all_waits : BoundedQueue T → BoundedQueue T
  break_all_waits q = record q { break_all_wait = true }

-- What happens to the queue, by other threads, while `EmptyWait` waits, and the result of the wait.
pub record Wait {ℓ} (T : Type ℓ) : Type ℓ where
  pub meanwhile : BoundedQueue T → BoundedQueue T
  pub go_on : Bool

module _ {ℓ} {T : Type ℓ} (null : T) where
  -- The loops of `WaitEnqueue` and `WaitDequeue`, as long as they are watched: `none` where they go on.
  unfoldable pub wait_enqueue : List (Wait T) → T → BoundedQueue T → Option (BoundedQueue T × Bool)
  wait_enqueue [] element q = none
  wait_enqueue (w ∷ ws) element q =
      let (q', ok) = enqueue null element q in
      let later = wait_enqueue ws element (w.meanwhile q') in
      if q.break_all_wait
      then some (q, false)
      else if ok
      then some (q', true)
      else if w.go_on
      then later
      else some (w.meanwhile q', false)

  unfoldable pub taken : Option T → Bool
  taken none = false
  taken (some x) = true

  unfoldable pub wait_dequeue : List (Wait T) → BoundedQueue T → Option (BoundedQueue T × Option T)
  unfolding taken
  wait_dequeue [] q = none
  wait_dequeue (w ∷ ws) q =
      let (q', o) = dequeue null q in
      let later = wait_dequeue ws (w.meanwhile q') in
      if q.break_all_wait
      then some (q, none)
      else if taken o
      then some (q', o)
      else if w.go_on
      then later
      else some (w.meanwhile q', none)
