-- ===== src/Transport/Segment/Blocks.antt =====
-- cyber/transport/shm/segment.cc: the blocks that are taken and given back, and the ways to open the
-- memory anew.
use cyberrt_on_rpi.Base.{
  ℕ, zero, suc, ◌+◌, ◌-◌, Bool, true, false, not, Option, none, some, leb, ◌==◌, if◌then◌else◌,
  update, bit_and,
}
use cyberrt_on_rpi.Transport.ShmConf.{update_conf}
use cyberrt_on_rpi.Transport.Block.{
  Thread, writing, try_lock_for_write, release_write_lock, release_read_lock,
}
use cyberrt_on_rpi.Transport.Segment.{
  Process, at_pointer, shared, reset, remove, open_only, open_or_create,
}
use cyberrt_on_rpi.Transport.Segment.Machine.{
  Shared, Shm, Pointer, nullptr, bad, address, Mode, read_only, write_only, increase_wrote_num,
  decrease_reference_counts, set_need_remap,
}

-- The lock of the i-th block is taken by one exchange, which can fail without a reason.
unfoldable pub exchange_lock : (ℕ → Thread × ℕ) → ℕ → Shared → Shared
exchange_lock step i s = record s { lock_nums = update s.lock_nums i (step (s.lock_nums i)).1 }

unfoldable pub has_lock : Thread → Bool
has_lock writing = true
has_lock _ = false

-- The tests and the exchange of one round of `GetNextWritableBlockIndex`, and what follows it. `spurious`
-- says that the exchange fails without a reason.
unfoldable pub masked_index : ℕ → ℕ → ℕ
masked_index block_num try_idx =
    if leb block_num try_idx then bit_and try_idx (block_num - 1) else try_idx

unfoldable pub try_index : Bool → ℕ → Shared → Option (ℕ × Shared) → Option (ℕ × Shared)
unfolding exchange_lock increase_wrote_num has_lock
try_index spurious idx s later =
    if has_lock (try_lock_for_write spurious (s.lock_nums idx)).0
    then some (idx, increase_wrote_num (exchange_lock (try_lock_for_write spurious) idx s))
    else later

-- The loop, with the number of rounds that it is watched. `weak k` is `spurious` of the round with k rounds
-- left.
unfoldable pub next_index : (ℕ → Bool) → ℕ → ℕ → ℕ → Shared → Option (ℕ × Shared)
unfolding try_index masked_index
next_index weak block_num zero try_idx s = none
next_index weak block_num (suc fuel) try_idx s =
    let idx = masked_index block_num try_idx in
    try_index (weak fuel) idx s (next_index weak block_num fuel (idx + 1) s)

unfoldable pub get_next_writable_block_index : (ℕ → Bool) → ℕ → ℕ → Shared → Option (ℕ × Shared)
unfolding next_index
get_next_writable_block_index weak block_num fuel s = next_index weak block_num fuel s.wrote_num s

-- A block that is handed out: its index and the address of its buffer, null where none is noted. The
-- search for one may still go on when its rounds have been watched. A null pointer that is followed ends
-- the process.
pub data Acquired : Type 0 where
  refused : Acquired
  crashed : Acquired
  acquired : (index : ℕ) (buf : Option ℕ) → Acquired
  searching : Acquired

module _ {W : Type 0} (m : Shm W) (state_bytes block_bytes : ℕ) where
  unfoldable pub init_as : Mode → Process W → Process W × Bool
  init_as read_only s = open_only m state_bytes block_bytes s
  init_as write_only s = open_or_create m state_bytes block_bytes s

  -- `Init`.
  unfoldable pub init : Process W → Process W × Bool
  init s = init_as s.segment.mode s

  unfoldable pub remap : Process W → Process W × Bool
  remap s =
      open_only m state_bytes block_bytes
        (reset m (record s { segment = record s.segment { init = false } }))

  -- `Recreate` marks the state by its pointer; a null one ends the process.
  unfoldable pub recreate_at : Pointer → Process W → Option (Process W × Bool)
  recreate_at (address a) s =
      let s' = at_pointer (set_need_remap true) (address a) s in
      some (open_or_create m state_bytes block_bytes (remove m (reset m s')).0)
  recreate_at nullptr s = none
  recreate_at bad s = none

  unfoldable pub recreate : Process W → Option (Process W × Bool)
  recreate s =
      recreate_at s.segment.state (record s { segment = record s.segment { init = false } })

  unfoldable pub destroy : Process W → Process W × Bool
  destroy s =
      let s' = record s { segment = record s.segment { init = false } } in
      let s'' = at_pointer decrease_reference_counts s.segment.state s' in
      if not s.segment.init
      then (s, true)
      else if (shared s'').reference_count == 0
      then remove m s''
      else (s'', true)

  -- `if (!init_ && !Init())`.
  unfoldable pub initialised : Process W → Process W × Bool
  initialised s = if s.segment.init then (s, true) else init s

  unfoldable pub remap_if_needed : Process W → Process W × Bool
  remap_if_needed s = if (shared s).need_remap then remap s else (s, true)

  -- The configuration is made larger and the memory anew, whatever the remapping before gave; a failed
  -- remapping has left the state null.
  unfoldable pub enlarge : ℕ → Process W × Bool → Option (Process W × Bool)
  enlarge msg_size (s, ok) =
      if leb msg_size s.segment.conf.ceiling_msg_size
      then some (s, ok)
      else recreate (record s { segment = record s.segment { conf = update_conf msg_size } })

  unfoldable pub hand_out : Option (ℕ × Shared) → Process W → Process W × Acquired
  hand_out none s = (s, searching)
  hand_out (some (index, state)) s =
      (at_pointer (λ _. state) s.segment.state s, acquired index (s.segment.block_buf_addrs index))

  unfoldable pub acquire_open :
      (ℕ → Bool) → ℕ → Process W → Option (Process W × Bool) → Process W × Acquired
  acquire_open weak fuel before none = (before, crashed)
  acquire_open weak fuel before (some (s, false)) = (s, refused)
  acquire_open weak fuel before (some (s, true)) =
      hand_out (get_next_writable_block_index weak s.segment.conf.block_num fuel (shared s)) s

  unfoldable pub acquire_ready : (ℕ → Bool) → ℕ → ℕ → Process W × Bool → Process W × Acquired
  acquire_ready weak fuel msg_size (s, false) = (s, refused)
  acquire_ready weak fuel msg_size (s, true) =
      let r = remap_if_needed s in acquire_open weak fuel r.0 (enlarge msg_size r)

  unfoldable pub acquire_block_to_write : (ℕ → Bool) → ℕ → ℕ → Process W → Process W × Acquired
  acquire_block_to_write weak fuel msg_size s = acquire_ready weak fuel msg_size (initialised s)

  unfoldable pub release_written_block : ℕ → Process W → Process W
  release_written_block index s =
      if leb s.segment.conf.block_num index
      then s
      else at_pointer (exchange_lock release_write_lock index) s.segment.state s

  unfoldable pub release_read_block : ℕ → Process W → Process W
  release_read_block index s =
      if leb s.segment.conf.block_num index
      then s
      else at_pointer (exchange_lock release_read_lock index) s.segment.state s

  -- `lock` is what `TryLockForRead` makes of the lock's number: the new one, and its result.
  unfoldable pub read_open : (ℕ → ℕ × Bool) → ℕ → Process W × Bool → Process W × Acquired
  read_open lock index (s, false) = (s, refused)
  read_open lock index (s, true) =
      let state = shared s in
      let (lock_num, ok) = lock (state.lock_nums index) in
      if ok
      then (
        at_pointer (λ _. record state { lock_nums = update state.lock_nums index lock_num })
            s.segment.state s,
        acquired index (s.segment.block_buf_addrs index),
      )
      else (s, refused)

  unfoldable pub read_ready : (ℕ → ℕ × Bool) → ℕ → Process W × Bool → Process W × Acquired
  read_ready lock index (s, false) = (s, refused)
  read_ready lock index (s, true) =
      if leb s.segment.conf.block_num index
      then (s, refused)
      else read_open lock index (remap_if_needed s)

  unfoldable pub acquire_block_to_read : (ℕ → ℕ × Bool) → ℕ → Process W → Process W × Acquired
  acquire_block_to_read lock index s = read_ready lock index (initialised s)
