-- ===== src/Transport/Segment/Machine.antt =====
-- What a segment uses of the operating system, and the shared objects that it keeps there: `class State`
-- of cyber/transport/shm/state.h and the blocks' locks.
use cyberrt_on_rpi.Base.{ℕ, Bool, false, Option, add32, sub32, ◌==◌, if◌then◌else◌}

pub record Shared : Type 0 where
  pub need_remap : Bool
  pub wrote_num : ℕ
  pub reference_count : ℕ
  pub ceiling_msg_size : ℕ
  pub lock_nums : ℕ → ℕ

-- `State::State`, and the blocks that are constructed behind it.
unfoldable pub init_shared : ℕ → Shared
init_shared ceiling_msg_size = record {
  need_remap = false;
  wrote_num = 0;
  reference_count = 0;
  ceiling_msg_size = ceiling_msg_size;
  lock_nums = λ _. 0;
}

unfoldable pub increase_wrote_num : Shared → Shared
increase_wrote_num s = record s { wrote_num = add32 s.wrote_num 1 }

unfoldable pub increase_reference_counts : Shared → Shared
increase_reference_counts s = record s { reference_count = add32 s.reference_count 1 }

-- The loop around the strong exchange ends, and counts down unless there is nothing to count.
unfoldable pub decrease_reference_counts : Shared → Shared
decrease_reference_counts s =
    if s.reference_count == 0 then s else record s { reference_count = sub32 s.reference_count 1 }

unfoldable pub set_need_remap : Bool → Shared → Shared
set_need_remap need s = record s { need_remap = need }

-- What `shmget` gives: an identifier, or one of the errors that the source tells apart.
pub data Got : Type 0 where
  got : ℕ → Got
  invalid : Got
  exists : Got
  failed : Got

-- The calls of the operating system, which work on a state `W` of its own. `shmget` takes the key, the
-- size, and whether the flags IPC_CREAT and IPC_EXCL are set; `shmat` gives an address, or fails;
-- `remove` is `shmctl` with IPC_RMID.
pub record Shm (W : Type 0) : Type 0 where
  pub shmget : ℕ → ℕ → Bool → W → W × Got
  pub shmat : ℕ → W → W × Option ℕ
  pub shmdt : ℕ → W → W
  pub remove : ℕ → W → W × Bool

-- The pointer (void*)-1, which a failing `shmat` returns, is `bad`.
pub data Pointer : Type 0 where
  nullptr : Pointer
  bad : Pointer
  address : ℕ → Pointer

pub data Mode : Type 0 where
  read_only : Mode
  write_only : Mode
