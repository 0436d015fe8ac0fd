-- ===== src/Transport/Tests.antt =====
-- Runs of the shared memory's parts on small inputs, and the theorems of cyber/transport/shm at inputs
-- that meet their hypotheses.
mod Headers
use cyberrt_on_rpi.Base.{
  ℕ, ◌+◌, ◌*◌, ◌%◌, ◌≤◌, ◌<◌, ◌≡◌, refl, inl, inr, true, false, none, some, List, [], ◌∷◌, arith,
  Bool, if◌then◌else◌, update, sum_by, ◌==◌, not, ◌||◌, leb, Option,
}
use cyberrt_on_rpi.Transport.ShmConf.{
  ShmConf, update_conf, get_ceiling_message_size, block_buf_offset, message_info_size,
  get_block_num, get_block_buf_size,
}
use cyberrt_on_rpi.Transport.ShmConf.Layout.{update_conf-ceiling, room, no_room, blocks_fit}
use cyberrt_on_rpi.Transport.Block.{
  Block, Thread, idle, reading, writing, Turn, take_turns, take_turn, moved, thread_step,
  write_exclusive, load_for_read,
}
use cyberrt_on_rpi.Transport.Block.Exclusion.{
  IsConsistent, reads, writes, strays, Agrees, one_writer,
}
use cyberrt_on_rpi.Transport.Block.Trying.{is_trying, try_on, try_lock_for_read-ends}
use cyberrt_on_rpi.Transport.Segment.{
  Segment, Process, init_segment, shared, open_only, attach, reset,
}
use cyberrt_on_rpi.Transport.Segment.Machine.{
  Shm, Shared, Got, got, exists, failed, Mode, write_only, read_only, address,
}
use cyberrt_on_rpi.Transport.Segment.Blocks.{
  init, remap, acquire_block_to_write, acquire_block_to_read, Acquired, acquired, refused,
}
use cyberrt_on_rpi.Transport.Segment.Opening.{IsOpen}
use cyberrt_on_rpi.Transport.Segment.Writing.{written}
use cyberrt_on_rpi.Transport.Segment.Acquiring.{acquire_writes}
use cyberrt_on_rpi.Transport.Segment.Remapping.{read_past_the_end}

blocks_fit_example :
    let conf = update_conf 20000 in
    (64 + conf.block_num * 32 ≤ block_buf_offset 64 32 conf 5)
    × (block_buf_offset 64 32 conf 5 + conf.block_buf_size ≤ block_buf_offset 64 32 conf 6)
    × (block_buf_offset 64 32 conf 6 + conf.block_buf_size ≤ conf.managed_shm_size)
unfolding update_conf
blocks_fit_example =
    blocks_fit 64 32 20000 (omega arith) (omega arith) 5 6 (omega arith) (omega arith)

abbrev two_threads : Block
two_threads = record { lock_num = 0; threads = idle ∷ idle ∷ [] }

abbrev turns : List Turn
turns =
    record { thread = 0; to_write = false; spurious = false }
    ∷ record { thread = 0; to_write = false; spurious = false }
    ∷ record { thread = 1; to_write = true; spurious = false }
    ∷ record { thread = 0; to_write = false; spurious = false }
    ∷ record { thread = 1; to_write = true; spurious = false }
    ∷ []

-- The first thread reads and lets go, while the second one's first try to write fails.
turns_run :
    take_turns turns two_threads
    ≡ record { lock_num = write_exclusive; threads = idle ∷ writing ∷ [] }
unfolding take_turns take_turn moved thread_step
turns_run = refl

two_threads-IsConsistent : IsConsistent two_threads
unfolding sum_by reads writes strays Agrees
two_threads-IsConsistent = record { few = omega arith; sane = refl; agrees = inl (refl, refl) }

one_writer_example :
    let b = take_turns turns two_threads in
    (sum_by writes b.threads ≤ 1)
    × (sum_by writes b.threads * sum_by reads b.threads ≡ 0)
    × (b.lock_num
        ≡ (if sum_by writes b.threads == 0 then sum_by reads b.threads else write_exclusive))
one_writer_example = one_writer turns two_threads two_threads-IsConsistent

abbrev interference : List (ℕ × Bool)
interference =
    (1, false)
    ∷ (2, true)
    ∷ (2, true)
    ∷ (2, false)
    ∷ (2, false)
    ∷ (2, false)
    ∷ (2, false)
    ∷ (2, false)
    ∷ (2, false)
    ∷ (2, false)
    ∷ []

try_lock_for_read-ends_example : is_trying (try_on interference (load_for_read 0 0).0) ≡ false
try_lock_for_read-ends_example = try_lock_for_read-ends 0 interference (omega arith)

-- An operating system with one object at most, which `shmat` maps to the address 8192; its state says
-- whether the object is there.
abbrev machine : Shm Bool
machine = record {
  shmget = λ key size create there.
      if create
      then (if there then (there, exists) else (true, got 7))
      else (if there then (there, got 7) else (there, failed));
  shmat = λ shmid there. (there, some 8192);
  shmdt = λ a there. there;
  remove = λ shmid there. (false, true);
}

abbrev state_of : Bool → ℕ → Shared
state_of need_remap ceiling_msg_size = record {
  need_remap = need_remap;
  wrote_num = 3;
  reference_count = 1;
  ceiling_msg_size = ceiling_msg_size;
  lock_nums = λ _. 0;
}

-- Open at the address 4096 with 512 blocks; at 8192 stands a memory with eight.
abbrev process : Bool → Process Bool
process need_remap = record {
  segment = record {
    init = true;
    id = 1;
    mode = read_only;
    conf = update_conf 100;
    state = address 4096;
    blocks = address 4096;
    managed_shm = address 4096;
    block_buf_addrs = λ i. some (4096 + block_buf_offset 64 32 (update_conf 100) i);
  };
  os = true;
  memory = λ a. if a == 4096 then state_of need_remap 16384 else state_of false 33554432;
}

abbrev closed : Process Bool
unfolding init_segment
closed = record {
  segment = init_segment 1 write_only;
  os = false;
  memory = λ _. state_of false 16384;
}

abbrev id_of : ℕ → Bool → Option ℕ
id_of key there = if there then some 7 else none

process-IsOpen : IsOpen machine 64 32 (process false) 4096
unfolding update_conf
process-IsOpen = record {
  init_lem = refl;
  state_lem = refl;
  blocks_lem = refl;
  managed_lem = refl;
  conf_lem = refl;
  addrs_lem = λ i lt. refl;
}

acquire_writes_example :
    (i : ℕ) × (i < (process false).segment.conf.block_num)
    × (((process false).memory 4096).lock_nums i ≡ 0)
    × (acquire_block_to_write machine 64 32 (λ _. false) 10 5000 (process false) ≡ (
      record (process false) {
        memory = update (process false).memory 4096 (written i ((process false).memory 4096));
      },
      acquired i (some (4096 + block_buf_offset 64 32 (process false).segment.conf i)),
    ))
unfolding update_conf
acquire_writes_example =
    acquire_writes machine 64 32 (process false) 4096 process-IsOpen refl (λ _. false) 10 5000 2
      (omega arith) (omega arith) refl refl

abbrev count_in : ℕ → ℕ × Bool
count_in lock_num = (lock_num + 1, true)

read_past_the_end_example :
    (acquire_block_to_read machine 64 32 count_in 100 (process true)).1 ≡ acquired 100 none
unfolding remap open_only attach reset shared update_conf
read_past_the_end_example =
    read_past_the_end machine 64 32 count_in 100 (process true) refl refl (omega arith) refl
      (omega arith) refl
