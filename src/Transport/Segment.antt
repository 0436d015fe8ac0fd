-- ===== src/Transport/Segment.antt =====
-- cyber/transport/shm/segment.cc, segment.h and state.h, `class Segment`: how a process opens the shared
-- memory of a channel, makes it anew for larger messages, and takes blocks from it.
pub mod Machine
pub mod Blocks
pub mod Opening
pub mod Renewing
pub mod Writing
pub mod Remapping
pub mod Acquiring
use cyberrt_on_rpi.Base.{
  ℕ, zero, suc, ◌+◌, ◌-◌, ◌*◌, Bool, true, false, Option, none, some, ◌==◌, ltb, leb, if◌then◌else◌,
  update, add32, bit_and,
}
use cyberrt_on_rpi.Transport.ShmConf.{ShmConf, update_conf, block_buf_offset}
use cyberrt_on_rpi.Transport.Block.{
  Thread, writing, reading, try_lock_for_write, release_write_lock, release_read_lock, is_negative,
}
use cyberrt_on_rpi.Transport.Segment.Machine.{
  Shared, Got, got, invalid, exists, failed, Shm, Pointer, nullptr, bad, address, Mode, read_only,
  write_only, init_shared, increase_reference_counts,
}

pub record Segment : Type 0 where
  pub init : Bool
  pub id : ℕ
  pub mode : Mode
  pub conf : ShmConf
  pub state : Pointer
  pub blocks : Pointer
  pub managed_shm : Pointer
  pub block_buf_addrs : ℕ → Option ℕ

-- A segment in its process: `os` is the operating system, `memory` what stands at an address that
-- `shmat` gave.
pub record Process (W : Type 0) : Type 0 where
  pub segment : Segment
  pub os : W
  pub memory : ℕ → Shared

-- `Segment::Segment`.
unfoldable pub init_segment : ℕ → Mode → Segment
init_segment channel_id mode = record {
  init = false;
  id = channel_id;
  mode = mode;
  conf = update_conf (1024 * 16);
  state = nullptr;
  blocks = nullptr;
  managed_shm = nullptr;
  block_buf_addrs = λ _. none;
}

-- The loop that notes the address of each block's buffer: `n` blocks from the i-th on. The objects State
-- and Block are `state_bytes` and `block_bytes` large.
unfoldable pub fill_addrs : ℕ → ℕ → ShmConf → ℕ → ℕ → ℕ → (ℕ → Option ℕ) → ℕ → Option ℕ
fill_addrs state_bytes block_bytes conf base i zero addrs = addrs
fill_addrs state_bytes block_bytes conf base i (suc n) addrs =
    fill_addrs state_bytes block_bytes conf base (i + 1) n
      (update addrs i (some (base + block_buf_offset state_bytes block_bytes conf i)))

unfoldable pub shared_at : Pointer → (ℕ → Shared) → Shared
unfolding init_shared
shared_at (address a) memory = memory a
shared_at p memory = init_shared 0

module _ {W : Type 0} where
  -- A change of what stands at a pointer. (Through a null pointer nothing is changed here: where the code
  -- might do that, the model says that it crashes.)
  unfoldable pub at_pointer : (Shared → Shared) → Pointer → Process W → Process W
  at_pointer f (address a) s = record s { memory = update s.memory a (f (s.memory a)) }
  at_pointer f p s = s

  -- What `state_` points to.
  unfoldable pub shared : Process W → Shared
  unfolding shared_at
  shared s = shared_at s.segment.state s.memory

-- What a loop of `shmget` comes to.
pub data Found : Type 0 where
  fresh : ℕ → Found
  existing : Found
  missing : Found

module _ {W : Type 0} (m : Shm W) where
  -- `shmdt` of the pointer that is no address fails, and does nothing.
  unfoldable pub detach : Pointer → W → W
  detach (address a) w = m.shmdt a w
  detach p w = w

  unfoldable pub reset : Process W → Process W
  unfolding detach
  reset s = record s {
    os = detach s.segment.managed_shm s.os;
    segment = record s.segment {
      state = nullptr;
      blocks = nullptr;
      managed_shm = nullptr;
      block_buf_addrs = λ _. none;
    };
  }

  unfoldable pub remove_got : Got → W → W × Bool
  remove_got (got shmid) w = m.remove shmid w
  remove_got g w = (w, false)

  unfoldable pub remove : Process W → Process W × Bool
  unfolding remove_got
  remove s =
      let (w, g) = m.shmget s.segment.id 0 false s.os in
      let (w', ok) = remove_got g w in (record s { os = w' }, ok)

  -- A round of the loop of `OpenOrCreate`; `again` is what follows when the size was invalid.
  unfoldable pub create_got : Got → (Process W → Process W × Found) → Process W → Process W × Found
  unfolding reset remove
  create_got (got shmid) again s = (s, fresh shmid)
  create_got invalid again s = again (remove (reset s)).0
  create_got exists again s = (s, existing)
  create_got failed again s = (s, missing)

  -- The loop, with the rounds that are left.
  unfoldable pub create : ℕ → Process W → Process W × Found
  unfolding create_got
  create zero s = (s, missing)
  create (suc retries) s =
      let (w, g) = m.shmget s.segment.id s.segment.conf.managed_shm_size true s.os in
      create_got g (create retries) (record s { os = w })

module _ {W : Type 0} (m : Shm W) (state_bytes block_bytes : ℕ) where
  -- Behind `shmat`, with the state at the address `a`, both ways of opening end the same: the sizes follow
  -- from the state's, the buffers' addresses are noted, and the state counts one more process. (The tests
  -- for null behind a placement new or a cast never succeed.)
  unfoldable pub attach : ℕ → Process W → Process W
  unfolding fill_addrs increase_reference_counts at_pointer
  attach a s =
      let conf = update_conf (s.memory a).ceiling_msg_size in
      at_pointer increase_reference_counts (address a) (record s {
        segment = record s.segment {
          init = true;
          conf = conf;
          state = address a;
          blocks = address a;
          managed_shm = address a;
          block_buf_addrs =
              fill_addrs state_bytes block_bytes conf a 0 conf.block_num s.segment.block_buf_addrs;
        };
      })

  unfoldable pub attach_failed : Process W → Process W
  attach_failed s = record s { segment = record s.segment { managed_shm = bad } }

  -- What `shmat` gave, where the memory was there, and where it was created.
  unfoldable pub attach_found : Option ℕ → Process W → Process W × Bool
  unfolding attach attach_failed
  attach_found (some a) s = (attach a s, true)
  attach_found none s = (attach_failed s, false)

  unfoldable pub open_got : Got → Process W → Process W × Bool
  unfolding attach_found
  open_got (got shmid) s = let (w, o) = m.shmat shmid s.os in attach_found o (record s { os = w })
  open_got g s = (s, false)

  unfoldable pub open_only : Process W → Process W × Bool
  unfolding open_got
  open_only s =
      let (w, g) = m.shmget s.segment.id 0 false s.os in
      if s.segment.init then (s, true) else open_got g (record s { os = w })

  -- A new state is constructed at the address; the blocks are free.
  unfoldable pub construct : ℕ → Process W → Process W
  unfolding init_shared
  construct a s = record s {
    memory = update s.memory a (init_shared s.segment.conf.ceiling_msg_size);
  }

  unfoldable pub attach_fresh : ℕ → Option ℕ → Process W → Process W × Bool
  unfolding attach attach_failed construct
  attach_fresh shmid (some a) s = (attach a (construct a s), true)
  attach_fresh shmid none s = (attach_failed (record s { os = (m.remove shmid s.os).0 }), false)

  unfoldable pub after_create : Process W × Found → Process W × Bool
  unfolding open_only attach_fresh
  after_create (s, fresh shmid) =
      let (w, o) = m.shmat shmid s.os in attach_fresh shmid o (record s { os = w })
  after_create (s, existing) = open_only s
  after_create (s, missing) = (s, false)

  unfoldable pub open_or_create : Process W → Process W × Bool
  unfolding after_create create
  open_or_create s = if s.segment.init then (s, true) else after_create (create m 2 s)
