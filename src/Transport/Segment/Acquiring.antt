-- ===== src/Transport/Segment/Acquiring.antt =====
-- What a writer and a reader get from an open segment.
use cyberrt_on_rpi.Base.{
  ℕ, ◌+◌, ◌-◌, ◌%◌, ◌≤◌, ◌<◌, ◌≡◌, inl, inr, refl, Bool, true, false, not, ◌||◌, some, leb,
  if◌then◌else◌, update, arith, ◌∙◌, Bool-cases, bit_and,
}
use cyberrt_on_rpi.Transport.ShmConf.{block_buf_offset}
use cyberrt_on_rpi.Transport.ShmConf.Layout.{block_num-mask, block_num_positive}
use cyberrt_on_rpi.Transport.Segment.{Process, at_pointer, shared, shared_at}
use cyberrt_on_rpi.Transport.Segment.Machine.{Shm}
use cyberrt_on_rpi.Transport.Segment.Opening.{IsOpen}
use cyberrt_on_rpi.Transport.Segment.Writing.{written, next_index-finds}
use cyberrt_on_rpi.Transport.Segment.Blocks.{
  acquire_block_to_write, acquire_ready, acquire_open, enlarge, remap_if_needed, initialised,
  hand_out, get_next_writable_block_index, next_index, acquire_block_to_read, read_ready, read_open,
  acquired, refused,
}

module _ {W : Type 0} (m : Shm W) (state_bytes block_bytes : ℕ) (s : Process W) (a : ℕ)
    (is_open : IsOpen m state_bytes block_bytes s a) where
  mask : (i : ℕ) → bit_and i (s.segment.conf.block_num - 1) ≡ i % s.segment.conf.block_num
  mask i = simp is_open.conf_lem (block_num-mask _ i)

  shared_lem : shared s ≡ s.memory a
  unfolding shared shared_at
  shared_lem = simp is_open.state_lem refl

  initialised_lem : initialised m state_bytes block_bytes s ≡ (s, true)
  unfolding initialised
  initialised_lem = simp is_open.init_lem refl

  module _ (stays : (s.memory a).need_remap ≡ false) where
    remap_if_needed_lem : remap_if_needed m state_bytes block_bytes s ≡ (s, true)
    unfolding remap_if_needed
    remap_if_needed_lem = simp (shared_lem, stays) refl

    enlarge_lem :
        (msg_size : ℕ)
        → msg_size ≤ s.segment.conf.ceiling_msg_size
        → enlarge m state_bytes block_bytes msg_size (s, true) ≡ some (s, true)
    unfolding enlarge
    enlarge_lem msg_size fits =
        let small : leb msg_size s.segment.conf.ceiling_msg_size ≡ true = ground arith in
        simp small refl

    acquire_ready_lem :
        (weak : ℕ → Bool) (fuel msg_size : ℕ)
        → msg_size ≤ s.segment.conf.ceiling_msg_size
        → acquire_block_to_write m state_bytes block_bytes weak fuel msg_size s
          ≡ hand_out m state_bytes block_bytes
              (get_next_writable_block_index weak s.segment.conf.block_num fuel (s.memory a))
              s
    unfolding acquire_block_to_write acquire_ready acquire_open
    acquire_ready_lem weak fuel msg_size fits =
        simp (initialised_lem, remap_if_needed_lem, enlarge_lem msg_size fits, shared_lem) refl

    acquire_write_lem :
        (weak : ℕ → Bool) (fuel msg_size : ℕ)
        → msg_size ≤ s.segment.conf.ceiling_msg_size
        → (i : ℕ) → i < s.segment.conf.block_num
        → next_index weak s.segment.conf.block_num fuel (s.memory a).wrote_num (s.memory a)
          ≡ some (i, written i (s.memory a))
        → acquire_block_to_write m state_bytes block_bytes weak fuel msg_size s ≡ (
          record s { memory = update s.memory a (written i (s.memory a)) },
          acquired i (some (a + block_buf_offset state_bytes block_bytes s.segment.conf i)),
        )
    unfolding hand_out get_next_writable_block_index at_pointer
    acquire_write_lem weak fuel msg_size fits i below found =
        acquire_ready_lem weak fuel msg_size fits
        ∙ simp (found, is_open.state_lem, is_open.addrs_lem i below) refl

    -- A writer whose message is not larger than the segment's messages so far: if a block that the search
    -- comes to is free and its exchange succeeds, the writer gets a block that was free, locked for it
    -- alone, and its buffer's address; nothing else changes but the count of the blocks written.
    pub acquire_writes :
        (weak : ℕ → Bool) (fuel msg_size k : ℕ)
        → msg_size ≤ s.segment.conf.ceiling_msg_size
        → k < fuel
        → (s.memory a).lock_nums (((s.memory a).wrote_num + k) % s.segment.conf.block_num) ≡ 0
        → weak (fuel - 1 - k) ≡ false
        → (i : ℕ) × (i < s.segment.conf.block_num)
          × ((s.memory a).lock_nums i ≡ 0)
          × (acquire_block_to_write m state_bytes block_bytes weak fuel msg_size s ≡ (
            record s { memory = update s.memory a (written i (s.memory a)) },
            acquired i (some (a + block_buf_offset state_bytes block_bytes s.segment.conf i)),
          ))
    acquire_writes weak fuel msg_size k fits lt free strong =
        let positive : 0 < s.segment.conf.block_num =
          simp is_open.conf_lem (block_num_positive _) in
        let (i, below, was_free, found) =
          next_index-finds s.segment.conf.block_num positive mask weak (s.memory a) fuel
            (s.memory a).wrote_num k lt free strong in
        (i, below, was_free, acquire_write_lem weak fuel msg_size fits i below found)

    read_ready_lem :
        (lock : ℕ → ℕ × Bool) (index : ℕ)
        → acquire_block_to_read m state_bytes block_bytes lock index s ≡ (
            if leb s.segment.conf.block_num index
            then (s, refused)
            else read_open m state_bytes block_bytes lock index (s, true))
    unfolding acquire_block_to_read read_ready
    read_ready_lem lock index = simp (initialised_lem, remap_if_needed_lem) refl

    read_open_lem :
        (lock : ℕ → ℕ × Bool) (index : ℕ)
        → index < s.segment.conf.block_num
        → let (lock_num, ok) = lock ((s.memory a).lock_nums index) in
          let state = record (s.memory a) {
            lock_nums = update (s.memory a).lock_nums index lock_num;
          } in
          read_open m state_bytes block_bytes lock index (s, true) ≡ (
            if not ok then (s, refused) else (
              record s { memory = update s.memory a state },
              acquired index
                  (some (a + block_buf_offset state_bytes block_bytes s.segment.conf index)),
            ))
    unfolding read_open at_pointer
    read_open_lem lock index below = elim (Bool-cases (lock ((s.memory a).lock_nums index)).1) [
      | inl ok ↦ simp (shared_lem, ok, is_open.state_lem, is_open.addrs_lem index below) refl
      | inr taken ↦ simp (shared_lem, taken) refl
    ]

    -- A reader gets the block that it asks for if there is one of that number and its lock can be taken, and
    -- otherwise nothing changes.
    pub acquire_reads :
        (lock : ℕ → ℕ × Bool) (index : ℕ)
        → let (lock_num, ok) = lock ((s.memory a).lock_nums index) in
          let state = record (s.memory a) {
            lock_nums = update (s.memory a).lock_nums index lock_num;
          } in
          acquire_block_to_read m state_bytes block_bytes lock index s ≡ (
            if leb s.segment.conf.block_num index || not ok then (s, refused) else (
              record s { memory = update s.memory a state },
              acquired index
                  (some (a + block_buf_offset state_bytes block_bytes s.segment.conf index)),
            ))
    acquire_reads lock index = elim (Bool-cases (leb s.segment.conf.block_num index)) [
      | inl beyond ↦ read_ready_lem lock index ∙ rw beyond refl
      | inr below ↦
          read_ready_lem lock index ∙ simp (below) (read_open_lem lock index (ground arith))
    ]
