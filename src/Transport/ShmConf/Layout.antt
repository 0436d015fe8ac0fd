-- ===== src/Transport/ShmConf/Layout.antt =====
-- What a configuration promises: room for the message, blocks that do not overlap and lie in the memory
-- that is asked for, and the same layout for every process that opens the channel.
use cyberrt_on_rpi.Base.{
  ℕ, ◌+◌, ◌*◌, ◌≤◌, ◌<◌, ◌-◌, ◌%◌, suc, bit_and, ones, and_ones, ◌≡◌, leb, if◌then◌else◌, arith,
}
use cyberrt_on_rpi.Transport.ShmConf.{
  get_ceiling_message_size, get_block_num, update_conf, message_size_16k, message_size_128k,
  message_size_1m, message_size_8m, message_size_16m, message_size_more, message_info_size,
  state_size, block_size, block_buf_offset,
}

-- A process that knows only the ceiling, from the shared state, works out the same sizes.
pub update_conf-ceiling : (n : ℕ) → update_conf (get_ceiling_message_size n) ≡ update_conf n
unfolding update_conf get_ceiling_message_size
update_conf-ceiling n = ground arith

-- A message of up to 32 MiB fits into a block, and its header too.
pub room : (n : ℕ) → n ≤ message_size_more → n + message_info_size ≤ (update_conf n).block_buf_size
unfolding update_conf get_ceiling_message_size
room n h = ground arith

-- A larger message gets blocks that are too small for it.
pub no_room :
    (n : ℕ) → message_size_more + message_info_size < n → (update_conf n).block_buf_size < n
unfolding update_conf get_ceiling_message_size
no_room n h = ground arith

module _ (state_bytes block_bytes n : ℕ) (state_in : state_bytes ≤ state_size)
    (block_in : block_bytes ≤ block_size) where
  -- Every block's buffer lies behind the states of all blocks and within the memory that is asked for, and
  -- it ends before the next one starts. (The objects State and Block are at most 1024 bytes large.)
  pub blocks_fit :
      (i j : ℕ)
      → i < j
      → j < (update_conf n).block_num
      → (state_bytes + (update_conf n).block_num * block_bytes
          ≤ block_buf_offset state_bytes block_bytes (update_conf n) i)
        × (block_buf_offset state_bytes block_bytes (update_conf n) i
              + (update_conf n).block_buf_size
            ≤ block_buf_offset state_bytes block_bytes (update_conf n) j)
        × (block_buf_offset state_bytes block_bytes (update_conf n) j
              + (update_conf n).block_buf_size
            ≤ (update_conf n).managed_shm_size)
  unfolding update_conf block_buf_offset
  blocks_fit i j below last = ground arith

-- The number of blocks is a power of 2, so its predecessor masks an index.
abbrev log_block_num : ℕ → ℕ
log_block_num n =
    if leb n message_size_16k
    then 9
    else if leb n message_size_128k
    then 7
    else if leb n message_size_1m
    then 6
    else if leb n message_size_8m
    then 5
    else if leb n message_size_16m
    then 4
    else 3

block_num_lem : (n : ℕ) → (update_conf n).block_num ≡ suc (ones (log_block_num n))
unfolding update_conf get_ceiling_message_size get_block_num
block_num_lem n = ground arith

pub block_num-mask :
    (n a : ℕ) → bit_and a ((update_conf n).block_num - 1) ≡ a % (update_conf n).block_num
block_num-mask n a =
    let less : suc (ones (log_block_num n)) - 1 ≡ ones (log_block_num n) = omega arith in
    rw (block_num_lem n, less) (and_ones (log_block_num n) a)

pub block_num_positive : (n : ℕ) → 0 < (update_conf n).block_num
block_num_positive n = omega (arith, block_num_lem n)
