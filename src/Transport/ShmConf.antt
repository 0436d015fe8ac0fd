-- ===== src/Transport/ShmConf.antt =====
-- cyber/transport/shm/shm_conf.cc and shm_conf.h, `class ShmConf`: the sizes of a channel's shared
-- memory, which follow from the size of its largest message.
pub mod Layout
use cyberrt_on_rpi.Base.{ℕ, ◌+◌, ◌*◌, ◌^◌, ◌%◌, leb, ◌==◌, if◌then◌else◌, add64}

abbrev pub extra_size : ℕ
extra_size = 1024 * 4

abbrev pub state_size : ℕ
state_size = 1024

abbrev pub block_size : ℕ
block_size = 1024

abbrev pub message_info_size : ℕ
message_info_size = 1024

abbrev pub message_size_16k : ℕ
message_size_16k = 1024 * 16

abbrev pub message_size_128k : ℕ
message_size_128k = 1024 * 128

abbrev pub message_size_1m : ℕ
message_size_1m = 1024 * 1024

abbrev pub message_size_8m : ℕ
message_size_8m = 1024 * 1024 * 8

abbrev pub message_size_16m : ℕ
message_size_16m = 1024 * 1024 * 16

abbrev pub message_size_more : ℕ
message_size_more = 1024 * 1024 * 32

unfoldable pub get_ceiling_message_size : ℕ → ℕ
get_ceiling_message_size real_msg_size =
    if leb real_msg_size message_size_16k
    then message_size_16k
    else if leb real_msg_size message_size_128k
    then message_size_128k
    else if leb real_msg_size message_size_1m
    then message_size_1m
    else if leb real_msg_size message_size_8m
    then message_size_8m
    else if leb real_msg_size message_size_16m
    then message_size_16m
    else message_size_more

unfoldable pub get_block_buf_size : ℕ → ℕ
get_block_buf_size ceiling_msg_size = add64 ceiling_msg_size message_info_size

-- An unknown size is logged and gives no blocks.
unfoldable pub get_block_num : ℕ → ℕ
get_block_num ceiling_msg_size =
    if ceiling_msg_size == message_size_16k
    then 512
    else if ceiling_msg_size == message_size_128k
    then 128
    else if ceiling_msg_size == message_size_1m
    then 64
    else if ceiling_msg_size == message_size_8m
    then 32
    else if ceiling_msg_size == message_size_16m
    then 16
    else if ceiling_msg_size == message_size_more
    then 8
    else 0

pub record ShmConf : Type 0 where
  pub ceiling_msg_size : ℕ
  pub block_buf_size : ℕ
  pub block_num : ℕ
  pub managed_shm_size : ℕ

-- `Update` sets every field; the constructors call it.
unfoldable pub update_conf : ℕ → ShmConf
unfolding get_ceiling_message_size get_block_buf_size get_block_num
update_conf real_msg_size =
    let ceiling = get_ceiling_message_size real_msg_size in
    let buf_size = get_block_buf_size ceiling in
    let num = get_block_num ceiling in
    record {
      ceiling_msg_size = ceiling;
      block_buf_size = buf_size;
      block_num = num;
      managed_shm_size = (extra_size + state_size + (block_size + buf_size) * num) % 2 ^ 64;
    }

-- Where `OpenOrCreate` and `OpenOnly` of segment.cc put the buffer of the i-th block, from the start of
-- the memory; the first two are `sizeof(State)` and `sizeof(Block)`.
unfoldable pub block_buf_offset : ℕ → ℕ → ShmConf → ℕ → ℕ
block_buf_offset state_bytes block_bytes conf i =
    state_bytes + conf.block_num * block_bytes + i * conf.block_buf_size
