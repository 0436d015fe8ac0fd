-- ===== src/Transport/ReadableInfo.antt =====
-- cyber/transport/shm/readable_info.cc, `class ReadableInfo`: what a notification says of a block, and its
-- bytes.
pub mod RoundTrip
use cyberrt_on_rpi.Base.{
  ℕ, ◌+◌, ◌*◌, Bool, Option, none, some, List, ◌++◌, ◌==◌, if◌then◌else◌, length, drop,
}
use cyberrt_on_rpi.Base.Bytes.{memcpy, bytes_of, word_of}

pub record ReadableInfo : Type 0 where
  pub host_id : ℕ
  pub block_index : ℕ
  pub channel_id : ℕ

abbrev pub k_size : ℕ
k_size = 8 * 2 + 4

unfoldable pub init : ReadableInfo
init = record { host_id = 0; block_index = 0; channel_id = 0 }

-- The machine is little-endian. The string that is written to is never null in the model.
unfoldable pub serialize_to : ReadableInfo → List ℕ
serialize_to info =
    bytes_of 8 info.host_id ++ (bytes_of 4 info.block_index ++ bytes_of 8 info.channel_id)

-- `none` is the result false, which leaves the object as it was.
unfoldable pub deserialize_from : List ℕ → Option ReadableInfo
deserialize_from src =
    if length src == k_size
    then some (record {
      host_id = word_of (memcpy 8 src);
      block_index = word_of (memcpy 4 (drop 8 src));
      channel_id = word_of (memcpy 8 (drop 4 (drop 8 src)));
    })
    else none
