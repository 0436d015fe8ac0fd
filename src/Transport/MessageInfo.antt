-- ===== src/Transport/MessageInfo.antt =====
-- cyber/transport/message/message_info.cc and cyber/transport/common/identity.cc: the header of a message,
-- with the identity of its sender, and its bytes.
pub mod RoundTrip
use cyberrt_on_rpi.Base.{
  ℕ, ◌+◌, ◌*◌, Bool, true, false, not, ◌&&◌, Option, none, some, List, [], ◌∷◌, ◌++◌, ◌==◌, ltb,
  if◌then◌else◌, length, drop, replicate,
}
use cyberrt_on_rpi.Base.Bytes.{memcpy, bytes_of, word_of, same_bytes}

abbrev pub id_size : ℕ
id_size = 8

-- `hash_value_str_` is the decimal text of `hash_value`, and has no field.
pub record Identity : Type 0 where
  pub bytes : List ℕ
  pub hash_value : ℕ

-- `hash` is `common::Hash` on the bytes.
module _ (hash : List ℕ → ℕ) where
  -- `Identity(false)`.
  unfoldable pub empty_identity : Identity
  empty_identity = record { bytes = replicate id_size 0; hash_value = 0 }

  unfoldable pub set_data : List ℕ → Identity
  set_data src = record { bytes = memcpy id_size src; hash_value = hash (memcpy id_size src) }

unfoldable pub same_identity : Identity → Identity → Bool
same_identity a b = same_bytes a.bytes b.bytes

pub record MessageInfo : Type 0 where
  pub sender_id : Identity
  pub seq_num : ℕ
  pub spare_id : Identity

abbrev pub k_size : ℕ
k_size = 2 * id_size + 8

unfoldable pub same_info : MessageInfo → MessageInfo → Bool
same_info a b =
    if not (same_identity a.sender_id b.sender_id)
    then false
    else if not (a.seq_num == b.seq_num)
    then false
    else if not (same_identity a.spare_id b.spare_id)
    then false
    else true

-- The bytes that both `SerializeTo` write.
unfoldable pub serialize_to : MessageInfo → List ℕ
serialize_to info =
    memcpy id_size info.sender_id.bytes
    ++ (bytes_of 8 info.seq_num ++ memcpy id_size info.spare_id.bytes)

-- `SerializeTo(char*, len)` on a buffer: its first bytes are written over, unless it is too short.
unfoldable pub serialize_into : MessageInfo → List ℕ → ℕ → Option (List ℕ)
serialize_into info dst len =
    if ltb len k_size then none else some (serialize_to info ++ drop k_size dst)

unfoldable pub deserialize_from : (List ℕ → ℕ) → List ℕ → Option MessageInfo
deserialize_from hash src =
    if length src == k_size
    then some (record {
      sender_id = set_data hash src;
      seq_num = word_of (memcpy 8 (drop id_size src));
      spare_id = set_data hash (drop 8 (drop id_size src));
    })
    else none
