-- ===== src/Transport/ReadableInfo/RoundTrip.antt =====
-- A notification comes back from its bytes, and the bytes from it.
use cyberrt_on_rpi.Base.{
  ℕ, ◌<◌, ◌≡◌, ◌≢◌, ◌^◌, refl, true, none, some, List, [], append-nil, ◌++◌, length, drop, arith,
  ◌∙◌, sym, ap, length-append, length-drop, drop_of_length-le,
}
use cyberrt_on_rpi.Base.Bytes.{
  memcpy, bytes_of, word_of, all_bytes, memcpy-append, drop-append_behind, bytes_of-memcpy,
  length-bytes_of, word_of-bytes_of, all_bytes-drop,
}
use cyberrt_on_rpi.Transport.ReadableInfo.{ReadableInfo, serialize_to, deserialize_from, k_size}

-- The fields are in the ranges of uint64_t, uint32_t and uint64_t.
pub record IsInRange (info : ReadableInfo) : Type 0 where
  pub host_id_in : info.host_id < 2 ^ 64
  pub block_index_in : info.block_index < 2 ^ 32
  pub channel_id_in : info.channel_id < 2 ^ 64

length-serialize_to : (info : ReadableInfo) → length (serialize_to info) ≡ k_size
unfolding serialize_to
length-serialize_to info = omega (
  arith,
  length-append (bytes_of 8 info.host_id)
      (bytes_of 4 info.block_index ++ bytes_of 8 info.channel_id),
  length-append (bytes_of 4 info.block_index) (bytes_of 8 info.channel_id),
  length-bytes_of 8 info.host_id,
  length-bytes_of 4 info.block_index,
  length-bytes_of 8 info.channel_id,
)

-- What was serialized is read back, for fields in the ranges of their types.
pub deserialize_from-serialize_to :
    (info : ReadableInfo) → IsInRange info → deserialize_from (serialize_to info) ≡ some info
unfolding deserialize_from serialize_to
deserialize_from-serialize_to info h =
    let host = bytes_of 8 info.host_id in
    let block = bytes_of 4 info.block_index in
    let channel = bytes_of 8 info.channel_id in
    let host_len = length-bytes_of 8 info.host_id in
    let block_len = length-bytes_of 4 info.block_index in
    let channel_len = length-bytes_of 8 info.channel_id in
    let whole : memcpy 8 channel ≡ channel =
      ap (memcpy 8) (sym (append-nil channel)) ∙ memcpy-append 8 channel [] channel_len in
    let len : length (host ++ (block ++ channel)) ≡ 20 = length-serialize_to info in
    rw
      (
        len,
        memcpy-append 8 host (block ++ channel) host_len,
        drop-append_behind 8 host (block ++ channel) host_len,
        memcpy-append 4 block channel block_len,
        drop-append_behind 4 block channel block_len,
        whole,
        word_of-bytes_of 8 info.host_id h.host_id_in,
        word_of-bytes_of 4 info.block_index h.block_index_in,
        word_of-bytes_of 8 info.channel_id h.channel_id_in,
      )
      refl

-- Any twenty bytes are read, and written again the same; anything that is not twenty bytes long is refused.
pub serialize_to-deserialize_from :
    (src : List ℕ)
    → length src ≡ k_size
    → all_bytes src ≡ true
    → (info : ReadableInfo) × (deserialize_from src ≡ some info) × (serialize_to info ≡ src)
unfolding deserialize_from serialize_to
serialize_to-deserialize_from src len all =
    let behind = drop 8 src in
    let last = drop 4 behind in
    let all' = all_bytes-drop 8 src all in
    let all'' = all_bytes-drop 4 behind all' in
    let behind_len : length behind ≡ 12 = omega (arith, len, length-drop 8 src) in
    let last_len : length last ≡ 8 = omega (arith, behind_len, length-drop 4 behind) in
    let nothing : drop 8 last ≡ [] = drop_of_length-le 8 last (omega (arith, last_len)) in
    let channel : bytes_of 8 (word_of (memcpy 8 last)) ≡ last =
      sym (append-nil _)
      ∙ ap (◌++◌ (bytes_of 8 (word_of (memcpy 8 last)))) (sym nothing)
      ∙ bytes_of-memcpy 8 last (omega (arith, last_len)) all'' in
    let block : bytes_of 4 (word_of (memcpy 4 behind)) ++ last ≡ behind =
      bytes_of-memcpy 4 behind (omega (arith, behind_len)) all' in
    let host : bytes_of 8 (word_of (memcpy 8 src)) ++ behind ≡ src =
      bytes_of-memcpy 8 src (omega (arith, len)) all in
    let info : ReadableInfo = record {
      host_id = word_of (memcpy 8 src);
      block_index = word_of (memcpy 4 behind);
      channel_id = word_of (memcpy 8 last);
    } in
    (info, rw len refl, rw (channel, block, host) refl)

pub deserialize_from_refused : (src : List ℕ) → length src ≢ k_size → deserialize_from src ≡ none
unfolding deserialize_from
deserialize_from_refused src h = ground arith
