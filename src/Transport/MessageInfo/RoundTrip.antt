-- ===== src/Transport/MessageInfo/RoundTrip.antt =====
-- A header comes back from its bytes, also from those in front of a buffer.
use cyberrt_on_rpi.Base.{
  ℕ, ◌≤◌, ◌<◌, ◌≡◌, ◌^◌, refl, true, false, some, List, [], ◌++◌, length, drop, arith, ◌∙◌, sym, ap,
  length-append, append-nil, ==_refl, ltb,
}
use cyberrt_on_rpi.Base.Bytes.{
  memcpy, bytes_of, memcpy-append, drop-append_behind, length-bytes_of, word_of-bytes_of,
  same_bytes_refl,
}
use cyberrt_on_rpi.Transport.MessageInfo.{
  MessageInfo, set_data, same_identity, same_info, serialize_to, serialize_into, deserialize_from,
  k_size,
}

-- Identities have eight bytes, and the number is a uint64_t.
pub record IsInRange (info : MessageInfo) : Type 0 where
  pub sender_lem : length info.sender_id.bytes ≡ 8
  pub seq_in : info.seq_num < 2 ^ 64
  pub spare_lem : length info.spare_id.bytes ≡ 8

memcpy_whole : (bs : List ℕ) → length bs ≡ 8 → memcpy 8 bs ≡ bs
memcpy_whole bs h = ap (memcpy 8) (sym (append-nil bs)) ∙ memcpy-append 8 bs [] h

module _ (info : MessageInfo) (h : IsInRange info) where
  pub serialize_to_lem :
      serialize_to info ≡ info.sender_id.bytes ++ (bytes_of 8 info.seq_num ++ info.spare_id.bytes)
  unfolding serialize_to
  serialize_to_lem =
      simp
        (
          memcpy_whole info.sender_id.bytes h.sender_lem,
          memcpy_whole info.spare_id.bytes h.spare_lem,
        )
        refl

  len_lem : length (info.sender_id.bytes ++ (bytes_of 8 info.seq_num ++ info.spare_id.bytes)) ≡ 24
  len_lem = omega (
    arith,
    length-append info.sender_id.bytes (bytes_of 8 info.seq_num ++ info.spare_id.bytes),
    length-append (bytes_of 8 info.seq_num) info.spare_id.bytes,
    length-bytes_of 8 info.seq_num,
    h.sender_lem,
    h.spare_lem,
  )

  -- The identities that are read back are the sender's and the spare one's bytes, with their hash values.
  pub deserialize_from-serialize_to :
      (hash : List ℕ → ℕ)
      → deserialize_from hash (serialize_to info)
        ≡ some (record {
          sender_id = record {
            bytes = info.sender_id.bytes;
            hash_value = hash info.sender_id.bytes;
          };
          seq_num = info.seq_num;
          spare_id = record { bytes = info.spare_id.bytes; hash_value = hash info.spare_id.bytes };
        })
  unfolding deserialize_from set_data
  deserialize_from-serialize_to hash =
      let sender = info.sender_id.bytes in
      let seq = bytes_of 8 info.seq_num in
      let spare = info.spare_id.bytes in
      let seq_len = length-bytes_of 8 info.seq_num in
      ap (deserialize_from hash) serialize_to_lem
      ∙ simp
          (
            len_lem,
            memcpy-append 8 sender (seq ++ spare) h.sender_lem,
            drop-append_behind 8 sender (seq ++ spare) h.sender_lem,
            memcpy-append 8 seq spare seq_len,
            drop-append_behind 8 seq spare seq_len,
            memcpy_whole spare h.spare_lem,
            word_of-bytes_of 8 info.seq_num h.seq_in,
          )
          refl

  -- A header is read back equal to what was serialized, by the class's own comparison (its hash values are
  -- worked out anew), from the string, and from the front of any buffer of at least 24 bytes.
  pub round_trip :
      (hash : List ℕ → ℕ) (dst : List ℕ) (len : ℕ)
      → k_size ≤ len
      → (info' : MessageInfo) × (out : List ℕ) × (deserialize_from hash (serialize_to info)
          ≡ some info')
        × (serialize_into info dst len ≡ some out)
        × (deserialize_from hash (memcpy k_size out) ≡ some info')
        × (same_info info info' ≡ true)
  unfolding same_info same_identity serialize_into
  round_trip hash dst len roomy =
      let enough : ltb len k_size ≡ false = ground arith in
      let back = deserialize_from-serialize_to hash in
      let front : memcpy k_size (serialize_to info ++ drop k_size dst) ≡ serialize_to info =
        memcpy-append k_size (serialize_to info) (drop k_size dst)
          (ap length serialize_to_lem ∙ len_lem) in
      (
        _,
        serialize_to info ++ drop k_size dst,
        back,
        rw enough refl,
        ap (deserialize_from hash) front ∙ back,
        simp
            (
              same_bytes_refl info.sender_id.bytes,
              ==_refl info.seq_num,
              same_bytes_refl info.spare_id.bytes,
            )
            refl,
      )
