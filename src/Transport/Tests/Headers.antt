-- ===== src/Transport/Tests/Headers.antt =====
-- The theorems on headers, notifications and histories at inputs that meet their hypotheses.
use cyberrt_on_rpi.Base.{
  ℕ, ◌+◌, ◌^◌, ◌<◌, ◌≡◌, refl, true, false, none, some, List, [], ◌∷◌, ◌++◌, arith, if◌then◌else◌,
  ◌==◌, ◌||◌, ltb, length, replicate, length-replicate,
}
use cyberrt_on_rpi.Base.Bytes.{memcpy, bytes_of, word_of}
use cyberrt_on_rpi.Transport.ReadableInfo.{ReadableInfo}
use cyberrt_on_rpi.Transport.ReadableInfo
use cyberrt_on_rpi.Transport.MessageInfo
use cyberrt_on_rpi.Transport.MessageInfo.{MessageInfo, same_info, serialize_into}
use cyberrt_on_rpi.Transport.MessageInfo.RoundTrip.{round_trip}
use cyberrt_on_rpi.Transport.ConditionNotifier.{init_indicator, notify_all, look, listen}
use cyberrt_on_rpi.Transport.ConditionNotifier.Ring.{Rings, init-Rings, notify_all-Rings, look_lem}
use cyberrt_on_rpi.Transport.ConditionNotifier.Lapped.{observed, sent, lapped_never_listens}
use cyberrt_on_rpi.Transport.History.{
  History, Op, enabling, adding, clearing, disabling, apply_all, apply,
}
use cyberrt_on_rpi.Transport.History.Depth.{last_of, recorded, msgs-apply_all}

abbrev info : ReadableInfo
info = record { host_id = 258; block_index = 5; channel_id = 77 }

info_bytes :
    ReadableInfo.serialize_to info
    ≡ 2 ∷ 1 ∷ 0 ∷ 0 ∷ 0 ∷ 0 ∷ 0 ∷ 0 ∷ 5 ∷ 0 ∷ 0 ∷ 0 ∷ 77 ∷ 0 ∷ 0 ∷ 0 ∷ 0 ∷ 0 ∷ 0 ∷ 0 ∷ []
unfolding ReadableInfo.serialize_to bytes_of
info_bytes = refl

abbrev header : MessageInfo
header = record {
  sender_id = record { bytes = 1 ∷ 2 ∷ 3 ∷ 4 ∷ 5 ∷ 6 ∷ 7 ∷ 8 ∷ []; hash_value = 36 };
  seq_num = 1000;
  spare_id = record { bytes = replicate 8 0; hash_value = 0 };
}

round_trip_example :
    (info' : MessageInfo) × (out : List ℕ) × (MessageInfo.deserialize_from word_of
        (MessageInfo.serialize_to header)
      ≡ some info')
    × (serialize_into header (replicate 30 9) 30 ≡ some out)
    × (MessageInfo.deserialize_from word_of (memcpy 24 out) ≡ some info')
    × (same_info header info' ≡ true)
round_trip_example =
    round_trip header (record { sender_lem = refl; seq_in = omega arith; spare_lem = refl }) word_of
      (replicate 30 9) 30 (omega arith)

abbrev many : List ReadableInfo
many = replicate 5000 info

many_few : 0 + length many < 2 ^ 64
many_few = omega (arith, length-replicate 5000 info)

notify_all-Rings_example : Rings (notify_all (info ∷ []) init_indicator) ([] ++ (info ∷ []))
notify_all-Rings_example = notify_all-Rings (info ∷ []) init_indicator [] init-Rings (omega arith)

look_lem_example :
    look (notify_all (info ∷ []) init_indicator) 0
    ≡ (if 0 == 1 || ltb 4096 1 then none else some (info, 1))
look_lem_example =
    look_lem (notify_all (info ∷ []) init_indicator) (info ∷ []) 0
      (notify_all-Rings (info ∷ []) init_indicator [] init-Rings (omega arith)) (omega arith)
      (omega arith)

many-Rings : Rings (notify_all many init_indicator) many
many-Rings = notify_all-Rings many init_indicator [] init-Rings many_few

lapped_never_listens_example :
    listen (observed ((info ∷ [], false) ∷ ([], false) ∷ []) (notify_all many init_indicator)) 10 0
    ≡ none
unfolding sent
lapped_never_listens_example =
    lapped_never_listens ((info ∷ [], false) ∷ ([], false) ∷ []) 10 0
      (notify_all many init_indicator) many many-Rings (omega (arith, length-replicate 5000 info))
      (omega (arith, length-replicate 5000 info))

abbrev ops : List (Op ℕ)
ops =
    enabling
    ∷ adding 1
    ∷ adding 2
    ∷ clearing
    ∷ adding 3
    ∷ adding 4
    ∷ adding 5
    ∷ disabling
    ∷ adding 6
    ∷ []

abbrev empty : History ℕ
empty = record { enabled = false; depth = 2; max_depth = 1000; msgs = [] }

ops_run : (apply_all ops empty).msgs ≡ 4 ∷ 5 ∷ []
unfolding apply_all apply
ops_run = refl

msgs-apply_all_example : (apply_all ops empty).msgs ≡ last_of 2 (recorded ops false [])
unfolding last_of
msgs-apply_all_example = msgs-apply_all ops empty [] refl
