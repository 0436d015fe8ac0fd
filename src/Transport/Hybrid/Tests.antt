-- ===== src/Transport/Hybrid/Tests.antt =====
-- A writer with readers in its process, in another process and on another host.
use cyberrt_on_rpi.Base.{
  ℕ, ◌+◌, ◌≡◌, refl, true, false, not, none, some, List, [], ◌∷◌, ◌++◌, ◌&&◌, if◌then◌else◌,
}
use cyberrt_on_rpi.Transport.Hybrid.{
  shm, rtps, RoleAttributes, obtain_config, init_mode, is_used, get_relation, mapping_table,
}
use cyberrt_on_rpi.Transport.History.{
  history_keep_last, init_history, depth_of, max_depth_of, enable, add, pop_excess,
  get_cached_message,
}
use cyberrt_on_rpi.Transport.History.Depth.{last_of}
use cyberrt_on_rpi.Transport.Hybrid.Transmitter.{
  HybridTransmitter, init_hybrid, can_enable, is_empty, is_in, enable_opposite, request_history,
  enable_related, disable_opposite, disable_related, connect, disconnect, insert_id, erase_id,
  transmit_history_msg, transmit, transmit_by, init_transmitters, enable_transmitter,
  disable_transmitter,
}
use cyberrt_on_rpi.Transport.Hybrid.Transmitter.Operations.{Op, joins, leaves, sends, run, joined}
use cyberrt_on_rpi.Transport.Hybrid.Transmitter.Enabled.{enabled_of}
use cyberrt_on_rpi.Transport.Hybrid.Transmitter.Reaching.{reaching}
use cyberrt_on_rpi.Transport.Hybrid.Transmitter.Late.{transmitted, is_related, late_join}
use cyberrt_on_rpi.Transport.Hybrid.Receiver.{
  HybridReceiver, init_hybrid as init_receiver, clear_transmitters,
}
use cyberrt_on_rpi.Transport.Hybrid.Receiver.Operations.{
  Op as ReceiverOp, joins as meets, leaves as loses, run as run_receiver, joined as met, enabled,
  disabled, calls_of, times,
}
use cyberrt_on_rpi.Transport.Hybrid.Receiver.Balance.{balanced}

abbrev writer : RoleAttributes
writer = record {
  id = 1;
  channel_name = 7;
  host_ip = 20;
  process_id = 300;
  is_transient_local = true;
}

abbrev neighbour : RoleAttributes
neighbour = record {
  id = 2;
  channel_name = 7;
  host_ip = 20;
  process_id = 301;
  is_transient_local = true;
}

abbrev remote : RoleAttributes
remote = record {
  id = 3;
  channel_name = 7;
  host_ip = 21;
  process_id = 300;
  is_transient_local = false;
}

abbrev ops : List (Op ℕ)
ops = joins neighbour ∷ sends 50 ∷ joins remote ∷ sends 51 ∷ leaves neighbour ∷ sends 52 ∷ []

abbrev after : HybridTransmitter ℕ
after = run true ops (init_hybrid writer none none history_keep_last 2)

sent_by_shared_memory :
    after.transmitters shm ≡ some (record { enabled = false; sent = 50 ∷ 51 ∷ [] })
unfolding run init_hybrid init_history init_transmitters obtain_config init_mode is_used
    enable_opposite enable_related disable_opposite disable_related get_relation mapping_table
    connect disconnect insert_id erase_id transmit_history_msg request_history transmit transmit_by
    enable_transmitter disable_transmitter can_enable add pop_excess get_cached_message enable
    depth_of max_depth_of
sent_by_shared_memory = refl

reaching_example :
    (enabled_of (after.transmitters rtps) ≡ (
      if is_used (obtain_config none) rtps
      then some (can_enable true rtps && not (is_empty (after.receivers rtps)))
      else none))
    × (is_in 3 (after.receivers rtps) ≡ joined writer (obtain_config none) rtps 3 ops false)
reaching_example = reaching true writer none none history_keep_last 2 ops rtps 3

late_join_example :
    (enable_opposite true neighbour after).history_requests
    ≡ after.history_requests
      ++ (if writer.is_transient_local && is_related (get_relation writer neighbour)
          then request_history neighbour
              (last_of (depth_of history_keep_last 2 (max_depth_of none)) (transmitted ops))
          else [])
late_join_example = late_join true writer none none history_keep_last 2 ops neighbour

abbrev receiver_ops : List ReceiverOp
receiver_ops = meets neighbour ∷ meets neighbour ∷ meets remote ∷ loses remote ∷ []

abbrev receiver : HybridReceiver ℕ
receiver = run_receiver receiver_ops (init_receiver writer none none history_keep_last 2)

balanced_example :
    (enabled 2 (calls_of (receiver.receivers shm))
      ≡ disabled 2 (calls_of (receiver.receivers shm))
        + (if is_used (obtain_config none) shm
              && met writer (obtain_config none) shm 2 receiver_ops false
            then 1
            else 0))
    × (times 2 (receiver.transmitters shm)
        ≡ (if met writer (obtain_config none) shm 2 receiver_ops false then 1 else 0))
    × (enabled 2 (calls_of ((clear_transmitters receiver).receivers shm))
        ≡ disabled 2 (calls_of ((clear_transmitters receiver).receivers shm)))
balanced_example = balanced ℕ writer none none history_keep_last 2 receiver_ops shm 2
