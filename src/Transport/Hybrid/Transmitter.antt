-- ===== src/Transport/Hybrid/Transmitter.antt =====
-- cyber/transport/transmitter/hybrid_transmitter.h, `class HybridTransmitter`, over the transmitters of the
-- modes. Of those it uses that they are enabled or not, and what they send while they are; the one for other
-- hosts can be enabled only where its publisher can be made (`ready`).
pub mod Operations
pub mod Enabled
pub mod Reaching
pub mod Late
use cyberrt_on_rpi.Base.{
  ℕ, Bool, true, false, Option, none, some, List, [], ◌∷◌, ◌++◌, ◌==◌, ◌||◌, if◌then◌else◌,
}
use cyberrt_on_rpi.Transport.Hybrid.{
  OptionalMode, hybrid, intra, shm, rtps, Relation, no_relation, diff_host, diff_proc, same_proc,
  RoleAttributes, CommunicationMode, obtain_config, mapping_table, get_relation, is_used,
  update_mode,
}
use cyberrt_on_rpi.Transport.History.{
  History, HistoryPolicy, init_history, enable, add, get_cached_message,
}

pub record Transmitter {ℓ} (M : Type ℓ) : Type ℓ where
  pub enabled : Bool
  pub sent : List M

-- `history_requests` are the calls of `Async` in `TransmitHistoryMsg`: to whom, and the messages.
pub record HybridTransmitter {ℓ} (M : Type ℓ) : Type ℓ where
  pub attr : RoleAttributes
  pub mode : CommunicationMode
  pub history : History M
  pub transmitters : OptionalMode → Option (Transmitter M)
  pub receivers : OptionalMode → List ℕ
  pub history_requests : List (RoleAttributes × List M)

abbrev pub is_in : ℕ → List ℕ → Bool
is_in id [] = false
is_in id (x ∷ ids) = x == id || is_in id ids

-- The operations of a set of ids.
unfoldable pub insert_id : ℕ → List ℕ → List ℕ
insert_id id ids = if is_in id ids then ids else id ∷ ids

unfoldable pub erase_id : ℕ → List ℕ → List ℕ
erase_id id [] = []
erase_id id (x ∷ ids) = let rest = erase_id id ids in if x == id then rest else x ∷ rest

abbrev pub is_empty : List ℕ → Bool
is_empty [] = true
is_empty (x ∷ ids) = false

-- Whether the transmitter of a mode can be enabled; what is neither INTRA nor SHM goes to other hosts.
unfoldable pub can_enable : Bool → OptionalMode → Bool
can_enable ready intra = true
can_enable ready shm = true
can_enable ready rtps = ready
can_enable ready hybrid = ready

module _ {ℓ} {M : Type ℓ} where
  unfoldable pub enable_transmitter : Bool → OptionalMode → Transmitter M → Transmitter M
  enable_transmitter ready m t = record t { enabled = t.enabled || can_enable ready m }

  unfoldable pub disable_transmitter : Transmitter M → Transmitter M
  disable_transmitter t = record t { enabled = false }

  unfoldable pub transmit_by : M → Transmitter M → Transmitter M
  transmit_by msg t = if t.enabled then record t { sent = t.sent ++ (msg ∷ []) } else t

  abbrev pub at : (Transmitter M → Transmitter M) → Option (Transmitter M) → Option (Transmitter M)
  at f none = none
  at f (some t) = some (f t)

  -- `InitTransmitters` and `InitReceivers`
  unfoldable pub init_transmitters : CommunicationMode → OptionalMode → Option (Transmitter M)
  init_transmitters mode m =
      if is_used mode m then some (record { enabled = false; sent = [] }) else none

  unfoldable pub init_hybrid :
      RoleAttributes → Option CommunicationMode → Option ℕ → HistoryPolicy → ℕ → HybridTransmitter M
  init_hybrid attr config limit policy depth =
      let history = init_history limit policy depth in
      record {
        attr = attr;
        mode = obtain_config config;
        history = if attr.is_transient_local then enable history else history;
        transmitters = init_transmitters (obtain_config config);
        receivers = λ _. [];
        history_requests = [];
      }

  unfoldable pub enable_all : Bool → HybridTransmitter M → HybridTransmitter M
  enable_all ready h = record h {
    transmitters = λ m. at (enable_transmitter ready m) (h.transmitters m);
  }

  unfoldable pub disable_all : HybridTransmitter M → HybridTransmitter M
  disable_all h = record h { transmitters = λ m. at disable_transmitter (h.transmitters m) }

  -- The call of `Async`, unless there is nothing to send.
  unfoldable pub request_history : RoleAttributes → List M → List (RoleAttributes × List M)
  request_history opposite [] = []
  request_history opposite (msg ∷ msgs) = (opposite, msg ∷ msgs) ∷ []

  unfoldable pub transmit_history_msg : RoleAttributes → HybridTransmitter M → HybridTransmitter M
  transmit_history_msg opposite h =
      let requests =
        if h.attr.is_transient_local
        then request_history opposite (get_cached_message h.history [])
        else [] in
      record h { history_requests = h.history_requests ++ requests }

  -- `receivers_[mode].insert(id)` and `transmitters_[mode]->Enable()`
  unfoldable pub connect : Bool → ℕ → OptionalMode → HybridTransmitter M → HybridTransmitter M
  connect ready id m h = record h {
    receivers = update_mode h.receivers m (insert_id id (h.receivers m));
    transmitters =
        update_mode h.transmitters m (at (enable_transmitter ready m) (h.transmitters m));
  }

  unfoldable pub disconnect : ℕ → OptionalMode → HybridTransmitter M → HybridTransmitter M
  disconnect id m h =
      let ids = erase_id id (h.receivers m) in
      record h {
        receivers = update_mode h.receivers m ids;
        transmitters =
            if is_empty ids
            then update_mode h.transmitters m (at disable_transmitter (h.transmitters m))
            else h.transmitters;
      }

  -- `Enable` and `Disable` for an opposite of the given relation.
  unfoldable pub enable_related :
      Bool → Relation → RoleAttributes → HybridTransmitter M → HybridTransmitter M
  enable_related ready no_relation opposite h = h
  enable_related ready r opposite h =
      transmit_history_msg opposite (connect ready opposite.id (mapping_table h.mode r) h)

  unfoldable pub disable_related :
      Relation → RoleAttributes → HybridTransmitter M → HybridTransmitter M
  disable_related no_relation opposite h = h
  disable_related r opposite h = disconnect opposite.id (mapping_table h.mode r) h

  unfoldable pub enable_opposite : Bool → RoleAttributes → HybridTransmitter M → HybridTransmitter M
  enable_opposite ready opposite h = enable_related ready (get_relation h.attr opposite) opposite h

  unfoldable pub disable_opposite : RoleAttributes → HybridTransmitter M → HybridTransmitter M
  disable_opposite opposite h = disable_related (get_relation h.attr opposite) opposite h

  unfoldable pub transmit : M → HybridTransmitter M → HybridTransmitter M
  transmit msg h = record h {
    history = add msg h.history;
    transmitters = λ m. at (transmit_by msg) (h.transmitters m);
  }
