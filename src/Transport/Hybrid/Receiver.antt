-- ===== src/Transport/Hybrid/Receiver.antt =====
-- cyber/transport/receiver/hybrid_receiver.h, `class HybridReceiver`, over the receivers of the modes. Of
-- those it uses that an opposite is enabled and disabled, which is kept as the list of the calls.
pub mod Operations
pub mod Counts
pub mod Steps
pub mod Balance
use cyberrt_on_rpi.Base.{
  ℕ, Bool, true, false, not, Option, none, some, List, [], ◌∷◌, ◌++◌, ◌==◌, ◌||◌, ◌&&◌,
  if◌then◌else◌,
}
use cyberrt_on_rpi.Transport.Hybrid.{
  OptionalMode, hybrid, intra, shm, rtps, Relation, no_relation, diff_host, diff_proc, same_proc,
  RoleAttributes, CommunicationMode, obtain_config, mapping_table, get_relation, is_used,
  update_mode,
}
use cyberrt_on_rpi.Transport.History.{History, HistoryPolicy, init_history, enable}

-- A call of `Enable` or `Disable` for an opposite.
pub data Call : Type 0 where
  enables : RoleAttributes → Call
  disables : RoleAttributes → Call

-- `receivers` has the calls that the receiver of each mode has had, if there is one, `transmitters` the
-- opposites of each mode by their ids, and `history_requests` the calls of `Async` in `ReceiveHistoryMsg`.
pub record HybridReceiver {ℓ} (M : Type ℓ) : Type ℓ where
  pub attr : RoleAttributes
  pub mode : CommunicationMode
  pub history : History M
  pub receivers : OptionalMode → Option (List Call)
  pub transmitters : OptionalMode → List (ℕ × RoleAttributes)
  pub history_requests : List RoleAttributes

unfoldable pub has_id : ℕ → List (ℕ × RoleAttributes) → Bool
has_id id [] = false
has_id id ((x, o) ∷ rest) = x == id || has_id id rest

unfoldable pub erase_entry : ℕ → List (ℕ × RoleAttributes) → List (ℕ × RoleAttributes)
erase_entry id [] = []
erase_entry id ((x, o) ∷ rest) =
    let later = erase_entry id rest in if x == id then rest else (x, o) ∷ later

abbrev pub call : Call → Option (List Call) → Option (List Call)
call c none = none
call c (some calls) = some (calls ++ (c ∷ []))

unfoldable pub init_receivers : CommunicationMode → OptionalMode → Option (List Call)
init_receivers mode m = if is_used mode m then some [] else none

unfoldable pub disable_each : List (ℕ × RoleAttributes) → Option (List Call) → Option (List Call)
disable_each [] calls = calls
disable_each ((x, o) ∷ rest) calls = disable_each rest (call (disables o) calls)

module _ {ℓ} {M : Type ℓ} where
  unfoldable pub init_hybrid :
      RoleAttributes → Option CommunicationMode → Option ℕ → HistoryPolicy → ℕ → HybridReceiver M
  init_hybrid attr config limit policy depth =
      let history = init_history limit policy depth in
      record {
        attr = attr;
        mode = obtain_config config;
        history = if attr.is_transient_local then enable history else history;
        receivers = init_receivers (obtain_config config);
        transmitters = λ _. [];
        history_requests = [];
      }

  unfoldable pub receive_history_msg : RoleAttributes → HybridReceiver M → HybridReceiver M
  receive_history_msg opposite h =
      let requests = if opposite.is_transient_local then opposite ∷ [] else [] in
      record h { history_requests = h.history_requests ++ requests }

  unfoldable pub connect : RoleAttributes → OptionalMode → HybridReceiver M → HybridReceiver M
  connect opposite m h =
      let known = h.transmitters m in
      let joined = receive_history_msg opposite (record h {
        transmitters = update_mode h.transmitters m ((opposite.id, opposite) ∷ known);
        receivers = update_mode h.receivers m (call (enables opposite) (h.receivers m));
      }) in
      if has_id opposite.id known then h else joined

  unfoldable pub disconnect : RoleAttributes → OptionalMode → HybridReceiver M → HybridReceiver M
  disconnect opposite m h =
      let known = h.transmitters m in
      if has_id opposite.id known
      then record h {
        transmitters = update_mode h.transmitters m (erase_entry opposite.id known);
        receivers = update_mode h.receivers m (call (disables opposite) (h.receivers m));
      }
      else h

  -- `Enable` and `Disable` for an opposite of the given relation.
  unfoldable pub enable_related : Relation → RoleAttributes → HybridReceiver M → HybridReceiver M
  enable_related no_relation opposite h = h
  enable_related r opposite h = connect opposite (mapping_table h.mode r) h

  unfoldable pub disable_related : Relation → RoleAttributes → HybridReceiver M → HybridReceiver M
  disable_related no_relation opposite h = h
  disable_related r opposite h = disconnect opposite (mapping_table h.mode r) h

  unfoldable pub enable_opposite : RoleAttributes → HybridReceiver M → HybridReceiver M
  enable_opposite opposite h = enable_related (get_relation h.attr opposite) opposite h

  unfoldable pub disable_opposite : RoleAttributes → HybridReceiver M → HybridReceiver M
  disable_opposite opposite h = disable_related (get_relation h.attr opposite) opposite h

  unfoldable pub clear_transmitters : HybridReceiver M → HybridReceiver M
  clear_transmitters h = record h {
    receivers = λ m. disable_each (h.transmitters m) (h.receivers m);
    transmitters = λ _. [];
  }
