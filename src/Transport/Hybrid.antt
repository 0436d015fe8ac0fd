-- ===== src/Transport/Hybrid.antt =====
-- cyber/transport/transmitter/hybrid_transmitter.h and cyber/transport/receiver/hybrid_receiver.h: an
-- endpoint that reaches each opposite by the mode that suits where that one runs. This file has what the
-- two share: `InitMode`, `ObtainConfig` and `GetRelation`.
pub mod Transmitter
pub mod Receiver
mod Tests
use cyberrt_on_rpi.Base.{
  ℕ, Bool, true, false, Option, none, some, List, [], ◌∷◌, ◌==◌, ◌||◌, if◌then◌else◌,
}

pub data OptionalMode : Type 0 where
  hybrid : OptionalMode
  intra : OptionalMode
  shm : OptionalMode
  rtps : OptionalMode

pub data Relation : Type 0 where
  no_relation : Relation
  diff_host : Relation
  diff_proc : Relation
  same_proc : Relation

-- Names and addresses are numbers here: they are only compared.
pub record RoleAttributes : Type 0 where
  pub id : ℕ
  pub channel_name : ℕ
  pub host_ip : ℕ
  pub process_id : ℕ
  pub is_transient_local : Bool

pub record CommunicationMode : Type 0 where
  pub same_proc : OptionalMode
  pub diff_proc : OptionalMode
  pub diff_host : OptionalMode

abbrev pub same_mode : OptionalMode → OptionalMode → Bool
same_mode hybrid hybrid = true
same_mode intra intra = true
same_mode shm shm = true
same_mode rtps rtps = true
same_mode m n = false

-- What the message definition sets where a configuration does not.
unfoldable pub init_mode : CommunicationMode
init_mode = record { same_proc = intra; diff_proc = shm; diff_host = rtps }

-- The configuration has a communication mode, or the defaults stay.
unfoldable pub obtain_config : Option CommunicationMode → CommunicationMode
obtain_config none = init_mode
obtain_config (some mode) = mode

-- `mapping_table_`; a relation that it does not have gets the first mode.
unfoldable pub mapping_table : CommunicationMode → Relation → OptionalMode
mapping_table mode no_relation = hybrid
mapping_table mode diff_host = mode.diff_host
mapping_table mode diff_proc = mode.diff_proc
mapping_table mode same_proc = mode.same_proc

unfoldable pub get_relation : RoleAttributes → RoleAttributes → Relation
get_relation attr opposite =
    if attr.channel_name == opposite.channel_name
    then (if attr.host_ip == opposite.host_ip
        then (if attr.process_id == opposite.process_id then same_proc else diff_proc)
        else diff_host)
    else no_relation

-- The mode is among those that are set up.
unfoldable pub is_used : CommunicationMode → OptionalMode → Bool
is_used mode m =
    same_mode m mode.same_proc || same_mode m mode.diff_proc || same_mode m mode.diff_host

-- A table by mode, with one entry written anew.
abbrev pub update_mode {ℓ} : {A : Type ℓ} → (OptionalMode → A) → OptionalMode → A → OptionalMode → A
update_mode f m v n = if same_mode n m then v else f n
