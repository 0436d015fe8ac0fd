-- ===== src/Transport/Hybrid/Transmitter/Operations.antt =====
-- What happens to a hybrid transmitter: opposites join and leave, and messages are sent.
use cyberrt_on_rpi.Base.{ℕ, ◌≡◌, refl, Bool, false, not, List, [], ◌∷◌, ◌==◌, ◌&&◌, ◌||◌, ◌∙◌}
use cyberrt_on_rpi.Transport.Hybrid.{
  OptionalMode, Relation, no_relation, diff_host, diff_proc, same_proc, RoleAttributes,
  CommunicationMode, mapping_table, get_relation, same_mode,
}
use cyberrt_on_rpi.Transport.Hybrid.Transmitter.{
  HybridTransmitter, transmit_history_msg, connect, disconnect, enable_related, disable_related,
  enable_opposite, disable_opposite, transmit,
}

pub data Op {ℓ} (M : Type ℓ) : Type ℓ where
  joins : RoleAttributes → Op M
  leaves : RoleAttributes → Op M
  sends : M → Op M

-- The opposite has the id, and is reached by the mode.
unfoldable pub by_mode : CommunicationMode → OptionalMode → Relation → Bool
by_mode mode m no_relation = false
by_mode mode m r = same_mode m (mapping_table mode r)

unfoldable pub concerns :
    RoleAttributes → CommunicationMode → OptionalMode → ℕ → RoleAttributes → Bool
concerns attr mode m id opposite = opposite.id == id && by_mode mode m (get_relation attr opposite)

module _ {ℓ} {M : Type ℓ} where
  unfoldable pub run : Bool → List (Op M) → HybridTransmitter M → HybridTransmitter M
  run ready [] h = h
  run ready (joins opposite ∷ ops) h = run ready ops (enable_opposite ready opposite h)
  run ready (leaves opposite ∷ ops) h = run ready ops (disable_opposite opposite h)
  run ready (sends msg ∷ ops) h = run ready ops (transmit msg h)

  -- Of the joins and leaves of an id that the mode reaches, the last was a join; `before` if there was none.
  unfoldable pub joined :
      RoleAttributes → CommunicationMode → OptionalMode → ℕ → List (Op M) → Bool → Bool
  joined attr mode m id [] before = before
  joined attr mode m id (joins opposite ∷ ops) before =
      joined attr mode m id ops (concerns attr mode m id opposite || before)
  joined attr mode m id (leaves opposite ∷ ops) before =
      joined attr mode m id ops (not (concerns attr mode m id opposite) && before)
  joined attr mode m id (sends msg ∷ ops) before = joined attr mode m id ops before

  -- Neither joining nor leaving changes who the transmitter is.
  pub fixed_enable :
      (ready : Bool) (r : Relation) (o : RoleAttributes) (h : HybridTransmitter M)
      → let h' = enable_related ready r o h in
        (h'.attr ≡ h.attr) × (h'.mode ≡ h.mode) × (h'.history ≡ h.history)
  unfolding enable_related transmit_history_msg connect
  fixed_enable ready no_relation o h = (refl, refl, refl)
  fixed_enable ready diff_host o h = (refl, refl, refl)
  fixed_enable ready diff_proc o h = (refl, refl, refl)
  fixed_enable ready same_proc o h = (refl, refl, refl)

  pub fixed_disable :
      (r : Relation) (o : RoleAttributes) (h : HybridTransmitter M)
      → let h' = disable_related r o h in
        (h'.attr ≡ h.attr) × (h'.mode ≡ h.mode) × (h'.history ≡ h.history)
  unfolding disable_related disconnect
  fixed_disable no_relation o h = (refl, refl, refl)
  fixed_disable diff_host o h = (refl, refl, refl)
  fixed_disable diff_proc o h = (refl, refl, refl)
  fixed_disable same_proc o h = (refl, refl, refl)

  pub run-mode :
      (ready : Bool) (ops : List (Op M)) (h : HybridTransmitter M) → (run ready ops h).mode ≡ h.mode
  unfolding run enable_opposite disable_opposite transmit
  run-mode ready [] h = refl
  run-mode ready (joins o ∷ ops) h =
      run-mode ready ops (enable_opposite ready o h)
      ∙ (fixed_enable ready (get_relation h.attr o) o h).1
  run-mode ready (leaves o ∷ ops) h =
      run-mode ready ops (disable_opposite o h) ∙ (fixed_disable (get_relation h.attr o) o h).1
  run-mode ready (sends msg ∷ ops) h = run-mode ready ops (transmit msg h)

  pub run-attr :
      (ready : Bool) (ops : List (Op M)) (h : HybridTransmitter M) → (run ready ops h).attr ≡ h.attr
  unfolding run enable_opposite disable_opposite transmit
  run-attr ready [] h = refl
  run-attr ready (joins o ∷ ops) h =
      run-attr ready ops (enable_opposite ready o h)
      ∙ (fixed_enable ready (get_relation h.attr o) o h).0
  run-attr ready (leaves o ∷ ops) h =
      run-attr ready ops (disable_opposite o h) ∙ (fixed_disable (get_relation h.attr o) o h).0
  run-attr ready (sends msg ∷ ops) h = run-attr ready ops (transmit msg h)
