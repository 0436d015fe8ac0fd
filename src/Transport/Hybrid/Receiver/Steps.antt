-- ===== src/Transport/Hybrid/Receiver/Steps.antt =====
-- One opposite joins or leaves: the balance of every mode.
use cyberrt_on_rpi.Base.{
  ℕ, ◌≡◌, Bool, true, false, not, ◌==◌, ◌||◌, ◌&&◌, arith, Bool-cases, inl, inr, subst,
}
use cyberrt_on_rpi.Transport.Hybrid.{
  OptionalMode, Relation, no_relation, diff_host, diff_proc, same_proc, RoleAttributes, same_mode,
}
use cyberrt_on_rpi.Transport.Hybrid.Transmitter.Operations.{by_mode}
use cyberrt_on_rpi.Transport.Hybrid.Receiver.{
  HybridReceiver, has_id, receive_history_msg, connect, disconnect, enable_related, disable_related,
}
use cyberrt_on_rpi.Transport.Hybrid.Receiver.Operations.{IsBalanced}
use cyberrt_on_rpi.Transport.Hybrid.Receiver.Counts.{
  enables-IsBalanced, known-IsBalanced, disables-IsBalanced, unknown-IsBalanced,
}
use cyberrt_on_rpi.Transport.Hybrid.Transmitter.Enabled.{same_mode-eq}

-- The balance of one mode and one id in a hybrid receiver.
unfoldable pub Balanced {ℓ} :
    {M : Type ℓ} → Bool → Bool → ℕ → OptionalMode → HybridReceiver M → Type 0
Balanced used b id m h = IsBalanced used b id (h.receivers m) (h.transmitters m)

same_mode_self : (m : OptionalMode) → same_mode m m ≡ true
same_mode_self m = ground arith

true_or : (c b : Bool) → (c || b) ≡ ((c && true) || b)
true_or c b = ground arith

false_or : (c b : Bool) → b ≡ ((c && false) || b)
false_or c b = ground arith

true_and : (c b : Bool) → (not c && b) ≡ (not (c && true) && b)
true_and c b = ground arith

false_and : (c b : Bool) → b ≡ (not (c && false) && b)
false_and c b = ground arith

module _ {ℓ} {M : Type ℓ} (used b : Bool) (id : ℕ) (m k : OptionalMode) (o : RoleAttributes)
    (h : HybridReceiver M) (was : Balanced used b id m h) where
  connect_here : Balanced used (o.id == id || b) id m (connect o m h)
  unfolding Balanced connect receive_history_msg
  connect_here = elim (Bool-cases (has_id o.id (h.transmitters m))) [
    | inl old ↦ rw old (known-IsBalanced used b id (h.receivers m) (h.transmitters m) o was old)
    | inr new ↦
        rw (new, same_mode_self m)
          (enables-IsBalanced used b id (h.receivers m) (h.transmitters m) o was new)
  ]

  connect_other : same_mode m k ≡ false → Balanced used b id m (connect o k h)
  unfolding Balanced connect receive_history_msg
  connect_other other = elim (Bool-cases (has_id o.id (h.transmitters k))) [
    | inl old ↦ rw old was
    | inr new ↦ rw (new, other) was
  ]

  disconnect_here : Balanced used (not (o.id == id) && b) id m (disconnect o m h)
  unfolding Balanced disconnect
  disconnect_here = elim (Bool-cases (has_id o.id (h.transmitters m))) [
    | inl old ↦
        rw (old, same_mode_self m)
          (disables-IsBalanced used b id (h.receivers m) (h.transmitters m) o was old)
    | inr new ↦ rw new (unknown-IsBalanced used b id (h.receivers m) (h.transmitters m) o was new)
  ]

  disconnect_other : same_mode m k ≡ false → Balanced used b id m (disconnect o k h)
  unfolding Balanced disconnect
  disconnect_other other = elim (Bool-cases (has_id o.id (h.transmitters k))) [
    | inl old ↦ rw (old, other) was
    | inr new ↦ rw new was
  ]

  connect-Balanced : Balanced used ((o.id == id && same_mode m k) || b) id m (connect o k h)
  connect-Balanced = elim (Bool-cases (same_mode m k)) [
    | inl same ↦ rw same (
        subst (λ c. Balanced used c id m (connect o k h)) (true_or (o.id == id) b)
          (subst (λ n. Balanced used (o.id == id || b) id m (connect o n h)) (same_mode-eq m k same)
            connect_here))
    | inr other ↦ rw other (
        subst (λ c. Balanced used c id m (connect o k h)) (false_or (o.id == id) b)
          (connect_other other))
  ]

  disconnect-Balanced :
      Balanced used (not (o.id == id && same_mode m k) && b) id m (disconnect o k h)
  disconnect-Balanced = elim (Bool-cases (same_mode m k)) [
    | inl same ↦ rw same (
        subst (λ c. Balanced used c id m (disconnect o k h)) (true_and (o.id == id) b)
          (subst (λ n. Balanced used (not (o.id == id) && b) id m (disconnect o n h))
            (same_mode-eq m k same) disconnect_here))
    | inr other ↦ rw other (
        subst (λ c. Balanced used c id m (disconnect o k h)) (false_and (o.id == id) b)
          (disconnect_other other))
  ]

module _ {ℓ} {M : Type ℓ} (used : Bool) (id : ℕ) (m : OptionalMode) where
  pub enable_related-Balanced :
      (b : Bool) (r : Relation) (o : RoleAttributes) (h : HybridReceiver M)
      → Balanced used b id m h
      → Balanced used ((o.id == id && by_mode h.mode m r) || b) id m (enable_related r o h)
  unfolding enable_related by_mode
  enable_related-Balanced b no_relation o h was =
      subst (λ c. Balanced used c id m h) (false_or (o.id == id) b) was
  enable_related-Balanced b diff_host o h was = connect-Balanced used b id m _ o h was
  enable_related-Balanced b diff_proc o h was = connect-Balanced used b id m _ o h was
  enable_related-Balanced b same_proc o h was = connect-Balanced used b id m _ o h was

  pub disable_related-Balanced :
      (b : Bool) (r : Relation) (o : RoleAttributes) (h : HybridReceiver M)
      → Balanced used b id m h
      → Balanced used (not (o.id == id && by_mode h.mode m r) && b) id m (disable_related r o h)
  unfolding disable_related by_mode
  disable_related-Balanced b no_relation o h was =
      subst (λ c. Balanced used c id m h) (false_and (o.id == id) b) was
  disable_related-Balanced b diff_host o h was = disconnect-Balanced used b id m _ o h was
  disable_related-Balanced b diff_proc o h was = disconnect-Balanced used b id m _ o h was
  disable_related-Balanced b same_proc o h was = disconnect-Balanced used b id m _ o h was
