-- ===== src/Transport/Hybrid/Receiver/Balance.antt =====
-- Every opposite is enabled once while it is known, and disabled once when it goes.
use cyberrt_on_rpi.Base.{
  ℕ, ◌+◌, ◌≡◌, refl, Bool, false, not, Option, List, [], ◌∷◌, ◌==◌, ◌||◌, ◌&&◌, if◌then◌else◌,
  arith, Bool-cases, inl, inr, ap, ap₂, ◌∙◌, subst, is_some, All,
}
use cyberrt_on_rpi.Transport.Hybrid.{
  OptionalMode, Relation, no_relation, diff_host, diff_proc, same_proc, RoleAttributes,
  CommunicationMode, obtain_config, get_relation, is_used,
}
use cyberrt_on_rpi.Transport.History.{HistoryPolicy}
use cyberrt_on_rpi.Transport.Hybrid.Transmitter.Operations.{by_mode, concerns}
use cyberrt_on_rpi.Transport.Hybrid.Receiver.{
  HybridReceiver, Call, disables, has_id, call, init_receivers, disable_each, init_hybrid,
  receive_history_msg, connect, disconnect, enable_related, disable_related, enable_opposite,
  disable_opposite, clear_transmitters,
}
use cyberrt_on_rpi.Transport.Hybrid.Receiver.Operations.{
  Op, joins, leaves, run, joined, enabled, disabled, calls_of, times,
}
use cyberrt_on_rpi.Transport.Hybrid.Receiver.Counts.{
  enabled-calls_of, disabled-calls_of, is_some-call, disabled-one,
}
use cyberrt_on_rpi.Transport.Hybrid.Receiver.Steps.{
  Balanced, enable_related-Balanced, disable_related-Balanced,
}

module _ {ℓ} {M : Type ℓ} where
  fixed_connect :
      (o : RoleAttributes) (k : OptionalMode) (h : HybridReceiver M)
      → ((connect o k h).attr ≡ h.attr) × ((connect o k h).mode ≡ h.mode)
  unfolding connect receive_history_msg
  fixed_connect o k h = elim (Bool-cases (has_id o.id (h.transmitters k))) [
    | inl old ↦ rw old (refl, refl)
    | inr new ↦ rw new (refl, refl)
  ]

  fixed_disconnect :
      (o : RoleAttributes) (k : OptionalMode) (h : HybridReceiver M)
      → ((disconnect o k h).attr ≡ h.attr) × ((disconnect o k h).mode ≡ h.mode)
  unfolding disconnect
  fixed_disconnect o k h = elim (Bool-cases (has_id o.id (h.transmitters k))) [
    | inl old ↦ rw old (refl, refl)
    | inr new ↦ rw new (refl, refl)
  ]

  fixed_enable :
      (r : Relation) (o : RoleAttributes) (h : HybridReceiver M)
      → ((enable_related r o h).attr ≡ h.attr) × ((enable_related r o h).mode ≡ h.mode)
  unfolding enable_related
  fixed_enable no_relation o h = (refl, refl)
  fixed_enable diff_host o h = fixed_connect o _ h
  fixed_enable diff_proc o h = fixed_connect o _ h
  fixed_enable same_proc o h = fixed_connect o _ h

  fixed_disable :
      (r : Relation) (o : RoleAttributes) (h : HybridReceiver M)
      → ((disable_related r o h).attr ≡ h.attr) × ((disable_related r o h).mode ≡ h.mode)
  unfolding disable_related
  fixed_disable no_relation o h = (refl, refl)
  fixed_disable diff_host o h = fixed_disconnect o _ h
  fixed_disable diff_proc o h = fixed_disconnect o _ h
  fixed_disable same_proc o h = fixed_disconnect o _ h

  run-Balanced :
      (used b : Bool) (id : ℕ) (m : OptionalMode) (ops : List Op) (h : HybridReceiver M)
      → Balanced used b id m h
      → Balanced used (joined h.attr h.mode m id ops b) id m (run ops h)
  unfolding run joined concerns enable_opposite disable_opposite
  run-Balanced used b id m [] h was = was
  run-Balanced used b id m (joins o ∷ ops) h was =
      let r = get_relation h.attr o in
      let h' = enable_related r o h in
      let (a, c) = fixed_enable r o h in
      let b' = (o.id == id && by_mode h.mode m r) || b in
      let later =
        run-Balanced used b' id m ops h' (enable_related-Balanced used id m b r o h was) in
      subst (λ x. Balanced used x id m (run ops h')) (ap₂ (λ x y. joined x y m id ops b') a c) later
  run-Balanced used b id m (leaves o ∷ ops) h was =
      let r = get_relation h.attr o in
      let h' = disable_related r o h in
      let (a, c) = fixed_disable r o h in
      let b' = not (o.id == id && by_mode h.mode m r) && b in
      let later =
        run-Balanced used b' id m ops h' (disable_related-Balanced used id m b r o h was) in
      subst (λ x. Balanced used x id m (run ops h')) (ap₂ (λ x y. joined x y m id ops b') a c) later

init-Balanced {ℓ} :
    (M : Type ℓ) (attr : RoleAttributes) (config : Option CommunicationMode) (limit : Option ℕ)
    (policy : HistoryPolicy) (depth id : ℕ) (m : OptionalMode)
    → Balanced {M = M}
        (is_used (obtain_config config) m)
        false
        id
        m
        (init_hybrid attr config limit policy depth)
unfolding Balanced init_hybrid init_receivers All times enabled disabled
init-Balanced M attr config limit policy depth id m =
    elim (Bool-cases (is_used (obtain_config config) m)) [
      | inl used ↦ rw used (record { own_ids = tt; present = refl; once = refl; balance = refl })
      | inr unused ↦
          rw unused (record { own_ids = tt; present = refl; once = refl; balance = refl })
    ]

nothing : (b : Bool) (n : ℕ) → n + (if b then 0 else 0) ≡ n
nothing b n = ground arith

chain :
    (there' there same : Bool) (all first before one more : ℕ)
    → all ≡ first + (if there' then more else 0)
    → first ≡ before + (if there then one else 0)
    → there' ≡ there
    → one ≡ (if same then 1 else 0)
    → all ≡ before + (if there then (if same then 1 else 0) + more else 0)
chain there' there same all first before one more a b c d = ground arith

all_gone :
    (used here there : Bool) (on off on' off' known : ℕ)
    → there ≡ used
    → known ≡ (if here then 1 else 0)
    → on ≡ off + (if used && here then 1 else 0)
    → on' ≡ on
    → off' ≡ off + (if there then known else 0)
    → on' ≡ off'
all_gone used here there on off on' off' known a b c d e = ground arith

enabled-disable_each :
    (id : ℕ) (known : List (ℕ × RoleAttributes)) (calls : Option (List Call))
    → enabled id (calls_of (disable_each known calls)) ≡ enabled id (calls_of calls)
unfolding disable_each enabled
enabled-disable_each id [] calls = refl
enabled-disable_each id ((x, o) ∷ known) calls =
    let e = enabled-calls_of id (disables o) calls in
    enabled-disable_each id known (call (disables o) calls)
    ∙ e
    ∙ nothing (is_some calls) (enabled id (calls_of calls))

disabled-disable_each :
    (id : ℕ) (known : List (ℕ × RoleAttributes)) (calls : Option (List Call))
    → All (λ e. e.1.id ≡ e.0) known
    → disabled id (calls_of (disable_each known calls))
      ≡ disabled id (calls_of calls) + (if is_some calls then times id known else 0)
unfolding disable_each disabled All times
disabled-disable_each id [] calls own = ground arith
disabled-disable_each id ((x, o) ∷ known) calls (e, own) =
    let rest = disabled-disable_each id known (call (disables o) calls) own in
    let one = disabled-calls_of id (disables o) calls in
    let there = is_some-call (disables o) calls in
    let same = disabled-one id o ∙ ap (λ y. if y == id then 1 else 0) e in
    chain (is_some (call (disables o) calls)) (is_some calls) (x == id) _ _
      (disabled id (calls_of calls)) _ (times id known) rest one there same

-- Opposites have joined and left since the receiver was made. The receiver of each mode has been told of an
-- opposite exactly when that one changed: it has enabled it once more than disabled it if the last call for
-- it was a join, and as often otherwise; it is known once then. After the hybrid receiver is destroyed every
-- opposite has been disabled as often as it was enabled.
pub balanced {ℓ} :
    (M : Type ℓ) (attr : RoleAttributes) (config : Option CommunicationMode) (limit : Option ℕ)
    (policy : HistoryPolicy) (depth : ℕ) (ops : List Op) (m : OptionalMode) (id : ℕ)
    → let h = run ops (init_hybrid {M = M} attr config limit policy depth) in
      let mode = obtain_config config in
      let here = joined attr mode m id ops false in
      let calls = calls_of (h.receivers m) in
      let all_calls = calls_of ((clear_transmitters h).receivers m) in
      (enabled id calls ≡ disabled id calls + (if is_used mode m && here then 1 else 0))
      × (times id (h.transmitters m) ≡ (if here then 1 else 0))
      × (enabled id all_calls ≡ disabled id all_calls)
unfolding init_hybrid Balanced clear_transmitters
balanced M attr config limit policy depth ops m id =
    let h = init_hybrid {M = M} attr config limit policy depth in
    let used = is_used (obtain_config config) m in
    let now =
      run-Balanced used false id m ops h (init-Balanced M attr config limit policy depth id m) in
    let h' = run ops h in
    let e = enabled-disable_each id (h'.transmitters m) (h'.receivers m) in
    let d = disabled-disable_each id (h'.transmitters m) (h'.receivers m) now.own_ids in
    (
      now.balance,
      now.once,
      all_gone used (joined attr (obtain_config config) m id ops false) (is_some (h'.receivers m)) _
          _ _ _ _ now.present now.once now.balance e d,
    )
