-- ===== src/Transport/Hybrid/Transmitter/Enabled.antt =====
-- The transmitter of a mode is enabled while the mode has a receiver.
use cyberrt_on_rpi.Base.{
  ℕ, ◌≡◌, refl, Bool, true, false, not, Option, none, some, List, [], ◌∷◌, ◌&&◌, ◌||◌,
  if◌then◌else◌, arith, Bool-cases, inl, inr, ap, ◌∙◌, sym, subst,
}
use mathlib.Core.Option.{some-injective}
use cyberrt_on_rpi.Transport.Hybrid.{
  OptionalMode, Relation, no_relation, diff_host, diff_proc, same_proc, RoleAttributes,
  CommunicationMode, obtain_config, mapping_table, get_relation, is_used, same_mode,
}
use cyberrt_on_rpi.Transport.History.{HistoryPolicy}
use cyberrt_on_rpi.Transport.Hybrid.Transmitter.{
  Transmitter, HybridTransmitter, insert_id, erase_id, is_empty, can_enable, enable_transmitter,
  disable_transmitter, transmit_by, at, init_transmitters, init_hybrid, transmit_history_msg,
  connect, disconnect, enable_related, disable_related, enable_opposite, disable_opposite, transmit,
}
use cyberrt_on_rpi.Transport.Hybrid.Transmitter.Operations.{Op, joins, leaves, sends, run}

module _ {ℓ} {M : Type ℓ} where
  unfoldable pub enabled_of : Option (Transmitter M) → Option Bool
  enabled_of none = none
  enabled_of (some t) = some t.enabled

  -- The transmitter of the mode, if the mode is used, is enabled where it can be and there is a receiver.
  unfoldable pub IsFitting : Bool → HybridTransmitter M → Type 0
  IsFitting ready h =
      (m : OptionalMode)
      → enabled_of (h.transmitters m) ≡ (
          if is_used h.mode m
          then some (can_enable ready m && not (is_empty (h.receivers m)))
          else none)

is_empty-insert_id : (x : ℕ) (ids : List ℕ) → is_empty (insert_id x ids) ≡ false
unfolding insert_id
is_empty-insert_id x [] = refl
is_empty-insert_id x (y ∷ ids) = ground arith

is_empty-erase_id :
    (x : ℕ) (ids : List ℕ) → is_empty (erase_id x ids) ≡ false → is_empty ids ≡ false
unfolding erase_id
is_empty-erase_id x [] h = h
is_empty-erase_id x (y ∷ ids) h = refl

and_false : (b : Bool) → (b && false) ≡ false
and_false true = refl
and_false false = refl

some_there : (c e e' : Bool) → e' ≡ false → ((c && not e) || c) ≡ (c && not e')
some_there c e e' h = ground arith

off : (c e : Bool) → e ≡ true → false ≡ (c && not e)
off c e h = ground arith

pub same_mode-eq : (m n : OptionalMode) → same_mode m n ≡ true → m ≡ n
same_mode-eq m n h = ground arith

pub init-IsFitting {ℓ} :
    (M : Type ℓ) (ready : Bool) (attr : RoleAttributes) (config : Option CommunicationMode)
    (limit : Option ℕ) (policy : HistoryPolicy) (depth : ℕ)
    → IsFitting {M = M} ready (init_hybrid attr config limit policy depth)
unfolding IsFitting init_hybrid init_transmitters enabled_of
init-IsFitting M ready attr config limit policy depth m =
    elim (Bool-cases (is_used (obtain_config config) m)) [
      | inl used ↦ rw used (ap some (sym (and_false (can_enable ready m))))
      | inr unused ↦ rw unused refl
    ]

module _ {ℓ} {M : Type ℓ} where
  -- An operation on a transmitter, on whether it is enabled.
  enabled_of-at :
      (f : Transmitter M → Transmitter M) (g : Bool → Bool) (o : Option (Transmitter M))
      (used b : Bool)
      → ((t : Transmitter M) → (f t).enabled ≡ g t.enabled)
      → enabled_of o ≡ (if used then some b else none)
      → enabled_of (at f o) ≡ (if used then some (g b) else none)
  unfolding enabled_of
  enabled_of-at f g none true b k e = absurd (ground arith)
  enabled_of-at f g none false b k e = refl
  enabled_of-at f g (some t) true b k e = ap some (k t ∙ ap g (some-injective t.enabled b e))
  enabled_of-at f g (some t) false b k e = absurd (ground arith)

  transmit-IsFitting :
      (ready : Bool) (msg : M) (h : HybridTransmitter M)
      → IsFitting ready h
      → IsFitting ready (transmit msg h)
  unfolding IsFitting transmit transmit_by
  transmit-IsFitting ready msg h fits m =
      enabled_of-at (transmit_by msg) (λ b. b) (h.transmitters m) (is_used h.mode m) _
        (λ t. ground arith) (fits m)

  connect-IsFitting :
      (ready : Bool) (id : ℕ) (k : OptionalMode) (h : HybridTransmitter M)
      → IsFitting ready h
      → IsFitting ready (connect ready id k h)
  unfolding IsFitting connect enable_transmitter
  connect-IsFitting ready id k h fits m = elim (Bool-cases (same_mode m k)) [
    | inl same ↦
        let ids = insert_id id (h.receivers k) in
        let b = can_enable ready k && not (is_empty (h.receivers k)) in
        let now =
          enabled_of-at (enable_transmitter ready k) (λ b. b || can_enable ready k)
            (h.transmitters k) (is_used h.mode k) b (λ t. refl) (fits k) in
        let on : (b || can_enable ready k) ≡ (can_enable ready k && not (is_empty ids)) =
          some_there (can_enable ready k) (is_empty (h.receivers k)) (is_empty ids)
            (is_empty-insert_id id (h.receivers k)) in
        rw same (
          subst
            (λ n. enabled_of (at (enable_transmitter ready k) (h.transmitters k)) ≡ (
              if is_used h.mode n then some (can_enable ready n && not (is_empty ids)) else none))
            (sym (same_mode-eq m k same))
            (now ∙ ap (λ x. if is_used h.mode k then some x else none) on))
    | inr other ↦ rw other (fits m)
  ]

  disconnect-IsFitting :
      (ready : Bool) (id : ℕ) (k : OptionalMode) (h : HybridTransmitter M)
      → IsFitting ready h
      → IsFitting ready (disconnect id k h)
  unfolding IsFitting disconnect disable_transmitter
  disconnect-IsFitting ready id k h fits m = elim (Bool-cases (same_mode m k)) [
    | inl same ↦
        let ids = erase_id id (h.receivers k) in
        let e = same_mode-eq m k same in
        let fits_with =
          λ (o : Option (Transmitter M))
              (k_fits : enabled_of o ≡ (
                if is_used h.mode k
                then some (can_enable ready k && not (is_empty ids))
                else none)).
            subst
              (λ n. enabled_of o ≡ (
                if is_used h.mode n then some (can_enable ready n && not (is_empty ids)) else none))
              (sym e) k_fits in
        elim (Bool-cases (is_empty ids)) [
          | inl gone ↦
              let now =
                enabled_of-at disable_transmitter (λ b. false) (h.transmitters k) (is_used h.mode k)
                  _ (λ t. refl) (fits k) in
              rw (gone, same)
                (fits_with (at disable_transmitter (h.transmitters k)) (
                  now
                  ∙ ap (λ x. if is_used h.mode k then some x else none)
                      (off (can_enable ready k) (is_empty ids) gone)))
          | inr stay ↦
              let was = is_empty-erase_id id (h.receivers k) stay in
              rw (stay, same)
                (ap (λ n. enabled_of (h.transmitters n)) e
                  ∙ fits_with (h.transmitters k) (
                      fits k
                      ∙ ap
                          (λ x.
                            if is_used h.mode k then some (can_enable ready k && not x) else none)
                          (was ∙ sym stay)))
        ]
    | inr other ↦ elim (Bool-cases (is_empty (erase_id id (h.receivers k)))) [
      | inl gone ↦ rw (gone, other) (fits m)
      | inr stay ↦ rw (stay, other) (fits m)
    ]
  ]

  enable_related-IsFitting :
      (ready : Bool) (r : Relation) (opposite : RoleAttributes) (h : HybridTransmitter M)
      → IsFitting ready h
      → IsFitting ready (enable_related ready r opposite h)
  unfolding enable_related IsFitting transmit_history_msg
  enable_related-IsFitting ready no_relation opposite h fits = fits
  enable_related-IsFitting ready diff_host opposite h fits =
      connect-IsFitting ready opposite.id (mapping_table h.mode diff_host) h fits
  enable_related-IsFitting ready diff_proc opposite h fits =
      connect-IsFitting ready opposite.id (mapping_table h.mode diff_proc) h fits
  enable_related-IsFitting ready same_proc opposite h fits =
      connect-IsFitting ready opposite.id (mapping_table h.mode same_proc) h fits

  disable_related-IsFitting :
      (ready : Bool) (r : Relation) (opposite : RoleAttributes) (h : HybridTransmitter M)
      → IsFitting ready h
      → IsFitting ready (disable_related r opposite h)
  unfolding disable_related
  disable_related-IsFitting ready no_relation opposite h fits = fits
  disable_related-IsFitting ready diff_host opposite h fits =
      disconnect-IsFitting ready opposite.id (mapping_table h.mode diff_host) h fits
  disable_related-IsFitting ready diff_proc opposite h fits =
      disconnect-IsFitting ready opposite.id (mapping_table h.mode diff_proc) h fits
  disable_related-IsFitting ready same_proc opposite h fits =
      disconnect-IsFitting ready opposite.id (mapping_table h.mode same_proc) h fits

  pub run-IsFitting :
      (ready : Bool) (ops : List (Op M)) (h : HybridTransmitter M)
      → IsFitting ready h
      → IsFitting ready (run ready ops h)
  unfolding run enable_opposite disable_opposite
  run-IsFitting ready [] h fits = fits
  run-IsFitting ready (joins o ∷ ops) h fits =
      run-IsFitting ready ops (enable_opposite ready o h)
        (enable_related-IsFitting ready (get_relation h.attr o) o h fits)
  run-IsFitting ready (leaves o ∷ ops) h fits =
      run-IsFitting ready ops (disable_opposite o h)
        (disable_related-IsFitting ready (get_relation h.attr o) o h fits)
  run-IsFitting ready (sends msg ∷ ops) h fits =
      run-IsFitting ready ops (transmit msg h) (transmit-IsFitting ready msg h fits)
