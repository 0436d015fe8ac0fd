-- ===== src/Transport/Hybrid/Transmitter/Reaching.antt =====
-- Whom the transmitters reach, after opposites have joined and left.
use cyberrt_on_rpi.Base.{
  ℕ, ◌≡◌, refl, Bool, true, false, not, Option, none, some, List, [], ◌∷◌, ◌==◌, ◌&&◌, ◌||◌,
  if◌then◌else◌, arith, Bool-cases, inl, inr, ap, ap₂, ◌∙◌, sym, ==_iff,
}
use cyberrt_on_rpi.Transport.Hybrid.{
  OptionalMode, Relation, no_relation, diff_host, diff_proc, same_proc, RoleAttributes,
  CommunicationMode, obtain_config, mapping_table, get_relation, is_used, same_mode,
}
use cyberrt_on_rpi.Transport.History.{HistoryPolicy}
use cyberrt_on_rpi.Transport.Hybrid.Transmitter.{
  HybridTransmitter, is_in, insert_id, erase_id, is_empty, can_enable, init_hybrid,
  transmit_history_msg, connect, disconnect, enable_related, disable_related, enable_opposite,
  disable_opposite, transmit,
}
use cyberrt_on_rpi.Transport.Hybrid.Transmitter.Operations.{
  Op, joins, leaves, sends, by_mode, concerns, run, joined, fixed_enable, fixed_disable, run-mode,
}
use cyberrt_on_rpi.Transport.Hybrid.Transmitter.Enabled.{
  enabled_of, IsFitting, same_mode-eq, init-IsFitting, run-IsFitting,
}

already : (same has : Bool) → (same ≡ true → has ≡ true) → has ≡ (same || has)
already true has h = h refl
already false has h = refl

is_in-insert_id : (id x : ℕ) (ids : List ℕ) → is_in id (insert_id x ids) ≡ (x == id || is_in id ids)
unfolding insert_id
is_in-insert_id id x ids = elim (Bool-cases (is_in x ids)) [
  | inl has ↦ rw has (
      already (x == id) (is_in id ids) (λ e. ap (λ y. is_in y ids) (sym ((==_iff x id).0 e)) ∙ has))
  | inr has_not ↦ rw has_not refl
]

is_in-erase_id :
    (id x : ℕ) (ids : List ℕ) → is_in id (erase_id x ids) ≡ (not (x == id) && is_in id ids)
unfolding erase_id
is_in-erase_id id x [] = ground arith
is_in-erase_id id x (y ∷ ids) = let rest = is_in-erase_id id x ids in ground arith

or_there : (b c : Bool) → (b || c) ≡ ((b && true) || c)
or_there b c = ground arith

or_not_there : (b c : Bool) → c ≡ ((b && false) || c)
or_not_there b c = ground arith

and_there : (b c : Bool) → (not b && c) ≡ (not (b && true) && c)
and_there b c = ground arith

and_not_there : (b c : Bool) → c ≡ (not (b && false) && c)
and_not_there b c = ground arith

module _ {ℓ} {M : Type ℓ} where
  -- An opposite of a mode joins or leaves.
  is_in-connect :
      (ready : Bool) (id x : ℕ) (k m : OptionalMode) (h : HybridTransmitter M)
      → is_in id ((connect ready x k h).receivers m)
        ≡ ((x == id && same_mode m k) || is_in id (h.receivers m))
  unfolding connect
  is_in-connect ready id x k m h = elim (Bool-cases (same_mode m k)) [
    | inl same ↦ rw same (
        is_in-insert_id id x (h.receivers k)
        ∙ ap (λ n. x == id || is_in id (h.receivers n)) (sym (same_mode-eq m k same))
        ∙ or_there (x == id) (is_in id (h.receivers m)))
    | inr other ↦ rw other (or_not_there (x == id) (is_in id (h.receivers m)))
  ]

  is_in-disconnect :
      (id x : ℕ) (k m : OptionalMode) (h : HybridTransmitter M)
      → is_in id ((disconnect x k h).receivers m)
        ≡ (not (x == id && same_mode m k) && is_in id (h.receivers m))
  unfolding disconnect
  is_in-disconnect id x k m h = elim (Bool-cases (same_mode m k)) [
    | inl same ↦ rw same (
        is_in-erase_id id x (h.receivers k)
        ∙ ap (λ n. not (x == id) && is_in id (h.receivers n)) (sym (same_mode-eq m k same))
        ∙ and_there (x == id) (is_in id (h.receivers m)))
    | inr other ↦ rw other (and_not_there (x == id) (is_in id (h.receivers m)))
  ]

  is_in-enable_related :
      (ready : Bool) (id : ℕ) (m : OptionalMode) (r : Relation) (o : RoleAttributes)
      (h : HybridTransmitter M)
      → is_in id ((enable_related ready r o h).receivers m)
        ≡ ((o.id == id && by_mode h.mode m r) || is_in id (h.receivers m))
  unfolding enable_related by_mode transmit_history_msg
  is_in-enable_related ready id m no_relation o h =
      or_not_there (o.id == id) (is_in id (h.receivers m))
  is_in-enable_related ready id m diff_host o h =
      is_in-connect ready id o.id (mapping_table h.mode diff_host) m h
  is_in-enable_related ready id m diff_proc o h =
      is_in-connect ready id o.id (mapping_table h.mode diff_proc) m h
  is_in-enable_related ready id m same_proc o h =
      is_in-connect ready id o.id (mapping_table h.mode same_proc) m h

  is_in-disable_related :
      (id : ℕ) (m : OptionalMode) (r : Relation) (o : RoleAttributes) (h : HybridTransmitter M)
      → is_in id ((disable_related r o h).receivers m)
        ≡ (not (o.id == id && by_mode h.mode m r) && is_in id (h.receivers m))
  unfolding disable_related by_mode
  is_in-disable_related id m no_relation o h = and_not_there (o.id == id) (is_in id (h.receivers m))
  is_in-disable_related id m diff_host o h =
      is_in-disconnect id o.id (mapping_table h.mode diff_host) m h
  is_in-disable_related id m diff_proc o h =
      is_in-disconnect id o.id (mapping_table h.mode diff_proc) m h
  is_in-disable_related id m same_proc o h =
      is_in-disconnect id o.id (mapping_table h.mode same_proc) m h

  pub is_in-run :
      (ready : Bool) (id : ℕ) (m : OptionalMode) (ops : List (Op M)) (h : HybridTransmitter M)
      → is_in id ((run ready ops h).receivers m)
        ≡ joined h.attr h.mode m id ops (is_in id (h.receivers m))
  unfolding run joined concerns enable_opposite disable_opposite transmit
  is_in-run ready id m [] h = refl
  is_in-run ready id m (joins o ∷ ops) h =
      let r = get_relation h.attr o in
      let h' = enable_related ready r o h in
      let (a, c, past) = fixed_enable ready r o h in
      is_in-run ready id m ops h'
      ∙ ap₂ (λ x y. joined x y m id ops (is_in id (h'.receivers m))) a c
      ∙ ap (joined h.attr h.mode m id ops) (is_in-enable_related ready id m r o h)
  is_in-run ready id m (leaves o ∷ ops) h =
      let r = get_relation h.attr o in
      let h' = disable_related r o h in
      let (a, c, past) = fixed_disable r o h in
      is_in-run ready id m ops h'
      ∙ ap₂ (λ x y. joined x y m id ops (is_in id (h'.receivers m))) a c
      ∙ ap (joined h.attr h.mode m id ops) (is_in-disable_related id m r o h)
  is_in-run ready id m (sends msg ∷ ops) h = is_in-run ready id m ops (transmit msg h)

-- Opposites have joined and left, and messages have been sent, since the transmitter was made: the
-- transmitter of each mode that the configuration uses is enabled where it can be and while it has a
-- receiver, the others are not there, and the receivers of a mode are the ids that it reaches of which the
-- last call was a join.
pub reaching {ℓ} :
    {M : Type ℓ} (ready : Bool) (attr : RoleAttributes) (config : Option CommunicationMode)
    (limit : Option ℕ) (policy : HistoryPolicy) (depth : ℕ) (ops : List (Op M)) (m : OptionalMode)
    (id : ℕ)
    → let h = run ready ops (init_hybrid attr config limit policy depth) in
      let mode = obtain_config config in
      (enabled_of (h.transmitters m) ≡ (
        if is_used mode m
        then some (can_enable ready m && not (is_empty (h.receivers m)))
        else none))
      × (is_in id (h.receivers m) ≡ joined attr mode m id ops false)
unfolding IsFitting init_hybrid
reaching {M = M} ready attr config limit policy depth ops m id =
    let h = init_hybrid {M = M} attr config limit policy depth in
    let fits =
      run-IsFitting ready ops h (init-IsFitting M ready attr config limit policy depth) m in
    let same = run-mode ready ops h in
    let h' = run ready ops h in
    (
      fits
          ∙ ap
              (λ c.
                if is_used c m
                then some (can_enable ready m && not (is_empty (h'.receivers m)))
                else none)
              same,
      is_in-run ready id m ops h,
    )
