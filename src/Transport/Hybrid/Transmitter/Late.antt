-- ===== src/Transport/Hybrid/Transmitter/Late.antt =====
-- What a reader that joins late is sent.
use cyberrt_on_rpi.Base.{
  ℕ, ◌≡◌, refl, Bool, true, false, Option, List, [], ◌∷◌, ◌++◌, ◌&&◌, if◌then◌else◌, ap, append-nil,
  append_assoc, ◌∙◌, sym,
}
use cyberrt_on_rpi.Transport.Hybrid.{
  Relation, no_relation, diff_host, diff_proc, same_proc, RoleAttributes, CommunicationMode,
  get_relation,
}
use cyberrt_on_rpi.Transport.History.{HistoryPolicy, init_history, enable, get_cached_message}
use cyberrt_on_rpi.Transport.Hybrid.Transmitter.{
  HybridTransmitter, init_hybrid, request_history, transmit_history_msg, connect, enable_related,
  enable_opposite, disable_opposite, transmit,
}
use cyberrt_on_rpi.Transport.Hybrid.Transmitter.Operations.{
  Op, joins, leaves, sends, run, fixed_enable, fixed_disable, run-attr,
}
use cyberrt_on_rpi.Transport.History.{
  Op as HistoryOp, adding, apply_all, depth_of, max_depth_of, apply,
}
use cyberrt_on_rpi.Transport.History.Depth.{last_of, last_of-nil, recorded, msgs-apply_all}

-- The opposite has the channel.
unfoldable pub is_related : Relation → Bool
is_related no_relation = false
is_related r = true

module _ {ℓ} {M : Type ℓ} where
  -- The messages that were sent, in their order.
  unfoldable pub transmitted : List (Op M) → List M
  transmitted [] = []
  transmitted (joins o ∷ ops) = transmitted ops
  transmitted (leaves o ∷ ops) = transmitted ops
  transmitted (sends msg ∷ ops) = msg ∷ transmitted ops

  unfoldable pub additions : List M → List (HistoryOp M)
  additions [] = []
  additions (msg ∷ msgs) = adding msg ∷ additions msgs

  recorded-additions : (msgs all : List M) → recorded (additions msgs) true all ≡ all ++ msgs
  unfolding recorded additions
  recorded-additions [] all = sym (append-nil all)
  recorded-additions (msg ∷ msgs) all =
      recorded-additions msgs (all ++ (msg ∷ [])) ∙ append_assoc all (msg ∷ []) msgs

  run-history :
      (ready : Bool) (ops : List (Op M)) (h : HybridTransmitter M)
      → (run ready ops h).history ≡ apply_all (additions (transmitted ops)) h.history
  unfolding run transmitted additions apply_all apply enable_opposite disable_opposite transmit
  run-history ready [] h = refl
  run-history ready (joins o ∷ ops) h =
      run-history ready ops (enable_opposite ready o h)
      ∙ ap (apply_all (additions (transmitted ops)))
          (fixed_enable ready (get_relation h.attr o) o h).2
  run-history ready (leaves o ∷ ops) h =
      run-history ready ops (disable_opposite o h)
      ∙ ap (apply_all (additions (transmitted ops))) (fixed_disable (get_relation h.attr o) o h).2
  run-history ready (sends msg ∷ ops) h = run-history ready ops (transmit msg h)

  -- What a history that was made with the transmitter holds.
  cached :
      (ready : Bool) (attr : RoleAttributes) (config : Option CommunicationMode) (limit : Option ℕ)
      (policy : HistoryPolicy) (depth : ℕ) (ops : List (Op M))
      → attr.is_transient_local ≡ true
      → (run ready ops (init_hybrid attr config limit policy depth)).history.msgs
        ≡ last_of (depth_of policy depth (max_depth_of limit)) (transmitted ops)
  unfolding init_hybrid init_history enable last_of
  cached ready attr config limit policy depth ops durable =
      let h = init_hybrid {M = M} attr config limit policy depth in
      let on : h.history ≡ enable (init_history limit policy depth) = rw durable refl in
      ap (λ k. k.msgs) (run-history ready ops h)
      ∙ ap (λ k. (apply_all (additions (transmitted ops)) k).msgs) on
      ∙ msgs-apply_all (additions (transmitted ops)) (enable (init_history limit policy depth)) []
          (sym (last_of-nil _))
      ∙ ap (last_of (depth_of policy depth (max_depth_of limit)))
          (recorded-additions (transmitted ops) [])

  requested :
      (durable : Bool) (o : RoleAttributes) (msgs msgs' : List M)
      → (durable ≡ true → msgs ≡ msgs')
      → (if durable then request_history o msgs else [])
        ≡ (if durable && true then request_history o msgs' else [])
  requested true o msgs msgs' k = ap (request_history o) (k refl)
  requested false o msgs msgs' k = refl

  unrequested :
      (durable : Bool) (o : RoleAttributes) (before : List (RoleAttributes × List M))
      (msgs : List M)
      → before ≡ before ++ (if durable && false then request_history o msgs else [])
  unrequested true o before msgs = sym (append-nil before)
  unrequested false o before msgs = sym (append-nil before)

  requests_lem :
      (ready : Bool) (r : Relation) (o : RoleAttributes) (h : HybridTransmitter M) (msgs : List M)
      → (h.attr.is_transient_local ≡ true → h.history.msgs ≡ msgs)
      → (enable_related ready r o h).history_requests
        ≡ h.history_requests
          ++ (if h.attr.is_transient_local && is_related r then request_history o msgs else [])
  unfolding enable_related transmit_history_msg connect is_related get_cached_message
  requests_lem ready no_relation o h msgs k =
      unrequested h.attr.is_transient_local o h.history_requests msgs
  requests_lem ready diff_host o h msgs k =
      ap (◌++◌ h.history_requests)
        (requested h.attr.is_transient_local o _ msgs (λ d. append-nil h.history.msgs ∙ k d))
  requests_lem ready diff_proc o h msgs k =
      ap (◌++◌ h.history_requests)
        (requested h.attr.is_transient_local o _ msgs (λ d. append-nil h.history.msgs ∙ k d))
  requests_lem ready same_proc o h msgs k =
      ap (◌++◌ h.history_requests)
        (requested h.attr.is_transient_local o _ msgs (λ d. append-nil h.history.msgs ∙ k d))

  -- A reader of the channel that joins a writer whose durability is TRANSIENT_LOCAL is sent the last
  -- messages that the writer has transmitted, as many as the depth of its history, wherever the reader runs
  -- and whatever joined, left and was sent before; nothing is sent where there are none, the reader has
  -- another channel, or the durability is another.
  pub late_join :
      (ready : Bool) (attr : RoleAttributes) (config : Option CommunicationMode) (limit : Option ℕ)
      (policy : HistoryPolicy) (depth : ℕ) (ops : List (Op M)) (o : RoleAttributes)
      → let h = run ready ops (init_hybrid attr config limit policy depth) in
        let last = last_of (depth_of policy depth (max_depth_of limit)) (transmitted ops) in
        (enable_opposite ready o h).history_requests
        ≡ h.history_requests
          ++ (if attr.is_transient_local && is_related (get_relation attr o)
              then request_history o last
              else [])
  unfolding enable_opposite init_hybrid
  late_join ready attr config limit policy depth ops o =
      let h = init_hybrid {M = M} attr config limit policy depth in
      let h' = run ready ops h in
      let last = last_of (depth_of policy depth (max_depth_of limit)) (transmitted ops) in
      let is : h'.attr ≡ attr = run-attr ready ops h in
      requests_lem ready (get_relation h'.attr o) o h' last (λ d.
        cached ready attr config limit policy depth ops
          (sym (ap (λ a. a.is_transient_local) is) ∙ d))
      ∙ ap
          (λ a.
            h'.history_requests
            ++ (if a.is_transient_local && is_related (get_relation a o)
                then request_history o last
                else []))
          is
