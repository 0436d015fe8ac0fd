-- ===== src/Data/Dispatcher/Delivery.antt =====
-- `DataDispatcher::Dispatch`: each buffer of the channel gets the message once, and no other does.
use cyberrt_on_rpi.Base.{
  ℕ, zero, suc, ◌+◌, ◌≡◌, refl, ◌⊎◌, Bool, true, false, Option, none, some, List, [], ◌∷◌, ◌++◌,
  ◌==◌, if◌then◌else◌, count, arith, Bool-cases, inl, inr, ◌∙◌, ap,
}
use cyberrt_on_rpi.Data.CacheBuffer.{CacheBuffer, store}
use cyberrt_on_rpi.Data.Dispatcher.{
  find, append_to, DataNotifier, DataDispatcher, add_notifier, callbacks, notify, notified, fill_at,
  fill_all, dispatch,
}

module _ {ℓ} {V : Type ℓ} where
  -- What was found under a channel before, with the new entry at its end; other channels as before.
  appended : Option (List V) → V → List V
  appended none v = v ∷ []
  appended (some vs) v = vs ++ (v ∷ [])

  find-append_to :
      (k j : ℕ) (v : V) (m : List (ℕ × List V))
      → find j (append_to k v m) ≡ (if k == j then some (appended (find k m) v) else find j m)
  unfolding find append_to appended
  find-append_to k j v [] = ground arith
  find-append_to k j v ((i, vs) ∷ m) = ground (arith, find-append_to k j v m)

module _ {ℓ} {A : Type ℓ} where
  -- The buffer at an address after a message is stored in it, if it is alive and has no callback.
  abbrev pub got : A → Option (CacheBuffer A) → Option (CacheBuffer A)
  got msg none = none
  got msg (some b) = if b.fused then some b else some (store b msg)

  buffers-fill_at :
      (a c : ℕ) (msg : A) (o : Option (CacheBuffer A)) (s : DataDispatcher A)
      → s.buffers a ≡ o
      → (fill_at a msg o s).buffers c ≡ (if c == a then got msg o else s.buffers c)
  unfolding fill_at
  buffers-fill_at a c msg none s e = elim (Bool-cases (c == a)) [
    | inl same ↦ let e' : c ≡ a = ground arith in rw (same, e', e)
    | inr other ↦ rw other
  ]
  buffers-fill_at a c msg (some b) s e = elim (Bool-cases b.fused) [
    | inl fused ↦ simp fused (elim (Bool-cases (c == a)) [
      | inl same ↦ let e' : c ≡ a = ground arith in rw (same, e', e)
      | inr other ↦ rw other
    ])
    | inr open_to ↦ simp open_to
  ]

  -- The message is stored `n` times.
  unfoldable pub got_times : ℕ → A → Option (CacheBuffer A) → Option (CacheBuffer A)
  got_times zero msg o = o
  got_times (suc n) msg o = got_times n msg (got msg o)

  buffers-fill_all :
      (as' : List ℕ) (c : ℕ) (msg : A) (s : DataDispatcher A)
      → (fill_all as' msg s).buffers c ≡ got_times (count c as') msg (s.buffers c)
  unfolding fill_all got_times count
  buffers-fill_all [] c msg s = refl
  buffers-fill_all (a ∷ as') c msg s = elim (Bool-cases (c == a)) [
    | inl same ↦
        let e : c ≡ a = ground arith in
        let one_more : 1 + count c as' ≡ suc (count c as') = omega arith in
        rw (same, one_more)
          (rw (
            buffers-fill_all as' c msg (fill_at a msg (s.buffers a) s),
            buffers-fill_at a c msg (s.buffers a) s refl,
            same,
            e,
          ))
    | inr other ↦
        let none_more : 0 + count c as' ≡ count c as' = omega arith in
        rw (other, none_more)
          (rw (
            buffers-fill_all as' c msg (fill_at a msg (s.buffers a) s),
            buffers-fill_at a c msg (s.buffers a) s refl,
            other,
          ))
  ]

  kept_by-fill_at :
      (a : ℕ) (msg : A) (o : Option (CacheBuffer A)) (s : DataDispatcher A)
      → ((fill_at a msg o s).notifier ≡ s.notifier)
        × ((fill_at a msg o s).buffers_map ≡ s.buffers_map)
  unfolding fill_at
  kept_by-fill_at a msg none s = (refl, refl)
  kept_by-fill_at a msg (some b) s = elim (Bool-cases b.fused) [
    | inl fused ↦ rw fused (refl, refl)
    | inr open_to ↦ rw open_to (refl, refl)
  ]

  kept_by-fill_all :
      (as' : List ℕ) (msg : A) (s : DataDispatcher A)
      → ((fill_all as' msg s).notifier ≡ s.notifier)
        × ((fill_all as' msg s).buffers_map ≡ s.buffers_map)
  unfolding fill_all
  kept_by-fill_all [] msg s = (refl, refl)
  kept_by-fill_all (a ∷ as') msg s =
      let now = kept_by-fill_at a msg (s.buffers a) s in
      let later = kept_by-fill_all as' msg (fill_at a msg (s.buffers a) s) in
      (later.0 ∙ now.0, later.1 ∙ now.1)

  -- `Dispatch` in running order on a channel that buffers were added for: every buffer that is alive and
  -- has no callback is given the message as often as it was added for the channel, every other buffer
  -- stays as it is, and then the callbacks of the channel are made, as far as readers were added.
  pub dispatch_delivers :
      (channel_id : ℕ) (msg : A) (s : DataDispatcher A) (as' : List ℕ)
      → find channel_id s.buffers_map ≡ some as'
      → let (s', found, calls) = dispatch false channel_id msg s in
        ((c : ℕ) → s'.buffers c ≡ got_times (count c as') msg (s.buffers c))
        × ((found, calls) ≡ notify channel_id s.notifier)
        × (s'.buffers_map ≡ s.buffers_map)
  unfolding dispatch
  dispatch_delivers channel_id msg s as' e = rw e (
    λ c. buffers-fill_all as' c msg s,
    ap (notify channel_id) (kept_by-fill_all as' msg s).0,
    (kept_by-fill_all as' msg s).1,
  )

  -- `Dispatch` on a channel without buffers, or during shutdown, fails and changes nothing; no reader is
  -- called.
  pub dispatch_refused :
      (is_shutdown : Bool) (channel_id : ℕ) (msg : A) (s : DataDispatcher A)
      → (is_shutdown ≡ true) ⊎ (find channel_id s.buffers_map ≡ none)
      → dispatch is_shutdown channel_id msg s ≡ (s, false, [])
  unfolding dispatch
  dispatch_refused true channel_id msg s h = refl
  dispatch_refused false channel_id msg s (inl h) = cc
  dispatch_refused false channel_id msg s (inr h) = rw h

callbacks-append :
    (has : ℕ → Bool) (ns : List ℕ) (n : ℕ)
    → callbacks has (ns ++ (n ∷ [])) ≡ callbacks has ns ++ (if has n then n ∷ [] else [])
unfolding callbacks
callbacks-append has [] n = ground arith
callbacks-append has (m ∷ ns) n = ground (arith, callbacks-append has ns n)

notified-appended :
    (has : ℕ → Bool) (o : Option (List ℕ)) (n : ℕ)
    → notified has (some (appended o n))
      ≡ (true, (notified has o).1 ++ (if has n then n ∷ [] else []))
unfolding notified appended
notified-appended has none n = ground arith
notified-appended has (some ns) n = ap (λ l. (true, l)) (callbacks-append has ns n)

-- A reader that was added for a channel is called when the channel is notified: the callbacks are those
-- from before, and the reader's own last, if it has one. Other channels are notified as before.
pub notify-add_notifier :
    (k j n : ℕ) (s : DataNotifier)
    → notify j (add_notifier k n s) ≡ (
        if k == j
        then (true, (notify k s).1 ++ (if s.has_callback n then n ∷ [] else []))
        else notify j s)
unfolding notify add_notifier
notify-add_notifier k j n s = elim (Bool-cases (k == j)) [
  | inl same ↦
      let e = find-append_to k j n s.notifies_map in
      rw (e, same) (notified-appended s.has_callback (find k s.notifies_map) n)
  | inr other ↦ let e = find-append_to k j n s.notifies_map in rw (e, other)
]
