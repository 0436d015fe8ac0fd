-- ===== src/Data/Dispatcher.antt =====
-- cyber/data/data_dispatcher.h and data_notifier.h: a message goes to every buffer that was added for
-- its channel, and then the readers of the channel are called.
pub mod Delivery
use cyberrt_on_rpi.Base.{
  ℕ, Bool, true, false, Option, none, some, List, [], ◌∷◌, ◌++◌, ◌==◌, if◌then◌else◌, update,
}
use cyberrt_on_rpi.Data.CacheBuffer.{CacheBuffer, Filled, stored, handed, fill}

-- An `unordered_map` from channels to vectors, with each key once.
module _ {ℓ} {V : Type ℓ} where
  unfoldable pub find : ℕ → List (ℕ × List V) → Option (List V)
  find k [] = none
  find k ((j, vs) ∷ m) = if j == k then some vs else find k m

  -- `find`, then `emplace` or `emplace_back`: `AddBuffer` and `AddNotifier`.
  unfoldable pub append_to : ℕ → V → List (ℕ × List V) → List (ℕ × List V)
  append_to k v [] = (k, v ∷ []) ∷ []
  append_to k v ((j, vs) ∷ m) =
      if j == k then (j, vs ++ (v ∷ [])) ∷ m else (j, vs) ∷ append_to k v m

-- A notifier is a shared object; it has a callback or none. The callbacks that `Notify` makes are listed.
pub record DataNotifier : Type 0 where
  pub notifies_map : List (ℕ × List ℕ)
  pub has_callback : ℕ → Bool

unfoldable pub add_notifier : ℕ → ℕ → DataNotifier → DataNotifier
unfolding append_to
add_notifier channel_id notifier s = record s {
  notifies_map = append_to channel_id notifier s.notifies_map;
}

unfoldable pub callbacks : (ℕ → Bool) → List ℕ → List ℕ
callbacks has_callback [] = []
callbacks has_callback (n ∷ ns) =
    if has_callback n then n ∷ callbacks has_callback ns else callbacks has_callback ns

unfoldable pub notified : (ℕ → Bool) → Option (List ℕ) → Bool × List ℕ
unfolding callbacks
notified has_callback none = (false, [])
notified has_callback (some ns) = (true, callbacks has_callback ns)

unfoldable pub notify : ℕ → DataNotifier → Bool × List ℕ
unfolding notified find
notify channel_id s = notified s.has_callback (find channel_id s.notifies_map)

-- The map of `DataDispatcher` holds weak pointers: a buffer is an address, and `buffers` holds the
-- buffers that are alive. `handed_over` lists the messages that went to a fusion callback.
pub record DataDispatcher {ℓ} (A : Type ℓ) : Type ℓ where
  pub notifier : DataNotifier
  pub buffers_map : List (ℕ × List ℕ)
  pub buffers : ℕ → Option (CacheBuffer A)
  pub handed_over : List (ℕ × A)

module _ {ℓ} {A : Type ℓ} where
  unfoldable pub add_buffer : ℕ → ℕ → DataDispatcher A → DataDispatcher A
  unfolding append_to
  add_buffer channel_id buffer s = record s {
    buffers_map = append_to channel_id buffer s.buffers_map;
  }

  unfoldable pub after_fill : ℕ → Filled A → DataDispatcher A → DataDispatcher A
  after_fill a (stored b) s = record s { buffers = update s.buffers a (some b) }
  after_fill a (handed m) s = record s { handed_over = s.handed_over ++ ((a, m) ∷ []) }

  -- One round of the loop of `Dispatch`: the buffer that `lock()` finds is filled.
  unfoldable pub fill_at : ℕ → A → Option (CacheBuffer A) → DataDispatcher A → DataDispatcher A
  unfolding after_fill fill
  fill_at a msg none s = s
  fill_at a msg (some b) s = after_fill a (fill b msg) s

  unfoldable pub fill_all : List ℕ → A → DataDispatcher A → DataDispatcher A
  fill_all [] msg s = s
  fill_all (a ∷ as') msg s = fill_all as' msg (fill_at a msg (s.buffers a) s)

  unfoldable pub dispatch_found :
      ℕ → A → Option (List ℕ) → DataDispatcher A → DataDispatcher A × Bool × List ℕ
  unfolding fill_all notify
  dispatch_found channel_id msg none s = (s, false, [])
  dispatch_found channel_id msg (some as') s =
      let s' = fill_all as' msg s in
      let (found, calls) = notify channel_id s'.notifier in (s', found, calls)

  -- The new state, the result, and the callbacks that are made. `is_shutdown` is `IsShutdown()`.
  unfoldable pub dispatch : Bool → ℕ → A → DataDispatcher A → DataDispatcher A × Bool × List ℕ
  unfolding dispatch_found find
  dispatch is_shutdown channel_id msg s =
      if is_shutdown
      then (s, false, [])
      else dispatch_found channel_id msg (find channel_id s.buffers_map) s
