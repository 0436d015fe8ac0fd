-- ===== src/Data/Visitor.antt =====
-- cyber/data/data_visitor.h, `class DataVisitor` on one channel: a reader with its own buffer, that the
-- writers fill.
pub mod Reading
pub mod Keeping
use cyberrt_on_rpi.Base.{ℕ, ◌+◌, ◌-◌, Option, none, some, List, [], ◌∷◌, ◌++◌, add64, sub64}
use cyberrt_on_rpi.Data.CacheBuffer.{CacheBuffer, init, store}
use cyberrt_on_rpi.Data.ChannelBuffer.{fetch}

-- `next_msg_index_` is declared in `DataVisitorBase`.
pub record Visitor {ℓ} (A : Type ℓ) : Type ℓ where
  pub buffer : CacheBuffer A
  pub next_msg_index : ℕ

-- A writer's message reaches the buffer, or the reader asks for its next one.
pub data Event {ℓ} (A : Type ℓ) : Type ℓ where
  post : A → Event A
  take_next : Event A

module _ {ℓ} {A : Type ℓ} (null : A) where
  unfoldable pub init_visitor : ℕ → Visitor A
  init_visitor queue_size = record { buffer = init null queue_size; next_msg_index = 0 }

  -- What `TryFetch` makes of the result of `Fetch`.
  unfoldable pub fetched : Visitor A → ℕ × Option A → Visitor A × Option A
  fetched v (index, none) = (record v { next_msg_index = index }, none)
  fetched v (index, some m) = (record v { next_msg_index = add64 index 1 }, some m)

  unfoldable pub try_fetch : Visitor A → Visitor A × Option A
  unfolding fetched
  try_fetch v = fetched v (fetch null v.buffer v.next_msg_index)

  -- A message that the reader gets, with the number that it was found under.
  unfoldable pub note : Visitor A × Option A → List (ℕ × A) → List (ℕ × A)
  note (v, none) rest = rest
  note (v, some m) rest = (sub64 v.next_msg_index 1, m) ∷ rest

  -- The messages that the reader gets.
  unfoldable pub run : List (Event A) → Visitor A → List (ℕ × A)
  unfolding note
  run [] v = []
  run (post m ∷ es) v = run es (record v { buffer = store v.buffer m })
  run (take_next ∷ es) v = note (try_fetch v) (run es (try_fetch v).0)
