-- ===== src/Data/ChannelBuffer.antt =====
-- cyber/data/channel_buffer.h, `class ChannelBuffer`: what a reader can take from the buffer of a
-- channel. The lock of the buffer makes each method one step.
pub mod Fetching
use cyberrt_on_rpi.Base.{
  ℕ, zero, suc, ◌+◌, ◌-◌, Bool, true, false, Option, none, some, List, [], ◌∷◌, ltb, leb, ◌==◌,
  if◌then◌else◌, add64, sub64, min,
}
use cyberrt_on_rpi.Data.CacheBuffer.{CacheBuffer, at, back, is_empty, first, size}

module _ {ℓ} {A : Type ℓ} (null : A) where
  -- `Fetch`: the new `*index`, and the message unless the result is false.
  unfoldable pub fetch : CacheBuffer A → ℕ → ℕ × Option A
  fetch b index =
      if is_empty b
      then (index, none)
      else if index == 0
      then (b.tail, some (at null b b.tail))
      else if index == add64 b.tail 1
      then (index, none)
      else if ltb index (first b)
      then (b.tail, some (at null b b.tail))
      else (index, some (at null b index))

  unfoldable pub latest : CacheBuffer A → Option A
  latest b = if is_empty b then none else some (back null b)

  -- The loop of `FetchMulti` from `index` on, with as many rounds left as messages are wanted.
  unfoldable pub fetch_from : CacheBuffer A → ℕ → ℕ → List A
  fetch_from b index zero = []
  fetch_from b index (suc n) = at null b index ∷ fetch_from b (add64 index 1) n

  -- The messages that are appended to `*vec`, unless the result is false.
  unfoldable pub fetch_multi : CacheBuffer A → ℕ → Option (List A)
  unfolding fetch_from
  fetch_multi b fetch_size =
      let num = min (size b) fetch_size in
      if is_empty b then none else some (fetch_from b (add64 (sub64 b.tail num) 1) num)
