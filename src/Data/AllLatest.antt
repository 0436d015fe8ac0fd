-- ===== src/Data/AllLatest.antt =====
-- cyber/data/fusion/all_latest.h, `class AllLatest`: a message of the first channel is joined with the
-- latest of each other channel. The class is written out for two, three and four channels; here `Rest`
-- is the type of what the other channels add, and `others` their buffers. A message of type
-- `std::tuple<M0, …>` is the pair of the first part and the rest.
pub mod Arrivals
pub mod Joining
use cyberrt_on_rpi.Base.{ℕ, ◌>>=◌, Option, none, some, sub64}
use cyberrt_on_rpi.Data.CacheBuffer.{
  CacheBuffer, Filled, stored, handed, init, store, fill, set_fusion_callback,
}
use cyberrt_on_rpi.Data.ChannelBuffer.{latest, fetch}

pub record AllLatest {ℓ} (M Rest Others : Type ℓ) : Type ℓ where
  pub buffer_m0 : CacheBuffer M
  pub others : Others
  pub buffer_fusion : CacheBuffer (M × Rest)

module _ {ℓ} {M Rest Others : Type ℓ} (null : M × Rest) (latest_others : Others → Option Rest) where
  -- The constructor: the buffer of the first channel gets the callback, and the joined messages a buffer
  -- of the same size.
  unfoldable pub init_fusion : CacheBuffer M → Others → AllLatest M Rest Others
  init_fusion buffer_0 others = record {
    buffer_m0 = set_fusion_callback buffer_0;
    others = others;
    buffer_fusion = init null (sub64 buffer_0.capacity 1);
  }

  -- The fusion callback behind its tests.
  unfoldable pub join : M → Option Rest → AllLatest M Rest Others → AllLatest M Rest Others
  join m0 none s = s
  join m0 (some rest) s = record s { buffer_fusion = store s.buffer_fusion (m0, rest) }

  unfoldable pub callback : M → AllLatest M Rest Others → AllLatest M Rest Others
  callback m0 s = join m0 (latest_others s.others) s

  unfoldable pub after_fill : Filled M → AllLatest M Rest Others → AllLatest M Rest Others
  after_fill (stored b) s = record s { buffer_m0 = b }
  after_fill (handed m0) s = callback m0 s

  -- `Fill` on the buffer of the first channel.
  unfoldable pub fill_m0 : M → AllLatest M Rest Others → AllLatest M Rest Others
  unfolding after_fill fill
  fill_m0 m s = after_fill (fill s.buffer_m0 m) s

  unfoldable pub fusion : ℕ → AllLatest M Rest Others → ℕ × Option (M × Rest)
  fusion index s = fetch null s.buffer_fusion index

-- The latest messages of the other channels, for two, three and four channels in all.
module _ {ℓ} {M1 M2 M3 : Type ℓ} (null1 : M1) (null2 : M2) (null3 : M3) where
  unfoldable pub latest_one : CacheBuffer M1 → Option M1
  latest_one b1 = latest null1 b1

  unfoldable pub latest_two : CacheBuffer M1 × CacheBuffer M2 → Option (M1 × M2)
  latest_two (b1, b2) = do m1 ← latest null1 b1; m2 ← latest null2 b2; some (m1, m2)

  unfoldable pub latest_three :
      CacheBuffer M1 × CacheBuffer M2 × CacheBuffer M3 → Option (M1 × M2 × M3)
  latest_three (b1, b2, b3) = do
    m1 ← latest null1 b1
    m2 ← latest null2 b2
    m3 ← latest null3 b3
    some (m1, m2, m3)
