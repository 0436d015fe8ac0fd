-- ===== src/Data/CacheBuffer.antt =====
-- cyber/data/cache_buffer.h, `class CacheBuffer`: a ring of the last values that were stored, each
-- under the number of values stored up to it. A method returns the new buffer.
pub mod Holds
use cyberrt_on_rpi.Base.{
  ℕ, ◌+◌, ◌-◌, ◌%◌, Bool, true, false, List, if◌then◌else◌, ◌==◌, get_or, set, replicate, add64,
  sub64,
}

-- `fused` says that a fusion callback is set; the callback is run by the one who set it.
pub record CacheBuffer {ℓ} (A : Type ℓ) : Type ℓ where
  pub head : ℕ
  pub tail : ℕ
  pub capacity : ℕ
  pub buffer : List A
  pub fused : Bool

-- What `Fill` does: it stores the value, or hands it to the callback.
pub data Filled {ℓ} (A : Type ℓ) : Type ℓ where
  stored : CacheBuffer A → Filled A
  handed : A → Filled A

module _ {ℓ} {A : Type ℓ} where
  -- `null` is the value that `resize` fills the ring with.
  unfoldable pub init : A → ℕ → CacheBuffer A
  init null size = record {
    head = 0;
    tail = 0;
    capacity = add64 size 1;
    buffer = replicate (add64 size 1) null;
    fused = false;
  }

  unfoldable pub get_index : CacheBuffer A → ℕ → ℕ
  get_index b pos = pos % b.capacity

  -- The oldest number that is still there, if the ring holds any.
  unfoldable pub first : CacheBuffer A → ℕ
  first b = add64 b.head 1

  unfoldable pub size : CacheBuffer A → ℕ
  size b = sub64 b.tail b.head

  unfoldable pub is_empty : CacheBuffer A → Bool
  is_empty b = b.tail == 0

  unfoldable pub is_full : CacheBuffer A → Bool
  is_full b = sub64 b.capacity 1 == sub64 b.tail b.head

  -- A read outside the ring gives `null`.
  unfoldable pub at : A → CacheBuffer A → ℕ → A
  unfolding get_index
  at null b pos = get_or b.buffer (get_index b pos) null

  unfoldable pub front : A → CacheBuffer A → A
  unfolding at
  front null b = at null b (add64 b.head 1)

  unfoldable pub back : A → CacheBuffer A → A
  unfolding at
  back null b = at null b b.tail

  unfoldable pub set_fusion_callback : CacheBuffer A → CacheBuffer A
  set_fusion_callback b = record b { fused = true }

  -- The branch of `Fill` without a callback.
  unfoldable pub store : CacheBuffer A → A → CacheBuffer A
  unfolding is_full get_index
  store b value =
      if is_full b
      then record b {
        buffer = set b.buffer (get_index b b.head) value;
        head = add64 b.head 1;
        tail = add64 b.tail 1;
      }
      else record b {
        buffer = set b.buffer (get_index b (add64 b.tail 1)) value;
        tail = add64 b.tail 1;
      }

  unfoldable pub fill : CacheBuffer A → A → Filled A
  fill b value = if b.fused then handed value else stored (store b value)
