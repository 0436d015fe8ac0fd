-- ===== src/Transport/Segment/Renewing.antt =====
-- How a segment is made anew: the old memory is marked and removed, and the new one has the new sizes.
use cyberrt_on_rpi.Base.{
  ℕ, ◌<◌, ◌≤◌, ◌≡◌, ◌⊎◌, Bool, true, false, Option, none, some, ◌==◌, if◌then◌else◌,
}
use cyberrt_on_rpi.Transport.ShmConf.{update_conf}
use cyberrt_on_rpi.Transport.Segment.{Process, remove}
use cyberrt_on_rpi.Transport.Segment.Machine.{
  Shm, Got, got, invalid, exists, failed, init_shared, increase_reference_counts,
}
use cyberrt_on_rpi.Transport.Segment.Blocks.{init}
use cyberrt_on_rpi.Transport.Segment.Opening.{IsOpen}

abbrev pub looked_up : Option ℕ → Got
looked_up none = failed
looked_up (some id) = got id

abbrev pub is_new : Got → Bool
is_new (got id) = true
is_new invalid = false
is_new exists = false
is_new failed = true

-- What the calls are documented to do, for a process that may open and remove the memory: `id_of` gives the
-- identifier under a key. With a size of 0 and no flags `shmget` gives it and changes nothing, `shmctl`
-- removes it, and where there is none `shmget` creates one of a size within the limits of the system,
-- unless it fails for want of something.
pub record IsShm {W : Type 0} (m : Shm W) (id_of : ℕ → W → Option ℕ) (max_size : ℕ) : Type 0 where
  pub opens : (key : ℕ) (w : W) → m.shmget key 0 false w ≡ (w, looked_up (id_of key w))
  pub removes : (key id : ℕ) (w : W) → id_of key w ≡ some id → id_of key (m.remove id w).0 ≡ none
  pub creates :
      (key size : ℕ) (w : W)
      → 0 < size
      → size ≤ max_size
      → id_of key w ≡ none
      → is_new (m.shmget key size true w).1 ≡ true

module _ {W : Type 0} (m : Shm W) (state_bytes block_bytes : ℕ) where
  -- The segment is open at `b`, on memory for messages up to `ceiling` that nobody has used yet; the state
  -- at `a` tells its processes to remap, unless the new one stands there.
  pub record IsRenewed (a ceiling : ℕ) (s : Process W) (b : ℕ) : Type 0 where
    pub opened : IsOpen m state_bytes block_bytes s b
    pub sizes : s.segment.conf ≡ update_conf ceiling
    pub unused : s.memory b ≡ increase_reference_counts (init_shared ceiling)
    pub marked : (if a == b then true else (s.memory a).need_remap) ≡ true

  -- Making the segment anew gives true with the memory renewed, or false with the segment closed and the
  -- state at `a` marked.
  unfoldable pub Renews : ℕ → ℕ → Process W × Bool → Type 0
  Renews a ceiling (s, ok) =
      ((ok ≡ true) × ((b : ℕ) × IsRenewed a ceiling s b))
      ⊎ ((ok ≡ false) × (s.segment.init ≡ false) × ((s.memory a).need_remap ≡ true))
