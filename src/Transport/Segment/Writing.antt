-- ===== src/Transport/Segment/Writing.antt =====
-- The block that a writer gets: one that was free, and is locked for it.
use cyberrt_on_rpi.Base.{
  ℕ, zero, suc, ◌+◌, ◌-◌, ◌%◌, ◌<◌, ◌≡◌, inl, inr, refl, Bool, false, not, ◌&&◌, Option, some, ◌==◌,
  if◌then◌else◌, update, arith, ◌∙◌, Bool-cases, ap, bit_and, add32,
}
use native.Mathlib.Nat.{mod-lt, mod-eq_of_lt, mod-add-mod}
use cyberrt_on_rpi.Transport.Block.{write_exclusive, try_lock_for_write}
use cyberrt_on_rpi.Transport.Segment.Machine.{Shared, increase_wrote_num}
use cyberrt_on_rpi.Transport.Segment.Blocks.{
  next_index, masked_index, try_index, exchange_lock, has_lock,
}

-- The state behind a successful `GetNextWritableBlockIndex`.
unfoldable pub written : ℕ → Shared → Shared
written index s = record s {
  wrote_num = add32 s.wrote_num 1;
  lock_nums = update s.lock_nums index write_exclusive;
}

try_index_lem :
    (spurious : Bool) (idx : ℕ) (s : Shared) (later : Option (ℕ × Shared))
    → try_index spurious idx s later
      ≡ (if s.lock_nums idx == 0 && not spurious then some (idx, written idx s) else later)
unfolding try_index written exchange_lock increase_wrote_num has_lock try_lock_for_write
try_index_lem spurious idx s later = elim (Bool-cases (s.lock_nums idx == 0 && not spurious)) [
  | inl h ↦ rw h refl
  | inr h ↦ rw h refl
]

module _ (block_num : ℕ) (positive : 0 < block_num)
    (mask : (a : ℕ) → bit_and a (block_num - 1) ≡ a % block_num) (weak : ℕ → Bool)
    (s : Shared) where
  masked_index_lem : (try_idx : ℕ) → masked_index block_num try_idx ≡ try_idx % block_num
  unfolding masked_index
  masked_index_lem try_idx =
      ground (arith, mask try_idx, mod-eq_of_lt {n = try_idx} {m = block_num})

  round_lem :
      (fuel try_idx : ℕ)
      → next_index weak block_num (suc fuel) try_idx s ≡ (
          if s.lock_nums (try_idx % block_num) == 0 && not (weak fuel)
          then some (try_idx % block_num, written (try_idx % block_num) s)
          else next_index weak block_num fuel (try_idx % block_num + 1) s)
  unfolding next_index
  round_lem fuel try_idx =
      let i = masked_index block_num try_idx in
      try_index_lem (weak fuel) i s (next_index weak block_num fuel (i + 1) s)
      ∙ ap
          (λ i.
            if s.lock_nums i == 0 && not (weak fuel)
            then some (i, written i s)
            else next_index weak block_num fuel (i + 1) s)
          (masked_index_lem try_idx)

  pub next_index-finds :
      (fuel try_idx k : ℕ)
      → k < fuel
      → s.lock_nums ((try_idx + k) % block_num) ≡ 0
      → weak (fuel - 1 - k) ≡ false
      → (i : ℕ) × (i < block_num)
        × (s.lock_nums i ≡ 0)
        × (next_index weak block_num fuel try_idx s ≡ some (i, written i s))
  next_index-finds zero try_idx k lt free strong = absurd (omega arith)
  next_index-finds (suc fuel) try_idx k lt free strong =
      let here = try_idx % block_num in
      elim (Bool-cases (s.lock_nums here == 0 && not (weak fuel))) [
        | inl h ↦ (here, mod-lt try_idx positive, ground arith, round_lem fuel try_idx ∙ rw h refl)
        | inr h ↦
            let e : try_idx + 0 ≡ try_idx = omega arith in
            let last : suc fuel - 1 - 0 ≡ fuel = omega arith in
            let k_positive : 0 < k = ground (arith, e, last) in
            let ahead : here + 1 + (k - 1) ≡ here + k = omega (arith, k_positive) in
            let same : (here + 1 + (k - 1)) % block_num ≡ (try_idx + k) % block_num =
              rw ahead (mod-add-mod try_idx block_num k) in
            let left : fuel - 1 - (k - 1) ≡ suc fuel - 1 - k = omega (arith, k_positive) in
            let (i, below, was_free, found) =
              next_index-finds fuel (here + 1) (k - 1) (omega (arith, k_positive))
                (ap s.lock_nums same ∙ free) (ap weak left ∙ strong) in
            (i, below, was_free, round_lem fuel try_idx ∙ rw h found)
      ]
