-- ===== src/Base/Bits.antt =====
-- `x & (2^k - 1)`, the way the sources wrap an index, is the remainder by 2^k.
use Prim.Native.Nat.{
  ℕ, zero, suc, ◌+◌, ◌*◌, ◌/◌, ◌%◌, ◌≤◌, ◌<◌, min, bit_and, digits, bit_and-bitwise,
}
use mathlib.Core.Path.{◌≡◌, ap, ◌∙◌}
use native.Mathlib.Omega.{arith}
use native.Mathlib.Nat.{mod-lt, mod-eq_of_lt, add-mul-mod_self_left, div-add-mod}

-- The number with k ones.
abbrev pub ones : ℕ → ℕ
ones zero = 0
ones (suc k) = ones k * 2 + 1

-- The lowest digit of a remainder, and the others.
mod_double : (a p : ℕ) → 0 < p → a % (2 * p) ≡ a / 2 % p * 2 + a % 2
mod_double a p h =
    let below : a / 2 % p < p = mod-lt (a / 2) h in
    let whole : a ≡ (a / 2 % p * 2 + a % 2) + 2 * p * (a / 2 / p) =
      omega (arith, div-add-mod (a / 2) p) in
    ap (λ n. n % (2 * p)) whole
    ∙ add-mul-mod_self_left (a / 2 % p * 2 + a % 2) (2 * p) (a / 2 / p)
    ∙ mod-eq_of_lt (omega arith)

-- With as much fuel as the number is large.
masked : (k n a : ℕ) → a ≤ n → digits (λ d. zero) min n a (ones k) ≡ a % suc (ones k)
masked k zero zero h = omega (arith, mod-eq_of_lt {n = 0} {m = suc (ones k)} (omega arith))
masked k (suc n) zero h = omega (arith, mod-eq_of_lt {n = 0} {m = suc (ones k)} (omega arith))
masked k zero (suc a) h = absurd (omega arith)
masked zero (suc n) (suc a) h = omega (arith, masked zero n (suc a / 2) (omega arith))
masked (suc k) (suc n) (suc a) h =
    let half : (ones k * 2 + 1) / 2 ≡ ones k = omega arith in
    let all : suc (ones k * 2 + 1) ≡ 2 * suc (ones k) = omega arith in
    omega (
      arith,
      ap (λ b. digits (λ d. zero) min n (suc a / 2) b) half,
      masked k n (suc a / 2) (omega arith),
      ap (λ p. suc a % p) all,
      mod_double (suc a) (suc (ones k)) (omega arith),
    )

pub and_ones : (k a : ℕ) → bit_and a (ones k) ≡ a % suc (ones k)
and_ones k a = bit_and-bitwise a (ones k) ∙ masked k a a (omega arith)

pub and_63 : (a : ℕ) → bit_and a 63 ≡ a % 64
and_63 a = and_ones 6 a

pub and_511 : (a : ℕ) → bit_and a 511 ≡ a % 512
and_511 a = and_ones 9 a
