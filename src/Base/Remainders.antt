-- ===== src/Base/Remainders.antt =====
-- Numbers that a ring tells apart.
use Prim.Native.Nat.{ℕ, ◌+◌, ◌-◌, ◌%◌, ◌<◌}
use mathlib.Core.Path.{◌≡◌, ap, sym, ◌∙◌}
use mathlib.Core.Logic.{◌≢◌}
use native.Mathlib.Omega.{arith}
use native.Mathlib.Nat.{mod-lt, mod-eq_of_lt, mod-add-mod, mod-eq-sub-mod}
use native.Mathlib.Decide.{dec_lt}

-- A distance less than the modulus cannot be seen as none.
add-mod-ne : (r k c : ℕ) → r < c → 0 < k → k < c → (r + k) % c ≢ r
add-mod-ne r k c hr lo hi = elim (dec_lt (r + k) c) [
  | yes p ↦ omega (arith, mod-eq_of_lt p)
  | no p ↦ omega (
    arith,
    mod-eq-sub-mod {n = r + k} {m = c} (omega arith),
    mod-eq_of_lt {n = r + k - c} {m = c} (omega arith),
  )
]

-- Numbers less than a modulus apart have different remainders.
pub mod-ne : (i j c : ℕ) → i < j → j < i + c → i % c ≢ j % c
mod-ne i j c lo hi same =
    let e : i + (j - i) ≡ j = omega arith in
    add-mod-ne (i % c) (j - i) c (mod-lt i (omega arith)) (omega arith) (omega arith)
      (mod-add-mod i c (j - i) ∙ ap (λ k. k % c) e ∙ sym same)
