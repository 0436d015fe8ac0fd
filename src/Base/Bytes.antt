-- ===== src/Base/Bytes.antt =====
-- Machine words as bytes, the lowest first, as the sources copy them with `memcpy`.
use Prim.Native.Nat.{ℕ, zero, suc, ◌+◌, ◌*◌, ◌/◌, ◌%◌, ◌<◌, ◌≤◌}
use mathlib.Core.Path.{◌≡◌, refl, ap, ap₂, ◌∙◌}
use mathlib.Core.Bool.{Bool, true, false, ◌&&◌}
use mathlib.Core.List.{List, [], ◌∷◌, ◌++◌}
use native.Mathlib.Omega.{arith}
use cyberrt_on_rpi.Base.Tests.{◌==◌, ltb}
use cyberrt_on_rpi.Base.Lists.{length, drop}

-- The first `n` bytes.
module _ {ℓ} {A : Type ℓ} where
  unfoldable pub memcpy : ℕ → List A → List A
  memcpy zero src = []
  memcpy (suc n) [] = []
  memcpy (suc n) (b ∷ src) = b ∷ memcpy n src

  pub memcpy-append : (n : ℕ) (xs ys : List A) → length xs ≡ n → memcpy n (xs ++ ys) ≡ xs
  unfolding memcpy
  memcpy-append zero [] ys e = refl
  memcpy-append (suc n) [] ys e = absurd (omega (arith, e))
  memcpy-append zero (x ∷ xs) ys e = absurd (omega (arith, e))
  memcpy-append (suc n) (x ∷ xs) ys e = ap (◌∷◌ x) (memcpy-append n xs ys (omega (arith, e)))

  pub drop-append_behind : (n : ℕ) (xs ys : List A) → length xs ≡ n → drop n (xs ++ ys) ≡ ys
  drop-append_behind zero [] ys e = refl
  drop-append_behind (suc n) [] ys e = absurd (omega (arith, e))
  drop-append_behind zero (x ∷ xs) ys e = absurd (omega (arith, e))
  drop-append_behind (suc n) (x ∷ xs) ys e = drop-append_behind n xs ys (omega (arith, e))

  pub memcpy-drop : (n : ℕ) (xs : List A) → memcpy n xs ++ drop n xs ≡ xs
  unfolding memcpy
  memcpy-drop zero xs = refl
  memcpy-drop (suc n) [] = refl
  memcpy-drop (suc n) (x ∷ xs) = ap (◌∷◌ x) (memcpy-drop n xs)

  pub length-memcpy : (n : ℕ) (xs : List A) → n ≤ length xs → length (memcpy n xs) ≡ n
  unfolding memcpy
  length-memcpy zero xs h = refl
  length-memcpy (suc n) [] h = absurd (omega arith)
  length-memcpy (suc n) (x ∷ xs) h = ap suc (length-memcpy n xs (omega arith))

-- What the numbers of `k` bytes stay below.
abbrev pub limit : ℕ → ℕ
limit zero = 1
limit (suc k) = 256 * limit k

unfoldable pub bytes_of : ℕ → ℕ → List ℕ
bytes_of zero n = []
bytes_of (suc k) n = n % 256 ∷ bytes_of k (n / 256)

unfoldable pub word_of : List ℕ → ℕ
word_of [] = 0
word_of (b ∷ bs) = b + 256 * word_of bs

-- The elements are bytes.
unfoldable pub all_bytes : List ℕ → Bool
all_bytes [] = true
all_bytes (b ∷ bs) = ltb b 256 && all_bytes bs

pub all_bytes-memcpy : (n : ℕ) (bs : List ℕ) → all_bytes bs ≡ true → all_bytes (memcpy n bs) ≡ true
unfolding all_bytes memcpy
all_bytes-memcpy zero bs h = refl
all_bytes-memcpy (suc n) [] h = refl
all_bytes-memcpy (suc n) (b ∷ bs) h = ground (arith, all_bytes-memcpy n bs)

pub all_bytes-drop : (n : ℕ) (bs : List ℕ) → all_bytes bs ≡ true → all_bytes (drop n bs) ≡ true
unfolding all_bytes
all_bytes-drop zero bs h = h
all_bytes-drop (suc n) [] h = refl
all_bytes-drop (suc n) (b ∷ bs) h = ground (arith, all_bytes-drop n bs)

pub length-bytes_of : (k n : ℕ) → length (bytes_of k n) ≡ k
unfolding bytes_of
length-bytes_of zero n = refl
length-bytes_of (suc k) n = ap suc (length-bytes_of k (n / 256))

pub word_of-bytes_of : (k n : ℕ) → n < limit k → word_of (bytes_of k n) ≡ n
unfolding word_of bytes_of
word_of-bytes_of zero n h = omega arith
word_of-bytes_of (suc k) n h = omega (arith, word_of-bytes_of k (n / 256) (omega arith))

pub bytes_of-word_of :
    (k : ℕ) (bs : List ℕ) → length bs ≡ k → all_bytes bs ≡ true → bytes_of k (word_of bs) ≡ bs
unfolding word_of bytes_of all_bytes
bytes_of-word_of zero [] e h = refl
bytes_of-word_of (suc k) [] e h = absurd (omega (arith, e))
bytes_of-word_of zero (b ∷ bs) e h = absurd (omega (arith, e))
bytes_of-word_of (suc k) (b ∷ bs) e h =
    let low : b < 256 = ground arith in
    let rest : all_bytes bs ≡ true = ground arith in
    ap₂ ◌∷◌ (omega (arith, low))
      (ap (bytes_of k) (omega (arith, low)) ∙ bytes_of-word_of k bs (omega (arith, e)) rest)

-- The first bytes written again from the word that was read from them.
pub bytes_of-memcpy :
    (k : ℕ) (bs : List ℕ)
    → k ≤ length bs
    → all_bytes bs ≡ true
    → bytes_of k (word_of (memcpy k bs)) ++ drop k bs ≡ bs
bytes_of-memcpy k bs h all =
    let e = bytes_of-word_of k (memcpy k bs) (length-memcpy k bs h) (all_bytes-memcpy k bs all) in
    rw e (memcpy-drop k bs)

-- `memcmp(...) == 0`, on as many bytes as the lists have.
unfoldable pub same_bytes : List ℕ → List ℕ → Bool
same_bytes [] [] = true
same_bytes (b ∷ bs) (c ∷ cs) = b == c && same_bytes bs cs
same_bytes _ _ = false

pub same_bytes_refl : (bs : List ℕ) → same_bytes bs bs ≡ true
unfolding same_bytes
same_bytes_refl [] = refl
same_bytes_refl (b ∷ bs) = ground (arith, same_bytes_refl bs)
