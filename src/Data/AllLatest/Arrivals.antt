-- ===== src/Data/AllLatest/Arrivals.antt =====
-- Messages on four channels, and the joined messages that they should give.
use cyberrt_on_rpi.Base.{
  suc, ◌-◌, ◌≡◌, false, Option, none, some, List, [], ◌∷◌, ◌++◌, length, get_or, arith,
  length-append, if◌then◌else◌, ◌==◌, get_or-append_last,
}
use cyberrt_on_rpi.Data.CacheBuffer.{CacheBuffer}
use cyberrt_on_rpi.Data.AllLatest.{AllLatest}

-- A message on one of four channels.
pub data Arrival {ℓ} (M0 M1 M2 M3 : Type ℓ) : Type ℓ where
  on_m0 : M0 → Arrival M0 M1 M2 M3
  on_m1 : M1 → Arrival M0 M1 M2 M3
  on_m2 : M2 → Arrival M0 M1 M2 M3
  on_m3 : M3 → Arrival M0 M1 M2 M3

-- The last of a list of messages.
unfoldable pub newest {ℓ} : {A : Type ℓ} → A → List A → Option A
newest null h = if length h == 0 then none else some (get_or h (length h - 1) null)

pub newest-append {ℓ} :
    {A : Type ℓ} (null : A) (h : List A) (m : A) → newest null (h ++ (m ∷ [])) ≡ some m
unfolding newest
newest-append null h m =
    let e : length (h ++ (m ∷ [])) ≡ suc (length h) = omega (arith, length-append h (m ∷ [])) in
    let e' : suc (length h) - 1 ≡ length h = omega arith in
    let there : (suc (length h) == 0) ≡ false = ground arith in
    rw (e, there, e', get_or-append_last)

abbrev pub Four {ℓ} : Type ℓ → Type ℓ → Type ℓ → Type ℓ → Type ℓ
Four M0 M1 M2 M3 = AllLatest M0 (M1 × M2 × M3) (CacheBuffer M1 × CacheBuffer M2 × CacheBuffer M3)

module _ {ℓ} {M0 M1 M2 M3 : Type ℓ} where
  -- The joined messages of a sequence of arrivals, from the last message on each other channel.
  unfoldable pub joined :
      List (Arrival M0 M1 M2 M3) → Option M1 → Option M2 → Option M3 → List (M0 × (M1 × M2 × M3))
  joined [] l1 l2 l3 = []
  joined (on_m1 m ∷ es) l1 l2 l3 = joined es (some m) l2 l3
  joined (on_m2 m ∷ es) l1 l2 l3 = joined es l1 (some m) l3
  joined (on_m3 m ∷ es) l1 l2 l3 = joined es l1 l2 (some m)
  joined (on_m0 m ∷ es) (some m1) (some m2) (some m3) =
      (m, (m1, m2, m3)) ∷ joined es (some m1) (some m2) (some m3)
  joined (on_m0 m ∷ es) l1 l2 l3 = joined es l1 l2 l3
