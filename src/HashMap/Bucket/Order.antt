-- ===== src/HashMap/Bucket/Order.antt =====
-- The order of the keys, and what a bucket gives after each of the two exchanges.
use cyberrt_on_rpi.Base.{
  ℕ, suc, ◌≤◌, ◌<◌, ◌≡◌, refl, is_some, Bool, true, false, Option, none, some, List, [], ◌∷◌, ◌==◌,
  ◌||◌, if◌then◌else◌, arith, subst, Bool-cases, inl, inr,
}
use cyberrt_on_rpi.HashMap.Bucket.{Entry, has, find, value_if, get, next_of, link, exchange_value}

unfoldable pub IsAbove : Option ℕ → ℕ → Type 0
IsAbove none key = Unit
IsAbove (some t) key = key < t

module _ {ℓ} {V : Type ℓ} where
  -- The keys grow, and none is below `low`.
  unfoldable pub IsSorted : ℕ → List (Entry V) → Type 0
  IsSorted low [] = Unit
  IsSorted low (e ∷ later) = (low ≤ e.key) × IsSorted (suc e.key) later

  -- The value of the first entry with the key, whatever the order.
  unfoldable pub lookup : ℕ → List (Entry V) → Option V
  lookup key [] = none
  lookup key (e ∷ later) =
      let rest = lookup key later in if e.key == key then some e.value else rest

  -- There is an entry with the key.
  unfoldable pub stands : ℕ → List (Entry V) → Bool
  stands key [] = false
  stands key (e ∷ later) = e.key == key || stands key later

  -- The entry `prev` stands in the bucket and is below the key.
  unfoldable pub IsBelow : Option ℕ → ℕ → List (Entry V) → Type 0
  IsBelow none key b = Unit
  IsBelow (some p) key b = (p < key) × (stands p b ≡ true)

  pub lookup_below :
      (key low : ℕ) (b : List (Entry V)) → IsSorted low b → key < low → lookup key b ≡ none
  unfolding IsSorted lookup
  lookup_below key low [] h l = refl
  lookup_below key low (e ∷ b) (h, s) l =
      let rest = lookup_below key (suc e.key) b s (omega arith) in
      let other : (e.key == key) ≡ false = ground arith in rw (other) rest

  pub find-lookup :
      (key : ℕ) (prev : Option ℕ) (low : ℕ) (b : List (Entry V))
      → IsSorted low b
      → value_if (find key prev b).1 (find key prev b).2 ≡ lookup key b
  unfolding IsSorted lookup find value_if
  find-lookup key prev low [] h = refl
  find-lookup key prev low (e ∷ b) (h, s) =
      let rest = find-lookup key (some e.key) (suc e.key) b s in
      let below = lookup_below key (suc e.key) b s in ground arith

  pub get-lookup : (key low : ℕ) (b : List (Entry V)) → IsSorted low b → get key b ≡ lookup key b
  unfolding get
  get-lookup key low b h = find-lookup key none low b h

  pub stands-le :
      (key low : ℕ) (b : List (Entry V)) → IsSorted low b → stands key b ≡ true → low ≤ key
  unfolding IsSorted stands
  stands-le key low [] h is = absurd (ground arith)
  stands-le key low (e ∷ b) (h, s) is = let rest = stands-le key (suc e.key) b s in ground arith

  pub stands-lookup : (key : ℕ) (b : List (Entry V)) → stands key b ≡ is_some (lookup key b)
  unfolding stands lookup
  stands-lookup key [] = refl
  stands-lookup key (e ∷ b) = let rest = stands-lookup key b in ground arith

  pub has-stands : (key low : ℕ) (b : List (Entry V)) → IsSorted low b → has key b ≡ stands key b
  unfolding IsSorted has stands
  has-stands key low [] h = refl
  has-stands key low (e ∷ b) (h, s) =
      let rest = has-stands key (suc e.key) b s in
      let least = stands-le key (suc e.key) b s in ground arith

  pub lookup-link :
      (q : ℕ) (prev : Option ℕ) (e : Entry V) (b : List (Entry V)) (low : ℕ)
      → IsSorted low b
      → IsBelow prev e.key b
      → lookup q (link prev e b) ≡ (if e.key == q then some e.value else lookup q b)
  unfolding IsSorted IsBelow lookup link stands
  lookup-link q none e b low s h = refl
  lookup-link q (some p) e [] low s (l, h) = absurd (ground arith)
  lookup-link q (some p) e (x ∷ b) low (m, s) (l, h) =
      let rest = lookup-link q (some p) e b (suc x.key) s in
      let least = stands-le p (suc x.key) b s in ground arith

  pub link-IsSorted :
      (prev : Option ℕ) (e : Entry V) (b : List (Entry V)) (low : ℕ)
      → low ≤ e.key
      → IsSorted low b
      → IsBelow prev e.key b
      → IsAbove (next_of prev b) e.key
      → IsSorted low (link prev e b)
  unfolding IsSorted IsBelow IsAbove link stands next_of
  link-IsSorted none e [] low le s h a = (le, s)
  link-IsSorted none e (x ∷ b) low le (m, s) h a = (le, (a, s))
  link-IsSorted (some p) e [] low le s (l, h) a = absurd (ground arith)
  link-IsSorted (some p) e (x ∷ b) low le (m, s) (l, h) a = elim (Bool-cases (x.key == p)) [
    | inl here ↦
        let next : next_of (some p) (x ∷ b) ≡ next_of none b = rw here refl in
        let a' : IsAbove (next_of none b) e.key = subst (λ o. IsAbove o e.key) next a in
        rw here (m, link-IsSorted none e b (suc x.key) (ground arith) s tt a')
    | inr there ↦
        let next : next_of (some p) (x ∷ b) ≡ next_of (some p) b = rw there refl in
        let a' : IsAbove (next_of (some p) b) e.key = subst (λ o. IsAbove o e.key) next a in
        let later : stands p b ≡ true = ground arith in
        let least = stands-le p (suc x.key) b s later in
        rw there (m, link-IsSorted (some p) e b (suc x.key) (omega arith) s (l, later) a')
  ]

  pub stands-link :
      (q : ℕ) (prev : Option ℕ) (e : Entry V) (b : List (Entry V))
      → stands q b ≡ true
      → stands q (link prev e b) ≡ true
  unfolding stands link
  stands-link q none e b h = ground arith
  stands-link q (some p) e [] h = h
  stands-link q (some p) e (x ∷ b) h = let rest = stands-link q (some p) e b in ground arith

  pub lookup-exchange_value :
      (q target ptr : ℕ) (v : V) (b : List (Entry V))
      → stands target b ≡ true
      → lookup q (exchange_value target ptr v b) ≡ (if target == q then some v else lookup q b)
  unfolding lookup exchange_value stands
  lookup-exchange_value q target ptr v [] h = absurd (ground arith)
  lookup-exchange_value q target ptr v (e ∷ b) h =
      let rest = lookup-exchange_value q target ptr v b in ground arith

  pub exchange_value-IsSorted :
      (target ptr : ℕ) (v : V) (b : List (Entry V)) (low : ℕ)
      → IsSorted low b
      → IsSorted low (exchange_value target ptr v b)
  unfolding IsSorted exchange_value
  exchange_value-IsSorted target ptr v [] low s = s
  exchange_value-IsSorted target ptr v (e ∷ b) low (m, s) =
      let rest = exchange_value-IsSorted target ptr v b (suc e.key) s in ground arith

  pub stands-exchange_value :
      (q target ptr : ℕ) (v : V) (b : List (Entry V))
      → stands q (exchange_value target ptr v b) ≡ stands q b
  unfolding stands exchange_value
  stands-exchange_value q target ptr v [] = refl
  stands-exchange_value q target ptr v (e ∷ b) =
      let rest = stands-exchange_value q target ptr v b in ground arith
