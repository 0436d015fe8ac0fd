-- ===== src/HashMap/Bucket/Steps.antt =====
-- One operation of a call: what it keeps true, and when it sets the key.
use cyberrt_on_rpi.Base.{
  ap, ℕ, ◌≡◌, refl, Bool, true, false, Option, none, some, List, [], ◌∷◌, ◌==◌, ltb, if◌then◌else◌,
  arith, ◌++◌, Bool-cases, inl, inr, subst, sym, ◌∙◌,
}
use cyberrt_on_rpi.HashMap.Bucket.{
  Entry, Insertion, Inserter, searching, found, updating, linking, returned, next_of, link,
  value_ptr_of, exchange_value, same_pointer, compare_key, insert_step,
}
use cyberrt_on_rpi.HashMap.Bucket.Order.{
  IsSorted, lookup, stands, IsBelow, IsAbove, lookup-link, link-IsSorted, stands-link,
  lookup-exchange_value, exchange_value-IsSorted, stands-exchange_value,
}

unfoldable pub is_returned : Inserter → Bool
is_returned returned = true
is_returned _ = false

goes_on : (key : ℕ) (prev next : Option ℕ) → is_returned (compare_key key prev next) ≡ false
unfolding is_returned compare_key
goes_on key prev none = refl
goes_on key prev (some t) = ground arith

same_pointer_lem : (p q : Option ℕ) → same_pointer p q ≡ true → p ≡ q
unfolding same_pointer
same_pointer_lem none none h = refl
same_pointer_lem none (some q) h = absurd (ground arith)
same_pointer_lem (some p) none h = absurd (ground arith)
same_pointer_lem (some p) (some q) h = ground arith

module _ {ℓ} {V : Type ℓ} where
  -- A map in which the calls have set their keys, one after the other.
  unfoldable pub set_all : List (Insertion V) → ℕ → Option V → Option V
  set_all [] q was = was
  set_all (c ∷ cs) q was = set_all cs q (if c.key == q then some c.value else was)

  pub set_all-append :
      (cs ds : List (Insertion V)) (q : ℕ) (was : Option V)
      → set_all (cs ++ ds) q was ≡ set_all ds q (set_all cs q was)
  unfolding set_all
  set_all-append [] ds q was = refl
  set_all-append (c ∷ cs) ds q was =
      set_all-append cs ds q (if c.key == q then some c.value else was)

  -- What a call has found agrees with the bucket.
  unfoldable pub IsSound : Insertion V → Inserter → List (Entry V) → Type 0
  IsSound c (searching prev) b = IsBelow prev c.key b
  IsSound c (found target) b = (target ≡ c.key) × (stands target b ≡ true)
  IsSound c (updating target old) b = (target ≡ c.key) × (stands target b ≡ true)
  IsSound c (linking prev target) b = IsBelow prev c.key b × IsAbove target c.key
  IsSound c returned b = Unit

  -- The bucket has lost no entry.
  unfoldable pub Keeps : List (Entry V) → List (Entry V) → Type 0
  Keeps b b' = (q : ℕ) → stands q b ≡ true → stands q b' ≡ true

  IsBelow-Keeps :
      (prev : Option ℕ) (key : ℕ) (b b' : List (Entry V))
      → Keeps b b'
      → IsBelow prev key b
      → IsBelow prev key b'
  unfolding IsBelow Keeps
  IsBelow-Keeps none key b b' k h = tt
  IsBelow-Keeps (some p) key b b' k (l, h) = (l, k p h)

  pub IsSound-Keeps :
      (c : Insertion V) (p : Inserter) (b b' : List (Entry V))
      → Keeps b b'
      → IsSound c p b
      → IsSound c p b'
  unfolding IsSound Keeps
  IsSound-Keeps c (searching prev) b b' k h = IsBelow-Keeps prev c.key b b' k h
  IsSound-Keeps c (found t) b b' k (e, h) = (e, k t h)
  IsSound-Keeps c (updating t o) b b' k (e, h) = (e, k t h)
  IsSound-Keeps c (linking prev t) b b' k (h, a) = (IsBelow-Keeps prev c.key b b' k h, a)
  IsSound-Keeps c returned b b' k h = tt

  pub next_of-stands :
      (prev : Option ℕ) (b : List (Entry V)) (t : ℕ) → next_of prev b ≡ some t → stands t b ≡ true
  unfolding next_of stands
  next_of-stands none [] t h = absurd (ground arith)
  next_of-stands none (e ∷ b) t h = ground arith
  next_of-stands (some p) [] t h = absurd (ground arith)
  next_of-stands (some p) (e ∷ []) t h = absurd (ground arith)
  next_of-stands (some p) (e ∷ x ∷ b) t h =
      let rest = next_of-stands (some p) (x ∷ b) t in ground arith

  pub compare_key-IsSound :
      (c : Insertion V) (prev next : Option ℕ) (b : List (Entry V))
      → IsBelow prev c.key b
      → next_of prev b ≡ next
      → IsSound c (compare_key c.key prev next) b
  unfolding IsSound IsBelow IsAbove compare_key
  compare_key-IsSound c prev none b h e = (h, tt)
  compare_key-IsSound c prev (some t) b h e =
      let is = next_of-stands prev b t e in
      elim (Bool-cases (t == c.key)) [
        | inl same ↦ rw same (ground arith, is)
        | inr other ↦ elim (Bool-cases (ltb c.key t)) [
          | inl above ↦ rw (other, above) (h, ground arith)
          | inr below ↦ rw (other, below) (ground arith, is)
        ]
      ]

-- What a step from `p` on the bucket `b` has done.
pub record Advance {ℓ} {V : Type ℓ} (c : Insertion V) (p : Inserter) (b : List (Entry V))
    (p' : Inserter) (b' : List (Entry V)) : Type ℓ where
  pub sorted : IsSorted 0 b'
  pub sound : IsSound c p' b'
  pub keeps : Keeps b b'
  pub effect :
      (q : ℕ)
      → lookup q b'
        ≡ set_all
            (if is_returned p then [] else if is_returned p' then c ∷ [] else [])
            q
            (lookup q b)

module _ {ℓ} {V : Type ℓ} (c : Insertion V) (b : List (Entry V)) (s : IsSorted 0 b) where
  quiet : (p p' : Inserter) → is_returned p' ≡ is_returned p → IsSound c p' b → Advance c p b p' b
  unfolding Keeps set_all
  quiet p p' e h = record {
    sorted = s;
    sound = h;
    keeps = λ q. λ k. k;
    effect = λ q. elim (Bool-cases (is_returned p)) [
      | inl is ↦ rw is refl
      | inr not_yet ↦ let not_yet' = e ∙ not_yet in rw (not_yet, not_yet') refl
    ];
  }

  updates :
      (target old : ℕ)
      → IsSound c (updating target old) b
      → Advance c (updating target old) b returned (exchange_value target c.new_value c.value b)
  unfolding Keeps set_all IsSound is_returned
  updates target old (e, h) = record {
    sorted = exchange_value-IsSorted target c.new_value c.value b 0 s;
    sound = tt;
    keeps = λ q. λ k. stands-exchange_value q target c.new_value c.value b ∙ k;
    effect = λ q.
        lookup-exchange_value q target c.new_value c.value b h
        ∙ ap (λ k. if k == q then some c.value else lookup q b) e;
  }

  links :
      (prev target : Option ℕ)
      → next_of prev b ≡ target
      → IsSound c (linking prev target) b
      → let e : Entry V = record { key = c.key; value_ptr = c.entry_ptr; value = c.value } in
        Advance c (linking prev target) b returned (link prev e b)
  unfolding Keeps set_all IsSound is_returned
  links prev target next (h, a) =
      let e : Entry V = record { key = c.key; value_ptr = c.entry_ptr; value = c.value } in
      record {
        sorted =
            link-IsSorted prev e b 0 (omega arith) s h (subst (λ o. IsAbove o c.key) (sym next) a);
        sound = tt;
        keeps = λ q. stands-link q prev e b;
        effect = λ q. lookup-link q prev e b 0 s h;
      }

  pub step-Advance :
      (p : Inserter) → IsSound c p b → let (p', b') = insert_step c p b in Advance c p b p' b'
  unfolding insert_step IsSound IsBelow is_returned
  step-Advance (searching prev) h =
      quiet (searching prev) (compare_key c.key prev (next_of prev b))
        (goes_on c.key prev (next_of prev b)) (compare_key-IsSound c prev (next_of prev b) b h refl)
  step-Advance (found t) h = quiet (found t) (updating t (value_ptr_of t b)) refl h
  step-Advance (updating t old) h = elim (Bool-cases (value_ptr_of t b == old)) [
    | inl same ↦ rw same (updates t old h)
    | inr other ↦ rw other (quiet (updating t old) (searching none) refl tt)
  ]
  step-Advance (linking prev t) h = elim (Bool-cases (same_pointer (next_of prev b) t)) [
    | inl same ↦ rw same (links prev t (same_pointer_lem (next_of prev b) t same) h)
    | inr other ↦ rw other (quiet (linking prev t) (searching none) refl tt)
  ]
  step-Advance returned h = quiet returned returned refl tt
