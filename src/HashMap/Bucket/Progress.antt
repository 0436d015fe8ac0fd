-- ===== src/HashMap/Bucket/Progress.antt =====
-- A call that runs alone from any point of its way returns, within a bound on its operations.
use cyberrt_on_rpi.Base.{
  ℕ, zero, suc, ◌+◌, ◌≤◌, ◌<◌, ◌≡◌, refl, true, false, Option, none, some, List, [], ◌∷◌, ◌==◌, ltb,
  if◌then◌else◌, arith, Bool-cases, inl, inr, ap, ◌∙◌, length, sym, subst,
}
use mathlib.Core.Option.{some-injective}
use cyberrt_on_rpi.HashMap.Bucket.{
  Entry, Insertion, Inserter, searching, found, updating, linking, returned, get, next_of,
  value_ptr_of, same_pointer, compare_key, insert_step,
}
use cyberrt_on_rpi.HashMap.Bucket.Order.{IsSorted, lookup, IsBelow, IsAbove, get-lookup, stands-le}
use cyberrt_on_rpi.HashMap.Bucket.Steps.{
  IsSound, is_returned, step-Advance, set_all, next_of-stands,
}

differs : (a b t : ℕ) → a < b → b ≡ t → (a == t) ≡ false
differs a b t l e = ground arith

agrees : (b t : ℕ) → b ≡ t → (b == t) ≡ true
agrees b t e = ground arith

same_pointer_self : (p : Option ℕ) → same_pointer p p ≡ true
unfolding same_pointer
same_pointer_self none = refl
same_pointer_self (some p) = ground arith

module _ {ℓ} {V : Type ℓ} where
  -- So many operations of one call, with none of another between them.
  unfoldable pub alone : ℕ → Insertion V → Inserter → List (Entry V) → Inserter × List (Entry V)
  alone zero c p b = (p, b)
  alone (suc n) c p b = let (p', b') = insert_step c p b in alone n c p' b'

  -- How many entries there are behind `prev`.
  unfoldable pub behind : Option ℕ → List (Entry V) → ℕ
  behind none b = length b
  behind (some p) [] = 0
  behind (some p) (e ∷ b) = let rest = behind (some p) b in if e.key == p then length b else rest

  alone_has_none : (p : ℕ) (x : Entry V) (t : ℕ) → ¬ (next_of (some p) (x ∷ []) ≡ some t)
  unfolding next_of
  alone_has_none p x t e = ground arith

  behind-next_of :
      (prev : Option ℕ) (t : ℕ) (b : List (Entry V)) (low : ℕ)
      → IsSorted low b
      → next_of prev b ≡ some t
      → behind (some t) b < behind prev b
  unfolding behind next_of IsSorted
  behind-next_of none t [] low s e = absurd (ground arith)
  behind-next_of none t (x ∷ b) low s e =
      let same = agrees x.key t (some-injective x.key t e) in rw same (omega arith)
  behind-next_of (some p) t [] low s e = absurd (ground arith)
  behind-next_of (some p) t (x ∷ []) low s e = absurd (alone_has_none p x t e)
  behind-next_of (some p) t (x ∷ y ∷ b) low (l, s) e = elim (Bool-cases (x.key == p)) [
    | inl here ↦
        let next : next_of (some p) (x ∷ y ∷ b) ≡ some y.key = rw here refl in
        let is_t = some-injective y.key t (sym next ∙ e) in
        let other = differs x.key y.key t s.0 is_t in
        let same = agrees y.key t is_t in rw (here, other, same) (omega arith)
    | inr there ↦
        let next : next_of (some p) (y ∷ b) ≡ some t = sym (rw there refl) ∙ e in
        let least = stands-le t (suc x.key) (y ∷ b) s (next_of-stands (some p) (y ∷ b) t next) in
        let other : (x.key == t) ≡ false = ground arith in
        rw (there, other) (behind-next_of (some p) t (y ∷ b) (suc x.key) s next)
  ]

  behind-le : (prev : Option ℕ) (b : List (Entry V)) → behind prev b ≤ length b
  unfolding behind
  behind-le none b = omega arith
  behind-le (some p) [] = omega arith
  behind-le (some p) (e ∷ b) = let rest = behind-le (some p) b in ground arith

-- The call has returned, and has set its key.
record Ended {ℓ} {V : Type ℓ} (c : Insertion V) (b : List (Entry V)) (r : Inserter × List (Entry V))
    : Type ℓ where
  keeps_order : IsSorted 0 r.1
  is_over : r.0 ≡ returned
  sets : (q : ℕ) → lookup q r.1 ≡ (if c.key == q then some c.value else lookup q b)

module _ {ℓ} {V : Type ℓ} (c : Insertion V) (b : List (Entry V)) (s : IsSorted 0 b) where
  alone-returned : (n : ℕ) (b' : List (Entry V)) → alone n c returned b' ≡ (returned, b')
  unfolding alone insert_step
  alone-returned zero b' = refl
  alone-returned (suc n) b' = alone-returned n b'

  -- A step that returns ends the call.
  last_step :
      (n : ℕ) (p : Inserter)
      → is_returned p ≡ false
      → IsSound c p b
      → (insert_step c p b).0 ≡ returned
      → Ended c b (alone (suc n) c p b)
  unfolding alone set_all is_returned
  last_step n p going h e =
      let b' = (insert_step c p b).1 in
      let all : alone n c (insert_step c p b).0 b' ≡ (returned, b') =
        ap (λ k. alone n c k b') e ∙ alone-returned n b' in
      let step = step-Advance c b s p h in
      rw all (record {
        keeps_order = step.sorted;
        is_over = refl;
        sets = λ q. step.effect q ∙ rw (going, e) refl;
      })

  linking_ends :
      (n : ℕ) (prev : Option ℕ)
      → IsSound c (linking prev (next_of prev b)) b
      → Ended c b (alone (suc n) c (linking prev (next_of prev b)) b)
  unfolding insert_step is_returned
  linking_ends n prev h =
      last_step n (linking prev (next_of prev b)) refl h
        (rw (same_pointer_self (next_of prev b)) refl)

  found_ends :
      (n : ℕ) (t : ℕ) → IsSound c (found t) b → Ended c b (alone (suc (suc n)) c (found t) b)
  unfolding alone insert_step IsSound is_returned
  found_ends n t h =
      let same : (value_ptr_of t b == value_ptr_of t b) ≡ true = ground arith in
      last_step n (updating t (value_ptr_of t b)) refl h (rw same refl)

  -- After the entry behind `prev` is loaded, where the rest of the way is known to end.
  going_ends :
      (n : ℕ) (prev next : Option ℕ)
      → next_of prev b ≡ next
      → IsBelow prev c.key b
      → ((t : ℕ)
          → next ≡ some t
          → t < c.key
          → Ended c b (alone (suc (suc n)) c (searching (some t)) b))
      → Ended c b (alone (suc (suc n)) c (compare_key c.key prev next) b)
  unfolding compare_key IsSound IsAbove
  going_ends n prev none e h on =
      subst (λ o. Ended c b (alone (suc (suc n)) c (linking prev o) b)) e
        (linking_ends (suc n) prev (h, rw e tt))
  going_ends n prev (some t) e h on = elim (Bool-cases (t == c.key)) [
    | inl same ↦ rw same (found_ends n t (ground arith, next_of-stands prev b t e))
    | inr other ↦ elim (Bool-cases (ltb c.key t)) [
      | inl above ↦
          rw (other, above)
            (subst (λ o. Ended c b (alone (suc (suc n)) c (linking prev o) b)) e
              (linking_ends (suc n) prev (h, rw e (ground arith))))
      | inr below ↦ rw (other, below) (on t refl (ground arith))
    ]
  ]

  searching_ends :
      (n : ℕ) (prev : Option ℕ)
      → behind prev b ≤ n
      → IsBelow prev c.key b
      → Ended c b (alone (suc (suc (suc n))) c (searching prev) b)
  unfolding insert_step IsBelow compare_key next_of alone
  searching_ends zero prev few h =
      going_ends zero prev (next_of prev b) refl h
        (λ t e l. absurd (omega (arith, few, behind-next_of prev t b 0 s e)))
  searching_ends (suc n) prev few h = going_ends (suc n) prev (next_of prev b) refl h (λ t e l.
      searching_ends n (some t) (omega (arith, few, behind-next_of prev t b 0 s e))
        (l, next_of-stands prev b t e))

  -- An exchange that fails.
  starts_again :
      (p : Inserter)
      → insert_step c p b ≡ (searching none, b)
      → Ended c b (alone (suc (suc (suc (suc (length b))))) c p b)
  unfolding alone IsBelow
  starts_again p e =
      let m = suc (suc (suc (length b))) in
      subst (λ r. Ended c b (alone m c r.0 r.1)) (sym e)
        (searching_ends (length b) none (omega (arith, behind-le none b)) tt)

  going_ends_too :
      (p : Inserter)
      → is_returned p ≡ false
      → IsSound c p b
      → Ended c b (alone (suc (suc (suc (suc (length b))))) c p b)
  unfolding insert_step IsSound IsBelow is_returned alone
  going_ends_too (searching prev) g h =
      searching_ends (suc (length b)) prev (omega (arith, behind-le prev b)) h
  going_ends_too (found t) g h = found_ends (suc (suc (length b))) t h
  going_ends_too (updating t old) g h = elim (Bool-cases (value_ptr_of t b == old)) [
    | inl same ↦ last_step (suc (suc (suc (length b)))) (updating t old) refl h (rw same refl)
    | inr other ↦ starts_again (updating t old) (rw other refl)
  ]
  going_ends_too (linking prev t) g h = elim (Bool-cases (same_pointer (next_of prev b) t)) [
    | inl same ↦ last_step (suc (suc (suc (length b)))) (linking prev t) refl h (rw same refl)
    | inr other ↦ starts_again (linking prev t) (rw other refl)
  ]
  going_ends_too returned g h = absurd (ground arith)

  alone_sorts :
      (p : Inserter)
      → is_returned p ≡ false
      → IsSound c p b
      → IsSorted 0 (alone (length b + 4) c p b).1
  alone_sorts p g h =
      let e : length b + 4 ≡ suc (suc (suc (suc (length b)))) = omega arith in
      let ends = going_ends_too p g h in rw e ends.keeps_order

  -- A call of `Insert` that runs alone from any point of its way, whatever the others did before, returns
  -- within the number of the entries and four operations, and sets its key and no other.
  pub alone_returns :
      (p : Inserter) (q : ℕ)
      → is_returned p ≡ false
      → IsSound c p b
      → let (p', b') = alone (length b + 4) c p b in
        (p' ≡ returned) × (get q b' ≡ (if c.key == q then some c.value else get q b))
  alone_returns p q g h =
      let e : length b + 4 ≡ suc (suc (suc (suc (length b)))) = omega arith in
      let ends = going_ends_too p g h in
      let order = ends.keeps_order in
      let given : get q b ≡ lookup q b = get-lookup q 0 b s in
      rw (e, given) (ends.is_over, get-lookup q 0 _ order ∙ ends.sets q)

  -- The same from the start of the call.
  pub insert_alone :
      (q : ℕ)
      → let b' = (alone (length b + 4) c (searching none) b).1 in
        IsSorted 0 b' × (get q b' ≡ (if c.key == q then some c.value else get q b))
  unfolding IsSound IsBelow is_returned
  insert_alone q =
      (alone_sorts (searching none) refl tt, (alone_returns (searching none) q refl tt).1)
