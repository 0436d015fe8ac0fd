-- ===== src/HashMap/Bucket/Race.antt =====
-- Threads that insert into one bucket, in any order of their atomic operations: each call takes effect
-- with the one exchange that succeeds.
use cyberrt_on_rpi.Base.{
  ap, is_some, ℕ, ◌≡◌, refl, Option, none, some, List, [], ◌∷◌, if◌then◌else◌, get_elem?, set, ◌++◌,
  All, All-elem, All-set, All-map, sym, ◌∙◌,
}
use cyberrt_on_rpi.HashMap.Bucket.{Entry, Insertion, Inserter, has, get, insert_step}
use cyberrt_on_rpi.HashMap.Bucket.Order.{IsSorted, lookup, get-lookup, has-stands, stands-lookup}
use cyberrt_on_rpi.HashMap.Bucket.Steps.{
  is_returned, set_all, set_all-append, IsSound, IsSound-Keeps, step-Advance,
}

pub record Race {ℓ} (V : Type ℓ) : Type ℓ where
  pub entries : List (Entry V)
  pub calls : List (Insertion V × Inserter)

module _ {ℓ} {V : Type ℓ} where
  unfoldable pub moved : ℕ → Option (Insertion V × Inserter) → Race V → Race V
  moved i none r = r
  moved i (some (c, p)) r =
      let (p', b) = insert_step c p r.entries in
      record { entries = b; calls = set r.calls i (c, p') }

  unfoldable pub take_turns : List ℕ → Race V → Race V
  take_turns [] r = r
  take_turns (i ∷ is) r = take_turns is (moved i (get_elem? r.calls i) r)

  -- The call that the thread finishes with its next operation.
  unfoldable pub finishes : Option (Insertion V × Inserter) → List (Entry V) → List (Insertion V)
  finishes none b = []
  finishes (some (c, p)) b =
      if is_returned p then [] else if is_returned (insert_step c p b).0 then c ∷ [] else []

  -- The calls that finish, in their order, before those of `later`.
  unfoldable pub finished : List ℕ → Race V → List (Insertion V)
  finished [] r = []
  finished (i ∷ is) r =
      finishes (get_elem? r.calls i) r.entries ++ finished is (moved i (get_elem? r.calls i) r)

-- The keys are in order, and what every call has found agrees with the bucket.
pub record IsConsistent {ℓ} {V : Type ℓ} (r : Race V) : Type ℓ where
  pub sorted : IsSorted 0 r.entries
  pub sound : All (λ c. IsSound c.0 c.1 r.entries) r.calls

module _ {ℓ} {V : Type ℓ} where
  moved-IsConsistent :
      (i : ℕ) (o : Option (Insertion V × Inserter)) (r : Race V)
      → get_elem? r.calls i ≡ o
      → IsConsistent r
      → IsConsistent (moved i o r)
  unfolding moved
  moved-IsConsistent i none r e h = h
  moved-IsConsistent i (some (c, p)) r e h =
      let P = λ (b : List (Entry V)) (k : Insertion V × Inserter). IsSound k.0 k.1 b in
      let step =
        step-Advance c r.entries h.sorted p (All-elem (P r.entries) r.calls i (c, p) e h.sound) in
      let b' = (insert_step c p r.entries).1 in
      record {
        sorted = step.sorted;
        sound =
            All-set (P b') r.calls i (c, (insert_step c p r.entries).0) step.sound
              (All-map (P r.entries) (P b') r.calls
                (λ k. IsSound-Keeps k.0 k.1 r.entries b' step.keeps) h.sound);
      }

  moved-lookup :
      (i : ℕ) (o : Option (Insertion V × Inserter)) (r : Race V) (q : ℕ)
      → get_elem? r.calls i ≡ o
      → IsConsistent r
      → lookup q (moved i o r).entries ≡ set_all (finishes o r.entries) q (lookup q r.entries)
  unfolding moved finishes set_all
  moved-lookup i none r q e h = refl
  moved-lookup i (some (c, p)) r q e h =
      let sound = All-elem (λ k. IsSound k.0 k.1 r.entries) r.calls i (c, p) e h.sound in
      (step-Advance c r.entries h.sorted p sound).effect q

  take_turns-IsConsistent :
      (is : List ℕ) (r : Race V) → IsConsistent r → IsConsistent (take_turns is r)
  unfolding take_turns
  take_turns-IsConsistent [] r h = h
  take_turns-IsConsistent (i ∷ is) r h =
      take_turns-IsConsistent is (moved i (get_elem? r.calls i) r)
        (moved-IsConsistent i (get_elem? r.calls i) r refl h)

  take_turns-lookup :
      (is : List ℕ) (r : Race V) (q : ℕ)
      → IsConsistent r
      → lookup q (take_turns is r).entries ≡ set_all (finished is r) q (lookup q r.entries)
  unfolding take_turns finished set_all
  take_turns-lookup [] r q h = refl
  take_turns-lookup (i ∷ is) r q h =
      let o = get_elem? r.calls i in
      take_turns-lookup is (moved i o r) q (moved-IsConsistent i o r refl h)
      ∙ ap (set_all (finished is (moved i o r)) q) (moved-lookup i o r q refl h)
      ∙ sym
          (set_all-append (finishes o r.entries) (finished is (moved i o r)) q (lookup q r.entries))

  -- However the threads that insert into a bucket take turns, `Get` gives for every key what the calls that
  -- have returned leave in a map when they set their keys one after the other, in the order in which they
  -- made their last exchange; `Has` says whether there is a value, and the keys stay in order.
  pub inserted :
      (is : List ℕ) (r : Race V) (q : ℕ)
      → IsConsistent r
      → let b = (take_turns is r).entries in
        (get q b ≡ set_all (finished is r) q (get q r.entries))
        × (has q b ≡ is_some (get q b))
        × IsSorted 0 b
  inserted is r q h =
      let h' = take_turns-IsConsistent is r h in
      let b = (take_turns is r).entries in
      let given = get-lookup q 0 b h'.sorted in
      let given' = get-lookup q 0 r.entries h.sorted in
      (
        given ∙ take_turns-lookup is r q h ∙ ap (set_all (finished is r) q) (sym given'),
        has-stands q 0 b h'.sorted ∙ stands-lookup q b ∙ ap is_some (sym given),
        h'.sorted,
      )
