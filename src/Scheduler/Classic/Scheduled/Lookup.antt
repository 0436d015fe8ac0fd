-- ===== src/Scheduler/Classic/Scheduled/Lookup.antt =====
-- Finding and erasing in the table of the ids and in a queue.
use cyberrt_on_rpi.Base.{
  ℕ, ◌+◌, ◌≤◌, ◌<◌, ◌≡◌, refl, none, some, List, [], ◌∷◌, ◌==◌, if◌then◌else◌, arith, All, count,
}
use cyberrt_on_rpi.Scheduler.CRoutine.{CRoutine}
use cyberrt_on_rpi.Scheduler.Context.{max_prio}
use cyberrt_on_rpi.Scheduler.Classic.{find_id, erase_id, find_queued, erase_queued}

-- How often an id, and how often an address, stands in the table.
unfoldable pub entries : ℕ → List (ℕ × ℕ) → ℕ
entries crid [] = 0
entries crid ((id, cr) ∷ rest) = (if id == crid then 1 else 0) + entries crid rest

unfoldable pub pointers : ℕ → List (ℕ × ℕ) → ℕ
pointers a [] = 0
pointers a ((id, cr) ∷ rest) = (if a == cr then 1 else 0) + pointers a rest

unfoldable pub HasId : (ℕ → CRoutine) → ℕ × ℕ → Type 0
HasId routines (id, cr) = ((routines cr).id ≡ id) × ((routines cr).priority < max_prio)

pub find_id-none : (crid : ℕ) (l : List (ℕ × ℕ)) → find_id crid l ≡ none → entries crid l ≡ 0
unfolding find_id entries
find_id-none crid [] h = refl
find_id-none crid ((id, cr) ∷ l) h = let rest = find_id-none crid l in ground arith

pub find_id-zero : (crid : ℕ) (l : List (ℕ × ℕ)) → entries crid l ≡ 0 → find_id crid l ≡ none
unfolding find_id entries
find_id-zero crid [] h = refl
find_id-zero crid ((id, cr) ∷ l) h = let rest = find_id-zero crid l in ground arith

pub entries-erase_found :
    (crid a : ℕ) (l : List (ℕ × ℕ))
    → find_id crid l ≡ some a
    → entries crid (erase_id crid l) + 1 ≡ entries crid l
unfolding find_id entries erase_id
entries-erase_found crid a [] h = absurd (ground arith)
entries-erase_found crid a ((id, cr) ∷ l) h =
    let rest = entries-erase_found crid a l in ground arith

pub entries-erase_id :
    (id crid : ℕ) (l : List (ℕ × ℕ)) → entries id (erase_id crid l) ≤ entries id l
unfolding erase_id entries
entries-erase_id id crid [] = omega arith
entries-erase_id id crid ((i, cr) ∷ l) = let rest = entries-erase_id id crid l in ground arith

pub pointers-erase_id :
    (a b crid : ℕ) (l : List (ℕ × ℕ))
    → find_id crid l ≡ some a
    → pointers b (erase_id crid l) + (if b == a then 1 else 0) ≡ pointers b l
unfolding find_id erase_id pointers
pointers-erase_id a b crid [] h = absurd (ground arith)
pointers-erase_id a b crid ((id, cr) ∷ l) h =
    let rest = pointers-erase_id a b crid l in ground arith

pub find_id-some : (crid a : ℕ) (l : List (ℕ × ℕ)) → find_id crid l ≡ some a → 1 ≤ pointers a l
unfolding find_id pointers
find_id-some crid a [] h = absurd (ground arith)
find_id-some crid a ((id, cr) ∷ l) h = let rest = find_id-some crid a l in ground arith

-- Only the ids of the routines matter to the search of a queue.
pub find_queued-same :
    (crid : ℕ) (r r' : ℕ → CRoutine) (q : List ℕ)
    → ((a : ℕ) → (r' a).id ≡ (r a).id)
    → find_queued crid r' q ≡ find_queued crid r q
unfolding find_queued
find_queued-same crid r r' [] same = refl
find_queued-same crid r r' (x ∷ q) same = rw (same x, find_queued-same crid r r' q same) refl

pub erase_queued-same :
    (crid : ℕ) (r r' : ℕ → CRoutine) (q : List ℕ)
    → ((a : ℕ) → (r' a).id ≡ (r a).id)
    → erase_queued crid r' q ≡ erase_queued crid r q
unfolding erase_queued
erase_queued-same crid r r' [] same = refl
erase_queued-same crid r r' (x ∷ q) same = rw (same x, erase_queued-same crid r r' q same) refl

module _ (routines : ℕ → CRoutine) where
  pub All-erase_id :
      (crid : ℕ) (l : List (ℕ × ℕ))
      → All (HasId routines) l
      → All (HasId routines) (erase_id crid l)
  unfolding erase_id All
  All-erase_id crid [] h = h
  All-erase_id crid ((id, cr) ∷ l) (h, hs) = let rest = All-erase_id crid l hs in ground arith

  pub HasId-find_id :
      (crid a : ℕ) (l : List (ℕ × ℕ))
      → All (HasId routines) l
      → find_id crid l ≡ some a
      → HasId routines (crid, a)
  unfolding find_id All HasId
  HasId-find_id crid a [] hs h = absurd (ground arith)
  HasId-find_id crid a ((id, cr) ∷ l) (i, is) h =
      let rest = HasId-find_id crid a l is in ground arith

  pub le-entries :
      (a : ℕ) (l : List (ℕ × ℕ)) → All (HasId routines) l → pointers a l ≤ entries (routines a).id l
  unfolding pointers entries All HasId
  le-entries a [] h = omega arith
  le-entries a ((id, cr) ∷ l) (h, hs) = let rest = le-entries a l hs in ground arith

  -- An address that the table has is found under the id of its routine.
  pub find_id-pointers :
      (a : ℕ) (l : List (ℕ × ℕ))
      → All (HasId routines) l
      → entries (routines a).id l ≤ 1
      → 1 ≤ pointers a l
      → find_id (routines a).id l ≡ some a
  unfolding pointers entries All HasId find_id
  find_id-pointers a [] h u p = absurd (omega arith)
  find_id-pointers a ((id, cr) ∷ l) (h, hs) u p =
      let rest = find_id-pointers a l hs in let one = le-entries a l hs in ground arith

  pub find_queued-some :
      (crid a : ℕ) (q : List ℕ)
      → find_queued crid routines q ≡ some a
      → ((routines a).id ≡ crid) × (1 ≤ count a q)
  unfolding find_queued count
  find_queued-some crid a [] h = absurd (ground arith)
  find_queued-some crid a (x ∷ q) h = let rest = find_queued-some crid a q in ground arith

  pub find_queued-none :
      (crid a : ℕ) (q : List ℕ)
      → find_queued crid routines q ≡ none
      → (routines a).id ≡ crid
      → count a q ≡ 0
  unfolding find_queued count
  find_queued-none crid a [] h e = refl
  find_queued-none crid a (x ∷ q) h e = let rest = find_queued-none crid a q in ground arith

  pub count-erase_queued :
      (a b crid : ℕ) (q : List ℕ)
      → find_queued crid routines q ≡ some a
      → count b (erase_queued crid routines q) + (if b == a then 1 else 0) ≡ count b q
  unfolding find_queued erase_queued count
  count-erase_queued a b crid [] h = absurd (ground arith)
  count-erase_queued a b crid (x ∷ q) h = let rest = count-erase_queued a b crid q in ground arith
