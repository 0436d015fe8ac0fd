-- ===== src/Scheduler/Classic/Scheduled/Removed.antt =====
-- Removing a routine: it is found in its queue, and is in no table afterwards.
use cyberrt_on_rpi.Base.{
  is_some, ◌++◌, ◌≢◌, ℕ, ◌≡◌, refl, Bool, true, false, Option, none, some, List, [], ◌∷◌, arith,
  All, update, Bool-cases, Option-cases, inl, inr, sym, ◌∙◌, subst,
}
use mathlib.Core.Option.{some-injective}
use cyberrt_on_rpi.Scheduler.CRoutine.{CRoutine, stop, release}
use cyberrt_on_rpi.Scheduler.Classic.{
  SchedulerClassic, find_id, erase_id, erase_queued, remove_croutine, remove_found, remove_queued,
  take_out, acquired, update_queue,
}
use cyberrt_on_rpi.Scheduler.Classic.Scheduled.{IsScheduled}
use cyberrt_on_rpi.Scheduler.Classic.Scheduled.Lookup.{
  find_id-zero, entries-erase_found, find_queued-same, erase_queued-same,
}
use cyberrt_on_rpi.Scheduler.Classic.Scheduled.Preserved.{SamePlace, IsScheduled-same, changed}
use cyberrt_on_rpi.Scheduler.Classic.Scheduled.TakenOut.{
  some-none, found_there, taken_out-IsScheduled,
}

-- What others do to a routine while it is waited for leaves it in its place.
unfoldable pub KeepsPlace : (CRoutine → CRoutine) → Type 0
KeepsPlace others = (cr : CRoutine) → SamePlace (others cr) cr

locked-SamePlace :
    (cr locked : CRoutine) → some (record cr { lock = true }) ≡ some locked → SamePlace locked cr
unfolding SamePlace
locked-SamePlace cr locked e =
    subst (λ c. SamePlace c cr) (some-injective (record cr { lock = true }) locked e)
      (refl, refl, refl)

acquired-SamePlace :
    (rounds : List (CRoutine → CRoutine)) (cr locked : CRoutine)
    → All KeepsPlace rounds
    → acquired rounds cr ≡ some locked
    → SamePlace locked cr
unfolding acquired All KeepsPlace SamePlace
acquired-SamePlace [] cr locked h e = elim (Bool-cases cr.lock) [
  | inl held ↦ absurd (some-none {a = locked} (sym e ∙ rw held refl))
  | inr free ↦ locked-SamePlace cr locked (sym (rw free refl) ∙ e)
]
acquired-SamePlace (f ∷ rounds) cr locked (h, hs) e = elim (Bool-cases cr.lock) [
  | inl held ↦
      let rest = acquired-SamePlace rounds (f cr) locked hs (sym (rw held refl) ∙ e) in
      let kept = h cr in (rest.0 ∙ kept.0, rest.1 ∙ kept.1, rest.2 ∙ kept.2)
  | inr free ↦ locked-SamePlace cr locked (sym (rw free refl) ∙ e)
]

acquired-some :
    (rounds : List (CRoutine → CRoutine)) (f : CRoutine → CRoutine) (cr : CRoutine)
    → ((c : CRoutine) → (f c).lock ≡ false)
    → acquired (rounds ++ (f ∷ [])) cr ≢ none
unfolding acquired
acquired-some [] f cr free e = elim (Bool-cases cr.lock) [
  | inl held ↦ some-none {a = record (f cr) { lock = true }} (sym (rw (free cr, held) refl) ∙ e)
  | inr unlocked ↦ some-none {a = record cr { lock = true }} (sym (rw unlocked refl) ∙ e)
]
acquired-some (g ∷ rounds) f cr free e = elim (Bool-cases cr.lock) [
  | inl held ↦ acquired-some rounds f (g cr) free (sym (rw held refl) ∙ e)
  | inr unlocked ↦ some-none {a = record cr { lock = true }} (sym (rw unlocked refl) ∙ e)
]

-- What `RemoveCRoutine` returns, and what it leaves.
pub record Removes (crid : ℕ) (s : SchedulerClassic) (r : SchedulerClassic × Option Bool)
    : Type 0 where
  pub returns : r.1 ≡ some (is_some (find_id crid s.id_cr))
  pub keeps : IsScheduled r.0
  pub forgets : find_id crid r.0.id_cr ≡ none

SamePlace-trans : (c d f : CRoutine) → SamePlace c d → SamePlace d f → SamePlace c f
unfolding SamePlace
SamePlace-trans c d f h k = (h.0 ∙ k.0, h.1 ∙ k.1, h.2 ∙ k.2)

id_of : (c d : CRoutine) → SamePlace c d → c.id ≡ d.id
unfolding SamePlace
id_of c d h = h.0

module _ (crid a : ℕ) (s : SchedulerClassic) (h : IsScheduled s)
    (e : find_id crid s.id_cr ≡ some a) where
  take_out-Removes :
      (r : ℕ → CRoutine) (locked : CRoutine)
      → ((b : ℕ) → SamePlace (r b) (s.routines b))
      → SamePlace locked (r a)
      → Removes crid s (
          take_out
            (some locked)
            crid
            a
            (s.routines a)
            (record s { routines = r; id_cr = erase_id crid s.id_cr }))
  unfolding take_out release SamePlace
  take_out-Removes r locked same same_locked =
      let cr = s.routines a in
      let q = s.cr_group cr.group_name cr.priority in
      let r' = update r a (release locked) in
      let same' = λ (b : ℕ).
        SamePlace-trans (r' b) (r b) (s.routines b) (changed r a (release locked) same_locked b)
          (same b) in
      let erased =
        erase_queued-same crid s.routines r q (λ b. id_of (r b) (s.routines b) (same b)) in
      let keeps =
        IsScheduled-same
          (record s {
            id_cr = erase_id crid s.id_cr;
            cr_group =
                update_queue s.cr_group cr.group_name cr.priority (erase_queued crid s.routines q);
          })
          r' same' (taken_out-IsScheduled crid a s h e) in
      record {
        returns = rw e refl;
        keeps =
            subst
              (λ v. IsScheduled (record s {
                id_cr = erase_id crid s.id_cr;
                cr_group = update_queue s.cr_group cr.group_name cr.priority v;
                routines = r';
              }))
              (sym erased) keeps;
        forgets =
            find_id-zero crid (erase_id crid s.id_cr)
              (omega (arith, h.unique crid, entries-erase_found crid a s.id_cr e));
      }

  -- The routine is found in its queue, and waited for.
  remove_found-Removes :
      (rounds : List (CRoutine → CRoutine)) (f : CRoutine → CRoutine)
      → All KeepsPlace (rounds ++ (f ∷ []))
      → ((c : CRoutine) → (f c).lock ≡ false)
      → Removes crid s (remove_found (rounds ++ (f ∷ [])) crid (some a) s)
  unfolding remove_found remove_queued stop SamePlace
  remove_found-Removes rounds f keep free =
      let cr = s.routines a in
      let q = s.cr_group cr.group_name cr.priority in
      let r = update s.routines a (stop cr) in
      let r' = update r a (stop (r a)) in
      let same = changed s.routines a (stop cr) (refl, refl, refl) in
      let same' = λ (b : ℕ).
        SamePlace-trans (r' b) (r b) (s.routines b) (changed r a (stop (r a)) (refl, refl, refl) b)
          (same b) in
      let found =
        find_queued-same crid s.routines r q (λ b. id_of (r b) (s.routines b) (same b))
        ∙ found_there crid a s h e in
      elim (Option-cases (acquired (rounds ++ (f ∷ [])) (r' a))) [
        | inl waits ↦ absurd (acquired-some rounds f (r' a) free waits)
        | inr (locked, got) ↦
            let kept = acquired-SamePlace (rounds ++ (f ∷ [])) (r' a) locked keep got in
            rw (found, got) (take_out-Removes r' locked same' kept)
      ]

-- `RemoveCRoutine`, where the routine is given back at last, returns whether the id was registered.
-- Afterwards it is not, and the table and the queues agree as before.
pub remove_croutine-Removes :
    (rounds : List (CRoutine → CRoutine)) (f : CRoutine → CRoutine) (crid : ℕ)
    (s : SchedulerClassic)
    → All KeepsPlace (rounds ++ (f ∷ []))
    → ((c : CRoutine) → (f c).lock ≡ false)
    → IsScheduled s
    → Removes crid s (remove_croutine (rounds ++ (f ∷ [])) crid s)
unfolding remove_croutine remove_found
remove_croutine-Removes rounds f crid s keep free h = elim (Option-cases (find_id crid s.id_cr)) [
  | inl missing ↦ rw missing (record { returns = rw missing refl; keeps = h; forgets = missing })
  | inr (a, e) ↦ rw e (remove_found-Removes crid a s h e rounds f keep free)
]
