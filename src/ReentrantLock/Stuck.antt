-- ===== src/ReentrantLock/Stuck.antt =====
-- A thread that waits for a lock that it has itself.
use cyberrt_on_rpi.Base.{
  ℕ, ◌^◌, ◌<◌, ◌≡◌, ◌≢◌, ◌∙◌, ap, refl, sym, subst, inl, inr, Bool, true, false, not, ◌&&◌, none,
  List, [], ◌∷◌, ◌==◌, if◌then◌else◌, arith, Bool-cases, ==_iff, ==_refl,
}
use cyberrt_on_rpi.ReentrantLock.{
  rw_lock_free, write_exclusive, ReentrantRwLock, Guard, Place, outside, loading, testing,
  exchanging, reentering, counting, waiting, owning, uncounting, leaving, clearing, Thread, Action,
  read_lock, write_lock, unlock, Choice, is_owner, must_wait, at, unlock_guard, begin, thread_step,
  System, moved, take_turns,
}

-- The places of a thread without the lock that can only get it when it is free.
abbrev pub Out : Place → Type 0
Out outside = Unit
Out loading = Unit
Out (testing seen) = Unit
Out (exchanging seen) = seen < 2 ^ 31
Out reentering = ⊥
Out counting = Unit
Out waiting = Unit
Out owning = ⊥
Out uncounting = ⊥
Out leaving = ⊥
Out clearing = ⊥

abbrev pub CannotEnter : Thread → Type 0
CannotEnter t = (t.guards ≡ []) × Out t.stage

-- The lock is taken, nobody is its owner by its id, the thread `j` waits for it, and no other has it.
pub record IsStuck (j : ℕ) (s : System) : Type 0 where
  pub number : s.lock.lock_num ≡ write_exclusive
  pub nobody : s.lock.write_thread_id ≡ none
  pub waits : (s.threads j).stage ≡ waiting
  pub others : (k : ℕ) → k ≢ j → CannotEnter (s.threads k)

abbrev StaysOut : Thread × ReentrantRwLock → Type 0
StaysOut (t, l) = CannotEnter t × (l.lock_num ≡ write_exclusive) × (l.write_thread_id ≡ none)

if-StaysOut :
    (b : Bool) (x y : Thread × ReentrantRwLock)
    → (b ≡ true → StaysOut x)
    → StaysOut y
    → StaysOut (if b then x else y)
if-StaysOut true x y h h' = h refl
if-StaysOut false x y h h' = h'

pub is_owner-none : (i : ℕ) (l : ReentrantRwLock) → l.write_thread_id ≡ none → is_owner i l ≡ false
unfolding is_owner
is_owner-none i l w = rw w refl

unlock_guard-StaysOut :
    (gs : List Guard) (i : ℕ) (t : Thread) (l : ReentrantRwLock)
    → gs ≡ []
    → StaysOut (t, l)
    → StaysOut (unlock_guard gs i t l)
unfolding unlock_guard
unlock_guard-StaysOut [] i t l e h = h
unlock_guard-StaysOut (g ∷ gs) i t l e h = absurd (cc e)

begin-StaysOut :
    (a : Action) (i : ℕ) (t : Thread) (l : ReentrantRwLock)
    → t.stage ≡ outside
    → t.guards ≡ []
    → l.lock_num ≡ write_exclusive
    → l.write_thread_id ≡ none
    → StaysOut (begin a i t l)
unfolding begin at
begin-StaysOut read_lock i t l p g n w = rw (is_owner-none i l w) ((g, tt), n, w)
begin-StaysOut write_lock i t l p g n w = rw (is_owner-none i l w) ((g, tt), n, w)
begin-StaysOut unlock i t l p g n w =
    unlock_guard-StaysOut t.guards i t l g ((g, subst Out (sym p) tt), n, w)

exchange_fails :
    (seen n : ℕ) (spurious : Bool)
    → seen < 2 ^ 31
    → n ≡ write_exclusive
    → (n == seen && not spurious) ≡ false
exchange_fails seen n spurious h e = ground arith

must_wait_lem : (seen : ℕ) (l : ReentrantRwLock) → must_wait seen l ≡ false → seen < 2 ^ 31
unfolding must_wait
must_wait_lem seen l h = ground arith

taken_fails :
    (n : ℕ) (spurious : Bool) → n ≡ write_exclusive → (n == rw_lock_free && not spurious) ≡ false
taken_fails n spurious e = ground arith

thread_step-StaysOut :
    (i : ℕ) (c : Choice) (p : Place) (t : Thread) (l : ReentrantRwLock)
    → t.stage ≡ p
    → Out p
    → t.guards ≡ []
    → l.lock_num ≡ write_exclusive
    → l.write_thread_id ≡ none
    → StaysOut (thread_step i c p t l)
unfolding thread_step at
thread_step-StaysOut i c outside t l e o g n w = begin-StaysOut c.action i t l e g n w
thread_step-StaysOut i c loading t l e o g n w = ((g, tt), n, w)
thread_step-StaysOut i c (testing seen) t l e o g n w = elim (Bool-cases (must_wait seen l)) [
  | inl h ↦ rw h ((g, tt), n, w)
  | inr h ↦ rw h ((g, must_wait_lem seen l h), n, w)
]
thread_step-StaysOut i c (exchanging seen) t l e o g n w =
    rw (exchange_fails seen l.lock_num c.spurious o n) ((g, tt), n, w)
thread_step-StaysOut i c reentering t l e o g n w = elim o [ ]
thread_step-StaysOut i c counting t l e o g n w = ((g, tt), n, w)
thread_step-StaysOut i c waiting t l e o g n w =
    rw (taken_fails l.lock_num c.spurious n) ((g, subst Out (sym e) tt), n, w)
thread_step-StaysOut i c owning t l e o g n w = elim o [ ]
thread_step-StaysOut i c uncounting t l e o g n w = elim o [ ]
thread_step-StaysOut i c leaving t l e o g n w = elim o [ ]
thread_step-StaysOut i c clearing t l e o g n w = elim o [ ]

waiting_stays :
    (j : ℕ) (c : Choice) (p : Place) (t : Thread) (l : ReentrantRwLock)
    → p ≡ waiting
    → l.lock_num ≡ write_exclusive
    → thread_step j c p t l ≡ (t, l)
unfolding thread_step
waiting_stays j c p t l e n = rw e (rw (taken_fails l.lock_num c.spurious n) refl)

differ : (j i : ℕ) → (j == i) ≡ false → i ≢ j
differ j i h = ground arith

moved_self-IsStuck : (j : ℕ) (c : Choice) (s : System) → IsStuck j s → IsStuck j (moved j c s)
unfolding moved
moved_self-IsStuck j c s h =
    let q = waiting_stays j c (s.threads j).stage (s.threads j) s.lock h.waits h.number in
    record {
      number = ap (λ r. r.1.lock_num) q ∙ h.number;
      nobody = ap (λ r. r.1.write_thread_id) q ∙ h.nobody;
      waits = rw (==_refl j) (ap (λ r. r.0.stage) q ∙ h.waits);
      others = λ k n. let other : (k == j) ≡ false = ground arith in rw other (h.others k n);
    }

moved_other-IsStuck :
    (j i : ℕ) (c : Choice) (s : System) → (j == i) ≡ false → IsStuck j s → IsStuck j (moved i c s)
unfolding moved
moved_other-IsStuck j i c s other h =
    let (g, o) = h.others i (differ j i other) in
    let (out, n, w) =
      thread_step-StaysOut i c (s.threads i).stage (s.threads i) s.lock refl o g h.number
        h.nobody in
    record {
      number = n;
      nobody = w;
      waits = rw other h.waits;
      others = λ k d. elim (Bool-cases (k == i)) [ inl e ↦ rw e out | inr e ↦ rw e (h.others k d) ];
    }

moved-IsStuck : (j i : ℕ) (c : Choice) (s : System) → IsStuck j s → IsStuck j (moved i c s)
moved-IsStuck j i c s h = elim (Bool-cases (j == i)) [
  | inl same ↦
      subst (λ x. IsStuck j (moved x c s)) ((==_iff j i).0 same) (moved_self-IsStuck j c s h)
  | inr other ↦ moved_other-IsStuck j i c s other h
]

pub take_turns-IsStuck :
    (j : ℕ) (ts : List (ℕ × Choice)) (s : System) → IsStuck j s → IsStuck j (take_turns ts s)
unfolding take_turns
take_turns-IsStuck j [] s h = h
take_turns-IsStuck j ((i, c) ∷ ts) s h =
    take_turns-IsStuck j ts (moved i c s) (moved-IsStuck j i c s h)
