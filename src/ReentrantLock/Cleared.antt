-- ===== src/ReentrantLock/Cleared.antt =====
-- The owner that `WriteUnlock` clears too late.
use cyberrt_on_rpi.Base.{
  ℕ, ◌≡◌, ◌≢◌, ◌∙◌, ap, refl, sym, inl, inr, Bool, false, Option, none, some, List, [], ◌∷◌, ◌++◌,
  ◌==◌, arith, update, Bool-cases, ==_iff, ==_refl, replicate, fun_ext, zero, suc,
}
use cyberrt_on_rpi.ReentrantLock.{
  write_exclusive, ReentrantRwLock, Guard, writes, Place, outside, waiting, clearing, Thread,
  Action, write_lock, unlock, Choice, is_owner, at, push, tail, pop, unlock_guard, begin,
  thread_step, System, moved, take_turns, init,
}
use cyberrt_on_rpi.ReentrantLock.Stuck.{IsStuck, take_turns-IsStuck}

abbrev turns : ℕ → ℕ → Action → List (ℕ × Choice)
turns n i a = replicate n (i, record { action = a; spurious = false })

abbrev rest₃ : ℕ → ℕ → List (ℕ × Choice)
rest₃ i j = turns 1 i unlock ++ turns 3 j write_lock

abbrev rest₂ : ℕ → ℕ → List (ℕ × Choice)
rest₂ i j = turns 5 j write_lock ++ rest₃ i j

abbrev rest₁ : ℕ → ℕ → List (ℕ × Choice)
rest₁ i j = turns 1 i unlock ++ rest₂ i j

-- The thread `i` takes the lock to write, and frees it; before it clears the id, the thread `j` takes the
-- lock, and then calls `WriteLock` once more.
abbrev pub race : ℕ → ℕ → List (ℕ × Choice)
race i j = turns 5 i write_lock ++ rest₁ i j

-- What a thread makes of itself and the lock by turns of its own.
unfoldable alone : ℕ → List (ℕ × Choice) → Thread → ReentrantRwLock → Thread × ReentrantRwLock
alone i [] t l = (t, l)
alone i ((_, c) ∷ ts) t l = let (t', l') = thread_step i c t.stage t l in alone i ts t' l'

update_same : (f : ℕ → Thread) (i : ℕ) → update f i (f i) ≡ f
update_same f i = fun_ext (λ j. elim (Bool-cases (j == i)) [
  | inl same ↦ rw same (ap f (sym ((==_iff j i).0 same)))
  | inr other ↦ rw other refl
])

update_again : (f : ℕ → Thread) (i : ℕ) (t t' : Thread) → update (update f i t) i t' ≡ update f i t'
update_again f i t t' =
    fun_ext
      (λ j. elim (Bool-cases (j == i)) [ inl same ↦ rw same refl | inr other ↦ rw other refl ])

update_self : (f : ℕ → Thread) (i : ℕ) (t : Thread) → update f i t i ≡ t
update_self f i t = rw (==_refl i) refl

take_turns-alone :
    (n i : ℕ) (a : Action) (s : System)
    → let (t, l) = alone i (turns n i a) (s.threads i) s.lock in
      take_turns (turns n i a) s ≡ record { lock = l; threads = update s.threads i t }
unfolding take_turns moved alone
take_turns-alone zero i a s =
    ap (λ f. record { lock = s.lock; threads = f }) (sym (update_same s.threads i))
take_turns-alone (suc n) i a s =
    let c : Choice = record { action = a; spurious = false } in
    let (t, l) = thread_step i c (s.threads i).stage (s.threads i) s.lock in
    take_turns-alone n i a (moved i c s)
    ∙ ap
        (λ x. record {
          lock = (alone i (turns n i a) x l).1;
          threads = update (update s.threads i t) i (alone i (turns n i a) x l).0;
        })
        (update_self s.threads i t)
    ∙ ap (λ f. record { lock = (alone i (turns n i a) t l).1; threads = f })
        (update_again s.threads i t (alone i (turns n i a) t l).0)

-- The turns of a thread, from where it stands to where they leave it.
phase :
    (n i : ℕ) (a : Action) (s : System) (t t' : Thread) (l : ReentrantRwLock)
    → s.threads i ≡ t
    → alone i (turns n i a) t s.lock ≡ (t', l)
    → take_turns (turns n i a) s ≡ record { lock = l; threads = update s.threads i t' }
phase n i a s t t' l e r =
    let q = ap (λ x. alone i (turns n i a) x s.lock) e ∙ r in
    take_turns-alone n i a s ∙ ap (λ x. record { lock = x.1; threads = update s.threads i x.0 }) q

take_turns-append :
    (ts us : List (ℕ × Choice)) (s : System)
    → take_turns (ts ++ us) s ≡ take_turns us (take_turns ts s)
unfolding take_turns
take_turns-append [] us s = refl
take_turns-append ((i, c) ∷ ts) us s = take_turns-append ts us (moved i c s)

abbrev lock : Bool → Option ℕ → ℕ → ℕ → ReentrantRwLock
lock write_first id waits number = record {
  write_thread_id = id;
  write_lock_wait_num = waits;
  lock_num = number;
  write_first = write_first;
}

abbrev stands : Place → List Guard → Thread
stands p gs = record { stage = p; guards = gs }

-- The thread takes the free lock, of which it is not the owner by its id, and frees it, or clears the id, or
-- comes to wait.
takes_lock :
    (i : ℕ) (b : Bool) (id : Option ℕ)
    → is_owner i (lock b id 0 0) ≡ false
    → alone i (turns 5 i write_lock) (stands outside []) (lock b id 0 0)
      ≡ (stands outside (writes ∷ []), lock b (some i) 0 write_exclusive)
unfolding alone thread_step begin at push
takes_lock i b id free = rw free refl

frees_lock :
    (i : ℕ) (b : Bool)
    → alone i (turns 1 i unlock) (stands outside (writes ∷ [])) (lock b (some i) 0 write_exclusive)
      ≡ (stands clearing [], lock b (some i) 0 0)
unfolding alone thread_step begin unlock_guard pop tail
frees_lock i b = refl

clears_id :
    (i j : ℕ) (b : Bool)
    → alone i (turns 1 i unlock) (stands clearing []) (lock b (some j) 0 write_exclusive)
      ≡ (stands outside [], lock b none 0 write_exclusive)
unfolding alone thread_step at
clears_id i j b = refl

waits_for_itself :
    (j : ℕ) (b : Bool)
    → alone j (turns 3 j write_lock) (stands outside (writes ∷ [])) (lock b none 0 write_exclusive)
      ≡ (stands waiting (writes ∷ []), lock b none 1 write_exclusive)
unfolding alone thread_step begin at is_owner
waits_for_itself j b = refl

free_lock : (i : ℕ) (b : Bool) → is_owner i (lock b none 0 0) ≡ false
unfolding is_owner
free_lock i b = refl

other_owner : (i j : ℕ) (b : Bool) → (i == j) ≡ false → is_owner j (lock b (some i) 0 0) ≡ false
unfolding is_owner
other_owner i j b h = h

after :
    (ts us : List (ℕ × Choice)) (s s' s'' : System)
    → take_turns ts s ≡ s'
    → take_turns us s' ≡ s''
    → take_turns (ts ++ us) s ≡ s''
after ts us s s' s'' p q = take_turns-append ts us s ∙ ap (take_turns us) p ∙ q

-- The threads after the race.
abbrev raced : ℕ → ℕ → ℕ → Thread
raced i j =
    update
      (update
        (update
          (update (update (λ _. stands outside []) i (stands outside (writes ∷ []))) i
            (stands clearing []))
          j (stands outside (writes ∷ [])))
        i (stands outside []))
      j (stands waiting (writes ∷ []))

race_lem :
    (i j : ℕ) (b : Bool)
    → i ≢ j
    → take_turns (race i j) (init b)
      ≡ record { lock = lock b none 1 write_exclusive; threads = raced i j }
unfolding init
race_lem i j b d =
    let ji : (j == i) ≡ false = ground arith in
    let ij : (i == j) ≡ false = ground arith in
    let f₁ = update (λ _. stands outside []) i (stands outside (writes ∷ [])) in
    let f₂ = update f₁ i (stands clearing []) in
    let f₃ = update f₂ j (stands outside (writes ∷ [])) in
    let f₄ = update f₃ i (stands outside []) in
    let sys = λ (l : ReentrantRwLock).
      λ (f : ℕ → Thread). (let s : System = record { lock = l; threads = f } in s) in
    let l₁ = lock b (some i) 0 write_exclusive in
    let l₂ = lock b (some i) 0 0 in
    let l₃ = lock b (some j) 0 write_exclusive in
    let l₄ = lock b none 0 write_exclusive in
    let end = sys (lock b none 1 write_exclusive) (raced i j) in
    let p₁ =
      phase 5 i write_lock (init b) (stands outside []) (stands outside (writes ∷ [])) l₁ refl
        (takes_lock i b none (free_lock i b)) in
    let p₂ =
      phase 1 i unlock (sys l₁ f₁) (stands outside (writes ∷ [])) (stands clearing []) l₂
        (update_self (λ _. stands outside []) i (stands outside (writes ∷ []))) (frees_lock i b) in
    let p₃ =
      phase 5 j write_lock (sys l₂ f₂) (stands outside []) (stands outside (writes ∷ [])) l₃
        (rw ji refl) (takes_lock j b (some i) (other_owner i j b ij)) in
    let p₄ =
      phase 1 i unlock (sys l₃ f₃) (stands clearing []) (stands outside []) l₄
        (rw ij (rw (==_refl i) refl)) (clears_id i j b) in
    let p₅ =
      phase 3 j write_lock (sys l₄ f₄) (stands outside (writes ∷ [])) (stands waiting (writes ∷ []))
        (lock b none 1 write_exclusive) (rw ji (rw (==_refl j) refl)) (waits_for_itself j b) in
    after (turns 5 i write_lock) (rest₁ i j) (init b) (sys l₁ f₁) end p₁ (
      after (turns 1 i unlock) (rest₂ i j) (sys l₁ f₁) (sys l₂ f₂) end p₂ (
        after (turns 5 j write_lock) (rest₃ i j) (sys l₂ f₂) (sys l₃ f₃) end p₃
          (after (turns 1 i unlock) (turns 3 j write_lock) (sys l₃ f₃) (sys l₄ f₄) end p₄ p₅)))

race-IsStuck : (i j : ℕ) (b : Bool) → i ≢ j → IsStuck j (take_turns (race i j) (init b))
race-IsStuck i j b d = rw (race_lem i j b d) (record {
  number = refl;
  nobody = refl;
  waits = rw (==_refl j) refl;
  others = λ k n.
      let kj : (k == j) ≡ false = ground arith in
      elim (Bool-cases (k == i)) [ inl e ↦ rw (kj, e) (refl, tt) | inr e ↦ rw (kj, e) (refl, tt) ];
})

-- Two threads of a new lock: the first takes it to write and frees it, the second takes it before the first
-- clears the id of the owner, and calls `WriteLock` once more, as a thread that has the lock may. Then the
-- second waits for itself for ever, and no other thread gets the lock again, whatever the threads do.
pub cleared :
    (i j : ℕ) (write_first : Bool) (ts : List (ℕ × Choice)) (k : ℕ)
    → i ≢ j
    → k ≢ j
    → let s = take_turns ts (take_turns (race i j) (init write_first)) in
      ((s.threads j).stage ≡ waiting)
      × ((s.threads k).guards ≡ [])
      × (s.lock.lock_num ≡ write_exclusive)
cleared i j write_first ts k d n =
    let h =
      take_turns-IsStuck j ts (take_turns (race i j) (init write_first))
        (race-IsStuck i j write_first d) in
    (h.waits, (h.others k n).0, h.number)
