-- ===== src/Scheduler/Classic/Scheduled/TakenOut.antt =====
-- Erasing a routine from its queue and from the table.
use cyberrt_on_rpi.Base.{
  ℕ, ◌+◌, ◌≤◌, ◌≡◌, refl, Bool, none, some, ◌==◌, ◌&&◌, if◌then◌else◌, arith, count, Bool-cases,
  Option-cases, inl, inr, sym, ◌∙◌, ap, ==_iff,
}
use cyberrt_on_rpi.Scheduler.Classic.{
  SchedulerClassic, find_id, erase_id, find_queued, erase_queued, update_queue,
}
use cyberrt_on_rpi.Scheduler.Classic.Scheduled.{IsScheduled}
use cyberrt_on_rpi.Scheduler.Classic.Scheduled.Lookup.{
  pointers, HasId, entries-erase_id, pointers-erase_id, All-erase_id, HasId-find_id,
  find_id-pointers, find_id-some, find_queued-some, find_queued-none, count-erase_queued,
}
use cyberrt_on_rpi.Scheduler.Classic.Scheduled.Preserved.{count-update_queue}

pub own_queue : (n ptr g p : ℕ) → n ≡ (if g == g && p == p then ptr else 0) → n ≡ ptr
own_queue n ptr g p e = ground arith

pub some-none {ℓ} : {A : Type ℓ} {a : A} → ¬ (some a ≡ none)
some-none e = cc

pub in_table : (n ptr : ℕ) (t : Bool) → n ≡ (if t then ptr else 0) → 1 ≤ n → 1 ≤ ptr
in_table n ptr t e h = ground arith

-- A routine that is registered stands in the queue of its group and priority.
pub found_there :
    (crid a : ℕ) (s : SchedulerClassic)
    → IsScheduled s
    → find_id crid s.id_cr ≡ some a
    → let cr = s.routines a in
      find_queued crid s.routines (s.cr_group cr.group_name cr.priority) ≡ some a
unfolding HasId
found_there crid a s h e =
    let cr = s.routines a in
    let q = s.cr_group cr.group_name cr.priority in
    let has_id = (HasId-find_id s.routines crid a s.id_cr h.ids e).0 in
    let listed = find_id-some crid a s.id_cr e in
    let standing = h.queues cr.group_name cr.priority a in
    elim (Option-cases (find_queued crid s.routines q)) [
      | inl missing ↦
          let out = find_queued-none s.routines crid a q missing has_id in
          let is = own_queue (count a q) (pointers a s.id_cr) cr.group_name cr.priority standing in
          absurd (omega (arith, out, is, listed))
      | inr (b, found) ↦
          let (id_b, in_queue) = find_queued-some s.routines crid b q found in
          let standing_b = h.queues cr.group_name cr.priority b in
          let same =
            (s.routines b).group_name == cr.group_name && (s.routines b).priority == cr.priority in
          let listed_b = in_table (count b q) (pointers b s.id_cr) same standing_b in_queue in
          let found_b =
            find_id-pointers s.routines b s.id_cr h.ids (h.unique (s.routines b).id) listed_b in
          found ∙ sym found_b ∙ ap (λ x. find_id x s.id_cr) id_b ∙ e
    ]

pub taken :
    (n c ptr ptr' : ℕ) (here there : Bool)
    → n + (if here then 1 else 0) ≡ c + (if here then 0 else 0)
    → c ≡ (if there then ptr else 0)
    → ptr' + 1 ≡ ptr
    → here ≡ there
    → n ≡ (if there then ptr' else 0)
taken n c ptr ptr' here there e was less same = ground arith

pub left :
    (n c ptr ptr' : ℕ) (here there : Bool)
    → n + (if here then 0 else 0) ≡ c + (if here then 0 else 0)
    → c ≡ (if there then ptr else 0)
    → ptr' + 0 ≡ ptr
    → n ≡ (if there then ptr' else 0)
left n c ptr ptr' here there e was same = ground arith

-- The routine is taken out of the table of the ids and of its queue.
pub taken_out-IsScheduled :
    (crid a : ℕ) (s : SchedulerClassic)
    → IsScheduled s
    → find_id crid s.id_cr ≡ some a
    → let cr = s.routines a in
      let queue = erase_queued crid s.routines (s.cr_group cr.group_name cr.priority) in
      IsScheduled (record s {
        id_cr = erase_id crid s.id_cr;
        cr_group = update_queue s.cr_group cr.group_name cr.priority queue;
      })
taken_out-IsScheduled crid a s h e =
    let cr = s.routines a in
    let q = s.cr_group cr.group_name cr.priority in
    let v = erase_queued crid s.routines q in
    record {
      ids = All-erase_id s.routines crid s.id_cr h.ids;
      unique = λ id. omega (arith, h.unique id, entries-erase_id id crid s.id_cr);
      queues = λ g p b.
          let was = h.queues g p b in
          let here = cr.group_name == g && cr.priority == p in
          let there = (s.routines b).group_name == g && (s.routines b).priority == p in
          let n = count b (update_queue s.cr_group cr.group_name cr.priority v g p) in
          let c = count b (s.cr_group g p) in
          let less = pointers-erase_id a b crid s.id_cr e in
          let fewer = count-erase_queued s.routines a b crid q (found_there crid a s h e) in
          let now = λ (m : ℕ) (k : (if b == a then 1 else 0) ≡ m).
            count-update_queue s.cr_group cr.group_name cr.priority g p b 0 m v
              (omega (arith, fewer, k)) in
          elim (Bool-cases (b == a)) [
            | inl same ↦
                let one : (if b == a then 1 else 0) ≡ 1 = rw same refl in
                let ids =
                  ap (λ x. (s.routines x).group_name == g && (s.routines x).priority == p)
                    ((==_iff b a).0 same) in
                taken n c (pointers b s.id_cr) (pointers b (erase_id crid s.id_cr)) here there
                  (now 1 one) was (omega (arith, less, one)) (sym ids)
            | inr other ↦
                let nothing : (if b == a then 1 else 0) ≡ 0 = rw other refl in
                left n c (pointers b s.id_cr) (pointers b (erase_id crid s.id_cr)) here there
                  (now 0 nothing) was (omega (arith, less, nothing))
          ];
    }

-- A routine that is not registered stands in no queue.
pub not_queued :
    (crid : ℕ) (s : SchedulerClassic) (g p : ℕ)
    → IsScheduled s
    → find_id crid s.id_cr ≡ none
    → find_queued crid s.routines (s.cr_group g p) ≡ none
not_queued crid s g p h e = elim (Option-cases (find_queued crid s.routines (s.cr_group g p))) [
  | inl out ↦ out
  | inr (b, found) ↦
      let (id_b, in_queue) = find_queued-some s.routines crid b (s.cr_group g p) found in
      let there = (s.routines b).group_name == g && (s.routines b).priority == p in
      let listed_b =
        in_table (count b (s.cr_group g p)) (pointers b s.id_cr) there (h.queues g p b) in_queue in
      let found_b =
        find_id-pointers s.routines b s.id_cr h.ids (h.unique (s.routines b).id) listed_b in
      absurd (some-none (sym found_b ∙ ap (λ x. find_id x s.id_cr) id_b ∙ e))
]
