-- ===== src/Data/CacheBuffer/Holds.antt =====
-- `CacheBuffer` as the last values of a history: which values it holds, and where.
use cyberrt_on_rpi.Base.{
  ℕ, ◌+◌, ◌-◌, ◌%◌, ◌^◌, ◌<◌, ◌≤◌, ◌≡◌, List, [], ◌∷◌, ◌++◌, length, get_or, set, arith,
  length-append, get_or-append_left, get_or-append_last, length-set, get_or-set_self, get_or-set_ne,
  length-replicate, inl, inr, Bool-cases, leb, leb→le, leb-false, ◌==◌, add64, min, ◌∙◌, ap, sym,
}
use native.Mathlib.Nat.{mod-lt, add-mod_right}
use cyberrt_on_rpi.Base.Remainders.{mod-ne}
use cyberrt_on_rpi.Data.CacheBuffer.{CacheBuffer, init, store, at, is_full, size, is_empty, first}

module _ {ℓ} {A : Type ℓ} where
  -- `h` lists the values that were stored, the oldest first. The ring holds the last of them, as many as
  -- it was made for, and finds the i-th value that was stored under the number i.
  pub record Holds (null : A) (b : CacheBuffer A) (h : List A) : Type ℓ where
    pub some_room : 0 < b.capacity
    pub capacity_in : b.capacity < 2 ^ 63
    pub few : length h < 2 ^ 63
    pub length_buffer : length b.buffer ≡ b.capacity
    pub tail_lem : b.tail ≡ length h
    pub head_lem : b.head ≡ length h - (b.capacity - 1)
    pub content :
        (i : ℕ)
        → length h - (b.capacity - 1) < i
        → i ≤ length h
        → get_or b.buffer (i % b.capacity) null ≡ get_or h (i - 1) null

  module _ (null : A) (b : CacheBuffer A) (h : List A) (v : A) (holds : Holds null b h)
      (few : length h + 1 < 2 ^ 63) where
    is_full_lem : is_full b ≡ leb (b.capacity - 1) (length h)
    unfolding is_full
    is_full_lem = ground (arith, holds)

    -- Both branches of `Fill` write at the same place of the ring.
    store_lem : store b v ≡ record b {
      buffer = set b.buffer ((length h + 1) % b.capacity) v;
      head = length h + 1 - (b.capacity - 1);
      tail = length h + 1;
    }
    unfolding store
    store_lem = elim (Bool-cases (leb (b.capacity - 1) (length h))) [
      | inl full ↦
          let e : length h + 1 ≡ b.head + b.capacity =
            omega (arith, leb→le _ _ full, holds.head_lem, holds.some_room) in
          let same : b.head % b.capacity ≡ (length h + 1) % b.capacity =
            sym (add-mod_right b.head b.capacity) ∙ ap (λ k. k % b.capacity) (sym e) in
          let head' : add64 b.head 1 ≡ length h + 1 - (b.capacity - 1) =
            omega (arith, holds.some_room) in
          let tail' : add64 b.tail 1 ≡ length h + 1 = omega (arith, holds.tail_lem) in
          rw (is_full_lem, full) (cc (same, head', tail'))
      | inr room ↦
          let head' : b.head ≡ length h + 1 - (b.capacity - 1) =
            omega (arith, leb-false _ _ room, holds.head_lem) in
          let tail' : add64 b.tail 1 ≡ length h + 1 = omega (arith, holds.tail_lem) in
          rw (is_full_lem, room) (cc (head', tail'))
    ]

    content_new :
        (i : ℕ)
        → length h + 1 - (b.capacity - 1) < i
        → i ≤ length h + 1
        → get_or (set b.buffer ((length h + 1) % b.capacity) v) (i % b.capacity) null
          ≡ get_or (h ++ (v ∷ [])) (i - 1) null
    content_new i lo hi = elim (Bool-cases (i == length h + 1)) [
      | inl new ↦
          let e : i ≡ length h + 1 = ground arith in
          let e' : length h + 1 - 1 ≡ length h = omega arith in
          rw (e, e', get_or-append_last)
            (get_or-set_self b.buffer ((length h + 1) % b.capacity) v null (
              omega (
                arith,
                holds.some_room,
                holds.length_buffer,
                mod-lt (length h + 1) holds.some_room,
              )))
      | inr old ↦
          let less : i < length h + 1 = ground arith in
          get_or-set_ne b.buffer ((length h + 1) % b.capacity) (i % b.capacity) v null
            (λ e. mod-ne i (length h + 1) b.capacity less (omega (arith, holds.some_room)) (sym e))
          ∙ holds.content i (omega arith) (omega arith)
          ∙ sym (get_or-append_left h (v ∷ []) (i - 1) null (omega arith))
    ]

    -- `Fill` without a callback appends to the history. (Fewer than 2^63 values are ever stored.)
    pub store-Holds : Holds null (store b v) (h ++ (v ∷ []))
    store-Holds = rw (store_lem) (record {
      some_room = holds.some_room;
      capacity_in = holds.capacity_in;
      few = omega (arith, length-append h (v ∷ []), few);
      length_buffer = length-set b.buffer ((length h + 1) % b.capacity) v ∙ holds.length_buffer;
      tail_lem = omega (arith, length-append h (v ∷ []));
      head_lem = omega (arith, length-append h (v ∷ []));
      content = λ i lo hi.
          content_new i (omega (arith, length-append h (v ∷ [])))
            (omega (arith, length-append h (v ∷ [])));
    })

  -- A new buffer holds nothing.
  pub init-Holds : (null : A) (n : ℕ) → n < 2 ^ 63 - 1 → Holds null (init null n) []
  unfolding init
  init-Holds null n small = record {
    some_room = omega arith;
    capacity_in = omega arith;
    few = omega arith;
    length_buffer = length-replicate (add64 n 1) null;
    tail_lem = omega arith;
    head_lem = omega arith;
    content = λ i lo hi. absurd (omega arith);
  }

  module _ (null : A) (b : CacheBuffer A) (h : List A) (holds : Holds null b h) where
    pub at_lem :
        (i : ℕ)
        → length h - (b.capacity - 1) < i
        → i ≤ length h
        → at null b i ≡ get_or h (i - 1) null
    unfolding at
    at_lem i lo hi = holds.content i lo hi

    -- The accessors of a buffer that holds the history `h`: how many values are there, the numbers of the
    -- first and the last, and what these are (the capacity is one more than the buffer was made for).
    pub accessors :
        (size b ≡ min (length h) (b.capacity - 1))
        × (first b ≡ length h - (b.capacity - 1) + 1)
        × (is_empty b ≡ (length h == 0))
        × (is_full b ≡ leb (b.capacity - 1) (length h))
    unfolding size first is_empty is_full
    accessors = (
      omega (arith, holds.tail_lem, holds.head_lem, holds.few),
      omega (arith, holds.head_lem, holds.few),
      rw holds.tail_lem,
      ground (arith, holds),
    )

  pub capacity-store : (b : CacheBuffer A) (v : A) → (store b v).capacity ≡ b.capacity
  unfolding store
  capacity-store b v = elim (Bool-cases (is_full b)) [ inl full ↦ rw full | inr room ↦ rw room ]
