-- ===== src/Transport/History/Depth.antt =====
-- A history is the end of what was added while it was enabled.
use cyberrt_on_rpi.Base.{
  ℕ, zero, suc, ◌+◌, ◌-◌, ◌≡◌, refl, Bool, true, false, inl, inr, List, [], ◌∷◌, ◌++◌, ltb,
  if◌then◌else◌, length, drop, arith, ◌∙◌, sym, ap, ap₂, length-append, length-drop, Bool-cases,
  drop-append,
}
use cyberrt_on_rpi.Transport.History.{
  History, pop_excess, add, Op, enabling, disabling, adding, clearing, apply, apply_all, clear,
  enable, disable,
}

-- The last `n` elements.
module _ {ℓ} {M : Type ℓ} where
  unfoldable pub last_of : ℕ → List M → List M
  last_of n ms = drop (length ms - n) ms

  drop-nil : (n : ℕ) → drop {A = M} n [] ≡ []
  drop-nil zero = refl
  drop-nil (suc n) = refl

  drop-drop : (j k : ℕ) (ms : List M) → drop j (drop k ms) ≡ drop (k + j) ms
  drop-drop j zero ms = ap (λ n. drop n ms) (omega arith)
  drop-drop j (suc k) [] = drop-nil j ∙ sym (drop-nil (suc k + j))
  drop-drop j (suc k) (m ∷ ms) =
      let e : suc k + j ≡ suc (k + j) = omega arith in
      drop-drop j k ms ∙ ap (λ n. drop n (m ∷ ms)) (sym e)

  pop_excess_lem : (n : ℕ) (ms : List M) → pop_excess n ms ≡ last_of n ms
  unfolding pop_excess last_of
  pop_excess_lem n [] = sym (drop-nil (0 - n))
  pop_excess_lem n (m ∷ ms) = elim (Bool-cases (ltb n (length (m ∷ ms)))) [
    | inl more ↦
        let e : length (m ∷ ms) - n ≡ suc (length ms - n) = ground arith in
        rw (more, e) (pop_excess_lem n ms)
    | inr fits ↦ let e : length (m ∷ ms) - n ≡ 0 = ground arith in rw (fits, e) refl
  ]

  pub last_of-nil : (n : ℕ) → last_of n [] ≡ []
  unfolding last_of
  last_of-nil n = drop-nil (0 - n)

  last_of-append :
      (n : ℕ) (all : List M) (m : M)
      → last_of n (last_of n all ++ (m ∷ [])) ≡ last_of n (all ++ (m ∷ []))
  unfolding last_of
  last_of-append n all m =
      let k = length all - n in
      let more = all ++ (m ∷ []) in
      let front : drop k all ++ (m ∷ []) ≡ drop k more =
        sym (drop-append k all (m ∷ []) (omega arith)) in
      let e : k + (length (drop k more) - n) ≡ length more - n =
        omega (arith, length-drop k more, length-append all (m ∷ [])) in
      ap (λ ms. drop (length ms - n) ms) front
      ∙ drop-drop (length (drop k more) - n) k more
      ∙ ap (λ j. drop j more) e

  -- What an unbounded record would hold: all that was added since the last `Clear` while the history was
  -- enabled.
  unfoldable pub recorded : List (Op M) → Bool → List M → List M
  recorded [] enabled all = all
  recorded (enabling ∷ ops) enabled all = recorded ops true all
  recorded (disabling ∷ ops) enabled all = recorded ops false all
  recorded (adding m ∷ ops) enabled all =
      recorded ops enabled (if enabled then all ++ (m ∷ []) else all)
  recorded (clearing ∷ ops) enabled all = recorded ops enabled []

  add_lem :
      (m : M) (h : History M) (all : List M)
      → h.msgs ≡ last_of h.depth all
      → (add m h).msgs ≡ last_of h.depth (if h.enabled then all ++ (m ∷ []) else all)
  unfolding add
  add_lem m h all e = elim (Bool-cases h.enabled) [
    | inl on ↦ simp on (
        pop_excess_lem h.depth (h.msgs ++ (m ∷ []))
        ∙ ap (λ ms. last_of h.depth (ms ++ (m ∷ []))) e
        ∙ last_of-append h.depth all m)
    | inr off ↦ simp off e
  ]

  rest-add : (m : M) (h : History M) → ((add m h).enabled ≡ h.enabled) × ((add m h).depth ≡ h.depth)
  unfolding add
  rest-add m h = elim (Bool-cases h.enabled) [
    | inl on ↦ simp on (refl, refl)
    | inr off ↦ simp off (refl, refl)
  ]

  -- Whatever is done to a history, it holds the last messages of the unbounded record, as many as its
  -- depth.
  pub msgs-apply_all :
      (ops : List (Op M)) (h : History M) (all : List M)
      → h.msgs ≡ last_of h.depth all
      → (apply_all ops h).msgs ≡ last_of h.depth (recorded ops h.enabled all)
  unfolding apply_all recorded enable disable clear apply
  msgs-apply_all [] h all e = e
  msgs-apply_all (enabling ∷ ops) h all e = msgs-apply_all ops (enable h) all e
  msgs-apply_all (disabling ∷ ops) h all e = msgs-apply_all ops (disable h) all e
  msgs-apply_all (adding m ∷ ops) h all e =
      let all' = if h.enabled then all ++ (m ∷ []) else all in
      let (same_on, same_depth) = rest-add m h in
      msgs-apply_all ops (add m h) all'
        (add_lem m h all e ∙ ap (λ n. last_of n all') (sym same_depth))
      ∙ ap₂ (λ n b. last_of n (recorded ops b all')) same_depth same_on
  msgs-apply_all (clearing ∷ ops) h all e =
      msgs-apply_all ops (clear h) [] (sym (last_of-nil h.depth))
