-- ===== src/Transport/Hybrid/Receiver/Counts.antt =====
-- One call more, in the balance of a receiver.
use cyberrt_on_rpi.Base.{
  ◌⊎◌, ==_iff, ℕ, ◌+◌, ◌≤◌, ◌≡◌, refl, Bool, true, false, not, Option, none, some, List, [], ◌∷◌,
  ◌++◌, ◌==◌, ◌||◌, ◌&&◌, if◌then◌else◌, arith, Bool-cases, inl, inr, ap, ◌∙◌, sym, subst, is_some,
  All,
}
use cyberrt_on_rpi.Transport.Hybrid.{RoleAttributes}
use cyberrt_on_rpi.Transport.Hybrid.Receiver.{Call, enables, disables, has_id, erase_entry, call}
use cyberrt_on_rpi.Transport.Hybrid.Receiver.Operations.{
  enabled, disabled, calls_of, times, IsBalanced,
}

enabled-call :
    (id : ℕ) (c : Call) (l : List Call)
    → enabled id (l ++ (c ∷ [])) ≡ enabled id l + enabled id (c ∷ [])
unfolding enabled
enabled-call id c [] = omega arith
enabled-call id c (enables o ∷ l) = omega (arith, enabled-call id c l)
enabled-call id c (disables o ∷ l) = enabled-call id c l

disabled-call :
    (id : ℕ) (c : Call) (l : List Call)
    → disabled id (l ++ (c ∷ [])) ≡ disabled id l + disabled id (c ∷ [])
unfolding disabled
disabled-call id c [] = omega arith
disabled-call id c (enables o ∷ l) = disabled-call id c l
disabled-call id c (disables o ∷ l) = omega (arith, disabled-call id c l)

times-erase_entry :
    (id x : ℕ) (known : List (ℕ × RoleAttributes))
    → has_id x known ≡ true
    → times id (erase_entry x known) + (if x == id then 1 else 0) ≡ times id known
unfolding times erase_entry has_id
times-erase_entry id x [] h = absurd (ground arith)
times-erase_entry id x ((y, o) ∷ known) h = let rest = times-erase_entry id x known in ground arith

has_id-times :
    (x : ℕ) (known : List (ℕ × RoleAttributes)) → has_id x known ≡ false → times x known ≡ 0
unfolding times has_id
has_id-times x [] h = refl
has_id-times x ((y, o) ∷ known) h = let rest = has_id-times x known in ground arith

All-erase_entry :
    (x : ℕ) (known : List (ℕ × RoleAttributes))
    → All (λ e. e.1.id ≡ e.0) known
    → All (λ e. e.1.id ≡ e.0) (erase_entry x known)
unfolding erase_entry All
All-erase_entry x [] h = h
All-erase_entry x ((y, o) ∷ known) (h, hs) = let rest = All-erase_entry x known hs in ground arith

times-has_id :
    (x : ℕ) (known : List (ℕ × RoleAttributes)) → has_id x known ≡ true → 1 ≤ times x known
unfolding times has_id
times-has_id x [] h = absurd (ground arith)
times-has_id x ((y, o) ∷ known) h = let rest = times-has_id x known in ground arith

pub is_some-call : (c : Call) (calls : Option (List Call)) → is_some (call c calls) ≡ is_some calls
is_some-call c none = refl
is_some-call c (some l) = refl

pub enabled-calls_of :
    (id : ℕ) (c : Call) (calls : Option (List Call))
    → enabled id (calls_of (call c calls))
      ≡ enabled id (calls_of calls) + (if is_some calls then enabled id (c ∷ []) else 0)
unfolding enabled
enabled-calls_of id c none = omega arith
enabled-calls_of id c (some l) = enabled-call id c l

pub disabled-calls_of :
    (id : ℕ) (c : Call) (calls : Option (List Call))
    → disabled id (calls_of (call c calls))
      ≡ disabled id (calls_of calls) + (if is_some calls then disabled id (c ∷ []) else 0)
unfolding disabled
disabled-calls_of id c none = omega arith
disabled-calls_of id c (some l) = disabled-call id c l

enabled-one :
    (id : ℕ) (o : RoleAttributes) → enabled id (enables o ∷ []) ≡ (if o.id == id then 1 else 0)
unfolding enabled
enabled-one id o = omega arith

pub disabled-one :
    (id : ℕ) (o : RoleAttributes) → disabled id (disables o ∷ []) ≡ (if o.id == id then 1 else 0)
unfolding disabled
disabled-one id o = omega arith

added_once :
    (same b : Bool) (n : ℕ)
    → (same ≡ false) ⊎ (b ≡ false)
    → n ≡ (if b then 1 else 0)
    → (if same then 1 else 0) + n ≡ (if same || b then 1 else 0)
added_once same b n out once = ground arith

erased_once :
    (same b : Bool) (n n' : ℕ)
    → (same ≡ false) ⊎ (b ≡ true)
    → n ≡ (if b then 1 else 0)
    → n' + (if same then 1 else 0) ≡ n
    → n' ≡ (if not same && b then 1 else 0)
erased_once same b n n' is once less = ground arith

or_same : (same b : Bool) → (same ≡ false) ⊎ (b ≡ true) → b ≡ (same || b)
or_same same b is = ground arith

and_same : (same b : Bool) → (same ≡ false) ⊎ (b ≡ false) → b ≡ (not same && b)
and_same same b out = ground arith

one_enabled :
    (used same b : Bool) (e e' d d' one : ℕ)
    → (same ≡ false) ⊎ (b ≡ false)
    → e ≡ d + (if used && b then 1 else 0)
    → e' ≡ e + (if used then one else 0)
    → one ≡ (if same then 1 else 0)
    → d' ≡ d + (if used then 0 else 0)
    → e' ≡ d' + (if used && (same || b) then 1 else 0)
one_enabled used same b e e' d d' one out was ee is dd = ground arith

one_disabled :
    (used same b : Bool) (e e' d d' one : ℕ)
    → (same ≡ false) ⊎ (b ≡ true)
    → e ≡ d + (if used && b then 1 else 0)
    → e' ≡ e + (if used then 0 else 0)
    → d' ≡ d + (if used then one else 0)
    → one ≡ (if same then 1 else 0)
    → e' ≡ d' + (if used && (not same && b) then 1 else 0)
one_disabled used same b e e' d d' one is was ee dd one_is = ground arith

module _ (used b : Bool) (id : ℕ) (calls : Option (List Call)) (known : List (ℕ × RoleAttributes))
    (o : RoleAttributes) (h : IsBalanced used b id calls known) where
  absent : has_id o.id known ≡ false → ((o.id == id) ≡ false) ⊎ (b ≡ false)
  absent new = elim (Bool-cases (o.id == id)) [
    | inl same ↦
        let none' =
          ap (λ x. times x known) (sym ((==_iff o.id id).0 same)) ∙ has_id-times o.id known new in
        let once = h.once in inr (ground arith)
    | inr other ↦ inl other
  ]

  here : has_id o.id known ≡ true → ((o.id == id) ≡ false) ⊎ (b ≡ true)
  here old = elim (Bool-cases (o.id == id)) [
    | inl same ↦
        let some' =
          subst (λ x. 1 ≤ times x known) ((==_iff o.id id).0 same) (times-has_id o.id known old) in
        let once = h.once in inr (ground arith)
    | inr other ↦ inl other
  ]

  pub enables-IsBalanced :
      has_id o.id known ≡ false
      → IsBalanced used (o.id == id || b) id (call (enables o) calls) ((o.id, o) ∷ known)
  unfolding All times disabled
  enables-IsBalanced new =
      let e = enabled-calls_of id (enables o) calls in
      let d = disabled-calls_of id (enables o) calls in
      let out = absent new in
      record {
        own_ids = (refl, h.own_ids);
        present = is_some-call (enables o) calls ∙ h.present;
        once = added_once (o.id == id) b (times id known) out h.once;
        balance =
            one_enabled used (o.id == id) b _ _ _ _ _ out h.balance
              (e
                ∙ ap
                    (λ u.
                      enabled id (calls_of calls) + (if u then enabled id (enables o ∷ []) else 0))
                    h.present)
              (enabled-one id o)
              (d ∙ ap (λ u. disabled id (calls_of calls) + (if u then 0 else 0)) h.present);
      }

  pub known-IsBalanced : has_id o.id known ≡ true → IsBalanced used (o.id == id || b) id calls known
  known-IsBalanced old =
      let same = or_same (o.id == id) b (here old) in
      subst (λ x. IsBalanced used x id calls known) same h

  pub disables-IsBalanced :
      has_id o.id known ≡ true
      → IsBalanced used
          (not (o.id == id) && b)
          id
          (call (disables o) calls)
          (erase_entry o.id known)
  unfolding enabled
  disables-IsBalanced old =
      let e = enabled-calls_of id (disables o) calls in
      let d = disabled-calls_of id (disables o) calls in
      record {
        own_ids = All-erase_entry o.id known h.own_ids;
        present = is_some-call (disables o) calls ∙ h.present;
        once =
            erased_once (o.id == id) b (times id known) (times id (erase_entry o.id known))
              (here old) h.once (times-erase_entry id o.id known old);
        balance =
            one_disabled used (o.id == id) b _ _ _ _ _ (here old) h.balance
              (e ∙ ap (λ u. enabled id (calls_of calls) + (if u then 0 else 0)) h.present)
              (d
                ∙ ap
                    (λ u.
                      disabled id (calls_of calls)
                      + (if u then disabled id (disables o ∷ []) else 0))
                    h.present)
              (disabled-one id o);
      }

  pub unknown-IsBalanced :
      has_id o.id known ≡ false → IsBalanced used (not (o.id == id) && b) id calls known
  unknown-IsBalanced new =
      let same = and_same (o.id == id) b (absent new) in
      subst (λ x. IsBalanced used x id calls known) same h
