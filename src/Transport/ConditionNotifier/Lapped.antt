-- ===== src/Transport/ConditionNotifier/Lapped.antt =====
-- A listener that falls behind by more than the ring is long.
use cyberrt_on_rpi.Base.{
  ℕ, ◌+◌, ◌-◌, ◌*◌, ◌^◌, ◌<◌, ◌≡◌, refl, Bool, Option, none, some, List, [], ◌∷◌, ◌++◌, length,
  arith, if◌then◌else◌, length-append,
}
use cyberrt_on_rpi.Transport.ReadableInfo.{ReadableInfo}
use cyberrt_on_rpi.Transport.ConditionNotifier.{
  Indicator, notify_all, look, or_later, listen_for, listen,
}
use cyberrt_on_rpi.Transport.ConditionNotifier.Ring.{Rings, notify_all-Rings, look_lem}

-- What the rounds of `Listen` meet: notifications come before each round, and `is_shutdown_` is read.
abbrev pub Script : Type 0
Script = List (List ReadableInfo × Bool)

unfoldable pub observed : Script → Indicator → List (Indicator × Bool)
unfolding notify_all
observed [] s = []
observed ((infos, is_shutdown) ∷ script) s =
    (notify_all infos s, is_shutdown) ∷ observed script (notify_all infos s)

unfoldable pub sent : Script → ℕ
sent [] = 0
sent ((infos, is_shutdown) ∷ script) = length infos + sent script

no_result :
    (is_shutdown : Bool) (o later : Option (ReadableInfo × ℕ)) (timeout_us : ℕ)
    → o ≡ none
    → later ≡ none
    → (if is_shutdown then none else or_later o later timeout_us) ≡ none
unfolding or_later
no_result is_shutdown none none timeout_us e e' = ground arith
no_result is_shutdown (some r) later timeout_us e e' = ground arith
no_result is_shutdown none (some r) timeout_us e e' = ground arith

listen_for_lapped :
    (script : Script) (timeout_us next_seq : ℕ) (s : Indicator) (h : List ReadableInfo)
    → Rings s h
    → next_seq + 4096 < length h
    → length h + sent script < 2 ^ 64
    → listen_for (observed script s) timeout_us next_seq ≡ none
unfolding listen_for observed sent
listen_for_lapped [] timeout_us next_seq s h rings behind few = refl
listen_for_lapped ((infos, is_shutdown) ∷ script) timeout_us next_seq s h rings behind few =
    let s' = notify_all infos s in
    let len = length-append h infos in
    let rings' = notify_all-Rings infos s h rings (omega (arith, few)) in
    let behind' : next_seq + 4096 < length (h ++ infos) = omega (arith, len, behind) in
    let nothing : look s' next_seq ≡ none = ground (
      arith,
      look_lem s' (h ++ infos) next_seq rings' (omega (arith, len, few)) (omega (arith, behind')),
    ) in
    let rest : listen_for (observed script s') (timeout_us - 50) next_seq ≡ none =
      listen_for_lapped script (timeout_us - 50) next_seq s' (h ++ infos) rings' behind'
        (omega (arith, len, few)) in
    no_result is_shutdown _ _ timeout_us nothing rest

-- Once more than 4096 notifications have come that a listener has not had, `Listen` never gives it one
-- again, however often it is called, whatever comes, and whatever its timeout (fewer than 2^64
-- notifications in all).
pub lapped_never_listens :
    (script : Script) (timeout_ms next_seq : ℕ) (s : Indicator) (h : List ReadableInfo)
    → Rings s h
    → next_seq + 4096 < length h
    → length h + sent script < 2 ^ 64
    → listen (observed script s) timeout_ms next_seq ≡ none
unfolding listen
lapped_never_listens script timeout_ms next_seq s h rings behind few =
    listen_for_lapped script (timeout_ms * 1000) next_seq s h rings behind few
