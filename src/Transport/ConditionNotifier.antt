-- ===== src/Transport/ConditionNotifier.antt =====
-- cyber/transport/shm/condition_notifier.cc, `class ConditionNotifier`: notifications of all processes go
-- through a ring of 4096 entries in shared memory, each beside its sequence number.
pub mod Ring
pub mod Lapped
use cyberrt_on_rpi.Base.{
  ℕ, ◌-◌, ◌*◌, ◌%◌, Bool, true, false, not, Option, none, some, List, [], ◌∷◌, ◌==◌, ltb,
  if◌then◌else◌, update, add64,
}
use cyberrt_on_rpi.Transport.ReadableInfo.{ReadableInfo, init}

abbrev pub k_buf_length : ℕ
k_buf_length = 4096

-- The arrays are functions of the index.
pub record Indicator : Type 0 where
  pub next_seq : ℕ
  pub infos : ℕ → ReadableInfo
  pub seqs : ℕ → ℕ

unfoldable pub init_indicator : Indicator
unfolding init
init_indicator = record { next_seq = 0; infos = λ _. init; seqs = λ _. 0 }

-- The steps of `Notify` in shared memory: the fetch_add, whose old value is `seq`, and the two writes.
unfoldable pub take_seq : Indicator → Indicator
take_seq s = record s { next_seq = add64 s.next_seq 1 }

unfoldable pub write_info : ℕ → ReadableInfo → Indicator → Indicator
write_info seq info s = record s { infos = update s.infos (seq % k_buf_length) info }

unfoldable pub write_seq : ℕ → Indicator → Indicator
write_seq seq s = record s { seqs = update s.seqs (seq % k_buf_length) seq }

unfoldable pub notify_open : ReadableInfo → Indicator → Indicator
unfolding take_seq write_info write_seq
notify_open info s = let seq = s.next_seq in write_seq seq (write_info seq info (take_seq s))

unfoldable pub notify : Bool → ReadableInfo → Indicator → Indicator × Bool
unfolding notify_open
notify is_shutdown info s = if is_shutdown then (s, false) else (notify_open info s, true)

unfoldable pub notify_all : List ReadableInfo → Indicator → Indicator
notify_all [] s = s
notify_all (info ∷ infos) s = notify_all infos (notify_open info s)

-- One round of `Listen`: what it gives, and the listener's next number.
unfoldable pub look : Indicator → ℕ → Option (ReadableInfo × ℕ)
look s next_seq =
    let idx = next_seq % k_buf_length in
    if s.next_seq == next_seq
    then none
    else if s.seqs idx == next_seq
    then some (s.infos idx, add64 next_seq 1)
    else none

-- What follows a round that gave nothing: the next, while time is left.
unfoldable pub or_later :
    Option (ReadableInfo × ℕ) → Option (ReadableInfo × ℕ) → ℕ → Option (ReadableInfo × ℕ)
or_later (some r) later timeout_us = some r
or_later none later timeout_us = if ltb 0 timeout_us then later else none

-- The rounds of `Listen`, with the memory and `is_shutdown_` that each of them meets, and the time left
-- (a negative time is as good as none). `none` is the result false.
unfoldable pub listen_for : List (Indicator × Bool) → ℕ → ℕ → Option (ReadableInfo × ℕ)
unfolding or_later look
listen_for [] timeout_us next_seq = none
listen_for ((s, is_shutdown) ∷ rounds) timeout_us next_seq =
    let later = listen_for rounds (timeout_us - 50) next_seq in
    if is_shutdown then none else or_later (look s next_seq) later timeout_us

unfoldable pub listen : List (Indicator × Bool) → ℕ → ℕ → Option (ReadableInfo × ℕ)
unfolding listen_for
listen rounds timeout_ms next_seq = listen_for rounds (timeout_ms * 1000) next_seq
