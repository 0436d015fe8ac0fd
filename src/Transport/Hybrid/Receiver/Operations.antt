-- ===== src/Transport/Hybrid/Receiver/Operations.antt =====
-- Opposites join and leave; what a receiver of a mode has been told of one id.
use cyberrt_on_rpi.Base.{
  ℕ, ◌+◌, ◌≡◌, Bool, not, Option, none, some, List, [], ◌∷◌, ◌==◌, ◌||◌, ◌&&◌, if◌then◌else◌,
  is_some, All,
}
use cyberrt_on_rpi.Transport.Hybrid.{OptionalMode, RoleAttributes, CommunicationMode}
use cyberrt_on_rpi.Transport.Hybrid.Transmitter.Operations.{concerns}
use cyberrt_on_rpi.Transport.Hybrid.Receiver.{
  HybridReceiver, Call, enables, disables, enable_opposite, disable_opposite,
}

-- How often the opposite with the id was enabled, and disabled.
unfoldable pub enabled : ℕ → List Call → ℕ
enabled id [] = 0
enabled id (enables o ∷ calls) = (if o.id == id then 1 else 0) + enabled id calls
enabled id (disables o ∷ calls) = enabled id calls

unfoldable pub disabled : ℕ → List Call → ℕ
disabled id [] = 0
disabled id (enables o ∷ calls) = disabled id calls
disabled id (disables o ∷ calls) = (if o.id == id then 1 else 0) + disabled id calls

abbrev pub calls_of : Option (List Call) → List Call
calls_of none = []
calls_of (some calls) = calls

-- How often the id stands in a table.
unfoldable pub times : ℕ → List (ℕ × RoleAttributes) → ℕ
times id [] = 0
times id ((x, o) ∷ rest) = (if x == id then 1 else 0) + times id rest

pub data Op : Type 0 where
  joins : RoleAttributes → Op
  leaves : RoleAttributes → Op

unfoldable pub run {ℓ} : {M : Type ℓ} → List Op → HybridReceiver M → HybridReceiver M
run [] h = h
run (joins opposite ∷ ops) h = run ops (enable_opposite opposite h)
run (leaves opposite ∷ ops) h = run ops (disable_opposite opposite h)

-- Of the joins and leaves of an id that the mode reaches, the last was a join.
unfoldable pub joined :
    RoleAttributes → CommunicationMode → OptionalMode → ℕ → List Op → Bool → Bool
joined attr mode m id [] before = before
joined attr mode m id (joins opposite ∷ ops) before =
    joined attr mode m id ops (concerns attr mode m id opposite || before)
joined attr mode m id (leaves opposite ∷ ops) before =
    joined attr mode m id ops (not (concerns attr mode m id opposite) && before)

-- For the receiver of one mode and one id: the id is known once if it is there, and under the id of its
-- opposite; a receiver that there is has enabled it once more than disabled it then, and as often otherwise.
pub record IsBalanced (used is_there : Bool) (id : ℕ) (calls : Option (List Call))
    (known : List (ℕ × RoleAttributes)) : Type 0 where
  pub own_ids : All (λ e. e.1.id ≡ e.0) known
  pub present : is_some calls ≡ used
  pub once : times id known ≡ (if is_there then 1 else 0)
  pub balance :
      enabled id (calls_of calls)
      ≡ disabled id (calls_of calls) + (if used && is_there then 1 else 0)
