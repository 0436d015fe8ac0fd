-- ===== src/HashMap/Bucket.antt =====
-- cyber/base/atomic_hash_map.h, `class Bucket`: the list of the entries, in the order of the keys, behind
-- the head that holds none. An entry is never taken out and keeps its key, so a pointer to one is its key
-- here, and a pointer `prev` to the head is none. The value is changed by an exchange of its address.
pub mod Order
pub mod Steps
pub mod Race
pub mod Progress
use cyberrt_on_rpi.Base.{
  ℕ, Bool, true, false, Option, none, some, List, [], ◌∷◌, ◌==◌, ltb, if◌then◌else◌,
}

pub record Entry {ℓ} (V : Type ℓ) : Type ℓ where
  pub key : ℕ
  pub value_ptr : ℕ
  pub value : V

-- A call of `Insert`: the addresses are those of the value of the new entry and of the new value.
pub record Insertion {ℓ} (V : Type ℓ) : Type ℓ where
  pub key : ℕ
  pub value : V
  pub entry_ptr : ℕ
  pub new_value : ℕ

-- Where a call stands: it is about to load the successor of `prev`, to load the address of the value that
-- it has found, to exchange that address, to exchange the successor of `prev`, or it has returned.
pub data Inserter : Type 0 where
  searching : (prev : Option ℕ) → Inserter
  found : (target : ℕ) → Inserter
  updating : (target old_val_ptr : ℕ) → Inserter
  linking : (prev target : Option ℕ) → Inserter
  returned : Inserter

unfoldable pub same_pointer : Option ℕ → Option ℕ → Bool
same_pointer none none = true
same_pointer none (some q) = false
same_pointer (some p) none = false
same_pointer (some p) (some q) = p == q

-- One round of the loop of `Find`, on the entry that was loaded.
unfoldable pub compare_key : ℕ → Option ℕ → Option ℕ → Inserter
compare_key key prev none = linking prev none
compare_key key prev (some target) =
    if target == key
    then found target
    else if ltb key target
    then linking prev (some target)
    else searching (some target)

module _ {ℓ} {V : Type ℓ} where
  unfoldable pub has : ℕ → List (Entry V) → Bool
  has key [] = false
  has key (target ∷ later) =
      let rest = has key later in if ltb target.key key then rest else target.key == key

  -- `Find` with what it leaves in `prev_ptr` and `target_ptr`.
  unfoldable pub find : ℕ → Option ℕ → List (Entry V) → Option ℕ × Option (Entry V) × Bool
  find key prev [] = (prev, none, false)
  find key prev (target ∷ later) =
      let rest = find key (some target.key) later in
      if target.key == key
      then (prev, some target, true)
      else if ltb key target.key
      then (prev, some target, false)
      else rest

  unfoldable pub value_if : Option (Entry V) → Bool → Option V
  value_if (some target) true = some target.value
  value_if (some target) false = none
  value_if none b = none

  unfoldable pub get : ℕ → List (Entry V) → Option V
  get key entries = let (prev, target, is_found) = find key none entries in value_if target is_found

  abbrev pub first_key : List (Entry V) → Option ℕ
  first_key [] = none
  first_key (e ∷ later) = some e.key

  -- `prev->next`
  unfoldable pub next_of : Option ℕ → List (Entry V) → Option ℕ
  next_of none entries = first_key entries
  next_of (some p) [] = none
  next_of (some p) (e ∷ later) =
      let rest = next_of (some p) later in if e.key == p then first_key later else rest

  -- `prev->next = new_entry`, where `new_entry->next` is what followed.
  unfoldable pub link : Option ℕ → Entry V → List (Entry V) → List (Entry V)
  link none new_entry entries = new_entry ∷ entries
  link (some p) new_entry [] = []
  link (some p) new_entry (e ∷ later) =
      let rest = link (some p) new_entry later in
      if e.key == p then e ∷ new_entry ∷ later else e ∷ rest

  -- The address in `target->value_ptr`.
  unfoldable pub value_ptr_of : ℕ → List (Entry V) → ℕ
  value_ptr_of target [] = 0
  value_ptr_of target (e ∷ later) =
      let rest = value_ptr_of target later in if e.key == target then e.value_ptr else rest

  unfoldable pub exchange_value : ℕ → ℕ → V → List (Entry V) → List (Entry V)
  exchange_value target ptr v [] = []
  exchange_value target ptr v (e ∷ later) =
      let rest = exchange_value target ptr v later in
      if e.key == target then record e { value_ptr = ptr; value = v } ∷ later else e ∷ rest

  -- The next atomic operation of a call, on the bucket that all of them share.
  unfoldable pub insert_step : Insertion V → Inserter → List (Entry V) → Inserter × List (Entry V)
  insert_step c (searching prev) b = (compare_key c.key prev (next_of prev b), b)
  insert_step c (found target) b = (updating target (value_ptr_of target b), b)
  insert_step c (updating target old_val_ptr) b =
      if value_ptr_of target b == old_val_ptr
      then (returned, exchange_value target c.new_value c.value b)
      else (searching none, b)
  insert_step c (linking prev target) b =
      if same_pointer (next_of prev b) target
      then (
        returned,
        link prev (record { key = c.key; value_ptr = c.entry_ptr; value = c.value }) b,
      )
      else (searching none, b)
  insert_step c returned b = (returned, b)
