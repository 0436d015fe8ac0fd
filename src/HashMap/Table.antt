-- ===== src/HashMap/Table.antt =====
-- cyber/base/atomic_hash_map.h, `class AtomicHashMap`: the table of the buckets.
use cyberrt_on_rpi.Base.{
  ℕ, zero, suc, ◌+◌, ◌-◌, ◌^◌, ◌<◌, ◌≡◌, ◌≢◌, refl, Bool, false, Option, none, some, List, [], ◌∷◌,
  ◌==◌, if◌then◌else◌, arith, Bool-cases, inl, inr, ==_iff, ap, ◌∙◌, length, sym, subst, is_some,
  get_or, set, replicate, bit_and, ones, and_ones, All, All-set, All-get_or, All-replicate,
  length-set, length-replicate, get_or-set_self, get_or-set_ne, get_or-replicate,
}
use native.Mathlib.Nat.{mod-lt}
use cyberrt_on_rpi.HashMap.Bucket.{Entry, Insertion, searching, get, has, find, value_if}
use cyberrt_on_rpi.HashMap.Bucket.Order.{IsSorted, get-lookup, has-stands, stands-lookup}
use cyberrt_on_rpi.HashMap.Bucket.Steps.{set_all}
use cyberrt_on_rpi.HashMap.Bucket.Progress.{alone, insert_alone}

pub record AtomicHashMap {ℓ} (V : Type ℓ) : Type ℓ where
  pub table : List (List (Entry V))
  pub capacity : ℕ
  pub mode_num : ℕ

module _ {ℓ} {V : Type ℓ} where
  unfoldable pub init : ℕ → AtomicHashMap V
  init table_size = record {
    table = replicate table_size [];
    capacity = table_size;
    mode_num = table_size - 1;
  }

  abbrev pub bucket : ℕ → AtomicHashMap V → List (Entry V)
  bucket key m = get_or m.table (bit_and key m.mode_num) []

  unfoldable pub table_has : ℕ → AtomicHashMap V → Bool
  table_has key m = has key (bucket key m)

  unfoldable pub table_get : ℕ → AtomicHashMap V → Option V
  table_get key m = get key (bucket key m)

  -- `Set`, with no other call at work: the operations of `Insert`, as many as it can need.
  unfoldable pub table_set : Insertion V → AtomicHashMap V → AtomicHashMap V
  table_set c m =
      let b = bucket c.key m in
      record m {
        table =
            set m.table (bit_and c.key m.mode_num) (alone (length b + 4) c (searching none) b).1;
      }

  unfoldable pub set_each : List (Insertion V) → AtomicHashMap V → AtomicHashMap V
  set_each [] m = m
  set_each (c ∷ cs) m = set_each cs (table_set c m)

  -- A table of 2^k buckets with their keys in order.
  record IsTable (k : ℕ) (m : AtomicHashMap V) : Type ℓ where
    mask : m.mode_num ≡ ones k
    size : length m.table ≡ suc (ones k)
    sorted : All (IsSorted 0) m.table

pow_ones : (k : ℕ) → 2 ^ k ≡ suc (ones k)
pow_ones zero = omega arith
pow_ones (suc k) = omega (arith, pow_ones k)

nil-IsSorted {ℓ} : (V : Type ℓ) → IsSorted {V = V} 0 []
unfolding IsSorted
nil-IsSorted V = tt

get_empty {ℓ} : {V : Type ℓ} (q : ℕ) → get {V = V} q [] ≡ none
unfolding get find value_if
get_empty q = refl

differ : (i j : ℕ) → (i == j) ≡ false → i ≢ j
differ i j h = ground arith

keys_differ : (a b mask : ℕ) → bit_and a mask ≢ bit_and b mask → (a == b) ≡ false
keys_differ a b mask h = elim (Bool-cases (a == b)) [
  | inl same ↦ absurd (h (ap (λ n. bit_and n mask) ((==_iff a b).0 same)))
  | inr other ↦ other
]

module _ {ℓ} {V : Type ℓ} (k : ℕ) where
  init-IsTable : IsTable k (init {V = V} (2 ^ k))
  unfolding init
  init-IsTable = record {
    mask = omega (arith, pow_ones k);
    size = length-replicate (2 ^ k) [] ∙ pow_ones k;
    sorted = All-replicate (IsSorted 0) (2 ^ k) [] (nil-IsSorted V);
  }

  index-lt : (m : AtomicHashMap V) (key : ℕ) → IsTable k m → bit_and key m.mode_num < length m.table
  index-lt m key h = rw (h.mask, h.size, and_ones k key) (mod-lt key (omega arith))

  bucket-IsSorted : (m : AtomicHashMap V) (key : ℕ) → IsTable k m → IsSorted 0 (bucket key m)
  bucket-IsSorted m key h =
      All-get_or (IsSorted 0) m.table (bit_and key m.mode_num) [] (nil-IsSorted V) h.sorted

  table_set-IsTable :
      (c : Insertion V) (m : AtomicHashMap V) → IsTable k m → IsTable k (table_set c m)
  unfolding table_set
  table_set-IsTable c m h =
      let b = bucket c.key m in
      let b' = (alone (length b + 4) c (searching none) b).1 in
      let i = bit_and c.key m.mode_num in
      record {
        mask = h.mask;
        size = length-set m.table i b' ∙ h.size;
        sorted =
            All-set (IsSorted 0) m.table i b' (insert_alone c b (bucket-IsSorted m c.key h) 0).0
              h.sorted;
      }

  table_get-table_set :
      (c : Insertion V) (m : AtomicHashMap V) (q : ℕ)
      → IsTable k m
      → table_get q (table_set c m) ≡ (if c.key == q then some c.value else table_get q m)
  unfolding table_get table_set
  table_get-table_set c m q h =
      let i = bit_and c.key m.mode_num in
      let j = bit_and q m.mode_num in
      let b = bucket c.key m in
      let b' = (alone (length b + 4) c (searching none) b).1 in
      let sets = (insert_alone c b (bucket-IsSorted m c.key h) q).1 in
      elim (Bool-cases (i == j)) [
        | inl same ↦
            let e : i ≡ j = (==_iff i j).0 same in
            let there : get_or (set m.table i b') j [] ≡ b' =
              subst (λ n. get_or (set m.table i b') n [] ≡ b') e
                (get_or-set_self m.table i b' [] (index-lt m c.key h)) in
            let was : b ≡ bucket q m = ap (λ n. get_or m.table n []) e in
            ap (get q) there ∙ sets ∙ ap (λ l. if c.key == q then some c.value else get q l) was
        | inr other ↦
            let ne : i ≢ j = differ i j other in
            let key_ne : (c.key == q) ≡ false = keys_differ c.key q m.mode_num ne in
            rw (get_or-set_ne m.table i j b' [] ne, key_ne) refl
      ]

  init-none : (q : ℕ) → table_get q (init {V = V} (2 ^ k)) ≡ none
  unfolding table_get init
  init-none q = let mask = bit_and q (2 ^ k - 1) in rw (get_or-replicate (2 ^ k) mask) (get_empty q)

  set_each-IsTable :
      (cs : List (Insertion V)) (m : AtomicHashMap V) → IsTable k m → IsTable k (set_each cs m)
  unfolding set_each
  set_each-IsTable [] m h = h
  set_each-IsTable (c ∷ cs) m h = set_each-IsTable cs (table_set c m) (table_set-IsTable c m h)

  table_get-set_each :
      (cs : List (Insertion V)) (m : AtomicHashMap V) (q : ℕ)
      → IsTable k m
      → table_get q (set_each cs m) ≡ set_all cs q (table_get q m)
  unfolding set_each set_all
  table_get-set_each [] m q h = refl
  table_get-set_each (c ∷ cs) m q h =
      table_get-set_each cs (table_set c m) q (table_set-IsTable c m h)
      ∙ ap (set_all cs q) (table_get-table_set c m q h)

  table_has_lem :
      (m : AtomicHashMap V) (q : ℕ) → IsTable k m → table_has q m ≡ is_some (table_get q m)
  unfolding table_has table_get
  table_has_lem m q h =
      let s = bucket-IsSorted m q h in
      has-stands q 0 (bucket q m) s
      ∙ stands-lookup q (bucket q m)
      ∙ ap is_some (sym (get-lookup q 0 (bucket q m) s))

  -- A table of any power of two of buckets is a map: after any calls of `Set`, one after the other, `Get`
  -- gives for every key the value that was set last, or none, and `Has` says whether there is one; keys
  -- that share a bucket do not disturb each other.
  pub table_get_lem :
      (cs : List (Insertion V)) (q : ℕ)
      → let m = set_each cs (init (2 ^ k)) in
        (table_get q m ≡ set_all cs q none) × (table_has q m ≡ is_some (set_all cs q none))
  table_get_lem cs q =
      let m = set_each cs (init {V = V} (2 ^ k)) in
      let gives =
        table_get-set_each cs (init (2 ^ k)) q init-IsTable ∙ ap (set_all cs q) (init-none q) in
      (
        gives,
        table_has_lem m q (set_each-IsTable cs (init (2 ^ k)) init-IsTable) ∙ ap is_some gives,
      )
