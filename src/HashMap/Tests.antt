-- ===== src/HashMap/Tests.antt =====
-- Two calls that race for one place in a bucket, and calls on a table.
use cyberrt_on_rpi.Base.{
  ℕ, map, ◌≡◌, refl, none, some, List, [], ◌∷◌, All, ◌+◌, length, if◌then◌else◌, ◌==◌, is_some, ◌^◌,
  arith,
}
use cyberrt_on_rpi.HashMap.Bucket.{
  Entry, Insertion, searching, linking, returned, get, has, next_of, link, same_pointer,
  compare_key, insert_step,
}
use cyberrt_on_rpi.HashMap.Bucket.Order.{IsSorted, IsBelow, IsAbove, stands}
use cyberrt_on_rpi.HashMap.Bucket.Steps.{IsSound, set_all, is_returned}
use cyberrt_on_rpi.HashMap.Bucket.Race.{Race, take_turns, moved, finished, IsConsistent, inserted}
use cyberrt_on_rpi.HashMap.Bucket.Progress.{alone, alone_returns}
use cyberrt_on_rpi.HashMap.Table.{init, table_get, table_has, set_each, table_get_lem}

abbrev entries : List (Entry ℕ)
entries =
    record { key = 3; value_ptr = 100; value = 30 }
    ∷ record { key = 9; value_ptr = 101; value = 90 }
    ∷ []

abbrev set_five : Insertion ℕ
set_five = record { key = 5; value = 50; entry_ptr = 102; new_value = 103 }

abbrev set_seven : Insertion ℕ
set_seven = record { key = 7; value = 70; entry_ptr = 104; new_value = 105 }

abbrev race : Race ℕ
race = record {
  entries = entries;
  calls = (set_five, searching none) ∷ (set_seven, searching none) ∷ [];
}

-- Both find the place between 3 and 9; the exchange of the first fails.
abbrev turns : List ℕ
turns = 0 ∷ 0 ∷ 1 ∷ 1 ∷ 1 ∷ 0 ∷ 0 ∷ 0 ∷ 0 ∷ []

race_keys : (map (λ e. e.key) (take_turns turns race).entries) ≡ 3 ∷ 5 ∷ 7 ∷ 9 ∷ []
unfolding take_turns moved insert_step compare_key next_of link same_pointer
race_keys = refl

race-IsConsistent : IsConsistent race
unfolding IsSorted All IsSound IsBelow
race-IsConsistent = record { sorted = (omega arith, (omega arith, tt)); sound = (tt, (tt, tt)) }

inserted_example :
    (get 5 (take_turns turns race).entries ≡ set_all (finished turns race) 5 (get 5 entries))
    × (has 5 (take_turns turns race).entries ≡ is_some (get 5 (take_turns turns race).entries))
    × IsSorted 0 (take_turns turns race).entries
inserted_example = inserted turns race 5 race-IsConsistent

-- The exchange is bound to fail: an entry with the key 4 has come in.
abbrev late : List (Entry ℕ)
late =
    record { key = 3; value_ptr = 100; value = 30 }
    ∷ record { key = 4; value_ptr = 106; value = 40 }
    ∷ []

alone_returns_example :
    ((alone (length late + 4) set_five (linking (some 3) none) late).0 ≡ returned)
    × (get 4 (alone (length late + 4) set_five (linking (some 3) none) late).1
        ≡ (if 5 == 4 then some 50 else get 4 late))
unfolding IsSorted IsSound IsBelow IsAbove is_returned stands
alone_returns_example =
    alone_returns set_five late (omega arith, (omega arith, tt)) (linking (some 3) none) 4 refl
      ((omega arith, refl), tt)

-- The keys 7 and 135 share a bucket of the 128.
table_get_lem_example :
    let m = set_each (set_seven ∷ record set_five { key = 135 } ∷ []) (init (2 ^ 7)) in
    (table_get 7 m ≡ set_all (set_seven ∷ record set_five { key = 135 } ∷ []) 7 none)
    × (table_has 7 m ≡ is_some (set_all (set_seven ∷ record set_five { key = 135 } ∷ []) 7 none))
table_get_lem_example = table_get_lem 7 (set_seven ∷ record set_five { key = 135 } ∷ []) 7
