-- ===== src/Data/Tests.antt =====
-- Runs of the buffers on small inputs, and the theorems of cyber/data at inputs that meet their
-- hypotheses.
use cyberrt_on_rpi.Base.{
  ℕ, ◌+◌, ◌-◌, ◌≡◌, refl, false, none, some, List, [], ◌∷◌, ◌++◌, map, arith, if◌then◌else◌, ◌==◌,
  ◌||◌, ltb, update, count,
}
use cyberrt_on_rpi.Data.CacheBuffer.{
  CacheBuffer, init, store, is_full, is_empty, size, first, at, set_fusion_callback,
}
use cyberrt_on_rpi.Data.CacheBuffer.Holds.{Holds, init-Holds, store-Holds}
use cyberrt_on_rpi.Data.ChannelBuffer.{fetch, fetch_multi}
use cyberrt_on_rpi.Data.ChannelBuffer.Fetching.{fetch_lem}
use cyberrt_on_rpi.Data.Visitor.{Visitor, Event, post, take_next, try_fetch, run}
use cyberrt_on_rpi.Data.Visitor.Reading.{in_order, posted, InOrder}
use cyberrt_on_rpi.Data.Visitor.Keeping.{keeps_up, queue_run, Waits}
use cyberrt_on_rpi.Data.AllLatest.Arrivals.{
  Arrival, on_m0, on_m1, on_m2, on_m3, newest, joined, Four,
}
use cyberrt_on_rpi.Data.AllLatest.Joining.{arrive_all, IsJoining, joins}
use cyberrt_on_rpi.Data.Dispatcher.{DataDispatcher, dispatch, notify, find, fill_at}
use cyberrt_on_rpi.Data.Dispatcher.Delivery.{dispatch_delivers, got_times}

-- A buffer for two values, after three.
abbrev three : CacheBuffer ℕ
three = store (store (store (init 0 2) 5) 6) 7

three_runs :
    (fetch_multi 0 three 9 ≡ some (6 ∷ 7 ∷ []))
    × (fetch 0 three 1 ≡ (3, some 7))
    × (fetch 0 three 2 ≡ (2, some 6))
    × (fetch 0 three 4 ≡ (4, none))
unfolding fetch_multi fetch store init is_empty at size first is_full
three_runs = (refl, refl, refl, refl)

capacity_three : three.capacity ≡ 3
unfolding store is_full init
capacity_three = refl

three-Holds : Holds 0 three (5 ∷ 6 ∷ 7 ∷ [])
three-Holds =
    store-Holds 0 _ (5 ∷ 6 ∷ []) 7
      (store-Holds 0 _ (5 ∷ []) 6
        (store-Holds 0 _ [] 5 (init-Holds 0 2 (omega arith)) (omega arith)) (omega arith))
      (omega arith)

store-Holds_example : Holds {A = ℕ} 0 (store (init 0 2) 5) (5 ∷ [])
store-Holds_example = store-Holds 0 (init 0 2) [] 5 (init-Holds 0 2 (omega arith)) (omega arith)

fetch_lem_example : fetch 0 three 2 ≡ (
    if 3 == 0 || 2 == 3 + 1
    then (2, none)
    else if 2 == 0 || ltb 2 (3 - (three.capacity - 1) + 1)
    then (3, some 7)
    else (2, some 6))
fetch_lem_example =
    fetch_lem 0 three (5 ∷ 6 ∷ 7 ∷ []) three-Holds 2 (rw capacity_three (omega arith)) (omega arith)

abbrev script : List (Event ℕ)
script = take_next ∷ post 8 ∷ post 9 ∷ take_next ∷ take_next ∷ take_next ∷ []

abbrev reader : ℕ → Visitor ℕ
reader next = record { buffer = three; next_msg_index = next }

script_runs : run 0 script (reader 2) ≡ (2, 6) ∷ (5, 9) ∷ []
unfolding run try_fetch fetch store init is_empty at first is_full
script_runs = refl

in_order_example : InOrder 0 ((5 ∷ 6 ∷ 7 ∷ []) ++ posted script) 2 (run 0 script (reader 2))
in_order_example =
    in_order 0 script (5 ∷ 6 ∷ 7 ∷ []) (reader 2) three-Holds (rw capacity_three (omega arith))
      (omega arith) (omega arith)

abbrev steady : List (Event ℕ)
steady = take_next ∷ post 8 ∷ take_next ∷ take_next ∷ take_next ∷ []

reader-Waits : Waits 0 (5 ∷ 6 ∷ 7 ∷ []) (6 ∷ 7 ∷ []) (reader 2)
reader-Waits = record {
  holds = three-Holds;
  roomy = rw capacity_three (omega arith);
  begun = omega arith;
  reach = omega arith;
  waiting = refl;
  short = rw capacity_three (omega arith);
}

keeps_up_example : map (λ d. d.1) (run 0 steady (reader 2)) ≡ queue_run steady (6 ∷ 7 ∷ [])
keeps_up_example =
    keeps_up 0 steady (5 ∷ 6 ∷ 7 ∷ []) (6 ∷ 7 ∷ []) (reader 2) reader-Waits (omega arith)
      (rw capacity_three (omega arith))

steady_runs : queue_run steady (6 ∷ 7 ∷ []) ≡ 6 ∷ 7 ∷ 8 ∷ []
unfolding queue_run
steady_runs = refl

abbrev one : CacheBuffer ℕ
one = init 0 4

abbrev four : Four ℕ ℕ ℕ ℕ
four = record {
  buffer_m0 = set_fusion_callback one;
  others = (one, one, one);
  buffer_fusion = init (0, (0, 0, 0)) 4;
}

abbrev arrivals : List (Arrival ℕ ℕ ℕ ℕ)
arrivals = on_m1 1 ∷ on_m0 10 ∷ on_m2 2 ∷ on_m3 3 ∷ on_m0 20 ∷ on_m1 4 ∷ on_m0 30 ∷ []

arrivals_join : joined arrivals none none none ≡ (20, (1, 2, 3)) ∷ (30, (4, 2, 3)) ∷ []
unfolding joined
arrivals_join = refl

one-Holds : Holds 0 one []
one-Holds = init-Holds 0 4 (omega arith)

four-IsJoining : IsJoining 0 0 0 0 [] [] [] [] four
unfolding init set_fusion_callback
four-IsJoining = record {
  fused = refl;
  holds1 = one-Holds;
  roomy1 = omega arith;
  holds2 = one-Holds;
  roomy2 = omega arith;
  holds3 = one-Holds;
  roomy3 = omega arith;
  holds = init-Holds (0, (0, 0, 0)) 4 (omega arith);
}

joins_example :
    Holds
      (0, (0, 0, 0))
      (arrive_all 0 0 0 0 arrivals four).buffer_fusion
      ([] ++ joined arrivals (newest 0 []) (newest 0 []) (newest 0 []))
joins_example =
    joins 0 0 0 0 arrivals [] [] [] [] four four-IsJoining (omega arith) (omega arith) (omega arith)
      (omega arith)

-- Two buffers on channel 9, one of them gone, and one reader.
abbrev hub : DataDispatcher ℕ
hub = record {
  notifier = record { notifies_map = (9, 1 ∷ 2 ∷ []) ∷ []; has_callback = λ n. n == 2 };
  buffers_map = (9, 4 ∷ 5 ∷ []) ∷ [];
  buffers = update (λ _. none) 4 (some one);
  handed_over = [];
}

hub_found : find 9 hub.buffers_map ≡ some (4 ∷ 5 ∷ [])
unfolding find
hub_found = refl

dispatch_delivers_example :
    let (s', found, calls) = dispatch false 9 6 hub in
    ((c : ℕ) → s'.buffers c ≡ got_times (count c (4 ∷ 5 ∷ [])) 6 (hub.buffers c))
    × ((found, calls) ≡ notify 9 hub.notifier)
    × (s'.buffers_map ≡ hub.buffers_map)
dispatch_delivers_example = dispatch_delivers 9 6 hub (4 ∷ 5 ∷ []) hub_found

hub_runs : (dispatch false 9 6 hub).2 ≡ 2 ∷ []
unfolding dispatch fill_at init
hub_runs = refl
