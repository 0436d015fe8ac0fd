-- ===== src/Queue/Tests.antt =====
-- A run of a bounded queue, and its theorem at that run.
use cyberrt_on_rpi.Base.{ℕ, ◌≡◌, refl, true, false, none, some, List, [], ◌∷◌, arith}
use cyberrt_on_rpi.Queue.{init, enqueue, dequeue, get_index}
use cyberrt_on_rpi.Queue.Fifo.{init-Queues}
use cyberrt_on_rpi.Queue.Sequence.{
  Call, push, pop, Answer, pushed, popped, answers, list_answers, call, answers_lem,
}

abbrev calls : List (Call ℕ)
calls = pop ∷ push 5 ∷ push 6 ∷ push 7 ∷ pop ∷ push 8 ∷ pop ∷ pop ∷ pop ∷ []

abbrev results : List (Answer ℕ)
results =
    popped none
    ∷ pushed true
    ∷ pushed true
    ∷ pushed false
    ∷ popped (some 5)
    ∷ pushed true
    ∷ popped (some 6)
    ∷ popped (some 8)
    ∷ popped none
    ∷ []

calls_run : answers 0 calls (init 0 2) ≡ results
unfolding answers call enqueue dequeue init get_index
calls_run = refl

answers_lem_example : answers 0 calls (init 0 2) ≡ list_answers 2 calls []
unfolding init
answers_lem_example =
    answers_lem 0 calls (init 0 2) [] (init-Queues 0 2 (omega arith)) (omega arith)
