-- ===== src/Tests/Batching.antt =====
-- A batch of three orders of two customers, two at a time.
use eventsourcing.Shared.{
  ℕ, ◌≡◌, refl, String, Option, none, some, List, [], ◌∷◌, ◌+◌, ◌*◌, ◌≤◌, arith, length, get_elem?,
  string_eq, nat_eq,
}
use eventsourcing.Shared.Dict
use eventsourcing.Automation.Items.{Item, Outcome, done, other_error, failure}
use eventsourcing.Automation.Runs.{
  Dispatcher, Job, works, ended, Move, look, wake, settle, send, step, run, run_batch, add_items,
  next, next_of,
}
use eventsourcing.Automation.Runs.Exclusive.{Exclusive, run-Exclusive}
use eventsourcing.Automation.Runs.Ordered.{InOrder, run-InOrder, of_key, chain}
use eventsourcing.Automation.Runs.Parked.{nothing_overtakes}
use eventsourcing.Automation.Runs.Finished.{Finished, AllYield, run_reaches_end, run-Finished}

abbrev order_of : String → Item String
order_of customer = record { key = "eu"; value = customer; deadline = 30 }

abbrev customer : ℕ → Item String → String
customer i it = it.value

abbrev orders : List (Item String)
orders = order_of "ann" ∷ order_of "bob" ∷ order_of "ann" ∷ []

abbrev begin : List (Move String)
begin = look ∷ look ∷ look ∷ []

abbrev crash : Option (Outcome String)
crash = some (failure (other_error "no stock"))

abbrev all_done : Option (Outcome String)
all_done = some (record { kind = done; until = 0; err = none })

abbrev begun : Dispatcher String
begun = run 2 begin (run_batch customer orders)

abbrev ann_works : Job String
ann_works = record { key = "ann"; item = order_of "ann"; stage = works }

-- Ann's second order waits for her first.
ann_once : chain "ann" begun.jobs ≡ order_of "ann" ∷ []
unfolding run next add_items next_of Dict.get Dict.put
ann_once = refl

ann_at_work : get_elem? begun.jobs 0 ≡ some ann_works
unfolding run next add_items next_of Dict.get Dict.put
ann_at_work = refl

abbrev to_the_end : List (Move String)
to_the_end =
    look ∷ look ∷ look ∷ settle 0 crash ∷ settle 1 all_done ∷ send 0 ∷ send 1 ∷ wake ∷ look ∷ []

all_over : (run 2 to_the_end (run_batch customer orders)).loop ≡ ended
unfolding run next add_items next_of Dict.get Dict.put
all_over = refl

run-Exclusive_example : Exclusive 2 begun
run-Exclusive_example = run-Exclusive 2 customer orders begin

run-InOrder_example : InOrder (λ k. of_key customer 0 k orders) begun
run-InOrder_example = run-InOrder 2 customer orders begin

nothing_overtakes_example :
    chain "ann" (run 2 to_the_end (step 2 (settle 0 crash) begun)).jobs ≡ chain "ann" begun.jobs
nothing_overtakes_example =
    nothing_overtakes 2 crash 0 ann_works "ann" begun to_the_end ann_at_work refl refl

run_reaches_end_example :
    (more : List (Move String)) × ((run 2 more begun).loop ≡ ended)
    × (length more ≤ 5 * 3 + 1)
    × AllYield (λ i. crash) more
run_reaches_end_example = run_reaches_end 2 customer orders (λ i. crash) begin

run-Finished_example :
    Finished 2 to_the_end (λ k. of_key customer 0 k orders) (run_batch customer orders)
run-Finished_example = run-Finished 2 customer orders to_the_end (omega arith) all_over
