-- ===== src/Tests/Dispatching.antt =====
-- A bus of two shards: two commands for one account, and a Stop while the second waits.
use eventsourcing.Shared.{
  ℕ, pos, String, ◌≡◌, refl, Bool, true, false, none, List, [], ◌∷◌, ◌++◌, nat_eq, string_eq, map,
}
use eventsourcing.Shared.Dict
use eventsourcing.Envelope.{AppendResult}
use eventsourcing.CommandBus.{
  CommandBus, Command, Caller, Action, Reply, Progress, entering, waiting, returned, Handled,
  succeeds, fails, panics, run, new_command_bus, dispatches, enqueues, leaves_closed, leaves_ended,
  receives, abandons, ends_ctx, takes, checks, exits, finishes, closes_stop, closes_drain, adds,
  registers, stopped, refusal, bus_closed, ctx_ended, handler_panicked, reply_of,
}
use eventsourcing.CommandBus.Served.{Answered, run-Answered}
use eventsourcing.CommandBus.Order.{entered, answered, pending, at_least_one, run_in_order}

abbrev one : String → ℕ
one id = 1

abbrev deposit : ℕ → Command ℕ
deposit n = record { command_type = "Deposit"; aggregate_id = "account"; payload = n }

abbrev ok_at : ℕ → AppendResult
ok_at n = record {
  successful = true;
  stream_id = "account";
  next_expected_version = n;
  global_position = n;
}

-- Callers 0 and 1 enqueue, caller 1's context ends, Stop begins, and caller 2 is refused; the worker
-- handles the first command, and skips the second.
abbrev day : List (Action ℕ String Bool)
day =
    registers "Deposit" true
    ∷ dispatches (deposit 5)
    ∷ dispatches (deposit 7)
    ∷ enqueues 0
    ∷ takes 1
    ∷ enqueues 1
    ∷ checks 1
    ∷ ends_ctx 1
    ∷ closes_stop
    ∷ dispatches (deposit 9)
    ∷ closes_drain
    ∷ exits 1
    ∷ finishes 1 (succeeds (ok_at 1))
    ∷ exits 1
    ∷ takes 1
    ∷ checks 1
    ∷ exits 1
    ∷ receives 0
    ∷ abandons 1
    ∷ []

abbrev new_bus : CommandBus ℕ String Bool
new_bus = new_command_bus 8 (pos 2)

outcomes : List (Progress String)
outcomes = map (λ (c : Caller ℕ String). c.progress) (run one day new_bus).callers

callers_return :
    outcomes
    ≡ returned (reply_of (succeeds (ok_at 1)))
      ∷ returned (refusal ctx_ended)
      ∷ returned (refusal bus_closed)
      ∷ []
unfolding outcomes run eventsourcing.CommandBus.exit eventsourcing.CommandBus.close_drain
    eventsourcing.CommandBus.dispatch eventsourcing.CommandBus.register Dict.get new_command_bus
    eventsourcing.CommandBus.enqueue Dict.put eventsourcing.CommandBus.receive
    eventsourcing.CommandBus.abandon
callers_return = refl

stop_returns : stopped (run one day new_bus) ≡ true
unfolding run eventsourcing.CommandBus.exit eventsourcing.CommandBus.close_drain
    eventsourcing.CommandBus.dispatch eventsourcing.CommandBus.register Dict.get new_command_bus
    eventsourcing.CommandBus.enqueue Dict.put eventsourcing.CommandBus.receive
    eventsourcing.CommandBus.abandon
stop_returns = refl

both_answered : answered one 2 1 day new_bus ≡ 0 ∷ 1 ∷ []
unfolding answered eventsourcing.CommandBus.dispatch eventsourcing.CommandBus.register Dict.get
    new_command_bus eventsourcing.CommandBus.enqueue eventsourcing.CommandBus.exit
    eventsourcing.CommandBus.close_drain Dict.put eventsourcing.CommandBus.receive
    eventsourcing.CommandBus.abandon
both_answered = refl

run-Answered_example : Answered one (run one day (new_command_bus 8 (pos 2)))
run-Answered_example = run-Answered one 8 (pos 2) day

run_in_order_example :
    entered one (at_least_one (pos 2)) 1 day (new_command_bus 8 (pos 2))
    ≡ answered one (at_least_one (pos 2)) 1 day (new_command_bus 8 (pos 2))
      ++ pending one (at_least_one (pos 2)) 1 (run one day (new_command_bus 8 (pos 2)))
run_in_order_example = run_in_order one 8 1 (pos 2) day

abbrev refused_call : Caller ℕ String
refused_call = record {
  command = deposit 9;
  ended = false;
  progress = returned (refusal bus_closed);
  reply = none;
}
