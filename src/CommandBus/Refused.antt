-- ===== src/CommandBus/Refused.antt =====
-- A Dispatch that the closed bus refuses.
use eventsourcing.Shared.{ℕ, string_eq, Bool, List, ◌==◌, nat_eq, any}
use eventsourcing.CommandBus.{CommandBus}
use eventsourcing.CommandBus.Moves.{Moves}

abbrev pub among : ℕ → List ℕ → Bool
among i is = any (λ j. j == i) is
