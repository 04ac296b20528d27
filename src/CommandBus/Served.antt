-- ===== src/CommandBus/Served.antt =====
-- Where the command of a waiting Dispatch is.
use eventsourcing.Shared.{
  count-get, ℕ, ℤ, ◌≡◌, refl, String, string_eq, true, false, ◌||◌, Option, none, some, List, [],
  ◌∷◌, nat_eq, get_elem?, arith, Bool-cases, ◌⊎◌, inl, inr,
}
use eventsourcing.CommandBus.{
  CommandBus, Caller, Worker, idle, exited, holds, handles, Reply, Action, is_waiting, run,
  new_command_bus, is_empty, select_shard, stopped,
}
use eventsourcing.CommandBus.Counted.{is_active, is_exited}
use eventsourcing.CommandBus.Counting.{run-Counted, new_command_bus-Counted}
use eventsourcing.CommandBus.Shards.{with_shard, is_some, Waits}
use eventsourcing.CommandBus.Waiting.{WaitsIn, run-WaitsIn}

-- Where the calls of Dispatch of a bus are.
pub record Answered {A X H : Type 0} (hash : String → ℕ) (b : CommandBus A X H) : Type 0 where
  pub served :
      (i : ℕ) (c : Caller A X)
      → get_elem? b.callers i ≡ some c
      → is_waiting c ≡ true
      → ((r : Reply X) × (c.reply ≡ some r))
        ⊎ ((is_exited (b.workers (select_shard hash b c.command.aggregate_id)) ≡ false)
            × (with_shard
                  (b.queues (select_shard hash b c.command.aggregate_id))
                  (b.workers (select_shard hash b c.command.aggregate_id))
                  i
                ≡ true))
  pub returned_by_stop :
      stopped b ≡ true
      → (i : ℕ) (c : Caller A X) → get_elem? b.callers i ≡ some c
      → is_active c ≡ false

gone_empty :
    (w : Worker) (q : List ℕ) (i : ℕ)
    → with_shard q w i ≡ true
    → (is_exited w ≡ true → is_empty q ≡ true)
    → is_exited w ≡ false
gone_empty exited [] i h empty = absurd (ground (arith, h))
gone_empty exited (j ∷ q) i h empty = absurd (ground (arith, empty refl))
gone_empty idle q i h empty = refl
gone_empty (holds j) q i h empty = refl
gone_empty (handles j) q i h empty = refl

answered_by :
    {X : Type 0} (i : ℕ) (r : Option (Reply X)) (q : List ℕ) (w : Worker)
    → (is_some r || with_shard q w i) ≡ true
    → (is_exited w ≡ true → is_empty q ≡ true)
    → ((y : Reply X) × (r ≡ some y)) ⊎ ((is_exited w ≡ false) × (with_shard q w i ≡ true))
answered_by i (some y) q w h empty = inl (y, refl)
answered_by i none q w h empty = inr (gone_empty w q i h empty, h)

module _ {A X H : Type 0} (hash : String → ℕ) where
  -- However the goroutines of a bus interleave, no Dispatch is left waiting for nothing: while one
  -- waits, its reply has been sent, or its command is with its shard, in the queue or at the worker,
  -- and that worker has not gone. And when Stop returns, every Dispatch has.
  pub run-Answered :
      (buffer : ℕ) (shards : ℤ) (actions : List (Action A X H))
      → Answered hash (run hash actions (new_command_bus buffer shards))
  unfolding WaitsIn Waits new_command_bus
  run-Answered buffer shards actions =
      let start : CommandBus A X H = new_command_bus buffer shards in
      let b = run hash actions start in
      let c = run-Counted hash actions start (new_command_bus-Counted hash buffer shards) in
      let waits = run-WaitsIn hash actions start (λ i c at h. absurd (ground (arith, at))) in
      record {
        served = λ i x at h.
            let k = select_shard hash b x.command.aggregate_id in
            answered_by i x.reply (b.queues k) (b.workers k) (waits i x at h)
              (λ left. (c.gone k left).0);
        returned_by_stop = λ h i x at. elim (Bool-cases (is_active x)) [
          | inl active ↦
              absurd (count-get is_active b.callers i x at active (ground (arith, c.wg, h)))
          | inr back ↦ back
        ];
      }
