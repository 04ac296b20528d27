-- ===== src/CommandBus/Sent.antt =====
-- What the steps of a bus enqueue on a shard.
use eventsourcing.Shared.{
  ℕ, String, string_eq, ◌&&◌, none, some, List, [], ◌∷◌, ◌++◌, ◌==◌, nat_eq, get_elem?,
  if◌then◌else◌,
}
use eventsourcing.CommandBus.{
  CommandBus, Caller, Action, is_entering, enqueues, has_room, select_shard, step,
}

module _ {A X H : Type 0} (hash : String → ℕ) (k : ℕ) where
  abbrev pub sent_by : ℕ → Caller A X → CommandBus A X H → List ℕ
  sent_by i c b =
      let s = select_shard hash b c.command.aggregate_id in
      if is_entering c && has_room hash b s then (if s == k then i ∷ [] else []) else []

  -- What a step enqueues on the shard, by the number of its caller.
  abbrev pub sends : Action A X H → CommandBus A X H → List ℕ
  sends (enqueues i) b = elim (get_elem? b.callers i) [ none ↦ [] | some c ↦ sent_by i c b ]
  sends _ b = []

  unfoldable pub sent : List (Action A X H) → CommandBus A X H → List ℕ
  sent [] b = []
  sent (a ∷ rest) b = sends a b ++ sent rest (step hash a b)
