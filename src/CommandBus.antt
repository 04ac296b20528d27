-- ===== src/CommandBus.antt =====
-- command_bus.go: dispatches, the workers of the shards, and Stop, one step of a goroutine at a time.
-- A step whose goroutine is elsewhere, or blocked, changes nothing. What the mutex or a select makes
-- atomic is one step. `hash` is 32-bit FNV-1a.
pub mod Callers
pub mod Counted
pub mod Counting
pub mod Shards
pub mod Waiting
pub mod Served
pub mod Sent
pub mod Order
pub mod Onward
pub mod Moves
pub mod Refused
use eventsourcing.Shared.{
  set_elem, update, ℕ, ℤ, pos, negsuc, zero, suc, ◌+◌, ◌-◌, ◌%◌, String, Bool, true, false, not,
  ◌&&◌, ◌||◌, Option, none, some, List, [], ◌∷◌, ◌++◌, ◌==◌, string_eq, nat_eq, ltb, length,
  get_elem?, any, if◌then◌else◌,
}
use eventsourcing.Shared.Dict
use eventsourcing.Shared.Dict.{Dict}
use eventsourcing.Envelope.{AppendResult}

-- `Command`, with what its handler reads of it.
pub record Command (A : Type 0) : Type 0 where
  pub command_type : String
  pub aggregate_id : String
  pub payload : A

-- The errors of `Dispatch`. The handler's own are abstract.
pub data BusError (X : Type 0) : Type 0 where
  bus_closed ctx_ended handler_not_registered : BusError X
  handler_error handler_panicked : X → BusError X

-- `commandResult`, and what `Dispatch` returns
pub record Reply (X : Type 0) : Type 0 where
  pub result : AppendResult
  pub error : Option (BusError X)

-- Where a `Dispatch` is: at the select that enqueues its command, at the one that awaits the reply,
-- or back at its caller.
pub data Progress (X : Type 0) : Type 0 where
  entering waiting : Progress X
  returned : Reply X → Progress X

-- A call of `Dispatch`: its command and context, and what its response channel holds.
pub record Caller (A X : Type 0) : Type 0 where
  pub command : Command A
  pub ended : Bool
  pub progress : Progress X
  pub reply : Option (Reply X)

-- Where a worker is: at its select, before a command that it took, in the command's handler, or gone.
pub data Worker : Type 0 where
  idle exited : Worker
  holds handles : ℕ → Worker

-- `CommandBus`, its goroutines and its callers, in the order in which they called. A queue holds the
-- numbers of callers.
pub record CommandBus (A X H : Type 0) : Type 0 where
  pub handlers : Dict String H
  pub middlewares : List (H → H)
  pub queues : ℕ → List ℕ
  pub workers : ℕ → Worker
  pub callers : List (Caller A X)
  pub wg : ℕ
  pub enqueue_wg : ℕ
  pub stop_closed : Bool
  pub drain_closed : Bool
  pub buffer_size : ℕ
  pub shard_count : ℕ

-- What a handler's call comes to.
pub data Handled (X : Type 0) : Type 0 where
  succeeds : AppendResult → Handled X
  fails : AppendResult → X → Handled X
  panics : X → Handled X

abbrev pub unsuccessful : AppendResult
unsuccessful = record {
  successful = false;
  stream_id = "";
  next_expected_version = 0;
  global_position = 0;
}

abbrev pub refusal : {X : Type 0} → BusError X → Reply X
refusal e = record { result = unsuccessful; error = some e }

abbrev pub reply_of : {X : Type 0} → Handled X → Reply X
reply_of (succeeds r) = record { result = r; error = none }
reply_of (fails r e) = record { result = r; error = some (handler_error e) }
reply_of (panics e) = refusal (handler_panicked e)

abbrev pub is_entering : {A X : Type 0} → Caller A X → Bool
is_entering c = elim c.progress [ entering ↦ true | _ ↦ false ]

abbrev pub is_waiting : {A X : Type 0} → Caller A X → Bool
is_waiting c = elim c.progress [ waiting ↦ true | _ ↦ false ]

abbrev pub is_idle : Worker → Bool
is_idle idle = true
is_idle _ = false

abbrev pub is_empty : List ℕ → Bool
is_empty [] = true
is_empty (i ∷ is) = false

-- The loop over the middlewares, from the last to the first
abbrev pub wrap : {H : Type 0} → List (H → H) → H → H
wrap [] h = h
wrap (m ∷ ms) h = m (wrap ms h)

-- shardCount, clamped to at least 1
abbrev pub clamp : ℤ → ℕ
clamp (pos zero) = 1
clamp (pos (suc n)) = suc n
clamp (negsuc n) = 1

module _ {A X H : Type 0} where
  unfoldable pub new_command_bus : ℕ → ℤ → CommandBus A X H
  new_command_bus buffer shards = record {
    handlers = [];
    middlewares = [];
    queues = λ k. [];
    workers = λ k. idle;
    callers = [];
    wg = 0;
    enqueue_wg = 0;
    stop_closed = false;
    drain_closed = false;
    buffer_size = buffer;
    shard_count = clamp shards;
  }

  abbrev pub called : CommandBus A X H → Command A → Progress X → CommandBus A X H
  called b cmd p = record b {
    callers = b.callers ++ record { command = cmd; ended = false; progress = p; reply = none } ∷ [];
  }

  -- `Dispatch` up to its first select
  unfoldable pub dispatch : Command A → CommandBus A X H → CommandBus A X H
  dispatch cmd b =
      if b.stop_closed
      then called b cmd (returned (refusal bus_closed))
      else record (called b cmd entering) { wg = b.wg + 1; enqueue_wg = b.enqueue_wg + 1 }

  abbrev pub at_caller :
      (ℕ → Caller A X → CommandBus A X H → CommandBus A X H)
      → ℕ
      → CommandBus A X H
      → CommandBus A X H
  at_caller f i b = elim (get_elem? b.callers i) [ none ↦ b | some c ↦ f i c b ]

  abbrev pub set_caller : ℕ → Caller A X → CommandBus A X H → CommandBus A X H
  set_caller i c b = record b { callers = set_elem b.callers i c }

  -- A `Dispatch` that leaves its first select without having enqueued.
  abbrev pub leave : BusError X → ℕ → Caller A X → CommandBus A X H → CommandBus A X H
  leave e i c b = record (set_caller i (record c { progress = returned (refusal e) }) b) {
    wg = b.wg - 1;
    enqueue_wg = b.enqueue_wg - 1;
  }

  unfoldable pub leave_closed : ℕ → Caller A X → CommandBus A X H → CommandBus A X H
  leave_closed i c b = if is_entering c && b.stop_closed then leave bus_closed i c b else b

  unfoldable pub leave_ended : ℕ → Caller A X → CommandBus A X H → CommandBus A X H
  leave_ended i c b = if is_entering c && c.ended then leave ctx_ended i c b else b

  abbrev pub return : Reply X → ℕ → Caller A X → CommandBus A X H → CommandBus A X H
  return r i c b = record (set_caller i (record c { progress = returned r }) b) { wg = b.wg - 1 }

  unfoldable pub receive : ℕ → Caller A X → CommandBus A X H → CommandBus A X H
  receive i c b = if is_waiting c then elim c.reply [ none ↦ b | some r ↦ return r i c b ] else b

  unfoldable pub abandon : ℕ → Caller A X → CommandBus A X H → CommandBus A X H
  abandon i c b = if is_waiting c && c.ended then return (refusal ctx_ended) i c b else b

  abbrev pub end_ctx : ℕ → Caller A X → CommandBus A X H → CommandBus A X H
  end_ctx i c b = set_caller i (record c { ended = true }) b

  -- The worker receives, if it is at its select.
  abbrev pub taken : ℕ → Worker → List ℕ → CommandBus A X H → CommandBus A X H
  taken k idle [] b = b
  taken k idle (i ∷ is) b = record b {
    queues = update b.queues k is;
    workers = update b.workers k (holds i);
  }
  taken k exited q b = b
  taken k (holds i) q b = b
  taken k (handles i) q b = b

  abbrev pub take : ℕ → CommandBus A X H → CommandBus A X H
  take k b = taken k (b.workers k) (b.queues k) b

  unfoldable pub exit : ℕ → CommandBus A X H → CommandBus A X H
  exit k b =
      if is_idle (b.workers k) && b.drain_closed && is_empty (b.queues k)
      then record b { workers = update b.workers k exited }
      else b

  -- The worker sends a reply and is back at its select.
  abbrev pub respond : ℕ → Reply X → ℕ → Caller A X → CommandBus A X H → CommandBus A X H
  respond k r i c b = record (set_caller i (record c { reply = some r }) b) {
    workers = update b.workers k idle;
  }

  -- What the worker does before the handler.
  abbrev pub checked : ℕ → ℕ → Caller A X → CommandBus A X H → CommandBus A X H
  checked k i c b =
      if c.ended
      then respond k (refusal ctx_ended) i c b
      else elim (Dict.get b.handlers c.command.command_type) [
        | none ↦ respond k (refusal handler_not_registered) i c b
        | some h ↦ record b { workers = update b.workers k (handles i) }
      ]

  abbrev pub check_by : ℕ → Worker → CommandBus A X H → CommandBus A X H
  check_by k idle b = b
  check_by k exited b = b
  check_by k (holds i) b = at_caller (checked k) i b
  check_by k (handles i) b = b

  abbrev pub check : ℕ → CommandBus A X H → CommandBus A X H
  check k b = check_by k (b.workers k) b

  abbrev pub finish_by : ℕ → Handled X → Worker → CommandBus A X H → CommandBus A X H
  finish_by k x idle b = b
  finish_by k x exited b = b
  finish_by k x (holds i) b = b
  finish_by k x (handles i) b = at_caller (respond k (reply_of x)) i b

  abbrev pub finish : ℕ → Handled X → CommandBus A X H → CommandBus A X H
  finish k x b = finish_by k x (b.workers k) b

  -- `Stop` up to the wait for the enqueues, and the closing of drainCh after it
  abbrev pub close_stop : CommandBus A X H → CommandBus A X H
  close_stop b = record b { stop_closed = true }

  unfoldable pub close_drain : CommandBus A X H → CommandBus A X H
  close_drain b = if b.stop_closed && b.enqueue_wg == 0 then record b { drain_closed = true } else b

  -- `Stop` is past its last wait.
  abbrev pub stopped : CommandBus A X H → Bool
  stopped b = b.drain_closed && b.wg == 0

  abbrev pub use_middlewares : List (H → H) → CommandBus A X H → CommandBus A X H
  use_middlewares ms b = record b { middlewares = b.middlewares ++ ms }

  -- none for the panic on a duplicate
  unfoldable pub register : String → H → CommandBus A X H → Option (CommandBus A X H)
  register name h b = elim (Dict.get b.handlers name) [
    | none ↦ some (record b { handlers = Dict.put b.handlers name (wrap b.middlewares h) })
    | some _ ↦ none
  ]

-- The steps of the goroutines, by the number of a caller or of a shard.
pub data Action (A X H : Type 0) : Type 0 where
  dispatches : Command A → Action A X H
  enqueues leaves_closed leaves_ended receives abandons ends_ctx : ℕ → Action A X H
  takes checks exits : ℕ → Action A X H
  finishes : ℕ → Handled X → Action A X H
  closes_stop closes_drain : Action A X H
  adds : List (H → H) → Action A X H
  registers : String → H → Action A X H

module _ {A X H : Type 0} (hash : String → ℕ) where
  abbrev pub select_shard : CommandBus A X H → String → ℕ
  select_shard b id = hash id % b.shard_count

  -- A channel without a buffer hands over to a worker that waits for it.
  abbrev pub has_room : CommandBus A X H → ℕ → Bool
  has_room b k =
      ltb (length (b.queues k)) b.buffer_size || (is_idle (b.workers k) && is_empty (b.queues k))

  unfoldable pub enqueue : ℕ → Caller A X → CommandBus A X H → CommandBus A X H
  enqueue i c b =
      let k = select_shard b c.command.aggregate_id in
      if is_entering c && has_room b k
      then record (set_caller i (record c { progress = waiting }) b) {
        queues = update b.queues k (b.queues k ++ i ∷ []);
        enqueue_wg = b.enqueue_wg - 1;
      }
      else b

  abbrev pub step : Action A X H → CommandBus A X H → CommandBus A X H
  step (dispatches cmd) b = dispatch cmd b
  step (enqueues i) b = at_caller enqueue i b
  step (leaves_closed i) b = at_caller leave_closed i b
  step (leaves_ended i) b = at_caller leave_ended i b
  step (receives i) b = at_caller receive i b
  step (abandons i) b = at_caller abandon i b
  step (ends_ctx i) b = at_caller end_ctx i b
  step (takes k) b = take k b
  step (checks k) b = check k b
  step (exits k) b = exit k b
  step (finishes k x) b = finish k x b
  step closes_stop b = close_stop b
  step closes_drain b = close_drain b
  step (adds ms) b = use_middlewares ms b
  step (registers name h) b = elim (register name h b) [ none ↦ b | some b' ↦ b' ]

  unfoldable pub run : List (Action A X H) → CommandBus A X H → CommandBus A X H
  run [] b = b
  run (a ∷ rest) b = run rest (step a b)
