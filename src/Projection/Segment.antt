-- ===== src/Projection/Segment.antt =====
-- projection/segment.go: how the loop of a claimed segment applies a batch of events. The functions
-- return the error of the source, none for nil, and the segment's state after them.
pub mod Delivery
pub mod Events
pub mod Batches
pub mod Parking
use eventsourcing.Shared.{
  ℕ, suc, ◌+◌, String, ◌≡◌, Bool, true, false, not, ◌&&◌, Option, none, some, List, [], ◌∷◌, ◌++◌,
  ◌==◌, string_eq, nat_eq, any, leb, ltb, if◌then◌else◌,
}
use eventsourcing.Shared.Dict
use eventsourcing.Shared.Dict.{Dict}
use eventsourcing.Envelope.{Envelope}
use eventsourcing.Projection.{Checkpoint, Status, Phase, live, Lease, DeadLetter, ProjectionError}

-- `ErrorPolicy`
pub data ErrorPolicy : Type 0 where
  stall_on_error skip_when_live skip_always : ErrorPolicy

-- The errors of the loop: a `handlerError` with its event's position and its cause, one that the
-- store returned, the context's, and those of `work` itself.
pub data RunError : Type 0 where
  handler_failed : ℕ → String → RunError
  store_failed : ProjectionError → RunError
  ctx_ended read_failed : RunError

-- What a handler returns: no error, a `SkippedEventError`, or another error.
pub data Handling : Type 0 where
  handles skips : Handling
  fails : String → Handling

-- What a unit of work of the store covers: the read model, and the segment's checkpoint and dead
-- letters, in the order of their recording.
pub record Db (R : Type 0) : Type 0 where
  pub model : R
  pub cp : Checkpoint
  pub letters : List DeadLetter

-- A store of projections as its documentation in projection/store.go promises it to the holder of a
-- claim: a commit that returns no error has run its function and stored what it wrote with the
-- checkpoint, one that returns an error has changed nothing, and only the function returns the
-- handler's errors. `keeps_letters` says whether it is a `DeadLetterStore`.
pub record UnitStore (R : Type 0) : Type 1 where
  pub S : Type 0
  pub db : S → Db R
  pub commit :
      S → Lease → Checkpoint → Status → (Db R → Option RunError × Db R) → Option RunError × S
  pub commit_applied :
      (s : S) (l : Lease) (cp : Checkpoint) (status : Status) (fn : Db R → Option RunError × Db R)
      → (commit s l cp status fn).0 ≡ none
      → ((fn (db s)).0 ≡ none) × (db (commit s l cp status fn).1 ≡ record (fn (db s)).1 { cp = cp })
  pub commit_refused :
      (s : S) (l : Lease) (cp : Checkpoint) (status : Status) (fn : Db R → Option RunError × Db R)
      (e : RunError)
      → (commit s l cp status fn).0 ≡ some e
      → db (commit s l cp status fn).1 ≡ db s
  pub commit-handler_failed :
      (s : S) (l : Lease) (cp : Checkpoint) (status : Status) (fn : Db R → Option RunError × Db R)
      (at : ℕ) (why : String)
      → (commit s l cp status fn).0 ≡ some (handler_failed at why)
      → (fn (db s)).0 ≡ some (handler_failed at why)
  pub keeps_letters : Bool
  pub save_letter : Lease → DeadLetter → Db R → Option RunError × Db R
  pub letter_saved :
      (l : Lease) (d : DeadLetter) (b : Db R)
      → (save_letter l d b).0 ≡ none
      → (save_letter l d b).1 ≡ record b { letters = b.letters ++ d ∷ [] }

-- How an event is handled: in the unit of work of its batch, or in one of its own.
pub data Attempt : Type 0 where
  in_batch alone : Attempt

-- What `applyBatch` uses of a `Definition`. The handler is given the event and the position up to
-- which it is a replay, and the read model, and returns the read model after it. A batch gives it an
-- event at most once in each way, and it may do differently in each.
pub record Definition (E M R : Type 0) : Type 0 where
  pub handler : Attempt → Envelope E M → ℕ → R → Handling × R
  pub on_error : ErrorPolicy
  pub event_type : E → String

-- What the loop keeps of its segment, and how often it has asked for the context's error.
pub record SegmentState (S : Type 0) : Type 0 where
  pub store : S
  pub lease : Lease
  pub status : Status
  pub parked : Dict String Bool
  pub skipped : ℕ
  pub tick : ℕ

abbrev pub is_parked : Dict String Bool → String → Bool
is_parked parked id = elim (Dict.get parked id) [ none ↦ false | some b ↦ b ]

abbrev pub same_lease : Lease → Lease → Bool
same_lease a b =
    a.name == b.name && a.segment == b.segment && a.owner == b.owner && a.epoch == b.epoch

abbrev pub is_live : Phase → Bool
is_live live = true
is_live _ = false

unfoldable pub should_skip : ErrorPolicy → Phase → Bool → Bool
should_skip skip_always phase replaying = true
should_skip skip_when_live phase replaying = is_live phase && not replaying
should_skip stall_on_error phase replaying = false

-- `if err != nil { return err }`
abbrev pub or_return {ℓ} :
    {A : Type ℓ} → Option RunError × A → (A → Option RunError × A) → Option RunError × A
or_return (some e, a) k = (some e, a)
or_return (none, a) k = k a

-- `ErrStreamParked`
abbrev pub stream_parked : String
stream_parked = "projection: an earlier event of the stream was dead-lettered"

-- The position of the last event; the batch is not empty.
abbrev pub last_position : {E M : Type 0} → ℕ → List (Envelope E M) → ℕ
last_position n [] = n
last_position n (env ∷ envs) = last_position env.global_position envs

abbrev pub nothing : {R : Type 0} → Db R → Option RunError × Db R
nothing b = (none, b)

module _ {E M R : Type 0} (store : UnitStore R) (p : Definition E M R) where
  abbrev pub State : Type 0
  State = SegmentState store.S

  -- An error with the state after it.
  abbrev pub Step : Type 0
  Step = Option RunError × State

  abbrev pub handled : Db R → ℕ → Handling × R → Option RunError × Db R
  handled b at (handles, m) = (none, record b { model = m })
  handled b at (skips, m) = (none, record b { model = m })
  handled b at (fails why, m) = (some (handler_failed at why), record b { model = m })

  abbrev pub handle : Attempt → Envelope E M → ℕ → Db R → Option RunError × Db R
  handle way env replay_until b =
      handled b env.global_position (p.handler way env replay_until b.model)

  -- The unit of work of a whole batch.
  unfoldable pub handle_all : List (Envelope E M) → ℕ → Db R → Option RunError × Db R
  handle_all [] replay_until b = (none, b)
  handle_all (env ∷ envs) replay_until b =
      or_return (handle in_batch env replay_until b) (handle_all envs replay_until)

  -- A status is not written for a lease that is no longer the segment's.
  abbrev pub set_status : Lease → Status → State → State
  set_status l status seg = if same_lease seg.lease l then record seg { status = status } else seg

  abbrev pub committed : Status → State → Option RunError × store.S → Step
  committed status seg (some e, s) = (some e, record seg { store = s })
  committed status seg (none, s) = (none, set_status seg.lease status (record seg { store = s }))

  unfoldable pub commit : State → Checkpoint → Status → (Db R → Option RunError × Db R) → Step
  commit seg cp status fn = committed status seg (store.commit seg.store seg.lease cp status fn)

  abbrev type_of : Option E → String
  type_of none = ""
  type_of (some e) = p.event_type e

  abbrev pub letter : Envelope E M → String → DeadLetter
  letter env cause = record {
    position = env.global_position;
    stream_id = env.stream_id;
    event_type = type_of env.event;
    error = cause;
  }

  -- The unit of work of an event that is skipped.
  abbrev pub record_letter : Lease → Envelope E M → String → Db R → Option RunError × Db R
  record_letter l env cause b =
      if store.keeps_letters then store.save_letter l (letter env cause) b else (none, b)

  abbrev pub count_skipped : Step → Step
  count_skipped (some e, seg) = (some e, seg)
  count_skipped (none, seg) = (none, record seg { skipped = seg.skipped + 1 })

  unfoldable pub skip_event : State → Envelope E M → String → Checkpoint → Status → Step
  unfolding commit
  skip_event seg env cause cp status =
      count_skipped (commit seg cp status (record_letter seg.lease env cause))

  abbrev pub park : String → State → Step
  park id seg = (none, record seg { parked = Dict.put seg.parked id true })

  -- The cases of the switch for an error while the context is alive.
  unfoldable pub skip_or_stall :
      RunError → State → Envelope E M → Checkpoint → Status → Phase → Step
  unfolding skip_event
  skip_or_stall (handler_failed at why) seg env cp status phase =
      if should_skip p.on_error phase (leb env.global_position cp.replay_until)
      then or_return (skip_event seg env why cp status) (park env.stream_id)
      else (some (handler_failed at why), seg)
  skip_or_stall e seg env cp status phase = (some e, seg)

  abbrev pub next_tick : State → State
  next_tick seg = record seg { tick = seg.tick + 1 }

-- `ctx n` is whether the context has ended when the loop asks for the n-th time.
module _ {E M R : Type 0} (store : UnitStore R) (p : Definition E M R) (ctx : ℕ → Bool) where
  unfoldable pub after_commit :
      Step store p → Envelope E M → Checkpoint → Status → Phase → Step store p
  unfolding skip_or_stall
  after_commit (none, seg) env cp status phase = (none, seg)
  after_commit (some e, seg) env cp status phase =
      if ctx seg.tick
      then (some ctx_ended, next_tick store p seg)
      else skip_or_stall store p e (next_tick store p seg) env cp status phase

  -- The body of the loop of `applyOneByOne`.
  unfoldable pub apply_one : Checkpoint → Status → Envelope E M → State store p → Step store p
  unfolding after_commit
  apply_one batch_cp batch_status env seg =
      let cp = record batch_cp { position = env.global_position } in
      let status = record batch_status { position = env.global_position } in
      let seg' = next_tick store p seg in
      if ctx seg.tick
      then (some ctx_ended, seg')
      else if is_parked seg.parked env.stream_id
      then skip_event store p seg' env stream_parked cp status
      else after_commit (commit store p seg' cp status (handle store p alone env cp.replay_until))
          env cp status batch_status.phase

  unfoldable pub apply_each :
      Checkpoint → Status → List (Envelope E M) → State store p → Step store p
  apply_each cp status [] seg = (none, seg)
  apply_each cp status (env ∷ envs) seg =
      or_return (apply_one cp status env seg) (apply_each cp status envs)

  unfoldable pub apply_one_by_one :
      Checkpoint → Status → List (Envelope E M) → State store p → Step store p
  apply_one_by_one cp status events seg = or_return (apply_each cp status events seg) (λ seg'.
      if ltb (last_position 0 events) cp.position
      then commit store p seg' cp status nothing
      else (none, seg'))

  unfoldable pub after_batch :
      Checkpoint → Status → List (Envelope E M) → Step store p → Step store p
  after_batch cp status events (none, seg) = (none, seg)
  after_batch cp status events (some (handler_failed at why), seg) =
      apply_one_by_one cp status events seg
  after_batch cp status events (some e, seg) = (some e, seg)

  unfoldable pub apply_batch :
      Checkpoint → Status → List (Envelope E M) → State store p → Step store p
  apply_batch cp status events seg =
      if any (λ env. is_parked seg.parked env.stream_id) events
      then apply_one_by_one cp status events seg
      else after_batch cp status events
          (commit store p seg cp status (handle_all store p events cp.replay_until))
