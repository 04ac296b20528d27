-- ===== src/CommandHandler.antt =====
-- command_handler.go: the handler that `NewCommandHandler` returns.
pub mod Log
pub mod Folding
pub mod Decided
pub mod MemoryLog
use eventsourcing.Shared.{
  ℕ, zero, suc, ◌+◌, ◌%◌, ◌^◌, ◌≡◌, String, Bool, true, false, ◌||◌, Option, none, some, List, [],
  ◌∷◌, ◌==◌, string_eq, if◌then◌else◌,
}
use eventsourcing.Shared.Dict
use eventsourcing.Shared.Dict.{Dict}
use eventsourcing.Result.{Result, ok, err}
use eventsourcing.Revision.{StreamState, any, no_stream, stream_exists, revision, foreign}
use eventsourcing.Envelope.{Envelope, AppendResult, Codec}
use eventsourcing.Errors.{StoreError, revision_conflict}
use Log.{EventLog}

-- What the application and the packages outside the repository give: the aggregate's functions, the
-- context's values, the metadata extractors' maps, and by the number of the attempt and of the
-- event in it a new UUID and the time. `D` is the type of the decider's errors.
pub record Aggregate (c : Codec) : Type 1 where
  pub State : Type 0
  pub Command : Type 0
  pub DomainError : Type 0
  pub initial_state : State
  pub evolve : State → Envelope c.Event c.Metadata → State
  pub decide : State → Command → Result DomainError (List c.Event)
  pub stream_namer : Command → String
  pub Value : Type 0
  pub text : String → Value
  pub command_type : Command → String
  pub extracted : List (Dict String Value)
  pub to_metadata : Dict String Value → c.Metadata
  pub correlation : String
  pub causation : String
  pub new_uuid : ℕ → ℕ → ℕ
  pub uuid_text : ℕ → String
  pub time : ℕ → ℕ → ℕ

-- The errors that the handler wraps, by the step that failed. `context_ended` is the context's own
-- error, which a retry strategy may return in place of a conflict.
pub data HandlerError (D : Type 0) : Type 0 where
  load_failed iter_failed save_failed conflict : StoreError → HandlerError D
  business_rule : D → HandlerError D
  context_ended : HandlerError D

-- What one attempt returns: a result with no error or with a permanent one, which ends the retries,
-- or a result with an error that may be retried.
pub data Outcome (D : Type 0) : Type 0 where
  finished : AppendResult → Option (HandlerError D) → Outcome D
  retriable : AppendResult → HandlerError D → Outcome D

-- The variables that the attempts share.
pub record Progress (T : Type 0) : Type 0 where
  pub state : T
  pub load_state : StreamState
  pub last_version : ℕ

-- The state that the attempts act on: the store, the variables, and the number of the attempt.
pub record World (S T : Type 0) : Type 0 where
  pub store : S
  pub progress : Progress T
  pub attempt : ℕ

-- maps.Copy(dst, src)
abbrev pub copy {ℓ} : {V : Type ℓ} → Dict String V → Dict String V → Dict String V
copy dst [] = dst
copy dst ((k, v) ∷ src) = copy (Dict.put dst k v) src

abbrev copy_all {ℓ} : {V : Type ℓ} → Dict String V → List (Dict String V) → Dict String V
copy_all dst [] = dst
copy_all dst (m ∷ ms) = copy_all (copy dst m) ms

-- `isAny || isStreamExists`
abbrev pub auto_converge : StreamState → Bool
auto_converge any = true
auto_converge stream_exists = true
auto_converge _ = false

-- `firstLoadState`
abbrev pub first_load_state : StreamState → StreamState
first_load_state (revision n) = any
first_load_state s = s

-- `saveState`
abbrev pub save_state : StreamState → ℕ → StreamState
save_state state last = if auto_converge state then revision last else state

abbrev pub result_of : Bool → String → ℕ → AppendResult
result_of done id n = record {
  successful = done;
  stream_id = id;
  next_expected_version = n;
  global_position = 0;
}

-- `uint64(actual)`, where a conflict that does not report a `Revision` reads as 0.
abbrev actual_of : StreamState → ℕ
actual_of (revision n) = n
actual_of _ = 0

-- What the handler makes of an error of `Save`.
unfoldable pub after_save_error :
    {D : Type 0} → StreamState → String → AppendResult → StoreError → Outcome D
after_save_error state id res (revision_conflict s expected actual) =
    if auto_converge state
    then retriable (result_of false id (actual_of actual))
        (conflict (revision_conflict s expected actual))
    else finished (result_of false id (actual_of actual))
        (some (conflict (revision_conflict s expected actual)))
after_save_error state id res e = finished res (some (save_failed e))

abbrev pub after_save :
    {D : Type 0} → StreamState → String → AppendResult → Option StoreError → Outcome D
after_save state id res none = finished res none
after_save state id res (some e) = after_save_error state id res e

module _ (c : Codec) (agg : Aggregate c) where
  open agg use {State, Command, DomainError, evolve, decide, Value}

  -- The loop over the iterator.
  unfoldable pub fold_events : Progress State → List (Envelope c.Event c.Metadata) → Progress State
  fold_events p [] = p
  fold_events p (env ∷ envs) =
      fold_events
        (record {
          state = evolve p.state env;
          load_state = revision env.version;
          last_version = env.version;
        })
        envs

  unfoldable pub base_metadata : String → Command → Dict String Value
  base_metadata id cmd =
      copy_all
        (Dict.put (Dict.put [] "command_type" (agg.text (agg.command_type cmd))) "command_id"
          (agg.text id))
        agg.extracted

  -- The loop that wraps the events: the i-th of the attempt, with the correlation so far.
  unfoldable pub wrap_events :
      ℕ → String → c.Metadata → ℕ → ℕ → String → List c.Event → List (Envelope c.Event c.Metadata)
  wrap_events n id meta next i correlation [] = []
  wrap_events n id meta next i correlation (ev ∷ evs) =
      let event_id = agg.new_uuid n i in
      let chain = if correlation == "" then agg.uuid_text event_id else correlation in
      record {
        event_id = event_id;
        stream_id = id;
        metadata = some meta;
        correlation_id = chain;
        causation_id = agg.causation;
        event = some ev;
        version = (next + i) % 2 ^ 64;
        global_position = 0;
        occurred_at = agg.time n i;
      }
      ∷ wrap_events n id meta next (suc i) chain evs

  module _ (log : EventLog c) (others : ℕ → log.S → log.S) (state : StreamState)
      (command_id : String) (cmd : Command) where
    -- `others n` is what other clients do to the store before its n-th call of the handler.
    abbrev pub id : String
    id = agg.stream_namer cmd

    abbrev pub Step : Type 0
    Step = Outcome DomainError × World log.S State

    -- From the events that are to be saved.
    saving : World log.S State → Progress State → List c.Event → Step
    saving w p events =
        let envs =
          wrap_events w.attempt id (agg.to_metadata (base_metadata command_id cmd))
            (p.last_version + 1) 0 agg.correlation events in
        let (s, res, e) =
          log.save (others (w.attempt + w.attempt + 1) w.store) envs
            (save_state state p.last_version) in
        (after_save state id res e, record { store = s; progress = p; attempt = suc w.attempt })

    finish :
        World log.S State → Progress State → AppendResult → Option (HandlerError DomainError) → Step
    finish w p res e = (finished res e, record w { progress = p; attempt = suc w.attempt })

    deciding : World log.S State → Progress State → Result DomainError (List c.Event) → Step
    unfolding saving finish
    deciding w p (err d) = finish w p (result_of false id p.last_version) (some (business_rule d))
    deciding w p (ok []) = finish w p (result_of true id p.last_version) none
    deciding w p (ok (ev ∷ evs)) = saving w p (ev ∷ evs)

    loaded :
        World log.S State
        → Result StoreError (List (Envelope c.Event c.Metadata) × Option StoreError)
        → Step
    unfolding deciding
    loaded w (err e) =
        finish w w.progress (result_of false id w.progress.last_version) (some (load_failed e))
    loaded w (ok (envs, some e)) =
        let p = fold_events w.progress envs in
        finish w p (result_of false id p.last_version) (some (iter_failed e))
    loaded w (ok (envs, none)) =
        let p = fold_events w.progress envs in deciding w p (decide p.state cmd)

    -- The function that `backoff.RetryWithData` is given.
    unfoldable pub attempt : World log.S State → Step
    unfolding loaded
    attempt w =
        let w' = record w { store = others (w.attempt + w.attempt) w.store } in
        loaded w' (log.load w'.store id w.progress.load_state)

    unfoldable pub start : log.S → World log.S State
    start s = record {
      store = s;
      progress = record {
        state = agg.initial_state;
        load_state = first_load_state state;
        last_version = 0;
      };
      attempt = 0;
    }

    abbrev pub Handled : Type 0
    Handled = AppendResult × Option (HandlerError DomainError) × World log.S State

    -- The handler, over `backoff.RetryWithData` with the strategy bound to the context.
    unfoldable pub handle :
        ((World log.S State → Step) → World log.S State → Handled) → log.S → Handled
    handle retry_with_data s = retry_with_data attempt (start s)

-- What is documented of `backoff.RetryWithData`: it runs the function, again after an error that may
-- be retried as often as it likes, and returns the last result, with its error or the context's.
pub data Ran {D W : Type 0} (op : W → Outcome D × W)
    (r : AppendResult × Option (HandlerError D) × W) : W → Type 0 where
  ends :
      (w : W) (res : AppendResult) (e : Option (HandlerError D)) (w' : W)
      → op w ≡ (finished res e, w')
      → r ≡ (res, e, w')
      → Ran op r w
  gives_up :
      (w : W) (res : AppendResult) (e f : HandlerError D) (w' : W)
      → op w ≡ (retriable res e, w')
      → r ≡ (res, some f, w')
      → Ran op r w
  again :
      (w : W) (res : AppendResult) (e : HandlerError D) (w' : W)
      → op w ≡ (retriable res e, w')
      → Ran op r w'
      → Ran op r w
