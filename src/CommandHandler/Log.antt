-- ===== src/CommandHandler/Log.antt =====
-- The interface of eventstore.go as the command handler relies on it, with its contract: a store
-- keeps each stream's history, a load reads it and a save appends to it.
use mathlib.Core.Option
use eventsourcing.Shared.{
  ℕ, ◌≤◌, String, ◌≡◌, ◌≢◌, Option, none, some, List, [], ◌∷◌, ◌++◌, length, drop, map,
}
use eventsourcing.Result.{Result, ok, err}
use eventsourcing.Revision.{StreamState, any, no_stream, stream_exists, revision}
use eventsourcing.Envelope.{Envelope, AppendResult, Codec}
use eventsourcing.Errors.{StoreError, stream_not_found, stream_already_exists}
use eventsourcing.Memory.EventStore.Invariant.{Numbered}
use eventsourcing.Memory.EventStore.Contract.{Holds}

-- `load` is `LoadStreamFrom` with the loop over its iterator: the events and the iterator's error.
-- A state of `S` is one of a store that is in order.
pub record EventLog (c : Codec) : Type 1 where
  pub S : Type 0
  pub load :
      S
      → String
      → StreamState
      → Result StoreError (List (Envelope c.Event c.Metadata) × Option StoreError)
  pub save :
      S → List (Envelope c.Event c.Metadata) → StreamState → S × AppendResult × Option StoreError
  pub history : S → String → List (Envelope c.Event c.Metadata)
  pub numbered :
      (s : S) (id : String)
      → Numbered (λ (e : Envelope c.Event c.Metadata). e.version) 0 (history s id)
  pub load_start : (s : S) (id : String) → load s id any ≡ ok (history s id, none)
  pub load_after :
      (s : S) (id : String) (n : ℕ)
      → n ≤ length (history s id)
      → load s id (revision n) ≡ ok (drop n (history s id), none)
  pub load_existing :
      (s : S) (id : String) → history s id ≢ [] → load s id stream_exists ≡ ok (history s id, none)
  pub load_missing :
      (s : S) (id : String) → history s id ≡ [] → load s id stream_exists ≡ err stream_not_found
  pub load_new :
      (s : S) (id : String)
      → (history s id ≡ [] → load s id no_stream ≡ ok ([], none))
        × (history s id ≢ [] → load s id no_stream ≡ err stream_already_exists)
  pub save_appends :
      (s : S) (env : Envelope c.Event c.Metadata) (envs : List (Envelope c.Event c.Metadata))
      (state : StreamState)
      → (save s (env ∷ envs) state).2 ≡ none
      → Holds state (length (history s env.stream_id))
        × ((added : List (Envelope c.Event c.Metadata)) × (history
                (save s (env ∷ envs) state).0
                env.stream_id
              ≡ history s env.stream_id ++ added)
            × (map (λ (e : Envelope c.Event c.Metadata). e.event) added
                ≡ map
                    (λ (e : Envelope c.Event c.Metadata). Option.map c.read_back e.event)
                    (env ∷ envs)))
  pub save_fails :
      (s : S) (envs : List (Envelope c.Event c.Metadata)) (state : StreamState) (e : StoreError)
      → (save s envs state).2 ≡ some e
      → (id : String) → history (save s envs state).0 id ≡ history s id
