-- ===== src/Memory/EventStore.antt =====
-- memory/eventstore.go. Each operation holds the store's lock for all that it reads or writes, so
-- it is one step from state to state. A saved record is never written again, so its pointer is
-- modelled by its value. A slice's length fits a uint64, so positions and versions do not wrap.
pub mod Invariant
pub mod Append
pub mod Encoded
pub mod Save
pub mod Contract
pub mod Reading
pub mod Paging
use text.Mathlib.Text.{starts_with}
use eventsourcing.Shared.{
  ℕ, zero, suc, ◌+◌, ◌-◌, String, Bool, true, false, not, ◌&&◌, Option, none, some, List, [], ◌∷◌,
  ◌++◌, ◌==◌, string_eq, nat_eq, any, keep, length, get_elem?, drop, leb, ltb, if◌then◌else◌,
}
use eventsourcing.Shared.Dict
use eventsourcing.Shared.Dict.{Dict}
use eventsourcing.Result.{Result, ok, err, ◌>>=◌}
use eventsourcing.Revision.{
  StreamState, ℤ, pos, negsuc, any as any_state, no_stream, stream_exists, revision, foreign,
}
use eventsourcing.Envelope.{Envelope, AppendResult, Codec}
use eventsourcing.Errors.{
  StoreError, stream_not_found, stream_already_exists, invalid_event_batch, invalid_revision,
  store_closed, empty_correlation_id, codec_failed, revision_conflict,
}
use eventsourcing.Iter.{Iterator, Source, Pulled, item, eof, failed, new_iterator}

-- The source's `record`: an envelope with its event and metadata left nil, beside their encodings.
pub record Record (E M : Type 0) : Type 0 where
  pub env : Envelope E M
  pub name : String
  pub payload : List ℕ
  pub metadata : List ℕ

pub record EventStore (E M : Type 0) : Type 0 where
  pub closed : Bool
  pub global : List (Record E M)
  pub events : Dict String (List (Record E M))

abbrev pub new_event_store : {E M : Type 0} → EventStore E M
new_event_store = record { closed = false; global = []; events = [] }

-- What `Save` returns, with the store after it.
pub record Saved (E M : Type 0) : Type 0 where
  pub store : EventStore E M
  pub result : AppendResult
  pub error : Option StoreError

pub record ReadOptions : Type 0 where
  pub limit : ℤ
  pub event_types : List String
  pub stream_prefixes : List String

pub record ReadResult (E M : Type 0) : Type 0 where
  pub events : List (Envelope E M)
  pub next : ℕ
  pub at_end : Bool

abbrev pub failed_append : String → AppendResult
failed_append id = record {
  successful = false;
  stream_id = id;
  next_expected_version = 0;
  global_position = 0;
}

-- m.events[id], nil for a missing stream.
unfoldable pub stream : {E M : Type 0} → EventStore E M → String → List (Record E M)
stream m id = elim (Dict.get m.events id) [ none ↦ [] | some rs ↦ rs ]

-- The revision check of `Save` against the stream's length.
unfoldable pub check_revision : String → ℕ → StreamState → Option (AppendResult × StoreError)
check_revision id current any_state = none
check_revision id current no_stream =
    if not (current == 0) then some (failed_append id, stream_already_exists) else none
check_revision id current stream_exists =
    if current == 0 then some (failed_append id, stream_not_found) else none
check_revision id current (revision r) =
    if not (current == r)
    then some (failed_append "", revision_conflict id (revision r) (revision current))
    else none
check_revision id current (foreign z) = some (failed_append id, invalid_revision)

module _ {E M : Type 0} where
  -- The loop that validates a batch.
  unfoldable pub validate : String → List (Envelope E M) → Option StoreError
  validate id [] = none
  validate id (env ∷ envs) =
      if not (env.stream_id == id)
      then some invalid_event_batch
      else if env.event_id == 0
      then some invalid_event_batch
      else validate id envs

  -- The body of the loop that appends; `current` is the source's `currentVersion`.
  abbrev pub numbered : EventStore E M → ℕ → Record E M → Record E M
  numbered m current r = record r {
    env = record r.env { version = current + 1; global_position = length m.global + 1 };
  }

  unfoldable pub append_record : String → EventStore E M → ℕ → Record E M → EventStore E M
  append_record id m current r = record m {
    events = Dict.put m.events id (stream m id ++ numbered m current r ∷ []);
    global = m.global ++ numbered m current r ∷ [];
  }

  unfoldable pub append_records :
      String → EventStore E M → ℕ → List (Record E M) → EventStore E M × ℕ
  append_records id m current [] = (m, current)
  append_records id m current (r ∷ rs) =
      append_records id (append_record id m current r) (current + 1) rs

  -- `matches`
  unfoldable pub matches : List String → List String → Record E M → Bool
  matches types prefixes rec =
      if ltb 0 (length types) && not (any (λ t. t == rec.name) types)
      then false
      else if length prefixes == 0
      then true
      else any (λ p. starts_with rec.env.stream_id p) prefixes

  unfoldable pub head : EventStore E M → ℕ
  head m = length m.global

  unfoldable pub close : EventStore E M → EventStore E M
  close m = if m.closed then m else record m { closed = true; events = []; global = [] }

-- `limit <= 0` stands for 500.
abbrev pub page_limit : ℤ → ℕ
page_limit (pos n) = if n == 0 then 500 else n
page_limit (negsuc n) = 500

abbrev pub is_some {ℓ} : {A : Type ℓ} → Option A → Bool
is_some none = false
is_some (some a) = true

module _ (c : Codec) where
  open c use {
    Event, Metadata, event_type, encode_event, decode_event, encode_metadata, decode_metadata,
  }

  abbrev pub Store : Type 0
  Store = EventStore Event Metadata

  -- `envelope`: the record decoded.
  unfoldable pub envelope : Record Event Metadata → Result StoreError (Envelope Event Metadata)
  envelope r = elim (decode_event r.name r.payload) [
    | err e ↦ err (codec_failed e)
    | ok ev ↦ elim (decode_metadata r.metadata) [
      | err e ↦ err (codec_failed e)
      | ok meta ↦ ok (record r.env { event = some ev; metadata = some meta })
    ]
  ]

  -- The name of an event whose encoding succeeded, which is not nil.
  abbrev name_of : Option Event → String
  name_of none = ""
  name_of (some ev) = event_type ev

  -- `now` is the clock when the event is encoded; a zero time is filled in.
  unfoldable pub to_record : ℕ → Envelope Event Metadata → Result StoreError (Record Event Metadata)
  to_record now env = elim (encode_event env.event) [
    | err e ↦ err (codec_failed e)
    | ok payload ↦ elim (encode_metadata env.metadata) [
      | err e ↦ err (codec_failed e)
      | ok meta ↦ ok (record {
        env = record env {
          event = none;
          metadata = none;
          occurred_at = if env.occurred_at == 0 then now else env.occurred_at;
        };
        name = name_of env.event;
        payload = payload;
        metadata = meta;
      })
    ]
  ]

  -- The loop that encodes; `clock i` is the time when the i-th event of the batch is encoded.
  unfoldable pub to_records :
      (ℕ → ℕ)
      → ℕ
      → List (Envelope Event Metadata)
      → Result StoreError (List (Record Event Metadata))
  to_records clock i [] = ok []
  to_records clock i (env ∷ envs) = do
    r ← to_record (clock i) env
    rs ← to_records clock (suc i) envs
    ok (r ∷ rs)

  abbrev rejected : Store → AppendResult → StoreError → Saved Event Metadata
  rejected m res e = record { store = m; result = res; error = some e }

  append_checked :
      Store
      → String
      → List (Record Event Metadata)
      → Option (AppendResult × StoreError)
      → Saved Event Metadata
  append_checked m id records (some (res, e)) = rejected m res e
  append_checked m id records none =
      let (m', current) = append_records id m (length (stream m id)) records in
      record {
        store = m';
        result = record {
          successful = true;
          stream_id = id;
          next_expected_version = current;
          global_position = length m'.global;
        };
        error = none;
      }

  -- `Save` from where the lock is taken.
  append : Store → String → List (Record Event Metadata) → StreamState → Saved Event Metadata
  unfolding append_checked
  append m id records state =
      if m.closed
      then rejected m (failed_append "") store_closed
      else append_checked m id records (check_revision id (length (stream m id)) state)

  save_encoded :
      Store
      → String
      → Result StoreError (List (Record Event Metadata))
      → StreamState
      → Saved Event Metadata
  unfolding append
  save_encoded m id (err e) state = rejected m (failed_append id) e
  save_encoded m id (ok records) state = append m id records state

  save_validated :
      (ℕ → ℕ)
      → Store
      → String
      → List (Envelope Event Metadata)
      → Option StoreError
      → StreamState
      → Saved Event Metadata
  unfolding save_encoded
  save_validated clock m id envs (some e) state = rejected m (failed_append id) e
  save_validated clock m id envs none state = save_encoded m id (to_records clock 0 envs) state

  unfoldable pub save :
      (ℕ → ℕ) → Store → List (Envelope Event Metadata) → StreamState → Saved Event Metadata
  unfolding save_validated
  save clock m [] state = record {
    store = m;
    result = record {
      successful = true;
      stream_id = "";
      next_expected_version = 0;
      global_position = 0;
    };
    error = none;
  }
  save clock m (env ∷ envs) state =
      save_validated clock m env.stream_id (env ∷ envs) (validate env.stream_id (env ∷ envs)) state

  -- The closure of the iterators: the state is the offset into the snapshot.
  unfoldable pub next_record :
      List (Record Event Metadata) → ℕ → Pulled StoreError (Envelope Event Metadata) × ℕ
  next_record events offset = elim (get_elem? events offset) [
    | none ↦ (eof, offset)
    | some rec ↦ elim (envelope rec) [
      | err e ↦ (failed e, offset + 1)
      | ok env ↦ (item env, offset + 1)
    ]
  ]

  -- `ctx i` is the context's error when the offset is i.
  abbrev pub Events : Type 0
  Events = Iterator ℕ StoreError (Envelope Event Metadata)

  unfoldable pub iterate : (ℕ → Option StoreError) → List (Record Event Metadata) → ℕ → Events
  iterate ctx events offset =
      new_iterator (record { ctx_err = ctx; next = next_record events; close = none }) offset

  -- Where `LoadStreamFrom` starts in a stream of n events, `exists` saying if the map holds it.
  unfoldable pub start_offset : Bool → ℕ → StreamState → Result StoreError ℕ
  start_offset exists n no_stream = if exists then err stream_already_exists else ok 0
  start_offset exists n stream_exists = if not exists then err stream_not_found else ok 0
  start_offset exists n (revision v) = if ltb n v then err invalid_revision else ok v
  start_offset exists n any_state = ok 0
  start_offset exists n (foreign z) = ok 0

  unfoldable pub load_stream_from :
      (ℕ → Option StoreError) → Store → String → StreamState → Result StoreError Events
  unfolding start_offset
  load_stream_from ctx m id state = do
    offset ← start_offset (is_some (Dict.get m.events id)) (length (stream m id)) state
    ok (iterate ctx (stream m id) offset)

  unfoldable pub load_stream : (ℕ → Option StoreError) → Store → String → Result StoreError Events
  load_stream ctx m id = load_stream_from ctx m id stream_exists

  -- The loop of `ReadAll`, with `room` events left to the limit; `next` is the result's `Next`.
  unfoldable pub scan :
      (Record Event Metadata → Bool)
      → ℕ
      → ℕ
      → List (Record Event Metadata)
      → Result StoreError (List (Envelope Event Metadata) × ℕ)
  scan p room next [] = ok ([], next)
  scan p room next (rec ∷ recs) =
      let rest = scan p (room - 1) rec.env.global_position recs in
      let skipped = scan p room rec.env.global_position recs in
      if p rec
      then (do
        env ← envelope rec
        if room - 1 == 0
            then ok (env ∷ [], rec.env.global_position)
            else (do (envs, n) ← rest; ok (env ∷ envs, n)))
      else skipped

  -- `ctx` is the error of the context at the call.
  unfoldable pub read_all :
      Option StoreError → Store → ℕ → ReadOptions → Result StoreError (ReadResult Event Metadata)
  read_all (some e) m after opts = err e
  read_all none m after opts = do
    (envs, next) ←
        scan (matches opts.event_types opts.stream_prefixes) (page_limit opts.limit) after
          (drop after m.global)
    ok (record { events = envs; next = next; at_end = leb (length m.global) next })

  unfoldable pub load_correlation :
      (ℕ → Option StoreError) → Store → String → Result StoreError Events
  load_correlation ctx m id =
      if id == ""
      then err empty_correlation_id
      else ok (iterate ctx (keep (λ rec. rec.env.correlation_id == id) m.global) 0)
