-- ===== src/Memory/EventStore/Contract.antt =====
-- What `Save` promises: the invariant, atomicity, the append, and the concurrency check.
use eventsourcing.Shared.{
  ℕ, ◌+◌, String, ◌≡◌, ◌≢◌, refl, ap, ◌∙◌, true, false, none, some, List, [], ◌∷◌, ◌++◌, string_eq,
  nat_eq, arith, length, beq_refl, length-append, eq_iff,
}
use eventsourcing.Result.{ok}
use eventsourcing.Revision.{StreamState, any, no_stream, stream_exists, revision, foreign}
use eventsourcing.Envelope.{Envelope, Codec, AppendResult}
use eventsourcing.Errors.{
  StoreError, stream_not_found, stream_already_exists, invalid_revision, revision_conflict,
}
use eventsourcing.Memory.EventStore.{
  Record, EventStore, Saved, stream, validate, check_revision, append_records, to_records, save,
  failed_append,
}
use eventsourcing.Memory.EventStore.Invariant.{IsWellFormed, append_records-IsWellFormed}
use eventsourcing.Memory.EventStore.Append.{
  placed, length-placed, validate_lem, current-append_records, closed-append_records,
  global-append_records, stream-append_records,
}
use eventsourcing.Memory.EventStore.Encoded.{
  Decodes, read_all_as, to_records-stream_id, to_records-Decodes,
}
use eventsourcing.Memory.EventStore.Save.{save_cases, save_valid}

-- The expectation holds of a stream of n events; one that the package does not know never does.
abbrev pub Holds : StreamState → ℕ → Type 0
Holds any n = Unit
Holds no_stream n = n ≡ 0
Holds stream_exists n = n ≢ 0
Holds (revision r) n = n ≡ r
Holds (foreign z) n = ⊥

-- The documented error of an expectation that does not hold.
abbrev pub violation : String → StreamState → ℕ → StoreError
violation id any n = invalid_revision
violation id no_stream n = stream_already_exists
violation id stream_exists n = stream_not_found
violation id (revision r) n = revision_conflict id (revision r) (revision n)
violation id (foreign z) n = invalid_revision

check_revision-none :
    (id : String) (n : ℕ) (state : StreamState) → check_revision id n state ≡ none → Holds state n
unfolding check_revision
check_revision-none id n any h = tt
check_revision-none id n no_stream h = ground arith
check_revision-none id n stream_exists h = ground arith
check_revision-none id n (revision r) h = ground arith
check_revision-none id n (foreign z) h = cc

check_revision-Holds :
    (id : String) (n : ℕ) (state : StreamState) → Holds state n → check_revision id n state ≡ none
unfolding check_revision
check_revision-Holds id n any h = refl
check_revision-Holds id n no_stream h = ground arith
check_revision-Holds id n stream_exists h = ground arith
check_revision-Holds id n (revision r) h = ground arith
check_revision-Holds id n (foreign z) h = absurd h

check_revision-not-Holds :
    (id : String) (n : ℕ) (state : StreamState)
    → ¬ Holds state n
    → (res : AppendResult) × (check_revision id n state ≡ some (res, violation id state n))
unfolding check_revision
check_revision-not-Holds id n any h = absurd (h tt)
check_revision-not-Holds id n no_stream h = (failed_append id, ground arith)
check_revision-not-Holds id n stream_exists h = (failed_append id, ground (arith, h))
check_revision-not-Holds id n (revision r) h = (failed_append "", ground arith)
check_revision-not-Holds id n (foreign z) h = (failed_append id, refl)

module _ (c : Codec) (clock : ℕ → ℕ) (m : EventStore c.Event c.Metadata) where
  open c use {Event, Metadata}

  -- Every save keeps the invariant of the store, whatever the batch and the expectation.
  pub save-IsWellFormed :
      (envs : List (Envelope Event Metadata)) (state : StreamState)
      → IsWellFormed m
      → IsWellFormed (save c clock m envs state).store
  unfolding save
  save-IsWellFormed [] state w = w
  save-IsWellFormed (env ∷ envs) state w =
      save_cases c clock m env envs state (λ s. IsWellFormed s.store) (λ res e f. w)
        λ rs v t o k.
          append_records-IsWellFormed env.stream_id m (length (stream m env.stream_id)) rs
            (to_records-stream_id c env.stream_id clock 0 (env ∷ envs) rs t
              (validate_lem env.stream_id (env ∷ envs) v)).0
            refl w

  -- A save that returns an error has appended nothing, and its result says so.
  pub save_atomic :
      (envs : List (Envelope Event Metadata)) (state : StreamState) (e : StoreError)
      → (save c clock m envs state).error ≡ some e
      → ((save c clock m envs state).store ≡ m)
        × ((save c clock m envs state).result.successful ≡ false)
  unfolding save
  save_atomic [] state e = λ h. cc
  save_atomic (env ∷ envs) state e =
      save_cases c clock m env envs state
        (λ s. s.error ≡ some e → (s.store ≡ m) × (s.result.successful ≡ false))
        (λ res f g h. (refl, g)) (λ rs v t o k h. cc)

  -- What a save that returns no error has done: the store was open and the expectation held, the new records end the stream and the log, they
  -- decode to the events of the batch, numbered on from the stream and the log, every other
  -- stream is as it was, and the result gives the new lengths.
  pub record Appends (env : Envelope Event Metadata) (envs : List (Envelope Event Metadata))
      (state : StreamState) (s : Saved Event Metadata) : Type 0 where
    pub added : List (Record Event Metadata)
    pub in_stream : stream s.store env.stream_id ≡ stream m env.stream_id ++ added
    pub in_log : s.store.global ≡ m.global ++ added
    pub elsewhere : (j : String) → env.stream_id ≢ j → stream s.store j ≡ stream m j
    pub decoded :
        Decodes c added
          (read_all_as c clock 0 (length (stream m env.stream_id)) (length m.global) (env ∷ envs))
    pub count : length added ≡ length (env ∷ envs)
    pub met : Holds state (length (stream m env.stream_id))
    pub open_before : m.closed ≡ false
    pub open_after : s.store.closed ≡ false
    pub successful : s.result.successful ≡ true
    pub stream_id : s.result.stream_id ≡ env.stream_id
    pub next_version : s.result.next_expected_version ≡ length (stream s.store env.stream_id)
    pub position : s.result.global_position ≡ length s.store.global

  -- A save of a batch that is not empty and returns no error appends it.
  pub save-Appends :
      (env : Envelope Event Metadata) (envs : List (Envelope Event Metadata)) (state : StreamState)
      → (save c clock m (env ∷ envs) state).error ≡ none
      → Appends env envs state (save c clock m (env ∷ envs) state)
  save-Appends env envs state =
      save_cases c clock m env envs state (λ s. s.error ≡ none → Appends env envs state s)
        (λ res f g h. cc)
        λ rs v t o k h.
          let id = env.stream_id in
          let n = length (stream m id) in
          let g = length m.global in
          let own =
            to_records-stream_id c id clock 0 (env ∷ envs) rs t (validate_lem id (env ∷ envs) v) in
          let after : stream (append_records id m n rs).0 id ≡ stream m id ++ placed n g rs =
            rw (stream-append_records id id m n g rs refl, beq_refl) refl in
          record {
            added = placed n g rs;
            in_stream = after;
            in_log = global-append_records id m n g rs refl;
            elsewhere =
                λ j ne. ground (arith, stream-append_records id j m n g rs refl, eq_iff id j);
            decoded = to_records-Decodes c clock 0 n g (env ∷ envs) rs t;
            count = length-placed n g rs ∙ own.1;
            met = check_revision-none id n state k;
            open_before = o;
            open_after = closed-append_records id m n rs ∙ o;
            successful = refl;
            stream_id = refl;
            next_version = omega (
              arith,
              current-append_records id m n rs,
              ap length after,
              length-append (stream m id) (placed n g rs),
              length-placed n g rs,
            );
            position = refl;
          }

  -- On an open store, a valid batch that encodes is saved without an error if the expectation holds
  -- of the length of its stream, and with the documented error if it does not.
  pub save_expectation :
      (env : Envelope Event Metadata) (envs : List (Envelope Event Metadata)) (state : StreamState)
      (rs : List (Record Event Metadata))
      → m.closed ≡ false
      → validate env.stream_id (env ∷ envs) ≡ none
      → to_records c clock 0 (env ∷ envs) ≡ ok rs
      → (Holds state (length (stream m env.stream_id))
          → (save c clock m (env ∷ envs) state).error ≡ none)
        × (¬ Holds state (length (stream m env.stream_id))
            → (save c clock m (env ∷ envs) state).error
              ≡ some (violation env.stream_id state (length (stream m env.stream_id))))
  save_expectation env envs state rs o v t =
      let id = env.stream_id in
      let n = length (stream m id) in
      let valid = save_valid c clock m env envs state rs o v t in
      (
        λ h. rw (valid, check_revision-Holds id n state h) refl,
        λ h. let (res, e) = check_revision-not-Holds id n state h in rw (valid, e) refl,
      )

-- Two writers that expect the same revision of a stream: once the first has appended, the second,
-- whose batch is valid and encodes, gets the conflict with the revision that the first has left.
pub second_writer_conflicts :
    (c : Codec) (clock clock' : ℕ → ℕ) (m : EventStore c.Event c.Metadata) (r : ℕ)
    (env env' : Envelope c.Event c.Metadata) (envs envs' : List (Envelope c.Event c.Metadata))
    (rs : List (Record c.Event c.Metadata))
    → (save c clock m (env ∷ envs) (revision r)).error ≡ none
    → env'.stream_id ≡ env.stream_id
    → validate env'.stream_id (env' ∷ envs') ≡ none
    → to_records c clock' 0 (env' ∷ envs') ≡ ok rs
    → (save c clock'
        (save c clock m (env ∷ envs) (revision r)).store
        (env' ∷ envs')
        (revision r)).error
      ≡ some (revision_conflict env.stream_id (revision r) (revision (r + length (env ∷ envs))))
second_writer_conflicts c clock clock' m r env env' envs envs' rs first same v t =
    let m' = (save c clock m (env ∷ envs) (revision r)).store in
    let a : Appends c clock m env envs (revision r) (save c clock m (env ∷ envs) (revision r)) =
      save-Appends c clock m env envs (revision r) first in
    let len : length (stream m' env.stream_id) ≡ r + length (env ∷ envs) = omega (
      arith,
      a.met,
      ap length a.in_stream,
      length-append (stream m env.stream_id) a.added,
      a.count,
    ) in
    let len' : length (stream m' env'.stream_id) ≡ r + length (env ∷ envs) = rw same len in
    (save_expectation c clock' m' env' envs' (revision r) rs a.open_after v t).1 (λ h. omega arith)
    ∙ cc (same, len')
