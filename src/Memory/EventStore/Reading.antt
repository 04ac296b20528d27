-- ===== src/Memory/EventStore/Reading.antt =====
-- The iterators of the store: what `LoadStreamFrom` and `LoadCorrelation` yield.
use eventsourcing.Shared.{
  ℕ, ◌+◌, ◌<◌, String, ◌≡◌, ◌≢◌, refl, sym, ap, ◌∙◌, false, Option, none, some, List, [], ◌∷◌, ◌++◌,
  ◌==◌, string_eq, arith, map, length, keep, append-nil, append_assoc, length-append, length-snoc,
  ltb, get_elem?-append, get_elem?-length, eq_iff,
}
use eventsourcing.Result.{Result, ok, err}
use eventsourcing.Revision.{StreamState, any, revision}
use eventsourcing.Envelope.{Envelope, Codec}
use eventsourcing.Errors.{StoreError}
use eventsourcing.Iter.{Iterator, all}
use eventsourcing.Iter.Drain.{Produces, drain}
use eventsourcing.Memory.EventStore.{
  Record, EventStore, stream, save, next_record, iterate, load_stream_from, load_correlation,
}
use eventsourcing.Memory.EventStore.Encoded.{Decodes, read_all_as}
use eventsourcing.Memory.EventStore.Contract.{Appends, save-Appends}

module _ (c : Codec) (ctx : ℕ → Option StoreError) where
  open c use {Event, Metadata}

  next_record-end :
      (recs : List (Record Event Metadata)) (i : ℕ)
      → i ≡ length recs
      → Produces ctx (next_record c recs) i [] none
  unfolding next_record
  next_record-end recs i e = ground (arith, get_elem?-length recs)

  next_record-Produces :
      (recs before rs : List (Record Event Metadata)) (es : List (Envelope Event Metadata)) (i : ℕ)
      → recs ≡ before ++ rs
      → i ≡ length before
      → Decodes c rs es
      → Produces ctx (next_record c recs) i es none
  unfolding next_record
  next_record-Produces recs before [] [] i e at d =
      next_record-end recs i (at ∙ ap length (sym (append-nil before) ∙ sym e))
  next_record-Produces recs before [] (x ∷ es) i e at d = absurd d
  next_record-Produces recs before (r ∷ rs) [] i e at d = absurd d
  next_record-Produces recs before (r ∷ rs) (x ∷ es) i e at d = (
    ground (arith, get_elem?-append before rs r i at),
    next_record-Produces recs (before ++ r ∷ []) rs es (i + 1)
        (e ∙ sym (append_assoc before (r ∷ []) rs)) (omega (arith, length-snoc before r)) d.1,
  )

  -- The iterator exists, and while its context is alive `All` gives these envelopes and no error.
  abbrev pub Yields :
      Result StoreError (Iterator ℕ StoreError (Envelope Event Metadata))
      → List (Envelope Event Metadata)
      → Type 0
  Yields (err e) es = ⊥
  Yields (ok it) es =
      (join : StoreError → StoreError → StoreError) (fuel : ℕ)
      → length es < fuel
      → all join fuel it ≡ some (map some es, none)

  iterate-Yields :
      (recs before rs : List (Record Event Metadata)) (es : List (Envelope Event Metadata)) (i : ℕ)
      → ((j : ℕ) → ctx j ≡ none)
      → recs ≡ before ++ rs
      → i ≡ length before
      → Decodes c rs es
      → Yields (ok (iterate c ctx recs i)) es
  unfolding iterate
  iterate-Yields recs before rs es i alive e at d join fuel enough =
      drain ctx (next_record c recs) join fuel i es none
        (next_record-Produces recs before rs es i e at d) alive enough

  -- A load from a revision that the stream has reached yields the events after it, in order.
  pub load_from_revision :
      (m : EventStore Event Metadata) (id : String) (before rs : List (Record Event Metadata))
      (es : List (Envelope Event Metadata))
      → ((j : ℕ) → ctx j ≡ none)
      → stream m id ≡ before ++ rs
      → Decodes c rs es
      → Yields (load_stream_from c ctx m id (revision (length before))) es
  unfolding load_stream_from
  load_from_revision m id before rs es alive e d =
      let fits : ltb (length (stream m id)) (length before) ≡ false =
        ground (arith, ap length e, length-append before rs) in
      rw fits (iterate-Yields (stream m id) before rs es (length before) alive e refl d)

  -- A load from the start, without an expectation, yields every event of the stream, in order.
  pub load_from_start :
      (m : EventStore Event Metadata) (id : String) (es : List (Envelope Event Metadata))
      → ((j : ℕ) → ctx j ≡ none)
      → Decodes c (stream m id) es
      → Yields (load_stream_from c ctx m id any) es
  unfolding load_stream_from
  load_from_start m id es alive d =
      iterate-Yields (stream m id) [] (stream m id) es 0 alive refl (omega arith) d

  -- `LoadCorrelation` yields the events of the log with that correlation ID, in log order.
  pub load_chain :
      (m : EventStore Event Metadata) (id : String) (es : List (Envelope Event Metadata))
      → ((j : ℕ) → ctx j ≡ none)
      → id ≢ ""
      → Decodes c (keep (λ rec. rec.env.correlation_id == id) m.global) es
      → Yields (load_correlation c ctx m id) es
  unfolding load_correlation
  load_chain m id es alive ne d =
      let named : (id == "") ≡ false = ground (arith, eq_iff id "") in
      rw named (iterate-Yields _ [] _ es 0 alive refl (omega arith) d)

  -- Round trip: after a save that returns no error, a load from the revision that the stream had
  -- before yields the events of the batch as they are read back, with their versions and global
  -- positions.
  pub load-save :
      (clock : ℕ → ℕ) (m : EventStore Event Metadata) (env : Envelope Event Metadata)
      (envs : List (Envelope Event Metadata)) (state : StreamState)
      → ((j : ℕ) → ctx j ≡ none)
      → (save c clock m (env ∷ envs) state).error ≡ none
      → Yields
          (load_stream_from c ctx
            (save c clock m (env ∷ envs) state).store
            env.stream_id
            (revision (length (stream m env.stream_id))))
          (read_all_as c clock 0 (length (stream m env.stream_id)) (length m.global) (env ∷ envs))
  load-save clock m env envs state alive h =
      let a : Appends c clock m env envs state (save c clock m (env ∷ envs) state) =
        save-Appends c clock m env envs state h in
      load_from_revision (save c clock m (env ∷ envs) state).store env.stream_id
        (stream m env.stream_id) a.added _ alive a.in_stream a.decoded
