-- ===== src/Projection/Segment/Events.antt =====
-- The units of work of one event.
use eventsourcing.Shared.{
  ℕ, String, ◌≡◌, refl, ap, sym, ◌∙◌, Bool, true, false, Option, none, some, string_eq, nat_eq, leb,
  arith, if_cases,
}
use eventsourcing.Shared.Dict
use eventsourcing.Shared.Dict.{Dict}
use eventsourcing.Envelope.{Envelope}
use eventsourcing.Projection.{Checkpoint, Phase, Status, Lease}
use eventsourcing.Projection.Segment.{
  UnitStore, Definition, Db, RunError, handler_failed, is_parked, should_skip, handle, alone,
  letter, stream_parked, State, Step, commit, committed, record_letter, skip_event, skip_or_stall,
  after_commit, apply_one, same_lease, next_tick, store_failed, ctx_ended, read_failed, park,
  count_skipped, or_return,
}
use eventsourcing.Projection.Segment.Delivery.{
  Fate, applied, set_aside, gave_up, lettered, handled_letters,
}

module _ {E M R : Type 0} (store : UnitStore R) (p : Definition E M R) where
  abbrev pub db_of : State store p → Db R
  db_of seg = store.db seg.store

  -- The step left the store's data and the parked streams as they were.
  abbrev pub Unchanged : State store p → Step store p → Type 0
  Unchanged seg x = (db_of x.1 ≡ db_of seg) × (x.1.parked ≡ seg.parked)

  committed_lem :
      (seg : State store p) (status : Status) (x : Option RunError × store.S)
      → ((committed store p status seg x).0 ≡ x.0)
        × ((committed store p status seg x).1.store ≡ x.1)
        × ((committed store p status seg x).1.parked ≡ seg.parked)
  committed_lem seg status (some e, s) = (refl, refl, refl)
  committed_lem seg status (none, s) =
      let (left, parked) =
        if_cases (λ (y : State store p). (y.store ≡ s) × (y.parked ≡ seg.parked))
          (same_lease seg.lease seg.lease) _ _ (λ _. (refl, refl)) (λ _. (refl, refl)) in
      (refl, left, parked)

  module _ (seg : State store p) (cp : Checkpoint) (status : Status)
      (fn : Db R → Option RunError × Db R) where
    pub commit_done :
        (commit store p seg cp status fn).0 ≡ none
        → ((fn (db_of seg)).0 ≡ none)
          × (db_of (commit store p seg cp status fn).1 ≡ record (fn (db_of seg)).1 { cp = cp })
          × ((commit store p seg cp status fn).1.parked ≡ seg.parked)
    unfolding commit
    commit_done h =
        let x = store.commit seg.store seg.lease cp status fn in
        let (error, left, parked) = committed_lem seg status x in
        let (ran, now) = store.commit_applied seg.store seg.lease cp status fn (sym error ∙ h) in
        (ran, ap store.db left ∙ now, parked)

    pub commit_failed :
        (e : RunError)
        → (commit store p seg cp status fn).0 ≡ some e
        → Unchanged seg (commit store p seg cp status fn)
    unfolding commit
    commit_failed e h =
        let x = store.commit seg.store seg.lease cp status fn in
        let (error, left, parked) = committed_lem seg status x in
        (
          ap store.db left
              ∙ store.commit_refused seg.store seg.lease cp status fn e (sym error ∙ h),
          parked,
        )

    pub commit-handler_failed :
        (at : ℕ) (why : String)
        → (commit store p seg cp status fn).0 ≡ some (handler_failed at why)
        → (fn (db_of seg)).0 ≡ some (handler_failed at why)
    unfolding commit
    commit-handler_failed at why h =
        store.commit-handler_failed seg.store seg.lease cp status fn at why
          (sym (committed_lem seg status (store.commit seg.store seg.lease cp status fn)).0 ∙ h)

  module _ (env : Envelope E M) (cause : String) where
    record_letter_lem :
        (l : Lease) (b : Db R)
        → (record_letter store p l env cause b).0 ≡ none
        → (record_letter store p l env cause b).1
          ≡ record b { letters = lettered store p env cause b.letters }
    record_letter_lem l b =
        if_cases
          (λ (x : Option RunError × Db R).
            x.0 ≡ none → x.1 ≡ record b { letters = lettered store p env cause b.letters })
          store.keeps_letters _ _
          (λ keeps h. rw (keeps) (store.letter_saved l (letter store p env cause) b h))
          (λ drops h. rw (drops) refl)

    count_skipped_lem :
        (x : Step store p)
        → ((count_skipped store p x).0 ≡ x.0)
          × ((count_skipped store p x).1.store ≡ x.1.store)
          × ((count_skipped store p x).1.parked ≡ x.1.parked)
    count_skipped_lem (some e, seg) = (refl, refl, refl)
    count_skipped_lem (none, seg) = (refl, refl, refl)

    module _ (seg : State store p) (cp : Checkpoint) (status : Status) where
      pub skip_event_done :
          (skip_event store p seg env cause cp status).0 ≡ none
          → (db_of (skip_event store p seg env cause cp status).1 ≡ record (db_of seg) {
            letters = lettered store p env cause (db_of seg).letters;
            cp = cp;
          })
            × ((skip_event store p seg env cause cp status).1.parked ≡ seg.parked)
      unfolding skip_event
      skip_event_done h =
          let fn = record_letter store p seg.lease env cause in
          let (error, left, parked) = count_skipped_lem (commit store p seg cp status fn) in
          let (ran, now, still) = commit_done seg cp status fn (sym error ∙ h) in
          (
            ap store.db left
                ∙ now
                ∙ ap (λ (b : Db R). record b { cp = cp })
                    (record_letter_lem seg.lease (db_of seg) ran),
            parked ∙ still,
          )

      pub skip_event_failed :
          (e : RunError)
          → (skip_event store p seg env cause cp status).0 ≡ some e
          → Unchanged seg (skip_event store p seg env cause cp status)
      unfolding skip_event
      skip_event_failed e h =
          let fn = record_letter store p seg.lease env cause in
          let (error, left, parked) = count_skipped_lem (commit store p seg cp status fn) in
          let (now, still) = commit_failed seg cp status fn e (sym error ∙ h) in
          (ap store.db left ∙ now, parked ∙ still)

park_lem :
    {E M R : Type 0} (store : UnitStore R) (p : Definition E M R) (id : String) (x : Step store p)
    → ((or_return x (park store p id)).0 ≡ x.0)
      × ((or_return x (park store p id)).1.store ≡ x.1.store)
      × ((e : RunError) → x.0 ≡ some e → (or_return x (park store p id)).1.parked ≡ x.1.parked)
      × (x.0 ≡ none → (or_return x (park store p id)).1.parked ≡ Dict.put x.1.parked id true)
park_lem store p id (some e, seg) = (refl, refl, λ _ _. refl, λ h. absurd (ground (arith, h)))
park_lem store p id (none, seg) = (refl, refl, λ e h. absurd (ground (arith, h)), λ _. refl)

-- What the loop's step for an event has done: it went past the event with the checkpoint at it, or it
-- returned an error and changed nothing.
pub record Outcome {E M R : Type 0} (store : UnitStore R) (p : Definition E M R) (phase : Phase)
    (cp : Checkpoint) (env : Envelope E M) (seg : State store p) (x : Step store p) : Type 0 where
  pub went :
      x.0 ≡ none
      → Fate store p phase cp.replay_until env seg.parked
          (db_of store p seg)
          x.1.parked
          (db_of store p x.1)
        × ((db_of store p x.1).cp ≡ record cp { position = env.global_position })
  pub stopped : (e : RunError) → x.0 ≡ some e → Unchanged store p seg x

module _ {E M R : Type 0} (store : UnitStore R) (p : Definition E M R) (ctx : ℕ → Bool)
    (batch_cp : Checkpoint) (batch_status : Status) (env : Envelope E M) (seg : State store p) where
  abbrev cp : Checkpoint
  cp = record batch_cp { position = env.global_position }

  abbrev Ends : Step store p → Type 0
  Ends = Outcome store p batch_status.phase batch_cp env seg

  recorded :
      (cause : String) (status : Status) (seg' : State store p)
      → db_of store p seg' ≡ db_of store p seg
      → (skip_event store p seg' env cause cp status).0 ≡ none
      → (db_of store p (skip_event store p seg' env cause cp status).1
          ≡ record (db_of store p seg) {
            letters = lettered store p env cause (db_of store p seg).letters;
            cp = cp;
          })
        × ((skip_event store p seg' env cause cp status).1.parked ≡ seg'.parked)
  recorded cause status seg' same h =
      let (now, kept) = skip_event_done store p env cause seg' cp status h in
      (
        now
            ∙ ap
                (λ (b : Db R). record b { letters = lettered store p env cause b.letters; cp = cp })
                same,
        kept,
      )

  park-Outcome :
      (status : Status) (seg' : State store p) (at : ℕ) (why : String)
      → Unchanged store p seg (none, seg')
      → is_parked seg.parked env.stream_id ≡ false
      → (handle store p alone env batch_cp.replay_until (db_of store p seg)).0
        ≡ some (handler_failed at why)
      → should_skip p.on_error batch_status.phase (leb env.global_position batch_cp.replay_until)
        ≡ true
      → Ends (or_return (skip_event store p seg' env why cp status) (park store p env.stream_id))
  park-Outcome status seg' at why (same, still) free fails skip =
      let (error, left, failed, done) =
        park_lem store p env.stream_id (skip_event store p seg' env why cp status) in
      record {
        went = λ h.
            let went_on = sym error ∙ h in
            let (now, kept) = recorded why status seg' same went_on in
            let here = ap store.db left ∙ now in
            (
              gave_up at why free fails skip (ap (λ (b : Db R). b.model) here)
                  (ap (λ (b : Db R). b.letters) here)
                  (done went_on ∙ ap (λ q. Dict.put q env.stream_id true) (kept ∙ still)),
              ap (λ (b : Db R). b.cp) here,
            );
        stopped = λ e h.
            let (now, kept) = skip_event_failed store p env why seg' cp status e (sym error ∙ h) in
            (ap store.db left ∙ now ∙ same, failed e (sym error ∙ h) ∙ kept ∙ still);
      }

  skip_event-Outcome :
      (status : Status) (seg' : State store p)
      → Unchanged store p seg (none, seg')
      → is_parked seg.parked env.stream_id ≡ true
      → Ends (skip_event store p seg' env stream_parked cp status)
  skip_event-Outcome status seg' (same, still) parked = record {
    went = λ h.
        let (now, kept) = recorded stream_parked status seg' same h in
        (
          set_aside parked (ap (λ (b : Db R). b.model) now) (ap (λ (b : Db R). b.letters) now)
              (kept ∙ still),
          ap (λ (b : Db R). b.cp) now,
        );
    stopped = λ e h.
        let (now, kept) = skip_event_failed store p env stream_parked seg' cp status e h in
        (now ∙ same, kept ∙ still);
  }

  skip_or_stall-Outcome :
      (status : Status) (seg' : State store p) (e : RunError)
      → Unchanged store p seg (none, seg')
      → is_parked seg.parked env.stream_id ≡ false
      → ((at : ℕ) (why : String)
          → e ≡ handler_failed at why
          → (handle store p alone env batch_cp.replay_until (db_of store p seg)).0
            ≡ some (handler_failed at why))
      → Ends (skip_or_stall store p e seg' env cp status batch_status.phase)
  unfolding skip_or_stall
  skip_or_stall-Outcome status seg' (handler_failed at why) (same, still) free fails =
      if_cases Ends
        (should_skip p.on_error batch_status.phase (leb env.global_position batch_cp.replay_until))
        _ _ (λ skip. park-Outcome status seg' at why (same, still) free (fails at why refl) skip)
        (λ stall. record { went = λ h. absurd (ground (arith, h)); stopped = λ e h. (same, still) })
  skip_or_stall-Outcome status seg' (store_failed e) (same, still) free fails = record {
    went = λ h. absurd (ground (arith, h));
    stopped = λ e h. (same, still);
  }
  skip_or_stall-Outcome status seg' ctx_ended (same, still) free fails = record {
    went = λ h. absurd (ground (arith, h));
    stopped = λ e h. (same, still);
  }
  skip_or_stall-Outcome status seg' read_failed (same, still) free fails = record {
    went = λ h. absurd (ground (arith, h));
    stopped = λ e h. (same, still);
  }

  after_commit-Outcome :
      (status : Status) (x : Step store p)
      → is_parked seg.parked env.stream_id ≡ false
      → ((e : RunError) → x.0 ≡ some e → Unchanged store p seg x)
      → ((at : ℕ) (why : String)
          → x.0 ≡ some (handler_failed at why)
          → (handle store p alone env batch_cp.replay_until (db_of store p seg)).0
            ≡ some (handler_failed at why))
      → (x.0 ≡ none → Ends x)
      → Ends (after_commit store p ctx x env cp status batch_status.phase)
  unfolding after_commit
  after_commit-Outcome status (none, seg') free same fails done = done refl
  after_commit-Outcome status (some e, seg') free same fails done =
      if_cases Ends (ctx seg'.tick) _ _
        (λ ended. record { went = λ h. absurd (ground (arith, h)); stopped = λ _ _. same e refl })
        (λ alive.
          skip_or_stall-Outcome status (next_tick store p seg') e (same e refl) free
            (λ at why h. fails at why (ap some h)))

  pub apply_one-Outcome : Ends (apply_one store p ctx batch_cp batch_status env seg)
  unfolding apply_one
  apply_one-Outcome =
      let status = record batch_status { position = env.global_position } in
      let seg' = next_tick store p seg in
      if_cases Ends (ctx seg.tick) _ _
        (λ ended. record { went = λ h. absurd (ground (arith, h)); stopped = λ e h. (refl, refl) })
        (λ alive.
          if_cases Ends (is_parked seg.parked env.stream_id) _ _
            (λ parked. skip_event-Outcome status seg' (refl, refl) parked)
            (λ free.
              let fn = handle store p alone env batch_cp.replay_until in
              after_commit-Outcome status (commit store p seg' cp status fn) free
                (commit_failed store p seg' cp status fn)
                (commit-handler_failed store p seg' cp status fn)
                (λ h.
                  let (ran, now, still) = commit_done store p seg' cp status fn h in
                  record {
                    went = λ _. (
                      applied alone free ran (ap (λ (b : Db R). b.model) now)
                          (ap (λ (b : Db R). b.letters) now
                            ∙ handled_letters store p (db_of store p seg) env.global_position (
                                p.handler alone env batch_cp.replay_until
                                  (db_of store p seg).model))
                          still,
                      ap (λ (b : Db R). b.cp) now,
                    );
                    stopped = λ e h'. absurd (ground (arith, h, h'));
                  })))
