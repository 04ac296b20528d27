-- ===== src/Projection/Segment/Parking.antt =====
-- The streams that a segment has parked, and `loadParked`, which reads them back from the dead letters
-- of a store that keeps them.
use eventsourcing.Shared.{
  ℕ, ◌≡◌, ◌≤◌, ◌<◌, refl, sym, ap, ◌∙◌, String, string_eq, nat_eq, Bool, true, false, ◌||◌, Option,
  none, some, List, [], ◌∷◌, ◌++◌, ◌==◌, any, any-append, if◌then◌else◌, if_cases, arith,
}
use eventsourcing.Shared.Dict
use eventsourcing.Shared.Dict.{Dict, get-put}
use eventsourcing.Envelope.{Envelope}
use eventsourcing.Projection.{Checkpoint, Phase, Status, DeadLetter}
use eventsourcing.Projection.Segment.{
  UnitStore, Definition, Db, read_failed, is_parked, letter, stream_parked, State, Step,
  apply_batch, last_position,
}
use eventsourcing.Projection.Segment.Delivery.{
  Fate, applied, set_aside, gave_up, Delivered, lettered,
}
use eventsourcing.Projection.Segment.Events.{db_of}
use eventsourcing.Projection.Segment.Batches.{apply_batch-Applied}

-- The loop over the letters.
unfoldable pub parked_by : List DeadLetter → Dict String Bool → Dict String Bool
parked_by [] parked = parked
parked_by (d ∷ ds) parked = parked_by ds (Dict.put parked d.stream_id true)

abbrev pub has_letter : List DeadLetter → String → Bool
has_letter ds id = any (λ d. d.stream_id == id) ds

parked-put :
    (q : Dict String Bool) (id j : String)
    → is_parked (Dict.put q id true) j ≡ (id == j || is_parked q j)
parked-put q id j = ground (arith, get-put q id j true)

parked_by_lem :
    (ds : List DeadLetter) (q : Dict String Bool) (j : String)
    → is_parked (parked_by ds q) j ≡ (has_letter ds j || is_parked q j)
unfolding parked_by
parked_by_lem [] q j = refl
parked_by_lem (d ∷ ds) q j =
    ground (arith, parked_by_lem ds (Dict.put q d.stream_id true) j, parked-put q d.stream_id j)

or_absorb : (x y : Bool) → (y ≡ true → x ≡ true) → x ≡ (x || y)
or_absorb true y h = refl
or_absorb false true h = h refl
or_absorb false false h = refl

or_false : (x : Bool) → (x || false) ≡ x
or_false true = refl
or_false false = refl

or_comm : (x y : Bool) → (x || y) ≡ (y || x)
or_comm true true = refl
or_comm true false = refl
or_comm false true = refl
or_comm false false = refl

module _ {E M R : Type 0} (store : UnitStore R) (p : Definition E M R) where
  -- `letters` is what the store returns, none for an error.
  unfoldable pub load_parked : Checkpoint → Option (List DeadLetter) → State store p → Step store p
  load_parked cp letters seg =
      if cp.position == 0
      then (none, record seg { parked = [] })
      else if store.keeps_letters
      then elim letters [
        | none ↦ (some read_failed, seg)
        | some ds ↦ (none, record seg { parked = parked_by ds [] })
      ]
      else (none, seg)

  -- The streams parked are those that have a dead letter.
  unfoldable pub Recorded : Dict String Bool → Db R → Type 0
  Recorded q b = (id : String) → is_parked q id ≡ has_letter b.letters id

  lettered_lem :
      (env : Envelope E M) (cause : String) (ds : List DeadLetter) (id : String)
      → store.keeps_letters ≡ true
      → has_letter (lettered store p env cause ds) id ≡ (has_letter ds id || env.stream_id == id)
  lettered_lem env cause ds id keeps =
      ap (λ (b : Bool). has_letter (if b then ds ++ letter store p env cause ∷ [] else ds) id) keeps
      ∙ ground (
        arith,
        any-append (λ (d : DeadLetter). d.stream_id == id) ds (letter store p env cause ∷ []),
      )

  module _ (phase : Phase) (until : ℕ) where
    Fate-Recorded :
        (env : Envelope E M) (q q' : Dict String Bool) (b b' : Db R)
        → store.keeps_letters ≡ true
        → Recorded q b
        → Fate store p phase until env q b q' b'
        → Recorded q' b'
    unfolding Recorded
    Fate-Recorded env q q' b b' keeps was (applied _ _ _ _ letters same) id =
        ap (λ (q : Dict String Bool). is_parked q id) same
        ∙ was id
        ∙ sym (ap (λ (ds : List DeadLetter). has_letter ds id) letters)
    Fate-Recorded env q q' b b' keeps was (set_aside parked _ letters same) id =
        let more =
          ap (λ (ds : List DeadLetter). has_letter ds id) letters
          ∙ lettered_lem env stream_parked b.letters id keeps in
        ap (λ (q : Dict String Bool). is_parked q id) same
        ∙ was id
        ∙ or_absorb (has_letter b.letters id) (env.stream_id == id) (λ h.
          sym (was id)
          ∙ sym (ap (is_parked q) ((string_eq.equal_iff env.stream_id id).1 h))
          ∙ parked)
        ∙ sym more
    Fate-Recorded env q q' b b' keeps was (gave_up at why _ _ _ _ letters put) id =
        let more =
          ap (λ (ds : List DeadLetter). has_letter ds id) letters
          ∙ lettered_lem env why b.letters id keeps in
        ap (λ (q : Dict String Bool). is_parked q id) put
        ∙ parked-put q env.stream_id id
        ∙ ap (λ (x : Bool). env.stream_id == id || x) (was id)
        ∙ or_comm (env.stream_id == id) (has_letter b.letters id)
        ∙ sym more

    Delivered-Recorded :
        (envs : List (Envelope E M)) (q q' : Dict String Bool) (b b' : Db R)
        → store.keeps_letters ≡ true
        → Recorded q b
        → Delivered store p phase until envs q b q' b'
        → Recorded q' b'
    unfolding Delivered Recorded
    Delivered-Recorded [] q q' b b' keeps was (same, _, letters) = λ id.
        ap (λ (q : Dict String Bool). is_parked q id) same
        ∙ was id
        ∙ sym (ap (λ (ds : List DeadLetter). has_letter ds id) letters)
    Delivered-Recorded (env ∷ envs) q q' b b' keeps was (x, fate, later) =
        Delivered-Recorded envs x.0 q' x.1 b' keeps (Fate-Recorded env q x.0 b x.1 keeps was fate)
          later

  -- In a store that keeps dead letters and rolls back every commit that fails, as `UnitStore` does and
  -- memory.ProjectionStore does not, an instance that takes a segment over at a position above 0
  -- finds the same streams parked as the instance that applied the last batch, however that batch
  -- ended: what `loadParked` reads back is what the batch left in memory. The batch is not empty and
  -- its checkpoint not before its last event, and the streams parked before it were those with a
  -- dead letter.
  pub load_parked-apply_batch :
      (ctx : ℕ → Bool) (cp : Checkpoint) (status : Status) (env : Envelope E M)
      (envs : List (Envelope E M)) (seg fresh : State store p) (loaded : Checkpoint)
      → store.keeps_letters ≡ true
      → last_position 0 (env ∷ envs) ≤ cp.position
      → Recorded seg.parked (db_of store p seg)
      → 0 < loaded.position
      → (id : String)
      → is_parked
          (load_parked loaded
            (some (db_of store p (apply_batch store p ctx cp status (env ∷ envs) seg).1).letters)
            fresh).1.parked
          id
        ≡ is_parked (apply_batch store p ctx cp status (env ∷ envs) seg).1.parked id
  unfolding load_parked Recorded Dict.get
  load_parked-apply_batch ctx cp status env envs seg fresh loaded keeps last was later id =
      let x = apply_batch store p ctx cp status (env ∷ envs) seg in
      let o = apply_batch-Applied store p ctx cp status env envs seg last in
      let now =
        Delivered-Recorded status.phase cp.replay_until o.done seg.parked x.1.parked
          (db_of store p seg) (db_of store p x.1) keeps was o.delivered in
      let ds = (db_of store p x.1).letters in
      if_cases (λ (y : Step store p). is_parked y.1.parked id ≡ is_parked x.1.parked id)
        (loaded.position == 0) _ _ (λ at_start. absurd (ground (arith, at_start, later)))
        (λ _.
          if_cases (λ (y : Step store p). is_parked y.1.parked id ≡ is_parked x.1.parked id)
            store.keeps_letters _ _
            (λ _. parked_by_lem ds [] id ∙ or_false (has_letter ds id) ∙ sym (now id))
            (λ drops. absurd (ground (arith, keeps, drops))))
