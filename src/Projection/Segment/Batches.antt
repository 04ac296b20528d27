-- ===== src/Projection/Segment/Batches.antt =====
-- The units of work of a batch, the fast path and the retry one event at a time.
use eventsourcing.Shared.{
  ℕ, String, ◌≡◌, ◌≤◌, refl, ap, sym, subst, ◌∙◌, Bool, false, Option, none, some, List, [], ◌∷◌,
  ◌++◌, string_eq, nat_eq, ltb, if◌then◌else◌, arith, if_cases, Option-cases, any, inl, inr,
  append-nil,
}
use eventsourcing.Shared.Dict.{Dict}
use eventsourcing.Envelope.{Envelope}
use eventsourcing.Projection.{Checkpoint, Phase, Status}
use eventsourcing.Projection.Segment.{
  UnitStore, Definition, Db, RunError, handler_failed, or_return, is_parked, handle, handle_all,
  in_batch, State, Step, commit, apply_one, apply_each, apply_one_by_one, after_batch, apply_batch,
  last_position, nothing, store_failed, ctx_ended, read_failed,
}
use eventsourcing.Projection.Segment.Delivery.{
  applied, Delivered, or_return_cases, handled_letters, checkpoint_after,
}
use eventsourcing.Projection.Segment.Events.{db_of, apply_one-Outcome, commit_done, commit_failed}

-- How far a step has come in a batch: the events done are delivered, and the checkpoint is at the
-- last of them; without an error they are all.
pub record Progress {E M R : Type 0} (store : UnitStore R) (p : Definition E M R) (phase : Phase)
    (cp : Checkpoint) (q : Dict String Bool) (b : Db R) (events : List (Envelope E M))
    (x : Step store p) : Type 0 where
  pub done : List (Envelope E M)
  pub rest : List (Envelope E M)
  pub split : events ≡ done ++ rest
  pub delivered : Delivered store p phase cp.replay_until done q b x.1.parked (db_of store p x.1)
  pub finished : x.0 ≡ none → rest ≡ []
  pub at : (db_of store p x.1).cp ≡ checkpoint_after cp b.cp done

-- What a batch has done: some events at its front are delivered. Without an error they are all, and
-- the checkpoint is the batch's; with one, the checkpoint is at the last event delivered, or unchanged
-- when there is none.
pub record Applied {E M R : Type 0} (store : UnitStore R) (p : Definition E M R) (phase : Phase)
    (cp : Checkpoint) (q : Dict String Bool) (b : Db R) (events : List (Envelope E M))
    (x : Step store p) : Type 0 where
  pub done : List (Envelope E M)
  pub rest : List (Envelope E M)
  pub split : events ≡ done ++ rest
  pub delivered : Delivered store p phase cp.replay_until done q b x.1.parked (db_of store p x.1)
  pub finished : x.0 ≡ none → (rest ≡ []) × ((db_of store p x.1).cp ≡ cp)
  pub stopped :
      (e : RunError) → x.0 ≡ some e → (db_of store p x.1).cp ≡ checkpoint_after cp b.cp done

checkpoint_last :
    {E M : Type 0} (cp : Checkpoint) (n : ℕ) (envs : List (Envelope E M))
    → checkpoint_after cp (record cp { position = n }) envs
      ≡ record cp { position = last_position n envs }
checkpoint_last cp n [] = refl
checkpoint_last cp n (env ∷ envs) = checkpoint_last cp env.global_position envs

module _ {E M R : Type 0} (store : UnitStore R) (p : Definition E M R) (ctx : ℕ → Bool)
    (cp : Checkpoint) (status : Status) where
  handle_all-Delivered :
      (envs : List (Envelope E M)) (q : Dict String Bool) (b b' : Db R)
      → any (λ env. is_parked q env.stream_id) envs ≡ false
      → (handle_all store p envs cp.replay_until b).0 ≡ none
      → b'.model ≡ (handle_all store p envs cp.replay_until b).1.model
      → b'.letters ≡ (handle_all store p envs cp.replay_until b).1.letters
      → Delivered store p status.phase cp.replay_until envs q b q b'
  unfolding handle_all Delivered
  handle_all-Delivered [] q b b' free = λ ran model letters. (refl, model, letters)
  handle_all-Delivered (env ∷ envs) q b b' free =
      let x = handle store p in_batch env cp.replay_until b in
      or_return_cases
        (λ (y : Option RunError × Db R).
          y.0 ≡ none
          → b'.model ≡ y.1.model
          → b'.letters ≡ y.1.letters
          → Delivered store p status.phase cp.replay_until (env ∷ envs) q b q b')
        x (handle_all store p envs cp.replay_until)
        (λ e failed ran. absurd (ground (arith, failed, ran)))
        (λ went ran model letters. (
          (q, x.1),
          applied in_batch (ground (arith, free)) went refl
              (handled_letters store p b env.global_position
                (p.handler in_batch env cp.replay_until b.model))
              refl,
          handle_all-Delivered envs q x.1 b' (ground (arith, free)) ran model letters,
        ))

  apply_each-Progress :
      (events : List (Envelope E M)) (seg : State store p)
      → Progress store p status.phase cp seg.parked
          (db_of store p seg)
          events
          (apply_each store p ctx cp status events seg)
  unfolding apply_each Delivered
  apply_each-Progress [] seg = record {
    done = [];
    rest = [];
    split = refl;
    delivered = (refl, refl, refl);
    finished = λ _. refl;
    at = refl;
  }
  apply_each-Progress (env ∷ envs) seg =
      let x = apply_one store p ctx cp status env seg in
      let o = apply_one-Outcome store p ctx cp status env seg in
      or_return_cases (Progress store p status.phase cp seg.parked (db_of store p seg) (env ∷ envs))
        x (apply_each store p ctx cp status envs)
        (λ e failed.
          let (same, still) = o.stopped e failed in
          record {
            done = [];
            rest = env ∷ envs;
            split = refl;
            delivered = (still, ap (λ (b : Db R). b.model) same, ap (λ (b : Db R). b.letters) same);
            finished = λ h. absurd (ground (arith, failed, h));
            at = ap (λ (b : Db R). b.cp) same;
          })
        (λ went.
          let (fate, here) = o.went went in
          let later = apply_each-Progress envs x.1 in
          record {
            done = env ∷ later.done;
            rest = later.rest;
            split = ap (λ (es : List (Envelope E M)). env ∷ es) later.split;
            delivered = ((x.1.parked, db_of store p x.1), fate, later.delivered);
            finished = later.finished;
            at = later.at ∙ ap (λ (c : Checkpoint). checkpoint_after cp c later.done) here;
          })

  Delivered_lem :
      (envs : List (Envelope E M)) (q q' r : Dict String Bool) (b b' c : Db R)
      → Delivered store p status.phase cp.replay_until envs q b q' b'
      → r ≡ q'
      → c.model ≡ b'.model
      → c.letters ≡ b'.letters
      → Delivered store p status.phase cp.replay_until envs q b r c
  unfolding Delivered
  Delivered_lem [] q q' r b b' c (same, model, letters) parked m l =
      (parked ∙ same, m ∙ model, l ∙ letters)
  Delivered_lem (env ∷ envs) q q' r b b' c (x, fate, later) parked m l =
      (x, fate, Delivered_lem envs x.0 q' r x.1 b' c later parked m l)

  -- A batch that is not empty and whose events are all delivered.
  module _ (env : Envelope E M) (envs : List (Envelope E M)) (q : Dict String Bool) (b : Db R) where
    abbrev Ends : Step store p → Type 0
    Ends = Applied store p status.phase cp q b (env ∷ envs)

    catch_up-Applied :
        (seg : State store p)
        → Delivered store p status.phase cp.replay_until
            (env ∷ envs)
            q
            b
            seg.parked
            (db_of store p seg)
        → (db_of store p seg).cp ≡ checkpoint_after cp b.cp (env ∷ envs)
        → Ends (commit store p seg cp status nothing)
    catch_up-Applied seg d at =
        let y = commit store p seg cp status nothing in
        elim (Option-cases y.0) [
          | inl went ↦
              let (_, now, still) = commit_done store p seg cp status nothing went in
              record {
                done = env ∷ envs;
                rest = [];
                split = sym (append-nil (env ∷ envs));
                delivered =
                    Delivered_lem (env ∷ envs) q seg.parked y.1.parked b (db_of store p seg)
                      (db_of store p y.1) d still (ap (λ (b : Db R). b.model) now)
                      (ap (λ (b : Db R). b.letters) now);
                finished = λ _. (refl, ap (λ (b : Db R). b.cp) now);
                stopped = λ e h. absurd (ground (arith, went, h));
              }
          | inr (e, failed) ↦
              let (now, still) = commit_failed store p seg cp status nothing e failed in
              record {
                done = env ∷ envs;
                rest = [];
                split = sym (append-nil (env ∷ envs));
                delivered =
                    Delivered_lem (env ∷ envs) q seg.parked y.1.parked b (db_of store p seg)
                      (db_of store p y.1) d still (ap (λ (b : Db R). b.model) now)
                      (ap (λ (b : Db R). b.letters) now);
                finished = λ h. absurd (ground (arith, failed, h));
                stopped = λ _ _. ap (λ (b : Db R). b.cp) now ∙ at;
              }
        ]

    scanned-Applied :
        last_position 0 (env ∷ envs) ≤ cp.position
        → (x : Step store p) → Progress store p status.phase cp q b (env ∷ envs) x
        → Ends (
            or_return x (λ seg'.
              if ltb (last_position 0 (env ∷ envs)) cp.position
              then commit store p seg' cp status nothing
              else (none, seg')))
    scanned-Applied last x o =
        or_return_cases Ends x _
          (λ e failed. record {
            done = o.done;
            rest = o.rest;
            split = o.split;
            delivered = o.delivered;
            finished = λ h. absurd (ground (arith, failed, h));
            stopped = λ _ _. o.at;
          })
          (λ went.
            let all : o.done ≡ env ∷ envs = sym (
              o.split
              ∙ ap (λ (r : List (Envelope E M)). o.done ++ r) (o.finished went)
              ∙ append-nil o.done) in
            let d =
              subst
                (λ (es : List (Envelope E M)).
                  Delivered store p status.phase cp.replay_until es q b x.1.parked
                    (db_of store p x.1))
                all o.delivered in
            let at = o.at ∙ ap (λ (es : List (Envelope E M)). checkpoint_after cp b.cp es) all in
            if_cases Ends (ltb (last_position 0 (env ∷ envs)) cp.position) _ _
              (λ behind. catch_up-Applied x.1 d at)
              (λ there. record {
                done = env ∷ envs;
                rest = [];
                split = sym (append-nil (env ∷ envs));
                delivered = d;
                finished = λ _. (
                  refl,
                  at
                      ∙ checkpoint_last cp env.global_position envs
                      ∙ ap (λ (n : ℕ). record cp { position = n }) (ground (arith, last, there)),
                );
                stopped = λ e h. absurd (ground (arith, h));
              }))

    retry-Applied :
        (seg : State store p)
        → last_position 0 (env ∷ envs) ≤ cp.position
        → seg.parked ≡ q
        → db_of store p seg ≡ b
        → Ends (apply_one_by_one store p ctx cp status (env ∷ envs) seg)
    unfolding apply_one_by_one
    retry-Applied seg last parked same =
        let o = apply_each-Progress (env ∷ envs) seg in
        let x = apply_each store p ctx cp status (env ∷ envs) seg in
        scanned-Applied last x (
          subst (λ (b : Db R). Progress store p status.phase cp q b (env ∷ envs) x) same
            (subst
              (λ (q : Dict String Bool).
                Progress store p status.phase cp q (db_of store p seg) (env ∷ envs) x)
              parked o))

    unchanged-Applied :
        (e : RunError) (seg : State store p)
        → seg.parked ≡ q
        → db_of store p seg ≡ b
        → Ends (some e, seg)
    unfolding Delivered
    unchanged-Applied e seg parked same = record {
      done = [];
      rest = env ∷ envs;
      split = refl;
      delivered = (parked, ap (λ (b : Db R). b.model) same, ap (λ (b : Db R). b.letters) same);
      finished = λ h. absurd (ground (arith, h));
      stopped = λ _ _. ap (λ (b : Db R). b.cp) same;
    }

    after_batch-Applied :
        (x : Step store p)
        → last_position 0 (env ∷ envs) ≤ cp.position
        → ((e : RunError) → x.0 ≡ some e → (x.1.parked ≡ q) × (db_of store p x.1 ≡ b))
        → (x.0 ≡ none → Ends x)
        → Ends (after_batch store p ctx cp status (env ∷ envs) x)
    unfolding after_batch
    after_batch-Applied (none, seg) last same went = went refl
    after_batch-Applied (some (handler_failed at why), seg) last same went =
        let (parked, b) = same (handler_failed at why) refl in retry-Applied seg last parked b
    after_batch-Applied (some (store_failed e), seg) last same went =
        let (parked, b) = same (store_failed e) refl in
        unchanged-Applied (store_failed e) seg parked b
    after_batch-Applied (some ctx_ended, seg) last same went =
        let (parked, b) = same ctx_ended refl in unchanged-Applied ctx_ended seg parked b
    after_batch-Applied (some read_failed, seg) last same went =
        let (parked, b) = same read_failed refl in unchanged-Applied read_failed seg parked b

  -- Whatever becomes of a batch, each of its events is delivered at most once, in order, and none is
  -- passed over. A batch that returns no error has delivered all of them and is at the batch's
  -- checkpoint; one that returns an error has delivered those up to the checkpoint that it left, with
  -- the read model, the dead letters and the parked streams at the same event. The batch is not
  -- empty, and its checkpoint is not before its last event.
  pub apply_batch-Applied :
      (env : Envelope E M) (envs : List (Envelope E M)) (seg : State store p)
      → last_position 0 (env ∷ envs) ≤ cp.position
      → Applied store p status.phase cp seg.parked
          (db_of store p seg)
          (env ∷ envs)
          (apply_batch store p ctx cp status (env ∷ envs) seg)
  unfolding apply_batch
  apply_batch-Applied env envs seg last =
      let fn = handle_all store p (env ∷ envs) cp.replay_until in
      let y = commit store p seg cp status fn in
      if_cases (Ends env envs seg.parked (db_of store p seg))
        (any (λ e. is_parked seg.parked e.stream_id) (env ∷ envs)) _ _
        (λ touched. retry-Applied env envs seg.parked (db_of store p seg) seg last refl refl)
        (λ free.
          after_batch-Applied env envs seg.parked (db_of store p seg) y last
            (λ e failed.
              let (same, still) = commit_failed store p seg cp status fn e failed in (still, same))
            (λ went.
              let (ran, now, still) = commit_done store p seg cp status fn went in
              record {
                done = env ∷ envs;
                rest = [];
                split = sym (append-nil (env ∷ envs));
                delivered =
                    Delivered_lem (env ∷ envs) seg.parked seg.parked y.1.parked (db_of store p seg)
                      (db_of store p y.1) (db_of store p y.1)
                      (handle_all-Delivered (env ∷ envs) seg.parked (db_of store p seg)
                        (db_of store p y.1) free ran (ap (λ (b : Db R). b.model) now)
                        (ap (λ (b : Db R). b.letters) now))
                      still refl refl;
                finished = λ _. (refl, ap (λ (b : Db R). b.cp) now);
                stopped = λ e h. absurd (ground (arith, went, h));
              }))
