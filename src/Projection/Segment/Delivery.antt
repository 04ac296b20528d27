-- ===== src/Projection/Segment/Delivery.antt =====
-- What a segment's loop owes to the events of a batch, stated without its units of work.
use eventsourcing.Shared.{
  ℕ, String, ◌≡◌, refl, Bool, true, false, Option, none, some, List, [], ◌∷◌, ◌++◌, string_eq, leb,
  if◌then◌else◌,
}
use eventsourcing.Shared.Dict
use eventsourcing.Shared.Dict.{Dict}
use eventsourcing.Envelope.{Envelope}
use eventsourcing.Projection.{Checkpoint, Phase, DeadLetter}
use eventsourcing.Projection.Segment.{
  UnitStore, Definition, Db, RunError, handler_failed, is_parked, should_skip, or_return, handle,
  letter, handled, Handling, handles, skips, fails, Attempt, alone, stream_parked,
}

-- The two ends of `if err != nil { return err }`.
pub or_return_cases {ℓ κ} :
    {A : Type ℓ} (P : Option RunError × A → Type κ) (x : Option RunError × A)
    (k : A → Option RunError × A)
    → ((e : RunError) → x.0 ≡ some e → P x)
    → (x.0 ≡ none → P (k x.1))
    → P (or_return x k)
or_return_cases P (some e, a) k failed went = failed e refl
or_return_cases P (none, a) k failed went = went refl

module _ {E M R : Type 0} (store : UnitStore R) (p : Definition E M R) where
  pub handled_letters :
      (b : Db R) (at : ℕ) (x : Handling × R) → (handled store p b at x).1.letters ≡ b.letters
  handled_letters b at (handles, m) = refl
  handled_letters b at (skips, m) = refl
  handled_letters b at (fails why, m) = refl

  -- The dead letters with that of an event, if the store keeps them.
  abbrev pub lettered : Envelope E M → String → List DeadLetter → List DeadLetter
  lettered env cause ds = if store.keeps_letters then ds ++ letter store p env cause ∷ [] else ds

module _ {E M R : Type 0} (store : UnitStore R) (p : Definition E M R) (phase : Phase)
    (replay_until : ℕ) where
  -- What became of an event between two states of the parked streams and of the store. It was applied
  -- by the handler, in its batch or alone; or its stream was parked, and it was only recorded; or the handler
  -- failed on it alone where the policy skips, and it was recorded and its stream parked.
  pub data Fate (env : Envelope E M) (q : Dict String Bool) (b : Db R) (q' : Dict String Bool)
      (b' : Db R) : Type 0 where
    applied :
        (way : Attempt)
        → is_parked q env.stream_id ≡ false
        → (handle store p way env replay_until b).0 ≡ none
        → b'.model ≡ (handle store p way env replay_until b).1.model
        → b'.letters ≡ b.letters
        → q' ≡ q
        → Fate env q b q' b'
    set_aside :
        is_parked q env.stream_id ≡ true
        → b'.model ≡ b.model
        → b'.letters ≡ lettered store p env stream_parked b.letters
        → q' ≡ q
        → Fate env q b q' b'
    gave_up :
        (at : ℕ) (why : String)
        → is_parked q env.stream_id ≡ false
        → (handle store p alone env replay_until b).0 ≡ some (handler_failed at why)
        → should_skip p.on_error phase (leb env.global_position replay_until) ≡ true
        → b'.model ≡ b.model
        → b'.letters ≡ lettered store p env why b.letters
        → q' ≡ Dict.put q env.stream_id true
        → Fate env q b q' b'

  -- Each event once, in order.
  unfoldable pub Delivered :
      List (Envelope E M) → Dict String Bool → Db R → Dict String Bool → Db R → Type 0
  Delivered [] q b q' b' = (q' ≡ q) × (b'.model ≡ b.model) × (b'.letters ≡ b.letters)
  Delivered (env ∷ envs) q b q' b' =
      (x : Dict String Bool × Db R) × Fate env q b x.0 x.1 × Delivered envs x.0 x.1 q' b'

-- The checkpoint once the events are delivered one by one in a batch with the checkpoint cp.
abbrev pub checkpoint_after :
    {E M : Type 0} → Checkpoint → Checkpoint → List (Envelope E M) → Checkpoint
checkpoint_after cp old [] = old
checkpoint_after cp old (env ∷ envs) =
    checkpoint_after cp (record cp { position = env.global_position }) envs
