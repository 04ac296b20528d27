-- ===== src/Tests/Projecting.antt =====
-- A projection that sums the numbers of its events, in a store that is its data.
use eventsourcing.Shared.{
  ℕ, ◌+◌, String, ◌≡◌, refl, Bool, true, false, Option, none, some, List, [], ◌∷◌, ◌++◌, nat_eq,
  string_eq, ◌==◌, arith, if◌then◌else◌,
}
use eventsourcing.Shared.Dict
use eventsourcing.Shared.Dict.{Dict}
use eventsourcing.Envelope.{Envelope}
use eventsourcing.Projection.{Checkpoint, Status, live}
use eventsourcing.Projection.Segment.{
  Db, UnitStore, Definition, Handling, handles, skips, fails, RunError, handler_failed, State,
  skip_always, apply_batch, is_parked, apply_one_by_one, apply_each, apply_one, after_batch, commit,
  handle_all, should_skip,
}
use eventsourcing.Projection.Segment.Events.{db_of}
use eventsourcing.Projection.Segment.Parking.{Recorded, load_parked, load_parked-apply_batch}
use eventsourcing.Projection.Segment.Batches.{Applied, apply_batch-Applied}

abbrev settle : Db ℕ → Checkpoint → Option RunError × Db ℕ → Option RunError × Db ℕ
settle s cp (none, b) = (none, record b { cp = cp })
settle s cp (some e, b) = (some e, s)

settle-none :
    (s : Db ℕ) (cp : Checkpoint) (x : Option RunError × Db ℕ)
    → (settle s cp x).0 ≡ none
    → (x.0 ≡ none) × ((settle s cp x).1 ≡ record x.1 { cp = cp })
settle-none s cp (none, b) h = (refl, refl)
settle-none s cp (some e, b) h = absurd (ground (arith, h))

settle-some :
    (s : Db ℕ) (cp : Checkpoint) (x : Option RunError × Db ℕ) (e : RunError)
    → (settle s cp x).0 ≡ some e
    → ((settle s cp x).1 ≡ s) × (x.0 ≡ some e)
settle-some s cp (none, b) e h = absurd (ground (arith, h))
settle-some s cp (some d, b) e h = (refl, h)

abbrev sums_store : UnitStore ℕ
sums_store = record {
  S = Db ℕ;
  db = λ s. s;
  commit = λ s l cp status fn. settle s cp (fn s);
  commit_applied = λ s l cp status fn h. settle-none s cp (fn s) h;
  commit_refused = λ s l cp status fn e h. (settle-some s cp (fn s) e h).0;
  commit-handler_failed =
      λ s l cp status fn at why h. (settle-some s cp (fn s) (handler_failed at why) h).1;
  keeps_letters = true;
  save_letter = λ l d b. (none, record b { letters = b.letters ++ d ∷ [] });
  letter_saved = λ l d b h. refl;
}

abbrev summed : Option ℕ → ℕ → Handling × ℕ
summed none sum = (skips, sum)
summed (some n) sum = if n == 13 then (fails "unlucky", sum) else (handles, sum + n)

abbrev sums : Definition ℕ String ℕ
sums = record {
  handler = λ way env until. summed env.event;
  on_error = skip_always;
  event_type = λ n. "Added";
}

abbrev added : ℕ → String → ℕ → Envelope ℕ String
added at id n = record {
  event_id = at;
  stream_id = id;
  metadata = none;
  correlation_id = "";
  causation_id = "";
  event = some n;
  version = at;
  global_position = at;
  occurred_at = 0;
}

abbrev at_start : Checkpoint
at_start = record { position = 3; version = 1; replay_until = 0; fingerprint = "sums" }

abbrev status_at : ℕ → Status
status_at n = record {
  phase = live;
  position = n;
  head = 9;
  version = 1;
  last_error = "";
  owner = "a";
  segment = 0;
  age = 0;
  replay_until = 0;
  claim_ttl = 5;
  rebuild_requested = false;
}

abbrev summing : State sums_store sums
summing = record {
  store = record { model = 0; cp = at_start; letters = [] };
  lease = record { name = "sums"; segment = 0; owner = "a"; epoch = 1 };
  status = status_at 3;
  parked = [];
  skipped = 0;
  tick = 0;
}

abbrev later_added : List (Envelope ℕ String)
later_added = added 5 "b" 13 ∷ added 6 "b" 2 ∷ added 7 "a" 3 ∷ []

abbrev running : ℕ → Bool
running n = false

abbrev scanned : Checkpoint
scanned = record at_start { position = 9 }

-- The second event fails, and the third is of its stream.
batch_run :
    (apply_batch sums_store sums running scanned
      (status_at 9)
      (added 4 "a" 1 ∷ later_added)
      summing).1.store
    ≡ record {
      model = 4;
      cp = scanned;
      letters =
          record { position = 5; stream_id = "b"; event_type = "Added"; error = "unlucky" }
          ∷ record {
            position = 6;
            stream_id = "b";
            event_type = "Added";
            error = "projection: an earlier event of the stream was dead-lettered";
          }
          ∷ [];
    }
unfolding apply_batch Dict.get after_batch commit handle_all apply_one_by_one apply_each apply_one
    should_skip Dict.put
batch_run = refl

apply_batch-Applied_example :
    Applied sums_store sums live scanned [] summing.store (added 4 "a" 1 ∷ later_added) (
      apply_batch sums_store sums running scanned
        (status_at 9)
        (added 4 "a" 1 ∷ later_added)
        summing)
apply_batch-Applied_example =
    apply_batch-Applied sums_store sums running scanned (status_at 9) (added 4 "a" 1) later_added
      summing (omega arith)

no_letters : Recorded sums_store sums [] summing.store
unfolding Recorded Dict.get
no_letters id = refl

load_parked-apply_batch_example :
    is_parked
      (load_parked sums_store sums scanned
        (some
          (db_of sums_store sums
            (apply_batch sums_store sums running scanned
              (status_at 9)
              (added 4 "a" 1 ∷ later_added)
              summing).1).letters)
        summing).1.parked
      "b"
    ≡ is_parked
        (apply_batch sums_store sums running scanned
          (status_at 9)
          (added 4 "a" 1 ∷ later_added)
          summing).1.parked
        "b"
load_parked-apply_batch_example =
    load_parked-apply_batch sums_store sums running scanned (status_at 9) (added 4 "a" 1)
      later_added summing summing scanned refl (omega arith) no_letters (omega arith) "b"
