-- ===== src/Automation/Runs.antt =====
-- automation/automation.go: `batchRun` and `runBatch`, one step of a goroutine at a time. What the
-- mutex makes atomic is one step, and a step whose goroutine is elsewhere changes nothing. The
-- goroutine that `runBatch` spawns for an item is numbered by its start.
pub mod Moves
pub mod Exclusive
pub mod Ordered
pub mod Parked
pub mod Ends
pub mod Live
pub mod Settled
pub mod Finished
use eventsourcing.Shared.{
  ℕ, suc, ◌+◌, ◌-◌, String, string_eq, nat_eq, Bool, true, false, ◌||◌, Option, none, some, List,
  [], ◌∷◌, ◌++◌, ◌==◌, leb, ltb, get_elem?, set_elem, if◌then◌else◌, incr64,
}
use eventsourcing.Shared.Dict
use eventsourcing.Shared.Dict.{Dict}
use eventsourcing.Automation.Items.{
  Item, Outcome, OutcomeKind, done, failed, deferred_outcome, Summary, no_summary,
}

pub record BatchRun (T : Type 0) : Type 0 where
  pub order : List String
  pub queues : Dict String (List (Item T))
  pub in_use : String → Bool
  pub parked : String → Bool
  pub stopped : Bool
  pub active : ℕ
  pub sum : Summary

abbrev pub mark : (String → Bool) → String → Bool → String → Bool
mark f k v j = if k == j then v else f j

module _ {T : Type 0} where
  abbrev pub queue : BatchRun T → String → List (Item T)
  queue b k = elim (Dict.get b.queues k) [ none ↦ [] | some q ↦ q ]

  abbrev pub new_batch_run : BatchRun T
  new_batch_run = record {
    order = [];
    queues = [];
    in_use = λ k. false;
    parked = λ k. false;
    stopped = false;
    active = 0;
    sum = no_summary;
  }

  abbrev pub add_item : String → Item T → BatchRun T → BatchRun T
  add_item k it b = record b {
    order = elim (Dict.get b.queues k) [ none ↦ b.order ++ k ∷ [] | some _ ↦ b.order ];
    queues = Dict.put b.queues k (queue b k ++ it ∷ []);
  }

  -- The loop over the batch's items; sk is their ordering key, of their number and value.
  unfoldable pub add_items : (ℕ → Item T → String) → ℕ → List (Item T) → BatchRun T → BatchRun T
  add_items sk i [] b = b
  add_items sk i (it ∷ its) b = add_items sk (suc i) its (add_item (sk i it) it b)

  -- The loop of `next`
  unfoldable pub next_of : List String → BatchRun T → Option (String × Item T × BatchRun T)
  next_of [] b = none
  next_of (k ∷ ks) b =
      let rest = next_of ks b in
      elim (queue b k) [
        | [] ↦ rest
        | it ∷ q ↦
            if b.in_use k || b.parked k
            then rest
            else some (k, it, record b { queues = Dict.put b.queues k q })
      ]

  unfoldable pub next : ℕ → BatchRun T → Option (String × Item T × BatchRun T)
  next concurrency b = if b.stopped || leb concurrency b.active then none else next_of b.order b

  -- What the outcome of an item does to its batch.
  abbrev pub count_outcome : {X : Type 0} → String → Option (Outcome X) → BatchRun T → BatchRun T
  count_outcome k none b = record b { stopped = true }
  count_outcome k (some o) b =
      let s = b.sum in
      elim o.kind [
        | done ↦ record b { sum = record s { processed = incr64 s.processed } }
        | failed ↦ record b {
          sum = record s { failed = incr64 s.failed };
          parked = mark b.parked k true;
        }
        | deferred_outcome ↦ record b {
          stopped = true;
          sum = record s {
            deferred = incr64 s.deferred;
            next_eligible =
                if s.next_eligible == 0 || ltb o.until s.next_eligible
                then o.until
                else s.next_eligible;
          };
        }
      ]

-- Where a goroutine of an item is: in `work`, before its send on `finished`, or past it.
pub data Stage : Type 0 where
  works sends gone : Stage

pub record Job (T : Type 0) : Type 0 where
  pub key : String
  pub item : Item T
  pub stage : Stage

-- Where the loop of `runBatch` is: before a look for an item, at its receive, or past its end.
pub data Loop : Type 0 where
  looks blocks ended : Loop

-- `finished` is the number of values in the channel, whose buffer has room for every item's.
pub record Dispatcher (T : Type 0) : Type 0 where
  pub batch : BatchRun T
  pub loop : Loop
  pub jobs : List (Job T)
  pub finished : ℕ

pub data Move (X : Type 0) : Type 0 where
  look wake : Move X
  settle : ℕ → Option (Outcome X) → Move X
  send : ℕ → Move X

module _ {T : Type 0} where
  abbrev pub started : Option (String × Item T × BatchRun T) → Dispatcher T → Dispatcher T
  started none d = record d { loop = if d.batch.active == 0 then ended else blocks }
  started (some (k, it, b)) d = record d {
    batch = record b { in_use = mark b.in_use k true; active = b.active + 1 };
    jobs = d.jobs ++ record { key = k; item = it; stage = works } ∷ [];
  }

  abbrev pub looked : Option (String × Item T × BatchRun T) → Loop → Dispatcher T → Dispatcher T
  looked found looks d = started found d
  looked found blocks d = d
  looked found ended d = d

  abbrev pub woken : Loop → Dispatcher T → Dispatcher T
  woken looks d = d
  woken ended d = d
  woken blocks d =
      if d.finished == 0 then d else record d { loop = looks; finished = d.finished - 1 }

  abbrev pub set_job : ℕ → Job T → Dispatcher T → Dispatcher T
  set_job i j d = record d { jobs = set_elem d.jobs i j }

  abbrev pub settled :
      {X : Type 0} → ℕ → Option (Outcome X) → Job T → Stage → Dispatcher T → Dispatcher T
  settled i out j sends d = d
  settled i out j gone d = d
  settled i out j works d =
      let b = d.batch in
      record (set_job i (record j { stage = sends }) d) {
        batch =
            count_outcome j.key out
              (record b { in_use = mark b.in_use j.key false; active = b.active - 1 });
      }

  abbrev pub sent : ℕ → Job T → Stage → Dispatcher T → Dispatcher T
  sent i j works d = d
  sent i j gone d = d
  sent i j sends d = record (set_job i (record j { stage = gone }) d) { finished = d.finished + 1 }

  abbrev pub at_job : (Job T → Dispatcher T → Dispatcher T) → ℕ → Dispatcher T → Dispatcher T
  at_job f i d = elim (get_elem? d.jobs i) [ none ↦ d | some j ↦ f j d ]

  abbrev pub step : {X : Type 0} → ℕ → Move X → Dispatcher T → Dispatcher T
  step concurrency look d = looked (next concurrency d.batch) d.loop d
  step concurrency wake d = woken d.loop d
  step concurrency (settle i out) d = at_job (λ j. settled i out j j.stage) i d
  step concurrency (send i) d = at_job (λ j. sent i j j.stage) i d

  unfoldable pub run : {X : Type 0} → ℕ → List (Move X) → Dispatcher T → Dispatcher T
  run concurrency [] d = d
  run concurrency (m ∷ rest) d = run concurrency rest (step concurrency m d)

abbrev pub run_batch : {T : Type 0} → (ℕ → Item T → String) → List (Item T) → Dispatcher T
run_batch sk items = record {
  batch = add_items sk 0 items new_batch_run;
  loop = looks;
  jobs = [];
  finished = 0;
}
