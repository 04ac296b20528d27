-- ===== src/Automation/Items.antt =====
-- automation/scheduler.go and automation/automation.go: the items of a batch, what becomes of one,
-- and the counts of a run. The errors of `Work` are abstract, but for those that the runner looks at.
use eventsourcing.Shared.{
  ℕ, ◌+◌, ◌%◌, ◌^◌, String, Bool, true, false, ◌&&◌, ◌||◌, not, Option, none, some, List, ◌==◌,
  nat_eq, ltb, leb, if◌then◌else◌, incr64,
}
use eventsourcing.Automation.{AutomationStatus}

pub record Item (T : Type 0) : Type 0 where
  pub key : String
  pub value : T
  pub deadline : ℕ

pub record Batch (T : Type 0) : Type 0 where
  pub key : String
  pub items : List (Item T)

pub data OutcomeKind : Type 0 where
  done failed deferred_outcome : OutcomeKind

-- An error of `Work`: a `DeferredError` in its chain, the error of its context, or any other. The
-- runner's own is `lease_expired`.
pub data WorkError (X : Type 0) : Type 0 where
  deferred_error : ℕ → WorkError X
  ctx_error lease_expired : WorkError X
  other_error : X → WorkError X

pub record Outcome (X : Type 0) : Type 0 where
  pub kind : OutcomeKind
  pub until : ℕ
  pub err : Option (WorkError X)

pub record Summary : Type 0 where
  pub processed : ℕ
  pub failed : ℕ
  pub deferred : ℕ
  pub next_eligible : ℕ

abbrev pub no_summary : Summary
no_summary = record { processed = 0; failed = 0; deferred = 0; next_eligible = 0 }

-- The earlier of two times, of which 0 is none.
abbrev pub sooner : ℕ → ℕ → ℕ
sooner m n = if not (n == 0) && (m == 0 || ltb n m) then n else m

-- `Summary.add`
unfoldable pub add : Summary → Summary → Summary
add s o = record {
  processed = (s.processed + o.processed) % 2 ^ 64;
  failed = (s.failed + o.failed) % 2 ^ 64;
  deferred = (s.deferred + o.deferred) % 2 ^ 64;
  next_eligible = sooner s.next_eligible o.next_eligible;
}

module _ {X : Type 0} where
  abbrev pub failure : WorkError X → Outcome X
  failure e = record { kind = failed; until = 0; err = some e }

  unfoldable pub classify : ℕ → ℕ → Option (WorkError X) → Outcome X
  classify now lease none = record { kind = done; until = 0; err = none }
  classify now lease (some (deferred_error until)) = record {
    kind = deferred_outcome;
    until = if until == 0 then now + lease else until;
    err = none;
  }
  classify now lease (some ctx_error) = failure ctx_error
  classify now lease (some lease_expired) = failure lease_expired
  classify now lease (some (other_error x)) = failure (other_error x)

  abbrev is_ctx_error : Option (WorkError X) → Bool
  is_ctx_error (some ctx_error) = true
  is_ctx_error none = false
  is_ctx_error (some (deferred_error n)) = false
  is_ctx_error (some lease_expired) = false
  is_ctx_error (some (other_error x)) = false

  -- `work` up to its outcome: none when the run is stopping. `Work` returns err at the time `later`,
  -- and `ended` says whether the run's context has ended by then.
  unfoldable pub work :
      {T : Type 0} → ℕ → ℕ → ℕ → Bool → Item T → Option (WorkError X) → Option (Outcome X)
  work now later lease ended item err =
      if not (item.deadline == 0) && leb item.deadline now
      then some (failure lease_expired)
      else if ended && is_ctx_error err
      then none
      else some (classify later lease err)

  -- What `work` adds to the status.
  unfoldable pub count_status :
      (WorkError X → String) → Outcome X → AutomationStatus → AutomationStatus
  count_status text o st = elim o.kind [
    | done ↦ record st { processed = incr64 st.processed }
    | deferred_outcome ↦ record st { deferred = incr64 st.deferred }
    | failed ↦ record st {
      failed = incr64 st.failed;
      last_error = elim o.err [ none ↦ st.last_error | some e ↦ text e ];
    }
  ]
