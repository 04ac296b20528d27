-- ===== src/Memory/ProjectionStore.antt =====
-- memory/projection_store.go: claims, commits and resets. Every operation but `Commit` and `Reset`
-- holds the store's lock throughout, so it is one step from store to store. Those two let go of it
-- while their callback runs: the callback is a function of the store, which does to it whatever
-- the callback and other clients do meanwhile. `clock` gives the times that an operation reads.
pub mod DeadLetters
pub mod Replays
pub mod Instances
pub mod Kept
pub mod Rows
pub mod Claims
pub mod Resets
use eventsourcing.Shared.{
  ℕ, zero, suc, ◌+◌, ◌-◌, max, String, Bool, true, false, not, ◌&&◌, ◌||◌, Option, none, some, List,
  [], ◌∷◌, map, ◌==◌, string_eq, nat_eq, leb, ltb, incr64, if◌then◌else◌,
}
use eventsourcing.Shared.Dict
use eventsourcing.Shared.Dict.{Dict}
use eventsourcing.Projection.{
  Phase, starting, standby, Checkpoint, Status, Lease, DeadLetter, ProjectionError,
  segments_changed, claim_lost, unknown_projection,
}

-- `memoryReplaySegment`
pub record ReplaySegment : Type 0 where
  pub done : Bool
  pub err : String

-- `memoryReplay`
pub record ReplayRequest : Type 0 where
  pub stream_id : String
  pub segments : Dict ℕ ReplaySegment

-- `memoryRow`
pub record Row : Type 0 where
  pub cp : Checkpoint
  pub status : Status
  pub owner : String
  pub epoch : ℕ
  pub heartbeat : ℕ
  pub ttl : ℕ
  pub dead_letters : List DeadLetter

-- `memoryProjection`; a nil map of replays reads as an empty one.
pub record Projected : Type 0 where
  pub segments : ℕ
  pub rows : Dict ℕ Row
  pub rebuilds_requested : ℕ
  pub rebuilds_done : ℕ
  pub rebuild_failed : ℕ
  pub rebuild_err : String
  pub replays : Dict ℕ ReplayRequest

-- `memoryInstance`
pub record Beat : Type 0 where
  pub version : ℕ
  pub heartbeat : ℕ
  pub ttl : ℕ

pub record ProjectionStore : Type 0 where
  pub projections : Dict String Projected
  pub replays : ℕ
  pub instances : Dict String (Dict String Beat)

abbrev pub new_projection_store : ProjectionStore
new_projection_store = record { projections = []; replays = 0; instances = [] }

abbrev first_status : ℕ → Status
first_status i = record {
  phase = starting;
  position = 0;
  head = 0;
  version = 0;
  last_error = "";
  owner = "";
  segment = i;
  age = 0;
  replay_until = 0;
  claim_ttl = 0;
  rebuild_requested = false;
}

abbrev pub first_row : ℕ → ℕ → Row
first_row replay_until i = record {
  cp = record { position = 0; version = 0; replay_until = replay_until; fingerprint = "" };
  status = first_status i;
  owner = "";
  epoch = 0;
  heartbeat = 0;
  ttl = 0;
  dead_letters = [];
}

-- The rows of the segments from i on, n of them.
abbrev pub first_rows : ℕ → ℕ → ℕ → Dict ℕ Row
first_rows replay_until i zero = []
first_rows replay_until i (suc n) =
    (i, first_row replay_until i) ∷ first_rows replay_until (suc i) n

unfoldable pub declare : ProjectionStore → String → ℕ → ℕ → Option ProjectionError × ProjectionStore
declare m name segments replay_until = elim (Dict.get m.projections name) [
  | none ↦ (
    none,
    record m {
      projections = Dict.put m.projections name (record {
        segments = segments;
        rows = first_rows replay_until 0 segments;
        rebuilds_requested = 0;
        rebuilds_done = 0;
        rebuild_failed = 0;
        rebuild_err = "";
        replays = [];
      });
    },
  )
  | some p ↦ if p.segments == segments then (none, m) else (some segments_changed, m)
]

unfoldable pub row : ProjectionStore → Lease → Option Row
row m l = elim (Dict.get m.projections l.name) [ none ↦ none | some p ↦ Dict.get p.rows l.segment ]

-- A write through the pointer that `row` returns.
unfoldable pub set_row : ProjectionStore → Lease → Row → ProjectionStore
set_row m l r = elim (Dict.get m.projections l.name) [
  | none ↦ m
  | some p ↦ record m {
    projections = Dict.put m.projections l.name (record p { rows = Dict.put p.rows l.segment r });
  }
]

-- The row is claimed by l.
abbrev pub claims : Row → Lease → Bool
claims r l = not (r.owner == "") && r.owner == l.owner && r.epoch == l.epoch

unfoldable pub owned : ProjectionStore → Lease → Option Row
unfolding row
owned m l = elim (row m l) [ none ↦ none | some r ↦ if claims r l then some r else none ]

-- The claim on the row has not expired.
abbrev pub held : ℕ → Row → Bool
held now r = not (r.owner == "") && leb (now - r.heartbeat) r.ttl

-- The end of `Claim`, with the row's epoch settled.
abbrev pub take_claim :
    ℕ → ProjectionStore → Lease → ℕ → Row → Option (Lease × Checkpoint) × ProjectionStore
take_claim now m l ttl r = (
  some (record l { epoch = r.epoch }, r.cp),
  set_row m l (record r {
    owner = l.owner;
    heartbeat = now;
    ttl = ttl;
    status = record r.status { owner = l.owner };
  }),
)

-- The result is none where the source returns false.
unfoldable pub claim :
    (ℕ → ℕ) → ProjectionStore → Lease → ℕ → Option (Lease × Checkpoint) × ProjectionStore
claim clock m l ttl = elim (row m l) [
  | none ↦ (none, m)
  | some r ↦
      if claims r l
      then take_claim (clock 1) m l ttl r
      else if held (clock 0) r
      then (none, m)
      else take_claim (clock 1) m l ttl (record r { epoch = incr64 r.epoch })
]

abbrev pub Callback : Type 0
Callback = ProjectionStore → Option ProjectionError × ProjectionStore

-- `Commit` once `fn` has returned.
unfoldable pub committed :
    ℕ
    → Lease
    → Checkpoint
    → Status
    → Option ProjectionError × ProjectionStore
    → Option ProjectionError × ProjectionStore
committed now l cp status (some e, m) = (some e, m)
committed now l cp status (none, m) = elim (owned m l) [
  | none ↦ (some claim_lost, m)
  | some r ↦ (none, set_row m l (record r { cp = cp; status = status; heartbeat = now }))
]

unfoldable pub commit :
    ℕ
    → ProjectionStore
    → Lease
    → Checkpoint
    → Status
    → Callback
    → Option ProjectionError × ProjectionStore
commit now m l cp status fn = elim (owned m l) [
  | none ↦ (some claim_lost, m)
  | some r ↦ committed now l cp status (fn m)
]

-- The body of the loop of `Reset`.
abbrev pub cleared : ℕ → Row → Row
cleared version r = record r {
  dead_letters = [];
  cp = record {
    position = 0;
    version = version;
    replay_until = max r.cp.replay_until r.cp.position;
    fingerprint = "";
  };
  status = record r.status { position = 0; version = version; head = 0; last_error = "" };
}

abbrev pub reset_row : ℕ → Lease → ℕ → ℕ → Row → Row
reset_row now l version seg r =
    let c = cleared version r in
    if seg == l.segment
    then record c { heartbeat = now; status = record c.status { phase = starting } }
    else record c { owner = ""; status = record c.status { owner = ""; phase = standby } }

abbrev pub reset_rows : ℕ → Lease → ℕ → Dict ℕ Row → Dict ℕ Row
reset_rows now l version [] = []
reset_rows now l version ((seg, r) ∷ rows) =
    (seg, reset_row now l version seg r) ∷ reset_rows now l version rows

-- `Reset` once `wipe` has returned.
unfoldable pub wiped :
    ℕ
    → Lease
    → ℕ
    → Option ProjectionError × ProjectionStore
    → Option ProjectionError × ProjectionStore
wiped now l version (some e, m) = (some e, m)
wiped now l version (none, m) = elim (owned m l) [
  | none ↦ (some claim_lost, m)
  | some r ↦ elim (Dict.get m.projections l.name) [
    | none ↦ (none, m)
    | some p ↦ (
      none,
      record m {
        projections = Dict.put m.projections l.name (record p {
          rebuilds_done = p.rebuilds_requested;
          replays = [];
          rows = reset_rows now l version p.rows;
        });
      },
    )
  ]
]

unfoldable pub reset :
    ℕ → ProjectionStore → Lease → ℕ → Callback → Option ProjectionError × ProjectionStore
reset now m l version wipe = elim (owned m l) [
  | none ↦ (some claim_lost, m)
  | some r ↦ wiped now l version (wipe m)
]

unfoldable pub release : ProjectionStore → Lease → ProjectionStore
release m l = elim (owned m l) [
  | none ↦ m
  | some r ↦
      set_row m l
        (record r { owner = ""; status = record r.status { owner = ""; phase = standby } })
]

unfoldable pub save_status :
    ℕ → ProjectionStore → Lease → Status → Option ProjectionError × ProjectionStore
save_status now m l status = elim (owned m l) [
  | none ↦ (some claim_lost, m)
  | some r ↦ (
    none,
    set_row m l (record r {
      status = record r.status {
        phase = status.phase;
        head = status.head;
        last_error = status.last_error;
      };
      heartbeat = now;
    }),
  )
]

unfoldable pub request_rebuild :
    ProjectionStore → String → (ℕ × Option ProjectionError) × ProjectionStore
request_rebuild m name = elim (Dict.get m.projections name) [
  | none ↦ ((0, some unknown_projection), m)
  | some p ↦
      let n = incr64 p.rebuilds_requested in
      (
        (n, none),
        record m {
          projections = Dict.put m.projections name (record p { rebuilds_requested = n });
        },
      )
]

pub rebuilds : ProjectionStore → String → ℕ × ℕ
rebuilds m name = elim (Dict.get m.projections name) [
  | none ↦ (0, 0)
  | some p ↦ (p.rebuilds_requested, p.rebuilds_done)
]

-- The failure is recorded if the request is not older than the last one recorded.
unfoldable pub fail_rebuild :
    ProjectionStore → Lease → ℕ → String → Option ProjectionError × ProjectionStore
fail_rebuild m l requested msg = elim (owned m l) [
  | none ↦ (some claim_lost, m)
  | some r ↦ elim (Dict.get m.projections l.name) [
    | none ↦ (none, m)
    | some p ↦
        if leb p.rebuild_failed requested
        then (
          none,
          record m {
            projections =
                Dict.put m.projections l.name
                  (record p { rebuild_failed = requested; rebuild_err = msg });
          },
        )
        else (none, m)
  ]
]

pub rebuild_failure : ProjectionStore → String → ℕ × String
rebuild_failure m name = elim (Dict.get m.projections name) [
  | none ↦ (0, "")
  | some p ↦ (p.rebuild_failed, p.rebuild_err)
]

-- What `LoadStatuses` publishes of a row. The age is left at zero for a row that was never claimed.
abbrev pub published : ℕ → Bool → ℕ → Row → Status
published now rebuilding i r = record r.status {
  segment = i;
  position = r.cp.position;
  version = r.cp.version;
  owner = r.owner;
  age = if r.heartbeat == 0 then r.status.age else now - r.heartbeat;
  claim_ttl = if r.owner == "" then r.status.claim_ttl else r.ttl;
  replay_until = r.cp.replay_until;
  rebuild_requested = rebuilding;
}

-- The loop of `LoadStatuses`, from segment i on, n of them.
unfoldable pub statuses : ℕ → Bool → Dict ℕ Row → ℕ → ℕ → List Status
statuses now rebuilding rows i zero = []
statuses now rebuilding rows i (suc n) = elim (Dict.get rows i) [
  | none ↦ statuses now rebuilding rows (suc i) n
  | some r ↦ published now rebuilding i r ∷ statuses now rebuilding rows (suc i) n
]

unfoldable pub load_statuses : ℕ → ProjectionStore → String → List Status
load_statuses now m name = elim (Dict.get m.projections name) [
  | none ↦ []
  | some p ↦ statuses now (ltb p.rebuilds_done p.rebuilds_requested) p.rows 0 p.segments
]
