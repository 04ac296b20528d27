-- ===== src/Memory/ProjectionStore/Replays.antt =====
-- The replay requests of memory/projection_store.go.
use eventsourcing.Shared.{
  ℕ, ◌+◌, String, Bool, true, false, not, ◌&&◌, ◌||◌, Option, none, some, List, [], ◌∷◌, ◌==◌,
  string_eq, nat_eq, leb, ltb, any, incr64, if◌then◌else◌,
}
use eventsourcing.Shared.Dict
use eventsourcing.Shared.Dict.{Dict}
use eventsourcing.Projection.{Lease, Replay, ProjectionError, claim_lost, unknown_projection}
use eventsourcing.Memory.ProjectionStore.{
  ProjectionStore, Projected, Row, ReplayRequest, ReplaySegment, owned,
}

abbrev has_letter : String → Row → Bool
has_letter stream r = any (λ d. d.stream_id == stream) r.dead_letters

-- The segments that hold dead letters of the stream.
unfoldable pub waiting : String → Dict ℕ Row → Dict ℕ ReplaySegment
waiting stream [] = []
waiting stream ((seg, r) ∷ rows) =
    let rest = waiting stream rows in
    if has_letter stream r then (seg, record { done = false; err = "" }) ∷ rest else rest

abbrev store_projection : ProjectionStore → String → Projected → ProjectionStore
store_projection m name p = record m { projections = Dict.put m.projections name p }

requested :
    ProjectionStore
    → String
    → Projected
    → ReplayRequest
    → Dict ℕ ReplaySegment
    → (ℕ × Option ProjectionError) × ProjectionStore
requested m name p req [] = ((0, none), m)
requested m name p req (s ∷ segs) =
    let n = incr64 m.replays in
    (
      (n, none),
      store_projection (record m { replays = n }) name
          (record p { replays = Dict.put p.replays n req }),
    )

unfoldable pub request_replay :
    ProjectionStore → String → String → (ℕ × Option ProjectionError) × ProjectionStore
unfolding requested
request_replay m name stream = elim (Dict.get m.projections name) [
  | none ↦ ((0, some unknown_projection), m)
  | some p ↦
      let segs = waiting stream p.rows in
      requested m name p (record { stream_id = stream; segments = segs }) segs
]

-- The order of `PendingReplays`.
abbrev before : Replay → Replay → Bool
before a b = ltb a.number b.number || (a.number == b.number && leb a.segment b.segment)

insert : Replay → List Replay → List Replay
insert a [] = a ∷ []
insert a (b ∷ bs) = let rest = insert a bs in if before a b then a ∷ b ∷ bs else b ∷ rest

pending_segments : ℕ → String → Dict ℕ ReplaySegment → List Replay → List Replay
unfolding insert
pending_segments n stream [] out = out
pending_segments n stream ((seg, st) ∷ segs) out =
    let rest = pending_segments n stream segs out in
    if st.done then rest else insert (record { number = n; stream_id = stream; segment = seg }) rest

pending_requests : Dict ℕ ReplayRequest → List Replay
unfolding pending_segments
pending_requests [] = []
pending_requests ((n, req) ∷ reqs) =
    pending_segments n req.stream_id req.segments (pending_requests reqs)

unfoldable pub pending_replays : ProjectionStore → String → List Replay
unfolding pending_requests
pending_replays m name = elim (Dict.get m.projections name) [
  | none ↦ []
  | some p ↦ pending_requests p.replays
]

-- `finished` and `succeeded`
abbrev pub finished : Dict ℕ ReplaySegment → Bool
finished [] = true
finished ((seg, st) ∷ segs) = st.done && finished segs

abbrev pub succeeded : Dict ℕ ReplaySegment → Bool
succeeded [] = true
succeeded ((seg, st) ∷ segs) = st.done && st.err == "" && succeeded segs

-- The segment has tried the request, with this error.
abbrev pub tried : ReplayRequest → ℕ → String → ReplayRequest
tried req seg msg = elim (Dict.get req.segments seg) [
  | none ↦ req
  | some st ↦ record req {
    segments = Dict.put req.segments seg (record { done = true; err = msg });
  }
]

-- The loop that deletes the finished requests of the stream up to this one.
unfoldable pub forget : ℕ → String → Dict ℕ ReplayRequest → Dict ℕ ReplayRequest
forget number stream [] = []
forget number stream ((n, req) ∷ reqs) =
    let rest = forget number stream reqs in
    if leb n number && req.stream_id == stream && finished req.segments
    then rest
    else (n, req) ∷ rest

-- The replays of the projection once the segment has tried request `number`.
unfoldable pub finish_request :
    Dict ℕ ReplayRequest → ℕ → ReplayRequest → ℕ → String → Dict ℕ ReplayRequest
finish_request replays number req seg msg =
    let req' = tried req seg msg in
    let replays' = Dict.put replays number req' in
    let swept = forget number req'.stream_id replays' in
    if succeeded req'.segments then swept else replays'

unfoldable pub finish_replay :
    ProjectionStore → Lease → ℕ → String → Option ProjectionError × ProjectionStore
finish_replay m l number msg = elim (owned m l) [
  | none ↦ (some claim_lost, m)
  | some r ↦ elim (Dict.get m.projections l.name) [
    | none ↦ (none, m)
    | some p ↦ elim (Dict.get p.replays number) [
      | none ↦ (none, m)
      | some req ↦ (
        none,
        store_projection m l.name
            (record p { replays = finish_request p.replays number req l.segment msg }),
      )
    ]
  ]
]

-- `slices.Sorted(maps.Keys(...))`, with what each key holds.
insert_segment : ℕ → ReplaySegment → Dict ℕ ReplaySegment → Dict ℕ ReplaySegment
insert_segment k st [] = (k, st) ∷ []
insert_segment k st ((j, s) ∷ segs) =
    let rest = insert_segment k st segs in
    if leb k j then (k, st) ∷ (j, s) ∷ segs else (j, s) ∷ rest

sorted_segments : Dict ℕ ReplaySegment → Dict ℕ ReplaySegment
unfolding insert_segment
sorted_segments [] = []
sorted_segments ((k, st) ∷ segs) = insert_segment k st (sorted_segments segs)

-- How many segments are still to try, and the errors of those that have.
tally : Dict ℕ ReplaySegment → ℕ × List String
tally [] = (0, [])
tally ((k, st) ∷ segs) =
    let (pending, errs) = tally segs in
    if not st.done
    then (pending + 1, errs)
    else if st.err == ""
    then (pending, errs)
    else (pending, st.err ∷ errs)

unfoldable pub replay_result : ProjectionStore → String → ℕ → ℕ × List String
unfolding sorted_segments tally
replay_result m name number = elim (Dict.get m.projections name) [
  | none ↦ (0, [])
  | some p ↦ elim (Dict.get p.replays number) [
    | none ↦ (0, [])
    | some req ↦ tally (sorted_segments req.segments)
  ]
]
