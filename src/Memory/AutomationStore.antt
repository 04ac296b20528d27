-- ===== src/Memory/AutomationStore.antt =====
-- memory/automation_store.go: the leases, pauses and fairness of automations, as functions from store
-- to store. `now` is the clock's reading under the lock.
pub mod Grants
pub mod Leases
pub mod Candidates
pub mod Rounds
pub mod Turns
use Prim.Native.Nat.{Ordering}
use Prim.Native.String.{compare}
use eventsourcing.Shared.{
  ℕ, zero, suc, ◌+◌, ◌-◌, max, min, String, Bool, true, false, not, ◌&&◌, ◌||◌, Option, none, some,
  List, [], ◌∷◌, ◌++◌, ◌==◌, string_eq, nat_eq, ltb, leb, length, keep, any, if◌then◌else◌, incr64,
}
use eventsourcing.Shared.Dict
use eventsourcing.Shared.Dict.{Dict}
use eventsourcing.Automation.{
  Candidate, SegmentState, SegmentLease, ReleaseRequest, AcquireResult, AutomationStatus,
}

-- `localRow`
pub record LocalRow : Type 0 where
  pub group : String
  pub owner : String
  pub epoch : ℕ
  pub lease_until : ℕ
  pub paused_till : ℕ
  pub first_seen : ℕ
  pub last_served : ℕ

-- `published`
pub record Published : Type 0 where
  pub status : AutomationStatus
  pub at : ℕ
  pub ttl : ℕ

pub record AutomationStore : Type 0 where
  pub rows : Dict String (Dict String LocalRow)
  pub paused : Dict String Bool
  pub instances : Dict String (Dict String Published)

unfoldable pub new_automation_store : AutomationStore
new_automation_store = record { rows = []; paused = []; instances = [] }

abbrev pub rows_of : AutomationStore → String → Dict String LocalRow
rows_of s name = elim (Dict.get s.rows name) [ none ↦ [] | some rows ↦ rows ]

-- s.rows[name][key]
unfoldable pub get_row : AutomationStore → String → String → Option LocalRow
get_row s name key = Dict.get (rows_of s name) key

-- A write through the pointer that the map holds.
unfoldable pub put_row : String → String → LocalRow → AutomationStore → AutomationStore
put_row name key r s = record s { rows = Dict.put s.rows name (Dict.put (rows_of s name) key r) }

abbrev pub first_row : ℕ → LocalRow
first_row now = record {
  group = "";
  owner = "";
  epoch = 0;
  lease_until = 0;
  paused_till = 0;
  first_seen = now;
  last_served = 0;
}

-- What `row` returns; it writes a first row into the map.
abbrev pub row : AutomationStore → String → String → ℕ → LocalRow
row s name key now = elim (get_row s name key) [ none ↦ first_row now | some r ↦ r ]

abbrev pub waited : LocalRow → ℕ
waited r = if r.last_served == 0 then r.first_seen else r.last_served

abbrev pub held_at : LocalRow → ℕ → Bool
held_at r now = not (r.owner == "") && ltb now r.lease_until

abbrev pub is_paused : LocalRow → ℕ → Bool
is_paused r now = ltb now r.paused_till

-- Strings by `<`
abbrev pub before : String → String → Bool
before a b = elim (compare a b) [ Ordering.lt ↦ true | _ ↦ false ]

-- A candidate with its row, once its group is recorded.
abbrev pub Cand : Type 0
Cand = String × LocalRow

abbrev grouped : Candidate → LocalRow → LocalRow
grouped c r = if c.group == "" then r else record r { group = c.group }

-- The loop over the candidates, with the keys seen.
unfoldable pub gather :
    ℕ → String → List Candidate → List String → AutomationStore → List Cand × AutomationStore
gather now name [] seen s = ([], s)
gather now name (c ∷ cs) seen s =
    let r = grouped c (row s name c.key now) in
    let skipped = gather now name cs seen s in
    let rest = gather now name cs (c.key ∷ seen) (put_row name c.key r s) in
    if any (λ k. k == c.key) seen then skipped else ((c.key, r) ∷ rest.0, rest.1)

abbrev of_group : String → List Cand → List Cand
of_group g cands = keep (λ c. c.1.group == g) cands

abbrev latest_served : List Cand → ℕ
latest_served [] = 0
latest_served (c ∷ cs) = max c.1.last_served (latest_served cs)

abbrev earliest_seen : ℕ → List Cand → ℕ
earliest_seen t [] = t
earliest_seen t (c ∷ cs) = earliest_seen (min c.1.first_seen t) cs

abbrev first_turn : List Cand → ℕ
first_turn [] = 0
first_turn (c ∷ cs) = earliest_seen c.1.first_seen cs

-- `groupTurn`: when a key of the group was last served, or, for none, when one was first seen.
abbrev pub group_turn : List Cand → String → ℕ
group_turn cands g =
    let served = latest_served (of_group g cands) in
    if served == 0 then first_turn (of_group g cands) else served

-- The order of a group's keys.
abbrev pub waits_longer : Cand → Cand → Bool
waits_longer a b =
    if waited a.1 == waited b.1 then before a.0 b.0 else ltb (waited a.1) (waited b.1)

-- The index of a key among its group's once they are sorted: how many come before it.
abbrev pub rank : List Cand → Cand → ℕ
rank cands c = length (keep (λ d. waits_longer d c) (of_group c.1.group cands))

-- The order of the grants.
abbrev pub goes_first : List Cand → Cand → Cand → Bool
goes_first cands a b =
    if not (rank cands a == rank cands b)
    then ltb (rank cands a) (rank cands b)
    else if not (group_turn cands a.1.group == group_turn cands b.1.group)
    then ltb (group_turn cands a.1.group) (group_turn cands b.1.group)
    else if not (a.1.group == b.1.group)
    then before a.1.group b.1.group
    else before a.0 b.0

-- `sort.SliceStable`
unfoldable pub insert : {C : Type 0} → (C → C → Bool) → C → List C → List C
insert less x [] = x ∷ []
insert less x (y ∷ ys) = let rest = insert less x ys in if less y x then y ∷ rest else x ∷ y ∷ ys

unfoldable pub sorted : {C : Type 0} → (C → C → Bool) → List C → List C
unfolding insert
sorted less [] = []
sorted less (x ∷ xs) = insert less x (sorted less xs)

abbrev granted_row : ℕ → String → ℕ → LocalRow → LocalRow
granted_row now owner ttl r = record r {
  owner = owner;
  epoch = incr64 r.epoch;
  lease_until = now + ttl;
}

abbrev lease_of : String → String → Cand → SegmentLease
lease_of name owner c = record { name = name; key = c.0; owner = owner; epoch = incr64 c.1.epoch }

-- The loop that grants.
module _ (now : ℕ) (name owner : String) (limit ttl : ℕ) where
  unfoldable pub grant :
      List Cand → AcquireResult → AutomationStore → AcquireResult × AutomationStore
  grant [] res s = (res, s)
  grant (c ∷ cs) res s =
      let active = record res { active = res.active + 1 } in
      let next = grant cs res s in
      let held = grant cs active s in
      let taken =
        grant cs (record active { granted = res.granted ++ lease_of name owner c ∷ [] })
          (put_row name c.0 (granted_row now owner ttl c.1) s) in
      let left = grant cs (record active { eligible = res.eligible + 1 }) s in
      if is_paused c.1 now
      then next
      else if held_at c.1 now
      then held
      else if ltb (length res.granted) limit
      then taken
      else left

  unfoldable pub acquire : List Candidate → AutomationStore → AcquireResult × AutomationStore
  unfolding gather sorted grant
  acquire candidates s =
      let (cands, s') = gather now name candidates [] s in
      grant (sorted (goes_first cands) cands) (record { granted = []; active = 0; eligible = 0 }) s'

-- The row is held under the lease.
abbrev pub is_mine : LocalRow → SegmentLease → Bool
is_mine r l = r.owner == l.owner && r.epoch == l.epoch

abbrev lost :
    SegmentLease → List SegmentLease × AutomationStore → List SegmentLease × AutomationStore
lost l (ls, s) = (l ∷ ls, s)

abbrev renew_row : ℕ → ℕ → SegmentLease → Option LocalRow → Option LocalRow
renew_row now ttl l none = none
renew_row now ttl l (some r) =
    if is_mine r l && ltb now r.lease_until
    then some (record r { lease_until = now + ttl })
    else none

-- The leases that were lost, and the store.
unfoldable pub renew :
    ℕ → ℕ → List SegmentLease → AutomationStore → List SegmentLease × AutomationStore
renew now ttl [] s = ([], s)
renew now ttl (l ∷ ls) s = elim (renew_row now ttl l (get_row s l.name l.key)) [
  | none ↦ lost l (renew now ttl ls s)
  | some r ↦ renew now ttl ls (put_row l.name l.key r s)
]

abbrev deferred : ℕ → ℕ → LocalRow → LocalRow
deferred now d r = if ltb r.paused_till (now + d) then record r { paused_till = now + d } else r

abbrev served : ℕ → Bool → LocalRow → LocalRow
served now yes_ r = if yes_ then record r { last_served = now } else r

abbrev release_row : ℕ → ReleaseRequest → Option LocalRow → Option LocalRow
release_row now q none = none
release_row now q (some r) =
    if is_mine r q.lease
    then some (
        let free = record r { owner = ""; lease_until = 0 } in
        served now q.served (if q.defer_for == 0 then free else deferred now q.defer_for free))
    else none

unfoldable pub release :
    ℕ → List ReleaseRequest → AutomationStore → List SegmentLease × AutomationStore
release now [] s = ([], s)
release now (q ∷ qs) s = elim (release_row now q (get_row s q.lease.name q.lease.key)) [
  | none ↦ lost q.lease (release now qs s)
  | some r ↦ release now qs (put_row q.lease.name q.lease.key r s)
]

unfoldable pub defer : ℕ → String → String → ℕ → AutomationStore → AutomationStore
defer now name key d s = put_row name key (deferred now d (row s name key now)) s

unfoldable pub deferred_for : ℕ → String → String → AutomationStore → ℕ
deferred_for now name key s = elim (get_row s name key) [ none ↦ 0 | some r ↦ r.paused_till - now ]

pub set_paused : String → Bool → AutomationStore → AutomationStore
set_paused name b s = record s { paused = Dict.put s.paused name b }

pub paused : String → AutomationStore → Bool
paused name s = elim (Dict.get s.paused name) [ none ↦ false | some b ↦ b ]

abbrev instances_of : AutomationStore → String → Dict String Published
instances_of s name = elim (Dict.get s.instances name) [ none ↦ [] | some inst ↦ inst ]

unfoldable expire : ℕ → Dict String Published → Dict String Published
expire now [] = []
expire now ((o, p) ∷ ps) =
    let rest = expire now ps in if ltb p.ttl (now - p.at) then rest else (o, p) ∷ rest

pub save_status : ℕ → String → AutomationStatus → ℕ → AutomationStore → AutomationStore
unfolding expire
save_status now name status ttl s = record s {
  instances = Dict.put s.instances name (
      Dict.put (expire now (instances_of s name)) status.owner
        (record { status = record status { age = 0 }; at = now; ttl = ttl }));
}

unfoldable live_statuses : ℕ → Dict String Published → List AutomationStatus
live_statuses now [] = []
live_statuses now ((o, p) ∷ ps) =
    let rest = live_statuses now ps in
    if leb (now - p.at) p.ttl then record p.status { age = now - p.at } ∷ rest else rest

pub load_statuses : ℕ → String → AutomationStore → List AutomationStatus
unfolding live_statuses sorted
load_statuses now name s =
    sorted (λ a b. before a.owner b.owner) (live_statuses now (instances_of s name))

unfoldable segment_states : ℕ → Dict String LocalRow → List SegmentState
segment_states now [] = []
segment_states now ((key, r) ∷ rows) =
    record {
      key = key;
      group = r.group;
      owner = if held_at r now then r.owner else "";
      paused_for = r.paused_till - now;
    }
    ∷ segment_states now rows

pub load_segments : ℕ → String → AutomationStore → List SegmentState
unfolding segment_states sorted
load_segments now name s = sorted (λ a b. before a.key b.key) (segment_states now (rows_of s name))
