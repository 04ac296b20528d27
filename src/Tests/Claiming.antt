-- ===== src/Tests/Claiming.antt =====
-- The projection store: two instances and the one segment of a projection.
use eventsourcing.Shared.{
  String, ℕ, ◌≡◌, ◌≢◌, refl, true, false, none, some, [], ◌∷◌, string_eq, nat_eq, inl, arith,
}
use eventsourcing.Shared.Dict
use eventsourcing.Shared.Dict.{Dict}
use eventsourcing.Projection.{Checkpoint, Status, Lease, DeadLetter, claim_lost, live}
use eventsourcing.Memory.ProjectionStore.{
  ProjectionStore, Projected, Row, Callback, Beat, ReplayRequest, ReplaySegment, first_row, row,
  owned, claims, held, claim, commit, reset, release, save_status, fail_rebuild,
  new_projection_store,
}
use eventsourcing.Memory.ProjectionStore.Claims.{
  Granted, claim-Granted, takeover_fences, Commits, commit-Commits,
}
use eventsourcing.Memory.ProjectionStore.Instances.{beats_of, heartbeat, is_live, heartbeat_expires}
use eventsourcing.Memory.ProjectionStore.Kept.{finish_request-keeps}
use eventsourcing.Memory.ProjectionStore.Replays.{finish_request}
use eventsourcing.Memory.ProjectionStore.Resets.{Resets, reset-Resets}
use eventsourcing.Memory.ProjectionStore.DeadLetters.{
  SortedFrom, load_dead_letters, save_dead_letter, delete_dead_letter, dead_letters-SortedFrom,
}

abbrev letter : ℕ → DeadLetter
letter n = record { position = n; stream_id = "account"; event_type = "Deposited"; error = "no" }

-- The segment is claimed by "a" at time 10 for 5 units.
abbrev busy : Row
busy = record (first_row 0 0) {
  owner = "a";
  epoch = 1;
  heartbeat = 10;
  ttl = 5;
  dead_letters = letter 2 ∷ letter 6 ∷ [];
}

abbrev store : ProjectionStore
store = record new_projection_store {
  projections =
      (
        "balances",
        record {
          segments = 1;
          rows = (0, busy) ∷ [];
          rebuilds_requested = 1;
          rebuilds_done = 0;
          rebuild_failed = 0;
          rebuild_err = "";
          replays = [];
        },
      )
      ∷ [];
}

abbrev by_a : Lease
by_a = record { name = "balances"; segment = 0; owner = "a"; epoch = 1 }

abbrev by_b : Lease
by_b = record { name = "balances"; segment = 0; owner = "b"; epoch = 0 }

abbrev at : ℕ → ℕ → ℕ
at now i = now

abbrev granted : Lease
granted = record by_b { epoch = 2 }

named : by_b.owner ≢ ""
named e = cc

known_to_b : row store by_b ≡ some busy
unfolding row Dict.get
known_to_b = refl

expired : (claim (at 20) store by_b 5).0 ≡ some (granted, busy.cp)
unfolding claim row Dict.get
expired = refl

claim-Granted_example :
    Granted (at 20) store by_b 5 busy granted busy.cp (claim (at 20) store by_b 5).1
claim-Granted_example =
    claim-Granted (at 20) store by_b 5 busy granted busy.cp named known_to_b expired

abbrev progress : Checkpoint
progress = record busy.cp { position = 4 }

abbrev working : Status
working = record busy.status { phase = live; position = 4 }

abbrev writes : Callback
writes m = (none, m)

takeover_fences_example :
    (commit 21 (claim (at 20) store by_b 5).1 by_a progress working writes
      ≡ (some claim_lost, (claim (at 20) store by_b 5).1))
    × (reset 21 (claim (at 20) store by_b 5).1 by_a 3 writes
        ≡ (some claim_lost, (claim (at 20) store by_b 5).1))
    × (save_status 21 (claim (at 20) store by_b 5).1 by_a working
        ≡ (some claim_lost, (claim (at 20) store by_b 5).1))
    × (fail_rebuild (claim (at 20) store by_b 5).1 by_a 3 "no"
        ≡ (some claim_lost, (claim (at 20) store by_b 5).1))
    × (release (claim (at 20) store by_b 5).1 by_a ≡ (claim (at 20) store by_b 5).1)
takeover_fences_example =
    takeover_fences (at 20) store by_b 5 busy by_a (granted, busy.cp) 21 3 progress working writes
      "no" named known_to_b refl refl refl refl expired

committed_once : (commit 12 store by_a progress working writes).0 ≡ none
unfolding commit owned Dict.get eventsourcing.Memory.ProjectionStore.committed
committed_once = refl

commit-Commits_example :
    Commits 12 store store by_a progress working (commit 12 store by_a progress working writes).1
commit-Commits_example = commit-Commits 12 store by_a progress working writes committed_once

reset_once : (reset 12 store by_a 3 writes).0 ≡ none
unfolding reset owned Dict.get eventsourcing.Memory.ProjectionStore.wiped
reset_once = refl

reset-Resets_example : Resets 12 by_a 3 store store (reset 12 store by_a 3 writes).1
reset-Resets_example = reset-Resets 12 by_a 3 store writes reset_once

claimed_by_a : row store by_a ≡ some busy
unfolding row Dict.get
claimed_by_a = refl

sorted : SortedFrom 0 (load_dead_letters store "balances" 0)
unfolding load_dead_letters row Dict.get
sorted = (omega arith, (omega arith, tt))

dead_letters-SortedFrom_example :
    SortedFrom 0 (load_dead_letters (save_dead_letter store by_a (letter 4)).1 "balances" 0)
    × SortedFrom 0 (load_dead_letters (delete_dead_letter store by_a 2).1 "balances" 0)
dead_letters-SortedFrom_example =
    dead_letters-SortedFrom store by_a busy claimed_by_a (letter 4) 2 sorted

abbrev later_try : ReplayRequest
later_try = record { stream_id = "account"; segments = (0, record { done = true; err = "" }) ∷ [] }

later_ne : ◌≢◌ {A = ℕ} 3 2
later_ne e = omega (arith, e)

abbrev tries : Dict ℕ ReplayRequest
tries =
    (1, record { stream_id = "account"; segments = (0, record { done = true; err = "no" }) ∷ [] })
    ∷ (2, record { stream_id = "account"; segments = (0, record { done = false; err = "" }) ∷ [] })
    ∷ (3, later_try)
    ∷ []

tries_later : Dict.get tries 3 ≡ some later_try
unfolding Dict.get
tries_later = refl

finish_request-keeps_example :
    Dict.get
      (finish_request tries 2
        (record { stream_id = "account"; segments = (0, record { done = false; err = "" }) ∷ [] })
        0
        "")
      3
    ≡ some later_try
finish_request-keeps_example =
    finish_request-keeps tries 2
      (record { stream_id = "account"; segments = (0, record { done = false; err = "" }) ∷ [] }) 0
      "" 3 later_try later_ne tries_later (inl (omega arith))

-- "a" beats at time 20, long after the last beat of "b".
abbrev beaten : ProjectionStore
beaten = record store {
  instances = ("balances", ("b", record { version = 1; heartbeat = 2; ttl = 5 }) ∷ []) ∷ [];
}

ttl_ne : ◌≢◌ {A = ℕ} 5 0
ttl_ne e = omega (arith, e)

heartbeat_expires_example :
    (Dict.get (beats_of (heartbeat 20 beaten "balances" "a" 1 5).1 "balances") "a"
      ≡ some (record { version = 1; heartbeat = 20; ttl = 5 }))
    × ((k : String) (b : Beat)
        → Dict.get (beats_of (heartbeat 20 beaten "balances" "a" 1 5).1 "balances") k ≡ some b
        → is_live 20 b ≡ true)
heartbeat_expires_example = heartbeat_expires 20 beaten "balances" "a" 1 5 ttl_ne
