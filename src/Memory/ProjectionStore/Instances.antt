-- ===== src/Memory/ProjectionStore/Instances.antt =====
-- The instances of memory/projection_store.go: `Heartbeat` and `LoadInstances`.
use Prim.Native.Nat.{Ordering}
use Prim.Native.String.{compare}
use eventsourcing.Shared.{
  ℕ, ◌+◌, ◌-◌, ◌≡◌, ◌≢◌, String, Bool, true, false, not, ◌&&◌, none, some, List, [], ◌∷◌, ◌==◌,
  string_eq, nat_eq, leb, arith, eq_iff, if◌then◌else◌,
}
use eventsourcing.Shared.Dict
use eventsourcing.Shared.Dict.{Dict, get-put}
use eventsourcing.Projection.{Instance}
use eventsourcing.Memory.ProjectionStore.{ProjectionStore, Row, Beat}

-- The beat's own ttl has not passed.
abbrev pub is_live : ℕ → Beat → Bool
is_live now b = leb (now - b.heartbeat) b.ttl

-- The map `held`: how many segments an owner claims.
abbrev segments_of : String → Dict ℕ Row → ℕ
segments_of owner [] = 0
segments_of owner ((seg, r) ∷ rows) =
    let rest = segments_of owner rows in
    if r.owner == owner && not (r.owner == "") then rest + 1 else rest

abbrev not_after : String → String → Bool
not_after a b = elim (compare a b) [ Ordering.gt ↦ false | _ ↦ true ]

-- `slices.SortFunc` by owner
insert : Instance → List Instance → List Instance
insert a [] = a ∷ []
insert a (b ∷ bs) =
    let rest = insert a bs in if not_after a.owner b.owner then a ∷ b ∷ bs else b ∷ rest

listed : ℕ → Dict ℕ Row → Dict String Beat → List Instance
unfolding insert
listed now rows [] = []
listed now rows ((owner, b) ∷ beats) =
    let rest = listed now rows beats in
    if is_live now b
    then insert
        (record {
          owner = owner;
          version = b.version;
          segments = segments_of owner rows;
          age = now - b.heartbeat;
        })
        rest
    else rest

abbrev rows_of : ProjectionStore → String → Dict ℕ Row
rows_of m name = elim (Dict.get m.projections name) [ none ↦ [] | some p ↦ p.rows ]

-- m.instances[name], nil for a missing one.
abbrev pub beats_of : ProjectionStore → String → Dict String Beat
beats_of m name = elim (Dict.get m.instances name) [ none ↦ [] | some beats ↦ beats ]

unfoldable pub live_instances : ProjectionStore → String → ℕ → List Instance
unfolding listed
live_instances m name now = listed now (rows_of m name) (beats_of m name)

pub load_instances : ℕ → ProjectionStore → String → List Instance
load_instances now m name = live_instances m name now

-- The loop that deletes what has expired.
unfoldable pub expire : ℕ → Dict String Beat → Dict String Beat
expire now [] = []
expire now ((owner, b) ∷ beats) =
    let rest = expire now beats in if is_live now b then (owner, b) ∷ rest else rest

-- Removing an owner of a nil map does nothing.
forget : ProjectionStore → String → String → ProjectionStore
forget m name owner = elim (Dict.get m.instances name) [
  | none ↦ m
  | some beats ↦ record m { instances = Dict.put m.instances name (Dict.remove beats owner) }
]

abbrev pub beating : ℕ → ProjectionStore → String → String → ℕ → ℕ → ProjectionStore
beating now m name owner version ttl = record m {
  instances = Dict.put m.instances name (
      expire now (
        Dict.put (beats_of m name) owner
          (record { version = version; heartbeat = now; ttl = ttl })));
}

unfoldable pub heartbeat :
    ℕ → ProjectionStore → String → String → ℕ → ℕ → List Instance × ProjectionStore
unfolding forget
heartbeat now m name owner version ttl = if ttl == 0 then ([], forget m name owner) else (
  live_instances (beating now m name owner version ttl) name now,
  beating now m name owner version ttl,
)

expire-live :
    (now : ℕ) (beats : Dict String Beat) (k : String) (b : Beat)
    → Dict.get (expire now beats) k ≡ some b
    → is_live now b ≡ true
unfolding Dict.get expire
expire-live now [] k b h = cc
expire-live now ((owner, x) ∷ beats) k b h = ground (arith, h, expire-live now beats k b)

get-expire :
    (now : ℕ) (beats : Dict String Beat) (k : String) (b : Beat)
    → Dict.get beats k ≡ some b
    → is_live now b ≡ true
    → Dict.get (expire now beats) k ≡ some b
unfolding Dict.get expire
get-expire now [] k b h live_ = cc
get-expire now ((owner, x) ∷ beats) k b h live_ = ground (arith, h, live_, get-expire now beats k b)

module _ (now : ℕ) (m : ProjectionStore) (name owner : String) (version ttl : ℕ) where
  beats-beating :
      beats_of (beating now m name owner version ttl) name
      ≡ expire now (
          Dict.put
            (beats_of m name)
            owner
            (record { version = version; heartbeat = now; ttl = ttl }))
  beats-beating =
      let beat : Beat = record { version = version; heartbeat = now; ttl = ttl } in
      ground (
        arith,
        get-put m.instances name name (expire now (Dict.put (beats_of m name) owner beat)),
        eq_iff name name,
      )

  -- After a heartbeat with a ttl that is not zero, the store holds the caller's beat of this time,
  -- and no instance of the projection whose own ttl has passed.
  pub heartbeat_expires :
      ttl ≢ 0
      → (Dict.get (beats_of (heartbeat now m name owner version ttl).1 name) owner
          ≡ some (record { version = version; heartbeat = now; ttl = ttl }))
        × ((k : String) (b : Beat)
            → Dict.get (beats_of (heartbeat now m name owner version ttl).1 name) k ≡ some b
            → is_live now b ≡ true)
  unfolding heartbeat
  heartbeat_expires alive =
      let beat : Beat = record { version = version; heartbeat = now; ttl = ttl } in
      let beats = Dict.put (beats_of m name) owner beat in
      let on : (ttl == 0) ≡ false = ground (arith, alive) in
      let stored : Dict.get beats owner ≡ some beat =
        ground (arith, get-put (beats_of m name) owner owner beat, eq_iff owner owner) in
      rw (on, heartbeat)
        (rw beats-beating (
          get-expire now beats owner beat stored (ground arith),
          λ k b h. expire-live now beats k b h,
        ))
