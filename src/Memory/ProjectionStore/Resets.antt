-- ===== src/Memory/ProjectionStore/Resets.antt =====
-- `Reset`: what a rebuild starts from.
use mathlib.Core.Option
use eventsourcing.Shared.{
  ℕ, ◌≤◌, ◌≡◌, ◌≢◌, refl, ◌∙◌, true, none, some, [], ◌∷◌, ◌==◌, string_eq, nat_eq, arith, eq_iff,
  Option-cases, inl, inr, if_cases, if◌then◌else◌,
}
use eventsourcing.Shared.Dict
use eventsourcing.Shared.Dict.{Dict, get-put}
use eventsourcing.Projection.{Lease, ProjectionError}
use eventsourcing.Memory.ProjectionStore.{
  ProjectionStore, Projected, Row, Callback, row, owned, claims, reset, wiped, reset_row,
  reset_rows,
}
use eventsourcing.Memory.ProjectionStore.Rows.{owned_iff, owned_of}

get-reset_rows :
    (now : ℕ) (l : Lease) (version : ℕ) (rows : Dict ℕ Row) (k : ℕ)
    → Dict.get (reset_rows now l version rows) k
      ≡ Option.map (reset_row now l version k) (Dict.get rows k)
unfolding Dict.get
get-reset_rows now l version [] k = refl
get-reset_rows now l version ((seg, r) ∷ rows) k =
    if_cases (λ b. b ≡ Option.map (reset_row now l version k) (Dict.get ((seg, r) ∷ rows) k))
      (seg == k) _ _ (λ hit. let e : seg ≡ k = ground (arith, hit) in rw (hit, e) refl)
      (λ miss. rw miss (get-reset_rows now l version rows k))

-- What a reset of m that returns no error has done to the projection, where its callback left m'.
pub record Resets (now : ℕ) (l : Lease) (version : ℕ) (m m' after : ProjectionStore) : Type 0 where
  pub held_first :
      (r : Row) × (row m l ≡ some r) × (r.owner ≡ l.owner) × (r.epoch ≡ l.epoch) × (l.owner ≢ "")
  pub still_held : Row
  pub held_before : owned m' l ≡ some still_held
  pub held_after : owned after l ≡ some (reset_row now l version l.segment still_held)
  pub rows_after :
      (j : Lease) (r : Row)
      → j.name ≡ l.name
      → row m' j ≡ some r
      → (q : Row) × (row after j ≡ some q)
        × (q.cp.position ≡ 0)
        × (q.cp.version ≡ version)
        × (r.cp.position ≤ q.cp.replay_until)
        × (r.cp.replay_until ≤ q.cp.replay_until)
        × (q.dead_letters ≡ [])
        × (q.epoch ≡ r.epoch)
        × (q.owner ≢ "" → j.segment ≡ l.segment)
  pub elsewhere : (j : Lease) → j.name ≢ l.name → row after j ≡ row m' j
  pub served :
      (p : Projected) × (Dict.get after.projections l.name ≡ some p)
      × (p.rebuilds_done ≡ p.rebuilds_requested)
      × (p.replays ≡ [])

module _ (now : ℕ) (l : Lease) (version : ℕ) where
  abbrev served_projection : Projected → Projected
  served_projection p = record p {
    rebuilds_done = p.rebuilds_requested;
    replays = [];
    rows = reset_rows now l version p.rows;
  }

  abbrev reset_store : ProjectionStore → Projected → ProjectionStore
  reset_store m p = record m { projections = Dict.put m.projections l.name (served_projection p) }

  row-reset_store :
      (m : ProjectionStore) (p : Projected) (j : Lease)
      → Dict.get m.projections l.name ≡ some p
      → row (reset_store m p) j ≡ (
          if l.name == j.name
          then Option.map (reset_row now l version j.segment) (row m j)
          else row m j)
  unfolding row
  row-reset_store m p j e = ground (
    arith,
    eq_iff l.name j.name,
    get-put m.projections l.name j.name (served_projection p),
    get-reset_rows now l version p.rows j.segment,
    e,
  )

  row-known :
      (m : ProjectionStore) (r : Row)
      → row m l ≡ some r
      → (p : Projected) × (Dict.get m.projections l.name ≡ some p)
  unfolding row
  row-known m r h = elim (Option-cases (Dict.get m.projections l.name)) [
    | inl e ↦ absurd (ground (arith, h, e))
    | inr found ↦ found
  ]

  claims-reset_row :
      (r : Row) → claims r l ≡ true → claims (reset_row now l version l.segment r) l ≡ true
  claims-reset_row r h = ground arith

  abbrev HeldFirst : ProjectionStore → Type 0
  HeldFirst m =
      (r : Row) × (row m l ≡ some r) × (r.owner ≡ l.owner) × (r.epoch ≡ l.epoch) × (l.owner ≢ "")

  owned-HeldFirst : (m : ProjectionStore) (r : Row) → owned m l ≡ some r → HeldFirst m
  owned-HeldFirst m r o =
      let (at, mine) = owned_iff m l r o in
      (
        r,
        at,
        ground (arith, eq_iff r.owner l.owner, mine),
        ground (arith, mine),
        ground (arith, eq_iff r.owner l.owner, eq_iff r.owner "", mine),
      )

  wiped-Resets :
      (m m' : ProjectionStore) (p : Projected) (r : Row)
      → HeldFirst m
      → owned m' l ≡ some r
      → Dict.get m'.projections l.name ≡ some p
      → Resets now l version m m' (reset_store m' p)
  wiped-Resets m m' p r first o e =
      let (at, mine) = owned_iff m' l r o in
      record {
        held_first = first;
        still_held = r;
        held_before = o;
        held_after =
            owned_of (reset_store m' p) l (reset_row now l version l.segment r)
              (row-reset_store m' p l e ∙ ground (arith, eq_iff l.name l.name, at))
              (claims-reset_row r mine);
        rows_after = λ j q same h. (
          reset_row now l version j.segment q,
          row-reset_store m' p j e ∙ ground (arith, eq_iff l.name j.name, h),
          ground arith,
          ground arith,
          ground arith,
          ground arith,
          ground arith,
          ground arith,
          λ claimed. ground (arith, claimed),
        );
        elsewhere = λ j other. row-reset_store m' p j e ∙ ground (arith, eq_iff l.name j.name);
        served = (
          served_projection p,
          ground (
            arith,
            get-put m'.projections l.name l.name (served_projection p),
            eq_iff l.name l.name,
          ),
          refl,
          refl,
        );
      }

  wiped-none :
      (m : ProjectionStore) (x : Option.Option ProjectionError × ProjectionStore)
      → HeldFirst m
      → (wiped now l version x).0 ≡ none
      → Resets now l version m x.1 (wiped now l version x).1
  unfolding wiped
  wiped-none m (some e, m') first h = absurd (ground (arith, h))
  wiped-none m (none, m') first h = elim (Option-cases (owned m' l)) [
    | inl lost ↦ absurd (ground (arith, h, lost))
    | inr (r, e) ↦
        let (p, known) = row-known m' r (owned_iff m' l r e).0 in
        rw (e, known, wiped) (wiped-Resets m m' p r first e known)
  ]

  -- A reset that returns no error was made under a claim that the lease held, by its owner and its
  -- epoch, in the store before its callback ran, and in the one that the callback left, and that it
  -- keeps. Every segment of the projection starts from position 0 under the new
  -- version, with the positions up to the old checkpoint as a replay, with no dead letters and with
  -- its epoch; no other segment is claimed. The rebuild requests are served, the replay requests
  -- are gone, and every other projection is as the callback left it.
  pub reset-Resets :
      (m : ProjectionStore) (wipe : Callback)
      → (reset now m l version wipe).0 ≡ none
      → Resets now l version m (wipe m).1 (reset now m l version wipe).1
  unfolding reset
  reset-Resets m wipe h = elim (Option-cases (owned m l)) [
    | inl lost ↦ absurd (ground (arith, h, lost))
    | inr (r, e) ↦
        rw (e, reset) (wiped-none m (wipe m) (owned-HeldFirst m r e) (rw (e, reset) at h))
  ]
