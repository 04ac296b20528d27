-- ===== src/Memory/ProjectionStore/Rows.antt =====
-- Rows and claims after a row is written.
use eventsourcing.Shared.{
  ◌≡◌, refl, inl, inr, Bool, true, false, ◌&&◌, none, some, ◌==◌, string_eq, nat_eq, arith, eq_iff,
  Option-cases, if◌then◌else◌,
}
use eventsourcing.Shared.Dict
use eventsourcing.Shared.Dict.{get-put}
use eventsourcing.Projection.{Lease}
use eventsourcing.Memory.ProjectionStore.{ProjectionStore, Row, row, set_row, owned, claims}

-- The two leases are on the same segment.
abbrev pub same_segment : Lease → Lease → Bool
same_segment l j = l.name == j.name && l.segment == j.segment

pub row-set_row :
    (m : ProjectionStore) (l j : Lease) (old r : Row)
    → row m l ≡ some old
    → row (set_row m l r) j ≡ (if same_segment l j then some r else row m j)
unfolding row set_row
row-set_row m l j old r h = elim (Option-cases (Dict.get m.projections l.name)) [
  | inl e ↦ absurd (ground (arith, e))
  | inr (p, e) ↦ ground (
    arith,
    eq_iff l.name j.name,
    get-put m.projections l.name j.name (record p { rows = Dict.put p.rows l.segment r }),
    get-put p.rows l.segment j.segment r,
    e,
  )
]

pub same_segment_refl : (l : Lease) → same_segment l l ≡ true
same_segment_refl l = ground (arith, eq_iff l.name l.name)

-- A row is owned through a lease that claims it.
pub owned_iff :
    (m : ProjectionStore) (l : Lease) (r : Row)
    → owned m l ≡ some r
    → (row m l ≡ some r) × (claims r l ≡ true)
unfolding owned
owned_iff m l r h = elim (Option-cases (row m l)) [
  | inl e ↦ absurd (ground (arith, e))
  | inr (r', e) ↦ (ground (arith, e), ground (arith, e))
]

pub owned_of :
    (m : ProjectionStore) (l : Lease) (r : Row)
    → row m l ≡ some r
    → claims r l ≡ true
    → owned m l ≡ some r
unfolding owned
owned_of m l r e c = rw (e, c, owned)

pub not_owned :
    (m : ProjectionStore) (l : Lease) (r : Row)
    → row m l ≡ some r
    → claims r l ≡ false
    → owned m l ≡ none
unfolding owned
not_owned m l r e c = rw (e, c, owned)

pub row-same :
    (m : ProjectionStore) (l j : Lease)
    → l.name ≡ j.name
    → l.segment ≡ j.segment
    → row m l ≡ row m j
unfolding row
row-same m l j name segment = rw (name, segment) refl
