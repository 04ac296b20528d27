-- ===== src/Memory/ProjectionStore/DeadLetters.antt =====
-- The dead letters of memory/projection_store.go. `slices.BinarySearchFunc` is modelled by what it
-- gives on a sorted slice, the first index whose element is not before the target.
use eventsourcing.Shared.{
  ℕ, ◌≤◌, String, ◌≡◌, refl, sym, ◌∙◌, not, Option, none, some, List, [], ◌∷◌, ◌==◌, string_eq,
  nat_eq, arith, ltb, keep, if_cases, if◌then◌else◌,
}
use eventsourcing.Projection.{DeadLetter, Lease, ProjectionError, claim_lost}
use eventsourcing.Memory.ProjectionStore.{ProjectionStore, Row, row, set_row}
use eventsourcing.Memory.ProjectionStore.Rows.{row-set_row, same_segment_refl}

-- The letter is inserted where the search ends.
unfoldable pub insert : List DeadLetter → DeadLetter → List DeadLetter
insert [] d = d ∷ []
insert (x ∷ xs) d = if ltb x.position d.position then x ∷ insert xs d else d ∷ x ∷ xs

unfoldable pub save_dead_letter :
    ProjectionStore → Lease → DeadLetter → Option ProjectionError × ProjectionStore
save_dead_letter m l d = elim (row m l) [
  | none ↦ (some claim_lost, m)
  | some r ↦ (none, set_row m l (record r { dead_letters = insert r.dead_letters d }))
]

unfoldable pub load_dead_letters : ProjectionStore → String → ℕ → List DeadLetter
load_dead_letters m name seg =
    elim (row m (record { name = name; segment = seg; owner = ""; epoch = 0 })) [
      | none ↦ []
      | some r ↦ r.dead_letters
    ]

-- `slices.DeleteFunc`
abbrev pub without : ℕ → List DeadLetter → List DeadLetter
without position ds = keep (λ d. not (d.position == position)) ds

unfoldable pub delete_dead_letter :
    ProjectionStore → Lease → ℕ → Option ProjectionError × ProjectionStore
delete_dead_letter m l position = elim (row m l) [
  | none ↦ (some claim_lost, m)
  | some r ↦ (none, set_row m l (record r { dead_letters = without position r.dead_letters }))
]

-- In order of position, none before n.
abbrev pub SortedFrom : ℕ → List DeadLetter → Type 0
SortedFrom n [] = Unit
SortedFrom n (d ∷ ds) = (n ≤ d.position) × SortedFrom d.position ds

insert-SortedFrom :
    (n : ℕ) (ds : List DeadLetter) (d : DeadLetter)
    → n ≤ d.position
    → SortedFrom n ds
    → SortedFrom n (insert ds d)
unfolding insert
insert-SortedFrom n [] d h s = (h, tt)
insert-SortedFrom n (x ∷ xs) d h s =
    if_cases (SortedFrom n) (ltb x.position d.position) _ _
      (λ less. (s.0, insert-SortedFrom x.position xs d (ground (arith, less)) s.1))
      (λ rest. (h, (ground (arith, rest), s.1)))

SortedFrom-lower : (n k : ℕ) (ds : List DeadLetter) → k ≤ n → SortedFrom n ds → SortedFrom k ds
SortedFrom-lower n k [] h s = tt
SortedFrom-lower n k (d ∷ ds) h s = (omega (arith, s.0), s.1)

without-SortedFrom :
    (n k : ℕ) (ds : List DeadLetter) → SortedFrom n ds → SortedFrom n (without k ds)
without-SortedFrom n k [] s = tt
without-SortedFrom n k (d ∷ ds) s =
    if_cases (SortedFrom n) (not (d.position == k)) _ _
      (λ kept. (s.0, without-SortedFrom d.position k ds s.1))
      (λ gone.
        SortedFrom-lower d.position n (without k ds) s.0 (without-SortedFrom d.position k ds s.1))

insert-deleted :
    (ds : List DeadLetter) (d : DeadLetter)
    → without d.position (insert ds d) ≡ without d.position ds
unfolding insert
insert-deleted [] d = ground arith
insert-deleted (x ∷ xs) d = ground (arith, insert-deleted xs d)

load-row :
    (n : ProjectionStore) (l : Lease) (q : Row)
    → row n l ≡ some q
    → load_dead_letters n l.name l.segment ≡ q.dead_letters
unfolding load_dead_letters row
load-row n l q e = ground (arith, e)

module _ (m : ProjectionStore) (l : Lease) (r : Row) (at : row m l ≡ some r) where
  saved_row :
      (d : DeadLetter)
      → row (save_dead_letter m l d).1 l
        ≡ some (record r { dead_letters = insert r.dead_letters d })
  unfolding save_dead_letter
  saved_row d =
      rw (at, save_dead_letter)
        (rw
          (
            row-set_row m l l r (record r { dead_letters = insert r.dead_letters d }) at,
            same_segment_refl l,
          )
          refl)

  deleted_row :
      (k : ℕ)
      → row (delete_dead_letter m l k).1 l
        ≡ some (record r { dead_letters = without k r.dead_letters })
  unfolding delete_dead_letter
  deleted_row k =
      rw (at, delete_dead_letter)
        (rw
          (
            row-set_row m l l r (record r { dead_letters = without k r.dead_letters }) at,
            same_segment_refl l,
          )
          refl)

  deleted_again :
      (d : DeadLetter)
      → row (delete_dead_letter (save_dead_letter m l d).1 l d.position).1 l
        ≡ some (record r { dead_letters = without d.position (insert r.dead_letters d) })
  unfolding delete_dead_letter
  deleted_again d =
      let q : Row = record r { dead_letters = insert r.dead_letters d } in
      rw (saved_row d, delete_dead_letter)
        (rw
          (
            row-set_row (save_dead_letter m l d).1 l l q
                (record q { dead_letters = without d.position q.dead_letters }) (saved_row d),
            same_segment_refl l,
          )
          refl)

  -- The dead letters of a segment that is declared stay in order of position: those that
  -- `LoadDeadLetters` returns after one is saved, and after those of a position are deleted.
  pub dead_letters-SortedFrom :
      (d : DeadLetter) (k : ℕ)
      → SortedFrom 0 (load_dead_letters m l.name l.segment)
      → SortedFrom 0 (load_dead_letters (save_dead_letter m l d).1 l.name l.segment)
        × SortedFrom 0 (load_dead_letters (delete_dead_letter m l k).1 l.name l.segment)
  dead_letters-SortedFrom d k s =
      let s' : SortedFrom 0 r.dead_letters = rw (load-row m l r at) at s in
      (
        rw (load-row _ l _ (saved_row d)) (insert-SortedFrom 0 r.dead_letters d (omega arith) s'),
        rw (load-row _ l _ (deleted_row k)) (without-SortedFrom 0 k r.dead_letters s'),
      )

  -- Saving a dead letter and deleting those of its position leaves the segment with what deleting
  -- alone leaves.
  delete-save_dead_letter :
      (d : DeadLetter)
      → load_dead_letters
          (delete_dead_letter (save_dead_letter m l d).1 l d.position).1
          l.name
          l.segment
        ≡ load_dead_letters (delete_dead_letter m l d.position).1 l.name l.segment
  delete-save_dead_letter d =
      load-row _ l _ (deleted_again d)
      ∙ insert-deleted r.dead_letters d
      ∙ sym (load-row _ l _ (deleted_row d.position))
