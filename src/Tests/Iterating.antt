-- ===== src/Tests/Iterating.antt =====
-- The iterators: a slice, and a source that counts the calls of its close function.
use eventsourcing.Shared.{
  ℕ, ◌+◌, ◌<◌, ◌≡◌, refl, true, Option, none, some, List, [], ◌∷◌, arith, ltb, length,
  if◌then◌else◌,
}
use eventsourcing.Iter.{
  Wrapping, Pulled, item, eof, failed, Source, Iterator, new_iterator, new_slice_iterator, all,
  next, value, wrap, err, slice_next,
}
use eventsourcing.Iter.Laws.{Call, calls_next, calls_close, run, closed_once}
use eventsourcing.Iter.Slice.{all_slice, all_slice_cancelled}
use eventsourcing.Iter.Wrapped.{reported_once, wrap_ends_source}

abbrev alive : ℕ → Option ℕ
alive i = none

-- The context ends, with the error 9, once two items are read.
abbrev ending : ℕ → Option ℕ
ending i = if ltb i 2 then none else some 9

abbrev first : ℕ → ℕ → ℕ
first a b = a

abbrev three : List ℕ
three = 4 ∷ 5 ∷ 6 ∷ []

all_slice_example :
    all first 4 (new_slice_iterator alive three) ≡ some (some 4 ∷ some 5 ∷ some 6 ∷ [], none)
all_slice_example = all_slice alive three first 4 (λ j h. refl) (omega arith)

ending_later : (j : ℕ) → j < 2 → ending j ≡ none
ending_later j h = ground arith

all_slice_cancelled_example :
    all first 3 (new_slice_iterator ending three) ≡ some (some 4 ∷ some 5 ∷ [], some 9)
all_slice_cancelled_example =
    all_slice_cancelled ending three first 3 2 9 (omega arith) ending_later refl (omega arith)

-- The state: the index of the next item, and how often the close function has run.
abbrev pull : ℕ × ℕ → Pulled ℕ ℕ × (ℕ × ℕ)
pull (i, n) = (if ltb i 2 then item i else eof, (i + 1, n))

abbrev shut : ℕ × ℕ → Option ℕ × (ℕ × ℕ)
shut (i, n) = (some 8, (i, n + 1))

abbrev counting : Source (ℕ × ℕ) ℕ ℕ
counting = record { ctx_err = λ w. none; next = pull; close = some shut }

abbrev calls : List Call
calls = calls_next ∷ calls_next ∷ calls_next ∷ calls_close ∷ calls_next ∷ calls_close ∷ []

closed_once_example :
    (run (new_iterator counting (0, 0)) calls).world.1
    ≡ (if (run (new_iterator counting (0, 0)) calls).done then 1 else 0)
closed_once_example =
    closed_once (λ (w : ℕ × ℕ). w.1) shut (λ w. refl) counting (0, 0) calls refl (λ v. refl)

abbrev forward : Iterator (ℕ × ℕ) ℕ ℕ → Pulled ℕ ℕ × Iterator (ℕ × ℕ) ℕ ℕ
forward it = (if (next it).1 then item 1 else eof, (next it).0)

abbrev wrapper : Iterator (Wrapping (ℕ × ℕ) ℕ ℕ) ℕ ℕ
wrapper = wrap first (new_iterator counting (0, 0)) forward

reported_once_example :
    length (run wrapper calls).world.reports ≡ (if (run wrapper calls).done then 1 else 0)
reported_once_example = reported_once first (new_iterator counting (0, 0)) forward calls

abbrev brief : List Call
brief = calls_next ∷ calls_close ∷ []

wrapper_done : (run wrapper brief).done ≡ true
unfolding run eventsourcing.Iter.Laws.call eventsourcing.Iter.close next wrap new_iterator
    eventsourcing.Iter.wrapped_next
wrapper_done = refl

wrap_ends_source_example :
    ((run wrapper brief).world.inner.done ≡ true)
    × ((run wrapper brief).close_error ≡ err first (run wrapper brief).world.inner)
wrap_ends_source_example =
    wrap_ends_source first (new_iterator counting (0, 0)) forward brief wrapper_done
