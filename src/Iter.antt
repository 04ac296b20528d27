-- ===== src/Iter.antt =====
-- iter.go: the pull-based iterator. What its closures read and write, the context included, is the
-- state `W` of the source; a panic of a closure is not modelled.
pub mod Laws
pub mod Slice
pub mod Drain
pub mod Wrapped
use eventsourcing.Shared.{
  ℕ, zero, suc, Bool, true, false, Option, none, some, List, [], ◌∷◌, length, get_elem?, leb,
  if◌then◌else◌,
}

-- What an `IterFunc` returns: an item, an error that wraps `io.EOF`, or another error.
pub data Pulled (E T : Type 0) : Type 0 where
  item : T → Pulled E T
  eof : Pulled E T
  failed : E → Pulled E T

-- The closures of an iterator, and the error of its context. `close` is none for a nil function.
pub record Source (W E T : Type 0) : Type 0 where
  pub ctx_err : W → Option E
  pub next : W → Pulled E T × W
  pub close : Option (W → Option E × W)

-- `current` is none for the zero value.
pub record Iterator (W E T : Type 0) : Type 0 where
  pub source : Source W E T
  pub world : W
  pub current : Option T
  pub error : Option E
  pub close_error : Option E
  pub done : Bool

module _ {W E T : Type 0} where
  unfoldable pub new_iterator : Source W E T → W → Iterator W E T
  new_iterator src w = record {
    source = src;
    world = w;
    current = none;
    error = none;
    close_error = none;
    done = false;
  }

  close_open : Option (W → Option E × W) → Iterator W E T → Iterator W E T
  close_open none it = record it { done = true; current = none }
  close_open (some f) it =
      let (e, w) = f it.world in
      record it { done = true; current = none; close_error = e; world = w }

  -- The result of `Close` is the field `close_error`.
  unfoldable pub close : Iterator W E T → Iterator W E T
  unfolding close_open
  close it = if it.done then it else close_open it.source.close it

  -- `Close` on a pointer that may be nil.
  pub close_pointer : Option (Iterator W E T) → Option E
  close_pointer none = none
  close_pointer (some it) = (close it).close_error

  unfoldable pub finish : Iterator W E T → Option E → Iterator W E T
  finish it e = close (record it { error = e })

  after_pull : Iterator W E T → Pulled E T → Iterator W E T × Bool
  after_pull it (item v) = (record it { current = some v }, true)
  after_pull it eof = (finish it none, false)
  after_pull it (failed e) = (finish it (some e), false)

  after_ctx : Iterator W E T → Option E → Iterator W E T × Bool
  unfolding after_pull
  after_ctx it (some e) = (finish it (some e), false)
  after_ctx it none = let (p, w) = it.source.next it.world in after_pull (record it { world = w }) p

  unfoldable pub next : Iterator W E T → Iterator W E T × Bool
  unfolding after_ctx
  next it = if it.done then (it, false) else after_ctx it (it.source.ctx_err it.world)

  unfoldable pub value : Iterator W E T → Option T
  value it = it.current

  -- `errors.Join` is a parameter.
  unfoldable pub err : (E → E → E) → Iterator W E T → Option E
  err join it = elim it.close_error [
    | none ↦ it.error
    | some c ↦ elim it.error [ none ↦ some c | some e ↦ some (join e c) ]
  ]

  -- `Values` run to its end, as `All` collects it: the items read, and the iterator after the
  -- deferred `Close`. `none` means that the fuel ran out.
  unfoldable pub collect : ℕ → Iterator W E T → Option (List (Option T) × Iterator W E T)
  collect zero it = none
  collect (suc f) it =
      let rest = collect f (next it).0 in
      if (next it).1
      then elim rest [ none ↦ none | some (vs, end) ↦ some (value (next it).0 ∷ vs, end) ]
      else some ([], close (next it).0)

  -- `All`: the items, and the result of `Err`.
  unfoldable pub all : (E → E → E) → ℕ → Iterator W E T → Option (List (Option T) × Option E)
  all join f it = elim (collect f it) [ none ↦ none | some (vs, end) ↦ some (vs, err join end) ]

-- `NewSliceIterator`: the closure's state is the index of the next element.
module _ {E T : Type 0} where
  unfoldable pub slice_next : List T → ℕ → Pulled E T × ℕ
  slice_next s i = elim (get_elem? s i) [ none ↦ (eof, i) | some v ↦ (item v, suc i) ]

  -- `ctx i` is the error of the context when the next element is the i-th.
  abbrev pub slice_source : (ℕ → Option E) → List T → Source ℕ E T
  slice_source ctx s = record { ctx_err = ctx; next = slice_next s; close = none }

  abbrev pub new_slice_iterator : (ℕ → Option E) → List T → Iterator ℕ E T
  new_slice_iterator ctx s = new_iterator (slice_source ctx s) 0

-- `Wrap`. The state of the new iterator is the source iterator and the errors that `done` has been
-- called with, newest first.
pub record Wrapping (W E T : Type 0) : Type 0 where
  pub inner : Iterator W E T
  pub reports : List (Option E)

module _ {W E T : Type 0} where
  unfoldable pub wrapped_close : (E → E → E) → Wrapping W E T → Option E × Wrapping W E T
  wrapped_close join w =
      let it = close w.inner in
      (err join it, record { inner = it; reports = err join it ∷ w.reports })

module _ {W E T U : Type 0} where
  unfoldable pub wrapped_next :
      (Iterator W E T → Pulled E U × Iterator W E T) → Wrapping W E T → Pulled E U × Wrapping W E T
  wrapped_next f w = ((f w.inner).0, record w { inner = (f w.inner).1 })

  unfoldable pub wrap :
      (E → E → E)
      → Iterator W E T
      → (Iterator W E T → Pulled E U × Iterator W E T)
      → Iterator (Wrapping W E T) E U
  wrap join src f =
      new_iterator
        (record {
          ctx_err = λ w. w.inner.source.ctx_err w.inner.world;
          next = wrapped_next f;
          close = some (wrapped_close join);
        })
        (record { inner = src; reports = [] })
